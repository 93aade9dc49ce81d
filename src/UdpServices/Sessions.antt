-- ===== src/UdpServices/Sessions.antt =====
-- The sessions of a service that is replaced.
use kamal_proxy.Base.{ℕ, ◌<◌, ◌≡◌, refl, inl, inr, String, true, false, List, [], some, arith, Elem}
use kamal_proxy.Base.Int.{ℤ}
use kamal_proxy.Base.Assoc.{get, put, nat_eq, string_eq, get-put_same}
use kamal_proxy.SessionManager.{
  UdpAddr, UdpSession, SessionConfig, Md5, is_active, five_tuple_of, generate_session_id, touch,
}
use kamal_proxy.SessionManager.Sticky.{current_target-some, route_packet-sticky}
use kamal_proxy.UdpTarget.{
  UdpTargets, UdpError, Net, ok, err, start_each, stop_targets, no_connection,
}
use kamal_proxy.UdpTarget.Stopped.{
  result_cases, stop_targets-target, start_each-old, stop_targets-stopped, forward_packet-stopped,
}
use kamal_proxy.UdpServices.{
  UdpService, UdpServiceMap, stop_existing, stop_service, deploy_service, served, forwarded,
  serve_udp,
}

deployed : SessionConfig → String → ℕ → List ℕ → UdpTargets → UdpServiceMap → UdpServiceMap
deployed config name port ts w m = record m {
  targets = stop_existing (get port m.services) w;
  services =
      put port
        (record {
          name = name;
          port = port;
          port_ranges = [];
          targets = ts;
          current_target = 0;
          session_config = config;
          service_type = "udp";
          allocations = [];
        })
        m.services;
}

deploy_service-ok :
    (net : Net) (config : SessionConfig) (name : String) (port : ℕ) (urls : List String)
    (m : UdpServiceMap) (ts : List ℕ)
    → (start_each net urls m.targets).1 ≡ ok ts
    → deploy_service net config name port urls m
      ≡ (deployed config name port ts (start_each net urls m.targets).0 m, ok tt)
unfolding deploy_service deployed
deploy_service-ok net config name port urls m ts e = rw (e, deploy_service) refl

deploy_service-err :
    (net : Net) (config : SessionConfig) (name : String) (port : ℕ) (urls : List String)
    (m : UdpServiceMap) (e : UdpError)
    → (start_each net urls m.targets).1 ≡ err e
    → (deploy_service net config name port urls m).1 ≡ err e
unfolding deploy_service
deploy_service-err net config name port urls m e f = rw (f, deploy_service) refl

serve_udp_lem :
    (md5 : Md5) (net : Net) (addr : UdpAddr) (now : ℤ) (s : UdpService) (m : UdpServiceMap)
    (session : UdpSession) (t : ℕ)
    → let id = generate_session_id md5 m.sessions.config (five_tuple_of addr s.port) in
      get id m.sessions.sessions ≡ some session
      → is_active session.state ≡ true
      → session.target ≡ some t
      → (m.targets.target t).healthy ≡ true
      → m.targets.connected t ≡ false
      → ((serve_udp md5 net addr now s m).1 ≡ forwarded no_connection)
        × (get id (serve_udp md5 net addr now s m).0.sessions.sessions ≡ some (touch now session))
unfolding serve_udp served
serve_udp_lem md5 net addr now s m session t e a f h c =
    let id = generate_session_id md5 m.sessions.config (five_tuple_of addr s.port) in
    let r =
      route_packet-sticky md5 m.targets.target addr s.port s.name s.targets now m.sessions session t
        e (current_target-some m.targets.target session t a f h) in
    rw (r, forward_packet-stopped t net m.targets h c)
      (refl, get-put_same id (touch now session) m.sessions.sessions)

module _ (md5 : Md5) (net net' : Net) (config : SessionConfig) (name : String) (port : ℕ)
    (urls : List String) (m : UdpServiceMap) (s : UdpService) (t : ℕ) (addr : UdpAddr)
    (session : UdpSession) (now : ℤ) where
  -- The session of a client at the port.
  abbrev pub id : String
  id = generate_session_id md5 m.sessions.config (five_tuple_of addr port)

  -- The bug: replacing the service of a port strands the clients of its healthy targets. The targets
  -- are stopped, but still pass for healthy, and no session is moved: a packet of such a client is
  -- routed to the stopped target, where it is lost, and keeps the session alive.
  pub deploy_service_strands :
      get port m.services ≡ some s
      → Elem t s.targets
      → t < m.targets.next_address
      → (m.targets.target t).healthy ≡ true
      → get id m.sessions.sessions ≡ some session
      → is_active session.state ≡ true
      → session.target ≡ some t
      → (deploy_service net config name port urls m).1 ≡ ok tt
      → let m' = (deploy_service net config name port urls m).0 in
        (s' : UdpService) × (get port m'.services ≡ some s')
        × ((serve_udp md5 net' addr now s' m').1 ≡ forwarded no_connection)
        × (get id (serve_udp md5 net' addr now s' m').0.sessions.sessions
            ≡ some (touch now session))
  unfolding stop_existing stop_service deployed
  deploy_service_strands found i old healthy known active target done =
      elim (result_cases (start_each net urls m.targets).1) [
        | inr (e, f) ↦ absurd (ground (arith, deploy_service-err net config name port urls m e f))
        | inl (ts, f) ↦
            let w = (start_each net urls m.targets).0 in
            let s' : UdpService = record {
              name = name;
              port = port;
              port_ranges = [];
              targets = ts;
              current_target = 0;
              session_config = config;
              service_type = "udp";
              allocations = [];
            } in
            let up : ((stop_targets s.targets w).target t).healthy ≡ true =
              rw (stop_targets-target s.targets w, start_each-old t net urls m.targets old)
                healthy in
            let (lost, kept) =
              serve_udp_lem md5 net' addr now s' (deployed config name port ts w m) session t known
                active target (rw found up) (rw found (stop_targets-stopped t s.targets w i)) in
            rw (deploy_service-ok net config name port urls m ts f)
              (s', get-put_same port s' m.services, lost, kept)
      ]
