-- ===== src/SessionManager/Expiry/Tests.antt =====
-- Runs of the session manager at concrete inputs.
use kamal_proxy.Base.{ℕ, ◌≡◌, refl, true, false, [], ◌∷◌, none, some, ◌==◌, if◌then◌else◌}
use kamal_proxy.Base.Int.{pos, negsuc, ◌+ℤ◌, ◌-ℤ◌}
use kamal_proxy.Base.Assoc.{get, string_eq}
use kamal_proxy.SessionManager.{
  UdpTarget, UdpAddr, is_active, Md5, active, draining, UdpSession, SessionConfig,
  SessionDrainPolicy, SessionManager, generate_session_id, five_tuple_of, route_packet, decimal,
  detect_protocol,
}
use kamal_proxy.SessionManager.Expiry.{
  is_active_on, drain_target_with_policy, cleanup_expired_sessions,
}
use kamal_proxy.SessionManager.Route.{RouteOutcome, client_id, route_packet-RouteOutcome}
use kamal_proxy.SessionManager.Expiry.Drained.{
  IsOver, cleanup_expired_sessions_exact, drain_deadline, route_packet_extends_drain,
}

port_digits : decimal 5060 ≡ "5060"
unfolding decimal
port_digits = refl

-- A packet that passes both tests is taken for RTP.
long_rtcp : detect_protocol (128 ∷ 200 ∷ 0 ∷ 0 ∷ 0 ∷ 0 ∷ 0 ∷ 0 ∷ 0 ∷ 0 ∷ 0 ∷ 0 ∷ []) ≡ "rtp"
unfolding detect_protocol
long_rtcp = refl

abbrev fake_md5 : Md5
fake_md5 = record { hex8 = λ s. s; first_byte = λ s. 7 }

-- The first target is down.
abbrev heap : ℕ → UdpTarget
heap t = record { url = if t == 0 then "a:1" else "b:1"; healthy = if t == 0 then false else true }

abbrev by_ip : SessionConfig
by_ip = record {
  idle_timeout = pos 30;
  stickiness_enabled = true;
  stickiness_strategy = "source-ip";
  max_sessions = 10;
  persistence_enabled = true;
}

abbrev client : UdpAddr
client = record { ip = "1.2.3.4"; port = 5060 }

abbrev session : UdpSession
session = record {
  id = "ip-1.2.3.4";
  five_tuple = five_tuple_of client 53;
  target = some 1;
  target_url = "b:1";
  service_name = "dns";
  created_at = pos 5;
  last_seen = pos 5;
  state = active;
  protocol = "udp";
  metadata = some [];
}

abbrev manager : SessionManager
manager = record { sessions = ("ip-1.2.3.4", session) ∷ []; config = by_ip; store_calls = [] }

abbrev policy : SessionDrainPolicy
policy = record {
  strategy = "timeout";
  grace_period = pos 0;
  max_wait_time = pos 10;
  notify_clients = false;
}

route_packet-RouteOutcome_example :
    let r = route_packet fake_md5 heap client 53 "dns" (0 ∷ 1 ∷ []) (pos 9) manager in
    RouteOutcome fake_md5 heap client 53 "dns"
      (0 ∷ 1 ∷ [])
      (pos 9)
      manager
      (get (client_id fake_md5 heap client 53 "dns" (0 ∷ 1 ∷ []) (pos 9) manager) manager.sessions)
      r.0
      r.1
route_packet-RouteOutcome_example =
    route_packet-RouteOutcome fake_md5 heap client 53 "dns" (0 ∷ 1 ∷ []) (pos 9) manager

cleanup_expired_sessions_exact_example :
    let after = get "ip-1.2.3.4" (cleanup_expired_sessions (pos 40) manager).sessions in
    ((s : UdpSession)
      → get "ip-1.2.3.4" manager.sessions ≡ some s
      → (IsOver (pos 40) by_ip s → after ≡ none) × (¬ IsOver (pos 40) by_ip s → after ≡ some s))
    × (get "ip-1.2.3.4" manager.sessions ≡ none → after ≡ none)
unfolding get
cleanup_expired_sessions_exact_example =
    cleanup_expired_sessions_exact (pos 40) manager "ip-1.2.3.4" (refl, tt)

drain_deadline_example :
    get "ip-1.2.3.4"
      (cleanup_expired_sessions
        (pos 20)
        (drain_target_with_policy "b:1" policy (pos 9) manager)).sessions
    ≡ none
unfolding get is_active_on is_active ◌+ℤ◌
drain_deadline_example =
    drain_deadline "b:1" policy (pos 9) (pos 20) manager "ip-1.2.3.4" session (refl, tt) refl refl
      refl refl

-- The session as drained at 9: with the time-out of 30 it is over after 19.
abbrev drained : UdpSession
drained = record session { state = draining; last_seen = negsuc 10 }

abbrev draining_manager : SessionManager
draining_manager = record manager { sessions = ("ip-1.2.3.4", drained) ∷ [] }

abbrev seen_again : UdpSession
seen_again = record drained { last_seen = pos 15 }

route_packet_extends_drain_example :
    (get
        (client_id fake_md5 heap client 53 "dns" (0 ∷ 1 ∷ []) (pos 15) draining_manager)
        (cleanup_expired_sessions
          (pos 45)
          (route_packet fake_md5 heap client 53 "dns"
            (0 ∷ 1 ∷ [])
            (pos 15)
            draining_manager).0).sessions
      ≡ some seen_again)
    × (seen_again.state ≡ draining)
unfolding get generate_session_id route_packet ◌-ℤ◌ is_active
route_packet_extends_drain_example =
    route_packet_extends_drain fake_md5 heap client 53 "dns" (0 ∷ 1 ∷ []) (pos 15) (pos 45)
      draining_manager 1 drained seen_again (refl, tt) refl refl refl refl

abbrev fresh_session : UdpSession
fresh_session = record session { target = none }
