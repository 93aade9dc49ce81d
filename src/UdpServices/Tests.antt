-- ===== src/UdpServices/Tests.antt =====
-- A service on port 53 with one client, and a WebRTC service that is deployed again.
use kamal_proxy.Base.{◌≡◌, refl, true, false, [], ◌∷◌, some, arith, inl}
use kamal_proxy.Base.Int.{pos}
use kamal_proxy.Base.Assoc.{get, string_eq, nat_eq}
use kamal_proxy.SessionManager.{
  UdpAddr, is_active, Md5, active, UdpSession, SessionConfig, generate_session_id, five_tuple_of,
  touch,
}
use kamal_proxy.PortAllocator.{PortConfig, Os, new_port_allocator}
use kamal_proxy.PortAllocator.Invariant.{new_port_allocator-IsValid}
use kamal_proxy.UdpTarget.{Net, Result, no_connection, start_each}
use kamal_proxy.UdpDeployment.{UdpDeploymentConfig, new_udp_deployment_manager}
use kamal_proxy.UdpServices.{UdpService, UdpServiceMap, deploy_service, serve_udp, forwarded}
use kamal_proxy.UdpServices.Sessions.{deploy_service_strands}
use kamal_proxy.UdpServices.WebRtc.{Machine, deploy_webrtc_service_now}
use kamal_proxy.UdpServices.WebRtc.Freed.{Stranded, deploy_webrtc_service_now-Stranded}

abbrev fake_md5 : Md5
fake_md5 = record { hex8 = λ s. s; first_byte = λ s. 7 }

abbrev by_ip : SessionConfig
by_ip = record {
  idle_timeout = pos 30;
  stickiness_enabled = true;
  stickiness_strategy = "source-ip";
  max_sessions = 10;
  persistence_enabled = false;
}

abbrev client : UdpAddr
client = record { ip = "1.2.3.4"; port = 5060 }

abbrev session : UdpSession
session = record {
  id = "ip-1.2.3.4";
  five_tuple = five_tuple_of client 53;
  target = some 0;
  target_url = "b:1";
  service_name = "dns";
  created_at = pos 5;
  last_seen = pos 5;
  state = active;
  protocol = "udp";
  metadata = some [];
}

abbrev service : UdpService
service = record {
  name = "dns";
  port = 53;
  port_ranges = [];
  targets = 0 ∷ [];
  current_target = 0;
  session_config = by_ip;
  service_type = "udp";
  allocations = [];
}

abbrev deployment_config : UdpDeploymentConfig
deployment_config = record {
  drain_timeout = 30;
  health_check_timeout = 5;
  force_kill_timeout = 120;
  session_check_interval = 5;
}

abbrev ports : PortConfig
ports = record {
  rtp_port_range = record { start = 10000; end_port = 10010; step = 2 };
  rtcp_port_range = record { start = 20000; end_port = 20010; step = 1 };
  allocation_ttl = 3600;
  rtcp_policy = "adjacent";
  cleanup_interval = 60;
}

-- Target 0 is connected and healthy.
abbrev map : UdpServiceMap
map = record {
  services = (53, service) ∷ [];
  port_services = ("call", service) ∷ [];
  sessions = record { sessions = ("ip-1.2.3.4", session) ∷ []; config = by_ip; store_calls = [] };
  ports = new_port_allocator 3600 60 ports (λ a. record {
    service_name = "";
    rtp_port = 0;
    rtcp_port = 0;
    allocated_at = 0;
    expires_at = 0;
    target = 0;
    protocol = "";
    in_use = false;
  });
  deployments = new_udp_deployment_manager deployment_config deployment_config;
  targets = record {
    target = λ a. record { url = "b:1"; healthy = true };
    connected = λ a. true;
    stopped = λ a. false;
    next_address = 1;
    panicked = false;
  };
}

abbrev net : Net
net = record { resolves = λ url. true; opens = λ a. true; writes = λ a. true }

abbrev free_ports : Os
free_ports = record { probe = λ p. true; bind = λ p. true }

deploy_service_strands_example :
    let m' = (deploy_service net by_ip "dns" 53 ("c:1" ∷ []) map).0 in
    (s' : UdpService) × (get 53 m'.services ≡ some s')
    × ((serve_udp fake_md5 net client (pos 9) s' m').1 ≡ forwarded no_connection)
    × (get "ip-1.2.3.4" (serve_udp fake_md5 net client (pos 9) s' m').0.sessions.sessions
        ≡ some (touch (pos 9) session))
unfolding get generate_session_id five_tuple_of is_active deploy_service start_each
deploy_service_strands_example =
    deploy_service_strands fake_md5 net net by_ip "dns" 53 ("c:1" ∷ []) map service 0 client session
      (pos 9) refl (inl refl) (omega arith) refl refl refl refl refl

deploy_webrtc_service_now-Stranded_example :
    let c : Machine = record { net = net; os = λ a. free_ports; os' = λ a. free_ports; now = 0 } in
    (x : UdpServiceMap × Result (Unit {0})) × (deploy_webrtc_service_now c by_ip "call"
        ("c:1" ∷ [])
        []
        map
      ≡ some x)
    × Stranded "call" x
unfolding get new_port_allocator
deploy_webrtc_service_now-Stranded_example =
    deploy_webrtc_service_now-Stranded
      (record { net = net; os = λ a. free_ports; os' = λ a. free_ports; now = 0 }) by_ip "call"
      ("c:1" ∷ []) [] map service
      (new_port_allocator-IsValid 3600 60 ports _, omega arith, omega arith) refl
