-- ===== src/UdpServices.antt =====
-- internal/server/udp_service_map.go: the UDP services by port, and those that are reached by the
-- ports that the allocator gave them.
pub mod WebRtc
pub mod Sessions
mod Tests
use kamal_proxy.Base.{
  ℕ, suc, ◌%◌, String, Bool, true, false, List, [], ◌∷◌, Option, none, some, if◌then◌else◌, length,
  get_elem?,
}
use kamal_proxy.Base.Int.{ℤ}
use kamal_proxy.Base.Assoc.{Assoc, get, put, remove, nat_eq, string_eq}
use kamal_proxy.SessionManager.{
  UdpAddr, SessionConfig, SessionDrainPolicy, SessionManager, Md5, Routed, to, no_healthy_targets,
  filter_healthy, route_packet,
}
use kamal_proxy.SessionManager.Expiry
use kamal_proxy.PortAllocator
use kamal_proxy.PortAllocator.{PortAllocator, PortAllocation, PortRange}
use kamal_proxy.PortAllocator.Release
use kamal_proxy.PortAllocator.Release.{deallocate_port, deallocate_service, get_allocation}
use kamal_proxy.UdpTarget.{
  UdpTargets, Net, UdpError, no_ports, no_service, Result, ok, err, start_each, new_udp_target,
  start_target, stop_targets, Forwarded, forward_packet,
}
use kamal_proxy.UdpDeployment
use kamal_proxy.UdpDeployment.{
  UdpDeploymentManager, Shared, deploy_udp_service, deploy_webrtc_service, deallocate_each,
}

pub record UdpService : Type 0 where
  pub name : String
  pub port : ℕ
  pub port_ranges : List PortRange
  pub targets : List ℕ
  pub current_target : ℕ
  pub session_config : SessionConfig
  pub service_type : String
  pub allocations : List ℕ

-- The targets are on a heap, as sessions and allocations point to them.
pub record UdpServiceMap : Type 0 where
  pub services : Assoc ℕ UdpService
  pub port_services : Assoc String UdpService
  pub sessions : SessionManager
  pub ports : PortAllocator
  pub deployments : UdpDeploymentManager
  pub targets : UdpTargets

-- A service by its own port, or by the name in the allocation of the port.
pub service_for_port : ℕ → UdpServiceMap → Option UdpService
service_for_port port m = elim (get port m.services) [
  | some s ↦ some s
  | none ↦ elim (get_allocation port m.ports) [
    | none ↦ none
    | some a ↦ get a.service_name m.port_services
  ]
]

-- Stop of a service, which drops its targets and its allocations.
pub stop_service : UdpService → UdpTargets → UdpTargets
stop_service s w = stop_targets s.targets w

pub stop_existing : Option UdpService → UdpTargets → UdpTargets
unfolding stop_service
stop_existing none w = w
stop_existing (some s) w = stop_service s w

pub deploy_service :
    Net
    → SessionConfig
    → String
    → ℕ
    → List String
    → UdpServiceMap
    → UdpServiceMap × Result (Unit {0})
unfolding stop_existing
deploy_service net config name port urls m =
    let (w, started) = start_each net urls m.targets in
    elim started [
      | err e ↦ (record m { targets = w }, err e)
      | ok ts ↦ (
        record m {
          targets = stop_existing (get port m.services) w;
          services =
              put port
                (record {
                  name = name;
                  port = port;
                  port_ranges = [];
                  targets = ts;
                  current_target = 0;
                  session_config = config;
                  service_type = "udp";
                  allocations = [];
                })
                m.services;
        },
        ok tt,
      )
    ]

-- Without downtime: the deployment is left to the manager.
pub deploy_service_zero_downtime :
    Net
    → String
    → List String
    → SessionDrainPolicy
    → UdpServiceMap
    → UdpServiceMap × Result (Unit {0})
deploy_service_zero_downtime net name urls policy m =
    let (w, started) = start_each net urls m.targets in
    elim started [
      | err e ↦ (record m { targets = w }, err e)
      | ok ts ↦ (
        record m { targets = w; deployments = deploy_udp_service name ts policy m.deployments },
        ok tt,
      )
    ]

pub remove_service : ℕ → UdpServiceMap → UdpServiceMap × Result (Unit {0})
unfolding stop_service
remove_service port m = elim (get port m.services) [
  | none ↦ (m, err no_service)
  | some s ↦
      (record m { targets = stop_service s m.targets; services = remove port m.services }, ok tt)
]

pub data Served : Type 0 where
  no_target : String → Served
  forwarded : Forwarded → Served

pub served : Net → UdpTargets → Routed → Served
served net w (no_healthy_targets name) = no_target name
served net w (to t s) = forwarded (forward_packet net t w)

-- ServeUDP, for a packet from `addr`.
pub serve_udp : Md5 → Net → UdpAddr → ℤ → UdpService → UdpServiceMap → UdpServiceMap × Served
unfolding served
serve_udp md5 net addr now s m =
    let (sm, routed) =
      route_packet md5 m.targets.target addr s.port s.name s.targets now m.sessions in
    (record m { sessions = sm }, served net m.targets routed)

-- The healthy target of the round; `none` where there is none.
pub next_healthy : List ℕ → UdpService → UdpService × Option ℕ
next_healthy [] s = (s, none)
next_healthy (h ∷ hs) s = (
  record s { current_target = suc s.current_target },
  get_elem? (h ∷ hs) (s.current_target % suc (length hs)),
)

pub select_target : UdpServiceMap → UdpService → UdpService × Option ℕ
unfolding next_healthy
select_target m s = next_healthy (filter_healthy m.targets.target s.targets) s

pub stop_all {ℓ} : {K : Type ℓ} → Assoc K UdpService → UdpTargets → Assoc K UdpService × UdpTargets
unfolding stop_service
stop_all [] w = ([], w)
stop_all ((k, s) ∷ ss) w =
    let (rest, w') = stop_all ss (stop_service s w) in
    ((k, record s { targets = []; allocations = [] }) ∷ rest, w')

pub stop : UdpServiceMap → UdpServiceMap
unfolding stop_all
stop m =
    let (ss, w) = stop_all m.services m.targets in
    let (ps, w') = stop_all m.port_services w in
    let (dm, shared) =
      UdpDeployment.stop m.deployments
        (record { sessions = m.sessions; ports = m.ports; targets = w' }) in
    record {
      services = ss;
      port_services = ps;
      deployments = dm;
      ports = Release.stop shared.ports;
      sessions = Expiry.stop shared.sessions;
      targets = shared.targets;
    }
