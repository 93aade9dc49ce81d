-- ===== src/UdpServices/WebRtc.antt =====
-- internal/server/udp_service_map.go: deploying WebRTC services, whose targets get pairs of ports.
pub mod Freed
use kamal_proxy.Base.{
  ℕ, String, Bool, true, false, List, [], ◌∷◌, Option, none, some, if◌then◌else◌,
}
use kamal_proxy.Base.Assoc.{Assoc, get, put, nat_eq, string_eq}
use kamal_proxy.SessionManager.{SessionConfig, SessionDrainPolicy}
use kamal_proxy.PortAllocator
use kamal_proxy.PortAllocator.{PortAllocator, PortRange, Os, allocate_rtp_rtcp_pair}
use kamal_proxy.PortAllocator.Release.{deallocate_service}
use kamal_proxy.UdpTarget.{
  UdpTargets, Net, no_ports, Result, ok, err, start_each, new_udp_target, start_target,
  stop_targets,
}
use kamal_proxy.UdpDeployment.{deploy_webrtc_service, deallocate_each}
use kamal_proxy.UdpServices.{UdpService, UdpServiceMap, stop_existing}

-- A pair of ports for a target, if there is one; an error is only logged.
pub allocate_for : (ℕ → Os) → (ℕ → Os) → ℕ → String → ℕ → PortAllocator → PortAllocator × Option ℕ
allocate_for os os' now name a pa =
    let (pa', result) = allocate_rtp_rtcp_pair (os a) (os' a) name a now pa in
    elim result [ PortAllocator.err e ↦ (pa', none) | PortAllocator.ok x ↦ (pa', some x) ]

pub add_allocation : Option ℕ → List ℕ → List ℕ
add_allocation none xs = xs
add_allocation (some x) xs = x ∷ xs

-- What the calls see of the operating system, and their time.
pub record Machine : Type 0 where
  pub net : Net
  pub os : ℕ → Os
  pub os' : ℕ → Os
  pub now : ℕ

-- The targets of a WebRTC service and its pairs of ports, one after the other.
pub webrtc_targets :
    Machine
    → String
    → List String
    → UdpTargets
    → PortAllocator
    → UdpTargets × PortAllocator × Result (List ℕ × List ℕ)
unfolding allocate_for add_allocation
webrtc_targets c name [] w pa = (w, pa, ok ([], []))
webrtc_targets c name (url ∷ urls) w pa =
    let a = w.next_address in
    let (w₁, made) = new_udp_target c.net url w in
    let (w₂, started) = start_target c.net a w₁ in
    let (pa', allocation) = allocate_for c.os c.os' c.now name a pa in
    let (w₃, pa'', rest) = webrtc_targets c name urls w₂ pa' in
    elim made [
      | err e ↦ (w₁, pa, err e)
      | ok _ ↦ elim started [
        | err e ↦ (w₂, pa, err e)
        | ok _ ↦ elim rest [
          | err e ↦ (w₃, pa'', err e)
          | ok (ts, xs) ↦ (w₃, pa'', ok (a ∷ ts, add_allocation allocation xs))
        ]
      ]
    ]

-- DeallocateService where a service is replaced; `none` is its panic.
pub deallocate_existing : Option UdpService → String → PortAllocator → Option PortAllocator
deallocate_existing none name pa = some pa
deallocate_existing (some s) name pa = deallocate_service name pa

pub install_webrtc :
    SessionConfig
    → String
    → List PortRange
    → List ℕ
    → List ℕ
    → UdpServiceMap
    → Option (UdpServiceMap × Result (Unit {0}))
unfolding stop_existing deallocate_existing
install_webrtc config name ranges ts [] m = some (m, err no_ports)
install_webrtc config name ranges ts (x ∷ xs) m =
    let existing = get name m.port_services in
    elim (deallocate_existing existing name m.ports) [
      | none ↦ none
      | some pa ↦ some (
        record m {
          targets = stop_existing existing m.targets;
          ports = pa;
          port_services =
              put name
                (record {
                  name = name;
                  port = 0;
                  port_ranges = ranges;
                  targets = ts;
                  current_target = 0;
                  session_config = config;
                  service_type = "webrtc";
                  allocations = x ∷ xs;
                })
                m.port_services;
        },
        ok tt,
      )
    ]

pub deploy_webrtc_service_now :
    Machine
    → SessionConfig
    → String
    → List String
    → List PortRange
    → UdpServiceMap
    → Option (UdpServiceMap × Result (Unit {0}))
unfolding webrtc_targets install_webrtc
deploy_webrtc_service_now c config name urls ranges m =
    let (w, pa, result) = webrtc_targets c name urls m.targets m.ports in
    let m' = record m { targets = w; ports = pa } in
    elim result [
      | err e ↦ some (m', err e)
      | ok (ts, xs) ↦ install_webrtc config name ranges ts xs m'
    ]

-- The pairs that were allocated, with `false` where one could not be.
pub allocate_each : Machine → String → List ℕ → PortAllocator → PortAllocator × List ℕ × Bool
unfolding allocate_for
allocate_each c name [] pa = (pa, [], true)
allocate_each c name (a ∷ ts) pa =
    let (pa', allocation) = allocate_for c.os c.os' c.now name a pa in
    let (pa'', xs, all) = allocate_each c name ts pa' in
    elim allocation [ none ↦ (pa', [], false) | some x ↦ (pa'', x ∷ xs, all) ]

pub deploy_webrtc_service_zero_downtime :
    Machine
    → String
    → List String
    → SessionDrainPolicy
    → UdpServiceMap
    → UdpServiceMap × Result (Unit {0})
unfolding allocate_each
deploy_webrtc_service_zero_downtime c name urls policy m =
    let (w, started) = start_each c.net urls m.targets in
    elim started [
      | err e ↦ (record m { targets = w }, err e)
      | ok ts ↦
          let (pa, xs, all) = allocate_each c name ts m.ports in
          if all
          then (
            record m {
              targets = w;
              ports = pa;
              deployments = deploy_webrtc_service name ts xs policy m.deployments;
            },
            ok tt,
          )
          else (
            record m { targets = stop_targets ts w; ports = deallocate_each xs pa },
            err no_ports,
          )
    ]
