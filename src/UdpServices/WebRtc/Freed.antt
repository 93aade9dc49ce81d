-- ===== src/UdpServices/WebRtc/Freed.antt =====
-- A WebRTC service that is deployed again.
use kamal_proxy.Base.{ℕ, ◌<◌, ◌≡◌, refl, ◌≢◌, inl, inr, String, List, [], ◌∷◌, some, arith}
use kamal_proxy.Base.Assoc.{get, put, string_eq, get-put_same}
use kamal_proxy.SessionManager.{SessionConfig}
use kamal_proxy.PortAllocator.{PortAllocator, PortAllocation, PortRange, allocate_rtp_rtcp_pair}
use kamal_proxy.PortAllocator.Invariant.{IsValid}
use kamal_proxy.PortAllocator.Config.{allocate_rtp_rtcp_pair-config}
use kamal_proxy.PortAllocator.Grants.{Result-cases, allocate_rtp_rtcp_pair-IsValid}
use kamal_proxy.PortAllocator.Release.{get_allocation}
use kamal_proxy.PortAllocator.Release.Service.{deallocate_service-none}
use kamal_proxy.UdpTarget.{UdpTargets, no_ports, Result, ok, err, new_udp_target, start_target}
use kamal_proxy.UdpTarget.Stopped.{result_cases}
use kamal_proxy.UdpServices.{UdpService, UdpServiceMap, stop_existing}
use kamal_proxy.UdpServices.WebRtc.{
  Machine, allocate_for, webrtc_targets, deallocate_existing, install_webrtc,
  deploy_webrtc_service_now,
}

-- An allocator whose ranges begin above port 0.
abbrev pub IsSound : PortAllocator → Type 0
IsSound pa =
    IsValid pa × (0 < pa.config.rtp_port_range.start) × (0 < pa.config.rtcp_port_range.start)

module _ (c : Machine) (name : String) where
  allocate_for-IsSound :
      (a : ℕ) (pa : PortAllocator)
      → IsSound pa
      → IsSound (allocate_for c.os c.os' c.now name a pa).0
  unfolding allocate_for
  allocate_for-IsSound a pa (v, h, k) =
      let r = allocate_rtp_rtcp_pair (c.os a) (c.os' a) name a c.now pa in
      let same = allocate_rtp_rtcp_pair-config name a c.now pa (c.os a) (c.os' a) in
      let s : IsSound r.0 = (
        allocate_rtp_rtcp_pair-IsValid (c.os a) (c.os' a) name a c.now pa v h k,
        rw same h,
        rw same k,
      ) in
      elim (Result-cases r.1) [
        | inl (x, e) ↦ rw (e, allocate_for) s
        | inr (x, e) ↦ rw (e, allocate_for) s
      ]

  webrtc_targets-IsSound :
      (urls : List String) (w : UdpTargets) (pa : PortAllocator)
      → IsSound pa
      → IsSound (webrtc_targets c name urls w pa).1
  unfolding webrtc_targets
  webrtc_targets-IsSound [] w pa s = s
  webrtc_targets-IsSound (url ∷ urls) w pa s =
      let a = w.next_address in
      let w₁ = (new_udp_target c.net url w).0 in
      let w₂ = (start_target c.net a w₁).0 in
      let pa' = (allocate_for c.os c.os' c.now name a pa).0 in
      let ih = webrtc_targets-IsSound urls w₂ pa' (allocate_for-IsSound a pa s) in
      elim (result_cases (new_udp_target c.net url w).1) [
        | inr (_, e) ↦ rw (e, webrtc_targets) s
        | inl (_, e) ↦ elim (result_cases (start_target c.net a w₁).1) [
          | inr (_, f) ↦ rw (e, f, webrtc_targets) s
          | inl (_, f) ↦ elim (result_cases (webrtc_targets c name urls w₂ pa').2) [
            | inr (_, g) ↦ rw (e, f, g, webrtc_targets) ih
            | inl (_, g) ↦ rw (e, f, g, webrtc_targets) ih
          ]
        ]
      ]

-- No port has an allocation for the service.
abbrev pub Unreachable : String → PortAllocator → Type 0
Unreachable name pa =
    (port : ℕ) (a : PortAllocation) → get_allocation port pa ≡ some a → a.service_name ≢ name

-- The call has ended with an error, or has stored a service with allocations that none of its ports
-- can be reached by.
abbrev pub Stranded : String → UdpServiceMap × Result (Unit {0}) → Type 0
Stranded name (m', err e) = Unit
Stranded name (m', ok u) =
    (s : UdpService) × (get name m'.port_services ≡ some s)
    × (s.allocations ≢ [])
    × Unreachable name m'.ports

install_webrtc-Stranded :
    (config : SessionConfig) (name : String) (ranges : List PortRange) (ts xs : List ℕ)
    (m : UdpServiceMap) (s : UdpService)
    → IsValid m.ports
    → get name m.port_services ≡ some s
    → (x : UdpServiceMap × Result (Unit {0})) × (install_webrtc config name ranges ts xs m ≡ some x)
      × Stranded name x
unfolding install_webrtc deallocate_existing
install_webrtc-Stranded config name ranges ts [] m s v e = ((m, err no_ports), refl, tt)
install_webrtc-Stranded config name ranges ts (x ∷ xs) m s v e =
    let (pa, f, gone) = deallocate_service-none name m.ports v in
    let s' : UdpService = record {
      name = name;
      port = 0;
      port_ranges = ranges;
      targets = ts;
      current_target = 0;
      session_config = config;
      service_type = "webrtc";
      allocations = x ∷ xs;
    } in
    let m' = record m {
      targets = stop_existing (get name m.port_services) m.targets;
      ports = pa;
      port_services = put name s' m.port_services;
    } in
    (
      (m', ok tt),
      rw (e, f, install_webrtc, e) refl,
      (s', get-put_same name s' m.port_services, λ h. ground arith, gone),
    )

-- The bug: deploying a WebRTC service again frees the ports that it was just given, along with the
-- old ones. The call does not panic; and where it succeeds, the service is stored with its new pairs,
-- but no port is allocated to it any more, so no packet finds it.
pub deploy_webrtc_service_now-Stranded :
    (c : Machine) (config : SessionConfig) (name : String) (urls : List String)
    (ranges : List PortRange) (m : UdpServiceMap) (s : UdpService)
    → IsSound m.ports
    → get name m.port_services ≡ some s
    → (x : UdpServiceMap × Result (Unit {0})) × (deploy_webrtc_service_now c config name urls ranges
          m
        ≡ some x)
      × Stranded name x
unfolding deploy_webrtc_service_now
deploy_webrtc_service_now-Stranded c config name urls ranges m s sound e =
    let (w, pa, result) = webrtc_targets c name urls m.targets m.ports in
    let m' = record m { targets = w; ports = pa } in
    elim (result_cases (webrtc_targets c name urls m.targets m.ports).2) [
      | inr (x, f) ↦ ((m', err x), rw (f, deploy_webrtc_service_now) refl, tt)
      | inl ((ts, xs), f) ↦
          let (x, g, h) =
            install_webrtc-Stranded config name ranges ts xs m' s
              (webrtc_targets-IsSound c name urls m.targets m.ports sound).0 e in
          (x, rw (f, deploy_webrtc_service_now) g, h)
    ]
