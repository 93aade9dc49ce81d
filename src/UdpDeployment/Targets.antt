-- ===== src/UdpDeployment/Targets.antt =====
-- The old targets that a deployment drains and stops.
use kamal_proxy.Base.{
  ℕ, String, ◌≡◌, refl, inl, inr, Bool, true, false, ◌&&◌, List, [], ◌∷◌, Option, some, arith,
  Bool-cases, Option-cases, if◌then◌else◌, ◌∙◌,
}
use kamal_proxy.Base.Assoc.{Assoc, get, put, string_eq, get-put}
use kamal_proxy.SessionManager.{SessionManager, SessionDrainPolicy}
use kamal_proxy.UdpTarget.{UdpTargets}
use kamal_proxy.UdpDeployment.{
  UdpDeploymentConfig, UdpServiceDeployment, UdpDeploymentManager, Shared, completed,
  new_udp_deployment_manager, existing_targets, existing_allocations, deploy_udp_service,
  deploy_webrtc_service, complete_udp, health_checked_udp, complete_webrtc, health_checked_webrtc,
  is_empty, is_draining, stop_each, stop, force_kill_sessions, urls,
}

-- What a running deployment does to itself.
pub data Phase (d : UdpServiceDeployment) : UdpServiceDeployment → Type 0 where
  udp_checked : (answer : Bool) (w : Shared) → Phase d (health_checked_udp answer d w).0
  udp_drained : (w : Shared) → Phase d (complete_udp d w).0
  webrtc_checked : (answer : Bool) (w : Shared) → Phase d (health_checked_webrtc answer d w).0
  webrtc_drained : (w : Shared) → Phase d (complete_webrtc d w).0

-- The managers that the calls and the running deployments lead to.
pub data Reach : UdpDeploymentManager → Type 0 where
  made : (defaults c : UdpDeploymentConfig) → Reach (new_udp_deployment_manager defaults c)
  deployed :
      {dm : UdpDeploymentManager} (name : String) (ts : List ℕ) (policy : SessionDrainPolicy)
      → Reach dm
      → Reach (deploy_udp_service name ts policy dm)
  webrtc_deployed :
      {dm : UdpDeploymentManager} (name : String) (ts allocations : List ℕ)
      (policy : SessionDrainPolicy)
      → Reach dm
      → Reach (deploy_webrtc_service name ts allocations policy dm)
  went_on :
      {dm : UdpDeploymentManager} (name : String) (d d' : UdpServiceDeployment)
      → Reach dm
      → get name dm.services ≡ some d
      → Phase d d'
      → Reach (record dm { services = put name d' dm.services })
  stopped : {dm : UdpDeploymentManager} (w : Shared) → Reach dm → Reach (stop dm w).0

abbrev pub NothingOld : UdpServiceDeployment → Type 0
NothingOld d = (d.current_targets ≡ []) × (d.current_allocations ≡ [])

abbrev pub AllNew : Assoc String UdpServiceDeployment → Type 0
AllNew ds = (name : String) (d : UdpServiceDeployment) → get name ds ≡ some d → NothingOld d

Phase-NothingOld : {d d' : UdpServiceDeployment} → Phase d d' → NothingOld d → NothingOld d'
unfolding health_checked_udp complete_udp health_checked_webrtc complete_webrtc
Phase-NothingOld {d = d} (udp_checked true w) h = elim (Bool-cases (is_empty d.current_targets)) [
  | inl e ↦ rw e h
  | inr e ↦ rw e h
]
Phase-NothingOld (udp_checked false w) h = h
Phase-NothingOld (udp_drained w) h = h
Phase-NothingOld {d = d} (webrtc_checked true w) h =
    elim (Bool-cases (is_empty d.current_targets && is_empty d.current_allocations)) [
      | inl e ↦ rw e h
      | inr e ↦ rw e h
    ]
Phase-NothingOld (webrtc_checked false w) h = h
Phase-NothingOld (webrtc_drained w) h = h

put-AllNew :
    (name : String) (d : UdpServiceDeployment) (ds : Assoc String UdpServiceDeployment)
    → NothingOld d
    → AllNew ds
    → AllNew (put name d ds)
put-AllNew name d ds n h k e f = elim (Bool-cases (string_eq.beq name k)) [
  | inl g ↦ let same : some d ≡ some e = rw (get-put name k d ds, g) at f in ground (arith, n)
  | inr g ↦ h k e (rw (get-put name k d ds, g) at f)
]

existing-NothingOld :
    (name : String) (ds : Assoc String UdpServiceDeployment)
    → AllNew ds
    → (existing_targets (get name ds) ≡ []) × (existing_allocations (get name ds) ≡ [])
unfolding existing_targets existing_allocations
existing-NothingOld name ds h = elim (Option-cases (get name ds)) [
  | inl e ↦ rw e (refl, refl)
  | inr (d, e) ↦ rw e (h name d e)
]

stop_each-AllNew :
    (w : UdpTargets) (ds : Assoc String UdpServiceDeployment) (sm : SessionManager) (name : String)
    (d : UdpServiceDeployment)
    → get name (stop_each w ds sm).0 ≡ some d
    → (d' : UdpServiceDeployment) × (get name ds ≡ some d')
      × (d.current_targets ≡ d'.current_targets)
      × (d.current_allocations ≡ d'.current_allocations)
unfolding stop_each get
stop_each-AllNew w [] sm name d e = absurd (ground arith)
stop_each-AllNew w ((k, c) ∷ ds) sm name d e = elim (Bool-cases (string_eq.beq k name)) [
  | inl f ↦
      let c' = if is_draining c.state then record c { state = completed } else c in
      let same : Path (Option UdpServiceDeployment) (some c') (some d) = rw f at e in
      (c, rw f refl, ground arith, ground arith)
  | inr f ↦
      let sm' =
        if is_draining c.state then force_kill_sessions (urls w c.current_targets) sm else sm in
      let (d', g, p, q) = stop_each-AllNew w ds sm' name d (rw f at e) in (d', rw f g, p, q)
]

-- The bug: no deployment ever knows the targets and the ports that it replaces, whatever was
-- deployed before: `CurrentTargets` and `CurrentAllocations` stay empty, so no session is drained and
-- no old target is stopped.
pub Reach-NothingOld : {dm : UdpDeploymentManager} → Reach dm → AllNew dm.services
unfolding new_udp_deployment_manager deploy_udp_service deploy_webrtc_service stop get
Reach-NothingOld (made defaults c) name d e = absurd (ground arith)
Reach-NothingOld (deployed {dm = dm} name ts policy r) k d e =
    let h = Reach-NothingOld r in
    put-AllNew name _ dm.services ((existing-NothingOld name dm.services h).0, refl) h k d e
Reach-NothingOld (webrtc_deployed {dm = dm} name ts allocations policy r) k d e =
    let h = Reach-NothingOld r in
    put-AllNew name _ dm.services (existing-NothingOld name dm.services h) h k d e
Reach-NothingOld (went_on {dm = dm} name c c' r f p) k d e =
    let h = Reach-NothingOld r in
    put-AllNew name c' dm.services (Phase-NothingOld p (h name c f)) h k d e
Reach-NothingOld (stopped {dm = dm} w r) k d e =
    let (d', f, p, q) = stop_each-AllNew w.targets dm.services w.sessions k d e in
    let (n, m) = Reach-NothingOld r k d' f in (p ∙ n, q ∙ m)
