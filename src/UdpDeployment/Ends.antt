-- ===== src/UdpDeployment/Ends.antt =====
-- The waits of a deployment end, and what has been reached then.
use kamal_proxy.Base.{
  ℕ, zero, suc, ◌+◌, ◌*◌, ◌<◌, ◌≤◌, ◌≡◌, refl, inl, inr, String, Bool, true, false, List, [], ◌∷◌,
  some, ltb, ◌==◌, arith, lt→ltb, Bool-cases,
}
use kamal_proxy.SessionManager.{SessionManager}
use kamal_proxy.SessionManager.Expiry.{get_sessions_for_target, on_target, terminate_immediately}
use kamal_proxy.SessionManager.Expiry.Killed.{on_target-kept, on_target-killed}
use kamal_proxy.UdpDeployment.{
  all_healthy, count_active_sessions, force_kill_sessions, drain_with_timeout,
}

-- A clock that is read at least `step` later each time.
abbrev pub IsPaced : ℕ → (ℕ → ℕ) → Type 0
IsPaced step clock = (k : ℕ) → clock k + step ≤ clock (suc k)

module _ (clock : ℕ → ℕ) (deadline step : ℕ) (p : IsPaced step clock) where
  -- The answer is that of a round in which all targets were healthy in time, or the deadline has
  -- passed.
  abbrev pub Checked : (ℕ → ℕ → Bool) → List ℕ → ℕ → Bool → Type 0
  Checked healthy ts k true =
      (j : ℕ) × (k ≤ j) × (clock j < deadline) × (all_healthy (healthy j) ts ≡ true)
  Checked healthy ts k false = (j : ℕ) × (k ≤ j) × (deadline ≤ clock j)

-- No session of the URLs is active.
abbrev pub Drained : List String → SessionManager → Type 0
Drained us sm = count_active_sessions us sm ≡ 0

AllNone : List String → SessionManager → Type 0
AllNone [] sm = Unit
AllNone (u ∷ us) sm = (get_sessions_for_target u sm ≡ []) × AllNone us sm

count-AllNone : (us : List String) (sm : SessionManager) → AllNone us sm → Drained us sm
unfolding AllNone count_active_sessions
count-AllNone [] sm h = refl
count-AllNone (u ∷ us) sm (e, h) = rw (e, count-AllNone us sm h) refl

force_kill-kept :
    (us : List String) (u : String) (sm : SessionManager)
    → get_sessions_for_target u sm ≡ []
    → get_sessions_for_target u (force_kill_sessions us sm) ≡ []
unfolding force_kill_sessions
force_kill-kept [] u sm e = e
force_kill-kept (v ∷ us) u sm e =
    force_kill-kept us u (on_target v terminate_immediately sm) (on_target-kept u v sm e)

force_kill-AllNone :
    (us : List String) (sm : SessionManager) → AllNone us (force_kill_sessions us sm)
unfolding AllNone force_kill_sessions
force_kill-AllNone [] sm = tt
force_kill-AllNone (u ∷ us) sm =
    let sm' = on_target u terminate_immediately sm in
    (force_kill-kept us u sm' (on_target-killed u sm), force_kill-AllNone us sm')

killed : (us : List String) (sm : SessionManager) → Drained us (force_kill_sessions us sm)
killed us sm = count-AllNone us (force_kill_sessions us sm) (force_kill-AllNone us sm)

module _ (clock : ℕ → ℕ) (deadline step : ℕ) (p : IsPaced step clock) where
  -- The drain of a deployment ends, where its ticks are at least `step` apart, at the first of them
  -- after the deadline for killing sessions or earlier, whatever the sessions are at each tick; and
  -- then no session of the old targets is active.
  pub drain_with_timeout-ends :
      (us : List String) (sessions : ℕ → SessionManager) (fuel k : ℕ)
      → deadline < clock k + fuel * step
      → (sm : SessionManager) × (drain_with_timeout (suc fuel) clock deadline us sessions k
          ≡ some sm)
        × Drained us sm
  unfolding drain_with_timeout
  drain_with_timeout-ends us sessions zero k h =
      elim (Bool-cases (count_active_sessions us (sessions k) == 0)) [
        | inl e ↦ (sessions k, rw e refl, ground arith)
        | inr e ↦ (
          force_kill_sessions us (sessions k),
          rw (e, lt→ltb deadline (clock k) (omega arith)) refl,
          killed us (sessions k),
        )
      ]
  drain_with_timeout-ends us sessions (suc fuel) k h =
      elim (Bool-cases (count_active_sessions us (sessions k) == 0)) [
        | inl e ↦ (sessions k, rw e refl, ground arith)
        | inr e ↦ elim (Bool-cases (ltb deadline (clock k))) [
          | inl f ↦ (force_kill_sessions us (sessions k), rw (e, f) refl, killed us (sessions k))
          | inr f ↦
              let q = p k in
              let (sm, g, d) = drain_with_timeout-ends us sessions fuel (suc k) (omega arith) in
              (sm, rw (e, f) g, d)
        ]
      ]
