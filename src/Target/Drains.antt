-- ===== src/Target/Drains.antt =====
-- What a drain promises of the requests it finds in flight, and of those that come while it waits.
use kamal_proxy.Base.{
  ℕ, ◌≡◌, refl, ◌∙◌, ◌⊎◌, inl, inr, true, false, List, [], ◌∷◌, none, some, arith, ◌==◌,
  Option-cases, Bool-cases,
}
use kamal_proxy.Base.Assoc.{nat_eq, has}
use kamal_proxy.Target.{
  TargetState, draining, Cause, error_draining, Target, Drain, start_request, cancel,
  cancel_hijacked, cancel_all, begin_drain, end_drain, health_check_completed, update_state,
  is_draining,
}
use kamal_proxy.Target.Steps.{
  World, Steps, IsDone, cancel_all-IsDone, Steps-IsDone, Keeps-IsDone, end_drain-Keeps,
}

some_to_cancel :
    (s : TargetState) (rs : List ℕ) (d : Drain)
    → some (record { original_state = s; to_cancel = rs }) ≡ some d
    → d.to_cancel ≡ rs
some_to_cancel s rs d e = ground arith

begin_drain-some :
    (t : Target) (d : Drain)
    → (begin_drain t).1 ≡ some d
    → (d.to_cancel ≡ t.inflight) × (is_draining t.state ≡ false)
unfolding begin_drain update_state
begin_drain-some t d e = elim (Bool-cases (is_draining t.state)) [
  | inl b ↦ absurd (ground arith)
  | inr b ↦ (some_to_cancel t.state t.inflight d (rw (b, begin_drain) at e), b)
]

pub end_drain-IsDone :
    (d : Drain) (t : Target) (r : ℕ) → has r d.to_cancel ≡ true → IsDone (end_drain d t) r
unfolding end_drain update_state
end_drain-IsDone d t r h = cancel_all-IsDone d.to_cancel t r h

pub end_drain_keeps : (d : Drain) (t : Target) (r : ℕ) → IsDone t r → IsDone (end_drain d t) r
end_drain_keeps d t r h = Keeps-IsDone t (end_drain d t) r (end_drain-Keeps d t) h

pub begin_drain_lem :
    (t : Target)
    → is_draining t.state ≡ false
    → (d : Drain) × ((begin_drain t).1 ≡ some d) × (d.to_cancel ≡ t.inflight)
unfolding begin_drain update_state
begin_drain_lem t b =
    (record { original_state = t.state; to_cancel = t.inflight }, rw (b, begin_drain) refl, refl)

-- A request that is in flight when a drain begins is done when the drain has ended, and from then
-- on, whatever happened to the target meanwhile.
pub drain_ends_requests :
    (t t' : Target) (d : Drain) (r : ℕ) (ds : List Drain) (w : World)
    → (begin_drain t).1 ≡ some d
    → has r t.inflight ≡ true
    → Steps (record { target = end_drain d t'; drains = ds }) w
    → IsDone w.target r
drain_ends_requests t t' d r ds w e h s =
    Steps-IsDone r (record { target = end_drain d t'; drains = ds }) w s
      (end_drain-IsDone d t' r (rw (begin_drain-some t d e).0 h))

cancel-Same :
    (q : ℕ) (c : Cause) (t : Target)
    → ((cancel q c t).next_request ≡ t.next_request) × ((cancel q c t).state ≡ t.state)
unfolding cancel
cancel-Same q c t = ground arith

cancel_hijacked-Same :
    (rs : List ℕ) (t : Target)
    → ((cancel_hijacked rs t).next_request ≡ t.next_request)
      × ((cancel_hijacked rs t).state ≡ t.state)
unfolding cancel_hijacked
cancel_hijacked-Same [] t = (refl, refl)
cancel_hijacked-Same (q ∷ rs) t = elim (Bool-cases (t.hijacked q)) [
  | inl e ↦
      let ih = cancel_hijacked-Same rs (cancel q error_draining t) in
      let one = cancel-Same q error_draining t in
      rw (e, cancel_hijacked) (ih.0 ∙ one.0, ih.1 ∙ one.1)
  | inr e ↦ rw (e, cancel_hijacked) (cancel_hijacked-Same rs t)
]

module _ (r : ℕ) where
  cancel-other :
      (q : ℕ) (c : Cause) (t : Target) → (q == r) ≡ false → (cancel q c t).cause r ≡ t.cause r
  unfolding cancel
  cancel-other q c t h = elim (Option-cases (t.cause q)) [
    | inr (b, e) ↦ rw (e, cancel) refl
    | inl e ↦ rw (e, cancel) (ground arith)
  ]

  cancel_hijacked-other :
      (rs : List ℕ) (t : Target) → has r rs ≡ false → (cancel_hijacked rs t).cause r ≡ t.cause r
  unfolding cancel_hijacked has
  cancel_hijacked-other [] t h = refl
  cancel_hijacked-other (q ∷ rs) t h = elim (Bool-cases (t.hijacked q)) [
    | inl e ↦
        rw (e, cancel_hijacked)
          (cancel_hijacked-other rs (cancel q error_draining t) (ground arith)
            ∙ cancel-other q error_draining t (ground arith))
    | inr e ↦ rw (e, cancel_hijacked) (cancel_hijacked-other rs t (ground arith))
  ]

  cancel_all-other :
      (rs : List ℕ) (t : Target) → has r rs ≡ false → (cancel_all rs t).cause r ≡ t.cause r
  unfolding cancel_all has
  cancel_all-other [] t h = refl
  cancel_all-other (q ∷ rs) t h =
      cancel_all-other rs (cancel q error_draining t) (ground arith)
      ∙ cancel-other q error_draining t (ground arith)

-- The number of the next request is not in use.
abbrev pub Fresh : Target → Type 0
Fresh t = (has t.next_request t.inflight ≡ false) × (t.cause t.next_request ≡ none)

begin_drain-Fresh :
    (t : Target)
    → is_draining t.state ≡ false
    → Fresh t
    → let t' = (begin_drain t).0 in
      (t'.next_request ≡ t.next_request) × (t'.state ≡ draining) × (t'.cause t.next_request ≡ none)
unfolding begin_drain update_state
begin_drain-Fresh t b f =
    let t₁ = record t { state = draining } in
    rw (b, begin_drain)
      (
        (cancel_hijacked-Same t₁.inflight t₁).0,
        (cancel_hijacked-Same t₁.inflight t₁).1,
        cancel_hijacked-other t.next_request t₁.inflight t₁ f.0 ∙ f.1,
      )

pub start_request_lem :
    (t : Target)
    → (((start_request t).1 ≡ none) × (is_draining t.state ≡ true))
      ⊎ (((start_request t).1 ≡ some t.next_request) × (is_draining t.state ≡ false))
unfolding start_request
start_request_lem t = elim (Bool-cases (is_draining t.state)) [
  | inl e ↦ rw (e, start_request) (inl (refl, refl))
  | inr e ↦ rw (e, start_request) (inr (refl, refl))
]

-- A target that drains refuses requests; but a health check that succeeds meanwhile makes it
-- healthy, and a request that is then started is one that the drain leaves open when it ends.
pub request_outlives_drain :
    (t : Target) (d : Drain)
    → Fresh t
    → (begin_drain t).1 ≡ some d
    → let draining = (begin_drain t).0 in
      let started = start_request (health_check_completed true draining) in
      ((start_request draining).1 ≡ none)
      × (started.1 ≡ some t.next_request)
      × ((end_drain d started.0).cause t.next_request ≡ none)
unfolding start_request health_check_completed end_drain update_state is_draining
request_outlives_drain t d f e =
    let k = begin_drain-some t d e in
    let g = begin_drain-Fresh t k.1 f in
    let started = (start_request (health_check_completed true (begin_drain t).0)).0 in
    (
      rw g.1 refl,
      rw g.0 refl,
      cancel_all-other t.next_request d.to_cancel started (rw k.0 f.0) ∙ g.2,
    )
