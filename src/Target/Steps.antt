-- ===== src/Target/Steps.antt =====
-- Requests, health checks and drains of a target in any order, as a step relation: each request
-- ends, and a drain ends those it found in flight.
use kamal_proxy.Base.{
  ℕ, ◌<◌, ◌≡◌, refl, ◌∙◌, ◌⊎◌, inl, inr, Bool, true, false, List, [], ◌∷◌, ◌++◌, Option, none, some,
  arith, ◌==◌, if◌then◌else◌, Option-cases, Bool-cases,
}
use kamal_proxy.Base.Assoc.{nat_eq, has}
use kamal_proxy.Target.{
  draining, Cause, canceled, error_draining, client_gone, Target, Drain, start_request, cancel,
  delete, end_inflight_request, hijack, cancel_hijacked, cancel_all, begin_drain, end_drain,
  health_check_completed, update_state, is_draining,
}

pub record World : Type 0 where
  pub target : Target
  pub drains : List Drain

abbrev pub add_drain : Option Drain → List Drain → List Drain
add_drain none ds = ds
add_drain (some d) ds = d ∷ ds

-- A client can only leave while its request is in flight.
pub data Step : World → World → Type 0 where
  starts : (w : World) → Step w (record w { target = (start_request w.target).0 })
  ends : (r : ℕ) (w : World) → Step w (record w { target = end_inflight_request r w.target })
  hijacks : (r : ℕ) (w : World) → Step w (record w { target = hijack r w.target })
  leaves :
      (r : ℕ) (w : World)
      → has r w.target.inflight ≡ true
      → Step w (record w { target = cancel r client_gone w.target })
  checks :
      (success : Bool) (w : World)
      → Step w (record w { target = health_check_completed success w.target })
  drain_begins :
      (w : World)
      → Step w (record {
        target = (begin_drain w.target).0;
        drains = add_drain (begin_drain w.target).1 w.drains;
      })
  drain_ends :
      (before after : List Drain) (d : Drain) (w : World)
      → w.drains ≡ before ++ d ∷ after
      → Step w (record { target = end_drain d w.target; drains = before ++ after })

pub data Steps : World → World → Type 0 where
  done : (w : World) → Steps w w
  after : (v w u : World) → Steps v w → Step w u → Steps v u

abbrev pub IsDone : Target → ℕ → Type 0
IsDone t r = (c : Cause) × (t.cause r ≡ some c)

-- The target t' has the same requests as t, and those that were done still are, for their cause.
pub record Keeps (t t' : Target) : Type 0 where
  pub cause : (r : ℕ) (b : Cause) → t.cause r ≡ some b → t'.cause r ≡ some b
  pub inflight : t'.inflight ≡ t.inflight
  pub next_request : t'.next_request ≡ t.next_request

Keeps-refl : (t : Target) → Keeps t t
Keeps-refl t = record { cause = λ r b e. e; inflight = refl; next_request = refl }

Keeps-trans : (t u v : Target) → Keeps t u → Keeps u v → Keeps t v
Keeps-trans t u v h k = record {
  cause = λ r b e. k.cause r b (h.cause r b e);
  inflight = k.inflight ∙ h.inflight;
  next_request = k.next_request ∙ h.next_request;
}

cancel-Keeps : (r : ℕ) (c : Cause) (t : Target) → Keeps t (cancel r c t)
unfolding cancel
cancel-Keeps r c t = elim (Option-cases (t.cause r)) [
  | inr (b, e) ↦ rw (e, cancel) (Keeps-refl t)
  | inl e ↦
      rw (e, cancel) record { cause = λ q b f. ground arith; inflight = refl; next_request = refl }
]

cancel-IsDone : (r : ℕ) (c : Cause) (t : Target) → IsDone (cancel r c t) r
unfolding cancel
cancel-IsDone r c t = elim (Option-cases (t.cause r)) [
  | inr (b, e) ↦ rw (e, cancel) (b, e)
  | inl e ↦ rw (e, cancel) (c, ground arith)
]

pub Keeps-IsDone : (t t' : Target) (r : ℕ) → Keeps t t' → IsDone t r → IsDone t' r
Keeps-IsDone t t' r k (b, e) = (b, k.cause r b e)

cancel_hijacked-Keeps : (rs : List ℕ) (t : Target) → Keeps t (cancel_hijacked rs t)
unfolding cancel_hijacked
cancel_hijacked-Keeps [] t = Keeps-refl t
cancel_hijacked-Keeps (r ∷ rs) t = elim (Bool-cases (t.hijacked r)) [
  | inl e ↦
      rw (e, cancel_hijacked)
        (Keeps-trans t (cancel r error_draining t) (cancel_hijacked rs (cancel r error_draining t))
          (cancel-Keeps r error_draining t) (cancel_hijacked-Keeps rs (cancel r error_draining t)))
  | inr e ↦ rw (e, cancel_hijacked) (cancel_hijacked-Keeps rs t)
]

cancel_all-Keeps : (rs : List ℕ) (t : Target) → Keeps t (cancel_all rs t)
unfolding cancel_all
cancel_all-Keeps [] t = Keeps-refl t
cancel_all-Keeps (r ∷ rs) t =
    Keeps-trans t (cancel r error_draining t) (cancel_all rs (cancel r error_draining t))
      (cancel-Keeps r error_draining t) (cancel_all-Keeps rs (cancel r error_draining t))

pub cancel_all-IsDone :
    (rs : List ℕ) (t : Target) (r : ℕ) → has r rs ≡ true → IsDone (cancel_all rs t) r
unfolding cancel_all has
cancel_all-IsDone [] t r h = absurd (ground arith)
cancel_all-IsDone (q ∷ rs) t r h = elim (Bool-cases (q == r)) [
  | inl e ↦
      let same : q ≡ r = ground arith in
      let t' = cancel q error_draining t in
      Keeps-IsDone t' (cancel_all rs t') r (cancel_all-Keeps rs t')
        (rw (← same) (cancel-IsDone q error_draining t))
  | inr e ↦ cancel_all-IsDone rs (cancel q error_draining t) r (ground arith)
]

-- Each request made so far is in flight or done.
abbrev pub Settled : Target → Type 0
Settled t = (r : ℕ) → r < t.next_request → (has r t.inflight ≡ true) ⊎ IsDone t r

Keeps-Settled : (t t' : Target) → Keeps t t' → Settled t → Settled t'
Keeps-Settled t t' k h r l = elim (h r (rw k.next_request at l)) [
  | inl i ↦ inl (rw k.inflight i)
  | inr d ↦ inr (Keeps-IsDone t t' r k d)
]

has-delete : (r q : ℕ) (qs : List ℕ) → has q (delete r qs) ≡ (if q == r then false else has q qs)
unfolding delete has
has-delete r q [] = ground arith
has-delete r q (p ∷ qs) = ground (arith, has-delete r q qs)

start_request-Settled : (t : Target) → Settled t → Settled (start_request t).0
unfolding start_request is_draining has
start_request-Settled t h = elim (Bool-cases (is_draining t.state)) [
  | inl e ↦ rw (e, start_request) h
  | inr e ↦
      rw (e, start_request)
        λ r l. elim (Bool-cases (t.next_request == r)) [
          | inl b ↦ inl (ground arith)
          | inr b ↦ elim (h r (ground arith)) [ inl i ↦ inl (ground arith) | inr d ↦ inr d ]
        ]
]

end_inflight_request-Settled : (r : ℕ) (t : Target) → Settled t → Settled (end_inflight_request r t)
unfolding end_inflight_request
end_inflight_request-Settled r t h = elim (Bool-cases (has r t.inflight)) [
  | inr e ↦ rw (e, end_inflight_request) h
  | inl e ↦
      let t' = cancel r canceled t in
      let k = cancel-Keeps r canceled t in
      rw (e, end_inflight_request)
        λ q l. elim (Bool-cases (q == r)) [
          | inl b ↦
              let same : r ≡ q = ground arith in inr (rw (← same) (cancel-IsDone r canceled t))
          | inr b ↦ elim (h q (rw k.next_request at l)) [
            | inl i ↦ inl (has-delete r q t'.inflight ∙ rw (b, k.inflight) i)
            | inr d ↦ inr (Keeps-IsDone t t' q k d)
          ]
        ]
]

end_inflight_request-IsDone :
    (r q : ℕ) (t : Target) → IsDone t q → IsDone (end_inflight_request r t) q
unfolding end_inflight_request
end_inflight_request-IsDone r q t d = elim (Bool-cases (has r t.inflight)) [
  | inr e ↦ rw (e, end_inflight_request) d
  | inl e ↦
      rw (e, end_inflight_request)
        (Keeps-IsDone t (cancel r canceled t) q (cancel-Keeps r canceled t) d)
]

begin_drain-Keeps : (t : Target) → Keeps t (begin_drain t).0
unfolding begin_drain update_state
begin_drain-Keeps t = elim (Bool-cases (is_draining t.state)) [
  | inl e ↦ rw (e, begin_drain) record { cause = λ r b f. f; inflight = refl; next_request = refl }
  | inr e ↦
      let k = cancel_hijacked-Keeps t.inflight (record t { state = draining }) in
      rw (e, begin_drain)
        record { cause = k.cause; inflight = k.inflight; next_request = k.next_request }
]

pub end_drain-Keeps : (d : Drain) (t : Target) → Keeps t (end_drain d t)
unfolding end_drain update_state
end_drain-Keeps d t =
    let k = cancel_all-Keeps d.to_cancel t in
    record { cause = k.cause; inflight = k.inflight; next_request = k.next_request }

health_check_completed-Keeps :
    (success : Bool) (t : Target) → Keeps t (health_check_completed success t)
unfolding health_check_completed
health_check_completed-Keeps success t = record {
  cause = λ r b e. ground arith;
  inflight = ground arith;
  next_request = ground arith;
}

hijack-Keeps : (r : ℕ) (t : Target) → Keeps t (hijack r t)
unfolding hijack
hijack-Keeps r t = record {
  cause = λ q b e. ground arith;
  inflight = ground arith;
  next_request = ground arith;
}

start_request-IsDone : (q : ℕ) (t : Target) → IsDone t q → IsDone (start_request t).0 q
unfolding start_request
start_request-IsDone q t (c, e) = (c, ground arith)

Step-Settled : (w w' : World) → Step w w' → Settled w.target → Settled w'.target
Step-Settled _ _ (starts w) h = start_request-Settled w.target h
Step-Settled _ _ (ends r w) h = end_inflight_request-Settled r w.target h
Step-Settled _ _ (hijacks r w) h =
    Keeps-Settled w.target (hijack r w.target) (hijack-Keeps r w.target) h
Step-Settled _ _ (leaves r w i) h =
    Keeps-Settled w.target (cancel r client_gone w.target) (cancel-Keeps r client_gone w.target) h
Step-Settled _ _ (checks b w) h =
    Keeps-Settled w.target (health_check_completed b w.target)
      (health_check_completed-Keeps b w.target) h
Step-Settled _ _ (drain_begins w) h =
    Keeps-Settled w.target (begin_drain w.target).0 (begin_drain-Keeps w.target) h
Step-Settled _ _ (drain_ends front back d w e) h =
    Keeps-Settled w.target (end_drain d w.target) (end_drain-Keeps d w.target) h

-- Where each request that was started is in flight or has a context that is done, this stays so
-- however requests, health checks and drains interleave.
pub Steps-Settled : (v w : World) → Steps v w → Settled v.target → Settled w.target
Steps-Settled _ _ (done w) h = h
Steps-Settled _ _ (after v w u s t) h = Step-Settled w u t (Steps-Settled v w s h)

-- A context that is done stays done.
module _ (q : ℕ) where
  Step-IsDone : (w w' : World) → Step w w' → IsDone w.target q → IsDone w'.target q
  Step-IsDone _ _ (starts w) h = start_request-IsDone q w.target h
  Step-IsDone _ _ (ends r w) h = end_inflight_request-IsDone r q w.target h
  Step-IsDone _ _ (hijacks r w) h =
      Keeps-IsDone w.target (hijack r w.target) q (hijack-Keeps r w.target) h
  Step-IsDone _ _ (leaves r w i) h =
      Keeps-IsDone w.target (cancel r client_gone w.target) q (cancel-Keeps r client_gone w.target)
        h
  Step-IsDone _ _ (checks b w) h =
      Keeps-IsDone w.target (health_check_completed b w.target) q
        (health_check_completed-Keeps b w.target) h
  Step-IsDone _ _ (drain_begins w) h =
      Keeps-IsDone w.target (begin_drain w.target).0 q (begin_drain-Keeps w.target) h
  Step-IsDone _ _ (drain_ends front back d w e) h =
      Keeps-IsDone w.target (end_drain d w.target) q (end_drain-Keeps d w.target) h

  pub Steps-IsDone : (v w : World) → Steps v w → IsDone v.target q → IsDone w.target q
  Steps-IsDone _ _ (done w) h = h
  Steps-IsDone _ _ (after v w u s t) h = Step-IsDone w u t (Steps-IsDone v w s h)
