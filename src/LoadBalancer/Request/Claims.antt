-- ===== src/LoadBalancer/Request/Claims.antt =====
-- Which target a request is given.
use kamal_proxy.Base.{ℕ, ◌≡◌, refl, ◌⊎◌, inl, inr, Bool, true, false, ◌&&◌, not, [], Elem}
use kamal_proxy.Base.Int.{ℤ}
use kamal_proxy.Target.{is_draining}
use kamal_proxy.Target.Drains.{start_request_lem}
use kamal_proxy.LoadBalancer.{LoadBalancer, World, Picked, target, next_target}
use kamal_proxy.LoadBalancer.Picks.{Answer, nobody, writer, reader_for_read, next_target-Answer}
use kamal_proxy.LoadBalancer.Request.{
  Request, Claimed, claimed, no_healthy_targets, target_draining, is_read_request, has_write_cookie,
  claim, claim_target,
}

-- The ways a request can be claimed by the target whose turn it is: that target does not drain and is
-- a writer or, for a read that may go to one, a reader; or it drains; or there is no writer.
pub data Outcome (reader read : Bool) (w : World) : Claimed → Type 0 where
  no_writer : w.lb.writers ≡ [] → Outcome reader read w no_healthy_targets
  drains :
      (a : ℕ)
      → (next_target reader w.lb).1 ≡ target a
      → Elem a w.lb.writers ⊎ ((reader ≡ true) × Elem a w.lb.readers)
      → is_draining (w.targets a).state ≡ true
      → Outcome reader read w target_draining
  by_writer :
      (a : ℕ)
      → (next_target reader w.lb).1 ≡ target a
      → Elem a w.lb.writers
      → is_draining (w.targets a).state ≡ false
      → Outcome reader read w (claimed a (w.targets a).next_request read)
  by_reader :
      (a : ℕ)
      → (next_target reader w.lb).1 ≡ target a
      → reader ≡ true
      → Elem a w.lb.readers
      → is_draining (w.targets a).state ≡ false
      → Outcome reader read w (claimed a (w.targets a).next_request read)

claim-Outcome :
    (reader read : Bool) (w : World) (lb : LoadBalancer) (p : Picked)
    → (next_target reader w.lb).1 ≡ p
    → Answer reader w.lb p
    → Outcome reader read w (claim read (record w { lb = lb }) p).1
unfolding claim
claim-Outcome reader read w lb _ turn (nobody e) = no_writer e
claim-Outcome reader read w lb _ turn (writer a i) = elim (start_request_lem (w.targets a)) [
  | inl h ↦ rw (h.0, claim) (drains a turn (inl i) h.1)
  | inr h ↦ rw (h.0, claim) (by_writer a turn i h.1)
]
claim-Outcome reader read w lb _ turn (reader_for_read a e i) =
    elim (start_request_lem (w.targets a)) [
      | inl h ↦ rw (h.0, claim) (drains a turn (inr (e, i)) h.1)
      | inr h ↦ rw (h.0, claim) (by_reader a turn e i h.1)
    ]

-- A request is given to the target whose turn it is, which does not drain and is a writer, or a reader
-- where the request is a read without a valid writer cookie. It is refused only where there is no
-- writer or where the target whose turn it is, one of these lists, drains; the choice never panics.
pub claim_target-Outcome :
    (now : ℤ) (r : Request) (w : World)
    → Outcome
        (is_read_request w.lb r && not (has_write_cookie now r))
        (is_read_request w.lb r)
        w
        (claim_target now r w).1
unfolding claim_target
claim_target-Outcome now r w =
    let read = is_read_request w.lb r in
    let reader = read && not (has_write_cookie now r) in
    claim-Outcome reader read w (next_target reader w.lb).0 (next_target reader w.lb).1 refl
      (next_target-Answer reader w.lb)
