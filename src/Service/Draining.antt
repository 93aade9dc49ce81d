-- ===== src/Service/Draining.antt =====
-- internal/server/service.go and load_balancer.go: draining the targets of a service together.
-- The drains of the targets run side by side: all of them begin, and each ends with what it kept,
-- whatever requests and health checks did to the targets meanwhile.
use kamal_proxy.Base.{
  ℕ, ◌≡◌, refl, inl, inr, true, false, List, [], ◌∷◌, ◌++◌, Option, none, some, arith, ◌==◌,
  if◌then◌else◌, Elem, Bool-cases,
}
use kamal_proxy.Base.Assoc.{has, nat_eq}
use kamal_proxy.Target.{Target, Drain, begin_drain, end_drain, is_draining}
use kamal_proxy.Target.Steps.{IsDone}
use kamal_proxy.Target.Drains.{begin_drain_lem, end_drain-IsDone, end_drain_keeps}
use kamal_proxy.LoadBalancer.{LoadBalancer}
use kamal_proxy.Service.{Body}

abbrev pub Targets : Type 0
Targets = ℕ → Target

abbrev pub put_target : ℕ → Target → Targets → Targets
put_target a t heap b = if a == b then t else heap b

-- Each target with what its Drain kept, `none` where it drained already.
pub begin_drains : List ℕ → Targets → Targets × List (ℕ × Option Drain)
begin_drains [] heap = (heap, [])
begin_drains (a ∷ ts) heap =
    let (t, d) = begin_drain (heap a) in
    let (heap', ds) = begin_drains ts (put_target a t heap) in (heap', (a, d) ∷ ds)

pub end_drains : List (ℕ × Option Drain) → Targets → Targets
end_drains [] heap = heap
end_drains ((a, none) ∷ ds) heap = end_drains ds heap
end_drains ((a, some d) ∷ ds) heap = end_drains ds (put_target a (end_drain d (heap a)) heap)

-- DrainAll, with what happens to the targets meanwhile.
pub drain_targets : (Targets → Targets) → List ℕ → Targets → Targets
unfolding begin_drains end_drains
drain_targets meanwhile ts heap =
    let (heap', ds) = begin_drains ts heap in end_drains ds (meanwhile heap')

abbrev pub targets_of : Option LoadBalancer → List ℕ
targets_of none = []
targets_of (some lb) = lb.all

-- Service.Drain: the active balancer and that of the rollout at once. A missing active balancer, which no
-- call leaves and on which the code panics, has no targets here.
pub drain_service : {F : Type 0} → (Targets → Targets) → Body F → Targets → Targets
unfolding drain_targets
drain_service meanwhile b heap =
    drain_targets meanwhile (targets_of b.active ++ targets_of b.rollout) heap

==_refl : (a : ℕ) → (a == a) ≡ true
==_refl a = ground arith

module _ (a r : ℕ) where
  end_drains-IsDone :
      (ds : List (ℕ × Option Drain)) (heap : Targets)
      → IsDone (heap a) r
      → IsDone (end_drains ds heap a) r
  unfolding end_drains
  end_drains-IsDone [] heap h = h
  end_drains-IsDone ((b, none) ∷ ds) heap h = end_drains-IsDone ds heap h
  end_drains-IsDone ((b, some d) ∷ ds) heap h =
      end_drains-IsDone ds (put_target b (end_drain d (heap b)) heap) (elim (Bool-cases (b == a)) [
        | inl e ↦ let same : b ≡ a = ground arith in rw (e, same) (end_drain_keeps d (heap a) r h)
        | inr e ↦ rw e h
      ])

  -- The target has begun a drain that will cancel the request.
  abbrev Kept : List (ℕ × Option Drain) → Type 0
  Kept ds = (d : Drain) × Elem (a, some d) ds × (has r d.to_cancel ≡ true)

  begin_drains-Kept :
      (ts : List ℕ) (heap : Targets)
      → Elem a ts
      → is_draining (heap a).state ≡ false
      → has r (heap a).inflight ≡ true
      → Kept (begin_drains ts heap).1
  unfolding begin_drains
  begin_drains-Kept [] heap i n h = absurd i
  begin_drains-Kept (b ∷ ts) heap i n h = elim (Bool-cases (b == a)) [
    | inl e ↦
        let same : b ≡ a = ground arith in
        let (d, e', k) = begin_drain_lem (heap a) n in (d, inl (rw (same, e') refl), rw k h)
    | inr e ↦
        let later : Elem a ts = ground arith in
        let (d, j, k) =
          begin_drains-Kept ts (put_target b (begin_drain (heap b)).0 heap) later (rw e n)
            (rw e h) in
        (d, inr j, k)
  ]

  end_drains-Kept :
      (ds : List (ℕ × Option Drain)) (heap : Targets) → Kept ds → IsDone (end_drains ds heap a) r
  unfolding end_drains
  end_drains-Kept [] heap (d, i, k) = absurd i
  end_drains-Kept ((b, none) ∷ ds) heap (d, i, k) = elim i [
    | inl e ↦ absurd (ground arith)
    | inr j ↦ end_drains-Kept ds heap (d, j, k)
  ]
  end_drains-Kept ((b, some c) ∷ ds) heap (d, i, k) = elim i [
    | inr j ↦ end_drains-Kept ds (put_target b (end_drain c (heap b)) heap) (d, j, k)
    | inl e ↦
        let same : b ≡ a = ground arith in
        let same' : c ≡ d = ground arith in
        end_drains-IsDone ds (put_target b (end_drain c (heap b)) heap)
          (rw (same, same', ==_refl a) (end_drain-IsDone d (heap a) r k))
  ]

-- Draining a service ends each request that was in flight at one of its targets that did not drain
-- yet, whatever happens to the targets while the drains wait.
pub drain_service_ends_requests :
    {F : Type 0} (meanwhile : Targets → Targets) (b : Body F) (heap : Targets) (a r : ℕ)
    → Elem a (targets_of b.active ++ targets_of b.rollout)
    → is_draining (heap a).state ≡ false
    → has r (heap a).inflight ≡ true
    → IsDone (drain_service meanwhile b heap a) r
unfolding drain_service drain_targets
drain_service_ends_requests meanwhile b heap a r i n h =
    let ts = targets_of b.active ++ targets_of b.rollout in
    end_drains-Kept a r (begin_drains ts heap).1 (meanwhile (begin_drains ts heap).0)
      (begin_drains-Kept a r ts heap i n h)
