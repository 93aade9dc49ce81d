-- ===== src/LoadBalancer/Healthy.antt =====
-- Which targets take requests: the healthy ones, writers for writes.
use kamal_proxy.Base.{
  ℕ, suc, ◌≤◌, ◌≡◌, refl, ◌⊎◌, inl, inr, ◌↔◌, Bool, true, false, List, [], ◌∷◌, arith,
  if◌then◌else◌, length, Elem, All, Bool-cases, ap, ◌==◌,
}
use kamal_proxy.Target.{Target, TargetState, healthy}
use kamal_proxy.LoadBalancer.{
  World, healthy_targets, healthy_count, is_healthy, update_healthy_targets,
}

healthy_targets-Elem :
    (reader : Bool) (heap : ℕ → Target) (t : ℕ) (ts : List ℕ)
    → Elem t (healthy_targets reader heap ts)
      ↔ (Elem t ts × ((heap t).state ≡ healthy) × ((heap t).read_only ≡ reader))
unfolding healthy_targets is_healthy
healthy_targets-Elem reader heap t [] = ground arith
healthy_targets-Elem reader heap t (u ∷ ts) =
    let ih = healthy_targets-Elem reader heap t ts in
    (λ h. ground (arith, ih), λ h. ground (arith, ih))

abbrev pub AllHealthy : (ℕ → Target) → List ℕ → Type 0
AllHealthy heap ts = All (λ t. (heap t).state ≡ healthy) ts

is_healthy_iff : (s : TargetState) → (is_healthy s ≡ true) ↔ (s ≡ healthy)
unfolding is_healthy
is_healthy_iff s = ground arith

healthy_count_le : (heap : ℕ → Target) (ts : List ℕ) → healthy_count heap ts ≤ length ts
unfolding healthy_count
healthy_count_le heap [] = omega arith
healthy_count_le heap (u ∷ ts) = ground (arith, healthy_count_le heap ts)

healthy_count_lem :
    (heap : ℕ → Target) (ts : List ℕ) → (healthy_count heap ts ≡ length ts) ↔ AllHealthy heap ts
unfolding healthy_count
healthy_count_lem heap [] = (λ _. tt, λ _. refl)
healthy_count_lem heap (u ∷ ts) =
    let ih = healthy_count_lem heap ts in
    let most = healthy_count_le heap ts in
    let iff = is_healthy_iff (heap u).state in
    elim (Bool-cases (is_healthy (heap u).state)) [
      | inl e ↦ rw (e, healthy_count) (λ h. (iff.0 e, ih.0 (omega arith)), λ h. ap suc (ih.1 h.1))
      | inr e ↦
          rw (e, healthy_count)
            (λ h. absurd (omega (arith, most)), λ h. absurd (ground (arith, iff.1 h.0)))
    ]

-- The lists are those of the healthy writers and of the healthy readers, and the balancer is
-- marked as healthy if it was before or all targets are healthy.
pub update_healthy_targets_exact :
    (w : World)
    → let w' = update_healthy_targets w in
      ((t : ℕ)
        → Elem t w'.lb.writers
          ↔ (Elem t w.lb.all × ((w.targets t).state ≡ healthy) × ((w.targets t).read_only ≡ false)))
      × ((t : ℕ)
          → Elem t w'.lb.readers ↔ (
              Elem t w.lb.all × ((w.targets t).state ≡ healthy) × ((w.targets t).read_only ≡ true)))
      × ((w'.lb.marked_healthy ≡ true)
          ↔ ((w.lb.marked_healthy ≡ true) ⊎ AllHealthy w.targets w.lb.all))
unfolding update_healthy_targets
update_healthy_targets_exact w =
    let c = healthy_count_lem w.targets w.lb.all in
    (
      λ t. healthy_targets-Elem false w.targets t w.lb.all,
      λ t. healthy_targets-Elem true w.targets t w.lb.all,
      marked (healthy_count w.targets w.lb.all) (length w.lb.all) w.lb.marked_healthy c,
    )
  where
    marked :
        (n m : ℕ) (old : Bool) {A : Type 0}
        → (n ≡ m) ↔ A
        → ((if n == m then true else old) ≡ true) ↔ ((old ≡ true) ⊎ A)
    marked n m old h = elim (Bool-cases (n == m)) [
      | inl e ↦ rw e (λ _. inr (h.0 (ground arith)), λ _. refl)
      | inr e ↦
          rw e (λ k. inl k, λ k. elim k [ inl o ↦ o | inr a ↦ absurd (ground (arith, h.1 a)) ])
    ]
