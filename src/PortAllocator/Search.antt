-- ===== src/PortAllocator/Search.antt =====
-- The loops over a range of ports: what they find, and that they end by their own test.
use kamal_proxy.Base.{
  ℕ, zero, suc, ◌+◌, ◌-◌, ◌*◌, ◌≤◌, ◌<◌, ◌≡◌, Bool, true, false, none, some, arith, ltb, Bool-cases,
  inl, inr,
}
use kamal_proxy.PortAllocator.{first_port, search}

-- The port that the search finds passes, lies in the range on the grid of steps, and is the first.
pub record IsFirst (test : ℕ → Bool) (start stop step p : ℕ) : Type 0 where
  pub passes : test p ≡ true
  pub above : start ≤ p
  pub below : p < stop
  pub index : ℕ
  on_grid : p ≡ start + index * step
  pub first : (k : ℕ) → k < index → test (start + k * step) ≡ false

first_port-IsFirst :
    (test : ℕ → Bool) (fuel port stop step p : ℕ)
    → first_port test fuel port stop step ≡ some p
    → IsFirst test port stop step p
unfolding first_port
first_port-IsFirst test zero port stop step p h = absurd (ground arith)
first_port-IsFirst test (suc fuel) port stop step p h = elim (Bool-cases (ltb port stop)) [
  | inr e ↦ absurd (ground arith)
  | inl e ↦ elim (Bool-cases (test port)) [
    | inl t ↦
        let same : port ≡ p = ground arith in
        record {
          passes = ground arith;
          above = omega arith;
          below = ground arith;
          index = 0;
          on_grid = omega arith;
          first = λ k lt. absurd (omega arith);
        }
    | inr t ↦
        let rest : first_port test fuel (port + step) stop step ≡ some p = ground arith in
        let ih = first_port-IsFirst test fuel (port + step) stop step p rest in
        record {
          passes = ih.passes;
          above = omega (arith, ih.above);
          below = ih.below;
          index = suc ih.index;
          on_grid = omega (arith, ih.on_grid);
          first = earlier test port step ih.index t ih.first;
        }
  ]
]
  where
    earlier :
        (test : ℕ → Bool) (port step index : ℕ)
        → test port ≡ false
        → ((k : ℕ) → k < index → test (port + step + k * step) ≡ false)
        → (k : ℕ) → k < suc index
        → test (port + k * step) ≡ false
    earlier test port step index t h zero lt =
        let e : port + 0 * step ≡ port = omega arith in rw e t
    earlier test port step index t h (suc k) lt =
        let e : port + suc k * step ≡ port + step + k * step = omega arith in
        rw e (h k (omega arith))

-- With enough fuel a search that finds nothing has tried each port of the grid.
first_port-none :
    (test : ℕ → Bool) (fuel port stop step : ℕ)
    → 0 < step
    → stop - port < fuel
    → first_port test fuel port stop step ≡ none
    → (k : ℕ) → port + k * step < stop
    → test (port + k * step) ≡ false
unfolding first_port
first_port-none test zero port stop step s f h k lt = absurd (omega arith)
first_port-none test (suc fuel) port stop step s f h zero lt =
    let e : port + 0 * step ≡ port = omega arith in rw e (ground arith)
first_port-none test (suc fuel) port stop step s f h (suc k) lt =
    let e : port + suc k * step ≡ port + step + k * step = omega arith in
    let less : port + step + k * step < stop = omega (arith, e, lt) in
    let here : port < stop = omega arith in
    rw e (first_port-none test fuel (port + step) stop step s (omega arith) (ground arith) k less)

pub search-IsFirst :
    (test : ℕ → Bool) (start stop step p : ℕ)
    → search test start stop step ≡ some p
    → IsFirst test start stop step p
search-IsFirst test start stop step p =
    first_port-IsFirst test (suc (stop - start)) start stop step p

pub search-none :
    (test : ℕ → Bool) (start stop step : ℕ)
    → 0 < step
    → search test start stop step ≡ none
    → (k : ℕ) → start + k * step < stop
    → test (start + k * step) ≡ false
search-none test start stop step s =
    first_port-none test (suc (stop - start)) start stop step s (omega arith)
