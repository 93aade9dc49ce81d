-- ===== src/LoadBalancer/Rotation.antt =====
-- nextTarget takes the targets of a kind in turn, so each of them comes once in every round.
use native.Mathlib.Nat.{mod-add-mod, mod-eq_of_lt, mod-lt, add-mod_right}
use kamal_proxy.Base.{
  ℕ, zero, suc, ◌+◌, ◌-◌, ◌%◌, ◌<◌, ◌≡◌, refl, sym, ap, ◌∙◌, Bool, true, false, List, [], ◌∷◌, some,
  arith, length, get_elem?, dec_lt, lt→ltb,
}
use kamal_proxy.LoadBalancer.{LoadBalancer, target, nth, next_of, next_writer, next_target}

-- The index after k calls.
index_after : ℕ → List ℕ → ℕ → ℕ
index_after zero xs i = i
index_after (suc k) xs i = next_of xs (index_after k xs i)

-- From any index, one past the end of the list as well.
index_after_lem :
    (k : ℕ) (x : ℕ) (xs : List ℕ) (i : ℕ)
    → index_after (suc k) (x ∷ xs) i ≡ (i + suc k) % suc (length xs)
unfolding index_after next_of
index_after_lem zero x xs i = let e : i + 1 ≡ suc i = omega arith in rw e refl
index_after_lem (suc k) x xs i =
    let n = suc (length xs) in
    let e : suc ((i + suc k) % n) ≡ (i + suc k) % n + 1 = omega arith in
    let f : i + suc k + 1 ≡ i + suc (suc k) = omega arith in
    rw (index_after_lem k x xs i)
      (ap (λ y. y % n) e ∙ mod-add-mod (i + suc k) n 1 ∙ ap (λ y. y % n) f)

next_of_reaches :
    (x : ℕ) (xs : List ℕ) (i j : ℕ)
    → j < suc (length xs)
    → (k : ℕ) × (k < suc (length xs)) × (next_of (x ∷ xs) (index_after k (x ∷ xs) i) ≡ j)
unfolding index_after next_of
next_of_reaches x xs i j l =
    let n = suc (length xs) in
    let m = i % n in
    let below : m < n = mod-lt i (omega arith) in
    elim (dec_lt m j) [
      | yes p ↦
          let k = j - m - 1 in
          let e : m + suc k ≡ j = omega arith in
          (
            k,
            omega arith,
            index_after_lem k x xs i ∙ sym (mod-add-mod i n (suc k)) ∙ rw e (mod-eq_of_lt l),
          )
      | no p ↦
          let k = j + length xs - m in
          let e : m + suc k ≡ j + n = omega arith in
          (
            k,
            omega arith,
            index_after_lem k x xs i
                ∙ sym (mod-add-mod i n (suc k))
                ∙ rw e (add-mod_right j n ∙ mod-eq_of_lt l),
          )
    ]

next_writer_lem :
    (lb : LoadBalancer) (x : ℕ) (xs : List ℕ)
    → lb.writers ≡ x ∷ xs
    → let i = next_of (x ∷ xs) lb.writer_index in
      next_writer lb ≡ (record lb { writer_index = i }, nth (x ∷ xs) i)
unfolding next_writer
next_writer_lem lb x xs e = rw (e, lt→ltb 0 (suc (length xs)) (omega arith)) refl

next_target-write : (lb : LoadBalancer) → next_target false lb ≡ next_writer lb
unfolding next_target
next_target-write lb = refl

next_target-read :
    (lb : LoadBalancer) (x : ℕ) (xs : List ℕ)
    → lb.readers ≡ x ∷ xs
    → let i = next_of (x ∷ xs) lb.reader_index in
      next_target true lb ≡ (record lb { reader_index = i }, nth (x ∷ xs) i)
unfolding next_target
next_target-read lb x xs e = rw (e, lt→ltb 0 (suc (length xs)) (omega arith)) refl

-- The balancer after k calls.
pub after_calls : Bool → ℕ → LoadBalancer → LoadBalancer
after_calls reader zero lb = lb
after_calls reader (suc k) lb = (next_target reader (after_calls reader k lb)).0

-- The targets of the kind, and the index that was last used.
abbrev pub Turn : Bool → LoadBalancer → List ℕ → ℕ → Type 0
Turn false lb xs i = (lb.writers ≡ xs) × (lb.writer_index ≡ i)
Turn true lb xs i = (lb.readers ≡ xs) × (lb.reader_index ≡ i)

module _ (x : ℕ) (xs : List ℕ) where
  next_target-Turn :
      (reader : Bool) (lb : LoadBalancer) (i : ℕ)
      → Turn reader lb (x ∷ xs) i
      → let r = next_target reader lb in
        Turn reader r.0 (x ∷ xs) (next_of (x ∷ xs) i) × (r.1 ≡ nth (x ∷ xs) (next_of (x ∷ xs) i))
  next_target-Turn false lb i h =
      rw (next_target-write lb, next_writer_lem lb x xs h.0, h.1) ((h.0, refl), refl)
  next_target-Turn true lb i h = rw (next_target-read lb x xs h.0, h.1) ((h.0, refl), refl)

  after_calls-Turn :
      (reader : Bool) (k : ℕ) (lb : LoadBalancer) (i : ℕ)
      → Turn reader lb (x ∷ xs) i
      → Turn reader (after_calls reader k lb) (x ∷ xs) (index_after k (x ∷ xs) i)
  unfolding after_calls index_after
  after_calls-Turn reader zero lb i h = h
  after_calls-Turn reader (suc k) lb i h =
      (next_target-Turn reader (after_calls reader k lb) (index_after k (x ∷ xs) i)
        (after_calls-Turn reader k lb i h)).0

get_elem?-lt : (xs : List ℕ) (j t : ℕ) → get_elem? xs j ≡ some t → j < length xs
get_elem?-lt [] j t e = absurd (ground arith)
get_elem?-lt (x ∷ xs) zero t e = omega arith
get_elem?-lt (x ∷ xs) (suc j) t e = let ih = get_elem?-lt xs j t e in omega arith

-- Of as many calls in turn as there are targets of the kind, one answers with the target at any
-- given place, so no target of the kind is left out of a round. The index last used may be past the
-- end, as it is where the list has become shorter.
pub each_target-Turn :
    (reader : Bool) (lb : LoadBalancer) (x : ℕ) (xs : List ℕ) (i j t : ℕ)
    → Turn reader lb (x ∷ xs) i
    → get_elem? (x ∷ xs) j ≡ some t
    → (k : ℕ) × (k < length (x ∷ xs))
      × ((next_target reader (after_calls reader k lb)).1 ≡ target t)
unfolding nth
each_target-Turn reader lb x xs i j t h e =
    let (k, m, r) = next_of_reaches x xs i j (get_elem?-lt (x ∷ xs) j t e) in
    (
      k,
      m,
      (next_target-Turn x xs reader (after_calls reader k lb) (index_after k (x ∷ xs) i)
            (after_calls-Turn x xs reader k lb i h)).1
          ∙ rw (r, nth, e) refl,
    )
