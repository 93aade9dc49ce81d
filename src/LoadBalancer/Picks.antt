-- ===== src/LoadBalancer/Picks.antt =====
-- nextTarget never indexes out of range, and gives readers to reads only.
use kamal_proxy.Base.{
  ℕ, zero, suc, ◌<◌, ◌≡◌, refl, inl, inr, Bool, true, false, List, [], ◌∷◌, arith, length, Elem,
  ltb, Bool-cases,
}
use kamal_proxy.LoadBalancer.{
  LoadBalancer, Picked, nil, target, nth, next_of, next_writer, next_target,
}

nth-Elem : (xs : List ℕ) (i : ℕ) → i < length xs → (t : ℕ) × (nth xs i ≡ target t) × Elem t xs
unfolding nth
nth-Elem [] i h = absurd (omega arith)
nth-Elem (x ∷ xs) zero h = (x, refl, inl refl)
nth-Elem (x ∷ xs) (suc i) h = let r = nth-Elem xs i (omega arith) in (r.0, r.1, inr r.2)

-- The answer to a call: a target of one list, or nil where that list is empty.
pub data Answer (reader : Bool) (lb : LoadBalancer) : Picked → Type 0 where
  nobody : lb.writers ≡ [] → Answer reader lb nil
  writer : (t : ℕ) → Elem t lb.writers → Answer reader lb (target t)
  reader_for_read : (t : ℕ) → reader ≡ true → Elem t lb.readers → Answer reader lb (target t)

next_of_lt : (xs : List ℕ) (i : ℕ) → ltb 0 (length xs) ≡ true → next_of xs i < length xs
unfolding next_of
next_of_lt [] i h = absurd (ground arith)
next_of_lt (x ∷ xs) i h = omega arith

empty : (xs : List ℕ) → ltb 0 (length xs) ≡ false → xs ≡ []
empty [] h = refl
empty (x ∷ xs) h = absurd (ground arith)

next_writer-Answer : (reader : Bool) (lb : LoadBalancer) → Answer reader lb (next_writer lb).1
unfolding next_writer
next_writer-Answer reader lb = elim (Bool-cases (ltb 0 (length lb.writers))) [
  | inl e ↦
      let i = next_of lb.writers lb.writer_index in
      let p = nth-Elem lb.writers i (next_of_lt lb.writers lb.writer_index e) in
      rw (e, next_writer, p.1) (writer p.0 p.2)
  | inr e ↦ rw (e, next_writer) (nobody (empty lb.writers e))
]

-- A call of nextTarget never panics: it gives a writer, or for a read a reader, and nil only
-- where there is no writer.
pub next_target-Answer :
    (reader : Bool) (lb : LoadBalancer) → Answer reader lb (next_target reader lb).1
unfolding next_target
next_target-Answer false lb = next_writer-Answer false lb
next_target-Answer true lb = elim (Bool-cases (ltb 0 (length lb.readers))) [
  | inl e ↦
      let i = next_of lb.readers lb.reader_index in
      let p = nth-Elem lb.readers i (next_of_lt lb.readers lb.reader_index e) in
      rw (e, next_target, p.1) (reader_for_read p.0 refl p.2)
  | inr e ↦ rw (e, next_target) (next_writer-Answer true lb)
]
