-- ===== src/Buffer/Writes.antt =====
-- Writes in a row whose answers the writer does not heed.
use mathlib.Core.List.{append-nil, append_assoc}
use kamal_proxy.Base.{
  ℕ, ◌+◌, ◌≤◌, ◌<◌, ◌≡◌, refl, ap, sym, ◌∙◌, true, false, List, [], ◌∷◌, ◌++◌, arith, length,
  length-append, dec_lt, Option-cases, inl, inr,
}
use kamal_proxy.Buffer.{Buffer, Disk, contents, write, write_to_memory, write_to_disk, send}
use kamal_proxy.Buffer.Bounds.{IsValid, write-IsValid}
use kamal_proxy.Buffer.Content.{Exceeds}
use kamal_proxy.Buffer.Copy.{body, AllFaultless, taken, write_taken, write_keeps}

unfoldable pub write_all : List (Disk × List ℕ) → Buffer → Buffer
write_all [] b = b
write_all ((os, p) ∷ rest) b = write_all rest (write os b p).0

write-overflowed :
    (os : Disk) (b : Buffer) (p : List ℕ) → b.overflowed ≡ true → (write os b p).0.overflowed ≡ true
unfolding write write_to_memory write_to_disk
write-overflowed os b p o = ground arith

write-not_overflowed :
    (os : Disk) (b : Buffer) (p : List ℕ)
    → ¬ Exceeds b p
    → b.overflowed ≡ false
    → (write os b p).0.overflowed ≡ false
unfolding write write_to_memory write_to_disk
write-not_overflowed os b p n o = ground arith

write_past_limit :
    (os : Disk) (b : Buffer) (p : List ℕ)
    → b.reading ≡ false
    → Exceeds b p
    → (write os b p).0.overflowed ≡ true
unfolding write
write_past_limit os b p r x = ground arith

write_all-overflowed :
    (chunks : List (Disk × List ℕ)) (b : Buffer)
    → b.overflowed ≡ true
    → (write_all chunks b).overflowed ≡ true
unfolding write_all
write_all-overflowed [] b o = o
write_all-overflowed ((os, p) ∷ rest) b o =
    write_all-overflowed rest (write os b p).0 (write-overflowed os b p o)

pub write_all_fits :
    (chunks : List (Disk × List ℕ)) (b : Buffer)
    → AllFaultless chunks
    → IsValid b
    → b.reading ≡ false
    → b.overflowed ≡ false
    → (0 < b.max_bytes → taken b + length (body chunks) ≤ b.max_bytes)
    → (contents (write_all chunks b) ≡ contents b ++ body chunks)
      × ((write_all chunks b).overflowed ≡ false)
unfolding write_all
write_all_fits [] b f v r o h = (sym (append-nil (contents b)), o)
write_all_fits ((os, p) ∷ rest) b (f, fs) v r o h =
    let split = length-append p (body rest) in
    let fits : ¬ Exceeds b p = λ x. omega (arith, h x.0, split, x.1) in
    let t = write_taken os b p f v r fits in
    let k = write_keeps os b p in
    let ih =
      write_all_fits rest (write os b p).0 fs (write-IsValid os b p v) (k.2 ∙ r)
        (write-not_overflowed os b p fits o)
        (λ m. omega (arith, h (omega (arith, k.0, m)), t.1, split, k.0)) in
    (ih.0 ∙ ap (λ x. x ++ body rest) t.0 ∙ append_assoc (contents b) p (body rest), ih.1)

pub write_all_exceeds :
    (chunks : List (Disk × List ℕ)) (b : Buffer)
    → AllFaultless chunks
    → IsValid b
    → b.reading ≡ false
    → 0 < b.max_bytes
    → b.max_bytes < taken b + length (body chunks)
    → (write_all chunks b).overflowed ≡ true
unfolding write_all
write_all_exceeds [] b f v r m h = absurd (omega (arith, v.total_bound m, h))
write_all_exceeds ((os, p) ∷ rest) b (f, fs) v r m h =
    elim (dec_lt b.max_bytes (b.mem_bytes_written + b.disk_bytes_written + length p)) [
      | yes over ↦ write_all-overflowed rest (write os b p).0 (write_past_limit os b p r (m, over))
      | no under ↦
          let fits : ¬ Exceeds b p = λ x. under x.1 in
          let t = write_taken os b p f v r fits in
          let k = write_keeps os b p in
          write_all_exceeds rest (write os b p).0 fs (write-IsValid os b p v) (k.2 ∙ r)
            (omega (arith, k.0, m)) (omega (arith, t.1, k.0, h, length-append p (body rest)))
    ]

-- All that was written is sent.
pub send-contents : (b : Buffer) → (send b).1 ≡ contents b
unfolding send
send-contents b = elim (Option-cases b.disk) [
  | inl e ↦ rw (e, send) (sym (append-nil b.memory))
  | inr (d, e) ↦ rw (e, send) refl
]
