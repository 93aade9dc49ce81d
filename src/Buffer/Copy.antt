-- ===== src/Buffer/Copy.antt =====
-- NewBufferedReadCloser: a whole body is buffered, or refused with nothing left behind.
use mathlib.Core.List.{append-nil, append_assoc}
use kamal_proxy.Base.{
  ℕ, ◌+◌, ◌≤◌, ◌<◌, ◌≡◌, refl, ap, false, List, [], ◌∷◌, ◌++◌, Option, none, some, arith, length,
  length-append, take-all, dec_lt, inl, inr, ◌≢◌, sym, ◌∙◌, Option-cases,
}
use kamal_proxy.Buffer.{
  Buffer, Error, maximum_size_exceeded, Disk, contents_of, contents, write,
  new_buffered_write_closer, io_copy, close, write_to_memory, write_to_disk,
  new_buffered_read_closer,
}
use kamal_proxy.Buffer.Bounds.{IsValid, write-IsValid}
use kamal_proxy.Buffer.Content.{
  Appends, write-Appends, IsFaultless, Exceeds, write_fits, write-Exceeds,
}

-- The bytes that a source delivers.
abbrev pub body : List (Disk × List ℕ) → List ℕ
body [] = []
body ((os, p) ∷ rest) = p ++ body rest

abbrev pub AllFaultless : List (Disk × List ℕ) → Type 0
AllFaultless [] = Unit
AllFaultless ((os, p) ∷ rest) = IsFaultless os × AllFaultless rest

-- The fields that a write leaves alone.
pub write_keeps :
    (os : Disk) (b : Buffer) (p : List ℕ)
    → ((write os b p).0.max_bytes ≡ b.max_bytes)
      × ((write os b p).0.max_mem_bytes ≡ b.max_mem_bytes)
      × ((write os b p).0.reading ≡ b.reading)
      × ((write os b p).0.closed ≡ b.closed)
unfolding write write_to_memory write_to_disk
write_keeps os b p = ground arith

pub new-IsValid :
    (max_bytes max_mem_bytes : ℕ) → IsValid (new_buffered_write_closer max_bytes max_mem_bytes)
unfolding new_buffered_write_closer
new-IsValid m k = ground arith

-- A copy keeps the invariant, and does not close the buffer.
io_copy-IsValid :
    (b : Buffer) (chunks : List (Disk × List ℕ)) (final : Option Error)
    → IsValid b
    → IsValid (io_copy b chunks final).0 × ((io_copy b chunks final).0.closed ≡ b.closed)
unfolding io_copy
io_copy-IsValid b [] final v = (v, refl)
io_copy-IsValid b ((os, p) ∷ rest) final v =
    let w = write-IsValid os b p v in
    let more = io_copy-IsValid (write os b p).0 rest final w in
    elim (Option-cases (write os b p).2) [
      | inl e ↦ rw (e, io_copy) (more.0, more.1 ∙ (write_keeps os b p).3)
      | inr (x, e) ↦ rw (e, io_copy) (w, (write_keeps os b p).3)
    ]

-- The bytes that a buffer has taken, in memory and on disk.
abbrev pub taken : Buffer → ℕ
taken b = b.mem_bytes_written + b.disk_bytes_written

-- A write that fits takes its bytes into account.
pub write_taken :
    (os : Disk) (b : Buffer) (p : List ℕ)
    → IsFaultless os
    → IsValid b
    → b.reading ≡ false
    → ¬ Exceeds b p
    → (contents (write os b p).0 ≡ contents b ++ p) × (taken (write os b p).0 ≡ taken b + length p)
write_taken os b p f v r fits = (same, size)
  where
    b' : Buffer
    b' = (write os b p).0

    a : Appends b p (write os b p)
    a = write-Appends os b p v

    full : (write os b p).1 ≡ length p
    full = a.count_full (write_fits os b p f r fits)

    same : contents b' ≡ contents b ++ p
    same = rw a.content (rw full (ap (◌++◌ (contents b)) (take-all (length p) p (omega arith))))

    v' : IsValid b'
    v' = write-IsValid os b p v

    r' : b'.reading ≡ false
    r' = (write_keeps os b p).2 ∙ r

    size : taken b' ≡ taken b + length p
    size = omega (
      arith,
      ap length same,
      length-append (contents b) p,
      length-append b.memory (contents_of b.disk),
      length-append b'.memory (contents_of b'.disk),
      v.mem_counted r,
      v.disk_counted r,
      v'.mem_counted r',
      v'.disk_counted r',
    )

-- The copy of a body into a buffer that it fits into.
io_copy_fits :
    (b : Buffer) (chunks : List (Disk × List ℕ))
    → AllFaultless chunks
    → IsValid b
    → b.reading ≡ false
    → (0 < b.max_bytes → taken b + length (body chunks) ≤ b.max_bytes)
    → ((io_copy b chunks none).1 ≡ none)
      × (contents (io_copy b chunks none).0 ≡ contents b ++ body chunks)
unfolding io_copy
io_copy_fits b [] f v r h = (refl, sym (append-nil (contents b)))
io_copy_fits b ((os, p) ∷ rest) (f, fs) v r h =
    let b' = (write os b p).0 in
    let split = length-append p (body rest) in
    let fits : ¬ Exceeds b p = λ x. omega (arith, h x.0, split, x.1) in
    let t = write_taken os b p f v r fits in
    let k = write_keeps os b p in
    let ih =
      io_copy_fits b' rest fs (write-IsValid os b p v) (k.2 ∙ r)
        (λ m. omega (arith, h (omega (arith, k.0, m)), t.1, split, k.0)) in
    rw (write_fits os b p f r fits, io_copy)
      (ih.0, ih.1 ∙ ap (λ x. x ++ body rest) t.0 ∙ append_assoc (contents b) p (body rest))

-- The copy of a body past the limit.
io_copy_exceeds :
    (b : Buffer) (chunks : List (Disk × List ℕ))
    → AllFaultless chunks
    → IsValid b
    → b.reading ≡ false
    → 0 < b.max_bytes
    → b.max_bytes < taken b + length (body chunks)
    → (io_copy b chunks none).1 ≡ some maximum_size_exceeded
unfolding io_copy
io_copy_exceeds b [] f v r m h = absurd (omega (arith, v.total_bound m, h))
io_copy_exceeds b ((os, p) ∷ rest) (f, fs) v r m h =
    elim (dec_lt b.max_bytes (b.mem_bytes_written + b.disk_bytes_written + length p)) [
      | yes over ↦ rw (write-Exceeds os b p r (m, over), io_copy)
      | no under ↦
          let fits : ¬ Exceeds b p = λ x. under x.1 in
          let t = write_taken os b p f v r fits in
          let k = write_keeps os b p in
          rw (write_fits os b p f r fits, io_copy)
            (io_copy_exceeds (write os b p).0 rest fs (write-IsValid os b p v) (k.2 ∙ r)
              (omega (arith, k.0, m)) (omega (arith, t.1, k.0, h, length-append p (body rest))))
    ]

-- On faultless disks a body without a size limit, or within it, is buffered whole, however it is
-- cut into chunks.
pub new_buffered_read_closer_fits :
    (chunks : List (Disk × List ℕ)) (max_bytes max_mem_bytes : ℕ)
    → AllFaultless chunks
    → (0 < max_bytes → length (body chunks) ≤ max_bytes)
    → ((new_buffered_read_closer chunks none max_bytes max_mem_bytes).1 ≡ none)
      × (contents (new_buffered_read_closer chunks none max_bytes max_mem_bytes).0 ≡ body chunks)
unfolding new_buffered_read_closer new_buffered_write_closer
new_buffered_read_closer_fits chunks m k f h =
    let t =
      io_copy_fits (new_buffered_write_closer m k) chunks f (new-IsValid m k) refl
        (λ p. omega (arith, h p)) in
    rw (t.0, new_buffered_read_closer) (refl, t.1)

-- On faultless disks a body past the limit is refused as too large.
pub new_buffered_read_closer_exceeds :
    (chunks : List (Disk × List ℕ)) (max_bytes max_mem_bytes : ℕ)
    → AllFaultless chunks
    → 0 < max_bytes
    → max_bytes < length (body chunks)
    → (new_buffered_read_closer chunks none max_bytes max_mem_bytes).1 ≡ some maximum_size_exceeded
unfolding new_buffered_read_closer new_buffered_write_closer
new_buffered_read_closer_exceeds chunks m k f p h =
    let t =
      io_copy_exceeds (new_buffered_write_closer m k) chunks f (new-IsValid m k) refl p
        (omega (arith, h)) in
    rw (t, new_buffered_read_closer)

-- Whatever the source and the operating system do, a failed copy leaves no temporary file.
pub new_buffered_read_closer_no_leak :
    (chunks : List (Disk × List ℕ)) (final : Option Error) (max_bytes max_mem_bytes : ℕ)
    → (new_buffered_read_closer chunks final max_bytes max_mem_bytes).1 ≢ none
    → (new_buffered_read_closer chunks final max_bytes max_mem_bytes).0.file_exists ≡ false
unfolding new_buffered_read_closer new_buffered_write_closer close
new_buffered_read_closer_no_leak chunks final m k h =
    ground (arith, io_copy-IsValid (new_buffered_write_closer m k) chunks final (new-IsValid m k))
