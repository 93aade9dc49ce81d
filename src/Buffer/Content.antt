-- ===== src/Buffer/Content.antt =====
-- What a buffer holds: writes append, reads take from the front, errors say why.
use mathlib.Core.List.{append-nil, append_assoc}
use kamal_proxy.Base.{
  ℕ, zero, suc, ◌+◌, ◌-◌, ◌≤◌, ◌<◌, ◌≡◌, refl, ap, true, false, List, [], ◌∷◌, ◌++◌, none, some,
  arith, length, take, drop, length-take, length-drop, take-all, take-append-drop, sym,
}
use kamal_proxy.Buffer.{
  Buffer, maximum_size_exceeded, Disk, contents_of, contents, is_some, write_to_memory,
  write_to_disk, spill, write, set_reader, read, send, Outcome,
}
use kamal_proxy.Buffer.Bounds.{IsValid}

take-add {ℓ} : {A : Type ℓ} (a b : ℕ) (p : List A) → take a p ++ take b (drop a p) ≡ take (a + b) p
take-add zero b p = let e : 0 + b ≡ b = omega arith in rw e
take-add (suc a) zero [] = let e : suc a + 0 ≡ suc a = omega arith in rw e
take-add (suc a) (suc b) [] = let e : suc a + suc b ≡ suc (a + suc b) = omega arith in rw e
take-add (suc a) b (x ∷ p) =
    let e : suc a + b ≡ suc (a + b) = omega arith in rw e (ap (◌∷◌ x) (take-add a b p))

-- What io.Writer promises: the first `n` bytes of `p` were appended, and all of them where no
-- error is returned.
pub record Appends (b : Buffer) (p : List ℕ) (r : Outcome) : Type 0 where
  pub content : contents r.0 ≡ contents b ++ take r.1 p
  count_le : r.1 ≤ length p
  pub count_full : r.2 ≡ none → r.1 ≡ length p

write_to_memory-Appends :
    (b : Buffer) (p : List ℕ) → is_some b.disk ≡ false → Appends b p (write_to_memory b p)
unfolding write_to_memory
write_to_memory-Appends b p h = record {
  content =
      ground (
        arith,
        take-all (length p) p (omega arith),
        append-nil (b.memory ++ p),
        append-nil b.memory,
      );
  count_le = omega arith;
  count_full = λ _. refl;
}

write_to_disk-Appends :
    (os : Disk) (b : Buffer) (p : List ℕ)
    → is_some b.disk ≡ true
    → Appends b p (write_to_disk os b p)
unfolding write_to_disk
write_to_disk-Appends os b p h = record {
  content = sym (append_assoc b.memory (contents_of b.disk) (take (os.write p).0 p));
  count_le = os.write_le p;
  count_full = os.write_full p;
}

spill-Appends :
    (os : Disk) (b : Buffer) (p : List ℕ)
    → is_some b.disk ≡ false
    → b.mem_bytes_written ≤ b.max_mem_bytes
    → b.max_mem_bytes < b.mem_bytes_written + length p
    → Appends b p (spill os b p)
unfolding spill
spill-Appends os b p h₀ v h =
    let room : ℕ = b.max_mem_bytes - b.mem_bytes_written in
    let q : List ℕ = take room p in
    let rest : List ℕ = drop (length q) p in
    ground (
      arith,
      take-add (length q) (os.write rest).0 p,
      length-take room p,
      length-drop (length q) p,
      os.write_le rest,
      os.write_full rest,
      append-nil b.memory,
      append_assoc b.memory (take (length q) p) (take (os.write rest).0 rest),
    )

-- Whatever the operating system answers, a write to a valid buffer appends the bytes that it
-- counts, no more than it was given, and all of them where it returns no error.
pub write-Appends : (os : Disk) (b : Buffer) (p : List ℕ) → IsValid b → Appends b p (write os b p)
unfolding write
write-Appends os b p v = grind (
  arith,
  write_to_memory-Appends b p,
  write_to_disk-Appends os b p,
  spill-Appends os b p,
  append-nil (contents b),
)

abbrev pub IsFaultless : Disk → Type 0
IsFaultless os = (os.create_temp ≡ none) × ((p : List ℕ) → (os.write p).1 ≡ none)

-- `p` does not fit into the size limit; a limit of 0 is no limit.
abbrev pub Exceeds : Buffer → List ℕ → Type 0
Exceeds b p =
    (0 < b.max_bytes) × (b.max_bytes < b.mem_bytes_written + b.disk_bytes_written + length p)

spill_faultless : (os : Disk) (b : Buffer) (p : List ℕ) → IsFaultless os → (spill os b p).2 ≡ none
unfolding spill
spill_faultless os b p (c, w) =
    ground (arith, w (drop (length (take (b.max_mem_bytes - b.mem_bytes_written) p)) p))

-- On a faultless disk a write that fits is never refused.
pub write_fits :
    (os : Disk) (b : Buffer) (p : List ℕ)
    → IsFaultless os
    → b.reading ≡ false
    → ¬ Exceeds b p
    → (write os b p).2 ≡ none
unfolding write write_to_memory write_to_disk
write_fits os b p f r h = ground (arith, spill_faultless os b p f, f.1 p, h)

-- A write past the size limit fails whatever the disk does; it stores nothing and is remembered.
pub write-Exceeds :
    (os : Disk) (b : Buffer) (p : List ℕ)
    → b.reading ≡ false
    → Exceeds b p
    → write os b p ≡ (record b { overflowed = true }, 0, some maximum_size_exceeded)
unfolding write
write-Exceeds os b p r h = ground arith

-- Reading takes bytes from the front: none is lost, repeated or reordered. With at least one byte
-- of room, nothing is returned only where nothing is left.
pub read_front :
    (b : Buffer) (n : ℕ)
    → 0 < n
    → ((read b n).1 ++ contents (read b n).0 ≡ contents b)
      × ((read b n).1 ≡ [] → contents b ≡ [])
      × (length (read b n).1 ≤ n)
unfolding read set_reader
read_front b zero h = absurd (omega arith)
read_front b (suc n) h = ground (
  arith,
  take-append-drop (suc n) b.memory,
  take-append-drop (suc n) (contents_of b.disk),
  length-take (suc n) b.memory,
  length-take (suc n) (contents_of b.disk),
  append_assoc (take (suc n) b.memory) (drop (suc n) b.memory) (contents_of b.disk),
)

-- `Send` delivers exactly what is left, and leaves nothing.
pub send-contents : (b : Buffer) → ((send b).1 ≡ contents b) × (contents (send b).0 ≡ [])
unfolding send
send-contents b = ground (arith, append-nil b.memory)
