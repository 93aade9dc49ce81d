-- ===== src/Buffer.antt =====
-- internal/server/buffer.go: a byte buffer that spills to a temporary file, with a size limit.
-- Bytes are numbers; sizes are the lengths of slices in memory, so they are natural numbers.
-- The operating system's answers are an argument of each call (`Disk`).
pub mod Bounds
pub mod Content
pub mod Copy
pub mod Writes
mod Tests
use kamal_proxy.Base.{
  ℕ, ◌+◌, ◌-◌, ◌≤◌, ◌≡◌, Bool, true, false, ◌&&◌, List, [], ◌∷◌, ◌++◌, Option, none, some, ltb, leb,
  if◌then◌else◌, length, take, drop,
}

pub data Error : Type 0 where
  maximum_size_exceeded write_after_read : Error
  os_error : ℕ → Error

-- The answers of os.CreateTemp and File.Write during one call. A write that stops early returns
-- an error, as io.Writer requires.
pub record Disk : Type 0 where
  pub create_temp : Option Error
  pub write : List ℕ → ℕ × Option Error
  pub write_le : (p : List ℕ) → (write p).0 ≤ length p
  pub write_full : (p : List ℕ) → (write p).1 ≡ none → (write p).0 ≡ length p

-- `memory` and `disk` hold the bytes that are not read yet; `file_exists` says whether the
-- temporary file is in the file system.
-- The limits are not negative: the code would panic on a memory limit below zero.
pub record Buffer : Type 0 where
  pub max_bytes : ℕ
  pub max_mem_bytes : ℕ
  pub memory : List ℕ
  pub mem_bytes_written : ℕ
  pub disk : Option (List ℕ)
  pub disk_bytes_written : ℕ
  pub overflowed : Bool
  pub reading : Bool
  pub closed : Bool
  pub file_exists : Bool

unfoldable pub new_buffered_write_closer : ℕ → ℕ → Buffer
new_buffered_write_closer max_bytes max_mem_bytes = record {
  max_bytes = max_bytes;
  max_mem_bytes = max_mem_bytes;
  memory = [];
  mem_bytes_written = 0;
  disk = none;
  disk_bytes_written = 0;
  overflowed = false;
  reading = false;
  closed = false;
  file_exists = false;
}

-- A call returns the new buffer, the number of bytes taken, and an error.
abbrev pub Outcome : Type 0
Outcome = Buffer × ℕ × Option Error

-- bytes.Buffer.Write takes all of `p`.
unfoldable pub write_to_memory : Buffer → List ℕ → Outcome
write_to_memory b p = (
  record b { memory = b.memory ++ p; mem_bytes_written = b.mem_bytes_written + length p },
  length p,
  none,
)

abbrev contents_of : Option (List ℕ) → List ℕ
contents_of none = []
contents_of (some d) = d

pub write_to_disk : Disk → Buffer → List ℕ → Outcome
write_to_disk os b p =
    let (n, err) = os.write p in
    (
      record b {
        disk = some (contents_of b.disk ++ take n p);
        disk_bytes_written = b.disk_bytes_written + n;
      },
      n,
      err,
    )

pub create_spill : Disk → Buffer → Buffer × Option Error
create_spill os b = elim os.create_temp [
  | some e ↦ (b, some e)
  | none ↦ (record b { disk = some []; file_exists = true }, none)
]

-- The write that passes the memory limit: fill the memory, then go on in a new file.
pub spill : Disk → Buffer → List ℕ → Outcome
unfolding create_spill write_to_memory write_to_disk
spill os b p =
    let (b', err) = create_spill os b in
    elim err [
      | some e ↦ (b', 0, some e)
      | none ↦
          let (b₁, mem_written, _) =
            write_to_memory b' (take (b'.max_mem_bytes - b'.mem_bytes_written) p) in
          let (b₂, disk_written, err₂) = write_to_disk os b₁ (drop mem_written p) in
          (b₂, mem_written + disk_written, err₂)
    ]

abbrev is_some {ℓ} : {A : Type ℓ} → Option A → Bool
is_some none = false
is_some (some a) = true

unfoldable pub write : Disk → Buffer → List ℕ → Outcome
unfolding spill
write os b p =
    if b.reading
    then (b, 0, some write_after_read)
    else if ltb 0 b.max_bytes
        && ltb b.max_bytes (b.mem_bytes_written + b.disk_bytes_written + length p)
    then (record b { overflowed = true }, 0, some maximum_size_exceeded)
    else if is_some b.disk
    then write_to_disk os b p
    else if leb (b.mem_bytes_written + length p) b.max_mem_bytes
    then write_to_memory b p
    else spill os b p

-- The reader is the memory, then the file from its start.
pub set_reader : Buffer → Buffer
set_reader b = record b { reading = true }

-- io.MultiReader reads from its first reader that has bytes left, and says io.EOF after the last.
pub read : Buffer → ℕ → Buffer × List ℕ
unfolding set_reader
read b n = elim b.memory [
  | x ∷ xs ↦ (record b { memory = drop n (x ∷ xs); reading = true }, take n (x ∷ xs))
  | [] ↦ elim b.disk [
    | none ↦ (set_reader b, [])
    | some d ↦ (record b { disk = some (drop n d); reading = true }, take n d)
  ]
]

-- io.Copy writes what the reader has left to the destination, which takes it all.
unfoldable pub send : Buffer → Buffer × List ℕ
send b = elim b.disk [
  | none ↦ (record b { memory = []; reading = true }, b.memory)
  | some d ↦ (record b { memory = []; disk = some []; reading = true }, b.memory ++ d)
]

pub discard_spill : Buffer → Buffer
discard_spill b = if is_some b.disk then record b { file_exists = false } else b

-- The body of sync.Once runs at the first call.
pub close : Buffer → Buffer
unfolding discard_spill
close b = if b.closed then b else record (discard_spill b) { closed = true }

-- What a reader of the buffer has still to receive.
abbrev pub contents : Buffer → List ℕ
contents b = b.memory ++ contents_of b.disk

-- io.Copy writes each chunk that the source returns, until the source ends or a write fails.
pub io_copy : Buffer → List (Disk × List ℕ) → Option Error → Buffer × Option Error
io_copy b [] final = (b, final)
io_copy b ((os, p) ∷ rest) final =
    let (b', n, err) = write os b p in
    let more = io_copy b' rest final in elim err [ some e ↦ (b', some e) | none ↦ more ]

-- The buffer is closed where the copy fails, and the caller has none; it stands here with the
-- error, so that what is left of it can be said.
pub new_buffered_read_closer : List (Disk × List ℕ) → Option Error → ℕ → ℕ → Buffer × Option Error
unfolding io_copy close
new_buffered_read_closer chunks final max_bytes max_mem_bytes =
    let (b, err) = io_copy (new_buffered_write_closer max_bytes max_mem_bytes) chunks final in
    elim err [ some e ↦ (close b, some e) | none ↦ (b, none) ]
