-- ===== src/Buffer/Bounds.antt =====
-- What holds of a buffer between two calls: the sizes, the limits and the temporary file.
use kamal_proxy.Base.{
  ℕ, ◌+◌, ◌-◌, ◌≤◌, ◌<◌, ◌≡◌, true, false, List, arith, length, take, drop, length-append,
  length-take, length-drop,
}
use kamal_proxy.Buffer.{
  Buffer, Disk, contents_of, is_some, write_to_memory, write_to_disk, spill, write,
}

pub record IsValid (b : Buffer) : Type 0 where
  pub mem_bound : b.mem_bytes_written ≤ b.max_mem_bytes
  pub total_bound : 0 < b.max_bytes → b.mem_bytes_written + b.disk_bytes_written ≤ b.max_bytes
  pub unspilled : is_some b.disk ≡ false → b.disk_bytes_written ≡ 0
  pub spilled : is_some b.disk ≡ true → b.mem_bytes_written ≡ b.max_mem_bytes
  pub file_spilled : b.file_exists ≡ true → is_some b.disk ≡ true
  pub mem_counted : b.reading ≡ false → length b.memory ≡ b.mem_bytes_written
  pub disk_counted : b.reading ≡ false → length (contents_of b.disk) ≡ b.disk_bytes_written

write_to_memory-IsValid :
    (b : Buffer) (p : List ℕ)
    → IsValid b
    → is_some b.disk ≡ false
    → b.mem_bytes_written + length p ≤ b.max_mem_bytes
    → (0 < b.max_bytes → b.mem_bytes_written + b.disk_bytes_written + length p ≤ b.max_bytes)
    → IsValid (write_to_memory b p).0
unfolding write_to_memory
write_to_memory-IsValid b p v h₀ h k = ground (arith, length-append b.memory p)

write_to_disk-IsValid :
    (os : Disk) (b : Buffer) (p : List ℕ)
    → IsValid b
    → is_some b.disk ≡ true
    → (0 < b.max_bytes → b.mem_bytes_written + b.disk_bytes_written + length p ≤ b.max_bytes)
    → IsValid (write_to_disk os b p).0
unfolding write_to_disk
write_to_disk-IsValid os b p v h k = ground (
  arith,
  os.write_le p,
  length-append (contents_of b.disk) (take (os.write p).0 p),
  length-take (os.write p).0 p,
)

spill-IsValid :
    (os : Disk) (b : Buffer) (p : List ℕ)
    → IsValid b
    → is_some b.disk ≡ false
    → b.max_mem_bytes < b.mem_bytes_written + length p
    → (0 < b.max_bytes → b.mem_bytes_written + b.disk_bytes_written + length p ≤ b.max_bytes)
    → IsValid (spill os b p).0
unfolding spill
spill-IsValid os b p v h₀ h k =
    let q = take (b.max_mem_bytes - b.mem_bytes_written) p in
    ground (
      arith,
      length-append b.memory q,
      length-take (b.max_mem_bytes - b.mem_bytes_written) p,
      length-drop (length q) p,
      os.write_le (drop (length q) p),
      length-take (os.write (drop (length q) p)).0 (drop (length q) p),
    )

-- Every write, whatever its outcome and the operating system's answers, keeps the invariant.
pub write-IsValid : (os : Disk) (b : Buffer) (p : List ℕ) → IsValid b → IsValid (write os b p).0
unfolding write
write-IsValid os b p v =
    grind
      (arith, write_to_memory-IsValid b p v, write_to_disk-IsValid os b p v, spill-IsValid os b p v)
