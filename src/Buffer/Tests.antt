-- ===== src/Buffer/Tests.antt =====
-- Buffers of at most 6 bytes, 2 of them in memory.
use kamal_proxy.Base.{ℕ, ◌≡◌, refl, List, [], ◌∷◌, none, some, arith, length}
use kamal_proxy.Buffer.{Buffer, os_error, Disk, write, new_buffered_write_closer}
use kamal_proxy.Buffer.Bounds.{IsValid, write-IsValid}
use kamal_proxy.Buffer.Content.{Appends, write-Appends}
use kamal_proxy.Buffer.Copy.{new-IsValid}

abbrev good_disk : Disk
good_disk = record {
  create_temp = none;
  write = λ p. (length p, none);
  write_le = λ p. omega arith;
  write_full = λ p _. refl;
}

no_room : (p : List ℕ) → some (os_error 28) ≡ none → 0 ≡ length p
no_room p h = cc

abbrev full_disk : Disk
full_disk = record {
  create_temp = some (os_error 28);
  write = λ p. (0, some (os_error 28));
  write_le = λ p. omega arith;
  write_full = no_room;
}

abbrev empty_buffer : Buffer
empty_buffer = new_buffered_write_closer 6 2

abbrev written : Buffer
written = (write good_disk empty_buffer (1 ∷ 2 ∷ 3 ∷ [])).0

spilled : (written.memory ≡ 1 ∷ 2 ∷ []) × (written.disk ≡ some (3 ∷ []))
unfolding write new_buffered_write_closer
spilled = (refl, refl)

written-IsValid : IsValid written
written-IsValid = write-IsValid good_disk empty_buffer (1 ∷ 2 ∷ 3 ∷ []) (new-IsValid 6 2)

write-IsValid_example : IsValid (write full_disk written (4 ∷ [])).0
write-IsValid_example = write-IsValid full_disk written (4 ∷ []) written-IsValid

write-Appends_example : Appends written (4 ∷ []) (write full_disk written (4 ∷ []))
write-Appends_example = write-Appends full_disk written (4 ∷ []) written-IsValid
