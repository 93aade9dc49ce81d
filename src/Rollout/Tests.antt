-- ===== src/Rollout/Tests.antt =====
-- The rollout at concrete inputs, with numbers rounded down, and up to zero, in place of float64.
use kamal_proxy.Base.{ℕ, ◌*◌, ◌/◌, ◌≡◌, refl, true, false, leb, some, [], arith}
use kamal_proxy.Base.Int.{ℤ, pos, negsuc, pos_part, ltb_ℤ}
use kamal_proxy.Rollout.{
  max_hash, Float, IsIeee, hash_for_value, new_rollout_controller, split_value,
  request_uses_rollout_group,
}
use kamal_proxy.Rollout.Split.{request_uses_rollout_group_mono}

instance abbrev pub rounded : Float ℕ
rounded = record { of_int = pos_part; mul = ◌*◌; div = ◌/◌; le = leb }

leb_trans : (x y z : ℕ) → leb x y ≡ true → leb y z ≡ true → leb x z ≡ true
leb_trans x y z h k = ground arith

rounded_of_int : (m n : ℤ) → ltb_ℤ n m ≡ false → leb (pos_part m) (pos_part n) ≡ true
rounded_of_int m n h = ground arith

leb_div : (m n : ℕ) → leb m n ≡ true → leb (m / 100) (n / 100) ≡ true
leb_div m n h = ground arith

leb_mul : (x y : ℕ) → leb x y ≡ true → leb (max_hash * x) (max_hash * y) ≡ true
leb_mul x y h = ground arith

rounded-IsIeee : IsIeee ℕ
rounded-IsIeee = record {
  le_trans = leb_trans;
  of_int_mono = λ m n i j h. rounded_of_int m n h;
  div_mono = λ m n i j h. leb_div (pos_part m) (pos_part n) h;
  mul_mono = λ m n i j h. leb_mul (pos_part m / 100) (pos_part n / 100) h;
  mul_one = refl;
}

-- The published test vector of FNV-1a for "a".
hash_of_a : hash_for_value "a" ≡ 0xe40c292c
unfolding hash_for_value
hash_of_a = refl

request_uses_rollout_group_mono_example :
    request_uses_rollout_group (new_rollout_controller {F = ℕ} (pos 100) []) (some "user") ≡ true
unfolding split_value
request_uses_rollout_group_mono_example =
    (request_uses_rollout_group_mono rounded-IsIeee (negsuc 4) (pos 100) [] (some "user")
        (refl, refl) (refl, refl) refl).1
      refl
