-- ===== src/Rollout.antt =====
-- internal/server/rollout_controller.go: which requests a rollout takes, by an allowlist and by a
-- share of the values of a cookie. float64 is the parameter `Float`: a type with the operations
-- that the code uses and those of the laws of IEEE 754 that are needed.
pub mod Split
pub mod Tests
use Prim.Native.Nat.{bit_xor}
use Prim.Native.String
use Prim.Native.Char.{code}
use text.Mathlib.Text.{◌==◌ as str_eq}
use kamal_proxy.Base.{
  ℕ, ◌*◌, ◌-◌, ◌^◌, ◌%◌, ◌≤◌, ◌≡◌, String, Bool, true, false, List, [], ◌∷◌, Option, none, some,
  if◌then◌else◌,
}
use kamal_proxy.Base.Int.{ℤ, pos, negsuc, ltb_ℤ}
use kamal_proxy.Base.Assoc.{has, string_eq}

-- The largest value of a uint32.
abbrev pub max_hash : ℕ
max_hash = 4294967295

-- Conversion of an integer of 64 bits, and the two operations.
pub record Float {ℓ} (F : Type ℓ) : Type ℓ where
  pub of_int : ℤ → F
  pub mul : F → F → F
  pub div : F → F → F
  pub le : F → F → Bool

infix 4 ◌≼◌
abbrev pub ◌≼◌ {ℓ} : {F : Type ℓ} ⦃f : Float F⦄ → F → F → Type 0
◌≼◌ ⦃f⦄ x y = f.le x y ≡ true

abbrev pub IsInt64 : ℤ → Type 0
IsInt64 m =
    (ltb_ℤ m (pos 9223372036854775808) ≡ true) × (ltb_ℤ m (negsuc 9223372036854775807) ≡ false)

-- A share of `m` in the hundred
abbrev pub share {ℓ} : {F : Type ℓ} ⦃f : Float F⦄ → ℤ → F
share ⦃f⦄ m = f.div (f.of_int m) (f.of_int (pos 100))

-- Rounding is monotone, on integers of 64 bits and their shares, which are finite; division of a number
-- by itself and multiplication by 1 are exact.
pub record IsIeee {ℓ} (F : Type ℓ) ⦃f : Float F⦄ : Type ℓ where
  pub le_trans : (x y z : F) → x ≼ y → y ≼ z → x ≼ z
  pub of_int_mono : (m n : ℤ) → IsInt64 m → IsInt64 n → ltb_ℤ n m ≡ false → f.of_int m ≼ f.of_int n
  pub div_mono :
      (m n : ℤ)
      → IsInt64 m
      → IsInt64 n
      → f.of_int m ≼ f.of_int n
      → share {F = F} m ≼ share {F = F} n
  pub mul_mono :
      (m n : ℤ)
      → IsInt64 m
      → IsInt64 n
      → share {F = F} m ≼ share {F = F} n
      → f.mul (f.of_int (pos max_hash)) (share {F = F} m)
        ≼ f.mul (f.of_int (pos max_hash)) (share {F = F} n)
  pub mul_one : f.mul (f.of_int (pos max_hash)) (share {F = F} (pos 100)) ≡ f.of_int (pos max_hash)

-- The bytes of a text of ASCII characters, such as a cookie's value.
abbrev pub codes : String → List ℕ
codes String.[] = []
codes (String.◌∷◌ c s) = code c ∷ codes s

-- The 32-bit FNV-1a hash: its loop from a start value.
pub fnv1a_from : ℕ → List ℕ → ℕ
fnv1a_from h [] = h
fnv1a_from h (b ∷ bs) = fnv1a_from (bit_xor h b * 16777619 % 2 ^ 32) bs

pub hash_for_value : String → ℕ
unfolding fnv1a_from
hash_for_value value = fnv1a_from 2166136261 (codes value)

pub record RolloutController {ℓ} (F : Type ℓ) : Type ℓ where
  pub percentage : ℤ
  pub percentage_split_point : F
  pub allowlist : List String

-- The cookie kamal-rollout, `none` where the request has none.
pub split_value : Option String → String
split_value none = ""
split_value (some value) = value

module _ {ℓ} {F : Type ℓ} ⦃f : Float F⦄ where
  pub new_rollout_controller : ℤ → List String → RolloutController F
  new_rollout_controller percentage allowlist = record {
    percentage = percentage;
    percentage_split_point = f.mul (f.of_int (pos max_hash)) (share {F = F} percentage);
    allowlist = allowlist;
  }

  pub value_in_allowlist : RolloutController F → String → Bool
  value_in_allowlist rc value = has value rc.allowlist

  pub value_in_rollout_percentage : RolloutController F → String → Bool
  unfolding hash_for_value
  value_in_rollout_percentage rc value =
      f.le (f.of_int (pos (hash_for_value value))) rc.percentage_split_point

  pub request_uses_rollout_group : RolloutController F → Option String → Bool
  unfolding split_value value_in_allowlist value_in_rollout_percentage
  request_uses_rollout_group rc cookie =
      let value = split_value cookie in
      if str_eq value ""
      then false
      else if value_in_allowlist rc value
      then true
      else value_in_rollout_percentage rc value
