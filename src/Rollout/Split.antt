-- ===== src/Rollout/Split.antt =====
-- Who is in the rollout.
use Prim.Native.Nat.{bit_xor}
use text.Mathlib.Text.{◌==◌ as str_eq}
use kamal_proxy.Base.{
  ℕ, ◌*◌, ◌^◌, ◌%◌, ◌≤◌, ◌≡◌, refl, String, Bool, true, false, List, [], ◌∷◌, Option, none, arith,
  if◌then◌else◌,
}
use kamal_proxy.Base.Int.{ℤ, pos, ltb_ℤ}
use kamal_proxy.Base.Assoc.{has, string_eq}
use kamal_proxy.Rollout.{
  max_hash, IsInt64, share, Float, IsIeee, fnv1a_from, hash_for_value, codes,
  new_rollout_controller, value_in_rollout_percentage, split_value, request_uses_rollout_group,
}

fnv1a_from-le : (h : ℕ) (bs : List ℕ) → h ≤ max_hash → fnv1a_from h bs ≤ max_hash
unfolding fnv1a_from
fnv1a_from-le h [] l = l
fnv1a_from-le h (b ∷ bs) l = fnv1a_from-le (bit_xor h b * 16777619 % 2 ^ 32) bs (omega arith)

pub hash_for_value-le : (value : String) → hash_for_value value ≤ max_hash
unfolding hash_for_value
hash_for_value-le value = fnv1a_from-le 2166136261 (codes value) (omega arith)

-- The rule of the code over the three tests.
abbrev rule : Bool → Bool → Bool → Bool
rule empty allowed in_share = if empty then false else if allowed then true else in_share

rule_mono :
    (empty allowed x y : Bool)
    → (x ≡ true → y ≡ true)
    → rule empty allowed x ≡ true
    → rule empty allowed y ≡ true
rule_mono empty allowed x y h r = ground arith

rule_full : (empty allowed x : Bool) → empty ≡ false → x ≡ true → rule empty allowed x ≡ true
rule_full empty allowed x e h = ground arith

hash-IsInt64 : (h : ℕ) → h ≤ max_hash → IsInt64 (pos h)
hash-IsInt64 h l = (ground arith, ground arith)

hash-ordered : (h : ℕ) → h ≤ max_hash → ltb_ℤ (pos max_hash) (pos h) ≡ false
hash-ordered h l = ground arith

module _ {ℓ} {F : Type ℓ} ⦃f : Float F⦄ (laws : IsIeee F) where
  in_share_mono :
      (p q : ℤ) (allowlist : List String) (value : String)
      → IsInt64 p
      → IsInt64 q
      → ltb_ℤ q p ≡ false
      → value_in_rollout_percentage (new_rollout_controller {F = F} p allowlist) value ≡ true
      → value_in_rollout_percentage (new_rollout_controller {F = F} q allowlist) value ≡ true
  unfolding value_in_rollout_percentage new_rollout_controller
  in_share_mono p q allowlist value i j l h =
      laws.le_trans (f.of_int (pos (hash_for_value value)))
        (f.mul (f.of_int (pos max_hash)) (share {F = F} p))
        (f.mul (f.of_int (pos max_hash)) (share {F = F} q)) h
        (laws.mul_mono p q i j (laws.div_mono p q i j (laws.of_int_mono p q i j l)))

  in_share_full :
      (allowlist : List String) (value : String)
      → value_in_rollout_percentage (new_rollout_controller {F = F} (pos 100) allowlist) value
        ≡ true
  unfolding value_in_rollout_percentage new_rollout_controller
  in_share_full allowlist value =
      let le = hash_for_value-le value in
      rw laws.mul_one (
        laws.of_int_mono (pos (hash_for_value value)) (pos max_hash)
          (hash-IsInt64 (hash_for_value value) le) (refl, refl)
          (hash-ordered (hash_for_value value) le))

  -- Raising the percentage, an integer of 64 bits, keeps every request that is in the rollout there, and at 100 each
  -- request with a cookie that is not empty is in it; one without a cookie never is.
  pub request_uses_rollout_group_mono :
      (p q : ℤ) (allowlist : List String) (cookie : Option String)
      → IsInt64 p
      → IsInt64 q
      → ltb_ℤ q p ≡ false
      → let uses = λ (n : ℤ).
        request_uses_rollout_group (new_rollout_controller {F = F} n allowlist) cookie in
        (uses p ≡ true → uses q ≡ true)
        × (str_eq (split_value cookie) "" ≡ false → uses (pos 100) ≡ true)
        × (cookie ≡ none → uses p ≡ false)
  unfolding request_uses_rollout_group split_value new_rollout_controller
  request_uses_rollout_group_mono p q allowlist cookie i j l =
      let value = split_value cookie in
      let in_share =
        λ (n : ℤ). value_in_rollout_percentage (new_rollout_controller {F = F} n allowlist) value in
      (
        rule_mono (str_eq value "") (has value allowlist) (in_share p) (in_share q)
            (in_share_mono p q allowlist value i j l),
        λ e.
            rule_full (str_eq value "") (has value allowlist) (in_share (pos 100)) e
              (in_share_full allowlist value),
        λ e. rw e refl,
      )
