-- ===== src/Base/Assoc.antt =====
-- A Go map as an association list over keys with a Boolean equality. The entries stand in some
-- order; Go's iteration order is unspecified, and a theorem about every list covers each of them.
use text.Mathlib.Text.{◌==◌ as str_eq}
use text.Mathlib.TextEquality.{eq_iff}
use kamal_proxy.Base.{
  ℕ, String, ◌≡◌, refl, ◌↔◌, Bool, true, false, List, [], ◌∷◌, Option, none, some, arith, ◌==◌,
  ==_iff, if◌then◌else◌,
}

pub record Eq {ℓ} (A : Type ℓ) : Type ℓ where
  pub beq : A → A → Bool
  pub beq_iff : (a b : A) → (beq a b ≡ true) ↔ (a ≡ b)

instance abbrev pub nat_eq : Eq ℕ
nat_eq = record { beq = ◌==◌; beq_iff = ==_iff }

instance abbrev pub string_eq : Eq String
string_eq = record { beq = str_eq; beq_iff = eq_iff }

unfoldable pub same_bytes : List ℕ → List ℕ → Bool
same_bytes [] [] = true
same_bytes (a ∷ s) (b ∷ t) = if a == b then same_bytes s t else false
same_bytes _ _ = false

pub same_bytes_iff : (s t : List ℕ) → (same_bytes s t ≡ true) ↔ (s ≡ t)
unfolding same_bytes
same_bytes_iff [] [] = (λ _. refl, λ _. refl)
same_bytes_iff [] (b ∷ t) = (λ e. cc, λ e. cc)
same_bytes_iff (a ∷ s) [] = (λ e. cc, λ e. cc)
same_bytes_iff (a ∷ s) (b ∷ t) =
    (λ e. ground (arith, same_bytes_iff s t), λ e. ground (arith, same_bytes_iff s t))

instance abbrev pub bytes_eq : Eq (List ℕ)
bytes_eq = record { beq = same_bytes; beq_iff = same_bytes_iff }

abbrev pub Assoc {ℓ κ} : Type ℓ → Type κ → Type (ℓ ⊔ κ)
Assoc K V = List (K × V)

module _ {ℓ κ} {K : Type ℓ} {V : Type κ} ⦃e : Eq K⦄ where
  -- m[k]
  unfoldable pub get : K → Assoc K V → Option V
  get k [] = none
  get k ((j, v) ∷ m) = if e.beq j k then some v else get k m

  -- delete(m, k)
  unfoldable pub remove : K → Assoc K V → Assoc K V
  remove k [] = []
  remove k ((j, v) ∷ m) = if e.beq j k then remove k m else (j, v) ∷ remove k m

  -- m[k] = v
  unfoldable pub put : K → V → Assoc K V → Assoc K V
  put k v [] = (k, v) ∷ []
  put k v ((j, w) ∷ m) = if e.beq j k then (k, v) ∷ m else (j, w) ∷ put k v m

  pub get-put :
      (k j : K) (v : V) (m : Assoc K V)
      → get j (put k v m) ≡ (if e.beq k j then some v else get j m)
  unfolding get put
  get-put k j v [] = refl
  get-put k j v ((i, w) ∷ m) =
      ground (arith, e.beq_iff k j, e.beq_iff i k, e.beq_iff i j, get-put k j v m)

  pub get-remove :
      (k j : K) (m : Assoc K V) → get j (remove k m) ≡ (if e.beq k j then none else get j m)
  unfolding get remove
  get-remove k j [] = ground arith
  get-remove k j ((i, w) ∷ m) =
      ground (arith, e.beq_iff k j, e.beq_iff i k, e.beq_iff i j, get-remove k j m)

  pub get-put_same : (k : K) (v : V) (m : Assoc K V) → get k (put k v m) ≡ some v
  get-put_same k v m = ground (arith, get-put k k v m, e.beq_iff k k)

  pub get-put_other :
      (k j : K) (v : V) (m : Assoc K V) → e.beq k j ≡ false → get j (put k v m) ≡ get j m
  get-put_other k j v m h = ground (arith, get-put k j v m)

pub ruleset assoc_laws = (get-put, get-remove)

module _ {ℓ κ} {K : Type ℓ} {V : Type κ} ⦃e : Eq K⦄ where
  -- Each key stands once.
  abbrev pub IsMap : Assoc K V → Type κ
  IsMap [] = Unit
  IsMap ((k, v) ∷ m) = (get k m ≡ none) × IsMap m

  pub put-IsMap : (k : K) (v : V) (m : Assoc K V) → IsMap m → IsMap (put k v m)
  unfolding put get
  put-IsMap k v [] h = (refl, tt)
  put-IsMap k v ((j, w) ∷ m) h =
      ground (arith, e.beq_iff j k, e.beq_iff k j, get-put k j v m, put-IsMap k v m h.1)

  pub remove-IsMap : (k : K) (m : Assoc K V) → IsMap m → IsMap (remove k m)
  unfolding remove
  remove-IsMap k [] h = tt
  remove-IsMap k ((j, w) ∷ m) h =
      ground (arith, get-remove k j m, e.beq_iff k j, remove-IsMap k m h.1)

module _ {ℓ} {K : Type ℓ} ⦃e : Eq K⦄ where
  unfoldable pub has : K → List K → Bool
  has k [] = false
  has k (j ∷ js) = if e.beq j k then true else has k js

  -- No key stands twice.
  abbrev pub AllDistinct : List K → Type 0
  AllDistinct [] = Unit
  AllDistinct (k ∷ ks) = (has k ks ≡ false) × AllDistinct ks
