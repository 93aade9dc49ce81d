-- ===== src/Base/Maps.antt =====
-- Loops over a Go map that change its values, or list those of its entries that pass a test.
use kamal_proxy.Base.{
  ◌≡◌, refl, Bool, false, List, [], ◌∷◌, Option, none, some, arith, if◌then◌else◌,
}
use kamal_proxy.Base.Assoc.{Assoc, Eq, get, remove, IsMap, has, get-remove}

module _ {κ} {V : Type κ} where
  abbrev pub map_option : (V → V) → Option V → Option V
  map_option f none = none
  map_option f (some v) = some (f v)

  abbrev pub passes : (V → Bool) → Option V → Bool
  passes test none = false
  passes test (some v) = test v

module _ {ℓ κ} {K : Type ℓ} {V : Type κ} ⦃e : Eq K⦄ where
  unfoldable pub map_values : (V → V) → Assoc K V → Assoc K V
  map_values f [] = []
  map_values f ((k, v) ∷ m) = (k, f v) ∷ map_values f m

  unfoldable pub keys_such : (V → Bool) → Assoc K V → List K
  keys_such test [] = []
  keys_such test ((k, v) ∷ m) = let rest = keys_such test m in if test v then k ∷ rest else rest

  unfoldable pub values_such : (V → Bool) → Assoc K V → List V
  values_such test [] = []
  values_such test ((k, v) ∷ m) = let rest = values_such test m in if test v then v ∷ rest else rest

  unfoldable pub remove_all : List K → Assoc K V → Assoc K V
  remove_all [] m = m
  remove_all (k ∷ ks) m = remove_all ks (remove k m)

  pub get-map_values :
      (f : V → V) (k : K) (m : Assoc K V) → get k (map_values f m) ≡ map_option f (get k m)
  unfolding get map_values
  get-map_values f k [] = refl
  get-map_values f k ((j, v) ∷ m) = ground (arith, get-map_values f k m)

  pub map_values-IsMap : (f : V → V) (m : Assoc K V) → IsMap m → IsMap (map_values f m)
  unfolding map_values
  map_values-IsMap f [] h = tt
  map_values-IsMap f ((k, v) ∷ m) h = ground (arith, get-map_values f k m, map_values-IsMap f m h.1)

  pub get-remove_all :
      (ks : List K) (k : K) (m : Assoc K V)
      → get k (remove_all ks m) ≡ (if has k ks then none else get k m)
  unfolding remove_all has
  get-remove_all [] k m = refl
  get-remove_all (j ∷ ks) k m = ground (arith, get-remove_all ks k (remove j m), get-remove j k m)

  pub has-keys_such :
      (test : V → Bool) (k : K) (m : Assoc K V)
      → IsMap m
      → has k (keys_such test m) ≡ passes test (get k m)
  unfolding keys_such has get
  has-keys_such test k [] h = refl
  has-keys_such test k ((j, v) ∷ m) h = ground (arith, has-keys_such test k m h.1, e.beq_iff j k)
