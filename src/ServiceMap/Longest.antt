-- ===== src/ServiceMap/Longest.antt =====
-- The comparator of the bindings puts longer prefixes first.
use kamal_proxy.Base.{◌≤◌, inl, inr, List, [], ◌∷◌, arith, length, All, dec_lt}
use kamal_proxy.Base.Int.{pos, -ℤ_parts}
use kamal_proxy.ServiceMap.{
  PathBinding, MayPrecede, IsWeakOrder, IsSortedBy, Sorting, compare_bindings,
}

-- Longer prefixes first.
abbrev pub IsDescending : List PathBinding → Type 0
IsDescending [] = Unit
IsDescending (b ∷ bs) =
    All (λ (c : PathBinding). length c.path_prefix ≤ length b.path_prefix) bs × IsDescending bs

module _ (b c : PathBinding) where
  not_longer : MayPrecede compare_bindings b c → length c.path_prefix ≤ length b.path_prefix
  unfolding compare_bindings
  not_longer h =
      ground (arith, -ℤ_parts (pos (length b.path_prefix)) (pos (length c.path_prefix)), h)

  may_precede : length c.path_prefix ≤ length b.path_prefix → MayPrecede compare_bindings b c
  unfolding compare_bindings
  may_precede h =
      ground (arith, -ℤ_parts (pos (length b.path_prefix)) (pos (length c.path_prefix)), h)

pub compare_bindings-IsWeakOrder : IsWeakOrder compare_bindings
compare_bindings-IsWeakOrder = record {
  total = λ b c. elim (dec_lt (length b.path_prefix) (length c.path_prefix)) [
    | yes l ↦ inr (may_precede c b (omega arith))
    | no l ↦ inl (may_precede b c (omega arith))
  ];
  trans = λ b c d h k.
      let m = not_longer b c h in let n = not_longer c d k in may_precede b d (omega arith);
}

all_not_longer :
    (b : PathBinding) (bs : List PathBinding)
    → All (MayPrecede compare_bindings b) bs
    → All (λ (c : PathBinding). length c.path_prefix ≤ length b.path_prefix) bs
all_not_longer b [] h = tt
all_not_longer b (c ∷ cs) (h, hs) = (not_longer b c h, all_not_longer b cs hs)

sorted-IsDescending : (bs : List PathBinding) → IsSortedBy compare_bindings bs → IsDescending bs
sorted-IsDescending [] h = tt
sorted-IsDescending (b ∷ bs) (h, hs) = (all_not_longer b bs h, sorted-IsDescending bs hs)

pub sort-IsDescending :
    (sorting : Sorting) (bs : List PathBinding) → IsDescending (sorting.sort compare_bindings bs)
sort-IsDescending sorting bs =
    sorted-IsDescending (sorting.sort compare_bindings bs)
      (sorting.sorted compare_bindings bs compare_bindings-IsWeakOrder)
