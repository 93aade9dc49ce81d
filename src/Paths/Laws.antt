-- ===== src/Paths/Laws.antt =====
-- Prefixes of paths: where they match, and what normalising does.
use mathlib.Core.List.{append_assoc}
use kamal_proxy.Base.{
  ℕ, ◌≡◌, refl, ap, ◌∙◌, ◌⊎◌, inl, inr, true, false, [], ◌∷◌, ◌++◌, arith, ◌==◌, length, Bool-cases,
}
use kamal_proxy.Paths.{
  Text, slash, root_path, has_prefix, ends_with_slash, ensure_trailing_slash, trim_left, trim_right,
  normalize_path_prefix,
}

-- `strings.HasPrefix` says that something follows the prefix.
has_prefix-append : (s p : Text) → has_prefix s p ≡ true → (r : Text) × (s ≡ p ++ r)
unfolding has_prefix
has_prefix-append s [] h = (s, refl)
has_prefix-append [] (p ∷ ps) h = cc
has_prefix-append (c ∷ cs) (p ∷ ps) h =
    let (r, e) = has_prefix-append cs ps (ground arith) in (r, ground arith)

-- A text has one prefix of each length.
has_prefix_unique :
    (s p q : Text) → has_prefix s p ≡ true → has_prefix s q ≡ true → length p ≡ length q → p ≡ q
unfolding has_prefix
has_prefix_unique s [] [] h k e = refl
has_prefix_unique s [] (q ∷ qs) h k e = absurd (omega arith)
has_prefix_unique s (p ∷ ps) [] h k e = absurd (omega arith)
has_prefix_unique [] (p ∷ ps) (q ∷ qs) h k e = cc
has_prefix_unique (c ∷ cs) (p ∷ ps) (q ∷ qs) h k e = ground (arith, has_prefix_unique cs ps qs)

-- A prefix as the proxy stores it: the root path, or a text that does not end in a slash.
abbrev pub IsNormal : Text → Type 0
IsNormal p = (p ≡ root_path) ⊎ (ends_with_slash p ≡ false)

ends_with_slash-append : (s : Text) → ends_with_slash (s ++ slash ∷ []) ≡ true
unfolding ends_with_slash
ends_with_slash-append [] = refl
ends_with_slash-append (c ∷ []) = refl
ends_with_slash-append (c ∷ d ∷ s) = ends_with_slash-append (d ∷ s)

trim_right-normal : (s : Text) → ends_with_slash (trim_right s) ≡ false
unfolding trim_right ends_with_slash
trim_right-normal [] = refl
trim_right-normal (c ∷ cs) = ground (arith, trim_right-normal cs)

slash-IsNormal : (t : Text) → ends_with_slash t ≡ false → IsNormal (slash ∷ t)
unfolding ends_with_slash
slash-IsNormal [] h = inl refl
slash-IsNormal (c ∷ cs) h = inr h

-- Whatever the operator writes, the stored prefix is the root path or has no slash at its end.
normalize_path_prefix-IsNormal : (p : Text) → IsNormal (normalize_path_prefix p)
unfolding normalize_path_prefix
normalize_path_prefix-IsNormal p = slash-IsNormal _ (trim_right-normal (trim_left p))

trim_left-normal : (c : ℕ) (s : Text) → (c == slash) ≡ false → trim_left (c ∷ s) ≡ c ∷ s
unfolding trim_left
trim_left-normal c s h = rw h

-- A prefix that does not end in a slash is not shortened.
trim_right_id : (s : Text) → ends_with_slash s ≡ false → trim_right s ≡ s
unfolding trim_right ends_with_slash
trim_right_id [] h = refl
trim_right_id (c ∷ []) h = ground arith
trim_right_id (c ∷ d ∷ s) h = ground (arith, trim_right_id (d ∷ s) h)

append_snoc :
    (s p r : Text) (x : ℕ)
    → s ++ x ∷ [] ≡ p ++ (x ∷ r)
    → (s ≡ p) ⊎ ((t : Text) × (s ≡ p ++ (x ∷ t)))
append_snoc [] [] r x e = inl refl
append_snoc [] (q ∷ []) r x e = absurd (omega (arith, ap length e))
append_snoc [] (q ∷ q' ∷ ps) r x e = absurd (omega (arith, ap length e))
append_snoc (c ∷ cs) [] r x e = inr (cs, ground arith)
append_snoc (c ∷ cs) (q ∷ ps) r x e = elim (append_snoc cs ps r x (ground arith)) [
  | inl d ↦ inl (ground arith)
  | inr (t, d) ↦ inr (t, ground arith)
]

ensure_trailing_slash-normal :
    (p : Text) → ends_with_slash p ≡ false → ensure_trailing_slash p ≡ p ++ slash ∷ []
unfolding ensure_trailing_slash
ensure_trailing_slash-normal p h = ground arith

-- The test of the routing matches whole segments of a path: the root prefix matches all, another
-- only itself and what goes on with a slash behind it.
pub prefix_segments :
    (path p : Text)
    → IsNormal p
    → has_prefix (ensure_trailing_slash path) (ensure_trailing_slash p) ≡ true
    → (p ≡ root_path) ⊎ (path ≡ p) ⊎ ((t : Text) × (path ≡ p ++ (slash ∷ t)))
unfolding ensure_trailing_slash
prefix_segments path p (inl root) h = inl root
prefix_segments path p (inr n) h =
    let (r, e) = has_prefix-append (ensure_trailing_slash path) (ensure_trailing_slash p) h in
    let e' : ensure_trailing_slash path ≡ p ++ (slash ∷ r) =
      e ∙ (rw (ensure_trailing_slash-normal p n) (append_assoc p (slash ∷ []) r)) in
    elim (Bool-cases (ends_with_slash path)) [
      | inl x ↦ inr (inr (r, ground arith))
      | inr x ↦ inr (append_snoc path p r slash (ground arith))
    ]

has_prefix_shorter : (s p r : Text) → has_prefix s (p ++ r) ≡ true → has_prefix s p ≡ true
unfolding has_prefix
has_prefix_shorter s [] r h = refl
has_prefix_shorter [] (p ∷ ps) r h = cc
has_prefix_shorter (c ∷ cs) (p ∷ ps) r h = ground (arith, has_prefix_shorter cs ps r)

-- Two prefixes of one length that match one path are the same.
pub prefix_unique :
    (path p q : Text)
    → length p ≡ length q
    → has_prefix (ensure_trailing_slash path) (ensure_trailing_slash p) ≡ true
    → has_prefix (ensure_trailing_slash path) (ensure_trailing_slash q) ≡ true
    → p ≡ q
unfolding ensure_trailing_slash
prefix_unique path p q e h k =
    let s = ensure_trailing_slash path in
    has_prefix_unique s p q (ground (arith, has_prefix_shorter s p (slash ∷ [])))
      (ground (arith, has_prefix_shorter s q (slash ∷ []))) e
