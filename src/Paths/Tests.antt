-- ===== src/Paths/Tests.antt =====
-- Prefixes as operators write them.
use kamal_proxy.Base.{◌≡◌, refl, [], ◌∷◌, false}
use kamal_proxy.Paths.{slash, normalize_path_prefix, has_prefix, ensure_trailing_slash}

trimmed :
    normalize_path_prefix (slash ∷ b'a' ∷ slash ∷ b'b' ∷ slash ∷ slash ∷ [])
    ≡ slash ∷ b'a' ∷ slash ∷ b'b' ∷ []
unfolding normalize_path_prefix
trimmed = refl

not_a_segment :
    has_prefix
      (ensure_trailing_slash (slash ∷ b'a' ∷ b'b' ∷ []))
      (ensure_trailing_slash (slash ∷ b'a' ∷ []))
    ≡ false
unfolding has_prefix ensure_trailing_slash
not_a_segment = refl
