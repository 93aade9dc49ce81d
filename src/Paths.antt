-- ===== src/Paths.antt =====
-- The path and host texts of internal/server/service_map.go, as lists of bytes, with what it uses
-- of Go's `strings`.
pub mod Laws
mod Tests
use kamal_proxy.Base.{ℕ, Bool, true, false, List, [], ◌∷◌, ◌++◌, map, ◌==◌, if◌then◌else◌}

abbrev pub Text : Type 0
Text = List ℕ

abbrev pub slash : ℕ
slash = b'/'

abbrev pub root_path : Text
root_path = slash ∷ []

-- strings.HasPrefix
unfoldable pub has_prefix : Text → Text → Bool
has_prefix s [] = true
has_prefix [] (p ∷ ps) = false
has_prefix (c ∷ cs) (p ∷ ps) = if c == p then has_prefix cs ps else false

-- strings.HasSuffix(path, "/")
unfoldable pub ends_with_slash : Text → Bool
ends_with_slash [] = false
ends_with_slash (c ∷ []) = c == slash
ends_with_slash (c ∷ cs) = ends_with_slash cs

unfoldable pub ensure_trailing_slash : Text → Text
unfolding ends_with_slash
ensure_trailing_slash path = if ends_with_slash path then path else path ++ slash ∷ []

-- strings.TrimLeft and strings.TrimRight with the cutset "/"
unfoldable pub trim_left : Text → Text
trim_left [] = []
trim_left (c ∷ cs) = if c == slash then trim_left cs else c ∷ cs

unfoldable pub trim_right : Text → Text
trim_right [] = []
trim_right (c ∷ cs) = elim (trim_right cs) [
  | [] ↦ if c == slash then [] else c ∷ []
  | d ∷ ds ↦ c ∷ d ∷ ds
]

unfoldable pub normalize_path_prefix : Text → Text
unfolding trim_left trim_right
normalize_path_prefix p = slash ∷ trim_right (trim_left p)

unfoldable pub normalize_path_prefixes : List Text → List Text
unfolding normalize_path_prefix
normalize_path_prefixes [] = root_path ∷ []
normalize_path_prefixes (p ∷ ps) = map normalize_path_prefix (p ∷ ps)

unfoldable pub normalize_hosts : List Text → List Text
normalize_hosts [] = [] ∷ []
normalize_hosts (h ∷ hs) = h ∷ hs
