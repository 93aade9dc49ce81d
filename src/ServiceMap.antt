-- ===== src/ServiceMap.antt =====
-- internal/server/service_map.go: which service answers a request, by host and path prefix.
-- Hosts and paths are lists of bytes, service names are strings. A binding names its service: the
-- map of services holds one service for a name, which a binding's pointer leads to.
pub mod Longest
pub mod Bindings
pub mod Routing
pub mod Order
pub mod Availability
pub mod Coherence
pub mod Keys
pub mod Alike
pub mod Tests
use mathlib.Core.Option
use kamal_proxy.Paths.{Text, slash, root_path, has_prefix, ensure_trailing_slash, ends_with_slash}
use text.Mathlib.Text.{◌==◌ as str_eq}
use kamal_proxy.Base.{
  ℕ, zero, suc, ◌+◌, ◌-◌, String, Bool, true, false, ◌&&◌, not, List, [], ◌∷◌, ◌++◌, Option, none,
  some, map, ◌≡◌, ◌≤◌, ◌⊎◌, ◌↔◌, ltb, ◌==◌, All, Elem, length, take, drop, if◌then◌else◌,
}
use kamal_proxy.Base.Int.{ℤ, pos, ltb_ℤ, ◌-ℤ◌}
use kamal_proxy.Base.Assoc.{Assoc, get, put, remove, string_eq, nat_eq, bytes_eq, same_bytes, has}

-- The options of internal/server/service.go; the routing reads the first four.
pub record ServiceOptions : Type 0 where
  pub hosts : List Text
  pub path_prefixes : List Text
  pub tls_enabled : Bool
  pub tls_redirect : Bool
  pub tls_certificate_path : String
  pub tls_private_key_path : String
  pub acme_directory : String
  pub acme_cache_path : String
  pub error_page_path : String
  pub strip_prefix : Bool
  pub writer_affinity_timeout : ℕ
  pub read_targets_accept_websockets : Bool

pub record Service : Type 0 where
  pub name : String
  pub options : ServiceOptions

pub record PathBinding : Type 0 where
  pub path_prefix : Text
  pub service : String

pub record ServiceMap : Type 0 where
  pub services : Assoc String Service
  pub request_service_map : Assoc Text (List PathBinding)

-- What a comparator says of two bindings of which the first may stand before the second.
abbrev pub MayPrecede : (PathBinding → PathBinding → ℤ) → PathBinding → PathBinding → Type 0
MayPrecede cmp b c = ltb_ℤ (cmp c b) (pos 0) ≡ false

-- `cmp` is less than 0 for a strict weak order, as slices.SortFunc asks.
pub record IsWeakOrder (cmp : PathBinding → PathBinding → ℤ) : Type 0 where
  pub total : (b c : PathBinding) → MayPrecede cmp b c ⊎ MayPrecede cmp c b
  pub trans : (b c d : PathBinding) → MayPrecede cmp b c → MayPrecede cmp c d → MayPrecede cmp b d

abbrev pub IsSortedBy : (PathBinding → PathBinding → ℤ) → List PathBinding → Type 0
IsSortedBy cmp [] = Unit
IsSortedBy cmp (b ∷ bs) = All (MayPrecede cmp b) bs × IsSortedBy cmp bs

-- slices.SortFunc: the same elements, in the order of the comparator. It is not stable, and Go's maps
-- are iterated in any order.
pub record Sorting : Type 0 where
  pub sort : (PathBinding → PathBinding → ℤ) → List PathBinding → List PathBinding
  pub sorted :
      (cmp : PathBinding → PathBinding → ℤ) (bs : List PathBinding)
      → IsWeakOrder cmp
      → IsSortedBy cmp (sort cmp bs)
  pub keeps :
      (cmp : PathBinding → PathBinding → ℤ) (b : PathBinding) (bs : List PathBinding)
      → Elem b (sort cmp bs) ↔ Elem b bs

-- The comparator of updateRequestServiceMap
unfoldable pub compare_bindings : PathBinding → PathBinding → ℤ
compare_bindings a b = pos (length b.path_prefix) -ℤ pos (length a.path_prefix)

pub matches : Text → PathBinding → Bool
unfolding has_prefix ensure_trailing_slash
matches path b = has_prefix (ensure_trailing_slash path) (ensure_trailing_slash b.path_prefix)

-- The first binding of the list that matches.
pub first_match : Text → List PathBinding → Option PathBinding
first_match path [] = none
first_match path (b ∷ bs) = if matches path b then some b else first_match path bs

-- `host[sep:]` for the first dot, where that is not the first byte.
pub from_dot : Text → Option Text
from_dot [] = none
from_dot (c ∷ cs) = if c == b'.' then some (c ∷ cs) else from_dot cs

pub wildcard : Text → Option Text
unfolding from_dot
wildcard [] = none
wildcard (c ∷ cs) = if c == b'.' then none else Option.map (λ d. b'*' ∷ d) (from_dot cs)

abbrev pub or_host : Option Text → Text → Text
or_host none host = host
or_host (some h) host = h

abbrev pub or_empty : Option (List PathBinding) → List PathBinding
or_empty none = []
or_empty (some bs) = bs

abbrev pub or_else {ℓ} : {A : Type ℓ} → Option A → Option A → Option A
or_else none b = b
or_else (some a) b = some a

pub lookup_wildcard : Option Text → Assoc Text (List PathBinding) → Option (List PathBinding)
lookup_wildcard none m = none
lookup_wildcard (some w) m = get w m

pub bindings_for_host : Text → ServiceMap → Option (List PathBinding)
unfolding wildcard lookup_wildcard
bindings_for_host host m =
    or_else (get host m.request_service_map) (
      or_else (lookup_wildcard (wildcard host) m.request_service_map)
        (get [] m.request_service_map))

pub service_for : Text → Text → ServiceMap → Option PathBinding
unfolding bindings_for_host first_match
service_for host path m = elim (bindings_for_host host m) [
  | none ↦ none
  | some bs ↦ first_match path bs
]

pub service_for_host : Text → ServiceMap → Option PathBinding
service_for_host host m = service_for host root_path m

-- `split` is net.SplitHostPort; it is asked where a colon stands behind the first byte.
pub service_for_request : (Text → Option Text) → Text → Text → ServiceMap → Option PathBinding
service_for_request split host path m =
    service_for
      (if has b':' (drop 1 host) && not (has b':' (take 1 host))
        then or_host (split host) host
        else host)
      path m

-- Rebuilding the bindings: for each service, host and prefix, in this order.
pub add_binding : Text → PathBinding → Assoc Text (List PathBinding) → Assoc Text (List PathBinding)
add_binding host b m = put host (or_empty (get host m) ++ b ∷ []) m

pub add_prefixes :
    String → Text → List Text → Assoc Text (List PathBinding) → Assoc Text (List PathBinding)
add_prefixes name host [] m = m
add_prefixes name host (p ∷ ps) m =
    add_prefixes name host ps (add_binding host (record { path_prefix = p; service = name }) m)

pub add_hosts :
    String → List Text → List Text → Assoc Text (List PathBinding) → Assoc Text (List PathBinding)
add_hosts name [] ps m = m
add_hosts name (h ∷ hs) ps m = add_hosts name hs ps (add_prefixes name h ps m)

pub add_services :
    Assoc String Service → Assoc Text (List PathBinding) → Assoc Text (List PathBinding)
add_services [] m = m
add_services ((k, s) ∷ ss) m =
    add_services ss (add_hosts s.name s.options.hosts s.options.path_prefixes m)

pub sort_bindings : Sorting → Assoc Text (List PathBinding) → Assoc Text (List PathBinding)
sort_bindings sorting = map (λ (h, bs). (h, sorting.sort compare_bindings bs))

pub bind_all : Sorting → Assoc String Service → Assoc Text (List PathBinding)
unfolding add_services sort_bindings
bind_all sorting services = sort_bindings sorting (add_services services [])

pub serves_root_path : Service → Bool
serves_root_path s = has root_path s.options.path_prefixes

pub first_host : List Text → Text
first_host [] = []
first_host (h ∷ hs) = h

-- The TLS options of the service that answers the root path; the defaults (testing.go) where none
-- does.
pub root_tls : Option PathBinding → Assoc String Service → Bool × Bool
root_tls none services = (false, true)
root_tls (some b) services = elim (get b.service services) [
  | none ↦ (false, true)
  | some r ↦ (r.options.tls_enabled, r.options.tls_redirect)
]

pub sync_service : ServiceMap → Service → Service
sync_service m s =
    if serves_root_path s
    then s
    else let (enabled, redirect) =
        root_tls (service_for_host (first_host s.options.hosts) m) m.services in
      record s { options = record s.options { tls_enabled = enabled; tls_redirect = redirect } }

-- The services are updated one after the other, in place.
pub sync_names : List String → ServiceMap → ServiceMap
unfolding sync_service root_tls serves_root_path first_host service_for_host
sync_names [] m = m
sync_names (n ∷ ns) m = sync_names ns (elim (get n m.services) [
  | none ↦ m
  | some s ↦ record m { services = put n (sync_service m s) m.services }
])

pub names : Assoc String Service → List String
names [] = []
names ((n, s) ∷ ss) = n ∷ names ss

pub update_request_service_map : Sorting → Assoc String Service → ServiceMap
unfolding names
update_request_service_map sorting services =
    sync_names (names services)
      (record { services = services; request_service_map = bind_all sorting services })

pub set_service : Sorting → Service → ServiceMap → ServiceMap
set_service sorting s m = update_request_service_map sorting (put s.name s m.services)

pub remove_service : Sorting → String → ServiceMap → ServiceMap
remove_service sorting name m = update_request_service_map sorting (remove name m.services)

-- CheckAvailability: the first binding of another service at one of the hosts and prefixes.
pub conflict_in : String → Text → List PathBinding → Option String
conflict_in name p [] = none
conflict_in name p (b ∷ bs) =
    if same_bytes p b.path_prefix && not (str_eq b.service name)
    then some b.service
    else conflict_in name p bs

pub conflict_prefixes : String → Text → List Text → ServiceMap → Option String
unfolding conflict_in
conflict_prefixes name host [] m = none
conflict_prefixes name host (p ∷ ps) m =
    or_else (conflict_in name p (or_empty (get host m.request_service_map)))
      (conflict_prefixes name host ps m)

pub conflict_hosts : String → List Text → List Text → ServiceMap → Option String
unfolding conflict_prefixes
conflict_hosts name [] ps m = none
conflict_hosts name (h ∷ hs) ps m =
    or_else (conflict_prefixes name h ps m) (conflict_hosts name hs ps m)

unfoldable pub check_availability : String → ServiceOptions → ServiceMap → Option String
unfolding conflict_hosts
check_availability name options m = conflict_hosts name options.hosts options.path_prefixes m
