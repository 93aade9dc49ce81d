-- ===== src/ServiceMap/Tests.antt =====
-- An insertion sort as the sorting, and two services at one host.
use kamal_proxy.Base.{
  ◌≤◌, String, ◌≡◌, refl, ◌≢◌, ◌⊎◌, ◌↔◌, true, false, none, some, List, [], ◌∷◌, ◌++◌, arith,
  if◌then◌else◌, length, Elem, All, inl, inr, Bool-cases,
}
use kamal_proxy.Base.Int.{ℤ, pos, ltb_ℤ, ◌-ℤ◌}
use kamal_proxy.Base.Assoc.{Assoc, get, put, bytes_eq, string_eq, same_bytes, nat_eq, has}
use kamal_proxy.Paths.{Text, slash, root_path, ensure_trailing_slash}
use kamal_proxy.Paths.Laws.{IsNormal}
use kamal_proxy.ServiceMap.{
  PathBinding, Service, ServiceOptions, ServiceMap, compare_bindings, IsWeakOrder, MayPrecede,
  IsSortedBy, Sorting, matches, service_for, bind_all, set_service, check_availability, add_hosts,
  add_prefixes, add_binding, update_request_service_map, sync_names,
}
use kamal_proxy.ServiceMap.Bindings.{Asks}
use kamal_proxy.ServiceMap.Routing.{IsExclusive, built, Candidate, service_for_longest}
use kamal_proxy.ServiceMap.Order.{SameAsks, service_for_order}
use kamal_proxy.ServiceMap.Availability.{IsCoherent, check_availability_exact}
use kamal_proxy.ServiceMap.Coherence.{set_service-IsCoherent}

module _ (cmp : PathBinding → PathBinding → ℤ) where
  insert : PathBinding → List PathBinding → List PathBinding
  insert b [] = b ∷ []
  insert b (c ∷ cs) = if ltb_ℤ (cmp c b) (pos 0) then c ∷ insert b cs else b ∷ c ∷ cs

  pub insertion_sort : List PathBinding → List PathBinding
  unfolding insert
  insertion_sort [] = []
  insertion_sort (b ∷ bs) = insert b (insertion_sort bs)

  insert-Elem :
      (a b : PathBinding) (bs : List PathBinding) → Elem a (insert b bs) ↔ ((a ≡ b) ⊎ Elem a bs)
  unfolding insert
  insert-Elem a b [] = (λ x. x, λ x. x)
  insert-Elem a b (c ∷ cs) = ground (arith, insert-Elem a b cs)

  pub insertion_sort-Elem :
      (a : PathBinding) (bs : List PathBinding) → Elem a (insertion_sort bs) ↔ Elem a bs
  unfolding insertion_sort
  insertion_sort-Elem a [] = (λ x. x, λ x. x)
  insertion_sort-Elem a (b ∷ bs) =
      ground (arith, insert-Elem a b (insertion_sort bs), insertion_sort-Elem a bs)

  module _ (order : IsWeakOrder cmp) where
    precedes_all :
        (b c : PathBinding) (bs : List PathBinding)
        → MayPrecede cmp b c
        → All (MayPrecede cmp c) bs
        → All (MayPrecede cmp b) bs
    precedes_all b c [] h k = tt
    precedes_all b c (d ∷ bs) h (k, ks) = (order.trans b c d h k, precedes_all b c bs h ks)

    insert-precedes :
        (a b : PathBinding) (bs : List PathBinding)
        → MayPrecede cmp a b
        → All (MayPrecede cmp a) bs
        → All (MayPrecede cmp a) (insert b bs)
    unfolding insert
    insert-precedes a b [] h k = (h, tt)
    insert-precedes a b (c ∷ cs) h (k, ks) = elim (Bool-cases (ltb_ℤ (cmp c b) (pos 0))) [
      | inl e ↦ rw (e, insert) (k, insert-precedes a b cs h ks)
      | inr e ↦ rw (e, insert) (h, (k, ks))
    ]

    less-precedes : (b c : PathBinding) → ltb_ℤ (cmp c b) (pos 0) ≡ true → MayPrecede cmp c b
    less-precedes b c e = elim (order.total b c) [
      | inl h ↦ absurd (ground (arith, e, h))
      | inr h ↦ h
    ]

    insert-IsSortedBy :
        (b : PathBinding) (bs : List PathBinding) → IsSortedBy cmp bs → IsSortedBy cmp (insert b bs)
    unfolding insert
    insert-IsSortedBy b [] d = (tt, tt)
    insert-IsSortedBy b (c ∷ cs) (d, ds) = elim (Bool-cases (ltb_ℤ (cmp c b) (pos 0))) [
      | inl e ↦
          rw (e, insert) (insert-precedes c b cs (less-precedes b c e) d, insert-IsSortedBy b cs ds)
      | inr e ↦ rw (e, insert) ((e, precedes_all b c cs e d), (d, ds))
    ]

    pub insertion_sort-IsSortedBy : (bs : List PathBinding) → IsSortedBy cmp (insertion_sort bs)
    unfolding insertion_sort
    insertion_sort-IsSortedBy [] = tt
    insertion_sort-IsSortedBy (b ∷ bs) =
        insert-IsSortedBy b (insertion_sort bs) (insertion_sort-IsSortedBy bs)

abbrev pub sorting : Sorting
sorting = record {
  sort = insertion_sort;
  sorted = λ cmp bs order. insertion_sort-IsSortedBy cmp order bs;
  keeps = insertion_sort-Elem;
}

abbrev pub example_host : Text
example_host = b'a' ∷ b'.' ∷ b'b' ∷ []

abbrev api_path : Text
api_path = slash ∷ b'x' ∷ []

abbrev pub options_for : Text → ServiceOptions
options_for p = record {
  hosts = example_host ∷ [];
  path_prefixes = p ∷ [];
  tls_enabled = true;
  tls_redirect = false;
  tls_certificate_path = "";
  tls_private_key_path = "";
  acme_directory = "";
  acme_cache_path = "";
  error_page_path = "";
  strip_prefix = false;
  writer_affinity_timeout = 0;
  read_targets_accept_websockets = false;
}

abbrev web : Service
web = record { name = "web"; options = options_for root_path }

abbrev api : Service
api = record { name = "api"; options = options_for api_path }

abbrev both : Assoc String Service
both = ("web", web) ∷ ("api", api) ∷ []

abbrev swapped : Assoc String Service
swapped = ("api", api) ∷ ("web", web) ∷ []

both-IsExclusive : IsExclusive both
both-IsExclusive h b c p q e = ground arith

both-SameAsks : SameAsks both swapped
both-SameAsks h b = ground arith

abbrev api_binding : PathBinding
api_binding = record { path_prefix = api_path; service = "api" }

routed :
    service_for example_host (slash ∷ b'x' ∷ slash ∷ b'y' ∷ []) (built sorting both)
    ≡ some api_binding
unfolding compare_bindings ◌-ℤ◌ service_for bind_all insertion_sort get put same_bytes matches
    ensure_trailing_slash add_hosts add_prefixes add_binding
routed = refl

service_for_longest_example :
    (h : Text) × Candidate example_host h
    × Asks both h api_binding
    × (IsNormal api_path
        → (api_path ≡ root_path)
          ⊎ (slash ∷ b'x' ∷ slash ∷ b'y' ∷ [] ≡ api_path)
          ⊎ ((t : Text) × (slash ∷ b'x' ∷ slash ∷ b'y' ∷ [] ≡ api_path ++ (slash ∷ t))))
    × ((c : PathBinding)
        → Asks both h c
        → matches (slash ∷ b'x' ∷ slash ∷ b'y' ∷ []) c ≡ true
        → length c.path_prefix ≤ 2)
service_for_longest_example =
    service_for_longest sorting both example_host (slash ∷ b'x' ∷ slash ∷ b'y' ∷ []) api_binding
      routed

service_for_order_example :
    service_for example_host api_path (built sorting both)
    ≡ service_for example_host api_path (built sorting swapped)
service_for_order_example =
    service_for_order sorting sorting both swapped both-SameAsks both-IsExclusive example_host
      api_path

abbrev nothing : ServiceMap
nothing = record { services = []; request_service_map = [] }

nothing-IsCoherent : IsCoherent nothing
unfolding get
nothing-IsCoherent = record { table = λ h b. (λ m. m, λ a. a); exclusive = λ h b c p q e. absurd p }

abbrev one_service : ServiceMap
one_service = set_service sorting api nothing

one_service-IsCoherent : IsCoherent one_service
unfolding check_availability get
one_service-IsCoherent = set_service-IsCoherent sorting api nothing nothing-IsCoherent refl

check_availability_exact_example :
    (check_availability "web" (options_for api_path) one_service ≡ none
      → (h : Text) (b : PathBinding) → Elem h (example_host ∷ [])
      → Elem b.path_prefix (api_path ∷ [])
      → Asks one_service.services h b
      → b.service ≡ "web")
    × ((n : String)
        → check_availability "web" (options_for api_path) one_service ≡ some n
        → (n ≢ "web")
          × ((h : Text) × (b : PathBinding) × Elem h (example_host ∷ [])
              × Elem b.path_prefix (api_path ∷ [])
              × Asks one_service.services h b
              × (b.service ≡ n)))
check_availability_exact_example =
    check_availability_exact "web" (options_for api_path) one_service one_service-IsCoherent

-- A service below the root takes its TLS options from the service at the root.
synced :
    (get "api"
      (set_service sorting
        (record web { options = record web.options { tls_enabled = false } })
        one_service).services)
    ≡ some (record api { options = record api.options { tls_enabled = false } })
unfolding compare_bindings ◌-ℤ◌ check_availability set_service update_request_service_map get put
    bind_all insertion_sort same_bytes has service_for matches sync_names add_hosts add_prefixes
    add_binding
synced = refl
