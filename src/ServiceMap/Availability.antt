-- ===== src/ServiceMap/Availability.antt =====
-- The test for conflicts, and that it keeps the bindings of the services apart.
use text.Mathlib.Text.{◌==◌ as str_eq}
use text.Mathlib.TextEquality.{eq_iff}
use kamal_proxy.Base.{
  String, ◌≡◌, refl, ◌≢◌, inl, inr, ◌↔◌, not, ◌&&◌, none, some, List, [], ◌∷◌, arith, Bool-cases,
  Option-cases, Elem,
}
use kamal_proxy.Base.Assoc.{bytes_eq, string_eq, nat_eq, same_bytes, same_bytes_iff}
use kamal_proxy.Paths.{Text}
use kamal_proxy.ServiceMap.{
  PathBinding, ServiceOptions, ServiceMap, conflict_in, conflict_prefixes, conflict_hosts,
  check_availability,
}
use kamal_proxy.ServiceMap.Bindings.{Table, bindings_at, Asks}
use kamal_proxy.ServiceMap.Routing.{IsExclusive}

-- No other service is bound where the options ask.
abbrev IsFree : String → List Text → List Text → Table → Type 0
IsFree name hosts ps m =
    (h : Text) (b : PathBinding)
    → Elem h hosts
    → Elem b.path_prefix ps
    → Elem b (bindings_at h m)
    → b.service ≡ name

conflict_in-none :
    (name : String) (p : Text) (bs : List PathBinding) (b : PathBinding)
    → conflict_in name p bs ≡ none
    → Elem b bs
    → b.path_prefix ≡ p
    → b.service ≡ name
unfolding conflict_in
conflict_in-none name p [] b e m q = absurd m
conflict_in-none name p (x ∷ bs) b e (inl y) q =
    ground (arith, same_bytes_iff p x.path_prefix, eq_iff x.service name)
conflict_in-none name p (x ∷ bs) b e (inr y) q = ground (arith, conflict_in-none name p bs b)

conflict_prefixes-none :
    (name : String) (host : Text) (ps : List Text) (m : ServiceMap) (b : PathBinding)
    → conflict_prefixes name host ps m ≡ none
    → Elem b.path_prefix ps
    → Elem b (bindings_at host m.request_service_map)
    → b.service ≡ name
unfolding conflict_prefixes
conflict_prefixes-none name host [] m b e h k = absurd h
conflict_prefixes-none name host (p ∷ ps) m b e (inl y) k =
    ground (arith, conflict_in-none name p (bindings_at host m.request_service_map) b)
conflict_prefixes-none name host (p ∷ ps) m b e (inr y) k =
    ground (arith, conflict_prefixes-none name host ps m b)

conflict_hosts-none :
    (name : String) (hosts ps : List Text) (m : ServiceMap)
    → conflict_hosts name hosts ps m ≡ none
    → IsFree name hosts ps m.request_service_map
unfolding conflict_hosts
conflict_hosts-none name [] ps m e h b i j k = absurd i
conflict_hosts-none name (host ∷ hosts) ps m e h b (inl y) j k =
    conflict_prefixes-none name host ps m b (ground arith) j (rw y at k)
conflict_hosts-none name (host ∷ hosts) ps m e h b (inr y) j k =
    conflict_hosts-none name hosts ps m (ground arith) h b y j k

-- A binding of another service where the options ask.
abbrev Conflict : String → List Text → List Text → Table → String → Type 0
Conflict name hosts ps m n =
    (h : Text) × (b : PathBinding) × Elem h hosts
    × Elem b.path_prefix ps
    × Elem b (bindings_at h m)
    × (b.service ≡ n)
    × (n ≢ name)

conflict_in-some :
    (name : String) (p : Text) (bs : List PathBinding) (n : String)
    → conflict_in name p bs ≡ some n
    → (b : PathBinding) × Elem b bs × (b.path_prefix ≡ p) × (b.service ≡ n) × (n ≢ name)
unfolding conflict_in
conflict_in-some name p [] n e = absurd (ground arith)
conflict_in-some name p (x ∷ bs) n e =
    elim (Bool-cases (same_bytes p x.path_prefix && not (str_eq x.service name))) [
      | inl y ↦ (
        x,
        inl refl,
        ground (arith, same_bytes_iff p x.path_prefix),
        ground arith,
        λ k. ground (arith, eq_iff x.service name),
      )
      | inr y ↦
          let (b, m, q, r, d) = conflict_in-some name p bs n (ground arith) in (b, inr m, q, r, d)
    ]

conflict_prefixes-some :
    (name : String) (host : Text) (ps : List Text) (m : ServiceMap) (n : String)
    → conflict_prefixes name host ps m ≡ some n
    → (b : PathBinding) × Elem b.path_prefix ps
      × Elem b (bindings_at host m.request_service_map)
      × (b.service ≡ n)
      × (n ≢ name)
unfolding conflict_prefixes
conflict_prefixes-some name host [] m n e = absurd (ground arith)
conflict_prefixes-some name host (p ∷ ps) m n e =
    elim (Option-cases (conflict_in name p (bindings_at host m.request_service_map))) [
      | inl y ↦
          let (b, i, q, r, d) = conflict_prefixes-some name host ps m n (ground arith) in
          (b, inr i, q, r, d)
      | inr (k, y) ↦
          let (b, i, q, r, d) =
            conflict_in-some name p (bindings_at host m.request_service_map) n (ground arith) in
          (b, inl q, i, r, d)
    ]

conflict_hosts-some :
    (name : String) (hosts ps : List Text) (m : ServiceMap) (n : String)
    → conflict_hosts name hosts ps m ≡ some n
    → Conflict name hosts ps m.request_service_map n
unfolding conflict_hosts
conflict_hosts-some name [] ps m n e = absurd (ground arith)
conflict_hosts-some name (h ∷ hs) ps m n e = elim (Option-cases (conflict_prefixes name h ps m)) [
  | inl y ↦
      let (k, b, i, j, q, r, d) = conflict_hosts-some name hs ps m n (ground arith) in
      (k, b, inr i, j, q, r, d)
  | inr (k, y) ↦
      let (b, i, q, r, d) = conflict_prefixes-some name h ps m n (ground arith) in
      (h, b, inl refl, i, q, r, d)
]

-- The bindings are those that the services ask for, and no two services share one.
pub record IsCoherent (m : ServiceMap) : Type 0 where
  pub table :
      (h : Text) (b : PathBinding)
      → Elem b (bindings_at h m.request_service_map) ↔ Asks m.services h b
  pub exclusive : IsExclusive m.services

-- On coherent services the test for conflicts is exact: it fails with the name of another service
-- that asks for a host and prefix of the options, and passes where none does.
pub check_availability_exact :
    (name : String) (options : ServiceOptions) (m : ServiceMap)
    → IsCoherent m
    → (check_availability name options m ≡ none
        → (h : Text) (b : PathBinding) → Elem h options.hosts
        → Elem b.path_prefix options.path_prefixes
        → Asks m.services h b
        → b.service ≡ name)
      × ((n : String)
          → check_availability name options m ≡ some n
          → (n ≢ name)
            × ((h : Text) × (b : PathBinding) × Elem h options.hosts
                × Elem b.path_prefix options.path_prefixes
                × Asks m.services h b
                × (b.service ≡ n)))
unfolding check_availability
check_availability_exact name options m c = (
  λ e h b i j a.
      conflict_hosts-none name options.hosts options.path_prefixes m e h b i j ((c.table h b).1 a),
  λ n e.
      let (h, b, i, j, k, q, d) =
        conflict_hosts-some name options.hosts options.path_prefixes m n e in
      (d, (h, b, i, j, (c.table h b).0 k, q)),
)
