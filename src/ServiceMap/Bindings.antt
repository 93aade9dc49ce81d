-- ===== src/ServiceMap/Bindings.antt =====
-- The rebuilt bindings: a host has a binding exactly where a service asks for it.
use mathlib.Core.Option
use kamal_proxy.Base.{
  String, ◌≡◌, refl, ◌⊎◌, inl, inr, ◌↔◌, List, [], ◌∷◌, ◌++◌, arith, Option-cases, Elem,
}
use kamal_proxy.Base.Assoc.{Assoc, get, get-put, bytes_eq, string_eq, nat_eq, same_bytes_iff}
use kamal_proxy.Paths.{Text}
use kamal_proxy.ServiceMap.Longest.{IsDescending, sort-IsDescending}
use kamal_proxy.ServiceMap.{
  PathBinding, Service, Sorting, or_empty, add_binding, add_prefixes, add_hosts, add_services,
  sort_bindings, bind_all, compare_bindings,
}

abbrev pub Table : Type 0
Table = Assoc Text (List PathBinding)

abbrev pub bindings_at : Text → Table → List PathBinding
bindings_at host m = or_empty (get host m)

-- A service of the list asks for a host and a prefix, under its name.
abbrev pub Asks : Assoc String Service → Text → PathBinding → Type 0
Asks [] host b = ⊥
Asks ((k, s) ∷ ss) host b =
    ((s.name ≡ b.service) × Elem host s.options.hosts × Elem b.path_prefix s.options.path_prefixes)
    ⊎ Asks ss host b

Elem-append :
    (b : PathBinding) (xs ys : List PathBinding) → Elem b (xs ++ ys) ↔ (Elem b xs ⊎ Elem b ys)
Elem-append b [] ys = (λ h. inr h, λ h. elim h [ inl x ↦ absurd x | inr y ↦ y ])
Elem-append b (x ∷ xs) ys = ground (arith, Elem-append b xs ys)

bindings_at-add_binding :
    (host h : Text) (b c : PathBinding) (m : Table)
    → Elem b (bindings_at h (add_binding host c m))
      ↔ (Elem b (bindings_at h m) ⊎ ((host ≡ h) × (b ≡ c)))
unfolding add_binding
bindings_at-add_binding host h b c m = ground (
  arith,
  get-put host h (or_empty (get host m) ++ c ∷ []) m,
  same_bytes_iff host h,
  Elem-append b (or_empty (get host m)) (c ∷ []),
)

bindings_at-add_prefixes :
    (name : String) (host h : Text) (b : PathBinding) (ps : List Text) (m : Table)
    → Elem b (bindings_at h (add_prefixes name host ps m))
      ↔ (Elem b (bindings_at h m) ⊎ ((host ≡ h) × (name ≡ b.service) × Elem b.path_prefix ps))
unfolding add_prefixes
bindings_at-add_prefixes name host h b [] m = (λ x. inl x, λ x. ground arith)
bindings_at-add_prefixes name host h b (p ∷ ps) m =
    let c : PathBinding = record { path_prefix = p; service = name } in
    ground (
      arith,
      bindings_at-add_binding host h b c m,
      bindings_at-add_prefixes name host h b ps (add_binding host c m),
    )

bindings_at-add_hosts :
    (name : String) (h : Text) (b : PathBinding) (hosts ps : List Text) (m : Table)
    → Elem b (bindings_at h (add_hosts name hosts ps m))
      ↔ (Elem b (bindings_at h m) ⊎ ((name ≡ b.service) × Elem h hosts × Elem b.path_prefix ps))
unfolding add_hosts
bindings_at-add_hosts name h b [] ps m = (λ x. inl x, λ x. ground arith)
bindings_at-add_hosts name h b (host ∷ hosts) ps m = ground (
  arith,
  bindings_at-add_prefixes name host h b ps m,
  bindings_at-add_hosts name h b hosts ps (add_prefixes name host ps m),
)

bindings_at-add_services :
    (ss : Assoc String Service) (h : Text) (b : PathBinding) (m : Table)
    → Elem b (bindings_at h (add_services ss m)) ↔ (Elem b (bindings_at h m) ⊎ Asks ss h b)
unfolding add_services
bindings_at-add_services [] h b m = (λ x. inl x, λ x. ground arith)
bindings_at-add_services ((k, s) ∷ ss) h b m =
    let m' = add_hosts s.name s.options.hosts s.options.path_prefixes m in
    ground (
      arith,
      bindings_at-add_hosts s.name h b s.options.hosts s.options.path_prefixes m,
      bindings_at-add_services ss h b m',
    )

pub get-sort_bindings :
    (sorting : Sorting) (h : Text) (m : Table)
    → get h (sort_bindings sorting m) ≡ Option.map (sorting.sort compare_bindings) (get h m)
unfolding get sort_bindings
get-sort_bindings sorting h [] = refl
get-sort_bindings sorting h ((k, bs) ∷ m) = ground (arith, get-sort_bindings sorting h m)

-- After the bindings are rebuilt, a host has a binding exactly where some service asks for that
-- host and prefix.
pub bind_all-Asks :
    (sorting : Sorting) (ss : Assoc String Service) (h : Text) (b : PathBinding)
    → Elem b (bindings_at h (bind_all sorting ss)) ↔ Asks ss h b
unfolding bind_all get
bind_all-Asks sorting ss h b =
    let t = bindings_at-add_services ss h b [] in
    let g = get-sort_bindings sorting h (add_services ss []) in
    elim (Option-cases (get h (add_services ss []))) [
      | inl e ↦ rw (g, e) (λ x. absurd x, λ x. ground (arith, t))
      | inr (bs, e) ↦ rw (g, e) (ground (arith, t, sorting.keeps compare_bindings b bs))
    ]

-- The bindings of a host are sorted, longer prefixes first.
pub bind_all-IsDescending :
    (sorting : Sorting) (ss : Assoc String Service) (h : Text)
    → IsDescending (bindings_at h (bind_all sorting ss))
unfolding bind_all
bind_all-IsDescending sorting ss h = elim (Option-cases (get h (add_services ss []))) [
  | inl e ↦ rw (get-sort_bindings sorting h (add_services ss []), e) tt
  | inr (bs, e) ↦
      rw (get-sort_bindings sorting h (add_services ss []), e) (sort-IsDescending sorting bs)
]
