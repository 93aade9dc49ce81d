-- ===== src/ServiceMap/Order.antt =====
-- The answer does not depend on Go's iteration order, nor on how equal prefixes are sorted.
use kamal_proxy.Base.{
  String, ◌≡◌, refl, ap, sym, ◌∙◌, ◌≢◌, ◌⊎◌, inl, inr, ◌↔◌, none, some, List, [], ◌∷◌, ◌++◌, arith,
  Option-cases, Elem,
}
use kamal_proxy.Base.Assoc.{Assoc, get, get-put, bytes_eq, string_eq, nat_eq}
use kamal_proxy.Paths.{Text}
use kamal_proxy.ServiceMap.{
  PathBinding, compare_bindings, Service, Sorting, or_empty, first_match, bindings_for_host,
  service_for, bind_all, wildcard, lookup_wildcard, add_binding, add_prefixes, add_hosts,
  add_services,
}
use kamal_proxy.ServiceMap.Bindings.{
  Table, bindings_at, Asks, bind_all-Asks, bind_all-IsDescending, get-sort_bindings,
}
use kamal_proxy.ServiceMap.Routing.{first_match_same, IsExclusive, built}

-- A host stands in the table only with a binding.
abbrev IsFilled : Table → Type 0
IsFilled m = (h : Text) → get h m ≢ some []

append_snoc-ne-nil : (xs : List PathBinding) (b : PathBinding) → xs ++ b ∷ [] ≢ []
append_snoc-ne-nil [] b e = cc
append_snoc-ne-nil (x ∷ xs) b e = cc

add_binding-IsFilled :
    (host : Text) (b : PathBinding) (m : Table) → IsFilled m → IsFilled (add_binding host b m)
unfolding add_binding
add_binding-IsFilled host b m f h e =
    let xs = or_empty (get host m) in
    ground (arith, get-put host h (xs ++ b ∷ []) m, append_snoc-ne-nil xs b, f h)

add_prefixes-IsFilled :
    (name : String) (host : Text) (ps : List Text) (m : Table)
    → IsFilled m
    → IsFilled (add_prefixes name host ps m)
unfolding add_prefixes
add_prefixes-IsFilled name host [] m f = f
add_prefixes-IsFilled name host (p ∷ ps) m f =
    add_prefixes-IsFilled name host ps _ (add_binding-IsFilled host _ m f)

add_hosts-IsFilled :
    (name : String) (hosts ps : List Text) (m : Table)
    → IsFilled m
    → IsFilled (add_hosts name hosts ps m)
unfolding add_hosts
add_hosts-IsFilled name [] ps m f = f
add_hosts-IsFilled name (h ∷ hs) ps m f =
    add_hosts-IsFilled name hs ps _ (add_prefixes-IsFilled name h ps m f)

add_services-IsFilled :
    (ss : Assoc String Service) (m : Table) → IsFilled m → IsFilled (add_services ss m)
unfolding add_services
add_services-IsFilled [] m f = f
add_services-IsFilled ((k, s) ∷ ss) m f =
    add_services-IsFilled ss _
      (add_hosts-IsFilled s.name s.options.hosts s.options.path_prefixes m f)

sort-ne-nil :
    (sorting : Sorting) (bs : List PathBinding) → bs ≢ [] → sorting.sort compare_bindings bs ≢ []
sort-ne-nil sorting [] n e = n refl
sort-ne-nil sorting (b ∷ bs) n e =
    elim_nil (sorting.sort compare_bindings (b ∷ bs)) e
      ((sorting.keeps compare_bindings b (b ∷ bs)).1 (inl refl))
  where
    elim_nil : (xs : List PathBinding) → xs ≡ [] → Elem b xs → ⊥
    elim_nil [] e m = m
    elim_nil (x ∷ xs) e m = cc

bind_all-IsFilled : (sorting : Sorting) (ss : Assoc String Service) → IsFilled (bind_all sorting ss)
unfolding bind_all get
bind_all-IsFilled sorting ss h e =
    let f = add_services-IsFilled ss [] (λ k x. cc) h in
    let g = get-sort_bindings sorting h (add_services ss []) in
    elim (Option-cases (get h (add_services ss []))) [
      | inl n ↦ ground arith
      | inr (bs, n) ↦ sort-ne-nil sorting bs (λ x. f (n ∙ ap some x)) (ground arith)
    ]

-- Whether a host stands in the table at all.
get-bind_all-none :
    (sorting : Sorting) (ss : Assoc String Service) (h : Text)
    → (get h (bind_all sorting ss) ≡ none) ↔ ((b : PathBinding) → ¬ Asks ss h b)
get-bind_all-none sorting ss h = (
  λ e b a. bound_nowhere b e ((bind_all-Asks sorting ss h b).1 a),
  λ n. elim (Option-cases (get h (bind_all sorting ss))) [
    | inl e ↦ e
    | inr (bs, e) ↦ absurd (filled bs e (λ b m. n b ((bind_all-Asks sorting ss h b).0 (rw e m))))
  ],
)
  where
    bound_nowhere :
        (b : PathBinding)
        → get h (bind_all sorting ss) ≡ none
        → Elem b (bindings_at h (bind_all sorting ss))
        → ⊥
    bound_nowhere b e m = rw e at m

    filled :
        (bs : List PathBinding)
        → get h (bind_all sorting ss) ≡ some bs
        → ((b : PathBinding) → Elem b bs → ⊥)
        → ⊥
    filled [] e n = bind_all-IsFilled sorting ss h e
    filled (b ∷ bs) e n = n b (inl refl)

-- The same hosts and prefixes for the same services, listed in any order.
abbrev pub SameAsks : Assoc String Service → Assoc String Service → Type 0
SameAsks ss ss' = (h : Text) (b : PathBinding) → Asks ss h b ↔ Asks ss' h b

module _ (sorting sorting' : Sorting) (ss ss' : Assoc String Service) (same : SameAsks ss ss')
    (exclusive : IsExclusive ss) where
  -- A host stands in neither table, or in both with bindings that answer alike.
  aligned :
      (h : Text)
      → ((get h (bind_all sorting ss) ≡ none) × (get h (bind_all sorting' ss') ≡ none))
        ⊎ ((bs bs' : List PathBinding) × (get h (bind_all sorting ss) ≡ some bs)
            × (get h (bind_all sorting' ss') ≡ some bs')
            × ((path : Text) → first_match path bs ≡ first_match path bs'))
  aligned h =
      let t = bind_all sorting ss in
      let t' = bind_all sorting' ss' in
      let none_iff = get-bind_all-none sorting ss h in
      let none_iff' = get-bind_all-none sorting' ss' h in
      elim (Option-cases (get h t)) [
        | inl e ↦ inl (e, none_iff'.1 (λ b a. none_iff.0 e b ((same h b).1 a)))
        | inr (bs, e) ↦ elim (Option-cases (get h t')) [
          | inl e' ↦
              let n = none_iff.1 (λ b a. none_iff'.0 e' b ((same h b).0 a)) in
              absurd (none≢some bs (sym n ∙ e))
          | inr (bs', e') ↦ inr (bs, bs', e, e', alike bs bs' e e')
        ]
      ]
    where
      none≢some : (bs : List PathBinding) → none ≡ some bs → ⊥
      none≢some bs x = cc

      alike :
          (bs bs' : List PathBinding)
          → get h (bind_all sorting ss) ≡ some bs
          → get h (bind_all sorting' ss') ≡ some bs'
          → (path : Text) → first_match path bs ≡ first_match path bs'
      alike bs bs' e e' path =
          let at : bindings_at h (bind_all sorting ss) ≡ bs = rw e in
          let at' : bindings_at h (bind_all sorting' ss') ≡ bs' = rw e' in
          let asks = λ (b : PathBinding). bind_all-Asks sorting ss h b in
          let asks' = λ (b : PathBinding). bind_all-Asks sorting' ss' h b in
          ap (first_match path) (sym at)
          ∙ first_match_same path (bindings_at h (bind_all sorting ss))
              (bindings_at h (bind_all sorting' ss'))
              (λ b. (
                λ m. (asks' b).1 ((same h b).0 ((asks b).0 m)),
                λ m. (asks b).1 ((same h b).1 ((asks' b).0 m)),
              ))
              (λ b c m n. exclusive h b c ((asks b).0 m) ((asks c).0 n))
              (bind_all-IsDescending sorting ss h) (bind_all-IsDescending sorting' ss' h)
          ∙ ap (first_match path) at'

  -- Where no two services ask for one host and prefix, a request is answered by the same binding
  -- whatever the order of the services and whichever way bindings of one length are sorted.
  pub service_for_order :
      (host path : Text)
      → service_for host path (built sorting ss) ≡ service_for host path (built sorting' ss')
  unfolding service_for bindings_for_host lookup_wildcard
  service_for_order host path = elim (aligned host) [
    | inr (bs, bs', e, e', k) ↦ rw (e, e', service_for) (k path)
    | inl (n, n') ↦ elim (Option-cases (wildcard host)) [
      | inl w ↦ elim (aligned []) [
        | inl (m, m') ↦ ground arith
        | inr (bs, bs', e, e', k) ↦ ground (arith, k path)
      ]
      | inr (x, w) ↦ elim (aligned x) [
        | inr (bs, bs', e, e', k) ↦ ground (arith, k path)
        | inl (m, m') ↦ elim (aligned []) [
          | inl (l, l') ↦ ground arith
          | inr (bs, bs', e, e', k) ↦ ground (arith, k path)
        ]
      ]
    ]
  ]
