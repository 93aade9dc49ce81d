-- ===== src/ServiceMap/Routing.antt =====
-- Which binding answers a request.
use mathlib.Core.Bool.{false≢true}
use kamal_proxy.Base.{
  ◌≤◌, String, ◌≡◌, refl, ap, sym, ◌∙◌, ◌⊎◌, inl, inr, ◌↔◌, true, false, none, some, List, [], ◌∷◌,
  ◌++◌, arith, length, Bool-cases, Option-cases, Elem, All,
}
use kamal_proxy.Base.Assoc.{Assoc, get, bytes_eq, string_eq, nat_eq}
use kamal_proxy.Paths.{Text, slash, root_path}
use kamal_proxy.Paths.Laws.{IsNormal, prefix_segments, prefix_unique}
use kamal_proxy.ServiceMap.{
  PathBinding, Service, ServiceMap, Sorting, matches, first_match, bindings_for_host, service_for,
  bind_all, wildcard, lookup_wildcard,
}
use kamal_proxy.ServiceMap.Longest.{IsDescending}
use kamal_proxy.ServiceMap.Bindings.{bindings_at, Asks, bind_all-Asks, bind_all-IsDescending}

-- `b` is a longest match among the bindings.
pub record IsLongest (path : Text) (bs : List PathBinding) (b : PathBinding) : Type 0 where
  pub member : Elem b bs
  match_self : matches path b ≡ true
  pub longest :
      (c : PathBinding)
      → Elem c bs
      → matches path c ≡ true
      → length c.path_prefix ≤ length b.path_prefix

All-Elem :
    (P : PathBinding → Type 0) (bs : List PathBinding) (c : PathBinding)
    → All P bs
    → Elem c bs
    → P c
All-Elem P [] c h m = absurd m
All-Elem P (b ∷ bs) c h (inl e) = rw e h.0
All-Elem P (b ∷ bs) c h (inr m) = All-Elem P bs c h.1 m

same_matches : (path : Text) (b c : PathBinding) → b ≡ c → matches path b ≡ matches path c
same_matches path b c e = rw e

first_match-IsLongest :
    (path : Text) (bs : List PathBinding) (b : PathBinding)
    → IsDescending bs
    → first_match path bs ≡ some b
    → IsLongest path bs b
unfolding first_match
first_match-IsLongest path [] b d e = absurd (ground arith)
first_match-IsLongest path (x ∷ bs) b d e = elim (Bool-cases (matches path x)) [
  | inl m ↦
      let same : x ≡ b = ground arith in
      rw (← same)
        (record { member = inl refl; match_self = m; longest = first_longest path x bs d })
  | inr m ↦
      let ih = first_match-IsLongest path bs b d.1 (ground arith) in
      record {
        member = inr ih.member;
        match_self = ih.match_self;
        longest = λ c h k. elim h [
          | inl y ↦ absurd (ground (arith, same_matches path c x y))
          | inr y ↦ ih.longest c y k
        ];
      }
]
  where
    first_longest :
        (path : Text) (x : PathBinding) (bs : List PathBinding)
        → IsDescending (x ∷ bs)
        → (c : PathBinding) → Elem c (x ∷ bs)
        → matches path c ≡ true
        → length c.path_prefix ≤ length x.path_prefix
    first_longest path x bs d c (inl e) k = rw e (omega arith)
    first_longest path x bs d c (inr m) k = All-Elem _ bs c d.0 m

first_match-none :
    (path : Text) (bs : List PathBinding) (c : PathBinding)
    → first_match path bs ≡ none
    → Elem c bs
    → matches path c ≡ false
unfolding first_match
first_match-none path [] c e m = absurd m
first_match-none path (x ∷ bs) c e m = elim (Bool-cases (matches path x)) [
  | inl y ↦ absurd (ground arith)
  | inr y ↦ elim m [
    | inl z ↦ ground (arith, same_matches path c x z)
    | inr z ↦ first_match-none path bs c (ground arith) z
  ]
]

abbrev pub SameElems : List PathBinding → List PathBinding → Type 0
SameElems bs bs' = (b : PathBinding) → Elem b bs ↔ Elem b bs'

abbrev pub IsExclusiveList : List PathBinding → Type 0
IsExclusiveList bs =
    (b c : PathBinding)
    → Elem b bs
    → Elem c bs
    → b.path_prefix ≡ c.path_prefix
    → b.service ≡ c.service

longest_unique :
    (path : Text) (bs bs' : List PathBinding) (b b' : PathBinding)
    → SameElems bs bs'
    → IsExclusiveList bs
    → IsLongest path bs b
    → IsLongest path bs' b'
    → b ≡ b'
unfolding matches
longest_unique path bs bs' b b' same x l l' =
    let e =
      prefix_unique path b.path_prefix b'.path_prefix
        (omega (
          arith,
          l.longest b' ((same b').1 l'.member) l'.match_self,
          l'.longest b ((same b).0 l.member) l.match_self,
        ))
        l.match_self l'.match_self in
    let d = x b b' l.member ((same b').1 l'.member) e in ground arith

-- The same bindings in two descending orders answer alike.
pub first_match_same :
    (path : Text) (bs bs' : List PathBinding)
    → SameElems bs bs'
    → IsExclusiveList bs
    → IsDescending bs
    → IsDescending bs'
    → first_match path bs ≡ first_match path bs'
first_match_same path bs bs' same x d d' = elim (Option-cases (first_match path bs)) [
  | inl e ↦ elim (Option-cases (first_match path bs')) [
    | inl e' ↦ e ∙ sym e'
    | inr (b', e') ↦
        let l' = first_match-IsLongest path bs' b' d' e' in
        absurd
          (false≢true (sym (first_match-none path bs b' e ((same b').1 l'.member)) ∙ l'.match_self))
  ]
  | inr (b, e) ↦
      let l = first_match-IsLongest path bs b d e in
      elim (Option-cases (first_match path bs')) [
        | inl e' ↦
            absurd (
              false≢true
                (sym (first_match-none path bs' b e' ((same b).0 l.member)) ∙ l.match_self))
        | inr (b', e') ↦
            e
            ∙ ap some
                (longest_unique path bs bs' b b' same x l (first_match-IsLongest path bs' b' d' e'))
            ∙ sym e'
      ]
]

-- No two services ask for one host and prefix.
abbrev pub IsExclusive : Assoc String Service → Type 0
IsExclusive ss =
    (h : Text) (b c : PathBinding)
    → Asks ss h b
    → Asks ss h c
    → b.path_prefix ≡ c.path_prefix
    → b.service ≡ c.service

-- A map of services whose bindings were rebuilt.
abbrev pub built : Sorting → Assoc String Service → ServiceMap
built sorting ss = record { services = ss; request_service_map = bind_all sorting ss }

-- The hosts whose bindings may answer a request for `host`.
abbrev pub Candidate : Text → Text → Type 0
Candidate host h = (h ≡ host) ⊎ (wildcard host ≡ some h) ⊎ (h ≡ [])

module _ (sorting : Sorting) (ss : Assoc String Service) where
  candidate :
      (host : Text) (bs : List PathBinding)
      → bindings_for_host host (built sorting ss) ≡ some bs
      → (h : Text) × Candidate host h × (bindings_at h (bind_all sorting ss) ≡ bs)
  unfolding bindings_for_host lookup_wildcard
  candidate host bs e =
      let t = bind_all sorting ss in
      elim (Option-cases (get host t)) [
        | inr (xs, f) ↦ (host, inl refl, ground arith)
        | inl f ↦ elim (Option-cases (wildcard host)) [
          | inl w ↦ ([], inr (inr refl), ground arith)
          | inr (h, w) ↦ elim (Option-cases (get h t)) [
            | inr (xs, g) ↦ (h, inr (inl w), ground arith)
            | inl g ↦ ([], inr (inr refl), ground arith)
          ]
        ]
      ]

  -- The binding that answers belongs to a service that asks for it at a candidate host; its prefix
  -- covers whole segments of the path, and no service asks there for a longer prefix that matches.
  pub service_for_longest :
      (host path : Text) (b : PathBinding)
      → service_for host path (built sorting ss) ≡ some b
      → (h : Text) × Candidate host h
        × Asks ss h b
        × (IsNormal b.path_prefix
            → (b.path_prefix ≡ root_path)
              ⊎ (path ≡ b.path_prefix)
              ⊎ ((t : Text) × (path ≡ b.path_prefix ++ (slash ∷ t))))
        × ((c : PathBinding)
            → Asks ss h c
            → matches path c ≡ true
            → length c.path_prefix ≤ length b.path_prefix)
  unfolding service_for matches
  service_for_longest host path b e =
      elim (Option-cases (bindings_for_host host (built sorting ss))) [
        | inl n ↦ absurd (ground arith)
        | inr (bs, n) ↦
            let (h, c, at) = candidate host bs n in
            let found : first_match path (bindings_at h (bind_all sorting ss)) ≡ some b =
              rw at (ground arith) in
            let l =
              first_match-IsLongest path (bindings_at h (bind_all sorting ss)) b
                (bind_all-IsDescending sorting ss h) found in
            (
              h,
              c,
              (bind_all-Asks sorting ss h b).0 l.member,
              λ n. prefix_segments path b.path_prefix n l.match_self,
              λ d a. l.longest d ((bind_all-Asks sorting ss h d).1 a),
            )
      ]
