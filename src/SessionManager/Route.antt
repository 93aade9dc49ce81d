-- ===== src/SessionManager/Route.antt =====
-- Where RoutePacket sends a packet, and what it does to the sessions.
use kamal_proxy.Base.{
  ℕ, zero, suc, ◌%◌, ◌<◌, ◌≡◌, refl, ◌∙◌, ◌⊎◌, inl, inr, String, Bool, true, false, List, [], ◌∷◌,
  Option, none, some, arith, length, get_elem?, Elem, Option-cases, Bool-cases,
}
use kamal_proxy.Base.Int.{ℤ}
use kamal_proxy.Base.Assoc.{get, put, IsMap, put-IsMap, get-put_same, get-put_other, string_eq}
use kamal_proxy.SessionManager.{
  UdpTarget, UdpAddr, UdpSession, SessionManager, SessionConfig, active, is_active, FiveTuple, Md5,
  Routed, to, no_healthy_targets, filter_healthy, pick, select_target, current_target,
  five_tuple_of, generate_session_id, new_session, assign_target, touch, route_packet,
}

module _ (heap : ℕ → UdpTarget) where
  filter_healthy-Elem :
      (t : ℕ) (ts : List ℕ)
      → Elem t (filter_healthy heap ts)
      → Elem t ts × ((heap t).healthy ≡ true)
  unfolding filter_healthy
  filter_healthy-Elem t [] h = ground arith
  filter_healthy-Elem t (u ∷ ts) h = ground (arith, filter_healthy-Elem t ts)

  Elem-filter_healthy :
      (t : ℕ) (ts : List ℕ) → Elem t ts → (heap t).healthy ≡ true → Elem t (filter_healthy heap ts)
  unfolding filter_healthy
  Elem-filter_healthy t [] h k = ground arith
  Elem-filter_healthy t (u ∷ ts) h k = ground (arith, Elem-filter_healthy t ts)

get_elem?-Elem : (xs : List ℕ) (i x : ℕ) → get_elem? xs i ≡ some x → Elem x xs
get_elem?-Elem [] i x e = ground arith
get_elem?-Elem (y ∷ xs) zero x e = ground arith
get_elem?-Elem (y ∷ xs) (suc i) x e = ground (arith, get_elem?-Elem xs i x)

get_elem?_lt : (xs : List ℕ) (i : ℕ) → i < length xs → (x : ℕ) × (get_elem? xs i ≡ some x)
get_elem?_lt [] i h = absurd (omega arith)
get_elem?_lt (y ∷ xs) zero h = (y, refl)
get_elem?_lt (y ∷ xs) (suc i) h = get_elem?_lt xs i (omega arith)

pick-Elem :
    (sticky : Bool) (hash : ℕ) (hs : List ℕ) (t : ℕ) → pick sticky hash hs ≡ some t → Elem t hs
unfolding pick
pick-Elem sticky hash [] t e = ground arith
pick-Elem sticky hash (h ∷ hs) t e =
    ground (arith, get_elem?-Elem (h ∷ hs) (hash % suc (length hs)) t)

pick-none : (sticky : Bool) (hash : ℕ) (hs : List ℕ) → pick sticky hash hs ≡ none → hs ≡ []
unfolding pick
pick-none sticky hash [] e = refl
pick-none sticky hash (h ∷ hs) e =
    let found = get_elem?_lt (h ∷ hs) (hash % suc (length hs)) (omega arith) in
    absurd (ground (arith, found.1))

module _ (md5 : Md5) (heap : ℕ → UdpTarget) (config : SessionConfig) (ft : FiveTuple)
    (targets : List ℕ) where
  select_target-Elem :
      (t : ℕ)
      → select_target md5 config heap ft targets ≡ some t
      → Elem t targets × ((heap t).healthy ≡ true)
  unfolding select_target
  select_target-Elem t e = filter_healthy-Elem heap t targets (
      pick-Elem config.stickiness_enabled (md5.first_byte (generate_session_id md5 config ft))
        (filter_healthy heap targets) t e)

  select_target-none :
      select_target md5 config heap ft targets ≡ none
      → (t : ℕ) → Elem t targets
      → (heap t).healthy ≡ false
  unfolding select_target
  select_target-none e t m =
      let empty =
        pick-none config.stickiness_enabled (md5.first_byte (generate_session_id md5 config ft))
          (filter_healthy heap targets) e in
      elim (Bool-cases (heap t).healthy) [
        | inr k ↦ k
        | inl k ↦ absurd (rw empty at (Elem-filter_healthy heap t targets m k))
      ]

to_injective : (t u : ℕ) (s r : UdpSession) → to t s ≡ to u r → (t ≡ u) × (s ≡ r)
to_injective t u s r e = ground arith

current_target_lem :
    (heap : ℕ → UdpTarget) (s : UdpSession) (t : ℕ)
    → current_target heap s ≡ some t
    → (s.target ≡ some t) × ((heap t).healthy ≡ true) × (s.state ≡ active)
unfolding current_target is_active
current_target_lem heap s t e = ground arith

touch-target : (now : ℤ) (s : UdpSession) → (touch now s).target ≡ s.target
unfolding touch
touch-target now s = ground arith

touch-last_seen : (now : ℤ) (s : UdpSession) → s.state ≡ active → (touch now s).last_seen ≡ now
unfolding touch is_active
touch-last_seen now s h = ground arith

touch-state : (now : ℤ) (s : UdpSession) → (touch now s).state ≡ s.state
unfolding touch
touch-state now s = ground arith

module _ (md5 : Md5) (heap : ℕ → UdpTarget) (addr : UdpAddr) (dst_port : ℕ) (service : String)
    (targets : List ℕ) (now : ℤ) (sm : SessionManager) where
  abbrev client : FiveTuple
  client = five_tuple_of addr dst_port

  abbrev pub client_id : String
  client_id = generate_session_id md5 sm.config client

  -- What RoutePacket promises of its result.
  pub record RouteOutcome (old : Option UdpSession) (sm' : SessionManager) (r : Routed)
      : Type 0 where
    pub chosen :
        (t : ℕ) (s : UdpSession)
        → r ≡ to t s
        → ((heap t).healthy ≡ true)
          × (s.target ≡ some t)
          × (s.last_seen ≡ now)
          × (get client_id sm'.sessions ≡ some s)
          × (Elem t targets
              ⊎ ((o : UdpSession) × (old ≡ some o) × (current_target heap o ≡ some t)))
    pub refused :
        (n : String)
        → r ≡ no_healthy_targets n
        → (t : ℕ) → Elem t targets
        → (heap t).healthy ≡ false
    pub config : sm'.config ≡ sm.config
    pub map : IsMap sm.sessions → IsMap sm'.sessions

  assign_target-RouteOutcome :
      (s : UdpSession) (m : SessionManager)
      → m.config ≡ sm.config
      → (IsMap sm.sessions → IsMap m.sessions)
      → (old : Option UdpSession)
      → let r = assign_target md5 heap client_id client service targets now s m in
        RouteOutcome old r.0 r.1
  unfolding assign_target
  assign_target-RouteOutcome s m c v old =
      elim (Option-cases (select_target md5 m.config heap client targets)) [
        | inl e ↦
            rw (e, assign_target)
              record {
                chosen = λ t s' k. absurd (ground arith);
                refused = λ n k. select_target-none md5 heap m.config client targets e;
                config = c;
                map = v;
              }
        | inr (u, e) ↦
            rw (e, assign_target)
              record {
                chosen = λ t s' k.
                    let s₀ = record s {
                      target = some u;
                      target_url = (heap u).url;
                      last_seen = now;
                    } in
                    let i = to_injective u t s₀ s' k in
                    let found = select_target-Elem md5 heap m.config client targets u e in
                    rw (← i.0, ← i.1)
                      (found.1, refl, refl, get-put_same client_id s₀ m.sessions, inl found.0);
                refused = λ n k. absurd (ground arith);
                config = c;
                map = λ w.
                    put-IsMap client_id
                      (record s { target = some u; target_url = (heap u).url; last_seen = now })
                      m.sessions (v w);
              }
      ]

  -- A packet goes to a healthy target: the one of its active session, or one of the list. The
  -- session then stands under the client's ID with that target. A packet is refused only where no
  -- target of the list is healthy.
  pub route_packet-RouteOutcome :
      let r = route_packet md5 heap addr dst_port service targets now sm in
      RouteOutcome (get client_id sm.sessions) r.0 r.1
  unfolding route_packet touch
  route_packet-RouteOutcome = elim (Option-cases (get client_id sm.sessions)) [
    | inl e ↦
        rw (e, route_packet)
          (assign_target-RouteOutcome (new_session client_id client service now) sm refl (λ w. w)
            none)
    | inr (s, e) ↦ elim (Option-cases (current_target heap s)) [
      | inl f ↦
          rw (e, route_packet, f)
            (assign_target-RouteOutcome (touch now s)
              (record sm { sessions = put client_id (touch now s) sm.sessions }) refl
              (λ w. put-IsMap client_id (touch now s) sm.sessions w) (some s))
      | inr (u, f) ↦
          let c = current_target_lem heap s u f in
          rw (e, route_packet, f)
            record {
              chosen = λ t s' k.
                  let i = to_injective u t (touch now s) s' k in
                  rw (← i.0, ← i.1)
                    (
                      c.1,
                      touch-target now s ∙ c.0,
                      touch-last_seen now s c.2,
                      get-put_same client_id (touch now s) sm.sessions,
                      inr (s, refl, f),
                    );
              refused = λ n k. absurd (ground arith);
              config = refl;
              map = λ w. put-IsMap client_id (touch now s) sm.sessions w;
            }
    ]
  ]

  abbrev pub KeepsState : SessionManager → Type 0
  KeepsState sm' =
      (k : String) (s : UdpSession)
      → get k sm.sessions ≡ some s
      → (s' : UdpSession) × (get k sm'.sessions ≡ some s') × (s'.state ≡ s.state)

  put-KeepsState :
      (s : UdpSession) (m : SessionManager)
      → KeepsState m
      → ((o : UdpSession) → get client_id sm.sessions ≡ some o → s.state ≡ o.state)
      → KeepsState (record m { sessions = put client_id s m.sessions })
  put-KeepsState s m h same k o e = elim (Bool-cases (string_eq.beq client_id k)) [
    | inl q ↦
        let at_id = (string_eq.beq_iff client_id k).0 q in
        (s, rw (← at_id) (get-put_same client_id s m.sessions), same o (rw at_id e))
    | inr q ↦ let old = h k o e in (old.0, get-put_other client_id k s m.sessions q ∙ old.1, old.2)
  ]

  assign_target-KeepsState :
      (s : UdpSession) (m : SessionManager)
      → KeepsState m
      → ((o : UdpSession) → get client_id sm.sessions ≡ some o → s.state ≡ o.state)
      → KeepsState (assign_target md5 heap client_id client service targets now s m).0
  unfolding assign_target
  assign_target-KeepsState s m h same =
      elim (Option-cases (select_target md5 m.config heap client targets)) [
        | inl e ↦ rw (e, assign_target) h
        | inr (u, e) ↦
            rw (e, assign_target)
              (put-KeepsState
                (record s { target = some u; target_url = (heap u).url; last_seen = now }) m h same)
      ]

  -- A packet changes the state of no session: one that drains is not made active again.
  pub route_packet-KeepsState :
      (k : String) (s : UdpSession)
      → get k sm.sessions ≡ some s
      → (s' : UdpSession) × (get k
            (route_packet md5 heap addr dst_port service targets now sm).0.sessions
          ≡ some s')
        × (s'.state ≡ s.state)
  unfolding route_packet
  route_packet-KeepsState = elim (Option-cases (get client_id sm.sessions)) [
    | inl e ↦
        rw (e, route_packet)
          (assign_target-KeepsState (new_session client_id client service now) sm
            (λ k s g. (s, g, refl)) (λ o g. absurd (ground arith)))
    | inr (s, e) ↦
        let same : (o : UdpSession)
            → get client_id sm.sessions ≡ some o
            → (touch now s).state ≡ o.state =
          λ o g. touch-state now s ∙ ground arith in
        let m = record sm { sessions = put client_id (touch now s) sm.sessions } in
        let kept = put-KeepsState (touch now s) sm (λ k o g. (o, g, refl)) same in
        elim (Option-cases (current_target heap s)) [
          | inl f ↦ rw (e, route_packet, f) (assign_target-KeepsState (touch now s) m kept same)
          | inr (u, f) ↦ rw (e, route_packet, f) kept
        ]
  ]
