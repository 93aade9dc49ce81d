-- ===== src/SessionManager/Expiry/Loaded.antt =====
-- What a new manager takes over from the session store.
use kamal_proxy.Base.{
  ◌≡◌, refl, ◌⊎◌, inl, inr, String, Bool, true, false, List, [], ◌∷◌, Option, none, some, arith,
  if◌then◌else◌, Bool-cases, Elem,
}
use kamal_proxy.Base.Int.{ℤ}
use kamal_proxy.Base.Assoc.{get, put, get-put, string_eq}
use kamal_proxy.SessionManager.{UdpSession, SessionConfig, SessionManager}
use kamal_proxy.SessionManager.Expiry.{
  is_idle, load_sessions, load_persisted_sessions, new_session_manager,
}

module _ (now : ℤ) (k : String) (s : UdpSession) where
  load_sessions-Elem :
      (ss : List UdpSession) (sm : SessionManager)
      → get k (load_sessions now ss sm).sessions ≡ some s
      → (get k sm.sessions ≡ some s) ⊎ (Elem s ss × (is_idle now sm.config s ≡ false) × (s.id ≡ k))
  unfolding load_sessions
  load_sessions-Elem [] sm e = inl e
  load_sessions-Elem (t ∷ ss) sm e = elim (Bool-cases (is_idle now sm.config t)) [
    | inl b ↦ elim (load_sessions-Elem ss sm (rw (b, load_sessions) at e)) [
      | inl g ↦ inl g
      | inr g ↦ inr (inr g.0, g.1, g.2)
    ]
    | inr b ↦
        elim (load_sessions-Elem ss (record sm { sessions = put t.id t sm.sessions })
          (rw (b, load_sessions) at e)) [
            | inr g ↦ inr (inr g.0, g.1, g.2)
            | inl g ↦ ground (arith, get-put t.id k t sm.sessions, string_eq.beq_iff t.id k)
          ]
  ]

module _ (now : ℤ) (k : String) (s : UdpSession) (sm : SessionManager)
    (empty : get k sm.sessions ≡ none) where
  abbrev pub FromStore : Option (List UdpSession) → Type 0
  FromStore stored =
      (ss : List UdpSession) × (stored ≡ some ss)
      × Elem s ss
      × (is_idle now sm.config s ≡ false)
      × (s.id ≡ k)

  not_empty : {R : Type 0} → get k sm.sessions ≡ some s → R
  not_empty e = absurd (ground arith)

  started :
      (persistent : Bool) (stored : Option (List UdpSession))
      → get k (if persistent then load_persisted_sessions now stored sm else sm).sessions ≡ some s
      → FromStore stored
  unfolding load_persisted_sessions
  started false stored e = not_empty e
  started true none e = not_empty e
  started true (some ss) e = elim (load_sessions-Elem now k s ss sm e) [
    | inl g ↦ not_empty g
    | inr g ↦ (ss, refl, g.0, g.1, g.2)
  ]

-- A new manager has only sessions that the store held, each under its ID and none of them seen
-- longer ago than the time-out; without a store, or with one that cannot be read, it has none.
pub new_session_manager-Elem :
    (config : SessionConfig) (now : ℤ) (k : String) (s : UdpSession)
    (stored : Option (List UdpSession))
    → get k (new_session_manager config now stored).sessions ≡ some s
    → (ss : List UdpSession) × (stored ≡ some ss)
      × Elem s ss
      × (is_idle now config s ≡ false)
      × (s.id ≡ k)
unfolding new_session_manager get
new_session_manager-Elem config now k s stored e =
    started now k s (record { sessions = []; config = config; store_calls = [] }) refl
      config.persistence_enabled stored e
