-- ===== src/SessionManager/Expiry/Drained.antt =====
-- What draining and the clean-up do to the sessions, and when a drained session ends.
use text.Mathlib.Text.{◌==◌ as str_eq}
use kamal_proxy.Base.{
  ℕ, ◌||◌, ◌⊎◌, ◌≡◌, refl, sym, ap, ◌∙◌, inl, inr, String, Bool, true, false, List, [], ◌∷◌, Option,
  none, some, arith, if◌then◌else◌, Bool-cases,
}
use kamal_proxy.Base.Int.{ℤ, pos, ltb_ℤ, ◌+ℤ◌, ◌-ℤ◌, +ℤ_parts, -ℤ_parts}
use kamal_proxy.Base.Assoc.{Assoc, get, IsMap, string_eq}
use kamal_proxy.Base.Maps.{
  map_values, map_option, keys_such, values_such, get-map_values, get-remove_all, has-keys_such,
  map_values-IsMap,
}
use kamal_proxy.SessionManager.{
  UdpTarget, UdpAddr, Md5, to, SessionState, active, draining, expired, is_active, UdpSession,
  SessionConfig, SessionDrainPolicy, SessionManager, route_packet,
}
use kamal_proxy.SessionManager.Expiry.{
  is_expired, is_active_on, on_target, get_sessions_for_target, drain_gracefully, send_webrtc_bye,
  expiring_in, terminate_immediately, drain_with_timeout, drain_session, drain_target_with_policy,
  is_idle, is_over, cleanup_expired_sessions,
}
use kamal_proxy.SessionManager.Route.{client_id, route_packet-RouteOutcome, route_packet-KeepsState}

abbrev pub keep_unless : (UdpSession → Bool) → Option UdpSession → Option UdpSession
keep_unless test none = none
keep_unless test (some s) = if test s then none else some s

cleanup_lem :
    (now : ℤ) (sm : SessionManager) (k : String)
    → IsMap sm.sessions
    → get k (cleanup_expired_sessions now sm).sessions
      ≡ keep_unless (is_over now sm.config) (get k sm.sessions)
unfolding cleanup_expired_sessions
cleanup_lem now sm k v =
    let mark =
      λ (s : UdpSession). if is_over now sm.config s then record s { state = expired } else s in
    rw
      (
        get-remove_all (keys_such (is_over now sm.config) sm.sessions) k
            (map_values mark sm.sessions),
        has-keys_such (is_over now sm.config) k sm.sessions v,
        get-map_values mark k sm.sessions,
      )
      (ground arith)

-- `t` is later than `s` by more than `d`.
abbrev pub Later : ℤ → ℤ → ℤ → Type 0
Later t s d = ltb_ℤ (s +ℤ d) t ≡ true

-- Marked as expired, or last seen longer ago than the time-out.
abbrev pub IsOver : ℤ → SessionConfig → UdpSession → Type 0
IsOver now config s = (s.state ≡ expired) ⊎ Later now s.last_seen config.idle_timeout

by_parts :
    {A : Type 0} (state : SessionState) (idle : Bool)
    → (idle ≡ true → A)
    → is_expired state || idle ≡ true
    → (state ≡ expired) ⊎ A
unfolding is_expired
by_parts active idle f h = inr (f (ground arith))
by_parts draining idle f h = inr (f (ground arith))
by_parts expired idle f h = inl refl

over_parts :
    {A : Type 0} (state : SessionState) (idle : Bool)
    → (A → idle ≡ true)
    → (state ≡ expired) ⊎ A
    → is_expired state || idle ≡ true
unfolding is_expired
over_parts state idle f (inl e) = rw e refl
over_parts state idle f (inr a) = let h = f a in ground arith

is_over_lem :
    (now : ℤ) (config : SessionConfig) (s : UdpSession)
    → (is_over now config s ≡ true → IsOver now config s)
      × (IsOver now config s → is_over now config s ≡ true)
unfolding is_over is_idle is_expired
is_over_lem now config s =
    let after = +ℤ_parts s.last_seen config.idle_timeout in
    let since = -ℤ_parts now s.last_seen in
    let idle : (is_idle now config s ≡ true → Later now s.last_seen config.idle_timeout)
        × (Later now s.last_seen config.idle_timeout → is_idle now config s ≡ true) =
      (λ h. ground (arith, after, since, h), λ h. ground (arith, after, since, h)) in
    (
      by_parts s.state (is_idle now config s) idle.0,
      over_parts s.state (is_idle now config s) idle.1,
    )

-- The clean-up removes the sessions that are marked as expired or were last seen longer ago than the
-- time-out, and keeps all others as they are; it adds none.
pub cleanup_expired_sessions_exact :
    (now : ℤ) (sm : SessionManager) (k : String)
    → IsMap sm.sessions
    → let after = get k (cleanup_expired_sessions now sm).sessions in
      ((s : UdpSession)
        → get k sm.sessions ≡ some s
        → (IsOver now sm.config s → after ≡ none) × (¬ IsOver now sm.config s → after ≡ some s))
      × (get k sm.sessions ≡ none → after ≡ none)
cleanup_expired_sessions_exact now sm k v = (
  λ s e. (
    λ o. cleanup_lem now sm k v ∙ rw (e, (is_over_lem now sm.config s).1 o) refl,
    λ n.
        cleanup_lem now sm k v
        ∙ rw (e) (elim (Bool-cases (is_over now sm.config s)) [
          | inl t ↦ absurd (n ((is_over_lem now sm.config s).0 t))
          | inr t ↦ rw t refl
        ]),
  ),
  λ e. cleanup_lem now sm k v ∙ rw e refl,
)

drain_session-ne-active :
    (policy : SessionDrainPolicy) (now : ℤ) (config : SessionConfig) (s : UdpSession)
    → is_active (drain_session policy now config s).state ≡ false
unfolding drain_session drain_gracefully terminate_immediately drain_with_timeout send_webrtc_bye
    is_active
drain_session-ne-active policy now config s = ground arith

no-values_such :
    (test : UdpSession → Bool) (f : UdpSession → UdpSession)
    → ((s : UdpSession) → test (f s) ≡ false)
    → (m : Assoc String UdpSession) → values_such test (map_values f m) ≡ []
unfolding values_such map_values
no-values_such test f h [] = refl
no-values_such test f h ((k, s) ∷ m) = rw (h s) (no-values_such test f h m)

pub drain_target_with_policy_exact :
    (url : String) (policy : SessionDrainPolicy) (now : ℤ) (sm : SessionManager)
    → let sm' = drain_target_with_policy url policy now sm in
      (get_sessions_for_target url sm' ≡ [])
      × ((k : String)
          → get k sm'.sessions
            ≡ map_option
                (λ s. if is_active_on url s then drain_session policy now sm.config s else s)
                (get k sm.sessions))
unfolding drain_target_with_policy on_target get_sessions_for_target is_active_on
drain_target_with_policy_exact url policy now sm =
    let f =
      λ (s : UdpSession). if is_active_on url s then drain_session policy now sm.config s else s in
    (
      no-values_such (is_active_on url) f
          (λ s. ground (arith, drain_session-ne-active policy now sm.config s)) sm.sessions,
      λ k. get-map_values f k sm.sessions,
    )

-- How long the policy lets a session go on: the grace period, or the hard cut-off.
abbrev pub wait_time : SessionDrainPolicy → ℤ
wait_time policy =
    if str_eq policy.strategy "graceful"
    then policy.grace_period
    else if str_eq policy.strategy "timeout"
    then policy.max_wait_time
    else policy.grace_period

module _ (policy : SessionDrainPolicy) (now : ℤ) (config : SessionConfig) (s : UdpSession) where
  gracefully_last_seen :
      ltb_ℤ (pos 0) policy.grace_period ≡ true
      → let s' = drain_gracefully policy now config s in
        (s'.state ≡ draining) × (s'.last_seen ≡ expiring_in policy.grace_period now config)
  unfolding drain_gracefully send_webrtc_bye
  gracefully_last_seen h = rw h (ground arith)

  timeout_last_seen :
      ltb_ℤ (pos 0) policy.max_wait_time ≡ true
      → let s' = drain_with_timeout policy now config s in
        (s'.state ≡ draining) × (s'.last_seen ≡ expiring_in policy.max_wait_time now config)
  unfolding drain_with_timeout
  timeout_last_seen h = rw h (refl, refl)

  drain_session-last_seen :
      str_eq policy.strategy "immediate" ≡ false
      → ltb_ℤ (pos 0) (wait_time policy) ≡ true
      → let s' = drain_session policy now config s in
        (s'.state ≡ draining) × (s'.last_seen ≡ expiring_in (wait_time policy) now config)
  unfolding drain_session
  drain_session-last_seen h k = elim (Bool-cases (str_eq policy.strategy "graceful")) [
    | inl g ↦ rw (g, drain_session) (gracefully_last_seen (rw g at k))
    | inr g ↦ elim (Bool-cases (str_eq policy.strategy "timeout")) [
      | inl t ↦ rw (g, h, t, drain_session) (timeout_last_seen (rw (g, t) at k))
      | inr t ↦ rw (g, h, t, drain_session) (gracefully_last_seen (rw (g, t) at k))
    ]
  ]

ends_when :
    (wait now later : ℤ) (config : SessionConfig) (s : UdpSession)
    → s.last_seen ≡ expiring_in wait now config
    → is_idle later config s ≡ ltb_ℤ (now +ℤ wait) later
unfolding is_idle expiring_in
ends_when wait now later config s h = rw h (
    ground (
      arith,
      -ℤ_parts later (now +ℤ (wait -ℤ config.idle_timeout)),
      +ℤ_parts now (wait -ℤ config.idle_timeout),
      -ℤ_parts wait config.idle_timeout,
      +ℤ_parts now wait,
    ))

-- A session that drains without further packets is removed by the clean-ups from the end of its
-- grace period or of its maximal wait on, and by none before, for a policy that waits at all.
pub drain_deadline :
    (url : String) (policy : SessionDrainPolicy) (now later : ℤ) (sm : SessionManager) (k : String)
    (s : UdpSession)
    → IsMap sm.sessions
    → get k sm.sessions ≡ some s
    → is_active_on url s ≡ true
    → str_eq policy.strategy "immediate" ≡ false
    → ltb_ℤ (pos 0) (wait_time policy) ≡ true
    → get k (cleanup_expired_sessions later (drain_target_with_policy url policy now sm)).sessions
      ≡ (if ltb_ℤ (now +ℤ wait_time policy) later
          then none
          else some (drain_session policy now sm.config s))
unfolding drain_target_with_policy on_target is_over is_expired
drain_deadline url policy now later sm k s v e on w p =
    let f =
      λ (s : UdpSession). if is_active_on url s then drain_session policy now sm.config s else s in
    let d = drain_session-last_seen policy now sm.config s w p in
    let at : get k (drain_target_with_policy url policy now sm).sessions
        ≡ some (drain_session policy now sm.config s) =
      (drain_target_with_policy_exact url policy now sm).1 k ∙ rw (e, on) refl in
    cleanup_lem later (drain_target_with_policy url policy now sm) k
      (map_values-IsMap f sm.sessions v)
    ∙ rw
        (
          at,
          ends_when (wait_time policy) now later sm.config (drain_session policy now sm.config s)
              d.1,
          d.0,
        )
        refl

some_injective : (s t : UdpSession) → some s ≡ some t → s ≡ t
some_injective s t e = ground arith

-- The time limit of draining holds only without traffic: a packet of the client of a draining
-- session that finds a healthy target keeps the session, still draining, until the idle time-out
-- after that packet, whatever the policy's deadline was.
pub route_packet_extends_drain :
    (md5 : Md5) (heap : ℕ → UdpTarget) (addr : UdpAddr) (dst_port : ℕ) (service : String)
    (targets : List ℕ) (now later : ℤ) (sm : SessionManager) (t : ℕ) (s s' : UdpSession)
    → let id = client_id md5 heap addr dst_port service targets now sm in
      let r = route_packet md5 heap addr dst_port service targets now sm in
      IsMap sm.sessions
      → get id sm.sessions ≡ some s
      → s.state ≡ draining
      → r.1 ≡ to t s'
      → ltb_ℤ sm.config.idle_timeout (later -ℤ now) ≡ false
      → (get id (cleanup_expired_sessions later r.0).sessions ≡ some s') × (s'.state ≡ draining)
unfolding is_over is_expired is_idle
route_packet_extends_drain md5 heap addr dst_port service targets now later sm t s s' v e d to_t h =
    let id = client_id md5 heap addr dst_port service targets now sm in
    let o = route_packet-RouteOutcome md5 heap addr dst_port service targets now sm in
    let r = route_packet md5 heap addr dst_port service targets now sm in
    let c = o.chosen t s' to_t in
    let kept = route_packet-KeepsState md5 heap addr dst_port service targets now sm id s e in
    let same : kept.0 ≡ s' = some_injective kept.0 s' (sym kept.1 ∙ c.3) in
    let drains : s'.state ≡ draining = ap (λ x. x.state) (sym same) ∙ kept.2 ∙ d in
    (cleanup_lem later r.0 id (o.map v) ∙ rw (c.3, o.config, drains, c.2, h) refl, drains)
