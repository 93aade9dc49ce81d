-- ===== src/SessionManager/Expiry.antt =====
-- internal/server/session_manager.go: the calls that read the sessions, that drain them, and the
-- clean-up. The times of `time.Now` are arguments, one for each call.
pub mod Drained
pub mod Killed
pub mod Loaded
mod Tests
use text.Mathlib.Text.{◌==◌ as str_eq}
use kamal_proxy.Base.{
  ℕ, suc, String, Bool, true, false, ◌&&◌, ◌||◌, List, [], ◌∷◌, ◌++◌, Option, none, some,
  if◌then◌else◌, length, map,
}
use kamal_proxy.Base.Int.{ℤ, pos, ltb_ℤ, ◌+ℤ◌, ◌-ℤ◌}
use kamal_proxy.Base.Assoc.{Assoc, get, put, string_eq}
use kamal_proxy.Base.Maps.{map_values, keys_such, values_such, remove_all}
use kamal_proxy.SessionManager.{
  SessionState, active, draining, expired, is_active, MetadataValue, moment, reason, UdpSession,
  SessionConfig, SessionDrainPolicy, StoreCall, save_session, delete_session, SessionManager,
  save_calls,
}

pub is_expired : SessionState → Bool
is_expired expired = true
is_expired _ = false

pub get_session : String → SessionManager → Option UdpSession
get_session id sm = get id sm.sessions

pub get_active_session_count : SessionManager → ℕ
get_active_session_count sm = length (values_such (λ s. is_active s.state) sm.sessions)

-- `session.TargetURL == targetURL && session.State == SessionStateActive`
pub is_active_on : String → UdpSession → Bool
is_active_on url s = str_eq s.target_url url && is_active s.state

pub get_sessions_for_target : String → SessionManager → List UdpSession
unfolding is_active_on
get_sessions_for_target url sm = values_such (is_active_on url) sm.sessions

-- A loop over the active sessions of a target that changes each of them.
pub on_target : String → (UdpSession → UdpSession) → SessionManager → SessionManager
unfolding is_active_on
on_target url f sm = record sm {
  sessions = map_values (λ s. if is_active_on url s then f s else s) sm.sessions;
}

pub drain_target : String → SessionManager → SessionManager
unfolding on_target
drain_target url sm = on_target url (λ s. record s { state = draining }) sm

pub send_webrtc_bye : ℤ → UdpSession → UdpSession
send_webrtc_bye now s =
    let metadata : Assoc String MetadataValue = elim s.metadata [ none ↦ [] | some m ↦ m ] in
    record s {
      metadata = some (
          put "termination_reason" (reason "deployment_drain")
            (put "bye_sent" (moment now) metadata));
    }

-- The last time seen at which a session times out `wait` from now.
pub expiring_in : ℤ → ℤ → SessionConfig → ℤ
expiring_in wait now config = now +ℤ (wait -ℤ config.idle_timeout)

is_webrtc : String → Bool
is_webrtc p = str_eq p "webrtc" || (str_eq p "rtp" || str_eq p "rtcp")

pub drain_gracefully : SessionDrainPolicy → ℤ → SessionConfig → UdpSession → UdpSession
unfolding send_webrtc_bye expiring_in is_webrtc
drain_gracefully policy now config s =
    let s₁ = record s { state = draining } in
    let s₂ =
      if is_webrtc s₁.protocol && policy.notify_clients then send_webrtc_bye now s₁ else s₁ in
    if ltb_ℤ (pos 0) policy.grace_period
    then record s₂ { last_seen = expiring_in policy.grace_period now config }
    else s₂

pub terminate_immediately : UdpSession → UdpSession
terminate_immediately s = record s { state = expired }

pub drain_with_timeout : SessionDrainPolicy → ℤ → SessionConfig → UdpSession → UdpSession
unfolding expiring_in
drain_with_timeout policy now config s =
    let s₁ = record s { state = draining } in
    if ltb_ℤ (pos 0) policy.max_wait_time
    then record s₁ { last_seen = expiring_in policy.max_wait_time now config }
    else s₁

-- What the policy does with a session, by its strategy.
pub drain_session : SessionDrainPolicy → ℤ → SessionConfig → UdpSession → UdpSession
unfolding drain_gracefully terminate_immediately drain_with_timeout
drain_session policy now config s =
    if str_eq policy.strategy "graceful"
    then drain_gracefully policy now config s
    else if str_eq policy.strategy "immediate"
    then terminate_immediately s
    else if str_eq policy.strategy "timeout"
    then drain_with_timeout policy now config s
    else drain_gracefully policy now config s

pub drain_target_with_policy : String → SessionDrainPolicy → ℤ → SessionManager → SessionManager
unfolding on_target drain_session
drain_target_with_policy url policy now sm = on_target url (drain_session policy now sm.config) sm

-- `now.Sub(session.LastSeen) > sm.config.IdleTimeout`
pub is_idle : ℤ → SessionConfig → UdpSession → Bool
is_idle now config s = ltb_ℤ config.idle_timeout (now -ℤ s.last_seen)

pub is_over : ℤ → SessionConfig → UdpSession → Bool
unfolding is_idle is_expired
is_over now config s = is_expired s.state || is_idle now config s

-- The sessions that are over are marked, then deleted, in the store too.
pub cleanup_expired_sessions : ℤ → SessionManager → SessionManager
unfolding is_over
cleanup_expired_sessions now sm =
    let over = keys_such (is_over now sm.config) sm.sessions in
    let mark =
      λ (s : UdpSession). if is_over now sm.config s then record s { state = expired } else s in
    record sm {
      sessions = remove_all over (map_values mark sm.sessions);
      store_calls =
          sm.store_calls ++ (if sm.config.persistence_enabled then map delete_session over else []);
    }

-- The sessions read from the store; their targets are not saved. The last of an ID stands.
pub load_sessions : ℤ → List UdpSession → SessionManager → SessionManager
unfolding is_idle
load_sessions now [] sm = sm
load_sessions now (s ∷ ss) sm =
    let kept = record sm { sessions = put s.id s sm.sessions } in
    load_sessions now ss (if is_idle now sm.config s then sm else kept)

-- `none` is a store that cannot be read.
pub load_persisted_sessions : ℤ → Option (List UdpSession) → SessionManager → SessionManager
unfolding load_sessions
load_persisted_sessions now none sm = sm
load_persisted_sessions now (some ss) sm = load_sessions now ss sm

pub new_session_manager : SessionConfig → ℤ → Option (List UdpSession) → SessionManager
unfolding load_persisted_sessions
new_session_manager config now stored =
    let sm : SessionManager = record { sessions = []; config = config; store_calls = [] } in
    if config.persistence_enabled then load_persisted_sessions now stored sm else sm

save_active : List UdpSession → List StoreCall
save_active [] = []
save_active (s ∷ ss) = save_session s.id ∷ save_active ss

-- After the ticker has ended.
pub stop : SessionManager → SessionManager
unfolding save_active
stop sm =
    if sm.config.persistence_enabled
    then record sm {
      store_calls =
          sm.store_calls ++ save_active (values_such (λ s. is_active s.state) sm.sessions);
    }
    else sm
