-- ===== src/SessionManager/Expiry/Killed.antt =====
-- Sessions of a target that are expired one and all.
use kamal_proxy.Base.{String, ◌≡◌, refl, inl, inr, false, [], ◌∷◌, arith, Bool-cases, if◌then◌else◌}
use kamal_proxy.Base.Assoc.{Assoc, string_eq}
use kamal_proxy.Base.Maps.{map_values, values_such}
use kamal_proxy.SessionManager.{UdpSession, SessionManager, is_active}
use kamal_proxy.SessionManager.Expiry.{
  is_active_on, get_sessions_for_target, on_target, terminate_immediately,
}

kill : String → UdpSession → UdpSession
kill v s = if is_active_on v s then terminate_immediately s else s

kill-inactive :
    (u v : String) (s : UdpSession) → is_active_on u s ≡ false → is_active_on u (kill v s) ≡ false
unfolding kill terminate_immediately is_active_on is_active
kill-inactive u v s h = ground arith

kill_self : (u : String) (s : UdpSession) → is_active_on u (kill u s) ≡ false
unfolding kill terminate_immediately is_active_on is_active
kill_self u s = ground arith

module _ (u v : String) where
  values-kept :
      (m : Assoc String UdpSession)
      → values_such (is_active_on u) m ≡ []
      → values_such (is_active_on u) (map_values (kill v) m) ≡ []
  unfolding values_such map_values
  values-kept [] e = refl
  values-kept ((k, s) ∷ m) e = elim (Bool-cases (is_active_on u s)) [
    | inl f ↦ absurd (ground arith)
    | inr f ↦ rw (kill-inactive u v s f) (values-kept m (rw f at e))
  ]

values-killed :
    (u : String) (m : Assoc String UdpSession)
    → values_such (is_active_on u) (map_values (kill u) m) ≡ []
unfolding values_such map_values
values-killed u [] = refl
values-killed u ((k, s) ∷ m) = rw (kill_self u s) (values-killed u m)

pub on_target-kept :
    (u v : String) (sm : SessionManager)
    → get_sessions_for_target u sm ≡ []
    → get_sessions_for_target u (on_target v terminate_immediately sm) ≡ []
unfolding get_sessions_for_target on_target kill
on_target-kept u v sm e = values-kept u v sm.sessions e

pub on_target-killed :
    (u : String) (sm : SessionManager)
    → get_sessions_for_target u (on_target u terminate_immediately sm) ≡ []
unfolding get_sessions_for_target on_target kill
on_target-killed u sm = values-killed u sm.sessions
