-- ===== src/SessionManager/Sticky.antt =====
-- A packet of a session whose target is taken to be healthy.
use kamal_proxy.Base.{ℕ, ◌≡◌, refl, String, true, List, some}
use kamal_proxy.Base.Int.{ℤ}
use kamal_proxy.Base.Assoc.{get, put, string_eq}
use kamal_proxy.SessionManager.{
  UdpTarget, UdpAddr, UdpSession, SessionManager, Md5, to, is_active, current_target, five_tuple_of,
  generate_session_id, touch, route_packet,
}

pub current_target-some :
    (heap : ℕ → UdpTarget) (s : UdpSession) (t : ℕ)
    → is_active s.state ≡ true
    → s.target ≡ some t
    → (heap t).healthy ≡ true
    → current_target heap s ≡ some t
unfolding current_target
current_target-some heap s t a f h = rw (a, f, h) refl

-- It goes to that target, whatever the targets of the service are.
pub route_packet-sticky :
    (md5 : Md5) (heap : ℕ → UdpTarget) (addr : UdpAddr) (port : ℕ) (service : String)
    (targets : List ℕ) (now : ℤ) (sm : SessionManager) (s : UdpSession) (t : ℕ)
    → let id = generate_session_id md5 sm.config (five_tuple_of addr port) in
      get id sm.sessions ≡ some s
      → current_target heap s ≡ some t
      → route_packet md5 heap addr port service targets now sm
        ≡ (record sm { sessions = put id (touch now s) sm.sessions }, to t (touch now s))
unfolding route_packet
route_packet-sticky md5 heap addr port service targets now sm s t e c = rw (e, route_packet, c) refl
