-- ===== src/UdpTarget.antt =====
-- internal/server/udp_target.go: the targets of UDP services: their connection, and forwarding to
-- them. `SessionManager` has what a session reads of them.
pub mod Stopped
use kamal_proxy.Base.{
  ℕ, suc, String, Bool, true, false, ◌||◌, List, [], ◌∷◌, Option, none, some, ◌==◌, if◌then◌else◌,
}
use kamal_proxy.SessionManager.{UdpTarget}

-- What the network answers: for a URL, whether it resolves; for a target, whether its socket can
-- be opened and a packet written to it.
pub record Net : Type 0 where
  pub resolves : String → Bool
  pub opens : ℕ → Bool
  pub writes : ℕ → Bool

-- `stopped` says whose channel `stop` is closed; closing it again panics.
pub record UdpTargets : Type 0 where
  pub target : ℕ → UdpTarget
  pub connected : ℕ → Bool
  pub stopped : ℕ → Bool
  pub next_address : ℕ
  pub panicked : Bool

pub data UdpError : Type 0 where
  unresolved no_socket : String → UdpError
  no_ports no_service : UdpError

pub data Result {ℓ} (A : Type ℓ) : Type ℓ where
  ok : A → Result A
  err : UdpError → Result A

pub new_udp_target : Net → String → UdpTargets → UdpTargets × Result ℕ
new_udp_target net url w =
    let a = w.next_address in
    if net.resolves url
    then (
      record w {
        target = λ b. if a == b then record { url = url; healthy = false } else w.target b;
        connected = λ b. if a == b then false else w.connected b;
        stopped = λ b. if a == b then false else w.stopped b;
        next_address = suc a;
      },
      ok a,
    )
    else (w, err (unresolved url))

pub start_target : Net → ℕ → UdpTargets → UdpTargets × Result (Unit {0})
start_target net a w =
    if net.opens a
    then (record w { connected = λ b. if a == b then true else w.connected b }, ok tt)
    else (w, err (no_socket (w.target a).url))

-- Stop, which ends the health checks and leaves what they found. It waits for them with its lock held: a
-- health check that waits for the lock would block it for ever, which is left out.
pub stop_target : ℕ → UdpTargets → UdpTargets
stop_target a w = record w {
  connected = λ b. if a == b then false else w.connected b;
  stopped = λ b. if a == b then true else w.stopped b;
  panicked = w.panicked || w.stopped a;
}

pub stop_targets : List ℕ → UdpTargets → UdpTargets
unfolding stop_target
stop_targets [] w = w
stop_targets (a ∷ ts) w = stop_targets ts (stop_target a w)

-- The outcome of a health check of a target; a target without a connection fails it.
pub check : Bool → ℕ → UdpTargets → UdpTargets
check answered a w =
    let healthy = if w.connected a then answered else false in
    record w {
      target = λ b. if a == b then record (w.target a) { healthy = healthy } else w.target b;
    }

pub data Forwarded : Type 0 where
  not_healthy no_connection write_failed sent : Forwarded

pub forward_packet : Net → ℕ → UdpTargets → Forwarded
forward_packet net a w =
    if (w.target a).healthy
    then (if w.connected a then (if net.writes a then sent else write_failed) else no_connection)
    else not_healthy

-- A target that is created and started for each URL; what was started before an error goes on.
unfoldable pub start_each : Net → List String → UdpTargets → UdpTargets × Result (List ℕ)
unfolding new_udp_target start_target
start_each net [] w = (w, ok [])
start_each net (url ∷ urls) w =
    let (w₁, made) = new_udp_target net url w in
    let a = w.next_address in
    let (w₂, started) = start_target net a w₁ in
    let (w₃, rest) = start_each net urls w₂ in
    elim made [
      | err e ↦ (w₁, err e)
      | ok _ ↦ elim started [
        | err e ↦ (w₂, err e)
        | ok _ ↦ elim rest [ err e ↦ (w₃, err e) | ok ts ↦ (w₃, ok (a ∷ ts)) ]
      ]
    ]
