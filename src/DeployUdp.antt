-- ===== src/DeployUdp.antt =====
-- internal/cmd/deploy_udp.go: what is tested before a UDP or WebRTC service is deployed.
pub mod Accepted
mod Tests
use text.Mathlib.Text.{◌==◌ as str_eq}
use kamal_proxy.Base.{
  ℕ, ◌+◌, ◌-◌, ◌*◌, String, Bool, true, false, ◌&&◌, ◌||◌, not, ◌==◌, leb, ltb, ◌⊎◌, inl, inr, List,
  [], ◌∷◌, Option, none, some, if◌then◌else◌,
}
use kamal_proxy.Base.Int.{ℤ, pos, negsuc}
use kamal_proxy.Paths.{Text}
use kamal_proxy.PortAllocator.{PortRange}
use kamal_proxy.SessionManager.{SessionConfig}

-- strings.Split with a separator of one byte
pub split : ℕ → Text → List Text
split c [] = [] ∷ []
split c (x ∷ xs) = elim (split c xs) [
  | [] ↦ (x ∷ []) ∷ []
  | p ∷ ps ↦ if x == c then [] ∷ p ∷ ps else (x ∷ p) ∷ ps
]

pub digits : Text → ℕ → Option ℕ
digits [] n = some n
digits (c ∷ cs) n =
    let rest = digits cs (n * 10 + (c - b'0')) in if leb b'0' c && leb c b'9' then rest else none

pub number : Text → Option ℕ
unfolding digits
number [] = none
number (c ∷ cs) = elim (digits (c ∷ cs) 0) [
  | none ↦ none
  | some n ↦ if leb n 9223372036854775807 then some n else none
]

-- strconv.Atoi, for a text without a minus sign.
pub atoi : Text → Option ℕ
unfolding number
atoi [] = none
atoi (c ∷ cs) = if c == b'+' then number cs else number (c ∷ cs)

pub data RangeError : Type 0 where
  range_format : RangeError
  start_port : RangeError
  end_port_number : RangeError
  out_of_bounds : RangeError
  not_less : RangeError

-- Without a minus sign `start <= 0` is `start == 0`.
pub port_range : ℕ → ℕ → RangeError ⊎ PortRange
port_range start end_port =
    if leb start 0 || (leb end_port 0 || (ltb 65535 start || ltb 65535 end_port))
    then inl out_of_bounds
    else if leb end_port start
    then inl not_less
    else inr (record { start = start; end_port = end_port; step = 2 })

pub parse_bounds : Option ℕ → Option ℕ → RangeError ⊎ PortRange
unfolding port_range
parse_bounds none _ = inl start_port
parse_bounds (some start) none = inl end_port_number
parse_bounds (some start) (some end_port) = port_range start end_port

pub parse_parts : List Text → RangeError ⊎ PortRange
unfolding atoi parse_bounds
parse_parts (a ∷ b ∷ []) = parse_bounds (atoi a) (atoi b)
parse_parts _ = inl range_format

pub add_range : RangeError ⊎ PortRange → RangeError ⊎ List PortRange → RangeError ⊎ List PortRange
add_range (inl e) _ = inl e
add_range (inr r) (inl e) = inl e
add_range (inr r) (inr rs) = inr (r ∷ rs)

pub parse_port_ranges : List Text → RangeError ⊎ List PortRange
unfolding split parse_parts add_range
parse_port_ranges [] = inr []
parse_port_ranges (s ∷ ss) = add_range (parse_parts (split b'-' s)) (parse_port_ranges ss)

pub record DeployUdpCommand : Type 0 where
  pub target_urls : List String
  pub port : ℤ
  pub affinity_strategy : String
  pub protocol : String
  pub port_ranges : List Text
  pub rtcp_policy : String
  pub drain_strategy : String
  pub session_affinity : Bool
  pub session_timeout : ℤ

pub data PreRunError : Type 0 where
  no_target : PreRunError
  invalid_protocol : PreRunError
  port_required : PreRunError
  port_ranges_required : PreRunError
  invalid_port_ranges : RangeError → PreRunError
  invalid_rtcp_policy : PreRunError
  invalid_affinity_strategy : PreRunError
  invalid_drain_strategy : PreRunError

pub one_of : List String → String → Bool
one_of [] s = false
one_of (v ∷ vs) s = str_eq s v || one_of vs s

abbrev pub valid_policies : List String
valid_policies = "adjacent" ∷ "separate-range" ∷ "auto" ∷ []

abbrev pub valid_strategies : List String
valid_strategies = "5-tuple" ∷ "source-ip" ∷ "source-port" ∷ []

abbrev pub valid_drain_strategies : List String
valid_drain_strategies = "graceful" ∷ "immediate" ∷ "timeout" ∷ []

pub is_port : ℤ → Bool
is_port (pos n) = ltb 0 n && leb n 65535
is_port (negsuc n) = false

pub webrtc_ranges : String → List Text → RangeError ⊎ List PortRange → PreRunError ⊎ List PortRange
unfolding one_of
webrtc_ranges policy [] _ = inl port_ranges_required
webrtc_ranges policy (s ∷ ss) (inl e) = inl (invalid_port_ranges e)
webrtc_ranges policy (s ∷ ss) (inr rs) =
    if one_of valid_policies policy then inr rs else inl invalid_rtcp_policy

-- The tests of the protocol, with the port ranges of a WebRTC service.
pub protocol_ranges : DeployUdpCommand → PreRunError ⊎ List PortRange
unfolding is_port webrtc_ranges parse_port_ranges
protocol_ranges cmd =
    if str_eq cmd.protocol "udp"
    then (if is_port cmd.port then inr [] else inl port_required)
    else if str_eq cmd.protocol "webrtc"
    then webrtc_ranges cmd.rtcp_policy cmd.port_ranges (parse_port_ranges cmd.port_ranges)
    else inl invalid_protocol

pub session_config : DeployUdpCommand → SessionConfig
session_config cmd = record {
  idle_timeout = cmd.session_timeout;
  stickiness_enabled = cmd.session_affinity;
  stickiness_strategy = cmd.affinity_strategy;
  max_sessions = 10000;
  persistence_enabled = true;
}

-- The port ranges and the session configuration of the arguments of the call
abbrev pub Args : Type 0
Args = List PortRange × SessionConfig

pub strategies : DeployUdpCommand → PreRunError ⊎ List PortRange → PreRunError ⊎ Args
unfolding one_of session_config
strategies cmd (inl e) = inl e
strategies cmd (inr rs) =
    if not (one_of valid_strategies cmd.affinity_strategy)
    then inl invalid_affinity_strategy
    else if not (one_of valid_drain_strategies cmd.drain_strategy)
    then inl invalid_drain_strategy
    else inr (rs, session_config cmd)

pub when_targets : DeployUdpCommand → List String → PreRunError ⊎ Args
unfolding protocol_ranges strategies
when_targets cmd [] = inl no_target
when_targets cmd (url ∷ urls) = strategies cmd (protocol_ranges cmd)

pub pre_run : DeployUdpCommand → PreRunError ⊎ Args
unfolding when_targets
pre_run cmd = when_targets cmd cmd.target_urls
