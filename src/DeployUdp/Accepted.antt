-- ===== src/DeployUdp/Accepted.antt =====
-- What holds of a command that preRun accepts.
use kamal_proxy.Base.{
  ℕ, String, suc, ap, ◌≡◌, Bool-cases, ◌<◌, ◌≤◌, refl, All, true, ◌⊎◌, inl, inr, List, [], ◌∷◌,
  Option, none, some, arith, length,
}
use text.Mathlib.Text.{◌==◌ as str_eq}
use kamal_proxy.Paths.{Text}
use kamal_proxy.PortAllocator.{PortRange}
use kamal_proxy.DeployUdp.{
  RangeError, PreRunError, DeployUdpCommand, Args, valid_policies, valid_strategies,
  valid_drain_strategies, one_of, is_port, webrtc_ranges, protocol_ranges, strategies,
  session_config, when_targets, pre_run, port_range, parse_bounds, parse_parts, add_range,
  parse_port_ranges, split, atoi,
}

abbrev pub IsRange : PortRange → Type 0
IsRange r = (0 < r.start) × (r.start < r.end_port) × (r.end_port ≤ 65535) × (r.step ≡ 2)

abbrev RangeOk : RangeError ⊎ PortRange → Type 0
RangeOk (inl e) = Unit
RangeOk (inr r) = IsRange r

-- Each text gives one range.
abbrev pub RangesOk : ℕ → RangeError ⊎ List PortRange → Type 0
RangesOk n (inl e) = Unit
RangesOk n (inr rs) = (length rs ≡ n) × (All IsRange rs)

port_range-RangeOk : (start end_port : ℕ) → RangeOk (port_range start end_port)
unfolding port_range
port_range-RangeOk start end_port = ground arith

parse_bounds-RangeOk : (a b : Option ℕ) → RangeOk (parse_bounds a b)
unfolding parse_bounds
parse_bounds-RangeOk none b = tt
parse_bounds-RangeOk (some start) none = tt
parse_bounds-RangeOk (some start) (some end_port) = port_range-RangeOk start end_port

parse_parts-RangeOk : (ps : List Text) → RangeOk (parse_parts ps)
unfolding parse_parts
parse_parts-RangeOk [] = tt
parse_parts-RangeOk (a ∷ []) = tt
parse_parts-RangeOk (a ∷ b ∷ []) = parse_bounds-RangeOk (atoi a) (atoi b)
parse_parts-RangeOk (a ∷ b ∷ c ∷ ps) = tt

add_range-RangesOk :
    (n : ℕ) (r : RangeError ⊎ PortRange) (rs : RangeError ⊎ List PortRange)
    → RangeOk r
    → RangesOk n rs
    → RangesOk (suc n) (add_range r rs)
unfolding add_range
add_range-RangesOk n (inl e) rs k ks = tt
add_range-RangesOk n (inr r) (inl e) k ks = tt
add_range-RangesOk n (inr r) (inr rs) k (l, ks) = (ap suc l, (k, ks))

-- Where the port ranges are accepted, each text has given one range, from a port to a greater one,
-- both between 1 and 65535, with step 2.
pub parse_port_ranges-RangesOk : (ss : List Text) → RangesOk (length ss) (parse_port_ranges ss)
unfolding parse_port_ranges
parse_port_ranges-RangesOk [] = (refl, tt)
parse_port_ranges-RangesOk (s ∷ ss) =
    add_range-RangesOk (length ss) (parse_parts (split b'-' s)) (parse_port_ranges ss)
      (parse_parts-RangeOk (split b'-' s)) (parse_port_ranges-RangesOk ss)

-- The tests of a plain UDP service.
abbrev pub UdpOk : DeployUdpCommand → List PortRange → Type 0
UdpOk cmd rs = (str_eq cmd.protocol "udp" ≡ true) × (is_port cmd.port ≡ true) × (rs ≡ [])

-- The tests of a WebRTC service: each flag for port ranges has given a range.
abbrev pub WebrtcOk : DeployUdpCommand → List PortRange → Type 0
WebrtcOk cmd rs =
    (str_eq cmd.protocol "webrtc" ≡ true)
    × (one_of valid_policies cmd.rtcp_policy ≡ true)
    × (0 < length rs)
    × (length rs ≡ length cmd.port_ranges)
    × (All IsRange rs)

abbrev pub ProtocolOk : DeployUdpCommand → PreRunError ⊎ List PortRange → Type 0
ProtocolOk cmd (inl e) = Unit
ProtocolOk cmd (inr rs) = (UdpOk cmd rs) ⊎ (WebrtcOk cmd rs)

abbrev WebrtcRangesOk : String → List Text → PreRunError ⊎ List PortRange → Type 0
WebrtcRangesOk policy ss (inl e) = Unit
WebrtcRangesOk policy ss (inr rs) =
    (one_of valid_policies policy ≡ true)
    × (0 < length rs)
    × (length rs ≡ length ss)
    × (All IsRange rs)

webrtc_ranges_lem :
    (policy : String) (ss : List Text) (r : RangeError ⊎ List PortRange)
    → RangesOk (length ss) r
    → WebrtcRangesOk policy ss (webrtc_ranges policy ss r)
unfolding webrtc_ranges
webrtc_ranges_lem policy [] r k = tt
webrtc_ranges_lem policy (s ∷ ss) (inl e) k = tt
webrtc_ranges_lem policy (s ∷ ss) (inr rs) (l, k) =
    elim (Bool-cases (one_of valid_policies policy)) [
      | inl e ↦ rw (e) (e, omega arith, l, k)
      | inr e ↦ rw (e) tt
    ]

with_protocol :
    (cmd : DeployUdpCommand) (r : PreRunError ⊎ List PortRange)
    → str_eq cmd.protocol "webrtc" ≡ true
    → WebrtcRangesOk cmd.rtcp_policy cmd.port_ranges r
    → ProtocolOk cmd r
with_protocol cmd (inl e) p k = tt
with_protocol cmd (inr rs) p (o, n, l, k) = inr (p, o, n, l, k)

protocol_ranges-ProtocolOk : (cmd : DeployUdpCommand) → ProtocolOk cmd (protocol_ranges cmd)
unfolding protocol_ranges
protocol_ranges-ProtocolOk cmd = elim (Bool-cases (str_eq cmd.protocol "udp")) [
  | inl u ↦ elim (Bool-cases (is_port cmd.port)) [
    | inl e ↦ rw (protocol_ranges, u, e) (inl (u, e, refl))
    | inr e ↦ rw (protocol_ranges, u, e) tt
  ]
  | inr u ↦ elim (Bool-cases (str_eq cmd.protocol "webrtc")) [
    | inl e ↦
        rw (protocol_ranges, u, e)
          (with_protocol cmd
            (webrtc_ranges cmd.rtcp_policy cmd.port_ranges (parse_port_ranges cmd.port_ranges)) e
            (webrtc_ranges_lem cmd.rtcp_policy cmd.port_ranges (parse_port_ranges cmd.port_ranges)
              (parse_port_ranges-RangesOk cmd.port_ranges)))
    | inr e ↦ rw (protocol_ranges, u, e) tt
  ]
]

-- What preRun has tested of a command that it accepts.
abbrev pub Accepts : DeployUdpCommand → PreRunError ⊎ Args → Type 0
Accepts cmd (inl e) = Unit
Accepts cmd (inr (rs, config)) =
    (one_of valid_strategies cmd.affinity_strategy ≡ true)
    × (one_of valid_drain_strategies cmd.drain_strategy ≡ true)
    × (config ≡ session_config cmd)
    × (0 < length cmd.target_urls)
    × ((UdpOk cmd rs) ⊎ (WebrtcOk cmd rs))

strategies-Accepts :
    (cmd : DeployUdpCommand) (r : PreRunError ⊎ List PortRange)
    → 0 < length cmd.target_urls
    → ProtocolOk cmd r
    → Accepts cmd (strategies cmd r)
unfolding strategies
strategies-Accepts cmd (inl e) n k = tt
strategies-Accepts cmd (inr rs) n k =
    elim (Bool-cases (one_of valid_strategies cmd.affinity_strategy)) [
      | inr a ↦ rw (a) tt
      | inl a ↦ elim (Bool-cases (one_of valid_drain_strategies cmd.drain_strategy)) [
        | inr d ↦ rw (a, d) tt
        | inl d ↦ rw (a, d) (a, d, refl, n, k)
      ]
    ]

when_targets-Accepts :
    (cmd : DeployUdpCommand) (urls : List String)
    → urls ≡ cmd.target_urls
    → Accepts cmd (when_targets cmd urls)
unfolding when_targets
when_targets-Accepts cmd [] e = tt
when_targets-Accepts cmd (url ∷ urls) e =
    strategies-Accepts cmd (protocol_ranges cmd) (rw⁻¹ e (omega arith))
      (protocol_ranges-ProtocolOk cmd)

-- A command that is accepted has a target and valid strategies, and is either a plain UDP service at
-- a port between 1 and 65535, or a WebRTC service with a valid policy for whose ports each flag gives
-- one range, from a port to a greater one between 1 and 65535.
pub pre_run-Accepts : (cmd : DeployUdpCommand) → Accepts cmd (pre_run cmd)
unfolding pre_run
pre_run-Accepts cmd = when_targets-Accepts cmd cmd.target_urls refl
