-- ===== src/DeployUdp/Tests.antt =====
-- A command for a media server with two ranges of ports, and commands that are refused.
use kamal_proxy.Base.{◌≡◌, refl, true, inl, inr, [], ◌∷◌}
use kamal_proxy.Base.Int.{pos}
use kamal_proxy.Rollout.{codes}
use kamal_proxy.DeployUdp.{
  DeployUdpCommand, split, digits, number, atoi, port_range, parse_bounds, parse_parts, add_range,
  parse_port_ranges, out_of_bounds, not_less, range_format, start_port, one_of, webrtc_ranges,
  protocol_ranges, strategies, session_config, when_targets, pre_run, invalid_rtcp_policy,
}
use kamal_proxy.DeployUdp.Accepted.{Accepts, pre_run-Accepts}

abbrev media : DeployUdpCommand
media = record {
  target_urls = "media:8000" ∷ [];
  port = pos 0;
  affinity_strategy = "5-tuple";
  protocol = "webrtc";
  port_ranges = codes "10000-20000" ∷ codes "20001-30000" ∷ [];
  rtcp_policy = "adjacent";
  drain_strategy = "graceful";
  session_affinity = true;
  session_timeout = pos 300;
}

ranges :
    parse_port_ranges media.port_ranges
    ≡ inr (
        record { start = 10000; end_port = 20000; step = 2 }
        ∷ record { start = 20001; end_port = 30000; step = 2 }
        ∷ [])
unfolding parse_port_ranges split parse_parts atoi number digits parse_bounds port_range add_range
ranges = refl

refused :
    (parse_port_ranges (codes "0-10" ∷ []) ≡ inl out_of_bounds)
    × (parse_port_ranges (codes "10-10" ∷ []) ≡ inl not_less)
    × (parse_port_ranges (codes "1-2-3" ∷ []) ≡ inl range_format)
    × (parse_port_ranges (codes "-5-10" ∷ []) ≡ inl range_format)
    × (parse_port_ranges (codes "x-10" ∷ []) ≡ inl start_port)
unfolding parse_port_ranges split parse_parts atoi number digits parse_bounds port_range add_range
refused = (refl, refl, refl, refl, refl)

accepted :
    pre_run media
    ≡ inr (
      record { start = 10000; end_port = 20000; step = 2 }
          ∷ record { start = 20001; end_port = 30000; step = 2 }
          ∷ [],
      session_config media,
    )
unfolding pre_run when_targets strategies protocol_ranges webrtc_ranges one_of parse_port_ranges
    split parse_parts atoi number digits parse_bounds port_range add_range
accepted = refl

policy_refused : pre_run (record media { rtcp_policy = "both" }) ≡ inl invalid_rtcp_policy
unfolding pre_run when_targets strategies protocol_ranges webrtc_ranges one_of parse_port_ranges
    split parse_parts atoi number digits parse_bounds port_range add_range
policy_refused = refl

pre_run-Accepts_example : Accepts media (pre_run media)
pre_run-Accepts_example = pre_run-Accepts media
