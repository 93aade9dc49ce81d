-- ===== src/PortAllocator/Config.antt =====
-- Allocating a pair leaves the configuration alone.
use kamal_proxy.Base.{ℕ, String, ◌≡◌, arith}
use kamal_proxy.PortAllocator.{
  PortAllocator, Os, install_pair, bind_found, allocate_adjacent_pair, allocate_separate_ranges,
  allocate_rtp_rtcp_pair,
}
use kamal_proxy.PortAllocator.Grants.{allocate_rtp_rtcp_pair_cases}

module _ (service : String) (target now : ℕ) (pa : PortAllocator) where
  adjacent-config :
      (os : Os) → (allocate_adjacent_pair os service target now pa).0.config ≡ pa.config
  unfolding allocate_adjacent_pair install_pair
  adjacent-config os = ground arith

  separate-config :
      (os : Os) → (allocate_separate_ranges os service target now pa).0.config ≡ pa.config
  unfolding allocate_separate_ranges bind_found install_pair
  separate-config os = ground arith

  pub allocate_rtp_rtcp_pair-config :
      (os os' : Os) → (allocate_rtp_rtcp_pair os os' service target now pa).0.config ≡ pa.config
  allocate_rtp_rtcp_pair-config os os' =
      allocate_rtp_rtcp_pair_cases os os' service target now pa (λ r. r.0.config ≡ pa.config)
        (adjacent-config os) (separate-config os) (separate-config os')
