-- ===== src/PortAllocator/Release/Tests.antt =====
-- One service with a pair of ports, allocated and given back.
use kamal_proxy.Base.{ℕ, ◌≡◌, refl, false, not, none, some, arith, ◌==◌}
use kamal_proxy.Base.Assoc.{get, put, nat_eq}
use kamal_proxy.PortAllocator.{
  PortConfig, PortAllocation, PortAllocator, Os, new_port_allocator, first_port,
  allocate_rtp_rtcp_pair, allocate_adjacent_pair, install_pair, pair_available, is_port_available,
}
use kamal_proxy.PortAllocator.Invariant.{IsValid, new_port_allocator-IsValid}
use kamal_proxy.PortAllocator.Grants.{
  PairOutcome, allocate_rtp_rtcp_pair-IsValid, allocate_rtp_rtcp_pair-PairOutcome,
}
use kamal_proxy.PortAllocator.Release.{cleanup_expired_allocations, mark_draining}
use kamal_proxy.PortAllocator.Release.Freed.{mark_draining-IsValid}
use kamal_proxy.PortAllocator.Release.Cleanup.{cleanup_expired_allocations_pair}

abbrev config : PortConfig
config = record {
  rtp_port_range = record { start = 10000; end_port = 10010; step = 0 };
  rtcp_port_range = record { start = 20000; end_port = 20010; step = 1 };
  allocation_ttl = 60;
  rtcp_policy = "auto";
  cleanup_interval = 5;
}

abbrev blank : ℕ → PortAllocation
blank a = record {
  service_name = "";
  rtp_port = 0;
  rtcp_port = 0;
  allocated_at = 0;
  expires_at = 0;
  target = 0;
  protocol = "";
  in_use = false;
}

-- Another process holds port 10001.
abbrev os : Os
os = record { probe = λ p. not (p == 10001); bind = λ p. not (p == 10001) }

abbrev empty : PortAllocator
empty = new_port_allocator 300 30 config blank

abbrev one_pair : PortAllocator
one_pair = (allocate_rtp_rtcp_pair os os "calls" 7 100 empty).0

empty-IsValid : IsValid empty
empty-IsValid = new_port_allocator-IsValid 300 30 config blank

pair_ports :
    ((one_pair.cell 0).rtp_port ≡ 10002)
    × (get 10002 one_pair.allocated ≡ some 0)
    × (get 10003 one_pair.allocated ≡ some 0)
unfolding allocate_rtp_rtcp_pair allocate_adjacent_pair pair_available is_port_available first_port
    new_port_allocator get put
pair_ports = (refl, refl, refl)

one_pair-IsValid : IsValid one_pair
unfolding new_port_allocator
one_pair-IsValid =
    allocate_rtp_rtcp_pair-IsValid os os "calls" 7 100 empty empty-IsValid (omega arith)
      (omega arith)

allocate_rtp_rtcp_pair-PairOutcome_example :
    PairOutcome "calls" 7 100 empty one_pair (allocate_rtp_rtcp_pair os os "calls" 7 100 empty).1
unfolding new_port_allocator
allocate_rtp_rtcp_pair-PairOutcome_example =
    allocate_rtp_rtcp_pair-PairOutcome os os "calls" 7 100 empty empty-IsValid (omega arith)
      (omega arith)

abbrev draining_pair : PortAllocator
draining_pair = mark_draining 0 one_pair

cleanup_expired_allocations_pair_example : cleanup_expired_allocations 161 draining_pair ≡ none
unfolding mark_draining allocate_rtp_rtcp_pair allocate_adjacent_pair install_pair pair_available
    is_port_available first_port new_port_allocator get put
cleanup_expired_allocations_pair_example =
    cleanup_expired_allocations_pair 161 10002 0 draining_pair
      (mark_draining-IsValid 0 one_pair one_pair-IsValid) refl (omega arith) (omega arith) refl
      (omega arith)
