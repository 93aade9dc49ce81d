-- ===== src/PortAllocator/Tests.antt =====
-- The loop over the ports of a range, on small ranges.
use kamal_proxy.Base.{◌≡◌, refl, ◌==◌, none, some}
use kamal_proxy.PortAllocator.{first_port, search}

every_second : search (λ p. p == 14) 10 20 2 ≡ some 14
unfolding first_port
every_second = refl

skipped : search (λ p. p == 13) 10 20 2 ≡ none
unfolding first_port
skipped = refl

bound_excluded : search (λ p. p == 20) 10 20 1 ≡ none
unfolding first_port
bound_excluded = refl
