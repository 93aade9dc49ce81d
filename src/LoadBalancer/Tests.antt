-- ===== src/LoadBalancer/Tests.antt =====
-- Runs of the load balancer at concrete inputs.
use kamal_proxy.Base.{ℕ, ◌<◌, ◌≡◌, refl, ◌⊎◌, ◌↔◌, true, false, [], ◌∷◌, Elem}
use kamal_proxy.Target.{Target, new_target, healthy}
use kamal_proxy.LoadBalancer.{LoadBalancer, World, target, next_target, update_healthy_targets}
use kamal_proxy.LoadBalancer.Rotation.{after_calls, each_target-Turn}
use kamal_proxy.LoadBalancer.Healthy.{AllHealthy, update_healthy_targets_exact}

abbrev two_writers : LoadBalancer
two_writers = record {
  all = 0 ∷ 1 ∷ 2 ∷ [];
  writers = 0 ∷ 1 ∷ [];
  readers = 2 ∷ [];
  writer_affinity_timeout = 3;
  read_targets_accept_websockets = false;
  writer_index = 0;
  reader_index = 0;
  multi_target = true;
  has_readers = true;
  marked_healthy = true;
}

-- The list of writers has become shorter than the index.
abbrev shrunk : LoadBalancer
shrunk = record two_writers { writer_index = 5 }

each_target-Turn_example :
    (k : ℕ) × (k < 2) × ((next_target false (after_calls false k shrunk)).1 ≡ target 0)
each_target-Turn_example = each_target-Turn false shrunk 0 (1 ∷ []) 5 0 0 (refl, refl) refl

abbrev heap : ℕ → Target
heap t = record (new_target "a:80" false false) { state = healthy }

abbrev world : World
world = record { lb = two_writers; targets = heap }

update_healthy_targets_exact_example :
    let w' = update_healthy_targets world in
    ((t : ℕ)
      → Elem t w'.lb.writers
        ↔ (Elem t (0 ∷ 1 ∷ 2 ∷ []) × ((heap t).state ≡ healthy) × ((heap t).read_only ≡ false)))
    × ((t : ℕ)
        → Elem t w'.lb.readers
          ↔ (Elem t (0 ∷ 1 ∷ 2 ∷ []) × ((heap t).state ≡ healthy) × ((heap t).read_only ≡ true)))
    × ((w'.lb.marked_healthy ≡ true) ↔ ((true ≡ true) ⊎ AllHealthy heap (0 ∷ 1 ∷ 2 ∷ [])))
update_healthy_targets_exact_example = update_healthy_targets_exact world
