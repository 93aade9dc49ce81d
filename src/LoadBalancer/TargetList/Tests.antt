-- ===== src/LoadBalancer/TargetList/Tests.antt =====
-- A balancer of one target whose first health check succeeds.
use kamal_proxy.Base.{◌≡◌, refl, true, false, [], ◌∷◌, some, ◌==◌, if◌then◌else◌}
use kamal_proxy.Target.{new_target, health_check_completed, begin_health_checks, stop_health_checks}
use kamal_proxy.LoadBalancer.{new_load_balancer, health_checked}
use kamal_proxy.LoadBalancer.TargetList.{Heap, new_target_list, wait_until_healthy}

abbrev pub no_targets : Heap
no_targets = record { targets = λ a. new_target "" false false; next_address = 0 }

abbrev pub one_heap : Heap
one_heap = record {
  targets = λ b. if 0 == b then new_target "web:80" false false else new_target "" false false;
  next_address = 1;
}

pub new_target_list_one :
    new_target_list ("web:80" ∷ []) [] false no_targets ≡ some (0 ∷ [], one_heap)
unfolding new_target_list
new_target_list_one = refl

pub wait_until_healthy_one :
    (wait_until_healthy
      ((0, true) ∷ [])
      (new_load_balancer (0 ∷ []) 0 false one_heap.targets)).lb.marked_healthy
    ≡ true
unfolding wait_until_healthy new_target new_load_balancer health_checked health_check_completed
    begin_health_checks stop_health_checks
wait_until_healthy_one = refl
