-- ===== src/Router/Created.antt =====
-- The balancer that a deployment creates.
use std.Path.{subst}
use kamal_proxy.Base.{ℕ, String, ◌≡◌, Bool, true, List, arith, inl, inr, Option-cases, Bool-cases}
use kamal_proxy.ServiceMap.{ServiceOptions}
use kamal_proxy.LoadBalancer.{LoadBalancer, new_load_balancer}
use kamal_proxy.LoadBalancer.TargetList.{new_target_list, wait_until_healthy}
use kamal_proxy.LoadBalancer.TargetList.Watched.{AllWatched, new-AllWatched, wait-AllWatched}
use kamal_proxy.Service.{TargetOptions, Result, ok}
use kamal_proxy.Router.{Router, ticker_panics, put_targets, create_load_balancer}

ok_injective : (x y : LoadBalancer) → Path (Result LoadBalancer) (ok x) (ok y) → x ≡ y
ok_injective x y e = ground arith

module _ {F : Type 0} where
  -- A balancer that is created became healthy, and the health checks of several targets go on.
  pub create_load_balancer_lem :
      (names readers : List String) (options : ServiceOptions) (target_options : TargetOptions)
      (checks : List (ℕ × Bool)) (r : Router F) (lb : LoadBalancer)
      → let x = create_load_balancer names readers options target_options checks r in
        x.1 ≡ ok lb
        → (lb.marked_healthy ≡ true) × AllWatched (record { lb = lb; targets = x.0.heap.targets })
  unfolding create_load_balancer put_targets
  create_load_balancer_lem names readers options target_options checks r lb e =
      elim (Option-cases (new_target_list names readers target_options.forward_headers r.heap)) [
        | inl f ↦ absurd (ground (arith, rw (f, create_load_balancer) at e))
        | inr ((ts, heap), f) ↦
            let made =
              new_load_balancer ts options.writer_affinity_timeout
                options.read_targets_accept_websockets heap.targets in
            let w = wait_until_healthy checks made in
            let watched = wait-AllWatched checks made (
              new-AllWatched ts options.writer_affinity_timeout
                options.read_targets_accept_websockets heap.targets) in
            elim (Bool-cases (ticker_panics target_options.health_check_config.interval ts)) [
              | inl p ↦ absurd (ground (arith, rw (f, p, create_load_balancer) at e))
              | inr p ↦ elim (Bool-cases w.lb.marked_healthy) [
                | inr g ↦ absurd (ground (arith, rw (f, p, g, create_load_balancer) at e))
                | inl g ↦
                    let same : w.lb ≡ lb =
                      ok_injective w.lb lb (rw (f, p, g, create_load_balancer) at e) in
                    rw (f, p, g, create_load_balancer)
                      (
                        subst (λ x. x.marked_healthy ≡ true) same g,
                        subst (λ x. AllWatched (record { lb = x; targets = w.targets })) same
                            watched,
                      )
              ]
            ]
      ]
