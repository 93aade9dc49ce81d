-- ===== src/Router/Calls/Whole.antt =====
-- Every call keeps an active balancer in each service, so removing a service never panics.
pub mod Deploys
use kamal_proxy.Base.Int.{ℤ}
use kamal_proxy.Base.{
  ℕ, String, ◌≡◌, refl, ◌∙◌, ◌≢◌, ◌⊎◌, inl, inr, Bool, true, false, List, [], ◌∷◌, Option, none,
  some, arith, Option-cases, Bool-cases,
}
use kamal_proxy.Base.Assoc.{Assoc, get, put, remove, string_eq}
use kamal_proxy.ServiceMap.{Service, ServiceMap, Sorting, ServiceOptions, check_availability}
use kamal_proxy.LoadBalancer.{LoadBalancer, new_load_balancer}
use kamal_proxy.LoadBalancer.TargetList.{new_target_list, wait_until_healthy}
use kamal_proxy.Rollout.{Float}
use kamal_proxy.PauseController.{panic, ok as went, stop, resume}
use kamal_proxy.PauseController
use kamal_proxy.Service.{
  service_not_found, TargetOptions, Files, Result, ok, err, Outcome, done, failed, panicked,
  non_positive_interval, Body, Object, TargetSlot, active_slot, rollout_slot, update_load_balancer,
  stop_rollout, set_rollout_split, normalize, update_options, dispose_service, new_service,
}
use kamal_proxy.Service.Balancers.{
  result_cases, update_options-Kept, set_rollout_split-active, stop_rollout-active,
  update_load_balancer-active, update_load_balancer-rollout, dispose_service-some,
}
use kamal_proxy.Service.Draining.{Targets}
use kamal_proxy.Router.{
  Router, Setting, ticker_panics, service_for_name, put_body, put_targets, save_state_snapshot,
  create_load_balancer, install_object, install_locked, install_load_balancer, dispose_replaced,
  create_or_update_service, put_object, deploy_service, set_rollout_targets,
}
use kamal_proxy.Router.Whole.{
  HasActive, Whole, IsWhole, Whole-body, Whole-put, Whole-set, Whole-unset,
  service_for_name-HasActive, service_for_name-some,
}
use kamal_proxy.Router.Calls.{
  Call, deploy, rollout_deploy, rollout_set, rollout_stop, remove_call, resume_call, pause_call,
  stop_call, perform, on_service, call_on, set_rollout_split_of, stop_rollout_of, remove_object,
  remove_service, put_controller, drain_targets_of, pause_service, stop_service, resume_service,
  of_result,
}

abbrev pub NoPanic : Outcome (Unit {0}) → Type 0
NoPanic outcome = outcome ≢ panicked

abbrev pub AnyOutcome : Outcome (Unit {0}) → Type 0
AnyOutcome outcome = Unit

of_result-NoPanic : (x : Result (Unit {0})) → NoPanic (of_result x)
unfolding of_result
of_result-NoPanic (ok u) e = ground arith
of_result-NoPanic (err c) e = ground arith

pub pause_cases :
    (x : PauseController.Result PauseController.World)
    → (x ≡ panic) ⊎ ((w : PauseController.World) × (x ≡ went w))
pause_cases panic = inl refl
pause_cases (went w) = inr (w, refl)

ticker_panics-zero : (interval : ℕ) (ts : List ℕ) → ticker_panics interval ts ≡ true → interval ≡ 0
unfolding ticker_panics
ticker_panics-zero interval [] e = absurd (ground arith)
ticker_panics-zero interval (a ∷ ts) e = ground arith

module _ {F : Type 0} where
  -- The services and their bodies are the same.
  abbrev pub Same : Router F → Router F → Type 0
  Same r r' = (r'.services ≡ r.services) × (r'.bodies ≡ r.bodies)

  pub Same-IsWhole : (r r' : Router F) → Same r r' → IsWhole r → IsWhole r'
  Same-IsWhole r r' (e, f) w n = rw (e, f) (w n)

  pub save_state_snapshot-Same :
      (writable : Bool) (r : Router F) → Same r (save_state_snapshot writable r)
  unfolding save_state_snapshot
  save_state_snapshot-Same true r = (refl, refl)
  save_state_snapshot-Same false r = (refl, refl)

  pub dispose_replaced-Same :
      (meanwhile : Targets → Targets) (replaced : Option LoadBalancer) (r : Router F)
      → Same r (dispose_replaced meanwhile replaced r)
  unfolding dispose_replaced put_targets
  dispose_replaced-Same meanwhile none r = (refl, refl)
  dispose_replaced-Same meanwhile (some lb) r = (refl, refl)

  pub create_load_balancer-ticker :
      (names readers : List String) (options : ServiceOptions) (target_options : TargetOptions)
      (checks : List (ℕ × Bool)) (r : Router F)
      → (create_load_balancer names readers options target_options checks r).1
        ≡ err non_positive_interval
      → target_options.health_check_config.interval ≡ 0
  unfolding create_load_balancer
  create_load_balancer-ticker names readers options target_options checks r h =
      elim (Option-cases (new_target_list names readers target_options.forward_headers r.heap)) [
        | inl e ↦ absurd (ground (arith, rw (e, create_load_balancer) at h))
        | inr ((ts, heap), e) ↦
            let w = wait_until_healthy checks (
              new_load_balancer ts options.writer_affinity_timeout
                options.read_targets_accept_websockets heap.targets) in
            elim (Bool-cases (ticker_panics target_options.health_check_config.interval ts)) [
              | inl p ↦ ticker_panics-zero target_options.health_check_config.interval ts p
              | inr p ↦ elim (Bool-cases w.lb.marked_healthy) [
                | inl f ↦ absurd (ground (arith, rw (e, p, f, create_load_balancer) at h))
                | inr f ↦ absurd (ground (arith, rw (e, p, f, create_load_balancer) at h))
              ]
            ]
      ]

  pub create_load_balancer-Same :
      (names readers : List String) (options : ServiceOptions) (target_options : TargetOptions)
      (checks : List (ℕ × Bool)) (r : Router F)
      → Same r (create_load_balancer names readers options target_options checks r).0
  unfolding create_load_balancer put_targets
  create_load_balancer-Same names readers options target_options checks r =
      elim (Option-cases (new_target_list names readers target_options.forward_headers r.heap)) [
        | inl e ↦ rw (e, create_load_balancer) (refl, refl)
        | inr ((ts, heap), e) ↦
            let w = wait_until_healthy checks (
              new_load_balancer ts options.writer_affinity_timeout
                options.read_targets_accept_websockets heap.targets) in
            elim (Bool-cases (ticker_panics target_options.health_check_config.interval ts)) [
              | inl p ↦ rw (e, p, create_load_balancer) (refl, refl)
              | inr p ↦ elim (Bool-cases w.lb.marked_healthy) [
                | inl f ↦ rw (e, p, f, create_load_balancer) (refl, refl)
                | inr f ↦ rw (e, p, f, create_load_balancer) (refl, refl)
              ]
            ]
      ]

  pub saved-IsWhole :
      (writable : Bool) (r : Router F) → IsWhole r → IsWhole (save_state_snapshot writable r)
  saved-IsWhole writable r =
      Same-IsWhole r (save_state_snapshot writable r) (save_state_snapshot-Same writable r)

  -- The router is whole after the call, and the answer is as it should be.
  abbrev pub Good : (Outcome (Unit {0}) → Type 0) → Router F × Outcome (Unit {0}) → Type 0
  Good Q (r, outcome) = IsWhole r × Q outcome

  module _ (setting : Setting) (name : String) (r : Router F) (w : IsWhole r) where
    on_service-Good :
        (Q : Outcome (Unit {0}) → Type 0)
        (call : Object F → Router F → Router F × Outcome (Unit {0}))
        → Q (failed service_not_found)
        → ((o : Object F) → HasActive o.body → Good Q (call o r))
        → Good Q (on_service setting name call r)
    unfolding on_service call_on
    on_service-Good Q call q h = elim (Option-cases (service_for_name name r)) [
      | inl e ↦ rw e (saved-IsWhole setting.writable r w, q)
      | inr (o, e) ↦
          let (w', q') = h o (service_for_name-HasActive name r o w e) in
          rw e (saved-IsWhole setting.writable (call o r).0 w', q')
    ]

    put_body-IsWhole : (b : Body F) → HasActive b → IsWhole (put_body name b r)
    unfolding put_body
    put_body-IsWhole b a = Whole-body name b r.services.services r.bodies w a

    pub rollout_set-Good :
        ⦃f : Float F⦄ (percentage : ℤ) (allowlist : List String)
        → Good NoPanic (set_rollout_split_of setting name percentage allowlist r)
    unfolding set_rollout_split_of
    rollout_set-Good percentage allowlist =
        on_service-Good NoPanic _ (λ e. ground arith)
          λ o (lb, a).
            let b = (set_rollout_split percentage allowlist o.body).0 in
            (
              put_body-IsWhole b (lb, set_rollout_split-active percentage allowlist o.body ∙ a),
              of_result-NoPanic (set_rollout_split percentage allowlist o.body).1,
            )

    pub rollout_stop-Good : Good NoPanic (stop_rollout_of setting name r)
    unfolding stop_rollout_of
    rollout_stop-Good =
        on_service-Good NoPanic _ (λ e. ground arith)
          λ o (lb, a). (
            put_body-IsWhole (stop_rollout o.body) (lb, stop_rollout-active o.body ∙ a),
            λ e. ground arith,
          )

    pub remove-Good : Good NoPanic (remove_service setting name r)
    unfolding remove_service remove_object put_targets
    remove-Good =
        on_service-Good NoPanic _ (λ e. ground arith)
          λ o (lb, a).
            let (targets, e) = dispose_service-some o.body lb r.heap.targets a in
            rw e (Whole-unset setting.sorting name r.services r.bodies w, λ e. ground arith)

    pub pause-Good : (limit : ℕ) → Good NoPanic (pause_service setting name limit r)
    unfolding pause_service put_controller drain_targets_of put_body put_targets
    pause-Good limit =
        on_service-Good NoPanic _ (λ e. ground arith)
          λ o a. (Whole-body name _ r.services.services r.bodies w a, λ e. ground arith)

    pub stop-Good : (message : String) → Good AnyOutcome (stop_service setting name message r)
    unfolding stop_service put_controller drain_targets_of put_body put_targets
    stop-Good message = on_service-Good AnyOutcome _ tt λ o a.
        elim (pause_cases
          (stop message (record { controller = o.body.pause_controller; heap = r.channels }))) [
            | inl e ↦ rw e (w, tt)
            | inr (v, e) ↦ rw e (
              Whole-body name (record o.body { pause_controller = v.controller })
                  r.services.services r.bodies w a,
              tt,
            )
          ]

    pub resume-Good : Good AnyOutcome (resume_service setting name r)
    unfolding resume_service put_controller put_body
    resume-Good = on_service-Good AnyOutcome _ tt λ o a.
        elim (pause_cases
          (resume (record { controller = o.body.pause_controller; heap = r.channels }))) [
            | inl e ↦ rw e (w, tt)
            | inr (v, e) ↦ rw e (
              Whole-body name (record o.body { pause_controller = v.controller })
                  r.services.services r.bodies w a,
              tt,
            )
          ]
