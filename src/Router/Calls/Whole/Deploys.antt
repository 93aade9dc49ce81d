-- ===== src/Router/Calls/Whole/Deploys.antt =====
-- The two calls that deploy keep an active balancer in each service, and so do all calls.
use kamal_proxy.Base.{ℕ, String, ◌≡◌, refl, ◌∙◌, inl, inr, Bool, List, some, arith, Option-cases}
use kamal_proxy.Base.Assoc.{string_eq}
use kamal_proxy.ServiceMap.{ServiceOptions, check_availability}
use kamal_proxy.LoadBalancer.{LoadBalancer}
use kamal_proxy.Rollout.{Float}
use kamal_proxy.Service.{
  TargetOptions, Files, Result, ok, err, panicked, Object, TargetSlot, active_slot, rollout_slot,
  update_load_balancer, normalize, update_options,
}
use kamal_proxy.Service.Balancers.{
  result_cases, raise-panicked, update_options-Kept, update_load_balancer-active,
  update_load_balancer-rollout,
}
use kamal_proxy.Router.{
  Router, Setting, service_for_name, create_load_balancer, install_object, install_locked,
  install_load_balancer, dispose_replaced, create_or_update_service, put_object, deploy_service,
  set_rollout_targets, save_state_snapshot,
}
use kamal_proxy.Router.Whole.{HasActive, IsWhole, Whole-put, Whole-set, service_for_name-HasActive}
use kamal_proxy.Router.Calls.{
  Call, deploy, rollout_deploy, rollout_set, rollout_stop, remove_call, resume_call, pause_call,
  stop_call, perform,
}
use kamal_proxy.Router.Calls.Whole.{
  NoPanic, Good, Same-IsWhole, saved-IsWhole, create_load_balancer-ticker,
  create_load_balancer-Same, dispose_replaced-Same, rollout_set-Good, rollout_stop-Good,
  remove-Good, pause-Good, stop-Good, resume-Good,
}

-- The calls that end a pause, and those whose health checks have no positive interval.
abbrev pub CanPanic : {F : Type 0} → Router F → Call → Type 0
CanPanic r (stop_call name message) = Unit
CanPanic r (resume_call name) = Unit
CanPanic r (deploy name names readers options target_options checks) =
    target_options.health_check_config.interval ≡ 0
CanPanic {F = F} r (rollout_deploy name names readers checks) =
    (o : Object F) × (service_for_name name r ≡ some o)
    × (o.body.target_options.health_check_config.interval ≡ 0)
CanPanic r _ = ⊥

module _ {F : Type 0} where
  -- The service has an active balancer, or is given one.
  abbrev Ready : TargetSlot → Result (Object F) → Type 0
  Ready active_slot x = Unit
  Ready rollout_slot (ok o) = HasActive o.body
  Ready rollout_slot (err e) = Unit

  module _ (setting : Setting) (name : String) (lb : LoadBalancer) where
    install_object-IsWhole :
        (slot : TargetSlot) (o : Object F) (r : Router F)
        → IsWhole r
        → Ready slot (ok o)
        → IsWhole (install_object setting.sorting lb slot o r).0
    unfolding install_object
    install_object-IsWhole active_slot o r w a =
        Whole-set setting.sorting o.service (update_load_balancer lb active_slot o.body).0
          r.services r.bodies w (lb, update_load_balancer-active lb o.body)
    install_object-IsWhole rollout_slot o r w (lb', a) =
        Whole-set setting.sorting o.service (update_load_balancer lb rollout_slot o.body).0
          r.services r.bodies w (lb', update_load_balancer-rollout lb o.body ∙ a)

    install_locked-IsWhole :
        (slot : TargetSlot) (options : ServiceOptions)
        (get_service : Router F → Router F × Result (Object F)) (r : Router F)
        → IsWhole r
        → IsWhole (get_service r).0
        → Ready slot (get_service r).1
        → IsWhole (install_locked setting.sorting name slot lb options get_service r).0
    unfolding install_locked
    install_locked-IsWhole slot options get_service r w w' a =
        elim (Option-cases (check_availability name options r.services)) [
          | inr (_, e) ↦ rw (e, install_locked) w
          | inl e ↦ elim (result_cases (get_service r).1) [
            | inr (_, f) ↦ rw (e, f, install_locked) w'
            | inl (o, f) ↦
                rw (e, f, install_locked)
                  (install_object-IsWhole slot o (get_service r).0 w' (rw f at a))
          ]
        ]

    install_load_balancer-Good :
        (slot : TargetSlot) (options : ServiceOptions)
        (get_service : Router F → Router F × Result (Object F)) (r : Router F)
        → IsWhole r
        → IsWhole (get_service r).0
        → Ready slot (get_service r).1
        → Good NoPanic (install_load_balancer setting name slot lb options get_service r)
    unfolding install_load_balancer
    install_load_balancer-Good slot options get_service r w w' a =
        let x = install_locked setting.sorting name slot lb options get_service r in
        let saved = save_state_snapshot setting.writable x.0 in
        let h =
          saved-IsWhole setting.writable x.0
            (install_locked-IsWhole slot options get_service r w w' a) in
        elim (result_cases x.1) [
          | inr (_, e) ↦ rw (e, install_load_balancer) (h, λ e. ground arith)
          | inl (replaced, e) ↦
              rw (e, install_load_balancer)
                (
                  Same-IsWhole saved (dispose_replaced setting.meanwhile replaced saved)
                      (dispose_replaced-Same setting.meanwhile replaced saved) h,
                  λ e. ground arith,
                )
        ]

  create_or_update-IsWhole :
      (files : Files) (name : String) (options : ServiceOptions) (target_options : TargetOptions)
      (r : Router F)
      → IsWhole r
      → IsWhole (create_or_update_service files name options target_options r).0
  unfolding create_or_update_service put_object
  create_or_update-IsWhole files name options target_options r w =
      elim (Option-cases (service_for_name name r)) [
        | inl e ↦ rw (e, create_or_update_service) w
        | inr (o, e) ↦
            let (lb, a) = service_for_name-HasActive name r o w e in
            let o' = (update_options files options target_options o).0 in
            let (_, _, _, kept) = update_options-Kept files options target_options o in
            rw (e, create_or_update_service)
              (Whole-put o'.service.name o'.service o'.body r.services.services r.bodies w
                (lb, kept.active ∙ a))
      ]

  deploy-Good :
      (setting : Setting) (name : String) (names readers : List String) (options : ServiceOptions)
      (target_options : TargetOptions) (checks : List (ℕ × Bool)) (r : Router F)
      → IsWhole r
      → Good
          (λ outcome. outcome ≡ panicked → target_options.health_check_config.interval ≡ 0)
          (deploy_service setting name names readers options target_options checks r)
  unfolding deploy_service
  deploy-Good setting name names readers options target_options checks r w =
      let options' = normalize options in
      let x = create_load_balancer names readers options' target_options checks r in
      let w' =
        Same-IsWhole r x.0
          (create_load_balancer-Same names readers options' target_options checks r) w in
      elim (result_cases x.1) [
        | inr (failure, e) ↦
            rw (e, deploy_service)
              (
                w',
                λ h.
                    create_load_balancer-ticker names readers options' target_options checks r
                      (rw (← raise-panicked failure h) e),
              )
        | inl (lb, e) ↦
            let (whole, none_panics) =
              install_load_balancer-Good setting name lb active_slot options'
                (create_or_update_service setting.files name options' target_options) x.0 w'
                (create_or_update-IsWhole setting.files name options' target_options x.0 w') tt in
            rw (e, deploy_service) (whole, λ h. absurd (none_panics h))
      ]

  rollout_deploy-Good :
      (setting : Setting) (name : String) (names readers : List String) (checks : List (ℕ × Bool))
      (r : Router F)
      → IsWhole r
      → Good
          (λ outcome. outcome ≡ panicked → CanPanic r (rollout_deploy name names readers checks))
          (set_rollout_targets setting name names readers checks r)
  unfolding set_rollout_targets
  rollout_deploy-Good setting name names readers checks r w =
      elim (Option-cases (service_for_name name r)) [
        | inl e ↦ rw (e, set_rollout_targets) (w, λ e. ground arith)
        | inr (o, e) ↦
            let x =
              create_load_balancer names readers o.service.options o.body.target_options checks r in
            let w' =
              Same-IsWhole r x.0
                (create_load_balancer-Same names readers o.service.options o.body.target_options
                  checks r)
                w in
            elim (result_cases x.1) [
              | inr (failure, f) ↦
                  rw (e, f, set_rollout_targets)
                    (
                      w',
                      λ h. (
                        o,
                        refl,
                        create_load_balancer-ticker names readers o.service.options
                            o.body.target_options checks r (rw (← raise-panicked failure h) f),
                      ),
                    )
              | inl (lb, f) ↦
                  let (whole, none_panics) =
                    install_load_balancer-Good setting name lb rollout_slot o.service.options
                      (λ r''. (r'', ok o)) x.0 w' w' (service_for_name-HasActive name r o w e) in
                  rw (e, f, set_rollout_targets) (whole, λ h. absurd (none_panics h))
            ]
      ]

  -- A router whose services all have an active balancer is so after each call, whatever it answers; and
  -- no call can panic but those that end a pause and those that start health checks with an interval
  -- of zero.
  pub perform-IsWhole :
      ⦃f : Float F⦄ (setting : Setting) (call : Call) (r : Router F)
      → IsWhole r
      → let (r', outcome) = perform setting call r in
        IsWhole r' × (outcome ≡ panicked → CanPanic r call)
  unfolding perform
  perform-IsWhole setting (deploy name names readers options target_options checks) r w =
      deploy-Good setting name names readers options target_options checks r w
  perform-IsWhole setting (rollout_deploy name names readers checks) r w =
      rollout_deploy-Good setting name names readers checks r w
  perform-IsWhole setting (rollout_set name percentage allowlist) r w =
      let (w', n) = rollout_set-Good setting name r w percentage allowlist in
      (w', λ e. absurd (n e))
  perform-IsWhole setting (rollout_stop name) r w =
      let (w', n) = rollout_stop-Good setting name r w in (w', λ e. absurd (n e))
  perform-IsWhole setting (remove_call name) r w =
      let (w', n) = remove-Good setting name r w in (w', λ e. absurd (n e))
  perform-IsWhole setting (resume_call name) r w = (((resume-Good setting name r w).0), λ e. tt)
  perform-IsWhole setting (pause_call name limit) r w =
      let (w', n) = pause-Good setting name r w limit in (w', λ e. absurd (n e))
  perform-IsWhole setting (stop_call name message) r w =
      ((stop-Good setting name r w message).0, λ e. tt)
