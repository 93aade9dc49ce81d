-- ===== src/Router/Calls/Sound.antt =====
-- The calls keep the services apart: no two of them are bound to one host and prefix, and each
-- stands under its name.
use kamal_proxy.Base.{ℕ, String, ◌≡◌, refl, ◌∙◌, ap, inl, inr, Bool, List, none, Option-cases}
use kamal_proxy.Base.Assoc.{string_eq}
use kamal_proxy.ServiceMap.{
  Sorting, Service, ServiceMap, ServiceOptions, set_service, check_availability,
}
use kamal_proxy.ServiceMap.Availability.{IsCoherent}
use kamal_proxy.ServiceMap.Coherence.{set_service-IsCoherent, remove_service-IsCoherent}
use kamal_proxy.ServiceMap.Keys.{
  IsNamed, set_service-IsNamed, remove_service-IsNamed, set_service-put,
}
use kamal_proxy.PauseController.{stop, resume}
use kamal_proxy.LoadBalancer.{LoadBalancer}
use kamal_proxy.Rollout.{Float}
use kamal_proxy.Service.{
  TargetOptions, Files, Result, ok, Outcome, Object, TargetSlot, active_slot, rollout_slot,
  normalize, update_options, dispose_service,
}
use kamal_proxy.Service.Balancers.{
  CanMeet, result_cases, update_options-Kept, update_options-ok, new_service-Made,
}
use kamal_proxy.Router.{
  Router, Setting, service_for_name, put_body, put_targets, create_load_balancer, install_object,
  install_locked, install_load_balancer, create_or_update_service, put_object, deploy_service,
  set_rollout_targets, save_state_snapshot,
}
use kamal_proxy.Router.Whole.{service_for_name-some}
use kamal_proxy.Router.Calls.{
  Call, deploy, rollout_deploy, rollout_set, rollout_stop, remove_call, resume_call, pause_call,
  stop_call, perform, on_service, call_on, set_rollout_split_of, stop_rollout_of, remove_object,
  remove_service, put_controller, drain_targets_of, pause_service, stop_service, resume_service,
}
use kamal_proxy.Router.Calls.Whole.{
  pause_cases, create_load_balancer-Same, dispose_replaced-Same, save_state_snapshot-Same,
}

abbrev pub IsSound : ServiceMap → Type 0
IsSound m = IsCoherent m × IsNamed m.services

-- Where the certificates and the error pages of a deployment can be loaded.
abbrev pub Loads : Setting → Call → Type 0
Loads setting (deploy name names readers options target_options checks) =
    CanMeet setting.files (normalize options)
Loads setting _ = Unit

module _ {F : Type 0} where
  -- The service asks for what was checked, and setting it is setting it in the map as it was.
  abbrev Provides : String → ServiceOptions → Router F → Router F → Object F → Type 0
  Provides name options r r₁ o =
      (o.service.name ≡ name)
      × (o.service.options ≡ options)
      × ((sorting : Sorting)
          → set_service sorting o.service r₁.services ≡ set_service sorting o.service r.services)

  abbrev Gives : String → ServiceOptions → Router F → Router F × Result (Object F) → Type 0
  Gives name options r x = (o : Object F) × (x.1 ≡ ok o) × Provides name options r x.0 o

  create_or_update-Gives :
      (files : Files) (name : String) (options : ServiceOptions) (target_options : TargetOptions)
      (r : Router F)
      → CanMeet files options
      → IsNamed r.services.services
      → Gives name options r (create_or_update_service files name options target_options r)
  unfolding create_or_update_service put_object
  create_or_update-Gives files name options target_options r can named =
      elim (Option-cases (service_for_name name r)) [
        | inl e ↦
            let (o, f, g, _) = new_service-Made {F = F} files name options target_options can in
            rw (e, create_or_update_service)
              (
                o,
                f,
                (
                  ap (λ (s : Service). s.name) g,
                  ap (λ (s : Service). s.options) g,
                  λ sorting. refl,
                ),
              )
        | inr (o, e) ↦
            let o' = (update_options files options target_options o).0 in
            let (n, p, _, _) = update_options-Kept files options target_options o in
            let known = named name o.service (service_for_name-some name r o e).0 in
            rw (e, create_or_update_service, update_options-ok files options target_options o can)
              (o', refl, (n ∙ known, p, λ sorting. set_service-put sorting o'.service r.services))
      ]

  module _ (setting : Setting) (name : String) (r : Router F) (s : IsSound r.services) where
    set-IsSound :
        (o : Object F) (r₁ : Router F) (options : ServiceOptions)
        → Provides name options r r₁ o
        → check_availability name options r.services ≡ none
        → IsSound (set_service setting.sorting o.service r₁.services)
    set-IsSound o r₁ options (n, p, same) e = rw (same setting.sorting) (
      set_service-IsCoherent setting.sorting o.service r.services s.0 (rw (n, p) e),
      set_service-IsNamed setting.sorting r.services s.1 o.service,
    )

    install_locked-IsSound :
        (slot : TargetSlot) (lb : LoadBalancer) (options : ServiceOptions)
        (get_service : Router F → Router F × Result (Object F))
        → Gives name options r (get_service r)
        → IsSound (install_locked setting.sorting name slot lb options get_service r).0.services
    unfolding install_locked install_object
    install_locked-IsSound slot lb options get_service (o, e, given) =
        elim (Option-cases (check_availability name options r.services)) [
          | inr (_, f) ↦ rw (f, install_locked) s
          | inl f ↦ rw (f, e, install_locked) (set-IsSound o (get_service r).0 options given f)
        ]

    install_load_balancer-IsSound :
        (slot : TargetSlot) (lb : LoadBalancer) (options : ServiceOptions)
        (get_service : Router F → Router F × Result (Object F))
        → Gives name options r (get_service r)
        → IsSound (install_load_balancer setting name slot lb options get_service r).0.services
    unfolding install_load_balancer
    install_load_balancer-IsSound slot lb options get_service given =
        let x = install_locked setting.sorting name slot lb options get_service r in
        let saved = save_state_snapshot setting.writable x.0 in
        let h : IsSound saved.services =
          rw (save_state_snapshot-Same setting.writable x.0).0
            (install_locked-IsSound slot lb options get_service given) in
        elim (result_cases x.1) [
          | inr (_, e) ↦ rw (e, install_load_balancer) h
          | inl (replaced, e) ↦
              rw
                (
                  e,
                  install_load_balancer,
                  (dispose_replaced-Same setting.meanwhile replaced saved).0,
                )
                h
        ]

    -- A call that leaves the services sound.
    on_service-IsSound :
        (call : Object F → Router F → Router F × Outcome (Unit {0}))
        → ((o : Object F) → IsSound (call o r).0.services)
        → IsSound (on_service setting name call r).0.services
    unfolding on_service call_on
    on_service-IsSound call h = elim (Option-cases (service_for_name name r)) [
      | inl e ↦ rw (e, (save_state_snapshot-Same setting.writable r).0) s
      | inr (o, e) ↦ rw (e, (save_state_snapshot-Same setting.writable (call o r).0).0) (h o)
    ]

    remove-IsSound : IsSound (remove_service setting name r).0.services
    unfolding remove_service remove_object put_targets
    remove-IsSound = on_service-IsSound _ λ o.
        elim (Option-cases (dispose_service o.body r.heap.targets)) [
          | inl e ↦ rw e s
          | inr (_, e) ↦ rw e (
            remove_service-IsCoherent setting.sorting name r.services s.0,
            remove_service-IsNamed setting.sorting r.services s.1 name,
          )
        ]

    stop-IsSound : (message : String) → IsSound (stop_service setting name message r).0.services
    unfolding stop_service put_controller drain_targets_of put_body put_targets
    stop-IsSound message = on_service-IsSound _ λ o.
        elim (pause_cases
          (stop message (record { controller = o.body.pause_controller; heap = r.channels }))) [
            | inl e ↦ rw e s
            | inr (_, e) ↦ rw e s
          ]

    resume-IsSound : IsSound (resume_service setting name r).0.services
    unfolding resume_service put_controller put_body
    resume-IsSound = on_service-IsSound _ λ o.
        elim (pause_cases
          (resume (record { controller = o.body.pause_controller; heap = r.channels }))) [
            | inl e ↦ rw e s
            | inr (_, e) ↦ rw e s
          ]

  deploy-IsSound :
      (setting : Setting) (name : String) (names readers : List String) (options : ServiceOptions)
      (target_options : TargetOptions) (checks : List (ℕ × Bool)) (r : Router F)
      → CanMeet setting.files (normalize options)
      → IsSound r.services
      → IsSound
          (deploy_service setting name names readers options target_options checks r).0.services
  unfolding deploy_service
  deploy-IsSound setting name names readers options target_options checks r can s =
      let options' = normalize options in
      let x = create_load_balancer names readers options' target_options checks r in
      let s' : IsSound x.0.services =
        rw (create_load_balancer-Same names readers options' target_options checks r).0 s in
      elim (result_cases x.1) [
        | inr (_, e) ↦ rw (e, deploy_service) s'
        | inl (lb, e) ↦
            rw (e, deploy_service)
              (install_load_balancer-IsSound setting name x.0 s' active_slot lb options'
                (create_or_update_service setting.files name options' target_options)
                (create_or_update-Gives setting.files name options' target_options x.0 can s'.1))
      ]

  rollout_deploy-IsSound :
      (setting : Setting) (name : String) (names readers : List String) (checks : List (ℕ × Bool))
      (r : Router F)
      → IsSound r.services
      → IsSound (set_rollout_targets setting name names readers checks r).0.services
  unfolding set_rollout_targets
  rollout_deploy-IsSound setting name names readers checks r s =
      elim (Option-cases (service_for_name name r)) [
        | inl e ↦ rw (e, set_rollout_targets) s
        | inr (o, e) ↦
            let x =
              create_load_balancer names readers o.service.options o.body.target_options checks r in
            let s' : IsSound x.0.services =
              rw
                (create_load_balancer-Same names readers o.service.options o.body.target_options
                  checks r).0
                s in
            let known = s.1 name o.service (service_for_name-some name r o e).0 in
            elim (result_cases x.1) [
              | inr (_, f) ↦ rw (e, f, set_rollout_targets) s'
              | inl (lb, f) ↦
                  rw (e, f, set_rollout_targets)
                    (install_load_balancer-IsSound setting name x.0 s' rollout_slot lb
                      o.service.options (λ r''. (r'', ok o))
                      (o, refl, (known, refl, λ sorting. refl)))
            ]
      ]

  -- Each call keeps the services sound, if it does not deploy options whose certificates or error
  -- pages cannot be loaded: the bindings are those that the services ask for, no two services are
  -- bound to one host and prefix, and each service stands under its name.
  pub perform-IsSound :
      ⦃f : Float F⦄ (setting : Setting) (call : Call) (r : Router F)
      → Loads setting call
      → IsSound r.services
      → IsSound (perform setting call r).0.services
  unfolding perform set_rollout_split_of stop_rollout_of pause_service put_controller
      drain_targets_of put_body put_targets
  perform-IsSound setting (deploy name names readers options target_options checks) r can s =
      deploy-IsSound setting name names readers options target_options checks r can s
  perform-IsSound setting (rollout_deploy name names readers checks) r can s =
      rollout_deploy-IsSound setting name names readers checks r s
  perform-IsSound setting (rollout_set name percentage allowlist) r can s =
      on_service-IsSound setting name r s _ λ o. s
  perform-IsSound setting (rollout_stop name) r can s = on_service-IsSound setting name r s _ λ o. s
  perform-IsSound setting (remove_call name) r can s = remove-IsSound setting name r s
  perform-IsSound setting (resume_call name) r can s = resume-IsSound setting name r s
  perform-IsSound setting (pause_call name limit) r can s =
      on_service-IsSound setting name r s _ λ o. s
  perform-IsSound setting (stop_call name message) r can s = stop-IsSound setting name r s message
