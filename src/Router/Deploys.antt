-- ===== src/Router/Deploys.antt =====
-- What a deployment changes, and what it leaves alone.
use kamal_proxy.Base.{
  ℕ, String, ◌≡◌, refl, ◌≢◌, ◌∙◌, ap, inl, inr, Bool, true, List, Option, none, some, arith,
  Option-cases,
}
use kamal_proxy.Base.Assoc.{get, put, string_eq, get-put_same, get-put_other}
use kamal_proxy.ServiceMap.{Service, ServiceOptions, set_service, check_availability}
use kamal_proxy.ServiceMap.Keys.{IsNamed}
use kamal_proxy.ServiceMap.Alike.{AlikeOption, set_service-Alike}
use std.Path.{subst}
use kamal_proxy.LoadBalancer.{LoadBalancer}
use kamal_proxy.Service.{
  TargetOptions, Files, Result, ok, done, Body, Object, active_slot, normalize, update_options,
}
use kamal_proxy.Service.Balancers.{
  CanMeet, update_options-Kept, update_options-ok, new_service-Made, update_load_balancer_lem,
}
use kamal_proxy.Router.{
  Router, Setting, service_for_name, create_load_balancer, install_object, install_locked,
  install_load_balancer, create_or_update_service, put_object, deploy_service, save_state_snapshot,
}
use kamal_proxy.Router.Created.{create_load_balancer_lem}
use kamal_proxy.Router.Whole.{service_for_name-some}
use kamal_proxy.Router.Calls.Whole.{
  create_load_balancer-Same, dispose_replaced-Same, save_state_snapshot-Same,
}

whole_service :
    (s : Service) (name : String) (options : ServiceOptions)
    → s.name ≡ name
    → s.options ≡ options
    → s ≡ record { name = name; options = options }
whole_service s name options e f = rw (← e, ← f) refl

module _ {F : Type 0} where
  -- What the service had before, where there was one.
  abbrev pub KeepsRest : Option (Object F) → Body F → Type 0
  KeepsRest none b = Unit
  KeepsRest (some o) b =
      (b.pause_controller ≡ o.body.pause_controller) × (b.rollout ≡ o.body.rollout)

  -- The services after a deployment: the new one is stored, and others are changed in two TLS options
  -- at most.
  abbrev pub Stored : String → ServiceOptions → Router F → Router F → Type 0
  Stored name options r r' =
      AlikeOption (some (record { name = name; options = options })) (get name r'.services.services)
      × ((n : String)
          → n ≢ name
          → AlikeOption (get n r.services.services) (get n r'.services.services))

  abbrev pub Deployed :
      String → LoadBalancer → ServiceOptions → TargetOptions → Router F → Router F → Type 0
  Deployed name lb options target_options r r' =
      Stored name options r r'
      × (b : Body F) × (get name r'.bodies ≡ some b)
      × (b.active ≡ some lb)
      × (b.target_options ≡ target_options)
      × KeepsRest (service_for_name name r) b
      × ((n : String) → n ≢ name → get n r'.bodies ≡ get n r.bodies)

  KeepsRest-active :
      (x : Option (Object F)) (b : Body F) (lb : LoadBalancer)
      → KeepsRest x b
      → KeepsRest x (record b { active = some lb })
  KeepsRest-active none b lb k = tt
  KeepsRest-active (some o) b lb k = k

  -- The service that is deployed, before its balancer is set.
  abbrev Got :
      String → ServiceOptions → TargetOptions → Router F → Router F × Result (Object F) → Type 0
  Got name options target_options r x =
      (o : Object F) × (x.1 ≡ ok o)
      × (o.service ≡ record { name = name; options = options })
      × ((n : String) → n ≢ name → get n x.0.services.services ≡ get n r.services.services)
      × (o.body.target_options ≡ target_options)
      × KeepsRest (service_for_name name r) o.body
      × ((n : String) → n ≢ name → get n x.0.bodies ≡ get n r.bodies)

  get-put_apart :
      (k n : String) (b : Body F) (r : Router F) → n ≢ k → get n (put k b r.bodies) ≡ get n r.bodies
  get-put_apart k n b r apart = get-put_other k n b r.bodies (ground (arith, string_eq.beq_iff k n))

  get-put_apart_service :
      (k n : String) (s : Service) (r : Router F)
      → n ≢ k
      → get n (put k s r.services.services) ≡ get n r.services.services
  get-put_apart_service k n s r apart =
      get-put_other k n s r.services.services (ground (arith, string_eq.beq_iff k n))

  create_or_update-Got :
      (files : Files) (name : String) (options : ServiceOptions) (target_options : TargetOptions)
      (r : Router F)
      → CanMeet files options
      → IsNamed r.services.services
      → Got name options target_options r
          (create_or_update_service files name options target_options r)
  unfolding create_or_update_service put_object
  create_or_update-Got files name options target_options r can named =
      elim (Option-cases (service_for_name name r)) [
        | inl e ↦
            let (o, f, g, h) = new_service-Made {F = F} files name options target_options can in
            rw (e, create_or_update_service) (o, f, g, (λ n apart. refl), h, tt, λ n apart. refl)
        | inr (o, e) ↦
            let o' = (update_options files options target_options o).0 in
            let (n, p, t, kept) = update_options-Kept files options target_options o in
            let known = n ∙ named name o.service (service_for_name-some name r o e).0 in
            rw (e, create_or_update_service, update_options-ok files options target_options o can)
              (
                o',
                refl,
                whole_service o'.service name options known p,
                λ k apart. get-put_apart_service o'.service.name k o'.service r (rw known apart),
                t,
                (kept.controller, kept.rollout),
                λ k apart. get-put_apart o'.service.name k o'.body r (rw known apart),
              )
      ]

  module _ (setting : Setting) (name : String) (lb : LoadBalancer) (options : ServiceOptions)
      (target_options : TargetOptions) (get_service : Router F → Router F × Result (Object F))
      (r : Router F) where
    own_entry :
        (o : Object F) (r' : Router F)
        → o.service.name ≡ name
        → o.service ≡ record { name = name; options = options }
        → get name (put o.service.name o.service r'.services.services)
          ≡ some (record { name = name; options = options })
    own_entry o r' e known =
        ap (λ k. get name (put k o.service r'.services.services)) e
        ∙ get-put_same name o.service r'.services.services
        ∙ ap some known

    stored :
        (o : Object F) (r' : Router F)
        → o.service.name ≡ name
        → o.service ≡ record { name = name; options = options }
        → ((n : String) → n ≢ name → get n r'.services.services ≡ get n r.services.services)
        → Stored name options r
            (record r' { services = set_service setting.sorting o.service r'.services })
    stored o r' e known others = (
      subst
          (λ x.
            AlikeOption x (get name (set_service setting.sorting o.service r'.services).services))
          (own_entry o r' e known) (set_service-Alike name setting.sorting o.service r'.services),
      λ n apart.
          subst
            (λ x.
              AlikeOption x (get n (set_service setting.sorting o.service r'.services).services))
            (get-put_apart_service o.service.name n o.service r' (rw e apart) ∙ others n apart)
            (set_service-Alike n setting.sorting o.service r'.services),
    )

    install_object-Deployed :
        (o : Object F)
        → o.service ≡ record { name = name; options = options }
        → ((n : String)
            → n ≢ name
            → get n (get_service r).0.services.services ≡ get n r.services.services)
        → o.body.target_options ≡ target_options
        → KeepsRest (service_for_name name r) o.body
        → ((n : String) → n ≢ name → get n (get_service r).0.bodies ≡ get n r.bodies)
        → Deployed name lb options target_options r
            (install_object setting.sorting lb active_slot o (get_service r).0).0
    unfolding install_object
    install_object-Deployed o known others t k rest =
        let b = record o.body { active = some lb } in
        let e : o.service.name ≡ name = ap (λ (s : Service). s.name) known in
        let r' = (get_service r).0 in
        rw (update_load_balancer_lem lb o.body) (
          stored o r' e known others,
          b,
          rw e (get-put_same name b r'.bodies),
          refl,
          t,
          KeepsRest-active (service_for_name name r) o.body lb k,
          λ n apart. get-put_apart o.service.name n b r' (rw e apart) ∙ rest n apart,
        )

    install_locked_lem :
        (o : Object F)
        → (get_service r).1 ≡ ok o
        → check_availability name options r.services ≡ none
        → let (r', replaced) = install_object setting.sorting lb active_slot o (get_service r).0 in
          install_locked setting.sorting name active_slot lb options get_service r
          ≡ (r', ok replaced)
    unfolding install_locked
    install_locked_lem o e free = rw (free, e, install_locked) refl

    install_load_balancer-Deployed :
        Got name options target_options r (get_service r)
        → check_availability name options r.services ≡ none
        → let x = install_load_balancer setting name active_slot lb options get_service r in
          (x.1 ≡ done tt) × Deployed name lb options target_options r x.0
    unfolding install_load_balancer
    install_load_balancer-Deployed (o, e, n, others, t, k, rest) free =
        let (r', replaced) = install_object setting.sorting lb active_slot o (get_service r).0 in
        let saved = save_state_snapshot setting.writable r' in
        rw
          (
            install_locked_lem o e free,
            install_load_balancer,
            install_locked_lem o e free,
            (dispose_replaced-Same setting.meanwhile replaced saved).1,
            (save_state_snapshot-Same setting.writable r').1,
            (dispose_replaced-Same setting.meanwhile replaced saved).0,
            (save_state_snapshot-Same setting.writable r').0,
          )
          (refl, install_object-Deployed o n others t k rest)

  pub service_for_name-Same :
      (name : String) (r r' : Router F)
      → r'.services ≡ r.services
      → r'.bodies ≡ r.bodies
      → service_for_name name r' ≡ service_for_name name r
  unfolding service_for_name
  service_for_name-Same name r r' e f = rw (e, f) refl

  -- A deployment succeeds where its balancer became healthy, its certificates and error pages can be
  -- loaded, and no other service has one of its hosts and prefixes. Then the service has the new
  -- balancer, which is healthy, and the new target options; a service that was there before keeps its
  -- pause controller and its rollout, and every other service its state.
  pub deploy_service-Deployed :
      (setting : Setting) (name : String) (names readers : List String) (options : ServiceOptions)
      (target_options : TargetOptions) (checks : List (ℕ × Bool)) (r : Router F) (lb : LoadBalancer)
      → (create_load_balancer names readers (normalize options) target_options checks r).1 ≡ ok lb
      → CanMeet setting.files (normalize options)
      → IsNamed r.services.services
      → check_availability name (normalize options) r.services ≡ none
      → let x = deploy_service setting name names readers options target_options checks r in
        (x.1 ≡ done tt)
        × (lb.marked_healthy ≡ true)
        × Deployed name lb (normalize options) target_options r x.0
  unfolding deploy_service
  deploy_service-Deployed setting name names readers options target_options checks r lb e can named
        free =
      let options' = normalize options in
      let x = create_load_balancer names readers options' target_options checks r in
      let (m, b) = create_load_balancer-Same names readers options' target_options checks r in
      let (reply, ((own, others), body, f, g, h, k, rest)) =
        install_load_balancer-Deployed setting name lb options' target_options
          (create_or_update_service setting.files name options' target_options) x.0
          (create_or_update-Got setting.files name options' target_options x.0 can (rw m named))
          (rw m free) in
      let k' : KeepsRest (service_for_name name r) body =
        rw (service_for_name-Same name r x.0 m b) at k in
      rw (e, deploy_service)
        (
          reply,
          (create_load_balancer_lem names readers options' target_options checks r lb e).0,
          (
            (own, λ n apart. rw m at others n apart),
            body,
            f,
            g,
            h,
            k',
            λ n apart. rest n apart ∙ ap (get n) b,
          ),
        )
