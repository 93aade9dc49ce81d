-- ===== src/Router/Failures.antt =====
-- What a deployment that fails leaves behind.
use kamal_proxy.Base.{
  ℕ, String, ◌≡◌, refl, ◌∙◌, ap, Bool, true, false, List, [], ◌∷◌, none, some, arith, Elem,
}
use kamal_proxy.Base.Assoc.{Assoc, get, put, string_eq, get-put_same}
use kamal_proxy.Paths.{Text}
use kamal_proxy.ServiceMap.{Service, ServiceMap, ServiceOptions, PathBinding, check_availability}
use kamal_proxy.ServiceMap.Bindings.{bindings_at, Asks}
use kamal_proxy.ServiceMap.Availability.{IsCoherent}
use kamal_proxy.ServiceMap.Keys.{IsNamed}
use kamal_proxy.LoadBalancer.{LoadBalancer}
use kamal_proxy.LoadBalancer.TargetList.Watched.{AllWatched}
use kamal_proxy.Service.{
  host_in_use, TargetOptions, Error, Result, ok, err, failed, Object, active_slot, normalize,
  update_options,
}
use kamal_proxy.Service.Balancers.{update_options-Kept}
use kamal_proxy.Router.{
  Router, Setting, service_for_name, create_load_balancer, install_locked, install_load_balancer,
  create_or_update_service, put_object, deploy_service, save_state_snapshot,
}
use kamal_proxy.Router.Created.{create_load_balancer_lem}
use kamal_proxy.Router.Whole.{service_for_name-some}
use kamal_proxy.Router.Deploys.{service_for_name-Same}
use kamal_proxy.Router.Calls.Whole.{create_load_balancer-Same, save_state_snapshot-Same}

get-Asks :
    (n : String) (s : Service) (ss : Assoc String Service) (h : Text) (b : PathBinding)
    → get n ss ≡ some s
    → s.name ≡ b.service
    → Elem h s.options.hosts
    → Elem b.path_prefix s.options.path_prefixes
    → Asks ss h b
unfolding get
get-Asks n s [] h b e f i j = absurd (ground arith)
get-Asks n s ((k, t) ∷ ss) h b e f i j = ground (arith, get-Asks n s ss h b)

renamed :
    {name : String} {options : ServiceOptions} (s : Service)
    → s.name ≡ name
    → s.options ≡ options
    → some s ≡ some (record { name = name; options = options })
renamed s e f = rw (← e, ← f) refl

module _ {F : Type 0} where
  saved-heap : (writable : Bool) (r : Router F) → (save_state_snapshot writable r).heap ≡ r.heap
  unfolding save_state_snapshot
  saved-heap true r = refl
  saved-heap false r = refl

  module _ (setting : Setting) (name : String) (lb : LoadBalancer) (options : ServiceOptions)
      (get_service : Router F → Router F × Result (Object F)) (r : Router F) where
    install_load_balancer-conflict :
        (other : String)
        → check_availability name options r.services ≡ some other
        → install_load_balancer setting name active_slot lb options get_service r
          ≡ (save_state_snapshot setting.writable r, failed host_in_use)
    unfolding install_load_balancer install_locked
    install_load_balancer-conflict other e = rw (e, install_load_balancer, install_locked, e) refl

    install_load_balancer-failed :
        (e : Error)
        → check_availability name options r.services ≡ none
        → (get_service r).1 ≡ err e
        → install_load_balancer setting name active_slot lb options get_service r
          ≡ (save_state_snapshot setting.writable (get_service r).0, failed e)
    unfolding install_load_balancer install_locked
    install_load_balancer-failed e free f =
        rw (free, f, install_load_balancer, install_locked, free, f) refl

  module _ (setting : Setting) (name : String) (names readers : List String)
      (options : ServiceOptions) (target_options : TargetOptions) (checks : List (ℕ × Bool))
      (r : Router F) (lb : LoadBalancer) where
    created : Router F × Result LoadBalancer
    created = create_load_balancer names readers (normalize options) target_options checks r

    -- A deployment whose hosts and prefixes another service has is refused and changes no service; but
    -- the targets of its balancer are left as they became healthy, and where there are several of them,
    -- the health checks of each go on.
    pub deploy_service_conflict :
        (other : String)
        → (create_load_balancer names readers (normalize options) target_options checks r).1 ≡ ok lb
        → check_availability name (normalize options) r.services ≡ some other
        → let (r', reply) =
            deploy_service setting name names readers options target_options checks r in
          (reply ≡ failed host_in_use)
          × (r'.services ≡ r.services)
          × (r'.bodies ≡ r.bodies)
          × (r'.heap
              ≡ (create_load_balancer names readers
                  (normalize options)
                  target_options
                  checks
                  r).0.heap)
          × AllWatched (record { lb = lb; targets = r'.heap.targets })
    unfolding deploy_service created
    deploy_service_conflict other e taken =
        let (m, b) =
          create_load_balancer-Same names readers (normalize options) target_options checks r in
        let (m', b') = save_state_snapshot-Same setting.writable created.0 in
        rw
          (
            e,
            deploy_service,
            install_load_balancer-conflict setting name lb (normalize options)
                (create_or_update_service setting.files name (normalize options) target_options)
                created.0 other (rw m taken),
          )
          (
            refl,
            m' ∙ m,
            b' ∙ b,
            saved-heap setting.writable created.0,
            rw (saved-heap setting.writable created.0) (
                (create_load_balancer_lem names readers (normalize options) target_options checks r
                  lb e).1),
          )

    create_or_update-failed :
        (o : Object F) (e : Error) (r₁ : Router F)
        → service_for_name name r₁ ≡ some o
        → (update_options setting.files (normalize options) target_options o).1 ≡ err e
        → create_or_update_service setting.files name (normalize options) target_options r₁ ≡ (
          put_object (update_options setting.files (normalize options) target_options o).0 r₁,
          err e,
        )
    unfolding create_or_update_service
    create_or_update-failed o e r₁ f g = rw (f, create_or_update_service, g) refl

    failing_deployment :
        (o : Object F) (e : Error)
        → created.1 ≡ ok lb
        → check_availability name (normalize options) r.services ≡ none
        → service_for_name name r ≡ some o
        → (update_options setting.files (normalize options) target_options o).1 ≡ err e
        → deploy_service setting name names readers options target_options checks r ≡ (
          save_state_snapshot setting.writable (
              put_object
                (update_options setting.files (normalize options) target_options o).0
                created.0),
          failed e,
        )
    unfolding deploy_service created
    failing_deployment o e made free found failing =
        let (m, b) =
          create_load_balancer-Same names readers (normalize options) target_options checks r in
        let get_service =
          create_or_update_service setting.files name (normalize options) target_options in
        let f =
          create_or_update-failed o e created.0 (service_for_name-Same name r created.0 m b ∙ found)
            failing in
        rw
          (
            made,
            deploy_service,
            install_load_balancer-failed setting name lb (normalize options) get_service created.0 e
                (rw m free) (ap (λ (x : Router F × Result (Object F)). x.1) f),
            f,
          )
          refl

    -- The bug: a deployment to a service that exists, whose certificates or error pages cannot be
    -- loaded, fails, and the service has the new options all the same, while its bindings are the old
    -- ones. Where it now asks for a host and prefix that it was not bound to, the services are no
    -- longer coherent.
    pub deploy_service_stale :
        (o : Object F) (e : Error) (h p : Text)
        → (create_load_balancer names readers (normalize options) target_options checks r).1 ≡ ok lb
        → check_availability name (normalize options) r.services ≡ none
        → IsNamed r.services.services
        → service_for_name name r ≡ some o
        → (update_options setting.files (normalize options) target_options o).1 ≡ err e
        → Elem h (normalize options).hosts
        → Elem p (normalize options).path_prefixes
        → ¬ Elem
            (record { path_prefix = p; service = name })
            (bindings_at h r.services.request_service_map)
        → let (r', reply) =
            deploy_service setting name names readers options target_options checks r in
          (reply ≡ failed e)
          × (get name r'.services.services
              ≡ some (record { name = name; options = normalize options }))
          × (r'.services.request_service_map ≡ r.services.request_service_map)
          × ¬ IsCoherent r'.services
    unfolding put_object created
    deploy_service_stale o e h p made free named found failing i j unbound =
        let o' = (update_options setting.files (normalize options) target_options o).0 in
        let (n, q, _, _) = update_options-Kept setting.files (normalize options) target_options o in
        let known = n ∙ named name o.service (service_for_name-some name r o found).0 in
        let (m, _) =
          create_load_balancer-Same names readers (normalize options) target_options checks r in
        let stored : get name (put o'.service.name o'.service r.services.services)
            ≡ some o'.service =
          rw known (get-put_same name o'.service r.services.services) in
        let asks =
          get-Asks name o'.service (put o'.service.name o'.service r.services.services) h
            (record { path_prefix = p; service = name }) stored known (rw q i) (rw q j) in
        rw
          (
            failing_deployment o e made free found failing,
            (save_state_snapshot-Same setting.writable (put_object o' created.0)).0,
            m,
          )
          (
            refl,
            stored ∙ renamed o'.service known q,
            ap (λ (x : ServiceMap). x.request_service_map) m,
            λ coherent. unbound ((coherent.table h _).1 asks),
          )
