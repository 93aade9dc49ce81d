-- ===== src/Router.antt =====
-- internal/server/router.go: the services, deploying to them and routing to them. Each call runs to
-- its end before the next, but requests and health checks go on while targets are drained.
pub mod Calls
pub mod Serving
pub mod Whole
pub mod Created
pub mod Deploys
pub mod Failures
mod Tests
use text.Mathlib.Text.{◌==◌ as str_eq}
use kamal_proxy.Base.{
  ℕ, String, Bool, true, false, ◌&&◌, not, ◌==◌, List, [], ◌∷◌, Option, none, some, if◌then◌else◌,
}
use kamal_proxy.Base.Assoc.{Assoc, get, put, remove, string_eq, same_bytes}
use kamal_proxy.Paths.{Text, root_path}
use kamal_proxy.ServiceMap
use kamal_proxy.ServiceMap.{
  ServiceMap, Sorting, check_availability, set_service, PathBinding, service_for_request,
  service_for_host, ServiceOptions, Service,
}
use kamal_proxy.PauseController
use kamal_proxy.PauseController.{panic, pause, stop, resume, ok as went}
use kamal_proxy.LoadBalancer.{LoadBalancer, World, new_load_balancer, dispose}
use kamal_proxy.LoadBalancer.TargetList.{Heap, new_target_list, wait_until_healthy}
use kamal_proxy.Rollout.{Float}
use kamal_proxy.Service.{
  TargetOptions, Files, CertManager, Error, service_not_found, host_in_use, invalid_host_pattern,
  target_failed_to_become_healthy, non_positive_interval, raise, Result, ok, err, Outcome, done,
  failed, panicked, TargetSlot, active_slot, rollout_slot, Body, Object, normalize, new_service,
  update_options, update_load_balancer, stop_rollout, set_rollout_split, dispose_balancer,
  dispose_service,
}
use kamal_proxy.Service.Draining.{Targets, drain_targets, drain_service}
use kamal_proxy.Service.State.{MarshalledService, marshal_json, unmarshal_json_service}

-- The map of services and the rest of each service; `saved` is the content of the state file.
pub record Router (F : Type 0) : Type 0 where
  pub services : ServiceMap
  pub bodies : Assoc String (Body F)
  pub heap : Heap
  pub channels : PauseController.Heap
  pub saved : Option (List (MarshalledService F))

pub no_services : ServiceMap
no_services = record { services = []; request_service_map = [] }

pub new_router :
    {F : Type 0} → Heap → PauseController.Heap → Option (List (MarshalledService F)) → Router F
unfolding no_services
new_router heap channels saved = record {
  services = no_services;
  bodies = [];
  heap = heap;
  channels = channels;
  saved = saved;
}

-- What the calls are given: the order of the bindings, the files that can be read, whether the state
-- file can be written, and what requests and health checks do to targets while they drain.
pub record Setting : Type 0 where
  pub sorting : Sorting
  pub files : Files
  pub writable : Bool
  pub meanwhile : Targets → Targets

-- NewHealthCheck of each target makes a ticker.
pub ticker_panics : ℕ → List ℕ → Bool
ticker_panics interval [] = false
ticker_panics interval (a ∷ ts) = interval == 0

module _ {F : Type 0} where
  pub object_of : Option Service → Option (Body F) → Option (Object F)
  object_of (some s) (some b) = some (record { service = s; body = b })
  object_of _ _ = none

  unfoldable pub service_for_name : String → Router F → Option (Object F)
  unfolding object_of
  service_for_name name r = object_of (get name r.services.services) (get name r.bodies)

  pub put_body : String → Body F → Router F → Router F
  put_body name b r = record r { bodies = put name b r.bodies }

  -- A service that the map holds is changed in place, its bindings left as they are.
  pub put_object : Object F → Router F → Router F
  put_object o r = record r {
    services = record r.services { services = put o.service.name o.service r.services.services };
    bodies = put o.service.name o.body r.bodies;
  }

  pub put_targets : Targets → Router F → Router F
  put_targets targets r = record r { heap = record r.heap { targets = targets } }

  pub marshal_services :
      Assoc String Service → Assoc String (Body F) → Targets → List (MarshalledService F)
  marshal_services [] bodies heap = []
  marshal_services ((name, s) ∷ ss) bodies heap =
      let rest = marshal_services ss bodies heap in
      elim (get name bodies) [
        | none ↦ rest
        | some b ↦ marshal_json (record { service = s; body = b }) heap ∷ rest
      ]

  pub save_state_snapshot : Bool → Router F → Router F
  unfolding marshal_services
  save_state_snapshot false r = r
  save_state_snapshot true r = record r {
    saved = some (marshal_services r.services.services r.bodies r.heap.targets);
  }

  pub create_or_update_service :
      Files → String → ServiceOptions → TargetOptions → Router F → Router F × Result (Object F)
  unfolding service_for_name put_object
  create_or_update_service files name options target_options r = elim (service_for_name name r) [
    | none ↦ (r, new_service files name options target_options)
    | some o ↦
        let (o', result) = update_options files options target_options o in
        (put_object o' r, elim result [ ok _ ↦ ok o' | err e ↦ err e ])
  ]

  -- `checks` are the health checks that complete in time, by the address of their target.
  pub create_load_balancer :
      List String
      → List String
      → ServiceOptions
      → TargetOptions
      → List (ℕ × Bool)
      → Router F
      → Router F × Result LoadBalancer
  unfolding put_targets ticker_panics
  create_load_balancer names readers options target_options checks r =
      elim (new_target_list names readers target_options.forward_headers r.heap) [
        | none ↦ (r, err invalid_host_pattern)
        | some (ts, heap) ↦
            let r' = record r { heap = heap } in
            let w = wait_until_healthy checks (
              new_load_balancer ts options.writer_affinity_timeout
                options.read_targets_accept_websockets heap.targets) in
            if ticker_panics target_options.health_check_config.interval ts
            then (r', err non_positive_interval)
            else if w.lb.marked_healthy
            then (put_targets w.targets r', ok w.lb)
            else (put_targets (dispose w).targets r', err target_failed_to_become_healthy)
      ]

  pub install_object :
      Sorting → LoadBalancer → TargetSlot → Object F → Router F → Router F × Option LoadBalancer
  install_object sorting lb slot o r =
      let (b, replaced) = update_load_balancer lb slot o.body in
      (
        record r {
          services = set_service sorting o.service r.services;
          bodies = put o.service.name b r.bodies;
        },
        replaced,
      )

  -- The part of installLoadBalancer that holds the lock.
  pub install_locked :
      Sorting
      → String
      → TargetSlot
      → LoadBalancer
      → ServiceOptions
      → (Router F → Router F × Result (Object F))
      → Router F
      → Router F × Result (Option LoadBalancer)
  unfolding install_object
  install_locked sorting name slot lb options get_service r =
      elim (check_availability name options r.services) [
        | some conflict ↦ (r, err host_in_use)
        | none ↦
            let (r₁, result) = get_service r in
            elim result [
              | err e ↦ (r₁, err e)
              | ok o ↦ let (r₂, replaced) = install_object sorting lb slot o r₁ in (r₂, ok replaced)
            ]
      ]

  pub dispose_replaced : (Targets → Targets) → Option LoadBalancer → Router F → Router F
  unfolding put_targets
  dispose_replaced meanwhile none r = r
  dispose_replaced meanwhile (some lb) r =
      put_targets (drain_targets meanwhile lb.all (dispose_balancer (some lb) r.heap.targets)) r

  -- installLoadBalancer, and the end of the balancer that it replaces.
  pub install_load_balancer :
      Setting
      → String
      → TargetSlot
      → LoadBalancer
      → ServiceOptions
      → (Router F → Router F × Result (Object F))
      → Router F
      → Router F × Outcome (Unit {0})
  unfolding install_locked dispose_replaced save_state_snapshot
  install_load_balancer setting name slot lb options get_service r =
      let (r', result) = install_locked setting.sorting name slot lb options get_service r in
      let saved = save_state_snapshot setting.writable r' in
      elim result [
        | err e ↦ (saved, failed e)
        | ok replaced ↦ (dispose_replaced setting.meanwhile replaced saved, done tt)
      ]

  pub deploy_service :
      Setting
      → String
      → List String
      → List String
      → ServiceOptions
      → TargetOptions
      → List (ℕ × Bool)
      → Router F
      → Router F × Outcome (Unit {0})
  unfolding create_load_balancer install_load_balancer create_or_update_service
  deploy_service setting name names readers options target_options checks r =
      let options' = normalize options in
      let (r', created) = create_load_balancer names readers options' target_options checks r in
      elim created [
        | err e ↦ (r', raise e)
        | ok lb ↦
            install_load_balancer setting name active_slot lb options'
              (create_or_update_service setting.files name options' target_options) r'
      ]

  pub set_rollout_targets :
      Setting
      → String
      → List String
      → List String
      → List (ℕ × Bool)
      → Router F
      → Router F × Outcome (Unit {0})
  unfolding service_for_name create_load_balancer install_load_balancer
  set_rollout_targets setting name names readers checks r = elim (service_for_name name r) [
    | none ↦ (r, failed service_not_found)
    | some o ↦
        let (r', created) =
          create_load_balancer names readers o.service.options o.body.target_options checks r in
        elim created [
          | err e ↦ (r', raise e)
          | ok lb ↦
              install_load_balancer setting name rollout_slot lb o.service.options
                (λ r''. (r'', ok o)) r'
        ]
  ]
