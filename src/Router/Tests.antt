-- ===== src/Router/Tests.antt =====
-- A router with one service, at whose host and prefix another is deployed.
use kamal_proxy.Base.{ℕ, ◌≡◌, refl, true, false, [], ◌∷◌, none, some, inl, arith}
use kamal_proxy.Base.Assoc.{get, string_eq, bytes_eq, same_bytes}
use kamal_proxy.Paths.{root_path, normalize_hosts, normalize_path_prefixes}
use kamal_proxy.ServiceMap.{ServiceOptions, check_availability}
use kamal_proxy.ServiceMap.Availability.{IsCoherent}
use kamal_proxy.ServiceMap.Keys.{IsNamed}
use kamal_proxy.ServiceMap.Tests.{sorting, example_host}
use kamal_proxy.LoadBalancer.{LoadBalancer, new_load_balancer}
use kamal_proxy.LoadBalancer.TargetList.Watched.{AllWatched}
use kamal_proxy.LoadBalancer.TargetList.{wait_until_healthy}
use kamal_proxy.LoadBalancer.TargetList.Tests.{
  no_targets, one_heap, new_target_list_one, wait_until_healthy_one,
}
use kamal_proxy.PauseController.{Heap}
use kamal_proxy.Rollout.Tests.{rounded}
use kamal_proxy.Service.{
  ok, done, failed, Object, panicked, host_in_use, unable_to_load_error_pages, normalize,
  update_options, Files,
}
use kamal_proxy.Service.Balancers.{plain-CanMeet}
use kamal_proxy.Service.Tests.{plain_options, target_options, stopped_body}
use kamal_proxy.Router.{
  Router, Setting, create_load_balancer, ticker_panics, deploy_service, service_for_name,
}
use kamal_proxy.Router.Whole.{IsWhole}
use kamal_proxy.Router.Calls.{Call, deploy, remove_call, perform}
use kamal_proxy.Router.Calls.Whole.Deploys.{CanPanic, perform-IsWhole}
use kamal_proxy.Router.Calls.Sound.{IsSound, perform-IsSound}
use kamal_proxy.Router.Deploys.{Deployed, deploy_service-Deployed}
use kamal_proxy.Router.Failures.{deploy_service_conflict, deploy_service_stale}

abbrev channels : Heap
channels = record { made = 0; is_closed = λ c. false }

abbrev files : Files
files = record { loads_certificate = λ c k. false; loads_error_pages = λ p. false }

abbrev setting : Setting
setting = record { sorting = sorting; files = files; writable = true; meanwhile = λ heap. heap }

abbrev empty : Router ℕ
empty = record {
  services = record { services = []; request_service_map = [] };
  bodies = [];
  heap = no_targets;
  channels = channels;
  saved = none;
}

empty-IsSound : IsSound empty.services
unfolding get
empty-IsSound = (
  record { table = λ h b. (λ i. i, λ i. i); exclusive = λ h b c i j e. absurd i },
  λ n s e. ground arith,
)

empty-IsWhole : IsWhole empty
unfolding get
empty-IsWhole n = inl refl

abbrev deploy_web : Call
deploy_web = deploy "web" ("web:80" ∷ []) [] plain_options target_options ((0, true) ∷ [])

abbrev after : Router ℕ
after = (perform setting deploy_web empty).0

perform-IsWhole_example :
    let (r', outcome) = perform setting (remove_call "web") after in
    IsWhole r' × (outcome ≡ panicked → CanPanic after (remove_call "web"))
perform-IsWhole_example =
    perform-IsWhole setting (remove_call "web") after
      (perform-IsWhole setting deploy_web empty empty-IsWhole).0

perform-IsSound_example : IsSound (perform setting deploy_web empty).0.services
perform-IsSound_example =
    perform-IsSound setting deploy_web empty (plain-CanMeet files plain_options refl refl)
      empty-IsSound

-- "web" is bound at the host and prefix.
abbrev crowded : Router ℕ
crowded = record empty {
  services = record {
    services = ("web", record { name = "web"; options = plain_options }) ∷ [];
    request_service_map =
        (example_host, record { path_prefix = root_path; service = "web" } ∷ []) ∷ [];
  };
  bodies = ("web", stopped_body) ∷ [];
}

-- A new target becomes healthy, whatever services there are.
created :
    (options : ServiceOptions) (r : Router ℕ)
    → r.heap ≡ no_targets
    → options.writer_affinity_timeout ≡ 0
    → options.read_targets_accept_websockets ≡ false
    → (lb : LoadBalancer) × ((create_load_balancer
          ("web:80" ∷ [])
          []
          options
          target_options
          ((0, true) ∷ [])
          r).1
        ≡ ok lb)
unfolding create_load_balancer ticker_panics
created options r e f g = (
  (wait_until_healthy ((0, true) ∷ []) (new_load_balancer (0 ∷ []) 0 false one_heap.targets)).lb,
  rw (e, new_target_list_one, create_load_balancer, f, g, wait_until_healthy_one) refl,
)

on_empty :
    (lb : LoadBalancer) × ((create_load_balancer
        ("web:80" ∷ [])
        []
        (normalize plain_options)
        target_options
        ((0, true) ∷ [])
        empty).1
      ≡ ok lb)
unfolding normalize
on_empty = created (normalize plain_options) empty refl refl refl

on_crowded :
    (lb : LoadBalancer) × ((create_load_balancer
        ("web:80" ∷ [])
        []
        (normalize plain_options)
        target_options
        ((0, true) ∷ [])
        crowded).1
      ≡ ok lb)
unfolding normalize
on_crowded = created (normalize plain_options) crowded refl refl refl

free_when_empty : check_availability "web" (normalize plain_options) empty.services ≡ none
unfolding check_availability normalize get normalize_hosts normalize_path_prefixes same_bytes
free_when_empty = refl

deploy_service-Deployed_example :
    let x =
      deploy_service setting "web"
        ("web:80" ∷ [])
        []
        plain_options
        target_options
        ((0, true) ∷ [])
        empty in
    (x.1 ≡ done tt)
    × (on_empty.0.marked_healthy ≡ true)
    × Deployed "web" on_empty.0 (normalize plain_options) target_options empty x.0
deploy_service-Deployed_example =
    deploy_service-Deployed setting "web" ("web:80" ∷ []) [] plain_options target_options
      ((0, true) ∷ []) empty on_empty.0 on_empty.1 (plain-CanMeet files plain_options refl refl)
      empty-IsSound.1 free_when_empty

taken : check_availability "api" (normalize plain_options) crowded.services ≡ some "web"
unfolding check_availability normalize get normalize_hosts normalize_path_prefixes same_bytes
taken = refl

deploy_service_conflict_example :
    let (r', reply) =
      deploy_service setting "api"
        ("web:80" ∷ [])
        []
        plain_options
        target_options
        ((0, true) ∷ [])
        crowded in
    (reply ≡ failed host_in_use)
    × (r'.services ≡ crowded.services)
    × (r'.bodies ≡ crowded.bodies)
    × (r'.heap
        ≡ (create_load_balancer
            ("web:80" ∷ [])
            []
            (normalize plain_options)
            target_options
            ((0, true) ∷ [])
            crowded).0.heap)
    × AllWatched (record { lb = on_crowded.0; targets = r'.heap.targets })
deploy_service_conflict_example =
    deploy_service_conflict setting "api" ("web:80" ∷ []) [] plain_options target_options
      ((0, true) ∷ []) crowded on_crowded.0 "web" on_crowded.1 taken

-- Other hosts, and error pages that cannot be loaded.
abbrev failing_options : ServiceOptions
failing_options = record plain_options { hosts = (b'c' ∷ []) ∷ []; error_page_path = "missing" }

on_failing :
    (lb : LoadBalancer) × ((create_load_balancer
        ("web:80" ∷ [])
        []
        (normalize failing_options)
        target_options
        ((0, true) ∷ [])
        crowded).1
      ≡ ok lb)
unfolding normalize
on_failing = created (normalize failing_options) crowded refl refl refl

crowded-IsNamed : IsNamed crowded.services.services
unfolding get
crowded-IsNamed n s e = ground (arith, string_eq.beq_iff "web" n)

abbrev web_object : Object ℕ
web_object = record {
  service = record { name = "web"; options = plain_options };
  body = stopped_body;
}

deploy_service_stale_example :
    let (r', reply) =
      deploy_service setting "web"
        ("web:80" ∷ [])
        []
        failing_options
        target_options
        ((0, true) ∷ [])
        crowded in
    (reply ≡ failed unable_to_load_error_pages)
    × (get "web" r'.services.services
        ≡ some (record { name = "web"; options = normalize failing_options }))
    × (r'.services.request_service_map ≡ crowded.services.request_service_map)
    × ¬ IsCoherent r'.services
unfolding normalize check_availability update_options service_for_name get same_bytes
    normalize_hosts normalize_path_prefixes
deploy_service_stale_example =
    deploy_service_stale setting "web" ("web:80" ∷ []) [] failing_options target_options
      ((0, true) ∷ []) crowded on_failing.0 web_object unable_to_load_error_pages (b'c' ∷ [])
      root_path on_failing.1 refl crowded-IsNamed refl refl (inl refl) (inl refl) (λ i. i)
