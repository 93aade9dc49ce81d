-- ===== src/Service.antt =====
-- internal/server/service.go: a service, with its balancers, its pause and rollout controllers, and
-- what its options ask for. The map of services (`ServiceMap`) holds its name and its options; the
-- rest of the same object is the `Body` here.
pub mod Requests
pub mod Draining
pub mod State
pub mod Balancers
pub mod Tests
use text.Mathlib.Text.{◌==◌ as str_eq}
use kamal_proxy.Base.{
  ℕ, suc, String, Bool, true, false, ◌&&◌, ◌||◌, not, List, [], ◌∷◌, ◌++◌, Option, none, some, ◌==◌,
  if◌then◌else◌,
}
use kamal_proxy.Base.Assoc.{has, nat_eq}
use kamal_proxy.Base.Int.{ℤ}
use kamal_proxy.Paths.{Text, normalize_hosts, normalize_path_prefixes}
use kamal_proxy.ServiceMap.{ServiceOptions, Service}
use kamal_proxy.PauseController.{PauseController, Heap, new_pause_controller}
use kamal_proxy.Target.{Target}
use kamal_proxy.LoadBalancer.{LoadBalancer, World, dispose}
use kamal_proxy.Rollout.{Float, RolloutController, new_rollout_controller}

-- An interval below zero is taken as 0.
pub record HealthCheckConfig : Type 0 where
  pub path : Text
  pub interval : ℕ
  pub timeout : ℕ

-- The options of a target, without those for logging.
pub record TargetOptions : Type 0 where
  pub health_check_config : HealthCheckConfig
  pub response_timeout : ℕ
  pub buffer_requests : Bool
  pub buffer_responses : Bool
  pub max_memory_buffer_size : ℕ
  pub max_request_body_size : ℕ
  pub max_response_body_size : ℕ
  pub forward_headers : Bool

-- Which certificates (by certificate and key path) and error pages can be loaded.
pub record Files : Type 0 where
  pub loads_certificate : String → String → Bool
  pub loads_error_pages : String → Bool

-- `autocert` keeps the hosts, the cache path and the directory of ACME.
pub data CertManager : Type 0 where
  static_certificate : String → String → CertManager
  autocert : List Text → String → String → CertManager

-- What wraps the handler of requests: the path of the error pages, and the handler of the
-- certificate manager.
pub record Middleware : Type 0 where
  pub error_pages : Option String
  pub certificates : Option CertManager

-- `non_positive_interval` is the panic of time.NewTicker, in the goroutine of a health check, which ends
-- the process: a call that brings it about panics (`raise`).
pub data Error : Type 0 where
  rollout_target_not_set unable_to_load_error_pages : Error
  automatic_tls_does_not_support_wildcards unable_to_load_certificate : Error
  service_not_found host_in_use invalid_host_pattern : Error
  target_failed_to_become_healthy : Error
  non_positive_interval : Error

pub data Result {ℓ} (A : Type ℓ) : Type ℓ where
  ok : A → Result A
  err : Error → Result A

infixl 5 ◌>>=◌
abbrev pub ◌>>=◌ {ℓ κ} : {A : Type ℓ} {B : Type κ} → Result A → (A → Result B) → Result B
ok a >>= f = f a
err e >>= f = err e

-- What a call ends with; a panic ends the program.
pub data Outcome {ℓ} (A : Type ℓ) : Type ℓ where
  done : A → Outcome A
  failed : Error → Outcome A
  panicked : Outcome A

pub raise : Error → Outcome (Unit {0})
raise non_positive_interval = panicked
raise e = failed e

pub data TargetSlot : Type 0 where
  active_slot rollout_slot : TargetSlot

pub record Body (F : Type 0) : Type 0 where
  pub target_options : TargetOptions
  pub active : Option LoadBalancer
  pub rollout : Option LoadBalancer
  pub pause_controller : PauseController
  pub rollout_controller : Option (RolloutController F)
  pub cert_manager : Option CertManager
  pub middleware : Option Middleware

pub record Object (F : Type 0) : Type 0 where
  pub service : Service
  pub body : Body F

unfoldable pub normalize : ServiceOptions → ServiceOptions
normalize options = record options {
  hosts = normalize_hosts options.hosts;
  path_prefixes = normalize_path_prefixes options.path_prefixes;
}

-- A host with a star.
pub any_wildcard : List Text → Bool
any_wildcard [] = false
any_wildcard (h ∷ hs) = has b'*' h || any_wildcard hs

pub create_cert_manager : Files → ServiceOptions → Result (Option CertManager)
unfolding any_wildcard
create_cert_manager files options =
    let certificate = options.tls_certificate_path in
    let key = options.tls_private_key_path in
    if not options.tls_enabled
    then ok none
    else if not (str_eq certificate "") && not (str_eq key "")
    then (if files.loads_certificate certificate key
        then ok (some (static_certificate certificate key))
        else err unable_to_load_certificate)
    else if any_wildcard options.hosts
    then err automatic_tls_does_not_support_wildcards
    else ok (some (autocert options.hosts options.acme_cache_path options.acme_directory))

pub create_middleware : Files → ServiceOptions → Option CertManager → Result Middleware
create_middleware files options manager =
    if str_eq options.error_page_path ""
    then ok (record { error_pages = none; certificates = manager })
    else if files.loads_error_pages options.error_page_path
    then ok (record { error_pages = some options.error_page_path; certificates = manager })
    else err unable_to_load_error_pages

module _ {F : Type 0} where
  -- The manager and the middleware are replaced together, or neither is.
  pub initialize : Files → ServiceOptions → Body F → Result (Body F)
  unfolding create_cert_manager create_middleware
  initialize files options b = do
    manager ← create_cert_manager files options
    middleware ← create_middleware files options manager
    ok (record b { cert_manager = manager; middleware = some middleware })

  pub new_service : Files → String → ServiceOptions → TargetOptions → Result (Object F)
  unfolding initialize
  new_service files name options target_options = do
    b ← initialize files options (record {
      target_options = target_options;
      active = none;
      rollout = none;
      pause_controller = new_pause_controller;
      rollout_controller = none;
      cert_manager = none;
      middleware = none;
    })
    ok (record { service = record { name = name; options = options }; body = b })

  pub on_initialized : Object F → Result (Body F) → Object F × Result (Unit {0})
  on_initialized o (ok b) = (record o { body = b }, ok tt)
  on_initialized o (err e) = (o, err e)

  -- The options are set before it is known whether they can be met.
  unfoldable pub update_options :
      Files → ServiceOptions → TargetOptions → Object F → Object F × Result (Unit {0})
  unfolding initialize on_initialized
  update_options files options target_options s =
      let b = record s.body { target_options = target_options } in
      let service = record s.service { options = options } in
      on_initialized (record { service = service; body = b }) (initialize files options b)

  -- The balancer that is replaced.
  pub update_load_balancer : LoadBalancer → TargetSlot → Body F → Body F × Option LoadBalancer
  update_load_balancer lb rollout_slot b = (record b { rollout = some lb }, b.rollout)
  update_load_balancer lb active_slot b = (record b { active = some lb }, b.active)

  pub stop_rollout : Body F → Body F
  stop_rollout b = record b { rollout_controller = none }

  pub set_rollout_split : ⦃f : Float F⦄ → ℤ → List String → Body F → Body F × Result (Unit {0})
  set_rollout_split percentage allowlist b = elim b.rollout [
    | none ↦ (b, err rollout_target_not_set)
    | some _ ↦ (
      record b { rollout_controller = some (new_rollout_controller percentage allowlist) },
      ok tt,
    )
  ]

-- The end of the health checks of a balancer's targets.
pub dispose_balancer : Option LoadBalancer → (ℕ → Target) → ℕ → Target
dispose_balancer none heap = heap
dispose_balancer (some lb) heap = (dispose (record { lb = lb; targets = heap })).targets

module _ {F : Type 0} where
  -- `none` is the panic of a service without an active balancer.
  pub dispose_service : Body F → (ℕ → Target) → Option (ℕ → Target)
  unfolding dispose_balancer
  dispose_service b heap = elim b.active [
    | none ↦ none
    | some lb ↦ some (dispose_balancer b.rollout (dispose_balancer (some lb) heap))
  ]
