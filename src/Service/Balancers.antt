-- ===== src/Service/Balancers.antt =====
-- What the operations of a service keep: its name, and its active balancer.
use kamal_proxy.Base.Int.{ℤ}
use kamal_proxy.Base.{
  ℕ, String, ◌≡◌, refl, ap, inl, inr, ◌⊎◌, false, List, Option, none, some, arith, Option-cases,
}
use kamal_proxy.ServiceMap.{ServiceOptions, Service}
use kamal_proxy.Target.{Target}
use kamal_proxy.LoadBalancer.{LoadBalancer}
use kamal_proxy.Rollout.{Float}
use kamal_proxy.PauseController.{new_pause_controller}
use kamal_proxy.Service.{
  Error, raise, panicked, non_positive_interval, ◌>>=◌, Error, CertManager, Middleware,
  TargetOptions, Files, Result, ok, err, Body, Object, active_slot, rollout_slot, initialize,
  on_initialized, create_cert_manager, create_middleware, new_service, normalize, update_options,
  update_load_balancer, stop_rollout, set_rollout_split, dispose_service, dispose_balancer,
}

pub result_cases :
    {A : Type 0} (x : Result A) → ((a : A) × (x ≡ ok a)) ⊎ ((e : Error) × (x ≡ err e))
result_cases (ok a) = inl (a, refl)
result_cases (err e) = inr (e, refl)

-- The certificates and the error pages of the options can be loaded.
abbrev pub CanMeet : Files → ServiceOptions → Type 0
CanMeet files options =
    (manager : Option CertManager) × (middleware : Middleware) × (create_cert_manager files options
      ≡ ok manager)
    × (create_middleware files options manager ≡ ok middleware)

module _ {F : Type 0} where
  -- Only the certificates and the handler of a body change.
  pub record SameBalancers (b b' : Body F) : Type 0 where
    pub active : b'.active ≡ b.active
    pub rollout : b'.rollout ≡ b.rollout
    pub controller : b'.pause_controller ≡ b.pause_controller

  abbrev pub Kept : Body F → Result (Body F) → Type 0
  Kept b (ok b') = SameBalancers b b' × (b'.target_options ≡ b.target_options)
  Kept b (err e) = Unit

  then-Kept :
      {A : Type 0} (b : Body F) (x : Result A) (k : A → Result (Body F))
      → ((a : A) → Kept b (k a))
      → Kept b (x >>= k)
  then-Kept b (ok a) k h = h a
  then-Kept b (err e) k h = tt

  initialize-Kept :
      (files : Files) (options : ServiceOptions) (b : Body F) → Kept b (initialize files options b)
  unfolding initialize
  initialize-Kept files options b = then-Kept b (create_cert_manager files options) _ λ manager.
      then-Kept b (create_middleware files options manager) _
        λ middleware. (record { active = refl; rollout = refl; controller = refl }, refl)

  -- The options of an object, and whether they could be met, by what initialize answers.
  on_initialized-Kept :
      (o : Object F) (x : Result (Body F))
      → Kept o.body x
      → let o' = (on_initialized o x).0 in
        (o'.service ≡ o.service)
        × (o'.body.target_options ≡ o.body.target_options)
        × SameBalancers o.body o'.body
  unfolding on_initialized
  on_initialized-Kept o (ok b) (kept, same) = (refl, same, kept)
  on_initialized-Kept o (err e) h =
      (refl, refl, record { active = refl; rollout = refl; controller = refl })

  pub update_options-Kept :
      (files : Files) (options : ServiceOptions) (target_options : TargetOptions) (o : Object F)
      → let o' = (update_options files options target_options o).0 in
        (o'.service.name ≡ o.service.name)
        × (o'.service.options ≡ options)
        × (o'.body.target_options ≡ target_options)
        × SameBalancers o.body o'.body
  unfolding update_options
  update_options-Kept files options target_options o =
      let b = record o.body { target_options = target_options } in
      let (e, f, kept) =
        on_initialized-Kept (record { service = record o.service { options = options }; body = b })
          (initialize files options b) (initialize-Kept files options b) in
      (
        ap (λ (s : Service). s.name) e,
        ap (λ (s : Service). s.options) e,
        f,
        record { active = kept.active; rollout = kept.rollout; controller = kept.controller },
      )

  pub set_rollout_split-active :
      ⦃f : Float F⦄ (percentage : ℤ) (allowlist : List String) (b : Body F)
      → (set_rollout_split percentage allowlist b).0.active ≡ b.active
  unfolding set_rollout_split
  set_rollout_split-active percentage allowlist b = elim (Option-cases b.rollout) [
    | inl e ↦ ground arith
    | inr (_, e) ↦ ground arith
  ]

  pub stop_rollout-active : (b : Body F) → (stop_rollout b).active ≡ b.active
  unfolding stop_rollout
  stop_rollout-active b = refl

  pub update_load_balancer-active :
      (lb : LoadBalancer) (b : Body F) → (update_load_balancer lb active_slot b).0.active ≡ some lb
  unfolding update_load_balancer
  update_load_balancer-active lb b = refl

  pub update_load_balancer_lem :
      (lb : LoadBalancer) (b : Body F)
      → update_load_balancer lb active_slot b ≡ (record b { active = some lb }, b.active)
  unfolding update_load_balancer
  update_load_balancer_lem lb b = refl

  pub update_load_balancer-rollout :
      (lb : LoadBalancer) (b : Body F)
      → (update_load_balancer lb rollout_slot b).0.active ≡ b.active
  unfolding update_load_balancer
  update_load_balancer-rollout lb b = refl

  pub dispose_service-some :
      (b : Body F) (lb : LoadBalancer) (heap : ℕ → Target)
      → b.active ≡ some lb
      → (heap' : ℕ → Target) × (dispose_service b heap ≡ some heap')
  unfolding dispose_service
  dispose_service-some b lb heap e =
      (dispose_balancer b.rollout (dispose_balancer (some lb) heap), rw e refl)

  initialize-ok :
      (files : Files) (options : ServiceOptions) (b : Body F)
      → CanMeet files options
      → (b' : Body F) × (initialize files options b ≡ ok b')
  unfolding initialize
  initialize-ok files options b (manager, middleware, e, f) = (
    record b { cert_manager = manager; middleware = some middleware },
    rw (e, f, initialize) refl,
  )

  pub update_options-ok :
      (files : Files) (options : ServiceOptions) (target_options : TargetOptions) (o : Object F)
      → CanMeet files options
      → (update_options files options target_options o).1 ≡ ok tt
  unfolding update_options on_initialized
  update_options-ok files options target_options o can =
      let (b', e) =
        initialize-ok files options (record o.body { target_options = target_options }) can in
      rw (e, update_options) refl

  -- A new service has no balancer, and can be made where its options can be met.
  pub new_service-Made :
      (files : Files) (name : String) (options : ServiceOptions) (target_options : TargetOptions)
      → CanMeet files options
      → (o : Object F) × (new_service files name options target_options ≡ ok o)
        × (o.service ≡ record { name = name; options = options })
        × (o.body.target_options ≡ target_options)
  unfolding new_service
  new_service-Made files name options target_options can =
      let (b, f) = initialize-ok files options start can in
      let (kept, same) : SameBalancers start b × (b.target_options ≡ start.target_options) =
        rw f at (initialize-Kept files options start) in
      (
        record { service = record { name = name; options = options }; body = b },
        rw (f, new_service) refl,
        refl,
        same,
      )
    where
      start : Body F
      start = record {
        target_options = target_options;
        active = none;
        rollout = none;
        pause_controller = new_pause_controller;
        rollout_controller = none;
        cert_manager = none;
        middleware = none;
      }

-- Options without TLS and without error pages can always be met.
pub plain-CanMeet :
    (files : Files) (options : ServiceOptions)
    → options.tls_enabled ≡ false
    → options.error_page_path ≡ ""
    → CanMeet files (normalize options)
unfolding create_cert_manager create_middleware normalize
plain-CanMeet files options e f =
    (none, record { error_pages = none; certificates = none }, rw e refl, rw f refl)

pub raise-panicked : (e : Error) → raise e ≡ panicked → e ≡ non_positive_interval
unfolding raise
raise-panicked e h = ground arith
