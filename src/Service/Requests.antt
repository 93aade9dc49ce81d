-- ===== src/Service/Requests.antt =====
-- internal/server/service.go: what a service does with a request. A request that has to wait for
-- the end of a pause is handed back as `wait_for`, and goes on by `end_wait`.
pub mod Answers
use text.Mathlib.Text.{◌==◌ as str_eq}
use kamal_proxy.Base.{
  ℕ, String, Bool, true, false, ◌&&◌, ◌||◌, not, List, [], ◌∷◌, ◌++◌, Option, none, some,
  if◌then◌else◌,
}
use kamal_proxy.Base.Int.{ℤ}
use kamal_proxy.Base.Assoc.{same_bytes}
use kamal_proxy.Paths.{Text}
use kamal_proxy.ServiceMap.{ServiceOptions, or_host}
use kamal_proxy.PauseController.{
  PauseState, running, paused, stopped, WaitAction, proceed, timed_out, stop_request, WaitState,
  answer, blocked, get_wait_state, on_signal, PauseController, Heap,
}
use kamal_proxy.PauseController
use kamal_proxy.Target.{Target}
use kamal_proxy.LoadBalancer.{LoadBalancer, World}
use kamal_proxy.LoadBalancer.Request.{Request, Started, start_lb_request}
use kamal_proxy.Rollout.{Float, RolloutController, request_uses_rollout_group}
use kamal_proxy.Service.{TargetOptions, Body, Object, TargetSlot, active_slot, rollout_slot}

pub record HttpRequest : Type 0 where
  pub host : Text
  pub path : Text
  pub request_uri : Text
  pub tls : Bool
  pub rollout_cookie : Option String
  pub request : Request

-- What the client gets, or what the request waits for: the channel and the limit of a pause. The
-- body of `stop_page` is the message of Stop.
pub data Handled : Type 0 where
  redirect : Text → Handled
  error_response write_header : ℕ → Handled
  stop_page : String → Handled
  wait_for : Option ℕ → ℕ → Handled
  balanced : TargetSlot → Started → Handled
  no_active_balancer : Handled

pub should_redirect_to_https : ServiceOptions → HttpRequest → Bool
should_redirect_to_https options r = (options.tls_enabled && options.tls_redirect) && not r.tls

-- "https://"
abbrev pub https : Text
https = b'h' ∷ b't' ∷ b't' ∷ b'p' ∷ b's' ∷ b':' ∷ b'/' ∷ b'/' ∷ []

-- `split` is net.SplitHostPort, `none` its error.
pub redirect_to_https : (Text → Option Text) → HttpRequest → Text
redirect_to_https split r = https ++ or_host (split r.host) r.host ++ r.request_uri

pub is_health_check_request : TargetOptions → HttpRequest → Bool
is_health_check_request options r =
    str_eq r.request.method "GET" && same_bytes r.path options.health_check_config.path

pub is_running : PauseState → Bool
is_running running = true
is_running _ = false

-- Which branch of the `select` ends a wait
pub data WaitEnd : Type 0 where
  woken expired : WaitEnd

pub action_after : WaitEnd → PauseController.World → WaitAction × String
action_after woken w = on_signal w
action_after expired w = (timed_out, "")

-- The end of a wait: the time, and the state of the service then.
pub record Later (F : Type 0) : Type 0 where
  pub wait_end : WaitEnd
  pub now : ℤ
  pub channels : Heap
  pub body : Body F
  pub targets : ℕ → Target

module _ {F : Type 0} ⦃f : Float F⦄ where
  pub slot_for_request : Body F → HttpRequest → TargetSlot
  slot_for_request b r = elim b.rollout [
    | none ↦ active_slot
    | some _ ↦ elim b.rollout_controller [
      | none ↦ active_slot
      | some c ↦ if request_uses_rollout_group c r.rollout_cookie then rollout_slot else active_slot
    ]
  ]

  pub balancer_in : TargetSlot → Body F → Option LoadBalancer
  balancer_in active_slot b = b.active
  balancer_in rollout_slot b = b.rollout

  pub put_balancer : TargetSlot → LoadBalancer → Body F → Body F
  put_balancer active_slot lb b = record b { active = some lb }
  put_balancer rollout_slot lb b = record b { rollout = some lb }

  pub start_load_balancer_request :
      ℤ → HttpRequest → Body F → (ℕ → Target) → Body F × (ℕ → Target) × Handled
  unfolding slot_for_request balancer_in put_balancer
  start_load_balancer_request now r b heap =
      let slot = slot_for_request b r in
      elim (balancer_in slot b) [
        | none ↦ (b, heap, no_active_balancer)
        | some lb ↦
            let (w, started) =
              start_lb_request now r.request (record { lb = lb; targets = heap }) in
            (put_balancer slot w.lb b, w.targets, balanced slot started)
      ]

  -- The part of handlePausedAndStoppedRequests after the wait, and what follows it.
  pub after_wait :
      WaitAction
      → String
      → ℤ
      → HttpRequest
      → Body F
      → (ℕ → Target)
      → Body F × (ℕ → Target) × Handled
  unfolding start_load_balancer_request
  after_wait stop_request message now r b heap = (b, heap, stop_page message)
  after_wait timed_out message now r b heap = (b, heap, error_response 504)
  after_wait proceed message now r b heap = start_load_balancer_request now r b heap

  pub on_wait_state :
      WaitState → ℤ → HttpRequest → Body F → (ℕ → Target) → Body F × (ℕ → Target) × Handled
  unfolding after_wait
  on_wait_state (answer action message) now r b heap = after_wait action message now r b heap
  on_wait_state (blocked channel limit) now r b heap = (b, heap, wait_for channel limit)

  pub handle_paused_and_stopped_requests :
      ℤ → HttpRequest → Heap → Body F → (ℕ → Target) → Body F × (ℕ → Target) × Handled
  unfolding is_running is_health_check_request on_wait_state
  handle_paused_and_stopped_requests now r channels b heap =
      if not (is_running b.pause_controller.state) && is_health_check_request b.target_options r
      then (b, heap, write_header 200)
      else on_wait_state
          (get_wait_state (record { controller = b.pause_controller; heap = channels })) now r b
          heap

  pub service_request_with_target :
      (Text → Option Text)
      → ℤ
      → HttpRequest
      → Heap
      → ServiceOptions
      → Body F
      → (ℕ → Target)
      → Body F × (ℕ → Target) × Handled
  unfolding should_redirect_to_https redirect_to_https handle_paused_and_stopped_requests
  service_request_with_target split now r channels options b heap =
      if should_redirect_to_https options r
      then (b, heap, redirect (redirect_to_https split r))
      else if not options.tls_enabled && r.tls
      then (b, heap, error_response 503)
      else handle_paused_and_stopped_requests now r channels b heap

  pub end_wait : Later F → HttpRequest → Body F × (ℕ → Target) × Handled
  unfolding action_after
  end_wait l r =
      let (action, message) =
        action_after l.wait_end
          (record { controller = l.body.pause_controller; heap = l.channels }) in
      after_wait action message l.now r l.body l.targets

  pub wait_through :
      Later F → HttpRequest → Body F × (ℕ → Target) × Handled → Body F × (ℕ → Target) × Handled
  unfolding end_wait
  wait_through l r (b, heap, wait_for channel limit) = end_wait l r
  wait_through l r x = x

  -- A request from its arrival to its answer; `l` is when its wait ends, where it has to wait.
  pub serve_to_end :
      (Text → Option Text)
      → ℤ
      → HttpRequest
      → Heap
      → ServiceOptions
      → Body F
      → (ℕ → Target)
      → Later F
      → Body F × (ℕ → Target) × Handled
  unfolding service_request_with_target wait_through
  serve_to_end split now r channels options b heap l =
      wait_through l r (service_request_with_target split now r channels options b heap)
