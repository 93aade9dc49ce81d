-- ===== src/Service/Requests/Answers.antt =====
-- When a request reaches a balancer, and what it gets instead.
use kamal_proxy.Base.{ℕ, ◌≡◌, ◌≢◌, ◌⊎◌, true, false, Option}
use kamal_proxy.Base.Int.{ℤ}
use kamal_proxy.Paths.{Text}
use kamal_proxy.ServiceMap.{ServiceOptions}
use kamal_proxy.PauseController.{running, paused, stopped, Heap, World}
use kamal_proxy.Target.{Target}
use kamal_proxy.Rollout.{Float}
use kamal_proxy.Service.{Body}
use kamal_proxy.Service.Requests.{
  HttpRequest, woken, expired, Later, Handled, redirect, error_response, write_header, stop_page,
  should_redirect_to_https, redirect_to_https, is_health_check_request, start_load_balancer_request,
}

module _ {F : Type 0} ⦃f : Float F⦄ (split : Text → Option Text) (now : ℤ) (r : HttpRequest)
    (channels : Heap) (options : ServiceOptions) (b : Body F) (heap : ℕ → Target)
    (l : Later F) where
  -- No redirect, and no TLS for a service without it.
  abbrev pub ReachesService : Type 0
  ReachesService =
      (should_redirect_to_https options r ≡ false)
      × ((options.tls_enabled ≡ true) ⊎ (r.tls ≡ false))

  abbrev pub Held : Type 0
  Held = ReachesService × (is_health_check_request b.target_options r ≡ false)

  -- The request came while the service was paused, and waited.
  abbrev pub Waited : Type 0
  Waited = Held × (b.pause_controller.state ≡ paused)

  -- What a request is answered by the options and the states of the pause controller, on its arrival
  -- and at the end of its wait, and the targets then: only a balancer changes them.
  pub data Rule : (ℕ → Target) → Handled → Type 0 where
    to_https :
        should_redirect_to_https options r ≡ true → Rule heap (redirect (redirect_to_https split r))
    no_tls :
        should_redirect_to_https options r ≡ false
        → options.tls_enabled ≡ false
        → r.tls ≡ true
        → Rule heap (error_response 503)
    healthy_while_held :
        ReachesService
        → b.pause_controller.state ≢ running
        → is_health_check_request b.target_options r ≡ true
        → Rule heap (write_header 200)
    stopped_service :
        Held
        → b.pause_controller.state ≡ stopped
        → Rule heap (stop_page b.pause_controller.stop_message)
    to_balancer :
        ReachesService
        → b.pause_controller.state ≡ running
        → Rule
            (start_load_balancer_request now r b heap).1
            (start_load_balancer_request now r b heap).2
    pause_expired : Waited → l.wait_end ≡ expired → Rule l.targets (error_response 504)
    stopped_while_waiting :
        Waited
        → l.wait_end ≡ woken
        → l.body.pause_controller.state ≡ stopped
        → Rule l.targets (stop_page l.body.pause_controller.stop_message)
    released :
        Waited
        → l.wait_end ≡ woken
        → l.body.pause_controller.state ≢ stopped
        → Rule
            (start_load_balancer_request l.now r l.body l.targets).1
            (start_load_balancer_request l.now r l.body l.targets).2

  abbrev Follows : Body F × (ℕ → Target) × Handled → Type 0
  Follows x = Rule x.1 x.2

  ending : World
  ending = record { controller = l.body.pause_controller; heap = l.channels }
