-- ===== src/Router/Calls.antt =====
-- internal/server/router.go: the calls other than the two that deploy.
use Prim.Native.String.{◌++◌ as append}
pub mod Whole
pub mod Sound
use text.Mathlib.Text.{◌==◌ as str_eq}
use kamal_proxy.Base.{
  ℕ, String, Bool, true, false, ◌&&◌, not, List, [], ◌∷◌, ◌++◌, Option, none, some, if◌then◌else◌,
}
use kamal_proxy.Base.Int.{ℤ}
use kamal_proxy.Base.Assoc.{Assoc, get, put, remove, string_eq, same_bytes}
use kamal_proxy.Paths.{Text, root_path}
use kamal_proxy.ServiceMap
use kamal_proxy.ServiceMap.{
  ServiceMap, Sorting, set_service, PathBinding, service_for_request, service_for_host,
  ServiceOptions, Service,
}
use kamal_proxy.PauseController
use kamal_proxy.PauseController.{
  PauseState, running, paused, stopped, panic, pause, stop, resume, ok as went,
}
use kamal_proxy.LoadBalancer
use kamal_proxy.LoadBalancer.{LoadBalancer}
use kamal_proxy.Rollout.{Float}
use kamal_proxy.Service.{
  TargetOptions, Files, CertManager, service_not_found, Result, ok, err, Outcome, done, failed,
  panicked, Body, Object, stop_rollout, set_rollout_split, dispose_service,
}
use kamal_proxy.Service.Draining.{Targets, drain_service}
use kamal_proxy.Service.State.{MarshalledService, unmarshal_json_service}
use kamal_proxy.Router.{
  Router, no_services, Setting, service_for_name, put_body, put_targets, save_state_snapshot,
  deploy_service, set_rollout_targets,
}

pub of_result : Result (Unit {0}) → Outcome (Unit {0})
of_result (ok u) = done u
of_result (err e) = failed e

-- The calls of the commands that change the router.
pub data Call : Type 0 where
  deploy :
      String → List String → List String → ServiceOptions → TargetOptions → List (ℕ × Bool) → Call
  rollout_deploy : String → List String → List String → List (ℕ × Bool) → Call
  rollout_set : String → ℤ → List String → Call
  rollout_stop remove_call resume_call : String → Call
  pause_call : String → ℕ → Call
  stop_call : String → String → Call

module _ {F : Type 0} where
  pub call_on :
      (Object F → Router F → Router F × Outcome (Unit {0}))
      → Option (Object F)
      → Router F
      → Router F × Outcome (Unit {0})
  call_on call none r = (r, failed service_not_found)
  call_on call (some o) r = call o r

  -- The call on the service, after which the state is saved.
  pub on_service :
      Setting
      → String
      → (Object F → Router F → Router F × Outcome (Unit {0}))
      → Router F
      → Router F × Outcome (Unit {0})
  unfolding call_on
  on_service setting name call r =
      let (r', outcome) = call_on call (service_for_name name r) r in
      (save_state_snapshot setting.writable r', outcome)

  pub set_rollout_split_of :
      ⦃f : Float F⦄ → Setting → String → ℤ → List String → Router F → Router F × Outcome (Unit {0})
  unfolding on_service put_body of_result
  set_rollout_split_of setting name percentage allowlist = on_service setting name λ o r.
      let (b, result) = set_rollout_split percentage allowlist o.body in
      (put_body name b r, of_result result)

  pub stop_rollout_of : Setting → String → Router F → Router F × Outcome (Unit {0})
  unfolding on_service put_body
  stop_rollout_of setting name =
      on_service setting name λ o r. (put_body name (stop_rollout o.body) r, done tt)

  -- The service is taken from the map.
  pub remove_object : Setting → String → Router F → Router F
  remove_object setting name r = record r {
    services = ServiceMap.remove_service setting.sorting name r.services;
    bodies = remove name r.bodies;
  }

  pub remove_service : Setting → String → Router F → Router F × Outcome (Unit {0})
  unfolding on_service put_targets remove_object
  remove_service setting name = on_service setting name λ o r.
      elim (dispose_service o.body r.heap.targets) [
        | none ↦ (r, panicked)
        | some targets ↦ (remove_object setting name (put_targets targets r), done tt)
      ]

  -- The service with its pause controller set, and the channels after that.
  pub put_controller : String → Object F → PauseController.World → Router F → Router F
  unfolding put_body
  put_controller name o w r =
      record (put_body name (record o.body { pause_controller = w.controller }) r) {
        channels = w.heap;
      }

  pub drain_targets_of : Setting → Object F → Router F → Router F
  unfolding put_targets
  drain_targets_of setting o r =
      put_targets (drain_service setting.meanwhile o.body r.heap.targets) r

  pub pause_service : Setting → String → ℕ → Router F → Router F × Outcome (Unit {0})
  unfolding on_service put_controller drain_targets_of
  pause_service setting name pause_timeout = on_service setting name λ o r.
      let w =
        pause pause_timeout (record { controller = o.body.pause_controller; heap = r.channels }) in
      (drain_targets_of setting o (put_controller name o w r), done tt)

  pub stop_service : Setting → String → String → Router F → Router F × Outcome (Unit {0})
  unfolding on_service put_controller drain_targets_of
  stop_service setting name message = on_service setting name λ o r.
      elim (stop message (record { controller = o.body.pause_controller; heap = r.channels })) [
        | panic ↦ (r, panicked)
        | went w ↦ (drain_targets_of setting o (put_controller name o w r), done tt)
      ]

  pub resume_service : Setting → String → Router F → Router F × Outcome (Unit {0})
  unfolding on_service put_controller
  resume_service setting name = on_service setting name λ o r.
      elim (resume (record { controller = o.body.pause_controller; heap = r.channels })) [
        | panic ↦ (r, panicked)
        | went w ↦ (put_controller name o w r, done tt)
      ]

  pub perform : ⦃f : Float F⦄ → Setting → Call → Router F → Router F × Outcome (Unit {0})
  unfolding set_rollout_split_of stop_rollout_of remove_service pause_service stop_service
      resume_service
  perform setting (deploy name names readers options target_options checks) r =
      deploy_service setting name names readers options target_options checks r
  perform setting (rollout_deploy name names readers checks) r =
      set_rollout_targets setting name names readers checks r
  perform setting (rollout_set name percentage allowlist) r =
      set_rollout_split_of setting name percentage allowlist r
  perform setting (rollout_stop name) r = stop_rollout_of setting name r
  perform setting (remove_call name) r = remove_service setting name r
  perform setting (resume_call name) r = resume_service setting name r
  perform setting (pause_call name limit) r = pause_service setting name limit r
  perform setting (stop_call name message) r = stop_service setting name message r
