-- ===== src/Service/State.antt =====
-- internal/server/service.go: the state of a service that is saved and read again. The JSON text
-- is left to encoding/json: what is saved is the value that is encoded.
use text.Mathlib.Text.{◌==◌ as str_eq}
use kamal_proxy.Base.{ℕ, String, List, [], ◌∷◌, Option, none, some, if◌then◌else◌}
use kamal_proxy.Paths.{Text}
use kamal_proxy.ServiceMap.{ServiceOptions}
use kamal_proxy.PauseController
use kamal_proxy.PauseController.{
  PauseState, PauseController, SavedPause, marshal_pause, unmarshal_pause, panic, ok as decoded,
}
use kamal_proxy.Target.{Target}
use kamal_proxy.LoadBalancer.{
  LoadBalancer, write_targets, read_targets, names, new_load_balancer, mark_all_healthy,
}
use kamal_proxy.LoadBalancer.TargetList.{Heap, new_target_list}
use kamal_proxy.Rollout.{RolloutController}
use kamal_proxy.Service.{
  TargetOptions, Files, invalid_host_pattern, Result, ok, err, ◌>>=◌, Outcome, done, failed,
  panicked, Object, normalize, initialize,
}

-- A legacy field that is missing is empty.
pub record MarshalledService (F : Type 0) : Type 0 where
  pub name : String
  pub options : ServiceOptions
  pub target_options : TargetOptions
  pub active_targets : List String
  pub active_readers : List String
  pub rollout_targets : List String
  pub rollout_readers : List String
  pub pause_controller : SavedPause
  pub rollout_controller : Option (RolloutController F)
  pub legacy_active_target : String
  pub legacy_rollout_target : String
  pub legacy_hosts : List Text
  pub legacy_path_prefixes : List Text

pub write_names : Option LoadBalancer → (ℕ → Target) → List String
write_names none heap = []
write_names (some lb) heap = names heap (write_targets (record { lb = lb; targets = heap }))

pub read_names : Option LoadBalancer → (ℕ → Target) → List String
read_names none heap = []
read_names (some lb) heap = names heap (read_targets (record { lb = lb; targets = heap }))

-- A service without an active balancer, on which the code panics, has no targets here.
pub marshal_json : {F : Type 0} → Object F → (ℕ → Target) → MarshalledService F
unfolding write_names read_names
marshal_json o heap = record {
  name = o.service.name;
  options = o.service.options;
  target_options = o.body.target_options;
  active_targets = write_names o.body.active heap;
  active_readers = read_names o.body.active heap;
  rollout_targets = write_names o.body.rollout heap;
  rollout_readers = read_names o.body.rollout heap;
  pause_controller = marshal_pause o.body.pause_controller;
  rollout_controller = o.body.rollout_controller;
  legacy_active_target = "";
  legacy_rollout_target = "";
  legacy_hosts = [];
  legacy_path_prefixes = [];
}

-- `len(targets) == 0 && legacy != ""`
pub or_legacy_target : List String → String → List String
or_legacy_target [] legacy = if str_eq legacy "" then [] else legacy ∷ []
or_legacy_target (t ∷ ts) legacy = t ∷ ts

pub or_legacy : List Text → List Text → List Text
or_legacy [] legacy = legacy
or_legacy (t ∷ ts) legacy = t ∷ ts

-- The options that are read, with those of a previous version.
pub restored_options : {F : Type 0} → MarshalledService F → ServiceOptions
unfolding or_legacy
restored_options ms = normalize (record ms.options {
  hosts = or_legacy ms.options.hosts ms.legacy_hosts;
  path_prefixes = or_legacy ms.options.path_prefixes ms.legacy_path_prefixes;
})

-- A balancer whose targets are all taken to be healthy, `none` for no targets.
pub restore_balancer : ServiceOptions → List ℕ → Heap → LoadBalancer × Heap
restore_balancer options ts heap =
    let w = mark_all_healthy (
      new_load_balancer ts options.writer_affinity_timeout options.read_targets_accept_websockets
        heap.targets) in
    (w.lb, record heap { targets = w.targets })

pub target_list : Option (List ℕ × Heap) → Result (List ℕ × Heap)
target_list none = err invalid_host_pattern
target_list (some x) = ok x

pub restore_rollout : ServiceOptions → List ℕ → Heap → Option LoadBalancer × Heap
unfolding restore_balancer
restore_rollout options [] heap = (none, heap)
restore_rollout options (t ∷ ts) heap =
    let (lb, heap') = restore_balancer options (t ∷ ts) heap in (some lb, heap')

module _ {F : Type 0} where
  -- UnmarshalJSON, after its text is decoded and the pause controller with it. On an error the
  -- service is dropped.
  pub restore_object :
      Files → MarshalledService F → PauseController → Heap → Result (Object F × Heap)
  unfolding or_legacy_target restored_options restore_balancer target_list restore_rollout
  restore_object files ms controller heap =
      let options = restored_options ms in
      let forward = ms.target_options.forward_headers in
      let writers = or_legacy_target ms.active_targets ms.legacy_active_target in
      let rollout_writers = or_legacy_target ms.rollout_targets ms.legacy_rollout_target in
      do
        (ts, heap₁) ← target_list (new_target_list writers ms.active_readers forward heap)
        let (lb, heap₂) = restore_balancer options ts heap₁
        (rs, heap₃) ← target_list (new_target_list rollout_writers ms.rollout_readers forward heap₂)
        let (rollout, heap₄) = restore_rollout options rs heap₃
        b ← initialize files options (record {
          target_options = ms.target_options;
          active = some lb;
          rollout = rollout;
          pause_controller = controller;
          rollout_controller = ms.rollout_controller;
          cert_manager = none;
          middleware = none;
        })
        ok (record { service = record { name = ms.name; options = options }; body = b }, heap₄)

  pub outcome :
      PauseController.Heap
      → Result (Object F × Heap)
      → Outcome (Object F × Heap × PauseController.Heap)
  outcome channels (err e) = failed e
  outcome channels (ok (o, heap)) = done (o, heap, channels)

  -- The panic is that of a channel closed twice while the pause controller is decoded.
  pub unmarshal_json_service :
      Files
      → MarshalledService F
      → Heap
      → PauseController.Heap
      → Outcome (Object F × Heap × PauseController.Heap)
  unfolding restore_object outcome
  unmarshal_json_service files ms heap channels =
      elim (unmarshal_pause ms.pause_controller channels) [
        | panic ↦ panicked
        | decoded w ↦ outcome w.heap (restore_object files ms w.controller heap)
      ]
