-- ===== src/LoadBalancer.antt =====
-- internal/server/load_balancer.go: the healthy targets of a service, and which takes a request.
-- Targets are addresses on a heap, as they change under the balancer. Header texts are lists of
-- bytes.
pub mod Request
pub mod Response
pub mod TargetList
pub mod Picks
pub mod Rotation
pub mod Healthy
mod Tests
use text.Mathlib.Text.{◌==◌ as str_eq}
use Prim.Native.String.{◌++◌ as append}
use kamal_proxy.Base.{
  ℕ, zero, suc, ◌+◌, ◌-◌, ◌*◌, ◌^◌, ◌%◌, String, Bool, true, false, ◌&&◌, ◌||◌, not, List, [], ◌∷◌,
  Option, none, some, ltb, leb, ◌==◌, if◌then◌else◌, length, get_elem?,
}
use kamal_proxy.Base.Assoc.{same_bytes}
use kamal_proxy.Base.Int.{ℤ, pos, negsuc, ltb_ℤ, sub_ℕ}
use kamal_proxy.Target.{
  Target, TargetState, healthy, is_draining, start_request, stop_health_checks, begin_health_checks,
  update_state, health_check_completed,
}

pub record LoadBalancer : Type 0 where
  pub all : List ℕ
  pub writers : List ℕ
  pub readers : List ℕ
  pub writer_affinity_timeout : ℕ
  pub read_targets_accept_websockets : Bool
  pub writer_index : ℕ
  pub reader_index : ℕ
  pub multi_target : Bool
  pub has_readers : Bool
  pub marked_healthy : Bool

pub record World : Type 0 where
  pub lb : LoadBalancer
  pub targets : ℕ → Target

pub set_target : ℕ → Target → World → World
set_target a t w = record w { targets = λ b. if a == b then t else w.targets b }

-- A call on each target in turn.
pub on_targets : (Target → Target) → List ℕ → World → World
unfolding set_target
on_targets f [] w = w
on_targets f (a ∷ ts) w = on_targets f ts (set_target a (f (w.targets a)) w)

pub has_read_only : (ℕ → Target) → List ℕ → Bool
has_read_only heap [] = false
has_read_only heap (a ∷ ts) = (heap a).read_only || has_read_only heap ts

pub targets_matching_readonly : Bool → (ℕ → Target) → List ℕ → List ℕ
targets_matching_readonly read_only heap [] = []
targets_matching_readonly read_only heap (a ∷ ts) =
    let rest = targets_matching_readonly read_only heap ts in
    let same = if read_only then (heap a).read_only else not (heap a).read_only in
    if same then a ∷ rest else rest

pub write_targets : World → List ℕ
unfolding targets_matching_readonly
write_targets w = targets_matching_readonly false w.targets w.lb.all

pub read_targets : World → List ℕ
unfolding targets_matching_readonly
read_targets w = targets_matching_readonly true w.targets w.lb.all

pub names : (ℕ → Target) → List ℕ → List String
names heap [] = []
names heap (a ∷ ts) = (heap a).address ∷ names heap ts

pub new_load_balancer : List ℕ → ℕ → Bool → (ℕ → Target) → World
unfolding on_targets has_read_only
new_load_balancer targets timeout websockets heap =
    let lb : LoadBalancer = record {
      all = targets;
      writers = [];
      readers = [];
      writer_affinity_timeout = timeout;
      read_targets_accept_websockets = websockets;
      writer_index = 0;
      reader_index = 0;
      multi_target = ltb 1 (length targets);
      has_readers = has_read_only heap targets;
      marked_healthy = false;
    } in
    on_targets begin_health_checks targets (record { lb = lb; targets = heap })

pub is_healthy : TargetState → Bool
is_healthy healthy = true
is_healthy _ = false

-- The healthy targets that are readers, or that are writers.
pub healthy_targets : Bool → (ℕ → Target) → List ℕ → List ℕ
unfolding is_healthy
healthy_targets reader heap [] = []
healthy_targets reader heap (a ∷ ts) =
    let rest = healthy_targets reader heap ts in
    let kind = if reader then (heap a).read_only else not (heap a).read_only in
    if is_healthy (heap a).state && kind then a ∷ rest else rest

pub healthy_count : (ℕ → Target) → List ℕ → ℕ
unfolding is_healthy
healthy_count heap [] = 0
healthy_count heap (a ∷ ts) =
    let rest = healthy_count heap ts in if is_healthy (heap a).state then suc rest else rest

pub update_healthy_targets : World → World
unfolding healthy_targets healthy_count on_targets
update_healthy_targets w =
    let writers = healthy_targets false w.targets w.lb.all in
    let readers = healthy_targets true w.targets w.lb.all in
    let all_healthy = healthy_count w.targets w.lb.all == length w.lb.all in
    let w₁ =
      if not w.lb.multi_target && (length writers == 1)
      then on_targets stop_health_checks w.lb.all w
      else w in
    record w₁ {
      lb = record w.lb {
        writers = writers;
        readers = readers;
        marked_healthy = if all_healthy then true else w.lb.marked_healthy;
      };
    }

same_state : TargetState → TargetState → Bool
same_state TargetState.adding TargetState.adding = true
same_state TargetState.draining TargetState.draining = true
same_state TargetState.healthy TargetState.healthy = true
same_state TargetState.unhealthy TargetState.unhealthy = true
same_state _ _ = false

-- HealthCheckCompleted of a target, whose consumer is the load balancer.
pub health_checked : Bool → ℕ → World → World
unfolding set_target update_healthy_targets same_state
health_checked success a w =
    let t = health_check_completed success (w.targets a) in
    let w' = set_target a t w in
    if same_state t.state (w.targets a).state then w' else update_healthy_targets w'

pub mark_all_healthy : World → World
unfolding on_targets update_healthy_targets
mark_all_healthy w =
    update_healthy_targets (on_targets (λ t. (update_state healthy t).0) w.lb.all w)

pub dispose : World → World
unfolding on_targets
dispose w = on_targets stop_health_checks w.lb.all w

-- What nextTarget answers; `out_of_range` is the panic of a slice.
pub data Picked : Type 0 where
  nil out_of_range : Picked
  target : ℕ → Picked

pub nth : List ℕ → ℕ → Picked
nth xs i = elim (get_elem? xs i) [ none ↦ out_of_range | some t ↦ target t ]

pub next_of : List ℕ → ℕ → ℕ
next_of [] i = i
next_of (x ∷ xs) i = suc i % suc (length xs)

pub next_writer : LoadBalancer → LoadBalancer × Picked
unfolding nth next_of
next_writer lb =
    let i = next_of lb.writers lb.writer_index in
    if ltb 0 (length lb.writers)
    then (record lb { writer_index = i }, nth lb.writers i)
    else (lb, nil)

pub next_target : Bool → LoadBalancer → LoadBalancer × Picked
unfolding next_writer nth next_of
next_target reader lb =
    let i = next_of lb.readers lb.reader_index in
    if reader && ltb 0 (length lb.readers)
    then (record lb { reader_index = i }, nth lb.readers i)
    else next_writer lb
