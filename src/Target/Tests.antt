-- ===== src/Target/Tests.antt =====
-- Runs of a target at concrete inputs.
use kamal_proxy.Base.{◌≡◌, refl, true, false, [], ◌∷◌, some, none, arith}
use kamal_proxy.Base.Assoc.{nat_eq, has}
use kamal_proxy.Target.{
  Target, Drain, healthy, new_target, start_request, begin_drain, end_drain, health_check_completed,
  is_draining, update_state,
}
use kamal_proxy.Target.Steps.{World, done, after, starts, Settled, IsDone, Steps-Settled}
use kamal_proxy.Target.Drains.{drain_ends_requests, request_outlives_drain}

abbrev fresh_world : World
fresh_world = record { target = new_target "a:80" false false; drains = [] }

Steps-Settled_example : Settled (start_request (new_target "a:80" false false)).0
unfolding new_target
Steps-Settled_example =
    Steps-Settled fresh_world (record fresh_world { target = (start_request fresh_world.target).0 })
      (after fresh_world fresh_world
        (record fresh_world { target = (start_request fresh_world.target).0 }) (done fresh_world)
        (starts fresh_world))
      (λ r l. absurd (omega arith))

-- A healthy target with request 0 in flight.
abbrev busy : Target
busy = record {
  address = "a:80";
  read_only = false;
  forward_headers = false;
  state = healthy;
  inflight = 0 ∷ [];
  next_request = 1;
  hijacked = λ r. false;
  cause = λ r. none;
  health_checks = true;
}

abbrev drain : Drain
drain = record { original_state = healthy; to_cancel = 0 ∷ [] }

drain_ends_requests_example : IsDone (end_drain drain busy) 0
unfolding has begin_drain is_draining update_state
drain_ends_requests_example =
    drain_ends_requests busy busy drain 0 [] (record { target = end_drain drain busy; drains = [] })
      refl refl (done (record { target = end_drain drain busy; drains = [] }))

request_outlives_drain_example :
    let draining = (begin_drain busy).0 in
    let started = start_request (health_check_completed true draining) in
    ((start_request draining).1 ≡ none)
    × (started.1 ≡ some 1)
    × ((end_drain drain started.0).cause 1 ≡ none)
unfolding has begin_drain is_draining update_state
request_outlives_drain_example = request_outlives_drain busy drain (refl, refl) refl
