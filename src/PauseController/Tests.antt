-- ===== src/PauseController/Tests.antt =====
-- A service that is paused while a request arrives, and then resumed.
use kamal_proxy.Base.{◌≡◌, refl, ◌≢◌, false, [], ◌∷◌, none, some}
use kamal_proxy.PauseController.{
  PauseController, marshal_pause, unmarshal_pause, paused, stopped, World, Result, ok, panic,
  resume, stop, pause, blocked, get_wait_state, can_wake, unmarshal_json, set_state, leaves_pause,
  close_channel, is_paused, new_pause_controller,
}
use kamal_proxy.PauseController.Signals.{
  System, Reach, here, next, pauses, resumes, arrives, start, fresh, Reach-ne-panic, AllWake,
  Reach-AllWake,
}
use kamal_proxy.PauseController.Restore.{
  Restored, unmarshal_pause-marshal_pause, unmarshal_json_paused,
}

abbrev paused_world : World
paused_world = pause 30 fresh

abbrev held : System
held = record { world = paused_world; waiters = some 0 ∷ [] }

has_to_wait : get_wait_state paused_world ≡ blocked (some 0) 30
unfolding pause is_paused get_wait_state new_pause_controller
has_to_wait = refl

held-Reach : Reach start held
held-Reach =
    next (next here (pauses start 30))
      (arrives (record start { world = paused_world }) (some 0) 30 has_to_wait)

abbrev result : Result World → World
result (ok w) = w
result panic = fresh

abbrev resumed_world : World
resumed_world = result (resume paused_world)

can_resume : resume paused_world ≡ ok resumed_world
unfolding resume set_state leaves_pause close_channel pause is_paused new_pause_controller
can_resume = refl

resumed-Reach : Reach start (record held { world = resumed_world })
resumed-Reach = next held-Reach (resumes held resumed_world can_resume)

Reach-ne-panic_example : (resume held.world ≢ panic) × (stop "bye" held.world ≢ panic)
Reach-ne-panic_example = Reach-ne-panic held "bye" held-Reach

Reach-AllWake_example : AllWake (record held { world = resumed_world })
unfolding resume set_state leaves_pause close_channel pause is_paused new_pause_controller
Reach-AllWake_example =
    Reach-AllWake (record held { world = resumed_world }) resumed-Reach (λ e. cc)

abbrev stopped_controller : PauseController
stopped_controller = record {
  state = stopped;
  stop_message = "bye";
  fail_after = 5;
  pause_channel = some 0;
}

unmarshal_pause-marshal_pause_example :
    (w : World) × (unmarshal_pause (marshal_pause stopped_controller) fresh.heap ≡ ok w)
    × Restored stopped_controller paused_world.heap w
unmarshal_pause-marshal_pause_example =
    unmarshal_pause-marshal_pause stopped_controller fresh.heap paused_world.heap (λ e. cc)

unmarshal_json_paused_example :
    (w : World) × (unmarshal_json paused "" 30 fresh.heap ≡ ok w)
    × (get_wait_state w ≡ blocked none 30)
    × (can_wake none w ≡ false)
    × (resume w ≡ panic)
    × (stop "bye" w ≡ panic)
unmarshal_json_paused_example = unmarshal_json_paused "" "bye" 30 fresh.heap
