-- ===== src/PauseController/Waits.antt =====
-- What a request finds in each state of the controller.
use kamal_proxy.Base.{◌≡◌, refl}
use kamal_proxy.PauseController.{
  running, paused, stopped, proceed, stop_request, answer, blocked, get_wait_state, World,
}

pub get_wait_state-running :
    (w : World) → w.controller.state ≡ running → get_wait_state w ≡ answer proceed ""
unfolding get_wait_state
get_wait_state-running w e = rw e refl

pub get_wait_state-stopped :
    (w : World)
    → w.controller.state ≡ stopped
    → get_wait_state w ≡ answer stop_request w.controller.stop_message
unfolding get_wait_state
get_wait_state-stopped w e = rw e refl

pub get_wait_state-paused :
    (w : World)
    → w.controller.state ≡ paused
    → get_wait_state w ≡ blocked w.controller.pause_channel w.controller.fail_after
unfolding get_wait_state
get_wait_state-paused w e = rw e refl
