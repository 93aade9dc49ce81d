-- ===== src/PauseController/Restore.antt =====
-- A controller that was decoded from the saved state.
use kamal_proxy.Base.{ℕ, String, ◌≡◌, refl, ◌≢◌, false, none, arith}
use kamal_proxy.PauseController.{
  PauseState, PauseController, marshal_pause, unmarshal_pause, running, paused, stopped, World,
  Heap, ok, panic, set_state, stop, resume, close_channel, leaves_pause, is_paused, get_wait_state,
  blocked, can_wake, unmarshal_json,
}
use kamal_proxy.PauseController.Signals.{IsLive}

-- What holds of the controller that is read again, where it was not paused.
abbrev pub Restored : PauseController → Heap → World → Type 0
Restored c h w =
    (w.controller.state ≡ c.state)
    × (w.controller.fail_after ≡ c.fail_after)
    × (c.state ≡ stopped → w.controller.stop_message ≡ c.stop_message)
    × (get_wait_state w ≡ get_wait_state (record { controller = c; heap = h }))
    × IsLive w

restored :
    (c : PauseController) (state : PauseState) (h h' : Heap)
    → state ≡ c.state
    → state ≢ paused
    → (w : World) × (unmarshal_json state c.stop_message c.fail_after h ≡ ok w) × Restored c h' w
unfolding unmarshal_json set_state leaves_pause get_wait_state
restored c running h h' e k =
    (_, refl, (e, refl, λ f. ground arith, rw (← e) refl, record { open_channel = λ e. cc }))
restored c paused h h' e k = absurd (k refl)
restored c stopped h h' e k =
    (_, refl, (e, refl, λ f. refl, rw (← e) refl, record { open_channel = λ e. cc }))

-- A controller that is saved while it runs or is stopped, and read again, has the same state, limit
-- and message of the stop, answers each request as the one that was saved, and can be driven on.
pub unmarshal_pause-marshal_pause :
    (c : PauseController) (h h' : Heap)
    → c.state ≢ paused
    → (w : World) × (unmarshal_pause (marshal_pause c) h ≡ ok w) × Restored c h' w
unfolding unmarshal_pause marshal_pause
unmarshal_pause-marshal_pause c h h' k = restored c c.state h h' refl k

-- The bug: a controller that was saved while paused is restored without a channel. A request that
-- waits on it can only time out, and ending the pause, by `Resume` or by `Stop`, panics.
pub unmarshal_json_paused :
    (message reason : String) (d : ℕ) (h : Heap)
    → (w : World) × (unmarshal_json paused message d h ≡ ok w)
      × (get_wait_state w ≡ blocked none d)
      × (can_wake none w ≡ false)
      × (resume w ≡ panic)
      × (stop reason w ≡ panic)
unfolding unmarshal_json is_paused get_wait_state can_wake set_state leaves_pause close_channel
unmarshal_json_paused message reason d h = (_, refl, refl, refl, refl, refl)
