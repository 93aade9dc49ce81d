-- ===== src/PauseController.antt =====
-- internal/server/pause_controller.go: requests wait while a service is paused.
-- A channel is a number; the heap says which channels were made and which are closed. Text that is
-- only passed on is a `String`, a duration a number of nanoseconds.
pub mod Signals
pub mod Restore
pub mod Waits
mod Tests
use kamal_proxy.Base.{
  ℕ, suc, String, ◌≡◌, Bool, true, false, List, [], ◌∷◌, Option, none, some, ◌==◌, if◌then◌else◌,
}

pub data PauseState : Type 0 where
  running paused stopped : PauseState

pub data WaitAction : Type 0 where
  proceed timed_out stop_request : WaitAction

pub record PauseController : Type 0 where
  pub state : PauseState
  pub stop_message : String
  pub fail_after : ℕ
  pub pause_channel : Option ℕ

-- The channels made so far are those below `made`.
pub record Heap : Type 0 where
  pub made : ℕ
  pub is_closed : ℕ → Bool

pub record World : Type 0 where
  pub controller : PauseController
  pub heap : Heap

-- Closing a nil channel, or a closed one, panics.
pub data Result {ℓ} (A : Type ℓ) : Type ℓ where
  ok : A → Result A
  panic : Result A

pub new_pause_controller : PauseController
new_pause_controller = record {
  state = running;
  stop_message = "";
  fail_after = 0;
  pause_channel = none;
}

unfoldable pub close_channel : Option ℕ → Heap → Result Heap
close_channel none h = panic
close_channel (some c) h =
    if h.is_closed c
    then panic
    else ok (record h { is_closed = λ d. if c == d then true else h.is_closed d })

-- `p.State != newState && p.State == PauseStatePaused`
pub leaves_pause : PauseState → PauseState → Bool
leaves_pause paused paused = false
leaves_pause paused _ = true
leaves_pause _ _ = false

pub set_state : PauseState → String → World → Result World
set_state new_state message w =
    let c = w.controller in
    let c' = record c { state = new_state; stop_message = message } in
    if leaves_pause c.state new_state
    then (elim (close_channel c.pause_channel w.heap) [
      | panic ↦ panic
      | ok h ↦ ok (record { controller = c'; heap = h })
    ])
    else ok (record { controller = c'; heap = w.heap })

pub stop : String → World → Result World
stop message w = set_state stopped message w

pub resume : World → Result World
resume w = set_state running "" w

pub is_paused : PauseState → Bool
is_paused paused = true
is_paused _ = false

pub pause : ℕ → World → World
pause fail_after w =
    let c = w.controller in
    let h = w.heap in
    if is_paused c.state
    then record w {
      controller = record c { state = paused; stop_message = ""; fail_after = fail_after };
    }
    else record {
      controller = record {
        state = paused;
        stop_message = "";
        fail_after = fail_after;
        pause_channel = some h.made;
      };
      heap = record {
        made = suc h.made;
        is_closed = λ d. if h.made == d then false else h.is_closed d;
      };
    }

-- What getWaitState hands to Wait: an answer at once, or a channel and a time limit to wait on.
pub data WaitState : Type 0 where
  answer : WaitAction → String → WaitState
  blocked : Option ℕ → ℕ → WaitState

pub get_wait_state : World → WaitState
get_wait_state w = elim w.controller.state [
  | running ↦ answer proceed ""
  | stopped ↦ answer stop_request w.controller.stop_message
  | paused ↦ blocked w.controller.pause_channel w.controller.fail_after
]

-- The receive from the channel can go on where the channel is closed; from nil it never can.
pub can_wake : Option ℕ → World → Bool
can_wake none w = false
can_wake (some c) w = w.heap.is_closed c

-- The branch of `select` for the channel, which reads the state anew; the other branch is `timed_out`.
unfoldable pub on_signal : World → WaitAction × String
on_signal w = elim w.controller.state [
  | stopped ↦ (stop_request, w.controller.stop_message)
  | _ ↦ (proceed, "")
]

-- UnmarshalJSON: `state` to `fail_after` were decoded into a fresh controller, whose channel is nil.
pub unmarshal_json : PauseState → String → ℕ → Heap → Result World
unfolding pause resume stop
unmarshal_json state message fail_after h =
    let c : PauseController = record {
      state = state;
      stop_message = message;
      fail_after = fail_after;
      pause_channel = none;
    } in
    let w : World = record { controller = c; heap = h } in
    elim state [ running ↦ resume w | paused ↦ ok (pause fail_after w) | stopped ↦ stop message w ]

-- The fields of the pause controller that are saved.
pub record SavedPause : Type 0 where
  pub state : PauseState
  pub stop_message : String
  pub fail_after : ℕ

-- json.Marshal of a controller
pub marshal_pause : PauseController → SavedPause
marshal_pause c = record {
  state = c.state;
  stop_message = c.stop_message;
  fail_after = c.fail_after;
}

-- json.Unmarshal into a fresh controller
pub unmarshal_pause : SavedPause → Heap → Result World
unfolding unmarshal_json
unmarshal_pause s h = unmarshal_json s.state s.stop_message s.fail_after h
