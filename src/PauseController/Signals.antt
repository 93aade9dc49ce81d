-- ===== src/PauseController/Signals.antt =====
-- Waiting requests and the calls that change the state, interleaved: no wake-up is lost.
use kamal_proxy.Base.{
  ℕ, ◌<◌, String, ◌≡◌, refl, ◌≢◌, ◌⊎◌, inl, inr, true, false, List, [], ◌∷◌, ◌++◌, Option, none,
  some, arith, sym, ◌∙◌, All, Bool-cases,
}
use kamal_proxy.PauseController.{
  PauseState, running, paused, stopped, World, ok, panic, set_state, stop, resume, pause,
  close_channel, leaves_pause, is_paused, get_wait_state, blocked, can_wake, new_pause_controller,
  on_signal, proceed, stop_request,
}

-- A paused controller has a channel that was made and is open.
pub record IsLive (w : World) : Type 0 where
  pub open_channel :
      w.controller.state ≡ paused
      → (c : ℕ) × (w.controller.pause_channel ≡ some c)
        × (w.heap.is_closed c ≡ false)
        × (c < w.heap.made)

-- The channel that a request waits on is closed already, or the one that the pause will close.
abbrev pub IsServed : World → Option ℕ → Type 0
IsServed w none = ⊥
IsServed w (some c) =
    (c < w.heap.made)
    × ((w.heap.is_closed c ≡ true)
        ⊎ ((w.controller.state ≡ paused) × (w.controller.pause_channel ≡ some c)))

-- A controller with the channels of the requests that wait on it.
pub record System : Type 0 where
  pub world : World
  pub waiters : List (Option ℕ)

-- Calls and requests in any order. A request leaves when its channel or its time limit lets it.
pub data Step : System → System → Type 0 where
  pauses : (s : System) (fail_after : ℕ) → Step s (record s { world = pause fail_after s.world })
  resumes : (s : System) (w : World) → resume s.world ≡ ok w → Step s (record s { world = w })
  stops :
      (s : System) (message : String) (w : World)
      → stop message s.world ≡ ok w
      → Step s (record s { world = w })
  arrives :
      (s : System) (c : Option ℕ) (fail_after : ℕ)
      → get_wait_state s.world ≡ blocked c fail_after
      → Step s (record s { waiters = c ∷ s.waiters })
  leaves :
      (s : System) (before after : List (Option ℕ)) (c : Option ℕ)
      → s.waiters ≡ before ++ (c ∷ after)
      → Step s (record s { waiters = before ++ after })

pub data Reach (s : System) : System → Type 0 where
  here : Reach s s
  next : {t u : System} → Reach s t → Step t u → Reach s u

pub record Inv (s : System) : Type 0 where
  pub live : IsLive s.world
  pub served : All (IsServed s.world) s.waiters

set_state-ne-panic :
    (target : PauseState) (message : String) (w : World)
    → IsLive w
    → set_state target message w ≢ panic
unfolding set_state close_channel leaves_pause
set_state-ne-panic target message w v = ground arith

-- A state change closes the channel of a pause that it ends.
set_state_lem :
    (target : PauseState) (message : String) (w w' : World)
    → target ≢ paused
    → IsLive w
    → set_state target message w ≡ ok w'
    → (w'.controller.state ≡ target) × (w'.controller.stop_message ≡ message) × IsLive w'
unfolding set_state close_channel leaves_pause
set_state_lem target message w w' h v e = ground arith

set_state-IsServed :
    (target : PauseState) (message : String) (w w' : World) (c : Option ℕ)
    → target ≢ paused
    → IsLive w
    → set_state target message w ≡ ok w'
    → IsServed w c
    → IsServed w' c
unfolding set_state close_channel leaves_pause
set_state-IsServed target message w w' none h v e d = d
set_state-IsServed target message w w' (some c) h v e d = ground arith

is_paused→eq : (s : PauseState) → is_paused s ≡ true → s ≡ paused
unfolding is_paused
is_paused→eq s h = ground arith

pause-IsLive : (d : ℕ) (w : World) → IsLive w → IsLive (pause d w)
unfolding pause is_paused
pause-IsLive d w v = elim (Bool-cases (is_paused w.controller.state)) [
  | inl e ↦ rw (e, pause) (record { open_channel = λ _. v.open_channel (is_paused→eq _ e) })
  | inr e ↦
      rw (e, pause) (record { open_channel = λ _. (w.heap.made, refl, ground arith, omega arith) })
]

pause-IsServed : (d : ℕ) (w : World) (c : Option ℕ) → IsServed w c → IsServed (pause d w) c
unfolding pause is_paused
pause-IsServed d w none h = h
pause-IsServed d w (some c) h = ground arith

All-map {ℓ κ} :
    {A : Type ℓ} (P Q : A → Type κ) (xs : List A) → ((a : A) → P a → Q a) → All P xs → All Q xs
All-map P Q [] f h = tt
All-map P Q (x ∷ xs) f h = (f x h.0, All-map P Q xs f h.1)

All-drop {ℓ κ} :
    {A : Type ℓ} (P : A → Type κ) (xs ys : List A) (a : A)
    → All P (xs ++ (a ∷ ys))
    → All P (xs ++ ys)
All-drop P [] ys a h = h.1
All-drop P (x ∷ xs) ys a h = (h.0, All-drop P xs ys a h.1)

arrives-IsServed :
    (w : World) (c : Option ℕ) (d : ℕ) → IsLive w → get_wait_state w ≡ blocked c d → IsServed w c
unfolding get_wait_state
arrives-IsServed w none d v e = ground arith
arrives-IsServed w (some c) d v e = ground arith

change_state-Inv :
    (s : System) (w : World) (target : PauseState) (message : String)
    → target ≢ paused
    → set_state target message s.world ≡ ok w
    → Inv s
    → Inv (record s { world = w })
change_state-Inv s w target message h e v = record {
  live = (set_state_lem target message s.world w h v.live e).2;
  served =
      All-map _ _ s.waiters (λ c. set_state-IsServed target message s.world w c h v.live e)
        v.served;
}

-- Every step of the system keeps the invariant.
Step-Inv : {s t : System} → Step s t → Inv s → Inv t
unfolding resume stop
Step-Inv (pauses s d) v = record {
  live = pause-IsLive d s.world v.live;
  served = All-map _ _ s.waiters (pause-IsServed d s.world) v.served;
}
Step-Inv (resumes s w e) v = change_state-Inv s w running "" (λ x. cc) e v
Step-Inv (stops s m w e) v = change_state-Inv s w stopped m (λ x. cc) e v
Step-Inv (arrives s c d e) v = record {
  live = v.live;
  served = (arrives-IsServed s.world c d v.live e, v.served);
}
Step-Inv (leaves s before after c e) v = record {
  live = v.live;
  served = All-drop _ before after c (rw e at v.served);
}

abbrev pub fresh : World
fresh = record {
  controller = new_pause_controller;
  heap = record { made = 0; is_closed = λ c. false };
}

abbrev pub start : System
start = record { world = fresh; waiters = [] }

start-Inv : Inv start
unfolding new_pause_controller
start-Inv = record { live = record { open_channel = λ e. cc }; served = tt }

Reach-Inv : {s t : System} → Reach s t → Inv s → Inv t
Reach-Inv here v = v
Reach-Inv (next r st) v = Step-Inv st (Reach-Inv r v)

-- After any history that begins with a new controller, neither `Resume` nor `Stop` panics.
pub Reach-ne-panic :
    (s : System) (message : String)
    → Reach start s
    → (resume s.world ≢ panic) × (stop message s.world ≢ panic)
unfolding resume stop
Reach-ne-panic s message r =
    let v = (Reach-Inv r start-Inv).live in
    (set_state-ne-panic running "" s.world v, set_state-ne-panic stopped message s.world v)

abbrev pub AllWake : System → Type 0
AllWake s = All (λ c. can_wake c s.world ≡ true) s.waiters

IsServed-can_wake :
    (w : World) (c : Option ℕ) → w.controller.state ≢ paused → IsServed w c → can_wake c w ≡ true
unfolding can_wake
IsServed-can_wake w none h d = absurd d
IsServed-can_wake w (some c) h d = ground arith

-- No wake-up is lost: after any history that begins with a new controller and leaves it not
-- paused, each request that still waits can go on.
pub Reach-AllWake : (s : System) → Reach start s → s.world.controller.state ≢ paused → AllWake s
Reach-AllWake s r h =
    All-map _ _ s.waiters (λ c. IsServed-can_wake s.world c h) (Reach-Inv r start-Inv).served

-- After any history that begins with a new controller, a request that has to wait is held: its
-- channel is open, and its time limit is that of the pause.
pub Reach-held :
    (s : System) (c : Option ℕ) (d : ℕ)
    → Reach start s
    → get_wait_state s.world ≡ blocked c d
    → (s.world.controller.state ≡ paused)
      × (can_wake c s.world ≡ false)
      × (d ≡ s.world.controller.fail_after)
unfolding get_wait_state can_wake
Reach-held s c d r e = let v = (Reach-Inv r start-Inv).live in ground (arith, v)

-- What ends the pause decides the answer: a held request is let go by `Stop` with the message
-- given, and by `Resume` to proceed.
pub Reach-answers :
    (s : System) (c : Option ℕ) (d : ℕ) (message : String) (w : World)
    → Reach start s
    → get_wait_state s.world ≡ blocked c d
    → (stop message s.world ≡ ok w
        → (can_wake c w ≡ true) × (on_signal w ≡ (stop_request, message)))
      × (resume s.world ≡ ok w → (can_wake c w ≡ true) × (on_signal w ≡ (proceed, "")))
unfolding stop resume on_signal
Reach-answers s c d message w r e = (
  λ f.
      let t = set_state_lem stopped message s.world w (λ x. cc) v f in
      (woken stopped message f (λ x. cc), ground (arith, t.0, t.1)),
  λ f.
      let t = set_state_lem running "" s.world w (λ x. cc) v f in
      (woken running "" f (λ x. cc), ground (arith, t.0)),
)
  where
    v : IsLive s.world
    v = (Reach-Inv r start-Inv).live

    woken :
        (target : PauseState) (m : String)
        → set_state target m s.world ≡ ok w
        → target ≢ paused
        → can_wake c w ≡ true
    woken target m f k =
        IsServed-can_wake w c (λ x. k (sym (set_state_lem target m s.world w k v f).0 ∙ x))
          (set_state-IsServed target m s.world w c k v f (arrives-IsServed s.world c d v e))
