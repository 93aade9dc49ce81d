-- ===== src/LoadBalancer/TargetList/Watched.antt =====
-- The health checks of a new balancer with several targets go on.
use kamal_proxy.Base.{
  ℕ, ◌≡◌, refl, inl, inr, Bool, true, false, List, [], ◌∷◌, arith, Elem, if◌then◌else◌, ap, ◌∙◌,
  Bool-cases,
}
use std.Path.{subst}
use kamal_proxy.Target.{Target, begin_health_checks, health_check_completed}
use kamal_proxy.LoadBalancer.{
  LoadBalancer, World, set_target, on_targets, new_load_balancer, update_healthy_targets,
  health_checked, same_state,
}
use kamal_proxy.LoadBalancer.TargetList.{wait_until_healthy}

-- A target whose health checks run.
abbrev pub IsWatched : (ℕ → Target) → ℕ → Type 0
IsWatched heap a = (heap a).health_checks ≡ true

begun-IsWatched :
    (a : ℕ) (ts : List ℕ) (w : World)
    → IsWatched w.targets a
    → IsWatched (on_targets begin_health_checks ts w).targets a
unfolding on_targets set_target begin_health_checks
begun-IsWatched a [] w h = h
begun-IsWatched a (b ∷ ts) w h =
    begun-IsWatched a ts (set_target b (begin_health_checks (w.targets b)) w) (ground arith)

begins :
    (a : ℕ) (ts : List ℕ) (w : World)
    → Elem a ts
    → IsWatched (on_targets begin_health_checks ts w).targets a
unfolding on_targets set_target begin_health_checks
begins a [] w i = absurd i
begins a (b ∷ ts) w (inl e) =
    begun-IsWatched a ts (set_target b (begin_health_checks (w.targets b)) w) (ground arith)
begins a (b ∷ ts) w (inr i) = begins a ts (set_target b (begin_health_checks (w.targets b)) w) i

on_targets-lb : (f : Target → Target) (ts : List ℕ) (w : World) → (on_targets f ts w).lb ≡ w.lb
unfolding on_targets set_target
on_targets-lb f [] w = refl
on_targets-lb f (a ∷ ts) w = on_targets-lb f ts (set_target a (f (w.targets a)) w)

-- All targets of a balancer with several are watched.
abbrev pub AllWatched : World → Type 0
AllWatched w = w.lb.multi_target ≡ true → (a : ℕ) → Elem a w.lb.all → IsWatched w.targets a

begun-AllWatched :
    (ts : List ℕ) (w : World) → w.lb.all ≡ ts → AllWatched (on_targets begin_health_checks ts w)
begun-AllWatched ts w e m a i =
    let all : (on_targets begin_health_checks ts w).lb.all ≡ ts =
      ap (λ (lb : LoadBalancer). lb.all) (on_targets-lb begin_health_checks ts w) ∙ e in
    begins a ts w (subst (λ xs. Elem a xs) all i)

pub new-AllWatched :
    (ts : List ℕ) (timeout : ℕ) (websockets : Bool) (heap : ℕ → Target)
    → AllWatched (new_load_balancer ts timeout websockets heap)
unfolding new_load_balancer
new-AllWatched ts timeout websockets heap = begun-AllWatched ts _ refl

update-AllWatched : (w : World) → AllWatched w → AllWatched (update_healthy_targets w)
unfolding update_healthy_targets
update-AllWatched w h m a i = let k = h m a i in ground arith

completed-health_checks :
    (success : Bool) (t : Target)
    → (health_check_completed success t).health_checks ≡ t.health_checks
unfolding health_check_completed
completed-health_checks true t = refl
completed-health_checks false t = ground arith

set-AllWatched :
    (success : Bool) (a : ℕ) (w : World)
    → AllWatched w
    → AllWatched (set_target a (health_check_completed success (w.targets a)) w)
unfolding set_target
set-AllWatched success a w h m b i =
    let k = h m b i in ground (arith, completed-health_checks success (w.targets a))

checked-AllWatched :
    (success : Bool) (a : ℕ) (w : World) → AllWatched w → AllWatched (health_checked success a w)
unfolding health_checked
checked-AllWatched success a w h =
    let t = health_check_completed success (w.targets a) in
    let k = set-AllWatched success a w h in
    elim (Bool-cases (same_state t.state (w.targets a).state)) [
      | inl e ↦ rw (e, health_checked) k
      | inr e ↦ rw (e, health_checked) (update-AllWatched (set_target a t w) k)
    ]

either-AllWatched :
    (b : Bool) (w w' : World) → AllWatched w → AllWatched w' → AllWatched (if b then w else w')
either-AllWatched true w w' h h' = h
either-AllWatched false w w' h h' = h'

pub wait-AllWatched :
    (checks : List (ℕ × Bool)) (w : World) → AllWatched w → AllWatched (wait_until_healthy checks w)
unfolding wait_until_healthy
wait-AllWatched [] w h = h
wait-AllWatched ((a, success) ∷ checks) w h =
    either-AllWatched w.lb.marked_healthy w (wait_until_healthy checks (health_checked success a w))
      h (wait-AllWatched checks (health_checked success a w) (checked-AllWatched success a w h))
