-- ===== src/LoadBalancer/TargetList.antt =====
-- internal/server/load_balancer.go and target.go: making the targets of a balancer, and the wait
-- until they are healthy. A new target takes the next address of the heap.
pub mod Tests
pub mod Watched
use Prim.Native.String
use kamal_proxy.Base.{
  ℕ, suc, String, Bool, true, false, ◌&&◌, ◌||◌, List, [], ◌∷◌, ◌++◌, Option, none, some, leb, ◌==◌,
  if◌then◌else◌,
}
use kamal_proxy.Rollout.{codes}
use kamal_proxy.Target.{Target, new_target}
use kamal_proxy.LoadBalancer.{LoadBalancer, World, new_load_balancer, health_checked, dispose}

pub record Heap : Type 0 where
  pub targets : ℕ → Target
  pub next_address : ℕ

pub is_digit : ℕ → Bool
is_digit c = leb b'0' c && leb c b'9'

-- `\w`
pub is_word : ℕ → Bool
unfolding is_digit
is_word c =
    is_digit c || ((leb b'a' c && leb c b'z') || ((leb b'A' c && leb c b'Z') || (c == b'_')))

-- `[-_.\w+]`
pub is_host_char : ℕ → Bool
unfolding is_word
is_host_char c = is_word c || ((c == b'-') || ((c == b'.') || (c == b'+')))

pub all_digits : List ℕ → Bool
unfolding is_digit
all_digits [] = true
all_digits (c ∷ cs) = is_digit c && all_digits cs

-- `\d+` to the end
pub is_port : List ℕ → Bool
unfolding all_digits
is_port [] = false
is_port (c ∷ cs) = all_digits (c ∷ cs)

-- `[-_.\w+]+(:\d+)?$`, of which a first character may have been read.
pub matches_host : Bool → List ℕ → Bool
unfolding is_host_char is_port
matches_host begun [] = begun
matches_host begun (c ∷ cs) =
    let rest = matches_host true cs in
    if is_host_char c then rest else (begun && (c == b':')) && is_port cs

-- The regular expression hostRegex.
pub is_host : List ℕ → Bool
unfolding is_word matches_host
is_host [] = false
is_host (c ∷ cs) = is_word c && matches_host false cs

-- NewTarget or NewReadOnlyTarget for each name; `none` is ErrorInvalidHostPattern.
pub new_targets : Bool → Bool → List String → Heap → Option (List ℕ × Heap)
unfolding is_host
new_targets read_only forward_headers [] heap = some ([], heap)
new_targets read_only forward_headers (name ∷ names) heap =
    let a = heap.next_address in
    let t = new_target name read_only forward_headers in
    let rest =
      new_targets read_only forward_headers names
        (record { targets = λ b. if a == b then t else heap.targets b; next_address = suc a }) in
    if is_host (codes name)
    then (elim rest [ none ↦ none | some (ts, heap') ↦ some (a ∷ ts, heap') ])
    else none

pub new_target_list : List String → List String → Bool → Heap → Option (List ℕ × Heap)
unfolding new_targets
new_target_list names readers forward_headers heap =
    elim (new_targets false forward_headers names heap) [
      | none ↦ none
      | some (ts, heap') ↦ elim (new_targets true forward_headers readers heap') [
        | none ↦ none
        | some (rs, heap'') ↦ some (ts ++ rs, heap'')
      ]
    ]

-- WaitUntilHealthy: the health checks that complete before the deadline, in their order. The wait
-- ends as soon as the balancer is marked as healthy.
pub wait_until_healthy : List (ℕ × Bool) → World → World
wait_until_healthy [] w = w
wait_until_healthy ((a, success) ∷ checks) w =
    let rest = wait_until_healthy checks (health_checked success a w) in
    if w.lb.marked_healthy then w else rest
