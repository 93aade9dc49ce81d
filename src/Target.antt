-- ===== src/Target.antt =====
-- internal/server/target.go: the state of a target, its requests in flight, and draining.
-- A request is a number, made anew by each start; `cause` is why its context is done, `none` while
-- it is not. Drain is cut where it waits: `begin_drain`, then `end_drain` with what it kept.
pub mod Steps
pub mod Drains
pub mod Errors
mod Tests
use kamal_proxy.Base.{
  ℕ, suc, String, Bool, true, false, ◌||◌, List, [], ◌∷◌, Option, none, some, ◌==◌, if◌then◌else◌,
}
use kamal_proxy.Base.Assoc.{nat_eq, has}

pub data TargetState : Type 0 where
  adding draining healthy unhealthy : TargetState

-- `canceled` is context.Canceled, the cause of `cancel(nil)`; `client_gone` a context that the
-- server cancels.
pub data Cause : Type 0 where
  canceled error_draining client_gone : Cause

pub record Target : Type 0 where
  pub address : String
  pub read_only : Bool
  pub forward_headers : Bool
  pub state : TargetState
  pub inflight : List ℕ
  pub next_request : ℕ
  pub hijacked : ℕ → Bool
  pub cause : ℕ → Option Cause
  pub health_checks : Bool

unfoldable pub new_target : String → Bool → Bool → Target
new_target address read_only forward_headers = record {
  address = address;
  read_only = read_only;
  forward_headers = forward_headers;
  state = adding;
  inflight = [];
  next_request = 0;
  hijacked = λ r. false;
  cause = λ r. none;
  health_checks = false;
}

unfoldable pub is_draining : TargetState → Bool
is_draining draining = true
is_draining _ = false

-- `none` is ErrorDraining.
pub start_request : Target → Target × Option ℕ
unfolding is_draining
start_request t = if is_draining t.state then (t, none) else (
  record t { inflight = t.next_request ∷ t.inflight; next_request = suc t.next_request },
  some t.next_request,
)

-- Cancelling a context that is done changes nothing.
pub cancel : ℕ → Cause → Target → Target
cancel r c t = elim (t.cause r) [
  | some _ ↦ t
  | none ↦ record t { cause = λ q. if r == q then some c else t.cause q }
]

pub delete : ℕ → List ℕ → List ℕ
delete r [] = []
delete r (q ∷ qs) = let rest = delete r qs in if q == r then rest else q ∷ rest

pub end_inflight_request : ℕ → Target → Target
unfolding cancel delete
end_inflight_request r t =
    let t' = cancel r canceled t in
    if has r t.inflight then record t' { inflight = delete r t'.inflight } else t

-- The connection of a request in flight is taken over.
pub hijack : ℕ → Target → Target
hijack r t =
    if has r t.inflight
    then record t { hijacked = λ q. if r == q then true else t.hijacked q }
    else t

pub update_state : TargetState → Target → Target × TargetState
update_state s t = (record t { state = s }, t.state)

-- What a Drain that waits goes on with.
pub record Drain : Type 0 where
  pub original_state : TargetState
  pub to_cancel : List ℕ

pub cancel_hijacked : List ℕ → Target → Target
unfolding cancel
cancel_hijacked [] t = t
cancel_hijacked (r ∷ rs) t =
    cancel_hijacked rs (if t.hijacked r then cancel r error_draining t else t)

pub cancel_all : List ℕ → Target → Target
unfolding cancel
cancel_all [] t = t
cancel_all (r ∷ rs) t = cancel_all rs (cancel r error_draining t)

-- `none` where the target drains already.
pub begin_drain : Target → Target × Option Drain
unfolding update_state cancel_hijacked is_draining
begin_drain t =
    let (t₁, original) = update_state draining t in
    if is_draining original then (t₁, none) else (
      cancel_hijacked t₁.inflight t₁,
      some (record { original_state = original; to_cancel = t₁.inflight }),
    )

-- The wait is over, as all requests are done or the deadline has passed.
pub end_drain : Drain → Target → Target
unfolding cancel_all update_state
end_drain d t = (update_state d.original_state (cancel_all d.to_cancel t)).0

-- The consumer, which is told of a change, is the load balancer (`health_checked` there).
unfoldable pub health_check_completed : Bool → Target → Target
health_check_completed true t = record t { state = healthy }
health_check_completed false t = elim t.state [ healthy ↦ record t { state = unhealthy } | _ ↦ t ]

-- Its ticker panics for an interval that is not positive, which is `Router.ticker_panics`.
unfoldable pub begin_health_checks : Target → Target
begin_health_checks t = record t { health_checks = true }

unfoldable pub stop_health_checks : Target → Target
stop_health_checks t = record t { health_checks = false }
