-- ===== src/LoadBalancer/Request.antt =====
-- internal/server/load_balancer.go: how a request is classified and given a target.
pub mod Claims
mod Tests
use text.Mathlib.Text.{◌==◌ as str_eq}
use Prim.Native.String.{◌++◌ as append}
use kamal_proxy.Base.{
  ℕ, zero, suc, ◌+◌, ◌-◌, ◌*◌, ◌^◌, String, Bool, true, false, ◌&&◌, ◌||◌, not, List, [], ◌∷◌,
  Option, none, some, ltb, leb, ◌==◌, if◌then◌else◌,
}
use kamal_proxy.Base.Assoc.{same_bytes}
use kamal_proxy.Base.Int.{ℤ, pos, negsuc, ltb_ℤ, sub_ℕ}
use kamal_proxy.Target.{Target, start_request}
use kamal_proxy.LoadBalancer.{
  LoadBalancer, World, Picked, nil, out_of_range, target, set_target, next_target,
}

abbrev pub Bytes : Type 0
Bytes = List ℕ

-- `write_cookie` is the value of the cookie kamal-writer; `target_header` the values of the header
-- X-Kamal-Target.
pub record Request : Type 0 where
  pub method : String
  pub upgrade : Bytes
  pub connection : Bytes
  pub write_cookie : Option Bytes
  pub target_header : List String

to_lower_ascii : ℕ → ℕ
to_lower_ascii b = if leb 65 b && leb b 90 then b + 32 else b

starts_with : Bytes → Bytes → Bool
starts_with [] t = true
starts_with (a ∷ s) [] = false
starts_with (a ∷ s) (b ∷ t) = (a == b) && starts_with s t

contains : Bytes → Bytes → Bool
unfolding starts_with
contains s [] = starts_with s []
contains s (b ∷ t) = starts_with s (b ∷ t) || contains s t

-- strings.ToLower as far as it matters to a search for "upgrade": no letter outside ASCII has one
-- of its letters for a small letter.
to_lower : Bytes → Bytes
unfolding to_lower_ascii
to_lower [] = []
to_lower (b ∷ s) = to_lower_ascii b ∷ to_lower s

-- The fold of strings.EqualFold in UTF-8: besides the ASCII letters, the long s (197 191) folds to
-- s and the Kelvin sign (226 132 170) to k.
fold_case : Bytes → Bytes
unfolding to_lower_ascii
fold_case [] = []
fold_case (b ∷ s) =
    let rest = fold_case s in
    elim rest [
      | [] ↦ to_lower_ascii b ∷ []
      | c ∷ cs ↦ if (b == 197) && (c == 191) then 115 ∷ cs else elim cs [
        | [] ↦ to_lower_ascii b ∷ c ∷ []
        | d ∷ ds ↦
            if (b == 226) && ((c == 132) && (d == 170))
            then 107 ∷ ds
            else to_lower_ascii b ∷ c ∷ d ∷ ds
      ]
    ]

-- "websocket"
abbrev pub websocket : Bytes
websocket = 119 ∷ 101 ∷ 98 ∷ 115 ∷ 111 ∷ 99 ∷ 107 ∷ 101 ∷ 116 ∷ []

-- "upgrade"
abbrev pub upgrade_token : Bytes
upgrade_token = 117 ∷ 112 ∷ 103 ∷ 114 ∷ 97 ∷ 100 ∷ 101 ∷ []

pub is_websocket_request : Request → Bool
unfolding fold_case to_lower contains
is_websocket_request r =
    str_eq r.method "GET"
    && (same_bytes (fold_case r.upgrade) websocket
        && contains upgrade_token (to_lower r.connection))

pub is_read_request : LoadBalancer → Request → Bool
unfolding is_websocket_request
is_read_request lb r =
    (str_eq r.method "GET" || str_eq r.method "HEAD")
    && (lb.read_targets_accept_websockets || not (is_websocket_request r))

-- The number that decimal digits stand for, after the number read so far.
parse_digits : ℕ → Bytes → Option ℕ
parse_digits n [] = some n
parse_digits n (b ∷ s) =
    let rest = parse_digits (10 * n + (b - 48)) s in if leb 48 b && leb b 57 then rest else none

parse_magnitude : Bytes → Option ℕ
unfolding parse_digits
parse_magnitude [] = none
parse_magnitude (b ∷ s) = parse_digits 0 (b ∷ s)

-- strconv.ParseInt with base 10 and 64 bits; `none` is an error.
pub parse_int : Bytes → Option ℤ
unfolding parse_magnitude
parse_int [] = none
parse_int (b ∷ s) =
    let at_most = λ (limit m : ℕ) (z : ℤ). if leb m limit then some z else none in
    if b == 45
    then elim (parse_magnitude s) [ none ↦ none | some m ↦ at_most (2 ^ 63) m (sub_ℕ 0 m) ]
    else if b == 43
    then elim (parse_magnitude s) [ none ↦ none | some m ↦ at_most (2 ^ 63 - 1) m (pos m) ]
    else elim (parse_magnitude (b ∷ s)) [ none ↦ none | some m ↦ at_most (2 ^ 63 - 1) m (pos m) ]

-- `now` is time.Now().UnixMilli().
pub has_write_cookie : ℤ → Request → Bool
unfolding parse_int
has_write_cookie now r = elim r.write_cookie [
  | none ↦ false
  | some v ↦ elim (parse_int v) [ none ↦ false | some expires ↦ ltb_ℤ now expires ]
]

pub join : List String → String
join [] = ""
join (s ∷ []) = s
join (s ∷ t ∷ ss) = append s (append ", " (join (t ∷ ss)))

pub set_target_header : Target → Request → Request
unfolding join
set_target_header t r =
    let address =
      if t.forward_headers
      then elim r.target_header [
        | [] ↦ t.address
        | p ∷ ps ↦ append (join (p ∷ ps)) (append ", " t.address)
      ]
      else t.address in
    record r { target_header = address ∷ [] }

-- The target, the number of the request in flight there, and whether it is a read; the errors are
-- ErrorNoHealthyTargets and ErrorDraining.
pub data Claimed : Type 0 where
  claimed : ℕ → ℕ → Bool → Claimed
  no_healthy_targets target_draining panic : Claimed

-- The part of claimTarget after the choice.
pub claim : Bool → World → Picked → World × Claimed
unfolding set_target
claim read w nil = (w, no_healthy_targets)
claim read w out_of_range = (w, panic)
claim read w (target a) =
    let (t, started) = start_request (w.targets a) in
    elim started [ none ↦ (w, target_draining) | some q ↦ (set_target a t w, claimed a q read) ]

pub claim_target : ℤ → Request → World → World × Claimed
unfolding is_read_request has_write_cookie claim
claim_target now r w =
    let read = is_read_request w.lb r in
    let (lb, picked) = next_target (read && not (has_write_cookie now r)) w.lb in
    claim read (record w { lb = lb }) picked

-- What the service does next: answer 503, or send the request on, with a response that sets the
-- cookie kamal-writer or without.
pub data Started : Type 0 where
  service_unavailable panicked : Started
  send : ℕ → ℕ → Bool → Request → Started

pub start_lb_request : ℤ → Request → World → World × Started
unfolding claim_target set_target_header
start_lb_request now r w =
    let (w', c) = claim_target now r w in
    elim c [
      | no_healthy_targets ↦ (w', service_unavailable)
      | target_draining ↦ (w', service_unavailable)
      | panic ↦ (w', panicked)
      | claimed a q read ↦ (
        w',
        send a q (ltb 0 w.lb.writer_affinity_timeout && (w.lb.has_readers && not read))
            (set_target_header (w'.targets a) r),
      )
    ]
