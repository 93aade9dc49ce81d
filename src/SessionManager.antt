-- ===== src/SessionManager.antt =====
-- internal/server/session_manager.go: the sessions of UDP clients.
-- Targets are shared with the service, so a session holds the address of one on a heap. The clock
-- is read once for each call. MD5 is the parameter `Md5`; the calls of the session store, which
-- run in goroutines of their own, are kept as a log.
pub mod Expiry
pub mod Route
pub mod Sticky
use Prim.Native.String.{◌++◌ as append}
use text.Mathlib.Text.{◌==◌ as str_eq}
use kamal_proxy.Base.{
  ℕ, zero, suc, ◌/◌, ◌%◌, String, Bool, true, false, ◌&&◌, ◌||◌, List, [], ◌∷◌, ◌++◌, Option, none,
  some, ltb, leb, ◌==◌, if◌then◌else◌, length, get_elem?, map,
}
use kamal_proxy.Base.Int.{ℤ, pos, ltb_ℤ}
use kamal_proxy.Base.Assoc.{Assoc, get, put, string_eq}

pub record UdpTarget : Type 0 where
  pub url : String
  pub healthy : Bool

pub data SessionState : Type 0 where
  active draining expired : SessionState

unfoldable pub is_active : SessionState → Bool
is_active active = true
is_active _ = false

pub record FiveTuple : Type 0 where
  pub src_ip : String
  pub src_port : ℕ
  pub dst_ip : String
  pub dst_port : ℕ
  pub protocol : String

-- What the code keeps under a key of the metadata.
pub data MetadataValue : Type 0 where
  moment : ℤ → MetadataValue
  reason : String → MetadataValue

-- `none` is a nil pointer, or a nil map.
pub record UdpSession : Type 0 where
  pub id : String
  pub five_tuple : FiveTuple
  pub target : Option ℕ
  pub target_url : String
  pub service_name : String
  pub created_at : ℤ
  pub last_seen : ℤ
  pub state : SessionState
  pub protocol : String
  pub metadata : Option (Assoc String MetadataValue)

pub record SessionConfig : Type 0 where
  pub idle_timeout : ℤ
  pub stickiness_enabled : Bool
  pub stickiness_strategy : String
  pub max_sessions : ℕ
  pub persistence_enabled : Bool

pub record SessionDrainPolicy : Type 0 where
  pub strategy : String
  pub grace_period : ℤ
  pub max_wait_time : ℤ
  pub notify_clients : Bool

pub data StoreCall : Type 0 where
  save_session delete_session : String → StoreCall

pub record SessionManager : Type 0 where
  pub sessions : Assoc String UdpSession
  pub config : SessionConfig
  pub store_calls : List StoreCall

-- The first 8 bytes of a digest as hexadecimal digits, and its first byte.
pub record Md5 : Type 0 where
  pub hex8 : String → String
  pub first_byte : String → ℕ

digit : ℕ → String
digit d =
    elim (get_elem? {A = String} ("0" ∷ "1" ∷ "2" ∷ "3" ∷ "4" ∷ "5" ∷ "6" ∷ "7" ∷ "8" ∷ []) d) [
      | some s ↦ s
      | none ↦ "9"
    ]

-- Decimal digits, last first; a number has no more digits than its value plus one.
digits : ℕ → ℕ → String
unfolding digit
digits zero n = ""
digits (suc fuel) n =
    let front = digits fuel (n / 10) in
    let last = digit (n % 10) in if ltb n 10 then last else append front last

pub decimal : ℕ → String
unfolding digits
decimal n = digits (suc n) n

colon : String → String → String
colon s t = append s (append ":" t)

pub hash : Md5 → FiveTuple → String
unfolding decimal colon
hash md5 ft = md5.hex8 (
    colon ft.src_ip
      (colon (decimal ft.src_port) (colon ft.dst_ip (colon (decimal ft.dst_port) ft.protocol))))

unfoldable pub generate_session_id : Md5 → SessionConfig → FiveTuple → String
unfolding hash decimal colon
generate_session_id md5 config ft =
    if str_eq config.stickiness_strategy "source-ip"
    then append "ip-" (md5.hex8 ft.src_ip)
    else if str_eq config.stickiness_strategy "source-port"
    then append "port-" (md5.hex8 (colon ft.src_ip (decimal ft.src_port)))
    else append "5tuple-" (hash md5 ft)

pub filter_healthy : (ℕ → UdpTarget) → List ℕ → List ℕ
filter_healthy heap [] = []
filter_healthy heap (t ∷ ts) =
    let rest = filter_healthy heap ts in if (heap t).healthy then t ∷ rest else rest

-- By the hash of the session where sessions are sticky, else the first.
pub pick : Bool → ℕ → List ℕ → Option ℕ
pick sticky hash [] = none
pick sticky hash (h ∷ hs) =
    let index = hash % suc (length hs) in if sticky then get_elem? (h ∷ hs) index else some h

pub select_target : Md5 → SessionConfig → (ℕ → UdpTarget) → FiveTuple → List ℕ → Option ℕ
unfolding filter_healthy generate_session_id pick
select_target md5 config heap ft targets =
    pick config.stickiness_enabled (md5.first_byte (generate_session_id md5 config ft))
      (filter_healthy heap targets)

pub detect_protocol : List ℕ → String
detect_protocol [] = "udp"
detect_protocol (a ∷ bs) = if leb 11 (length bs) && (a / 64 == 2) then "rtp" else elim bs [
  | [] ↦ "udp"
  | b ∷ rest ↦
      if leb 6 (length rest) && (a / 64 == 2) && leb 200 b && leb b 204 then "rtcp" else "udp"
]

-- A client's address, as `net.UDPAddr`.
pub record UdpAddr : Type 0 where
  pub ip : String
  pub port : ℕ

unfoldable pub five_tuple_of : UdpAddr → ℕ → FiveTuple
five_tuple_of addr dst_port = record {
  src_ip = addr.ip;
  src_port = addr.port;
  dst_ip = "0.0.0.0";
  dst_port = dst_port;
  protocol = "udp";
}

-- The target of an active session, while it is healthy.
pub current_target : (ℕ → UdpTarget) → UdpSession → Option ℕ
current_target heap s =
    if is_active s.state
    then elim s.target [ none ↦ none | some t ↦ if (heap t).healthy then some t else none ]
    else none

pub new_session : String → FiveTuple → String → ℤ → UdpSession
unfolding detect_protocol
new_session id ft service_name now = record {
  id = id;
  five_tuple = ft;
  target = none;
  target_url = "";
  service_name = service_name;
  created_at = now;
  last_seen = now;
  state = active;
  protocol = detect_protocol [];
  metadata = some [];
}

pub save_calls : SessionConfig → String → List StoreCall
save_calls config id = if config.persistence_enabled then save_session id ∷ [] else []

-- A target with its session, or the name of the service in "no healthy targets available".
pub data Routed : Type 0 where
  to : ℕ → UdpSession → Routed
  no_healthy_targets : String → Routed

-- The part of RoutePacket from the choice of a target on.
pub assign_target :
    Md5
    → (ℕ → UdpTarget)
    → String
    → FiveTuple
    → String
    → List ℕ
    → ℤ
    → UdpSession
    → SessionManager
    → SessionManager × Routed
unfolding select_target save_calls
assign_target md5 heap id ft service targets now s sm =
    elim (select_target md5 sm.config heap ft targets) [
      | none ↦ (sm, no_healthy_targets service)
      | some t ↦
          let s' = record s { target = some t; target_url = (heap t).url; last_seen = now } in
          (
            record sm {
              sessions = put id s' sm.sessions;
              store_calls = sm.store_calls ++ save_calls sm.config s'.id;
            },
            to t s',
          )
    ]

-- `session.LastSeen = time.Now()` of an active session.
pub touch : ℤ → UdpSession → UdpSession
touch now s = if is_active s.state then record s { last_seen = now } else s

pub route_packet :
    Md5
    → (ℕ → UdpTarget)
    → UdpAddr
    → ℕ
    → String
    → List ℕ
    → ℤ
    → SessionManager
    → SessionManager × Routed
unfolding generate_session_id five_tuple_of current_target new_session assign_target touch
route_packet md5 heap addr dst_port service targets now sm =
    let ft = five_tuple_of addr dst_port in
    let id = generate_session_id md5 sm.config ft in
    elim (get id sm.sessions) [
      | none ↦ assign_target md5 heap id ft service targets now (new_session id ft service now) sm
      | some s ↦
          let s' = touch now s in
          let sm' = record sm { sessions = put id s' sm.sessions } in
          elim (current_target heap s) [
            | some t ↦ (sm', to t s')
            | none ↦ assign_target md5 heap id ft service targets now s' sm'
          ]
    ]
