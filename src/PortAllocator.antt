-- ===== src/PortAllocator.antt =====
-- internal/server/port_allocator.go: UDP ports for services, alone or as RTP/RTCP pairs.
-- Ports are natural numbers, times and durations numbers of nanoseconds. The maps hold pointers to
-- shared allocations, so these stand in a store, `cell`. A listener is named by its port.
pub mod Search
pub mod Invariant
pub mod Allocate
pub mod Grants
pub mod Config
pub mod Release
mod Tests
use text.Mathlib.Text.{◌==◌ as str_eq}
use kamal_proxy.Base.{
  ℕ, zero, suc, ◌+◌, ◌-◌, String, Bool, true, false, ◌&&◌, not, List, [], ◌∷◌, Option, none, some,
  ltb, ◌==◌, if◌then◌else◌,
}
use kamal_proxy.Base.Assoc.{Assoc, get, put, remove, nat_eq}

pub record PortRange : Type 0 where
  pub start : ℕ
  pub end_port : ℕ
  pub step : ℕ

pub record PortConfig : Type 0 where
  pub rtp_port_range : PortRange
  pub rtcp_port_range : PortRange
  pub allocation_ttl : ℕ
  pub rtcp_policy : String
  pub cleanup_interval : ℕ

-- `target` is the address of the UDPTarget.
pub record PortAllocation : Type 0 where
  pub service_name : String
  pub rtp_port : ℕ
  pub rtcp_port : ℕ
  pub allocated_at : ℕ
  pub expires_at : ℕ
  pub target : ℕ
  pub protocol : String
  pub in_use : Bool

-- `allocated` maps a port to the address of its allocation; addresses below `next_address` are
-- taken. `listeners` are the keys of the map of listeners, and `bound` the ports whose socket
-- this process holds open.
pub record PortAllocator : Type 0 where
  pub config : PortConfig
  pub allocated : Assoc ℕ ℕ
  pub listeners : ℕ → Bool
  pub cell : ℕ → PortAllocation
  pub next_address : ℕ
  pub bound : ℕ → Bool

pub data Error : Type 0 where
  no_udp_ports no_port_pairs no_rtp_ports no_rtcp_ports : Error
  bind_failed not_allocated : ℕ → Error

pub data Result {ℓ} (A : Type ℓ) : Type ℓ where
  ok : A → Result A
  err : Error → Result A

-- The answers of net.ListenPacket as far as other processes decide them: when availability is
-- probed, and when the port is then bound. A port that this process has bound is always refused.
pub record Os : Type 0 where
  pub probe : ℕ → Bool
  pub bind : ℕ → Bool

-- An update of one key.
abbrev pub update {ℓ} : {A : Type ℓ} → (ℕ → A) → ℕ → A → ℕ → A
update f k v j = if k == j then v else f j

default : ℕ → ℕ → ℕ
default d zero = d
default d (suc n) = suc n

-- `ttl` and `interval` are the configured defaults in nanoseconds.
unfoldable pub new_port_allocator :
    (ttl interval : ℕ) → PortConfig → (ℕ → PortAllocation) → PortAllocator
unfolding default
new_port_allocator ttl interval c cells = record {
  config = record {
    rtp_port_range = record c.rtp_port_range { step = default 2 c.rtp_port_range.step };
    rtcp_port_range = record c.rtcp_port_range { step = default 1 c.rtcp_port_range.step };
    allocation_ttl = default ttl c.allocation_ttl;
    rtcp_policy = if str_eq c.rtcp_policy "" then "adjacent" else c.rtcp_policy;
    cleanup_interval = default interval c.cleanup_interval;
  };
  allocated = [];
  listeners = λ p. false;
  cell = cells;
  next_address = 0;
  bound = λ p. false;
}

abbrev pub is_some : Option ℕ → Bool
is_some none = false
is_some (some a) = true

pub is_port_available : Os → PortAllocator → ℕ → Bool
is_port_available os pa port =
    not (is_some (get port pa.allocated)) && (os.probe port && not (pa.bound port))

-- net.ListenPacket for a port that is then kept.
abbrev pub can_bind : Os → PortAllocator → ℕ → Bool
can_bind os pa port = os.bind port && not (pa.bound port)

-- `for port := start; port < stop; port += step`: the first port that passes.
pub first_port : (ℕ → Bool) → ℕ → ℕ → ℕ → ℕ → Option ℕ
first_port test zero port stop step = none
first_port test (suc fuel) port stop step =
    let rest = first_port test fuel (port + step) stop step in
    if ltb port stop then (if test port then some port else rest) else none

-- One more round than there are ports is enough, since each round adds at least 1.
abbrev pub search : (ℕ → Bool) → ℕ → ℕ → ℕ → Option ℕ
search test start stop step = first_port test (suc (stop - start)) start stop step

pub allocate_specific_port : Os → String → ℕ → ℕ → ℕ → PortAllocator → PortAllocator × Result ℕ
allocate_specific_port os service target now port pa =
    if can_bind os pa port
    then (
      record pa {
        allocated = put port pa.next_address pa.allocated;
        listeners = update pa.listeners port true;
        cell = update pa.cell pa.next_address (record {
          service_name = service;
          rtp_port = port;
          rtcp_port = 0;
          allocated_at = now;
          expires_at = now + pa.config.allocation_ttl;
          target = target;
          protocol = "udp";
          in_use = true;
        });
        next_address = suc pa.next_address;
        bound = update pa.bound port true;
      },
      ok pa.next_address,
    )
    else (pa, err (bind_failed port))

pub allocate_udp_port : Os → String → ℕ → ℕ → ℕ → PortAllocator → PortAllocator × Result ℕ
allocate_udp_port os service target now preferred pa =
    let range = pa.config.rtp_port_range in
    if ltb 0 preferred && is_port_available os pa preferred
    then allocate_specific_port os service target now preferred pa
    else (elim (search (is_port_available os pa) range.start (suc range.end_port) 1) [
      | some port ↦ allocate_specific_port os service target now port pa
      | none ↦ (pa, err no_udp_ports)
    ])

-- The bookkeeping of a pair whose two ports are bound.
pub install_pair : String → ℕ → ℕ → ℕ → ℕ → PortAllocator → PortAllocator
install_pair service target now rtp rtcp pa = record pa {
  allocated = put rtcp pa.next_address (put rtp pa.next_address pa.allocated);
  listeners = update (update pa.listeners rtp true) rtcp true;
  cell = update pa.cell pa.next_address (record {
    service_name = service;
    rtp_port = rtp;
    rtcp_port = rtcp;
    allocated_at = now;
    expires_at = now + pa.config.allocation_ttl;
    target = target;
    protocol = "webrtc";
    in_use = true;
  });
  next_address = suc pa.next_address;
}

-- One round of the search for a pair; a round that fails closes what it bound.
pub pair_available : Os → PortAllocator → ℕ → Bool
pair_available os pa port =
    (is_port_available os pa port && is_port_available os pa (port + 1))
    && (can_bind os pa port && can_bind os pa (port + 1))

pub allocate_adjacent_pair : Os → String → ℕ → ℕ → PortAllocator → PortAllocator × Result ℕ
unfolding install_pair
allocate_adjacent_pair os service target now pa =
    let range = pa.config.rtp_port_range in
    elim (search (pair_available os pa) range.start range.end_port range.step) [
      | none ↦ (pa, err no_port_pairs)
      | some port ↦
          let bound' = update (update pa.bound port true) (port + 1) true in
          (
            install_pair service target now port (port + 1) (record pa { bound = bound' }),
            ok pa.next_address,
          )
    ]

port_or_zero : Option ℕ → ℕ
port_or_zero none = 0
port_or_zero (some p) = p

bind_found : Option ℕ → PortAllocator → PortAllocator
bind_found none pa = pa
bind_found (some p) pa = record pa { bound = update pa.bound p true }

-- The search of one range: a port that is available and then bound.
pub find_port : Os → PortRange → PortAllocator → Option ℕ
find_port os range pa =
    search (λ p. is_port_available os pa p && can_bind os pa p) range.start (suc range.end_port) 1

-- Port 0 stands for "not found", also where it was bound.
pub allocate_separate_ranges : Os → String → ℕ → ℕ → PortAllocator → PortAllocator × Result ℕ
unfolding port_or_zero bind_found find_port install_pair
allocate_separate_ranges os service target now pa =
    let found = find_port os pa.config.rtp_port_range pa in
    let rtp = port_or_zero found in
    let pa₁ = bind_found found pa in
    let found' = find_port os pa.config.rtcp_port_range pa₁ in
    let rtcp = port_or_zero found' in
    let pa₂ = bind_found found' pa₁ in
    if rtp == 0
    then (pa₁, err no_rtp_ports)
    else if rtcp == 0
    then (record pa₂ { bound = update pa₂.bound rtp false }, err no_rtcp_ports)
    else (install_pair service target now rtp rtcp pa₂, ok pa.next_address)

-- The two attempts of "auto" see the operating system at two times.
pub allocate_rtp_rtcp_pair : Os → Os → String → ℕ → ℕ → PortAllocator → PortAllocator × Result ℕ
allocate_rtp_rtcp_pair os os' service target now pa =
    let adjacent = allocate_adjacent_pair os service target now pa in
    let policy = pa.config.rtcp_policy in
    if str_eq policy "adjacent"
    then adjacent
    else if str_eq policy "separate-range"
    then allocate_separate_ranges os service target now pa
    else if str_eq policy "auto"
    then (elim adjacent.1 [
      | err e ↦ allocate_separate_ranges os' service target now adjacent.0
      | ok a ↦ adjacent
    ])
    else adjacent
