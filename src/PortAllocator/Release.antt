-- ===== src/PortAllocator/Release.antt =====
-- The calls of the port allocator that give ports back, and those that read it.
-- `none` stands for the panic of a nil pointer that is dereferenced.
pub mod Freed
pub mod Service
pub mod Cleanup
mod Tests
use text.Mathlib.Text.{◌==◌ as str_eq}
use kamal_proxy.Base.{
  ℕ, suc, ◌+◌, String, Bool, true, false, ◌&&◌, not, List, [], ◌∷◌, Option, none, some, ltb,
  if◌then◌else◌,
}
use kamal_proxy.Base.Assoc.{Assoc, get, remove, nat_eq}
use kamal_proxy.PortAllocator.{
  PortAllocation, PortAllocator, Result, ok, err, not_allocated, update,
}

-- Close and forget the listener of a port, if there is one.
pub close_listener : ℕ → PortAllocator → PortAllocator
close_listener port pa =
    if pa.listeners port
    then record pa {
      listeners = update pa.listeners port false;
      bound = update pa.bound port false;
    }
    else pa

-- What DeallocatePort and the cleanup do with an allocation.
pub release : PortAllocation → PortAllocator → PortAllocator
unfolding close_listener
release a pa =
    let pa₁ = close_listener a.rtp_port pa in
    let pa₂ = close_listener a.rtcp_port pa₁ in
    if ltb 0 a.rtcp_port
    then record pa₂ { allocated = remove a.rtp_port (remove a.rtcp_port pa₂.allocated) }
    else record pa₁ { allocated = remove a.rtp_port pa₁.allocated }

pub deallocate_port : ℕ → PortAllocator → PortAllocator × Result (Unit {0})
unfolding release
deallocate_port port pa = elim (get port pa.allocated) [
  | none ↦ (pa, err (not_allocated port))
  | some a ↦ (release (pa.cell a) pa, ok tt)
]

-- The keys of the map whose allocation passes, in the order of the iteration.
pub keys_where : (PortAllocation → Bool) → (ℕ → PortAllocation) → Assoc ℕ ℕ → List ℕ
keys_where test cell [] = []
keys_where test cell ((port, a) ∷ m) =
    let rest = keys_where test cell m in if test (cell a) then port ∷ rest else rest

-- What DeallocateService does with one key: the other key of a pair has a round of its own.
pub release_key : ℕ → PortAllocation → PortAllocator → PortAllocator
unfolding close_listener
release_key port a pa =
    let pa₁ = close_listener a.rtp_port pa in
    let pa₂ = if ltb 0 a.rtcp_port then close_listener a.rtcp_port pa₁ else pa₁ in
    record pa₂ { allocated = remove port pa₂.allocated }

pub release_keys : List ℕ → PortAllocator → Option PortAllocator
release_keys [] pa = some pa
release_keys (port ∷ ports) pa = elim (get port pa.allocated) [
  | none ↦ none
  | some a ↦ release_keys ports (release_key port (pa.cell a) pa)
]

pub deallocate_service : String → PortAllocator → Option PortAllocator
unfolding keys_where release_keys release_key
deallocate_service service pa =
    release_keys (keys_where (λ a. str_eq a.service_name service) pa.cell pa.allocated) pa

-- `!allocation.InUse && now.After(allocation.ExpiresAt)`
pub is_expired : ℕ → PortAllocation → Bool
is_expired now a = not a.in_use && ltb a.expires_at now

pub release_expired : List ℕ → PortAllocator → Option PortAllocator
release_expired [] pa = some pa
release_expired (port ∷ ports) pa = elim (get port pa.allocated) [
  | none ↦ none
  | some a ↦ release_expired ports (release (pa.cell a) pa)
]

pub cleanup_expired_allocations : ℕ → PortAllocator → Option PortAllocator
unfolding keys_where release_expired release is_expired
cleanup_expired_allocations now pa =
    release_expired (keys_where (is_expired now) pa.cell pa.allocated) pa

pub extend_allocation : ℕ → ℕ → ℕ → PortAllocator → PortAllocator × Result (Unit {0})
extend_allocation port now duration pa = elim (get port pa.allocated) [
  | none ↦ (pa, err (not_allocated port))
  | some a ↦ (
    record pa { cell = update pa.cell a (record (pa.cell a) { expires_at = now + duration }) },
    ok tt,
  )
]

-- What a deployment (internal/server/udp_deployment.go, switchWebRTCTrafficToNewTargets) does to
-- an allocation of the old targets, through its pointer.
pub mark_draining : ℕ → PortAllocator → PortAllocator
mark_draining a pa = record pa { cell = update pa.cell a (record (pa.cell a) { in_use = false }) }

-- The listeners that the map names are closed.
pub stop : PortAllocator → PortAllocator
stop pa = record pa {
  allocated = [];
  listeners = λ p. false;
  bound = λ p. if pa.listeners p then false else pa.bound p;
}

pub get_allocation : ℕ → PortAllocator → Option PortAllocation
get_allocation port pa = elim (get port pa.allocated) [ none ↦ none | some a ↦ some (pa.cell a) ]

pub get_listener : ℕ → PortAllocator → Bool
get_listener port pa = pa.listeners port
