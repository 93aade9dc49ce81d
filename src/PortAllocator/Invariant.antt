-- ===== src/PortAllocator/Invariant.antt =====
-- Allocated ports, listeners and open sockets are the same ports, and each has one owner.
use kamal_proxy.Base.{
  ℕ, ◌<◌, String, ◌≡◌, refl, ◌⊎◌, inl, inr, true, false, none, some, arith, Bool-cases,
}
use kamal_proxy.Base.Assoc.{get, nat_eq, get-put, IsMap, put-IsMap}
use kamal_proxy.PortAllocator.{
  PortAllocator, PortAllocation, PortConfig, Os, is_some, can_bind, allocate_specific_port,
  new_port_allocator,
}

-- `owner`: an allocation that a port maps to has that port as one of its two, and is what both of
-- its ports map to.
pub record IsValid (pa : PortAllocator) : Type 0 where
  pub map : IsMap pa.allocated
  pub bound_listeners : (p : ℕ) → pa.bound p ≡ pa.listeners p
  pub listeners_allocated : (p : ℕ) → pa.listeners p ≡ is_some (get p pa.allocated)
  pub fresh : (p a : ℕ) → get p pa.allocated ≡ some a → a < pa.next_address
  pub owner :
      (p a : ℕ)
      → get p pa.allocated ≡ some a
      → (p ≡ (pa.cell a).rtp_port) ⊎ ((p ≡ (pa.cell a).rtcp_port) × (0 < p))
  pub rtp_key :
      (p a : ℕ) → get p pa.allocated ≡ some a → get (pa.cell a).rtp_port pa.allocated ≡ some a
  pub rtcp_key :
      (p a : ℕ)
      → get p pa.allocated ≡ some a
      → 0 < (pa.cell a).rtcp_port
      → get (pa.cell a).rtcp_port pa.allocated ≡ some a

-- A port that can be bound is not allocated.
pub can_bind-free :
    (os : Os) (pa : PortAllocator) (p : ℕ)
    → IsValid pa
    → can_bind os pa p ≡ true
    → (get p pa.allocated ≡ none) × (pa.bound p ≡ false)
can_bind-free os pa p v h = ground (arith, v.bound_listeners p, v.listeners_allocated p)

pub new_port_allocator-IsValid :
    (ttl interval : ℕ) (c : PortConfig) (cells : ℕ → PortAllocation)
    → IsValid (new_port_allocator ttl interval c cells)
unfolding new_port_allocator get
new_port_allocator-IsValid ttl interval c cells = record {
  map = tt;
  bound_listeners = λ p. refl;
  listeners_allocated = λ p. refl;
  fresh = λ p a h. cc;
  owner = λ p a h. cc;
  rtp_key = λ p a h. cc;
  rtcp_key = λ p a h k. cc;
}

module _ (os : Os) (service : String) (target now port : ℕ) (pa : PortAllocator)
    (v : IsValid pa) where
  pub allocate_specific_port-IsValid :
      IsValid (allocate_specific_port os service target now port pa).0
  unfolding allocate_specific_port
  allocate_specific_port-IsValid = elim (Bool-cases (can_bind os pa port)) [
    | inr e ↦ rw (e, allocate_specific_port) v
    | inl e ↦
        let free = can_bind-free os pa port v e in
        let id = pa.next_address in
        rw (e, allocate_specific_port)
          (record {
            map = put-IsMap port id pa.allocated v.map;
            bound_listeners = λ p. ground (arith, v.bound_listeners p);
            listeners_allocated =
                λ p. ground (arith, v.listeners_allocated p, get-put port p id pa.allocated);
            fresh = λ p a h. ground (arith, v.fresh p a, get-put port p id pa.allocated);
            owner =
                λ p a h. ground (arith, v.fresh p a, v.owner p a, get-put port p id pa.allocated);
            rtp_key = λ p a h. ground (
              arith,
              v.fresh p a,
              v.rtp_key p a,
              get-put port p id pa.allocated,
              get-put port (pa.cell a).rtp_port id pa.allocated,
              get-put port port id pa.allocated,
            );
            rtcp_key = λ p a h k. ground (
              arith,
              v.fresh p a,
              v.rtcp_key p a,
              get-put port p id pa.allocated,
              get-put port (pa.cell a).rtcp_port id pa.allocated,
            );
          })
  ]
