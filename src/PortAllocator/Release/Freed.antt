-- ===== src/PortAllocator/Release/Freed.antt =====
-- The calls that give ports back: what they free, and that they keep the invariant.
use kamal_proxy.Base.{
  ℕ, ◌<◌, ◌≡◌, refl, inl, inr, Bool, true, false, ◌&&◌, ◌||◌, none, some, arith, ltb, ◌==◌,
  if◌then◌else◌, Option-cases,
}
use kamal_proxy.Base.Assoc.{get, remove, nat_eq, get-remove, remove-IsMap}
use kamal_proxy.PortAllocator.{PortAllocator, PortAllocation, ok, err, not_allocated}
use kamal_proxy.PortAllocator.Release.{
  close_listener, release, deallocate_port, extend_allocation, stop, mark_draining,
}
use kamal_proxy.PortAllocator.Invariant.{IsValid}

-- The ports of an allocation.
abbrev pub holds : PortAllocation → ℕ → Bool
holds a j = (a.rtp_port == j) || (ltb 0 a.rtcp_port && (a.rtcp_port == j))

module _ (pa : PortAllocator) (v : IsValid pa) (port a : ℕ)
    (h : get port pa.allocated ≡ some a) where
  get-release :
      (j : ℕ)
      → get j (release (pa.cell a) pa).allocated
        ≡ (if holds (pa.cell a) j then none else get j pa.allocated)
  unfolding release close_listener
  get-release j = ground (
    arith,
    get-remove (pa.cell a).rtp_port j pa.allocated,
    get-remove (pa.cell a).rtp_port j (remove (pa.cell a).rtcp_port pa.allocated),
    get-remove (pa.cell a).rtcp_port j pa.allocated,
  )

  release-listeners :
      (j : ℕ)
      → ((release (pa.cell a) pa).listeners j
          ≡ (if holds (pa.cell a) j then false else pa.listeners j))
        × ((release (pa.cell a) pa).bound j ≡ (if holds (pa.cell a) j then false else pa.bound j))
        × ((release (pa.cell a) pa).cell ≡ pa.cell)
        × ((release (pa.cell a) pa).next_address ≡ pa.next_address)
  unfolding release close_listener
  release-listeners j = ground (arith, v.bound_listeners j)

  -- Giving an allocation back keeps the invariant.
  release-IsValid : IsValid (release (pa.cell a) pa)
  release-IsValid = record {
    map =
        unfold release close_listener in
        ground (
          arith,
          remove-IsMap (pa.cell a).rtp_port pa.allocated v.map,
          remove-IsMap (pa.cell a).rtcp_port pa.allocated v.map,
          remove-IsMap (pa.cell a).rtp_port (remove (pa.cell a).rtcp_port pa.allocated)
              (remove-IsMap (pa.cell a).rtcp_port pa.allocated v.map),
        );
    bound_listeners = λ j. ground (arith, release-listeners j, v.bound_listeners j);
    listeners_allocated =
        λ j. ground (arith, release-listeners j, get-release j, v.listeners_allocated j);
    fresh = λ j b k. ground (arith, release-listeners j, get-release j, v.fresh j b);
    owner = λ j b k. rw (release-listeners j).2 (ground (arith, get-release j, v.owner j b));
    rtp_key = λ j b k.
        let old : get j pa.allocated ≡ some b = ground (arith, get-release j) in
        let kept : holds (pa.cell a) j ≡ false = ground (arith, get-release j) in
        rw (release-listeners j).2 (
          ground (
            arith,
            get-release (pa.cell b).rtp_port,
            v.rtp_key j b old,
            v.rtp_key port a h,
            v.rtcp_key port a h,
            v.owner j b old,
          ));
    rtcp_key = λ j b k l.
        let positive : 0 < (pa.cell b).rtcp_port = rw (release-listeners j).2 at l in
        let old : get j pa.allocated ≡ some b = ground (arith, get-release j) in
        let kept : holds (pa.cell a) j ≡ false = ground (arith, get-release j) in
        rw (release-listeners j).2 (
          ground (
            arith,
            get-release (pa.cell b).rtcp_port,
            v.rtcp_key j b old,
            v.rtp_key port a h,
            v.rtcp_key port a h,
            v.owner j b old,
          ));
  }

-- Deallocating a port, also one that is not allocated, keeps the invariant.
pub deallocate_port-IsValid :
    (port : ℕ) (pa : PortAllocator) → IsValid pa → IsValid (deallocate_port port pa).0
unfolding deallocate_port
deallocate_port-IsValid port pa v = elim (Option-cases (get port pa.allocated)) [
  | inl e ↦ rw (e, deallocate_port) v
  | inr (a, e) ↦ rw (e, deallocate_port) (release-IsValid pa v port a e)
]

-- Deallocating either port of an allocation frees exactly the ports that it holds, with their
-- sockets; a port that is not allocated is an error that changes nothing.
deallocate_port_frees :
    (port : ℕ) (pa : PortAllocator)
    → IsValid pa
    → let r = deallocate_port port pa in
      (get port pa.allocated ≡ none → (r.0 ≡ pa) × (r.1 ≡ err (not_allocated port)))
      × ((a : ℕ)
          → get port pa.allocated ≡ some a
          → (r.1 ≡ ok tt)
            × (holds (pa.cell a) port ≡ true)
            × ((j : ℕ)
                → (get j r.0.allocated ≡ (if holds (pa.cell a) j then none else get j pa.allocated))
                  × (r.0.bound j ≡ (if holds (pa.cell a) j then false else pa.bound j))))
unfolding deallocate_port
deallocate_port_frees port pa v = (
  λ e. rw (e, deallocate_port) (refl, refl),
  λ a e.
      rw (e, deallocate_port)
        (
          refl,
          ground (arith, v.owner port a e),
          λ j. (get-release pa v port a e j, (release-listeners pa v port a e j).1),
        ),
)

-- What extending an allocation changes: the time of expiry, seen through both of its ports.
pub extend_allocation-IsValid :
    (port now duration : ℕ) (pa : PortAllocator)
    → IsValid pa
    → IsValid (extend_allocation port now duration pa).0
unfolding extend_allocation
extend_allocation-IsValid port now duration pa v = elim (Option-cases (get port pa.allocated)) [
  | inl e ↦ rw (e, extend_allocation) v
  | inr (a, e) ↦
      rw (e, extend_allocation)
        (record {
          map = v.map;
          bound_listeners = v.bound_listeners;
          listeners_allocated = v.listeners_allocated;
          fresh = v.fresh;
          owner = λ j b k. ground (arith, v.owner j b k);
          rtp_key = λ j b k. ground (arith, v.rtp_key j b k);
          rtcp_key = λ j b k l. ground (arith, v.rtcp_key j b k);
        })
]

pub mark_draining-IsValid : (a : ℕ) (pa : PortAllocator) → IsValid pa → IsValid (mark_draining a pa)
unfolding mark_draining
mark_draining-IsValid a pa v = record {
  map = v.map;
  bound_listeners = v.bound_listeners;
  listeners_allocated = v.listeners_allocated;
  fresh = v.fresh;
  owner = λ j b k. ground (arith, v.owner j b k);
  rtp_key = λ j b k. ground (arith, v.rtp_key j b k);
  rtcp_key = λ j b k l. ground (arith, v.rtcp_key j b k);
}

-- After `Stop` nothing is allocated, and no socket stays open.
pub stop_frees :
    (pa : PortAllocator)
    → IsValid pa
    → IsValid (stop pa)
      × ((p : ℕ) → (get p (stop pa).allocated ≡ none) × ((stop pa).bound p ≡ false))
unfolding stop get
stop_frees pa v = (
  record {
    map = tt;
    bound_listeners = λ p. ground (arith, v.bound_listeners p);
    listeners_allocated = λ p. refl;
    fresh = λ p a h. cc;
    owner = λ p a h. cc;
    rtp_key = λ p a h. cc;
    rtcp_key = λ p a h k. cc;
  },
  λ p. (refl, ground (arith, v.bound_listeners p)),
)
