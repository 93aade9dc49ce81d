-- ===== src/PortAllocator/Allocate.antt =====
-- The calls that allocate: they keep the invariant, and give out free ports of the ranges.
use kamal_proxy.Base.{
  ℕ, suc, ◌+◌, ◌≤◌, ◌<◌, String, ◌≡◌, ◌≢◌, inl, inr, true, false, ◌&&◌, none, some, arith, ltb,
  ◌==◌, if◌then◌else◌, Bool-cases, Option-cases,
}
use kamal_proxy.Base.Assoc.{get, put, nat_eq, get-put, put-IsMap}
use kamal_proxy.PortAllocator.{
  PortAllocator, PortRange, Os, update, is_port_available, can_bind, allocate_udp_port,
  install_pair, pair_available, find_port, search, allocate_adjacent_pair, allocate_separate_ranges,
}
use kamal_proxy.PortAllocator.Search.{search-IsFirst}
use kamal_proxy.PortAllocator.Invariant.{IsValid, can_bind-free, allocate_specific_port-IsValid}

module _ (service : String) (target now p q : ℕ) (pa : PortAllocator) (v : IsValid pa)
    (free_p : get p pa.allocated ≡ none) (free_q : get q pa.allocated ≡ none) (apart : p ≢ q)
    (positive : 0 < q) where
  abbrev pub with_sockets : PortAllocator
  with_sockets = record pa { bound = update (update pa.bound p true) q true }

  pub get-pair :
      (j : ℕ)
      → get j (install_pair service target now p q with_sockets).allocated ≡ (
          if q == j
          then some pa.next_address
          else if p == j
          then some pa.next_address
          else get j pa.allocated)
  unfolding install_pair
  get-pair j = ground (
    arith,
    get-put q j pa.next_address (put p pa.next_address pa.allocated),
    get-put p j pa.next_address pa.allocated,
  )

  -- Two free ports, once bound, make a pair.
  install_pair-IsValid : IsValid (install_pair service target now p q with_sockets)
  unfolding install_pair
  install_pair-IsValid = record {
    map = put-IsMap q pa.next_address _ (put-IsMap p pa.next_address pa.allocated v.map);
    bound_listeners = λ j. ground (arith, v.bound_listeners j);
    listeners_allocated = λ j. ground (arith, v.listeners_allocated j, get-pair j);
    fresh = λ j a h. ground (arith, v.fresh j a, get-pair j);
    owner = λ j a h. ground (arith, v.fresh j a, v.owner j a, get-pair j);
    rtp_key = λ j a h.
        ground (
          arith,
          v.fresh j a,
          v.rtp_key j a,
          get-pair j,
          get-pair p,
          get-pair (pa.cell a).rtp_port,
        );
    rtcp_key = λ j a h k. ground (
      arith,
      v.fresh j a,
      v.rtcp_key j a,
      get-pair j,
      get-pair q,
      get-pair (pa.cell a).rtcp_port,
    );
  }

module _ (os : Os) (service : String) (target now : ℕ) (pa : PortAllocator) (v : IsValid pa) where
  pub allocate_udp_port-IsValid :
      (preferred : ℕ) → IsValid (allocate_udp_port os service target now preferred pa).0
  unfolding allocate_udp_port
  allocate_udp_port-IsValid preferred =
      let valid = λ (p : ℕ). allocate_specific_port-IsValid os service target now p pa v in
      let range = pa.config.rtp_port_range in
      elim (Bool-cases (ltb 0 preferred && is_port_available os pa preferred)) [
        | inl e ↦ rw (e, allocate_udp_port) (valid preferred)
        | inr e ↦
            elim (Option-cases
              (search (is_port_available os pa) range.start (suc range.end_port) 1)) [
                | inl n ↦ rw (e, n, allocate_udp_port) v
                | inr (p, f) ↦ rw (e, f, allocate_udp_port) (valid p)
              ]
      ]

  pub allocate_adjacent_pair-IsValid : IsValid (allocate_adjacent_pair os service target now pa).0
  unfolding pair_available allocate_adjacent_pair
  allocate_adjacent_pair-IsValid =
      let range = pa.config.rtp_port_range in
      elim (Option-cases (search (pair_available os pa) range.start range.end_port range.step)) [
        | inl e ↦ rw (e, allocate_adjacent_pair) v
        | inr (p, e) ↦
            let f =
              search-IsFirst (pair_available os pa) range.start range.end_port range.step p e in
            let binds : (can_bind os pa p ≡ true) × (can_bind os pa (p + 1) ≡ true) =
              ground (arith, f.passes) in
            rw (e, allocate_adjacent_pair)
              (install_pair-IsValid service target now p (p + 1) pa v
                (can_bind-free os pa p v binds.0).0 (can_bind-free os pa (p + 1) v binds.1).0
                (omega arith) (omega arith))
      ]

  pub find_port_lem :
      (range : PortRange) (pa' : PortAllocator) (p : ℕ)
      → find_port os range pa' ≡ some p
      → (can_bind os pa' p ≡ true) × (range.start ≤ p) × (p ≤ range.end_port)
  unfolding find_port
  find_port_lem range pa' p e =
      let test = λ (j : ℕ). is_port_available os pa' j && can_bind os pa' j in
      let f = search-IsFirst test range.start (suc range.end_port) 1 p e in
      (ground (arith, f.passes), f.above, omega (arith, f.below))

  -- With one of the two ports bound.
  abbrev pub first_bound : ℕ → PortAllocator
  first_bound p = record pa { bound = update pa.bound p true }

  unbind-IsValid :
      (p : ℕ)
      → pa.bound p ≡ false
      → IsValid (record pa { bound = update (update pa.bound p true) p false })
  unbind-IsValid p free = record {
    map = v.map;
    bound_listeners = λ j. ground (arith, v.bound_listeners j);
    listeners_allocated = v.listeners_allocated;
    fresh = v.fresh;
    owner = v.owner;
    rtp_key = v.rtp_key;
    rtcp_key = v.rtcp_key;
  }

  pub allocate_separate_ranges-IsValid :
      0 < pa.config.rtp_port_range.start
      → 0 < pa.config.rtcp_port_range.start
      → IsValid (allocate_separate_ranges os service target now pa).0
  unfolding allocate_separate_ranges
  allocate_separate_ranges-IsValid h k =
      elim (Option-cases (find_port os pa.config.rtp_port_range pa)) [
        | inl e ↦ rw (e, allocate_separate_ranges) v
        | inr (p, e) ↦
            let f = find_port_lem pa.config.rtp_port_range pa p e in
            let free = can_bind-free os pa p v f.0 in
            let nonzero : (p == 0) ≡ false = ground arith in
            elim (Option-cases (find_port os pa.config.rtcp_port_range (first_bound p))) [
              | inl n ↦ rw (e, n, nonzero, allocate_separate_ranges) (unbind-IsValid p free.1)
              | inr (q, n) ↦
                  let g = find_port_lem pa.config.rtcp_port_range (first_bound p) q n in
                  let apart : p ≢ q = ground arith in
                  let nonzero' : (q == 0) ≡ false = ground arith in
                  let own : can_bind os pa q ≡ true = ground arith in
                  rw (e, n, nonzero, nonzero', allocate_separate_ranges)
                    (install_pair-IsValid service target now p q pa v free.0
                      (can_bind-free os pa q v own).0 apart (omega arith))
            ]
      ]
