-- ===== src/PortAllocator/Grants.antt =====
-- What an allocation of a pair gives to the caller, for each policy and outcome.
use text.Mathlib.Text.{◌==◌ as str_eq}
use kamal_proxy.Base.{
  ℕ, ◌+◌, ◌*◌, ◌<◌, String, ◌≡◌, refl, ◌≢◌, ◌⊎◌, inl, inr, true, false, none, some, arith, ◌==◌,
  if◌then◌else◌, Bool-cases, Option-cases,
}
use kamal_proxy.Base.Assoc.{get, nat_eq}
use kamal_proxy.PortAllocator.{
  PortAllocator, PortRange, Result, Error, ok, err, no_port_pairs, Os, update, can_bind,
  install_pair, pair_available, find_port, search, allocate_adjacent_pair, allocate_separate_ranges,
  allocate_rtp_rtcp_pair,
}
use kamal_proxy.PortAllocator.Search.{IsFirst, search-IsFirst, search-none}
use kamal_proxy.PortAllocator.Invariant.{IsValid, can_bind-free}
use kamal_proxy.PortAllocator.Allocate.{
  get-pair, first_bound, find_port_lem, allocate_adjacent_pair-IsValid,
  allocate_separate_ranges-IsValid,
}

-- `pa'` is `pa` with a new allocation at `a` for two ports that were free.
pub record IsPair (service : String) (target now : ℕ) (pa pa' : PortAllocator) (a : ℕ)
    : Type 0 where
  pub rtp : ℕ
  pub rtcp : ℕ
  pub apart : rtp ≢ rtcp
  pub free_rtp : get rtp pa.allocated ≡ none
  pub free_rtcp : get rtcp pa.allocated ≡ none
  pub keys :
      (j : ℕ)
      → get j pa'.allocated
        ≡ (if rtcp == j then some a else if rtp == j then some a else get j pa.allocated)
  pub allocation : pa'.cell a ≡ record {
    service_name = service;
    rtp_port = rtp;
    rtcp_port = rtcp;
    allocated_at = now;
    expires_at = now + pa.config.allocation_ttl;
    target = target;
    protocol = "webrtc";
    in_use = true;
  }
  pub others : (b : ℕ) → b ≢ a → pa'.cell b ≡ pa.cell b

-- The outcome of a call: a pair, or an error that leaves the allocations and the sockets alone.
abbrev pub PairOutcome : String → ℕ → ℕ → PortAllocator → PortAllocator → Result ℕ → Type 0
PairOutcome service target now pa pa' (ok a) = IsPair service target now pa pa' a
PairOutcome service target now pa pa' (err e) =
    (pa'.allocated ≡ pa.allocated) × ((p : ℕ) → pa'.bound p ≡ pa.bound p)

module _ (os : Os) (service : String) (target now : ℕ) (pa : PortAllocator) (v : IsValid pa) where
  install_pair-IsPair :
      (p q : ℕ)
      → get p pa.allocated ≡ none
      → get q pa.allocated ≡ none
      → p ≢ q
      → 0 < q
      → IsPair service target now pa
          (install_pair service target now p q
            (record pa { bound = update (update pa.bound p true) q true }))
          pa.next_address
  install_pair-IsPair p q free_p free_q apart positive = record {
    rtp = p;
    rtcp = q;
    apart = apart;
    free_rtp = free_p;
    free_rtcp = free_q;
    keys = get-pair service target now p q pa v free_p free_q apart positive;
    allocation = unfold install_pair in ground arith;
    others = λ b ne. unfold install_pair in ground arith;
  }

  abbrev range : PortRange
  range = pa.config.rtp_port_range

  adjacent_ports :
      (p : ℕ)
      → search (pair_available os pa) range.start range.end_port range.step ≡ some p
      → (get p pa.allocated ≡ none) × (get (p + 1) pa.allocated ≡ none)
  unfolding pair_available
  adjacent_ports p e =
      let f = search-IsFirst (pair_available os pa) range.start range.end_port range.step p e in
      let binds : (can_bind os pa p ≡ true) × (can_bind os pa (p + 1) ≡ true) =
        ground (arith, f.passes) in
      ((can_bind-free os pa p v binds.0).0, (can_bind-free os pa (p + 1) v binds.1).0)

  allocate_adjacent_pair-PairOutcome :
      let r = allocate_adjacent_pair os service target now pa in
      PairOutcome service target now pa r.0 r.1
  unfolding allocate_adjacent_pair
  allocate_adjacent_pair-PairOutcome =
      elim (Option-cases (search (pair_available os pa) range.start range.end_port range.step)) [
        | inl e ↦ rw (e, allocate_adjacent_pair) (refl, λ p. refl)
        | inr (p, e) ↦
            let free = adjacent_ports p e in
            rw (e, allocate_adjacent_pair)
              (install_pair-IsPair p (p + 1) free.0 free.1 (omega arith) (omega arith))
      ]

  allocate_separate_ranges-PairOutcome :
      0 < pa.config.rtp_port_range.start
      → 0 < pa.config.rtcp_port_range.start
      → let r = allocate_separate_ranges os service target now pa in
        PairOutcome service target now pa r.0 r.1
  unfolding allocate_separate_ranges
  allocate_separate_ranges-PairOutcome h k = elim (Option-cases (find_port os range pa)) [
    | inl e ↦ rw (e, allocate_separate_ranges) (refl, λ p. refl)
    | inr (p, e) ↦
        let f = find_port_lem os service target now pa v range pa p e in
        let free = can_bind-free os pa p v f.0 in
        let nonzero : (p == 0) ≡ false = ground arith in
        let pa₁ = first_bound os service target now pa v p in
        elim (Option-cases (find_port os pa.config.rtcp_port_range pa₁)) [
          | inl n ↦ rw (e, n, nonzero, allocate_separate_ranges) (refl, λ j. ground (arith, free.1))
          | inr (q, n) ↦
              let g = find_port_lem os service target now pa v pa.config.rtcp_port_range pa₁ q n in
              let apart : p ≢ q = ground (arith, g) in
              let nonzero' : (q == 0) ≡ false = ground (arith, g) in
              let own : can_bind os pa q ≡ true = ground (arith, g) in
              rw (e, n, nonzero, nonzero', allocate_separate_ranges)
                (install_pair-IsPair p q free.0 (can_bind-free os pa q v own).0 apart
                  (omega (arith, g)))
        ]
  ]

  -- The first pair of neighbours on the grid of the range is given; an error means there is none.
  pub allocate_adjacent_pair-IsFirst :
      0 < range.step
      → let r = allocate_adjacent_pair os service target now pa in
        ((a : ℕ)
          → r.1 ≡ ok a
          → IsFirst
              (pair_available os pa)
              range.start
              range.end_port
              range.step
              (r.0.cell a).rtp_port
            × ((r.0.cell a).rtcp_port ≡ (r.0.cell a).rtp_port + 1))
        × (r.1 ≡ err no_port_pairs
            → (k : ℕ) → range.start + k * range.step < range.end_port
            → pair_available os pa (range.start + k * range.step) ≡ false)
  unfolding allocate_adjacent_pair install_pair-IsPair
  allocate_adjacent_pair-IsFirst s =
      elim (Option-cases (search (pair_available os pa) range.start range.end_port range.step)) [
        | inl e ↦
            rw (e, allocate_adjacent_pair)
              (
                λ a h. cc,
                λ _. search-none (pair_available os pa) range.start range.end_port range.step s e,
              )
        | inr (p, e) ↦
            let found =
              search-IsFirst (pair_available os pa) range.start range.end_port range.step p e in
            rw (e, allocate_adjacent_pair)
              (
                λ a h.
                    let same : pa.next_address ≡ a = cc in
                    let t =
                      install_pair-IsPair p (p + 1) (adjacent_ports p e).0 (adjacent_ports p e).1
                        (omega arith) (omega arith) in
                    rw (← same, t.allocation) (found, refl),
                λ h. cc,
              )
      ]

pub Result-cases : (r : Result ℕ) → ((a : ℕ) × (r ≡ ok a)) ⊎ ((e : Error) × (r ≡ err e))
Result-cases (ok a) = inl (a, refl)
Result-cases (err e) = inr (e, refl)

module _ (os os' : Os) (service : String) (target now : ℕ) (pa : PortAllocator) where
  allocate_adjacent_pair_err :
      (e : Error)
      → (allocate_adjacent_pair os service target now pa).1 ≡ err e
      → (allocate_adjacent_pair os service target now pa).0 ≡ pa
  unfolding allocate_adjacent_pair
  allocate_adjacent_pair_err e h = ground arith

  -- A call is one of three attempts on the allocator as it was.
  pub allocate_rtp_rtcp_pair_cases {ℓ} :
      (P : PortAllocator × Result ℕ → Type ℓ)
      → P (allocate_adjacent_pair os service target now pa)
      → P (allocate_separate_ranges os service target now pa)
      → P (allocate_separate_ranges os' service target now pa)
      → P (allocate_rtp_rtcp_pair os os' service target now pa)
  unfolding allocate_rtp_rtcp_pair
  allocate_rtp_rtcp_pair_cases P adjacent separate separate' =
      let policy = pa.config.rtcp_policy in
      elim (Bool-cases (str_eq policy "adjacent")) [
        | inl e ↦ rw (e, allocate_rtp_rtcp_pair) adjacent
        | inr e ↦ elim (Bool-cases (str_eq policy "separate-range")) [
          | inl f ↦ rw (e, f, allocate_rtp_rtcp_pair) separate
          | inr f ↦ elim (Bool-cases (str_eq policy "auto")) [
            | inr g ↦ rw (e, f, g, allocate_rtp_rtcp_pair) adjacent
            | inl g ↦ elim (Result-cases (allocate_adjacent_pair os service target now pa).1) [
              | inl (a, r) ↦ rw (e, f, g, r, allocate_rtp_rtcp_pair) adjacent
              | inr (x, r) ↦
                  rw (e, f, g, r, allocate_adjacent_pair_err x r, allocate_rtp_rtcp_pair) separate'
            ]
          ]
        ]
      ]

  module _ (v : IsValid pa) (h : 0 < pa.config.rtp_port_range.start)
      (k : 0 < pa.config.rtcp_port_range.start) where
    -- With ranges that begin above port 0 each policy gives out two different ports that were
    -- free, under a new allocation for the service and with every other allocation as it was, or
    -- fails with the allocations and the open sockets as they were.
    pub allocate_rtp_rtcp_pair-PairOutcome :
        let r = allocate_rtp_rtcp_pair os os' service target now pa in
        PairOutcome service target now pa r.0 r.1
    allocate_rtp_rtcp_pair-PairOutcome =
        allocate_rtp_rtcp_pair_cases (λ r. PairOutcome service target now pa r.0 r.1)
          (allocate_adjacent_pair-PairOutcome os service target now pa v)
          (allocate_separate_ranges-PairOutcome os service target now pa v h k)
          (allocate_separate_ranges-PairOutcome os' service target now pa v h k)

    -- Allocating a pair keeps allocated ports, listeners and sockets in step, with each policy, if
    -- both ranges begin above port 0.
    pub allocate_rtp_rtcp_pair-IsValid :
        IsValid (allocate_rtp_rtcp_pair os os' service target now pa).0
    allocate_rtp_rtcp_pair-IsValid =
        allocate_rtp_rtcp_pair_cases (λ r. IsValid r.0)
          (allocate_adjacent_pair-IsValid os service target now pa v)
          (allocate_separate_ranges-IsValid os service target now pa v h k)
          (allocate_separate_ranges-IsValid os' service target now pa v h k)
