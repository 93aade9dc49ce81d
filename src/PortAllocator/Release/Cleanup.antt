-- ===== src/PortAllocator/Release/Cleanup.antt =====
-- The cleanup of expired allocations, and where it fails.
use kamal_proxy.Base.{
  ℕ, ◌<◌, ◌≡◌, refl, ◌≢◌, inl, inr, Bool, true, false, none, some, arith, ◌==◌, if◌then◌else◌,
  Bool-cases, Option-cases, List, [], ◌∷◌,
}
use kamal_proxy.Base.Assoc.{Assoc, get, nat_eq, get-remove, remove, has}
use kamal_proxy.PortAllocator.{PortAllocator, PortAllocation}
use kamal_proxy.PortAllocator.Release.{
  close_listener, release, keys_where, is_expired, release_expired, cleanup_expired_allocations,
}
use kamal_proxy.PortAllocator.Invariant.{IsValid}
use kamal_proxy.PortAllocator.Release.Freed.{holds}

release-cell : (a : PortAllocation) (pa : PortAllocator) → (release a pa).cell ≡ pa.cell
unfolding release close_listener
release-cell a pa = ground arith

get-release_any :
    (a : PortAllocation) (pa : PortAllocator) (j : ℕ)
    → get j (release a pa).allocated ≡ (if holds a j then none else get j pa.allocated)
unfolding release close_listener
get-release_any a pa j = ground (
  arith,
  get-remove a.rtp_port j pa.allocated,
  get-remove a.rtp_port j (remove a.rtcp_port pa.allocated),
  get-remove a.rtcp_port j pa.allocated,
)

ap_get : (p q : ℕ) (pa : PortAllocator) → p ≡ q → get p pa.allocated ≡ get q pa.allocated
ap_get p q pa e = rw e

-- A key whose allocation is gone is a nil pointer when its round comes.
release_expired_gone :
    (ports : List ℕ) (pa : PortAllocator) (q : ℕ)
    → has q ports ≡ true
    → get q pa.allocated ≡ none
    → release_expired ports pa ≡ none
unfolding release_expired has
release_expired_gone [] pa q h e = cc
release_expired_gone (p ∷ ports) pa q h e = elim (Option-cases (get p pa.allocated)) [
  | inl n ↦ rw (n, release_expired) refl
  | inr (b, f) ↦
      rw (f, release_expired)
        (release_expired_gone ports (release (pa.cell b) pa) q (ground (arith, ap_get p q pa))
          (ground (arith, get-release_any (pa.cell b) pa q)))
]

keys_where-has :
    (test : PortAllocation → Bool) (cell : ℕ → PortAllocation) (m : Assoc ℕ ℕ) (p a : ℕ)
    → get p m ≡ some a
    → test (cell a) ≡ true
    → has p (keys_where test cell m) ≡ true
unfolding get keys_where has
keys_where-has test cell [] p a h t = cc
keys_where-has test cell ((q, b) ∷ m) p a h t = ground (arith, keys_where-has test cell m p a)

-- Two keys of one allocation: the round of the first takes the second away.
release_expired_pair :
    (ports : List ℕ) (pa : PortAllocator) (a p q : ℕ)
    → has p ports ≡ true
    → has q ports ≡ true
    → p ≢ q
    → get p pa.allocated ≡ some a
    → get q pa.allocated ≡ some a
    → holds (pa.cell a) p ≡ true
    → holds (pa.cell a) q ≡ true
    → release_expired ports pa ≡ none
unfolding release_expired has
release_expired_pair [] pa a p q hp hq apart gp gq op oq = cc
release_expired_pair (j ∷ ports) pa a p q hp hq apart gp gq op oq =
    elim (Option-cases (get j pa.allocated)) [
      | inl n ↦ rw (n, release_expired) refl
      | inr (b, f) ↦
          let pa' = release (pa.cell b) pa in
          let at_p = get-release_any (pa.cell b) pa p in
          let at_q = get-release_any (pa.cell b) pa q in
          let gone_p = release_expired_gone ports pa' p in
          let gone_q = release_expired_gone ports pa' q in
          let same = release-cell (pa.cell b) pa in
          rw (f, release_expired)
            (elim (Bool-cases (j == p)) [
              | inl e ↦ gone_q (ground arith) (ground (arith, at_q, ap_get j p pa))
              | inr e ↦ elim (Bool-cases (j == q)) [
                | inl d ↦ gone_p (ground arith) (ground (arith, at_p, ap_get j q pa))
                | inr d ↦ elim (Bool-cases (holds (pa.cell b) p)) [
                  | inl x ↦ gone_p (ground arith) (ground (arith, at_p))
                  | inr x ↦ elim (Bool-cases (holds (pa.cell b) q)) [
                    | inl y ↦ gone_q (ground arith) (ground (arith, at_q))
                    | inr y ↦
                        release_expired_pair ports pa' a p q (ground arith) (ground arith) apart
                          (ground (arith, at_p)) (ground (arith, at_q)) (rw same op) (rw same oq)
                  ]
                ]
              ]
            ])
    ]

-- The bug: whenever an RTP/RTCP pair of a valid allocator is out of use and past its time, the
-- cleanup dereferences a nil pointer.
pub cleanup_expired_allocations_pair :
    (now p a : ℕ) (pa : PortAllocator)
    → IsValid pa
    → get p pa.allocated ≡ some a
    → 0 < (pa.cell a).rtcp_port
    → (pa.cell a).rtp_port ≢ (pa.cell a).rtcp_port
    → (pa.cell a).in_use ≡ false
    → (pa.cell a).expires_at < now
    → cleanup_expired_allocations now pa ≡ none
unfolding cleanup_expired_allocations is_expired
cleanup_expired_allocations_pair now p a pa v h positive apart unused late =
    let expired : is_expired now (pa.cell a) ≡ true = ground arith in
    let rtp = v.rtp_key p a h in
    let rtcp = v.rtcp_key p a h positive in
    let m = pa.allocated in
    release_expired_pair (keys_where (is_expired now) pa.cell m) pa a (pa.cell a).rtp_port
      (pa.cell a).rtcp_port
      (keys_where-has (is_expired now) pa.cell m (pa.cell a).rtp_port a rtp expired)
      (keys_where-has (is_expired now) pa.cell m (pa.cell a).rtcp_port a rtcp expired) apart rtp
      rtcp (ground arith) (ground arith)
