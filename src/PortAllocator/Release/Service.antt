-- ===== src/PortAllocator/Release/Service.antt =====
-- DeallocateService: the ports of one service are freed, and no others.
use text.Mathlib.Text.{◌==◌ as str_eq}
use text.Mathlib.TextEquality.{eq_iff}
use kamal_proxy.Base.{
  ℕ, String, ◌≡◌, ◌≢◌, ◌∙◌, refl, inl, inr, Bool, true, false, Option, none, some, arith, ◌==◌,
  if◌then◌else◌, Bool-cases, Option-cases, List, [], ◌∷◌,
}
use kamal_proxy.Base.Assoc.{Assoc, get, nat_eq, get-remove, has, IsMap, AllDistinct}
use kamal_proxy.PortAllocator.{PortAllocator, PortAllocation, is_some}
use kamal_proxy.PortAllocator.Release.{
  get_allocation, close_listener, release_key, keys_where, release_keys, deallocate_service,
}
use kamal_proxy.PortAllocator.Invariant.{IsValid}

abbrev pub passes : (PortAllocation → Bool) → (ℕ → PortAllocation) → Option ℕ → Bool
passes test cell none = false
passes test cell (some a) = test (cell a)

module _ (test : PortAllocation → Bool) (cell : ℕ → PortAllocation) where
  has-keys_where :
      (m : Assoc ℕ ℕ) (j : ℕ)
      → IsMap m
      → has j (keys_where test cell m) ≡ passes test cell (get j m)
  unfolding keys_where has get
  has-keys_where [] j h = refl
  has-keys_where ((p, a) ∷ m) j h = ground (arith, has-keys_where m j h.1, same p j m)
    where
      same : (p j : ℕ) (m : Assoc ℕ ℕ) → p ≡ j → get p m ≡ get j m
      same p j m e = rw e

  keys_where-AllDistinct : (m : Assoc ℕ ℕ) → IsMap m → AllDistinct (keys_where test cell m)
  unfolding keys_where
  keys_where-AllDistinct [] h = tt
  keys_where-AllDistinct ((p, a) ∷ m) h = elim (Bool-cases (test (cell a))) [
    | inl e ↦
        rw (e, keys_where)
          (ground (arith, has-keys_where m p h.1, h.0), keys_where-AllDistinct m h.1)
    | inr e ↦ rw (e, keys_where) (keys_where-AllDistinct m h.1)
  ]

release_key_lem :
    (port : ℕ) (a : PortAllocation) (pa : PortAllocator)
    → ((release_key port a pa).cell ≡ pa.cell)
      × ((j : ℕ)
          → get j (release_key port a pa).allocated
            ≡ (if port == j then none else get j pa.allocated))
unfolding release_key close_listener
release_key_lem port a pa = (ground arith, λ j. ground (arith, get-remove port j pa.allocated))

-- The rounds over distinct keys that are all allocated.
release_keys_lem :
    (ports : List ℕ) (pa : PortAllocator)
    → AllDistinct ports
    → ((j : ℕ) → has j ports ≡ true → is_some (get j pa.allocated) ≡ true)
    → (pa' : PortAllocator) × (release_keys ports pa ≡ some pa')
      × ((j : ℕ) → get j pa'.allocated ≡ (if has j ports then none else get j pa.allocated))
unfolding release_keys has
release_keys_lem [] pa d h = (pa, refl, λ j. refl)
release_keys_lem (p ∷ ports) pa d h = elim (Option-cases (get p pa.allocated)) [
  | inl n ↦ absurd (ground (arith, h p))
  | inr (a, e) ↦
      let pa₁ = release_key p (pa.cell a) pa in
      let k = (release_key_lem p (pa.cell a) pa).1 in
      let (pa', ok', spec) =
        release_keys_lem ports pa₁ d.1 (λ j x. ground (arith, k j, h j, d.0, has_same p j ports)) in
      (pa', rw (e, release_keys) ok', λ j. ground (arith, spec j, k j))
]
  where
    has_same : (p j : ℕ) (ports : List ℕ) → p ≡ j → has p ports ≡ has j ports
    has_same p j ports e = rw e

-- Deallocating a service does not fail: exactly the ports whose allocation names the service are
-- freed.
deallocate_service_frees :
    (service : String) (pa : PortAllocator)
    → IsValid pa
    → (pa' : PortAllocator) × (deallocate_service service pa ≡ some pa')
      × ((j : ℕ)
          → get j pa'.allocated ≡ (
              if passes (λ a. str_eq a.service_name service) pa.cell (get j pa.allocated)
              then none
              else get j pa.allocated))
unfolding deallocate_service
deallocate_service_frees service pa v =
    let test = λ (a : PortAllocation). str_eq a.service_name service in
    let keys = keys_where test pa.cell pa.allocated in
    let mem = λ (j : ℕ). has-keys_where test pa.cell pa.allocated j v.map in
    let (pa', e, spec) =
      release_keys_lem keys pa (keys_where-AllDistinct test pa.cell pa.allocated v.map)
        (λ j x. ground (arith, mem j)) in
    (pa', e, λ j. rw (← mem j) (spec j))

release_keys-cell :
    (ports : List ℕ) (pa pa' : PortAllocator)
    → release_keys ports pa ≡ some pa'
    → pa'.cell ≡ pa.cell
unfolding release_keys
release_keys-cell [] pa pa' e = ground arith
release_keys-cell (p ∷ ports) pa pa' e = elim (Option-cases (get p pa.allocated)) [
  | inl n ↦ absurd (ground (arith, rw (n, release_keys) at e))
  | inr (a, f) ↦
      release_keys-cell ports (release_key p (pa.cell a) pa) pa' (rw (f, release_keys) at e)
      ∙ (release_key_lem p (pa.cell a) pa).0
]

get_allocation-some :
    (port : ℕ) (pa : PortAllocator) (a : PortAllocation)
    → get_allocation port pa ≡ some a
    → (x : ℕ) × (get port pa.allocated ≡ some x) × (pa.cell x ≡ a)
unfolding get_allocation
get_allocation-some port pa a e = elim (Option-cases (get port pa.allocated)) [
  | inl n ↦ absurd (ground (arith, rw (n, get_allocation) at e))
  | inr (x, f) ↦
      let g : Path (Option PortAllocation) (some (pa.cell x)) (some a) =
        rw (f, get_allocation) at e in
      (x, f, ground arith)
]

-- The ports that `spec` leaves have allocations for other services.
other_service :
    (service : String) (pa pa' : PortAllocator) (port x : ℕ)
    → get port pa'.allocated ≡ (
        if passes (λ a. str_eq a.service_name service) pa.cell (get port pa.allocated)
        then none
        else get port pa.allocated)
    → get port pa'.allocated ≡ some x
    → (pa.cell x).service_name ≢ service
other_service service pa pa' port x spec f n = elim (Option-cases (get port pa.allocated)) [
  | inl k ↦ absurd (ground (arith, rw k at spec))
  | inr (y, k) ↦ elim (Bool-cases (str_eq (pa.cell y).service_name service)) [
    | inl b ↦ absurd (ground (arith, rw (k, b) at spec))
    | inr b ↦
        let q : get port pa'.allocated ≡ some y = rw (k, b) at spec in
        let same : x ≡ y = ground arith in
        absurd (ground (arith, eq_iff (pa.cell y).service_name service))
  ]
]

-- After a service was deallocated no port has an allocation that names it.
pub deallocate_service-none :
    (service : String) (pa : PortAllocator)
    → IsValid pa
    → (pa' : PortAllocator) × (deallocate_service service pa ≡ some pa')
      × ((port : ℕ) (a : PortAllocation)
          → get_allocation port pa' ≡ some a
          → a.service_name ≢ service)
unfolding deallocate_service
deallocate_service-none service pa v =
    let (pa', e, spec) = deallocate_service_frees service pa v in
    let keys = keys_where (λ a. str_eq a.service_name service) pa.cell pa.allocated in
    let same = release_keys-cell keys pa pa' e in
    (
      pa',
      e,
      λ port a f n.
          let (x, g, h) = get_allocation-some port pa' a f in
          let k : pa.cell x ≡ a = rw same at h in
          other_service service pa pa' port x (spec port) g (rw k n),
    )
