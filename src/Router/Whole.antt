-- ===== src/Router/Whole.antt =====
-- Each service of the router has an active balancer, so no call panics on a missing one.
use kamal_proxy.Base.{String, ◌≡◌, refl, ◌⊎◌, inl, inr, Option, none, some, arith, Bool-cases}
use kamal_proxy.Base.Assoc.{Assoc, get, put, remove, string_eq, get-put, get-remove}
use kamal_proxy.ServiceMap
use kamal_proxy.ServiceMap.{Service, ServiceMap, Sorting, set_service}
use kamal_proxy.ServiceMap.Keys.{set_service-none, remove_service-none}
use kamal_proxy.LoadBalancer.{LoadBalancer}
use kamal_proxy.Service.{Body, Object}
use kamal_proxy.Router.{Router, object_of, service_for_name}

module _ {F : Type 0} where
  abbrev pub HasActive : Body F → Type 0
  HasActive b = (lb : LoadBalancer) × (b.active ≡ some lb)

  abbrev pub Active : Option (Body F) → Type 0
  Active none = ⊥
  Active (some b) = HasActive b

  -- Each service that is listed has a body with an active balancer.
  abbrev pub Whole : Assoc String Service → Assoc String (Body F) → Type 0
  Whole ss bs = (n : String) → (get n ss ≡ none) ⊎ Active (get n bs)

  abbrev pub IsWhole : Router F → Type 0
  IsWhole r = Whole r.services.services r.bodies

  pub Whole-put :
      (n : String) (s : Service) (b : Body F) (ss : Assoc String Service)
      (bs : Assoc String (Body F))
      → Whole ss bs
      → HasActive b
      → Whole (put n s ss) (put n b bs)
  Whole-put n s b ss bs w a k = elim (Bool-cases (string_eq.beq n k)) [
    | inl e ↦ inr (rw (get-put n k b bs, e) a)
    | inr e ↦ rw (get-put n k s ss, get-put n k b bs, e) (w k)
  ]

  pub Whole-body :
      (n : String) (b : Body F) (ss : Assoc String Service) (bs : Assoc String (Body F))
      → Whole ss bs
      → HasActive b
      → Whole ss (put n b bs)
  Whole-body n b ss bs w a k = elim (Bool-cases (string_eq.beq n k)) [
    | inl e ↦ inr (rw (get-put n k b bs, e) a)
    | inr e ↦ rw (get-put n k b bs, e) (w k)
  ]

  pub Whole-remove :
      (n : String) (ss : Assoc String Service) (bs : Assoc String (Body F))
      → Whole ss bs
      → Whole (remove n ss) (remove n bs)
  Whole-remove n ss bs w k = elim (Bool-cases (string_eq.beq n k)) [
    | inl e ↦ inl (rw (get-remove n k ss, e) refl)
    | inr e ↦ rw (get-remove n k ss, get-remove n k bs, e) (w k)
  ]

  pub Whole-set :
      (sorting : Sorting) (s : Service) (b : Body F) (m : ServiceMap) (bs : Assoc String (Body F))
      → Whole m.services bs
      → HasActive b
      → Whole (set_service sorting s m).services (put s.name b bs)
  Whole-set sorting s b m bs w a k = elim (Whole-put s.name s b m.services bs w a k) [
    | inl e ↦ inl (set_service-none k sorting s m e)
    | inr h ↦ inr h
  ]

  pub Whole-unset :
      (sorting : Sorting) (n : String) (m : ServiceMap) (bs : Assoc String (Body F))
      → Whole m.services bs
      → Whole (ServiceMap.remove_service sorting n m).services (remove n bs)
  Whole-unset sorting n m bs w k = elim (Whole-remove n m.services bs w k) [
    | inl e ↦ inl (remove_service-none k sorting n m e)
    | inr h ↦ inr h
  ]

  object_of-some :
      (s : Option Service) (b : Option (Body F)) (o : Object F)
      → object_of s b ≡ some o
      → (s ≡ some o.service) × (b ≡ some o.body)
  unfolding object_of
  object_of-some none b o e = ground arith
  object_of-some (some s) none o e = ground arith
  object_of-some (some s) (some b) o e = (ground arith, ground arith)

  pub service_for_name-some :
      (n : String) (r : Router F) (o : Object F)
      → service_for_name n r ≡ some o
      → (get n r.services.services ≡ some o.service) × (get n r.bodies ≡ some o.body)
  unfolding service_for_name
  service_for_name-some n r o e = object_of-some (get n r.services.services) (get n r.bodies) o e

  pub service_for_name-HasActive :
      (n : String) (r : Router F) (o : Object F)
      → IsWhole r
      → service_for_name n r ≡ some o
      → HasActive o.body
  service_for_name-HasActive n r o w e =
      let (f, g) = service_for_name-some n r o e in
      elim (w n) [ inl h ↦ absurd (ground arith) | inr a ↦ rw g at a ]
