-- ===== src/ServiceMap/Keys.antt =====
-- Setting a service or removing one brings in no other.
use kamal_proxy.Base.{
  String, ◌≡◌, refl, ◌∙◌, ap, inl, inr, List, [], ◌∷◌, none, some, arith, Option-cases, Bool-cases,
}
use kamal_proxy.Base.Assoc.{Assoc, get, put, remove, string_eq, get-put, get-remove}
use kamal_proxy.ServiceMap.{
  Service, ServiceMap, Sorting, sync_names, sync_service, update_request_service_map, set_service,
  remove_service, names, bind_all,
}

module _ (n : String) where
  sync_names-none :
      (ns : List String) (m : ServiceMap)
      → get n m.services ≡ none
      → get n (sync_names ns m).services ≡ none
  unfolding sync_names
  sync_names-none [] m e = e
  sync_names-none (k ∷ ks) m e = elim (Option-cases (get k m.services)) [
    | inl f ↦ rw (f, sync_names) (sync_names-none ks m e)
    | inr (s, f) ↦
        rw (f, sync_names)
          (sync_names-none ks (record m { services = put k (sync_service m s) m.services })
            (ground (arith, get-put k n (sync_service m s) m.services, string_eq.beq_iff k n)))
  ]

  update-none :
      (sorting : Sorting) (ss : Assoc String Service)
      → get n ss ≡ none
      → get n (update_request_service_map sorting ss).services ≡ none
  unfolding update_request_service_map
  update-none sorting ss e =
      sync_names-none (names ss)
        (record { services = ss; request_service_map = bind_all sorting ss }) e

  pub set_service-none :
      (sorting : Sorting) (s : Service) (m : ServiceMap)
      → get n (put s.name s m.services) ≡ none
      → get n (set_service sorting s m).services ≡ none
  unfolding set_service
  set_service-none sorting s m e = update-none sorting (put s.name s m.services) e

  pub remove_service-none :
      (sorting : Sorting) (k : String) (m : ServiceMap)
      → get n (remove k m.services) ≡ none
      → get n (remove_service sorting k m).services ≡ none
  unfolding remove_service
  remove_service-none sorting k m e = update-none sorting (remove k m.services) e

-- Each service stands under its name.
abbrev pub IsNamed : Assoc String Service → Type 0
IsNamed ss = (n : String) (s : Service) → get n ss ≡ some s → s.name ≡ n

put-IsNamed :
    (n : String) (s : Service) (ss : Assoc String Service)
    → s.name ≡ n
    → IsNamed ss
    → IsNamed (put n s ss)
put-IsNamed n s ss named h k t e = elim (Bool-cases (string_eq.beq n k)) [
  | inl f ↦
      let g : some s ≡ some t = rw (get-put n k s ss, f) at e in
      ground (arith, string_eq.beq_iff n k)
  | inr f ↦ h k t (rw (get-put n k s ss, f) at e)
]

remove-IsNamed : (n : String) (ss : Assoc String Service) → IsNamed ss → IsNamed (remove n ss)
remove-IsNamed n ss h k t e = elim (Bool-cases (string_eq.beq n k)) [
  | inl f ↦ absurd (ground (arith, get-remove n k ss))
  | inr f ↦ h k t (rw (get-remove n k ss, f) at e)
]

sync_service-name : (m : ServiceMap) (s : Service) → (sync_service m s).name ≡ s.name
unfolding sync_service
sync_service-name m s = ground arith

sync_names-IsNamed :
    (ns : List String) (m : ServiceMap) → IsNamed m.services → IsNamed (sync_names ns m).services
unfolding sync_names
sync_names-IsNamed [] m h = h
sync_names-IsNamed (k ∷ ks) m h = elim (Option-cases (get k m.services)) [
  | inl f ↦ rw (f, sync_names) (sync_names-IsNamed ks m h)
  | inr (s, f) ↦
      rw (f, sync_names)
        (sync_names-IsNamed ks (record m { services = put k (sync_service m s) m.services })
          (put-IsNamed k (sync_service m s) m.services (sync_service-name m s ∙ h k s f) h))
]

module _ (sorting : Sorting) (m : ServiceMap) (h : IsNamed m.services) where
  pub set_service-IsNamed : (s : Service) → IsNamed (set_service sorting s m).services
  unfolding set_service update_request_service_map
  set_service-IsNamed s =
      let ss = put s.name s m.services in
      sync_names-IsNamed (names ss)
        (record { services = ss; request_service_map = bind_all sorting ss })
        (put-IsNamed s.name s m.services refl h)

  pub remove_service-IsNamed : (n : String) → IsNamed (remove_service sorting n m).services
  unfolding remove_service update_request_service_map
  remove_service-IsNamed n =
      let ss = remove n m.services in
      sync_names-IsNamed (names ss)
        (record { services = ss; request_service_map = bind_all sorting ss })
        (remove-IsNamed n m.services h)

put_twice :
    (n : String) (s : Service) (ss : Assoc String Service) → put n s (put n s ss) ≡ put n s ss
unfolding put
put_twice n s [] = ground (arith, string_eq.beq_iff n n)
put_twice n s ((k, t) ∷ ss) = ground (arith, string_eq.beq_iff n n, put_twice n s ss)

-- Setting a service that was changed in place before.
pub set_service-put :
    (sorting : Sorting) (s : Service) (m : ServiceMap)
    → set_service sorting s (record m { services = put s.name s m.services })
      ≡ set_service sorting s m
unfolding set_service
set_service-put sorting s m =
    ap (update_request_service_map sorting) (put_twice s.name s m.services)
