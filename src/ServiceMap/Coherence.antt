-- ===== src/ServiceMap/Coherence.antt =====
-- Setting and removing services keeps the map coherent.

use kamal_proxy.Base.{
  String, ◌≡◌, refl, sym, ◌∙◌, ◌⊎◌, inl, inr, ◌↔◌, none, some, List, [], ◌∷◌, arith, Option-cases,
  Elem,
}
use kamal_proxy.Base.Assoc.{Assoc, get, put, remove, bytes_eq, string_eq}
use kamal_proxy.Paths.{Text}
use kamal_proxy.ServiceMap.{
  PathBinding, Service, ServiceMap, Sorting, check_availability, bind_all, set_service,
  remove_service, update_request_service_map, sync_names, sync_service, names,
}
use kamal_proxy.ServiceMap.Bindings.{Asks, bind_all-Asks}
use kamal_proxy.ServiceMap.Routing.{IsExclusive}
use kamal_proxy.ServiceMap.Availability.{IsCoherent, check_availability_exact}

module _ (h : Text) (b : PathBinding) where
  abbrev AsksOne : Service → Type 0
  AsksOne s =
      (s.name ≡ b.service) × Elem h s.options.hosts × Elem b.path_prefix s.options.path_prefixes

  Asks-put :
      (n : String) (s : Service) (ss : Assoc String Service)
      → Asks (put n s ss) h b
      → AsksOne s ⊎ Asks ss h b
  unfolding put
  Asks-put n s [] a = ground arith
  Asks-put n s ((k, t) ∷ ss) a = ground (arith, Asks-put n s ss)

  Asks-remove : (n : String) (ss : Assoc String Service) → Asks (remove n ss) h b → Asks ss h b
  unfolding remove
  Asks-remove n [] a = a
  Asks-remove n ((k, t) ∷ ss) a = ground (arith, Asks-remove n ss)

  -- A service that is put back with the same name, hosts and prefixes asks for the same.
  Asks-put_same :
      (n : String) (s s' : Service) (ss : Assoc String Service)
      → get n ss ≡ some s
      → (AsksOne s' ↔ AsksOne s)
      → Asks (put n s' ss) h b ↔ Asks ss h b
  unfolding put get
  Asks-put_same n s s' [] e same = absurd (ground arith)
  Asks-put_same n s s' ((k, t) ∷ ss) e same = ground (arith, Asks-put_same n s s' ss)

  sync_service-Asks : (m : ServiceMap) (s : Service) → AsksOne (sync_service m s) ↔ AsksOne s
  unfolding sync_service
  sync_service-Asks m s = ground arith

  sync_names-Asks :
      (ns : List String) (m : ServiceMap)
      → (Asks (sync_names ns m).services h b ↔ Asks m.services h b)
        × ((sync_names ns m).request_service_map ≡ m.request_service_map)
  unfolding sync_names
  sync_names-Asks [] m = ((λ a. a, λ a. a), refl)
  sync_names-Asks (n ∷ ns) m = elim (Option-cases (get n m.services)) [
    | inl e ↦ rw (e, sync_names) (sync_names-Asks ns m)
    | inr (s, e) ↦
        let m' = record m { services = put n (sync_service m s) m.services } in
        let t = Asks-put_same n s (sync_service m s) m.services e (sync_service-Asks m s) in
        let ih = sync_names-Asks ns m' in
        rw (e, sync_names) ((λ a. t.0 (ih.0.0 a), λ a. ih.0.1 (t.1 a)), ih.1)
  ]

update-IsCoherent :
    (sorting : Sorting) (ss : Assoc String Service)
    → IsExclusive ss
    → IsCoherent (update_request_service_map sorting ss)
unfolding update_request_service_map
update-IsCoherent sorting ss x =
    let m : ServiceMap = record { services = ss; request_service_map = bind_all sorting ss } in
    let t = λ (h : Text) (b : PathBinding). sync_names-Asks h b (names ss) m in
    record {
      table = λ h b.
          let k = bind_all-Asks sorting ss h b in
          rw (t h b).1 (λ e. (t h b).0.1 (k.0 e), λ a. k.1 ((t h b).0.0 a));
      exclusive = λ h b c p q. x h b c ((t h b).0.0 p) ((t h c).0.0 q);
    }

-- A service that passes the test for conflicts can be set: still no two services are bound to one
-- host and prefix, and the bindings are those that are asked for.
pub set_service-IsCoherent :
    (sorting : Sorting) (s : Service) (m : ServiceMap)
    → IsCoherent m
    → check_availability s.name s.options m ≡ none
    → IsCoherent (set_service sorting s m)
unfolding set_service
set_service-IsCoherent sorting s m c e =
    let free = (check_availability_exact s.name s.options m c).0 e in
    update-IsCoherent sorting (put s.name s m.services) λ h b d p q same.
      elim (Asks-put h b s.name s m.services p) [
        | inl x ↦ elim (Asks-put h d s.name s m.services q) [
          | inl y ↦ sym x.0 ∙ y.0
          | inr y ↦ sym x.0 ∙ sym (free h d x.1 (rw same at x.2) y)
        ]
        | inr x ↦ elim (Asks-put h d s.name s m.services q) [
          | inl y ↦ free h b y.1 (rw (← same) at y.2) x ∙ y.0
          | inr y ↦ c.exclusive h b d x y same
        ]
      ]

-- Removing a service keeps the map coherent.
pub remove_service-IsCoherent :
    (sorting : Sorting) (name : String) (m : ServiceMap)
    → IsCoherent m
    → IsCoherent (remove_service sorting name m)
unfolding remove_service
remove_service-IsCoherent sorting name m c =
    update-IsCoherent sorting (remove name m.services) λ h b d p q.
      c.exclusive h b d (Asks-remove h b name m.services p) (Asks-remove h d name m.services q)
