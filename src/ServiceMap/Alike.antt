-- ===== src/ServiceMap/Alike.antt =====
-- Setting a service stores it, and changes others in two TLS options at most, which are those of the
-- service at the root path of their host.
use kamal_proxy.Base.{
  String, ◌≡◌, refl, ap, inl, inr, Bool, List, [], ◌∷◌, Option, none, some, arith, Option-cases,
  Bool-cases,
}
use kamal_proxy.Base.Assoc.{get, put, string_eq, get-put}
use kamal_proxy.ServiceMap.{
  Service, ServiceMap, Sorting, sync_names, sync_service, update_request_service_map, set_service,
  names, bind_all, serves_root_path, root_tls, service_for_host, first_host,
}

-- `t` is `s` but for two TLS options.
abbrev pub Alike : Service → Service → Type 0
Alike s t =
    (enabled : Bool) × (redirect : Bool) × (t
      ≡ record s { options = record s.options { tls_enabled = enabled; tls_redirect = redirect } })

abbrev pub AlikeOption : Option Service → Option Service → Type 0
AlikeOption none y = y ≡ none
AlikeOption (some s) y = (t : Service) × (y ≡ some t) × Alike s t

sync_service-Alike : (m : ServiceMap) (r s : Service) → Alike r s → Alike r (sync_service m s)
unfolding sync_service
sync_service-Alike m r s (a, b, e) = elim (Bool-cases (serves_root_path s)) [
  | inl f ↦ (a, b, rw (sync_service, f) e)
  | inr f ↦
      let (enabled, redirect) =
        root_tls (service_for_host (first_host s.options.hosts) m) m.services in
      let set : Service → Service = λ x. record x {
        options = record x.options { tls_enabled = enabled; tls_redirect = redirect };
      } in
      (enabled, redirect, rw (sync_service, f) (ap set e))
]

some-Alike :
    (m : ServiceMap) (x : Option Service) (s : Service)
    → AlikeOption x (some s)
    → AlikeOption x (some (sync_service m s))
some-Alike m none s h = absurd (ground arith)
some-Alike m (some r) s (t, e, a) =
    let f : s ≡ t = ground arith in (sync_service m s, refl, sync_service-Alike m r s (rw f a))

sync_names-Alike :
    (n : String) (x : Option Service) (ns : List String) (m : ServiceMap)
    → AlikeOption x (get n m.services)
    → AlikeOption x (get n (sync_names ns m).services)
unfolding sync_names
sync_names-Alike n x [] m h = h
sync_names-Alike n x (k ∷ ks) m h = elim (Option-cases (get k m.services)) [
  | inl f ↦ rw (f, sync_names) (sync_names-Alike n x ks m h)
  | inr (s, f) ↦
      rw (f, sync_names)
        (sync_names-Alike n x ks (record m { services = put k (sync_service m s) m.services })
          (elim (Bool-cases (string_eq.beq k n)) [
            | inl e ↦
                let same : k ≡ n = (string_eq.beq_iff k n).0 e in
                rw (get-put k n (sync_service m s) m.services, e)
                  (some-Alike m x s (rw (← f, same) h))
            | inr e ↦ rw (get-put k n (sync_service m s) m.services, e) h
          ]))
]

AlikeOption-refl : (x : Option Service) → AlikeOption x x
AlikeOption-refl none = refl
AlikeOption-refl (some s) = (s, refl, (s.options.tls_enabled, s.options.tls_redirect, refl))

pub set_service-Alike :
    (n : String) (sorting : Sorting) (s : Service) (m : ServiceMap)
    → AlikeOption (get n (put s.name s m.services)) (get n (set_service sorting s m).services)
unfolding set_service update_request_service_map
set_service-Alike n sorting s m =
    let ss = put s.name s m.services in
    sync_names-Alike n (get n ss) (names ss)
      (record { services = ss; request_service_map = bind_all sorting ss })
      (AlikeOption-refl (get n ss))
