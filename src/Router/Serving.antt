-- ===== src/Router/Serving.antt =====
-- internal/server/router.go: the handler of requests, certificates, the list of services, and
-- reading the saved state.
use Prim.Native.String.{◌++◌ as append}
use kamal_proxy.Base.{
  String, Bool, ◌&&◌, not, List, [], ◌∷◌, ◌++◌, Option, none, some, if◌then◌else◌,
}
use kamal_proxy.Base.Assoc.{Assoc, get, put, string_eq, same_bytes}
use kamal_proxy.Paths.{Text, root_path}
use kamal_proxy.ServiceMap.{set_service, service_for_request, service_for_host, Service}
use kamal_proxy.PauseController
use kamal_proxy.PauseController.{PauseState, running, paused, stopped}
use kamal_proxy.LoadBalancer
use kamal_proxy.LoadBalancer.{LoadBalancer}
use kamal_proxy.LoadBalancer.TargetList.{Heap}
use kamal_proxy.Service.{CertManager, Outcome, done, failed, panicked, Body, Object}
use kamal_proxy.Service.State.{MarshalledService, unmarshal_json_service}
use kamal_proxy.Router.{Router, no_services, Setting, service_for_name}

-- A request is answered with 404, or goes to a service, with the prefix that is to be stripped.
pub data Served (F : Type 0) : Type 0 where
  not_found : Served F
  served_by : Object F → Option Text → Served F

pub data Certificate : Type 0 where
  no_server_name unknown_server_name : Certificate
  certificate_of : CertManager → Certificate

pub record ServiceDescription : Type 0 where
  pub host : Text
  pub path : Text
  pub tls : Bool
  pub target : String
  pub state : String

pub join_texts : List Text → Text
join_texts [] = []
join_texts (t ∷ []) = t
join_texts (t ∷ u ∷ ts) = t ++ b',' ∷ join_texts (u ∷ ts)

pub join_names : List String → String
join_names [] = ""
join_names (t ∷ []) = t
join_names (t ∷ u ∷ ts) = append t (append "," (join_names (u ∷ ts)))

pub state_name : PauseState → String
state_name running = "running"
state_name paused = "paused"
state_name stopped = "stopped"

pub or_star : Text → Text
or_star [] = b'*' ∷ []
or_star (c ∷ cs) = c ∷ cs

module _ {F : Type 0} where
  -- `split` is net.SplitHostPort.
  pub serve_http : (Text → Option Text) → Text → Text → Router F → Served F
  unfolding service_for_name
  serve_http split host path r = elim (service_for_request split host path r.services) [
    | none ↦ not_found
    | some binding ↦ elim (service_for_name binding.service r) [
      | none ↦ not_found
      | some o ↦
          let strip =
            o.service.options.strip_prefix && not (same_bytes binding.path_prefix root_path) in
          served_by o (if strip then some binding.path_prefix else none)
    ]
  ]

  pub get_certificate : Text → Router F → Certificate
  unfolding service_for_name
  get_certificate [] r = no_server_name
  get_certificate (c ∷ cs) r = elim (service_for_host (c ∷ cs) r.services) [
    | none ↦ unknown_server_name
    | some binding ↦ elim (service_for_name binding.service r) [
      | none ↦ unknown_server_name
      | some o ↦ elim o.body.cert_manager [
        | none ↦ unknown_server_name
        | some manager ↦ certificate_of manager
      ]
    ]
  ]

  pub describe : Service → Body F → LoadBalancer → Heap → ServiceDescription
  unfolding join_texts join_names state_name or_star
  describe s b lb heap = record {
    host = or_star (join_texts s.options.hosts);
    path = join_texts s.options.path_prefixes;
    tls = s.options.tls_enabled;
    target = join_names (LoadBalancer.names heap.targets lb.all);
    state = state_name b.pause_controller.state;
  }

  pub list_services : Assoc String Service → Router F → Assoc String ServiceDescription
  unfolding describe
  list_services [] r = []
  list_services ((name, s) ∷ ss) r =
      let rest = list_services ss r in
      elim (get name r.bodies) [
        | none ↦ rest
        | some b ↦ elim b.active [ none ↦ rest | some lb ↦ (name, describe s b lb r.heap) ∷ rest ]
      ]

  pub list_active_services : Router F → Assoc String ServiceDescription
  unfolding list_services
  list_active_services r = list_services r.services.services r

  pub restore_services : Setting → List (Object F) → Router F → Router F
  restore_services setting [] r = r
  restore_services setting (o ∷ os) r = restore_services setting os (record r {
    services = set_service setting.sorting o.service r.services;
    bodies = put o.service.name o.body r.bodies;
  })

  -- Decoding the state file.
  pub decode_services :
      Setting
      → List (MarshalledService F)
      → Heap
      → PauseController.Heap
      → Outcome (List (Object F) × Heap × PauseController.Heap)
  decode_services setting [] heap channels = done ([], heap, channels)
  decode_services setting (ms ∷ mss) heap channels =
      elim (unmarshal_json_service setting.files ms heap channels) [
        | failed e ↦ failed e
        | panicked ↦ panicked
        | done (o, heap', channels') ↦ elim (decode_services setting mss heap' channels') [
          | failed e ↦ failed e
          | panicked ↦ panicked
          | done (os, heap'', channels'') ↦ done (o ∷ os, heap'', channels'')
        ]
      ]

  -- Without a state file nothing happens.
  pub restore_last_saved_state : Setting → Router F → Router F × Outcome (Unit {0})
  unfolding decode_services restore_services no_services
  restore_last_saved_state setting r = elim r.saved [
    | none ↦ (r, done tt)
    | some mss ↦ elim (decode_services setting mss r.heap r.channels) [
      | failed e ↦ (r, failed e)
      | panicked ↦ (r, panicked)
      | done (os, heap, channels) ↦ (
        restore_services setting os (record {
          services = no_services;
          bodies = [];
          heap = heap;
          channels = channels;
          saved = r.saved;
        }),
        done tt,
      )
    ]
  ]
