-- ===== src/Service/Tests.antt =====
-- A service without TLS, with one balancer of one target.
use kamal_proxy.Base.{ℕ, refl, true, false, [], ◌∷◌, none, some, inl}
use kamal_proxy.Base.Int.{pos}
use kamal_proxy.Base.Assoc.{has, nat_eq}
use kamal_proxy.Paths.{root_path}
use kamal_proxy.ServiceMap.{ServiceOptions}
use kamal_proxy.ServiceMap.Tests.{options_for}
use kamal_proxy.PauseController.{Heap, paused, stopped}
use kamal_proxy.Target.{healthy, new_target, is_draining}
use kamal_proxy.Target.Steps.{IsDone}
use kamal_proxy.LoadBalancer.{LoadBalancer}
use kamal_proxy.Rollout.Tests.{rounded}
use kamal_proxy.Service.{TargetOptions, Body}
use kamal_proxy.Service.Requests.{HttpRequest, expired, Later}
use kamal_proxy.Service.Draining.{Targets, drain_service, drain_service_ends_requests}

abbrev pub plain_options : ServiceOptions
plain_options = record (options_for root_path) { tls_enabled = false }

abbrev pub target_options : TargetOptions
target_options = record {
  health_check_config = record { path = root_path; interval = 1; timeout = 5 };
  response_timeout = 30;
  buffer_requests = false;
  buffer_responses = false;
  max_memory_buffer_size = 0;
  max_request_body_size = 0;
  max_response_body_size = 0;
  forward_headers = false;
}

abbrev pub one_balancer : LoadBalancer
one_balancer = record {
  all = 0 ∷ [];
  writers = 0 ∷ [];
  readers = [];
  writer_affinity_timeout = 0;
  read_targets_accept_websockets = false;
  writer_index = 0;
  reader_index = 0;
  multi_target = false;
  has_readers = false;
  marked_healthy = true;
}

abbrev pub stopped_body : Body ℕ
stopped_body = record {
  target_options = target_options;
  active = some one_balancer;
  rollout = none;
  pause_controller = record {
    state = stopped;
    stop_message = "back soon";
    fail_after = 0;
    pause_channel = none;
  };
  rollout_controller = none;
  cert_manager = none;
  middleware = none;
}

-- The target has request 0 in flight.
abbrev busy : Targets
busy a = record (new_target "web:80" false false) {
  state = healthy;
  inflight = 0 ∷ [];
  next_request = 1;
}

drain_service_ends_requests_example : IsDone (drain_service (λ heap. heap) stopped_body busy 0) 0
unfolding is_draining has
drain_service_ends_requests_example =
    drain_service_ends_requests (λ heap. heap) stopped_body busy 0 0 (inl refl) refl refl

abbrev channels : Heap
channels = record { made = 0; is_closed = λ c. false }

abbrev get_request : HttpRequest
get_request = record {
  host = [];
  path = root_path;
  request_uri = root_path;
  tls = false;
  rollout_cookie = none;
  request = record {
    method = "POST";
    upgrade = [];
    connection = [];
    write_cookie = none;
    target_header = [];
  };
}

-- The service was paused when the request came, and the pause lasts too long.
abbrev paused_body : Body ℕ
paused_body = record stopped_body {
  pause_controller = record {
    state = paused;
    stop_message = "";
    fail_after = 30;
    pause_channel = some 0;
  };
}

abbrev too_late : Later ℕ
too_late = record {
  wait_end = expired;
  now = pos 30;
  channels = channels;
  body = paused_body;
  targets = busy;
}
