-- ===== src/UdpDeployment/Tests.antt =====
-- Deployments with a clock of seconds.
use kamal_proxy.Base.{ℕ, ◌≡◌, Bool, true, false, [], ◌∷◌, some, arith, leb}
use kamal_proxy.Base.Int.{pos}
use kamal_proxy.Base.Assoc.{string_eq}
use kamal_proxy.SessionManager.{SessionManager, SessionDrainPolicy}
use kamal_proxy.UdpDeployment.{
  UdpDeploymentConfig, new_udp_deployment_manager, deploy_udp_service, drain_with_timeout,
}
use kamal_proxy.UdpDeployment.Ends.{IsPaced, Drained, drain_with_timeout-ends}
use kamal_proxy.UdpDeployment.Targets.{made, deployed, AllNew, Reach-NothingOld}

abbrev seconds : ℕ → ℕ
seconds k = k

seconds-IsPaced : IsPaced 1 seconds
seconds-IsPaced k = omega arith

-- The one target is healthy from second 3 on.
abbrev healthy : ℕ → ℕ → Bool
healthy k a = leb 3 k

abbrev manager : SessionManager
manager = record {
  sessions = [];
  config = record {
    idle_timeout = pos 300;
    stickiness_enabled = true;
    stickiness_strategy = "5-tuple";
    max_sessions = 10000;
    persistence_enabled = false;
  };
  store_calls = [];
}

drain_with_timeout-ends_example :
    (sm : SessionManager) × (drain_with_timeout 122 seconds 120 ("a:5000" ∷ []) (λ k. manager) 0
      ≡ some sm)
    × Drained ("a:5000" ∷ []) sm
drain_with_timeout-ends_example =
    drain_with_timeout-ends seconds 120 1 seconds-IsPaced ("a:5000" ∷ []) (λ k. manager) 121 0
      (omega arith)

abbrev config : UdpDeploymentConfig
config = record {
  drain_timeout = 30;
  health_check_timeout = 5;
  force_kill_timeout = 120;
  session_check_interval = 5;
}

abbrev policy : SessionDrainPolicy
policy = record {
  strategy = "graceful";
  grace_period = pos 30;
  max_wait_time = pos 0;
  notify_clients = false;
}

Reach-NothingOld_example :
    AllNew
      (deploy_udp_service "game" (1 ∷ []) policy (
        deploy_udp_service "game"
          (0 ∷ [])
          policy
          (new_udp_deployment_manager config config))).services
Reach-NothingOld_example =
    Reach-NothingOld
      (deployed "game" (1 ∷ []) policy (deployed "game" (0 ∷ []) policy (made config config)))
