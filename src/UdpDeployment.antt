-- ===== src/UdpDeployment.antt =====
-- internal/server/udp_deployment.go: deployments of UDP services without downtime. A deployment
-- runs in phases; each wait is a loop over the times at which it wakes.
pub mod Ends
pub mod Targets
mod Tests
use kamal_proxy.Base.{
  ℕ, zero, suc, ◌+◌, String, Bool, true, false, ◌&&◌, not, List, [], ◌∷◌, Option, none, some, ltb,
  ◌==◌, if◌then◌else◌, length,
}
use kamal_proxy.Base.Assoc.{Assoc, get, put, string_eq}
use kamal_proxy.SessionManager.{SessionManager, SessionDrainPolicy}
use kamal_proxy.SessionManager.Expiry.{
  drain_target, get_sessions_for_target, on_target, terminate_immediately,
}
use kamal_proxy.PortAllocator.{PortAllocator}
use kamal_proxy.PortAllocator.Release.{deallocate_port, mark_draining}
use kamal_proxy.UdpTarget.{UdpTargets, stop_targets}

pub record UdpDeploymentConfig : Type 0 where
  pub drain_timeout : ℕ
  pub health_check_timeout : ℕ
  pub force_kill_timeout : ℕ
  pub session_check_interval : ℕ

pub data DeploymentState : Type 0 where
  idle health_checking routing draining completed failed : DeploymentState

pub state_name : DeploymentState → String
state_name idle = "idle"
state_name health_checking = "health_checking"
state_name routing = "routing"
state_name draining = "draining"
state_name completed = "completed"
state_name failed = "failed"

pub record UdpServiceDeployment : Type 0 where
  pub service_name : String
  pub service_type : String
  pub current_targets : List ℕ
  pub new_targets : List ℕ
  pub state : DeploymentState
  pub current_allocations : List ℕ
  pub new_allocations : List ℕ
  pub drain_policy : SessionDrainPolicy

pub record UdpDeploymentManager : Type 0 where
  pub services : Assoc String UdpServiceDeployment
  pub config : UdpDeploymentConfig

-- What a deployment shares with the rest: the sessions, the ports and the targets.
pub record Shared : Type 0 where
  pub sessions : SessionManager
  pub ports : PortAllocator
  pub targets : UdpTargets

pub default : ℕ → ℕ → ℕ
default d zero = d
default d (suc n) = suc n

pub new_udp_deployment_manager : UdpDeploymentConfig → UdpDeploymentConfig → UdpDeploymentManager
unfolding default
new_udp_deployment_manager defaults c = record {
  services = [];
  config = record {
    drain_timeout = default defaults.drain_timeout c.drain_timeout;
    health_check_timeout = default defaults.health_check_timeout c.health_check_timeout;
    force_kill_timeout = default defaults.force_kill_timeout c.force_kill_timeout;
    session_check_interval = default defaults.session_check_interval c.session_check_interval;
  };
}

pub existing_targets : Option UdpServiceDeployment → List ℕ
existing_targets none = []
existing_targets (some d) = d.current_targets

pub existing_allocations : Option UdpServiceDeployment → List ℕ
existing_allocations none = []
existing_allocations (some d) = d.current_allocations

-- The deployment is recorded, and then runs on its own.
pub deploy_udp_service :
    String → List ℕ → SessionDrainPolicy → UdpDeploymentManager → UdpDeploymentManager
unfolding existing_targets
deploy_udp_service name new_targets policy dm = record dm {
  services =
      put name
        (record {
          service_name = name;
          service_type = "udp";
          current_targets = existing_targets (get name dm.services);
          new_targets = new_targets;
          state = health_checking;
          current_allocations = [];
          new_allocations = [];
          drain_policy = policy;
        })
        dm.services;
}

pub deploy_webrtc_service :
    String → List ℕ → List ℕ → SessionDrainPolicy → UdpDeploymentManager → UdpDeploymentManager
unfolding existing_targets existing_allocations
deploy_webrtc_service name new_targets new_allocations policy dm = record dm {
  services =
      put name
        (record {
          service_name = name;
          service_type = "webrtc";
          current_targets = existing_targets (get name dm.services);
          new_targets = new_targets;
          state = health_checking;
          current_allocations = existing_allocations (get name dm.services);
          new_allocations = new_allocations;
          drain_policy = policy;
        })
        dm.services;
}

pub all_healthy : (ℕ → Bool) → List ℕ → Bool
all_healthy healthy [] = true
all_healthy healthy (a ∷ ts) = healthy a && all_healthy healthy ts

-- healthCheckTargets from its round k on, which reads the clock and the targets once. `none` is a
-- loop that has not ended.
pub health_check_targets : ℕ → (ℕ → ℕ) → ℕ → (ℕ → ℕ → Bool) → List ℕ → ℕ → Option Bool
unfolding all_healthy
health_check_targets zero clock deadline healthy ts k = none
health_check_targets (suc fuel) clock deadline healthy ts k =
    let rest = health_check_targets fuel clock deadline healthy ts (suc k) in
    if ltb (clock k) deadline
    then (if all_healthy (healthy k) ts then some true else rest)
    else some false

-- The URLs of the current targets.
pub urls : UdpTargets → List ℕ → List String
urls w [] = []
urls w (a ∷ ts) = (w.target a).url ∷ urls w ts

pub drain_each : List String → SessionManager → SessionManager
drain_each [] sm = sm
drain_each (url ∷ us) sm = drain_each us (drain_target url sm)

pub mark_each : List ℕ → PortAllocator → PortAllocator
mark_each [] pa = pa
mark_each (a ∷ as') pa = mark_each as' (mark_draining a pa)

pub count_active_sessions : List String → SessionManager → ℕ
count_active_sessions [] sm = 0
count_active_sessions (url ∷ us) sm =
    length (get_sessions_for_target url sm) + count_active_sessions us sm

pub force_kill_sessions : List String → SessionManager → SessionManager
force_kill_sessions [] sm = sm
force_kill_sessions (url ∷ us) sm = force_kill_sessions us (on_target url terminate_immediately sm)

-- drainWithTimeout from its tick k on, at which the sessions are `sessions k`.
pub drain_with_timeout :
    ℕ → (ℕ → ℕ) → ℕ → List String → (ℕ → SessionManager) → ℕ → Option SessionManager
unfolding count_active_sessions force_kill_sessions
drain_with_timeout zero clock deadline us sessions k = none
drain_with_timeout (suc fuel) clock deadline us sessions k =
    let rest = drain_with_timeout fuel clock deadline us sessions (suc k) in
    if count_active_sessions us (sessions k) == 0
    then some (sessions k)
    else if ltb deadline (clock k)
    then some (force_kill_sessions us (sessions k))
    else rest

-- DeallocatePort for the RTP port of each allocation, whose errors are ignored.
pub deallocate_each : List ℕ → PortAllocator → PortAllocator
deallocate_each [] pa = pa
deallocate_each (a ∷ as') pa = deallocate_each as' (deallocate_port (pa.cell a).rtp_port pa).0

pub is_empty : List ℕ → Bool
is_empty [] = true
is_empty (a ∷ ts) = false

-- The phases of executeUDPDeployment after the health check, and after the drain.
pub complete_udp : UdpServiceDeployment → Shared → UdpServiceDeployment × Shared
complete_udp d w = (
  record d { state = completed },
  record w { targets = stop_targets d.current_targets w.targets },
)

pub health_checked_udp : Bool → UdpServiceDeployment → Shared → UdpServiceDeployment × Shared
unfolding complete_udp drain_each urls is_empty
health_checked_udp false d w = (record d { state = failed }, w)
health_checked_udp true d w =
    let w' = record w { sessions = drain_each (urls w.targets d.current_targets) w.sessions } in
    if is_empty d.current_targets then complete_udp d w' else (record d { state = draining }, w')

-- The same of executeWebRTCDeployment.
pub complete_webrtc : UdpServiceDeployment → Shared → UdpServiceDeployment × Shared
unfolding deallocate_each
complete_webrtc d w = (
  record d { state = completed },
  record w {
    targets = stop_targets d.current_targets w.targets;
    ports = deallocate_each d.current_allocations w.ports;
  },
)

pub health_checked_webrtc : Bool → UdpServiceDeployment → Shared → UdpServiceDeployment × Shared
unfolding complete_webrtc drain_each urls is_empty mark_each deallocate_each
health_checked_webrtc false d w =
    (record d { state = failed }, record w { ports = deallocate_each d.new_allocations w.ports })
health_checked_webrtc true d w =
    let w' = record w {
      sessions = drain_each (urls w.targets d.current_targets) w.sessions;
      ports = mark_each d.current_allocations w.ports;
    } in
    if is_empty d.current_targets && is_empty d.current_allocations
    then complete_webrtc d w'
    else (record d { state = draining }, w')

pub is_draining : DeploymentState → Bool
is_draining draining = true
is_draining _ = false

-- Stop of the manager: the deployments that drain are ended.
pub stop_each :
    UdpTargets
    → Assoc String UdpServiceDeployment
    → SessionManager
    → Assoc String UdpServiceDeployment × SessionManager
unfolding is_draining force_kill_sessions urls
stop_each w [] sm = ([], sm)
stop_each w ((name, d) ∷ ds) sm =
    let killed = force_kill_sessions (urls w d.current_targets) sm in
    let draining_now = is_draining d.state in
    let (ds', sm') = stop_each w ds (if draining_now then killed else sm) in
    ((name, if draining_now then record d { state = completed } else d) ∷ ds', sm')

pub stop : UdpDeploymentManager → Shared → UdpDeploymentManager × Shared
unfolding stop_each
stop dm w =
    let (ds, sm) = stop_each w.targets dm.services w.sessions in
    (record dm { services = ds }, record w { sessions = sm })

pub get_deployment_status : String → UdpDeploymentManager → Option UdpServiceDeployment
get_deployment_status name dm = get name dm.services

pub is_over : DeploymentState → Bool
is_over completed = true
is_over failed = true
is_over _ = false

pub list_active : Assoc String UdpServiceDeployment → Assoc String UdpServiceDeployment
unfolding is_over
list_active [] = []
list_active ((name, d) ∷ ds) =
    let rest = list_active ds in if is_over d.state then rest else (name, d) ∷ rest

pub list_active_deployments : UdpDeploymentManager → Assoc String UdpServiceDeployment
unfolding list_active
list_active_deployments dm = list_active dm.services
