-- ===== src/Agent/Start.antt =====
-- crates/tailsvc-agent/src/agent_state.rs, and `AgentRun::new` of src/reconcile.rs: a first run enrolls
-- and keeps its credentials, a later one uses those. Files, Docker and the controller are arguments.
use tailroute.Base.{Bool, ℕ, Result, ok, ◌>>=◌, ◌>>◌, ok_or, Option, none, some, List, unwrap_or}
use tailroute.Base.Text.{Text, text}
use tailroute.Common.Api.{EnrollRequest, EnrollResponse}
use tailroute.Proxy.Routes.{SharedRouteStore}
use tailroute.Agent.Client.{ControllerClient, new}
use tailroute.Agent.Reconcile.{AgentRun, controller_backoff_base}
use tailroute.Agent.StaticRoutes.{StaticRouteConfig}

pub record PersistedAgentState : Type 0 where
  pub agent_id : Text
  pub agent_token : Text
  pub controller_url : Text

-- The fields of the configuration that a start reads.
pub record StartConfig : Type 0 where
  pub controller_url : Text
  pub enrollment_token : Option Text
  pub static_routes : List StaticRouteConfig
  pub tcp_probe_on_register : Bool

-- What the outside yields: the state directory, Docker, the file of the state, the controller's
-- answer to an enrollment, and the names of the host and of its engine.
pub record Outside : Type 0 where
  pub create_dir : Result Unit Text
  pub docker : Result Unit Text
  pub load : Result (Option PersistedAgentState) Text
  pub enroll : Text → Text → EnrollRequest → Result EnrollResponse Text
  pub save : PersistedAgentState → Result Unit Text
  pub hostname : Option Text
  pub docker_engine_id : Option Text

-- The identifier, the token, and the heartbeat's interval in seconds.
abbrev pub Credentials : Type 0
Credentials = Text × Text × ℕ

unfoldable pub first_run : Outside → StartConfig → Text → Result Credentials Text
first_run out cfg tailscale_ip = do
  enroll_token ← ok_or cfg.enrollment_token (text "TAILSVC_ENROLLMENT_TOKEN required for first run")
  resp ← out.enroll cfg.controller_url enroll_token (record {
    display_name = unwrap_or out.hostname (text "docker-host");
    tailscale_ipv4 = tailscale_ip;
    docker_engine_id = unwrap_or out.docker_engine_id (text "unknown");
  })
  out.save (record {
    agent_id = resp.agent_id;
    agent_token = resp.agent_token;
    controller_url = cfg.controller_url;
  })
  ok (resp.agent_id, resp.agent_token, resp.heartbeat_interval_seconds)

-- A change of the controller's URL only writes to the log.
unfoldable pub credentials :
    Outside → StartConfig → Text → Option PersistedAgentState → Result Credentials Text
unfolding first_run
credentials out cfg tailscale_ip none = first_run out cfg tailscale_ip
credentials out cfg tailscale_ip (some p) = ok (p.agent_id, p.agent_token, 20)

-- The agent, its client, and the heartbeat's interval in seconds.
unfoldable pub new_run :
    Outside → StartConfig → SharedRouteStore → Text → Result (AgentRun × ControllerClient × ℕ) Text
unfolding credentials
new_run out cfg routes tailscale_ip = do
  out.create_dir
  out.docker
  persisted ← out.load
  (agent_id, token, heartbeat_interval) ← credentials out cfg tailscale_ip persisted
  ok (
    record {
      static_routes = cfg.static_routes;
      routes = routes;
      tailscale_ip = tailscale_ip;
      controller_backoff = controller_backoff_base;
      tcp_probe_on_register = cfg.tcp_probe_on_register;
    },
    new cfg.controller_url agent_id token,
    heartbeat_interval,
  )
