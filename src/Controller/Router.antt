-- ===== src/Controller/Router.antt =====
-- The routes of crates/tailsvc-controller/src/api.rs and the tasks of src/main.rs, as events: what
-- each does to the shared state when it runs as a whole. A request carries what the clocks and the
-- random generator yield for it.
pub mod Guarded
use tailroute.Base.{ℕ, Result, Bool, List, [], ◌∷◌}
use tailroute.Base.Text.{Text}
use tailroute.Common.Api.{
  EnrollRequest, HeartbeatRequest, PutRoutesRequest, DiscoveredContainerDto, DiscoveryReportRequest,
  EnableServiceRequest,
}
use tailroute.Common.Auth.{Argon2}
use tailroute.Common.Backend.{Url}
use tailroute.Storage.{Rfc3339}
use tailroute.Dns.Registry.{replace}
use tailroute.Storage.Leases.{active_dns_routes, purge_expired_agents}
use tailroute.Controller.Config.{ControllerConfig}
use tailroute.Controller.State.{AppState, Headers, insert_routes, agent_ttl, restarted}
use tailroute.Controller.Agents
use tailroute.Controller.Agents.{Json}
use tailroute.Controller.Admin
use tailroute.Controller.Admin.{LoginRequest}
use tailroute.Controller.Overview
use tailroute.Controller.Probe.{ProbeResult}

pub data Request : Type 0 where
  -- `/health`, `/ready`, `/`, `/admin` and `/admin/`, which leave the state as it is.
  get_page : Request
  login : LoginRequest → (token : Text) (instant : ℕ) → Request
  logout : Headers → Request
  enroll : Headers → EnrollRequest → (id_part agent_token salt : Text) (now : ℕ) → Request
  heartbeat : Headers → (agent_id : Text) → HeartbeatRequest → (now : ℕ) → Request
  put_routes : Headers → (agent_id : Text) → PutRoutesRequest → (now : ℕ) → Request
  put_discovery : Headers → (agent_id : Text) → DiscoveryReportRequest → (now : ℕ) → Request
  desired_services : Headers → (agent_id : Text) → Request
  discovery : Headers → (instant now : ℕ) → Request
  enable_service : Headers → EnableServiceRequest → (random : Text) (instant now : ℕ) → Request
  disable_service : Headers → (id : Text) (instant now : ℕ) → Request
  list_agents : Headers → (instant now : ℕ) → Request
  list_routes : Headers → (instant now : ℕ) → Request
  dashboard : Headers → (instant now : ℕ) → Request
  delete_route : Headers → (hostname : Text) (instant now : ℕ) → Request
  create_token : Headers → (token salt : Text) (instant now : ℕ) → Request
  revoke_agent : Headers → (agent_id : Text) (instant now : ℕ) → Request

-- A request, a round of the cleanup task, a change of the DNS server's flag, or a restart.
pub data Event : Type 0 where
  request : Request → Event
  tick : (now later : ℕ) → Event
  dns : Bool → Event
  restart : ControllerConfig → (admin_password : List ℕ) → Event

-- What the handlers use of other code.
pub record Libraries : Type 0 where
  pub chrono : Rfc3339
  pub argon : Argon2
  pub json : Json
  pub services_from_str : Text → Result (List DiscoveredContainerDto) Text
  pub domain_to_ascii : Text → Result Text Text
  pub url_parse : Text → Result Url Text
  pub probe : Text → Text → ProbeResult

-- `refresh_dns_registry` of src/lib.rs.
unfoldable pub refresh_dns_registry : Rfc3339 → ℕ → AppState → AppState
unfolding insert_routes replace
refresh_dns_registry chrono now st = record st {
  registry =
      replace st.registry
        (insert_routes (active_dns_routes chrono (agent_ttl st) now st.storage) []);
}

-- One round of the cleanup task, with the readings of the clock for its two calls; an error of
-- either is only logged.
unfoldable pub cleanup : Rfc3339 → ℕ → ℕ → AppState → AppState
cleanup chrono now later st =
    let purged : AppState = record st {
      storage = (purge_expired_agents chrono (agent_ttl st) now st.storage).1;
    } in
    refresh_dns_registry chrono later purged

module _ (lib : Libraries) where
  open lib use {chrono, argon, json}

  -- The state after a request.
  unfoldable pub router : Request → AppState → AppState
  router get_page st = st
  router (login body token instant) st = (Admin.admin_login body token instant st).1
  router (logout headers) st = (Admin.admin_logout headers st).1
  router (enroll headers body id_part agent_token salt now) st =
      (Agents.enroll chrono argon headers body id_part agent_token salt now st).1
  router (heartbeat headers agent_id body now) st =
      (Agents.heartbeat chrono argon headers agent_id body now st).1
  router (put_routes headers agent_id body now) st =
      (Agents.put_routes chrono argon headers agent_id body now st).1
  router (put_discovery headers agent_id body now) st =
      (Agents.put_discovery chrono argon json headers agent_id body now st).1
  router (desired_services headers agent_id) st =
      (Agents.desired_services chrono argon json headers agent_id st).1
  router (discovery headers instant now) st =
      (Overview.admin_discovery json lib.services_from_str chrono headers instant now st).1
  router (enable_service headers body random instant now) st =
      (Admin.admin_enable_service chrono json lib.domain_to_ascii lib.url_parse headers body random
        instant now st).1
  router (disable_service headers id instant now) st =
      (Admin.admin_disable_service chrono headers id instant now st).1
  router (list_agents headers instant now) st = (Admin.admin_agents chrono headers instant now st).1
  router (list_routes headers instant now) st = (Admin.admin_routes chrono headers instant now st).1
  router (dashboard headers instant now) st =
      (Overview.admin_dashboard lib.probe chrono headers instant now st).1
  router (delete_route headers hostname instant now) st =
      (Admin.admin_delete_route chrono headers hostname instant now st).1
  router (create_token headers token salt instant now) st =
      (Admin.admin_create_enrollment_token chrono argon headers token salt instant now st).1
  router (revoke_agent headers agent_id instant now) st =
      (Admin.admin_revoke_agent chrono headers agent_id instant now st).1

  unfoldable pub react : Event → AppState → AppState
  unfolding router
  react (request r) st = router r st
  react (tick now later) st = cleanup chrono now later st
  react (dns up) st = record st { dns_up = up }
  react (restart cfg admin_password) st = restarted st.storage cfg admin_password

  unfoldable pub replay : List Event → AppState → AppState
  unfolding react
  replay [] st = st
  replay (e ∷ es) st = replay es (react e st)
