-- ===== src/Controller/Agents.antt =====
-- The agents' half of crates/tailsvc-controller/src/api.rs. `serde_json` is a parameter.
pub mod Denied
pub mod Served
pub mod Enrolled
pub mod Steps
use tailroute.Base.{
  ℕ, Result, ok, err, Option, none, some, List, [], ◌∷◌, ◌++◌, map, to_option, unwrap_or,
}
use tailroute.Base.Text.{Text, text}
use tailroute.Common.Api.{
  EnrollRequest, EnrollResponse, HeartbeatRequest, RouteEntry, PutRoutesRequest, PutRoutesResponse,
  DiscoveredContainerDto, DiscoveryReportRequest, DesiredEnabledService, DesiredServicesResponse,
}
use tailroute.Common.Auth.{Argon2}
use tailroute.Storage.{Rfc3339, StorageError, EnabledServiceRecord}
use tailroute.Storage.Tokens.{consume_enrollment_token}
use tailroute.Storage.Agents
use tailroute.Storage.Agents.{verify_agent_token, enroll_agent}
use tailroute.Storage.Routes
use tailroute.Storage.Enabled.{put_discovery_snapshot, list_enabled_for_agent}
use tailroute.Controller.Config.{ControllerConfig, hostname_allowed}
use tailroute.Controller.State.{
  AppState, ApiError, unauthorized, forbidden, storage_error, Handler, ◌>>=◌, ◌>>◌, answer, expect,
  expect_ok, run, Headers, bearer_token, agent_ttl, refresh_dns,
}

-- The JSON texts of the two columns; a value may fail to serialize.
pub record Json : Type 0 where
  pub services_to_string : List DiscoveredContainerDto → Result Text Text
  pub hostnames_to_string : List Text → Result Text Text
  pub hostnames_from_str : Text → Result (List Text) Text

-- The first hostname that the policy refuses ends the request.
unfoldable pub check_policy : ControllerConfig → List RouteEntry → Result Unit ApiError
check_policy cfg [] = ok tt
check_policy cfg (r ∷ routes) =
    let rest = check_policy cfg routes in
    elim (hostname_allowed cfg r.hostname) [ err msg ↦ err (forbidden msg) | ok _ ↦ rest ]

module _ (chrono : Rfc3339) (argon : Argon2) where
  -- `id_part`, `agent_token` and `salt` are what the random generator yields.
  unfoldable pub enroll : Headers → EnrollRequest → Text → Text → Text → ℕ → Handler EnrollResponse
  enroll headers body id_part agent_token salt now = do
    token ← expect (bearer_token headers) unauthorized
    run (consume_enrollment_token chrono argon token now) (λ _. unauthorized)
    (agent_id, agent_token) ←
        run
          (enroll_agent chrono argon id_part agent_token salt body.display_name body.tailscale_ipv4
            body.docker_engine_id now)
          storage_error
    (λ st. (
      ok (record {
        agent_id = agent_id;
        agent_token = agent_token;
        heartbeat_interval_seconds = st.cfg.leases.heartbeat_interval_seconds;
        lease_ttl_seconds = st.cfg.leases.agent_ttl_seconds;
      }),
      st,
    ))

  -- The first step of a request by an agent: its token must verify.
  unfoldable pub verify_bearer : Headers → Text → Handler Unit
  verify_bearer headers agent_id = do
    token ← expect (bearer_token headers) unauthorized
    run (λ db. (verify_agent_token argon agent_id token db, db)) (λ _. unauthorized)

  pub heartbeat : Headers → Text → HeartbeatRequest → ℕ → Handler Unit
  heartbeat headers agent_id body now = do
    verify_bearer headers agent_id
    run (Agents.heartbeat chrono agent_id body.tailscale_ipv4 now) storage_error
    refresh_dns chrono now

  -- The registration itself, and the renewal of the DNS registry.
  unfoldable pub store_routes : Text → PutRoutesRequest → ℕ → Handler PutRoutesResponse
  store_routes agent_id body now = do
    out ← (λ st.
        run (Routes.put_routes chrono agent_id body.routes (agent_ttl st) now) storage_error st)
    refresh_dns chrono now
    answer (record { accepted = out.accepted; conflicts = out.conflicts })

  -- The security policy, then the registration.
  unfoldable pub put_checked : Text → PutRoutesRequest → ℕ → Handler PutRoutesResponse
  put_checked agent_id body now = do
    (λ st. expect_ok (check_policy st.cfg body.routes) (λ e. e) st)
    store_routes agent_id body now

  unfoldable pub put_routes : Headers → Text → PutRoutesRequest → ℕ → Handler PutRoutesResponse
  put_routes headers agent_id body now = do
    verify_bearer headers agent_id
    put_checked agent_id body now

  module _ (json : Json) where
    pub put_discovery : Headers → Text → DiscoveryReportRequest → ℕ → Handler Unit
    put_discovery headers agent_id body now = do
      verify_bearer headers agent_id
      payload ←
          expect_ok (json.services_to_string body.services)
            (λ e. forbidden (text "serialize discovery: " ++ e))
      run (put_discovery_snapshot chrono agent_id payload now) storage_error

    -- Hostnames that cannot be read are none.
    abbrev desired_service : EnabledServiceRecord → DesiredEnabledService
    desired_service r = record {
      id = r.id;
      identity_key = r.identity_key;
      hostnames = unwrap_or (to_option (json.hostnames_from_str r.hostnames_json)) [];
      backend = r.backend;
      container_name = r.container_name;
    }

    pub desired_services : Headers → Text → Handler DesiredServicesResponse
    desired_services headers agent_id = do
      verify_bearer headers agent_id
      rows ← run (λ db. (ok (list_enabled_for_agent agent_id db), db)) storage_error
      answer (record { services = map desired_service rows })
