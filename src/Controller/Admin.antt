-- ===== src/Controller/Admin.antt =====
-- The admin's half of crates/tailsvc-controller/src/api.rs, but for the dashboard and the list of
-- discovered containers (Controller.Overview).
pub mod Denied
pub mod Removed
pub mod Steps
use tailroute.Base.{
  ℕ, ◌+◌, Result, ok, err, map_err, to_option, Bool, true, false, not, ◌||◌, ◌&&◌, Option, none,
  some, List, [], ◌∷◌, ◌++◌, map, find, retain, ltb, nat_eq, is_empty, and_then, unwrap_or,
  if◌then◌else◌,
}
use tailroute.Base.Keys.{◌==◌, list_key, nat_key, pair_key}
use tailroute.Base.Text.{Text, text, join, contains_text}
use tailroute.Base.Table.{Table, get, insert}
use tailroute.Base.Order.{text_lt, sort_by}
use tailroute.Common.Errors.{Error, display}
use tailroute.Common.Hostname.{NormalizedHostname, normalize_hostname}
use tailroute.Common.Backend.{Url, authority, parse_backend_url}
use tailroute.Common.Auth.{Argon2}
use tailroute.Common.Api.{
  AdminAgentView, AdminRouteView, CreateEnrollmentTokenResponse, EnableServiceRequest,
  EnableServiceResponse,
}
use tailroute.Storage.{Rfc3339, StorageError, EnabledServiceRecord}
use tailroute.Storage.Tokens
use tailroute.Storage.Agents
use tailroute.Storage.Agents.{AgentRecord, list_agents}
use tailroute.Storage.Routes
use tailroute.Storage.Leases.{AdminRoute, list_routes_admin}
use tailroute.Storage.Enabled.{
  upsert_enabled_service, set_enabled_service, audit, list_enabled_for_agent,
}
use tailroute.Controller.Config.{ControllerConfig, hostname_allowed}
use tailroute.Controller.Sessions
use tailroute.Controller.State.{
  AppState, ApiError, unauthorized, forbidden, storage_error, Handler, ◌>>=◌, ◌>>◌, answer, fail,
  expect_ok, run, Headers, bearer_token, to_str, check_admin, verify_password, agent_ttl,
  refresh_dns,
}
use tailroute.Controller.Agents.{Json}

pub record LoginRequest : Type 0 where
  pub username : Text
  pub password : Text

pub record LoginResponse : Type 0 where
  pub token : Text
  pub token_type : Text
  pub expires_in_seconds : ℕ

-- `token` is what the random generator yields.
pub admin_login : LoginRequest → Text → ℕ → Handler LoginResponse
admin_login body token instant st =
    if not (verify_password body.username body.password st) then (err unauthorized, st) else (
      ok (record {
        token = token;
        token_type = text "Bearer";
        expires_in_seconds = st.cfg.api.session_ttl_seconds;
      }),
      record st { sessions = (Sessions.create token instant st.sessions).1 },
    )

pub admin_logout : Headers → Handler Unit
admin_logout headers st = elim (bearer_token headers) [
  | none ↦ (ok tt, st)
  | some token ↦ (ok tt, record st { sessions = Sessions.revoke token st.sessions })
]

-- The result of the audit is not looked at.
abbrev note_audit : Rfc3339 → Text → Text → ℕ → Handler Unit
note_audit chrono event detail now st =
    (ok tt, record st { storage = (audit chrono event detail now st.storage).1 })

abbrev pub ip_by_agent : List AgentRecord → Table Text Text → Table Text Text
ip_by_agent [] table = table
ip_by_agent (a ∷ agents) table = ip_by_agent agents (insert a.agent_id a.tailscale_ipv4 table)

module _ (chrono : Rfc3339) where
  unfoldable pub agent_view : ℕ → ℕ → AgentRecord → AdminAgentView
  agent_view ttl now a = record {
    agent_id = a.agent_id;
    display_name = a.display_name;
    tailscale_ipv4 = a.tailscale_ipv4;
    docker_engine_id = a.docker_engine_id;
    created_at = a.created_at;
    last_seen_at = a.last_seen_at;
    status = elim a.last_seen_at [
      | none ↦ text "stale"
      | some ls ↦ if ltb now (ls + ttl) then text "healthy" else text "stale"
    ];
  }

  pub admin_agents : Headers → ℕ → ℕ → Handler (List AdminAgentView)
  admin_agents headers instant now = do
    check_admin headers instant
    (λ st. (ok (map (agent_view (agent_ttl st) now) (list_agents chrono now st.storage)), st))

  unfoldable route_view : Table Text Text → AdminRoute → AdminRouteView
  route_view ips r = record {
    hostname = r.hostname;
    agent_id = r.agent_id;
    tailscale_ipv4 = unwrap_or (get r.agent_id ips) [];
    backend = r.backend;
    container_id = r.container_id;
    container_name = r.container_name;
    lease_expires_at = r.expires;
  }

  pub admin_routes : Headers → ℕ → ℕ → Handler (List AdminRouteView)
  admin_routes headers instant now = do
    check_admin headers instant
    (λ st. (
      ok (
          map (route_view (ip_by_agent (list_agents chrono now st.storage) []))
            (list_routes_admin chrono (agent_ttl st) now st.storage)),
      st,
    ))

  pub admin_delete_route : Headers → Text → ℕ → ℕ → Handler Unit
  admin_delete_route headers hostname instant now = do
    check_admin headers instant
    run (Routes.delete_route hostname) storage_error
    refresh_dns chrono now

  pub admin_revoke_agent : Headers → Text → ℕ → ℕ → Handler Unit
  admin_revoke_agent headers agent_id instant now = do
    check_admin headers instant
    run (Agents.revoke_agent chrono agent_id now) storage_error
    refresh_dns chrono now

  -- `token` and `salt` are what the random generator yields.
  pub admin_create_enrollment_token :
      Argon2 → Headers → Text → Text → ℕ → ℕ → Handler CreateEnrollmentTokenResponse
  admin_create_enrollment_token argon headers token salt instant now = do
    check_admin headers instant
    plain ← run (Tokens.create_enrollment_token chrono argon token salt now) storage_error
    answer (record { token = plain; expires_at = none })

  pub admin_disable_service : Headers → Text → ℕ → ℕ → Handler Unit
  admin_disable_service headers id instant now = do
    check_admin headers instant
    run (set_enabled_service chrono id false now) storage_error
    note_audit chrono (text "service_disable") id now

  module _ (json : Json) (domain_to_ascii : Text → Result Text Text)
      (url_parse : Text → Result Url Text) where
    -- The loop over the requested hostnames.
    unfoldable check_hostnames : ControllerConfig → List Text → Result (List Text) ApiError
    check_hostnames cfg [] = ok []
    check_hostnames cfg (h ∷ hostnames) =
        let rest = check_hostnames cfg hostnames in
        elim (normalize_hostname domain_to_ascii h) [
          | err e ↦ err (forbidden (display e))
          | ok n ↦ elim (hostname_allowed cfg n.as_str) [
            | err msg ↦ err (forbidden msg)
            | ok _ ↦ elim rest [ err e ↦ err e | ok hosts ↦ ok (n.as_str ∷ hosts) ]
          ]
        ]

    -- `random` is what `generate_token(12)` yields; the identifier leaves out `+`, `/` and `=`.
    unfoldable service_id : Text → Text
    service_id random =
        text "en_" ++ retain (λ c. not (nat_eq c b'+' || (nat_eq c b'/' || nat_eq c b'='))) random

    pub admin_enable_service :
        Headers → EnableServiceRequest → Text → ℕ → ℕ → Handler EnableServiceResponse
    admin_enable_service headers body random instant now = do
      check_admin headers instant
      (if is_empty body.hostnames
          then fail (forbidden (text "at least one hostname required"))
          else answer tt)
      hosts ← (λ st. expect_ok (check_hostnames st.cfg body.hostnames) (λ e. e) st)
      backend ← expect_ok (parse_backend_url url_parse body.backend) (λ e. forbidden (display e))
      let backend_url = text "http://" ++ authority backend
      let id = service_id random
      hostnames_json ← expect_ok (json.hostnames_to_string hosts) forbidden
      run
          (upsert_enabled_service chrono id body.agent_id body.identity_key body.container_name
            hostnames_json backend_url now)
          storage_error
      note_audit chrono (text "service_enable")
          (body.identity_key ++ (text " -> " ++ join (text ",") hosts)) now
      all ← run (λ db. (ok (list_enabled_for_agent body.agent_id db), db)) storage_error
      answer (record {
        id =
            unwrap_or
              (and_then (find (λ e. e.identity_key == body.identity_key) all) (λ e. some e.id)) id;
      })

-- What `root` and `ready` answer with.
pub data RootAnswer : Type 0 where
  redirect_to_admin banner : RootAnswer

pub root : Headers → RootAnswer
root headers =
    if contains_text (text "text/html")
      (unwrap_or (and_then (get (text "accept") headers) to_str) [])
    then redirect_to_admin
    else banner

-- `agents` is the answer of the storage's `list_agents`; the error's status is 503.
pub ready : Result (List AgentRecord) StorageError → AppState → Result Text ℕ
ready (err _) st = err 503
ready (ok _) st = if not st.dns_up then err 503 else ok (text "ready")
