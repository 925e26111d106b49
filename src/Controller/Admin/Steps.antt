-- ===== src/Controller/Admin/Steps.antt =====
-- The admin's handlers of crates/tailsvc-controller/src/api.rs as sequences of steps of the controller.
use tailroute.Base.{
  ℕ, inl, inr, Result, ok, Bool, true, false, none, some, [], ◌++◌, map, find, is_empty, and_then,
  unwrap_or, Bool-cases, Option-cases, if◌then◌else◌,
}
use tailroute.Base.Keys.{◌==◌, list_key, nat_key}
use tailroute.Base.Text.{Text, text, join}
use tailroute.Common.Api.{EnableServiceRequest}
use tailroute.Common.Auth.{Argon2}
use tailroute.Common.Backend.{Url, authority, parse_backend_url}
use tailroute.Common.Errors.{display}
use tailroute.Storage.{Rfc3339}
use tailroute.Storage.Agents
use tailroute.Storage.Agents.{list_agents}
use tailroute.Storage.Leases.{list_routes_admin}
use tailroute.Storage.Routes
use tailroute.Storage.Tokens
use tailroute.Storage.Enabled.{upsert_enabled_service, set_enabled_service, list_enabled_for_agent}
use tailroute.Storage.Writes.{create_token, revoke, delete, enable, switch, note}
use tailroute.Controller.State.{
  ApiError, forbidden, storage_error, fail, answer, Headers, agent_ttl, bearer_token,
  verify_password,
}
use tailroute.Controller.Agents.{Json}
use tailroute.Controller.Admin.{
  LoginRequest, admin_login, admin_logout, admin_agents, admin_routes, admin_delete_route,
  admin_revoke_agent, admin_create_enrollment_token, admin_disable_service, admin_enable_service,
  note_audit, check_hostnames, service_id, agent_view, route_view, ip_by_agent,
}
use tailroute.Controller.System.{login, logout, write, session, here, next}
use tailroute.Controller.System.Rules.{
  Runs, bind-Runs, state-Runs, read_only-Runs, expect_ok-Runs, write-Runs, read-Runs,
  refresh_dns-Runs, check_admin-Runs,
}

module _ {chrono : Rfc3339} {argon : Argon2} where
  pub admin_login-Runs :
      (body : LoginRequest) (token : Text) (instant : ℕ)
      → Runs chrono argon (admin_login body token instant)
  unfolding admin_login
  admin_login-Runs body token instant = record {
    steps = λ st. elim (Bool-cases (verify_password body.username body.password st)) [
      | inl good ↦ rw (good, admin_login) (next here (session st (login token instant st.sessions)))
      | inr bad ↦ rw (bad, admin_login) here
    ];
  }

  pub admin_logout-Runs : (headers : Headers) → Runs chrono argon (admin_logout headers)
  unfolding admin_logout
  admin_logout-Runs headers = record {
    steps = λ st. elim (Option-cases (bearer_token headers)) [
      | inl n ↦ rw (n, admin_logout) here
      | inr (token, n) ↦ rw (n, admin_logout) (next here (session st (logout token st.sessions)))
    ];
  }

  pub admin_agents-Runs :
      (headers : Headers) (instant now : ℕ)
      → Runs chrono argon (admin_agents chrono headers instant now)
  unfolding admin_agents
  admin_agents-Runs headers instant now = bind-Runs (check_admin-Runs headers instant) (λ _.
      read_only-Runs
        (λ st. ok (map (agent_view chrono (agent_ttl st) now) (list_agents chrono now st.storage))))

  pub admin_routes-Runs :
      (headers : Headers) (instant now : ℕ)
      → Runs chrono argon (admin_routes chrono headers instant now)
  unfolding admin_routes
  admin_routes-Runs headers instant now = bind-Runs (check_admin-Runs headers instant) (λ _.
      read_only-Runs (λ st. ok (
        map (route_view chrono (ip_by_agent (list_agents chrono now st.storage) []))
          (list_routes_admin chrono (agent_ttl st) now st.storage))))

  pub admin_delete_route-Runs :
      (headers : Headers) (hostname : Text) (instant now : ℕ)
      → Runs chrono argon (admin_delete_route chrono headers hostname instant now)
  unfolding admin_delete_route
  admin_delete_route-Runs headers hostname instant now =
      bind-Runs (check_admin-Runs headers instant) (λ _.
        bind-Runs
          (write-Runs (Routes.delete_route hostname) storage_error (λ db. delete hostname db))
          (λ _. refresh_dns-Runs now))

  pub admin_revoke_agent-Runs :
      (headers : Headers) (agent_id : Text) (instant now : ℕ)
      → Runs chrono argon (admin_revoke_agent chrono headers agent_id instant now)
  unfolding admin_revoke_agent
  admin_revoke_agent-Runs headers agent_id instant now =
      bind-Runs (check_admin-Runs headers instant) (λ _.
        bind-Runs
          (write-Runs (Agents.revoke_agent chrono agent_id now) storage_error
            (λ db. revoke agent_id now db))
          (λ _. refresh_dns-Runs now))

  pub admin_create_enrollment_token-Runs :
      (headers : Headers) (token salt : Text) (instant now : ℕ)
      → Runs chrono argon
          (admin_create_enrollment_token chrono argon headers token salt instant now)
  unfolding admin_create_enrollment_token
  admin_create_enrollment_token-Runs headers token salt instant now =
      bind-Runs (check_admin-Runs headers instant) (λ _.
        bind-Runs
          (write-Runs (Tokens.create_enrollment_token chrono argon token salt now) storage_error
            (λ db. create_token token salt now db))
          (λ plain. read_only-Runs (λ st. ok (record { token = plain; expires_at = none }))))

  note_audit-Runs :
      (event detail : Text) (now : ℕ) → Runs chrono argon (note_audit chrono event detail now)
  note_audit-Runs event detail now = record {
    steps = λ st. next here (write st (note event detail now st.storage));
  }

  pub admin_disable_service-Runs :
      (headers : Headers) (id : Text) (instant now : ℕ)
      → Runs chrono argon (admin_disable_service chrono headers id instant now)
  unfolding admin_disable_service
  admin_disable_service-Runs headers id instant now =
      bind-Runs (check_admin-Runs headers instant) (λ _.
        bind-Runs
          (write-Runs (set_enabled_service chrono id false now) storage_error
            (λ db. switch id false now db))
          (λ _. note_audit-Runs (text "service_disable") id now))

  guarded-Runs :
      (b : Bool) (e : ApiError) → Runs chrono argon {A = Unit {0}} (if b then fail e else answer tt)
  guarded-Runs true e = record { steps = λ st. here }
  guarded-Runs false e = record { steps = λ st. here }

  pub admin_enable_service-Runs :
      (json : Json) (idna : Text → Result Text Text) (url_parse : Text → Result Url Text)
      (headers : Headers) (body : EnableServiceRequest) (random : Text) (instant now : ℕ)
      → Runs chrono argon
          (admin_enable_service chrono json idna url_parse headers body random instant now)
  unfolding admin_enable_service
  admin_enable_service-Runs json idna url_parse headers body random instant now =
      bind-Runs (check_admin-Runs headers instant) (λ _.
        bind-Runs
          (guarded-Runs (is_empty body.hostnames)
            (forbidden (text "at least one hostname required")))
          (λ _.
            bind-Runs
              (state-Runs (λ st.
                expect_ok-Runs (check_hostnames chrono json idna url_parse st.cfg body.hostnames)
                  (λ e. e)))
              (λ hosts.
                bind-Runs
                  (expect_ok-Runs (parse_backend_url url_parse body.backend)
                    (λ e. forbidden (display e)))
                  (λ backend.
                    bind-Runs (expect_ok-Runs (json.hostnames_to_string hosts) forbidden) (λ names.
                      bind-Runs
                        (write-Runs
                          (upsert_enabled_service chrono
                            (service_id chrono json idna url_parse random) body.agent_id
                            body.identity_key body.container_name names
                            (text "http://" ++ authority backend) now)
                          storage_error
                          (λ db.
                            enable _ body.agent_id body.identity_key body.container_name names _ now
                              db))
                        (λ _.
                          bind-Runs
                            (note_audit-Runs (text "service_enable")
                              (body.identity_key ++ (text " -> " ++ join (text ",") hosts)) now)
                            (λ _.
                              bind-Runs
                                (read-Runs (λ db. ok (list_enabled_for_agent body.agent_id db))
                                  storage_error)
                                (λ all. read_only-Runs (λ st. ok (record {
                                  id =
                                      unwrap_or
                                        (and_then
                                          (find (λ e. e.identity_key == body.identity_key) all)
                                          (λ e. some e.id))
                                        (service_id chrono json idna url_parse random);
                                }))))))))))
