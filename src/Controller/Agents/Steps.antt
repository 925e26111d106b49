-- ===== src/Controller/Agents/Steps.antt =====
-- The agents' handlers of crates/tailsvc-controller/src/api.rs as sequences of steps of the controller.
use tailroute.Base.{ℕ, ok, map}
use tailroute.Base.Text.{Text}
use tailroute.Common.Api.{EnrollRequest, HeartbeatRequest, PutRoutesRequest, DiscoveryReportRequest}
use tailroute.Common.Auth.{Argon2}
use tailroute.Storage.{Rfc3339}
use tailroute.Storage.Agents
use tailroute.Storage.Agents.{enroll_agent, verify_agent_token}
use tailroute.Storage.Enabled.{put_discovery_snapshot, list_enabled_for_agent}
use tailroute.Storage.Routes
use tailroute.Storage.Tokens.{consume_enrollment_token, unused_tokens}
use tailroute.Storage.Writes.{consume_token, enroll as enroll_write, beat, put, report}
use tailroute.Controller.State.{Headers, agent_ttl, unauthorized, storage_error}
use tailroute.Controller.Agents.{
  Json, enroll, verify_bearer, heartbeat, store_routes, put_checked, put_routes, put_discovery,
  desired_service, desired_services, check_policy,
}
use tailroute.Controller.System.Rules.{
  Runs, bind-Runs, state-Runs, read_only-Runs, expect-Runs, expect_ok-Runs, write-Runs, read-Runs,
  refresh_dns-Runs,
}

module _ {chrono : Rfc3339} {argon : Argon2} where
  verify_bearer-Runs :
      (headers : Headers) (agent_id : Text)
      → Runs chrono argon (verify_bearer chrono argon headers agent_id)
  unfolding verify_bearer
  verify_bearer-Runs headers agent_id =
      bind-Runs (expect-Runs _ unauthorized)
        (λ token. read-Runs (verify_agent_token argon agent_id token) (λ _. unauthorized))

  pub enroll-Runs :
      (headers : Headers) (body : EnrollRequest) (id_part agent_token salt : Text) (now : ℕ)
      → Runs chrono argon (enroll chrono argon headers body id_part agent_token salt now)
  unfolding enroll consume_enrollment_token
  enroll-Runs headers body id_part agent_token salt now =
      bind-Runs (expect-Runs _ unauthorized) (λ token.
        bind-Runs
          (write-Runs (consume_enrollment_token chrono argon token now) (λ _. unauthorized)
            (λ db. consume_token (unused_tokens chrono argon db) token now db))
          (λ _.
            bind-Runs
              (write-Runs
                (enroll_agent chrono argon id_part agent_token salt body.display_name
                  body.tailscale_ipv4 body.docker_engine_id now)
                storage_error
                (λ db.
                  enroll_write id_part agent_token salt body.display_name body.tailscale_ipv4
                    body.docker_engine_id now db))
              (λ _. read_only-Runs (λ st. ok _))))

  pub heartbeat-Runs :
      (headers : Headers) (agent_id : Text) (body : HeartbeatRequest) (now : ℕ)
      → Runs chrono argon (heartbeat chrono argon headers agent_id body now)
  unfolding heartbeat
  heartbeat-Runs headers agent_id body now = bind-Runs (verify_bearer-Runs headers agent_id) (λ _.
      bind-Runs
        (write-Runs (Agents.heartbeat chrono agent_id body.tailscale_ipv4 now) storage_error
          (λ db. beat agent_id body.tailscale_ipv4 now db))
        (λ _. refresh_dns-Runs now))

  pub put_routes-Runs :
      (headers : Headers) (agent_id : Text) (body : PutRoutesRequest) (now : ℕ)
      → Runs chrono argon (put_routes chrono argon headers agent_id body now)
  unfolding put_routes put_checked store_routes
  put_routes-Runs headers agent_id body now = bind-Runs (verify_bearer-Runs headers agent_id) (λ _.
      bind-Runs (state-Runs (λ st. expect_ok-Runs (check_policy st.cfg body.routes) (λ e. e))) (λ _.
        bind-Runs
          (state-Runs (λ st.
            write-Runs (Routes.put_routes chrono agent_id body.routes (agent_ttl st) now)
              storage_error (λ db. put agent_id body.routes (agent_ttl st) now db)))
          (λ _. bind-Runs (refresh_dns-Runs now) (λ _. read_only-Runs (λ st. ok _)))))

  pub put_discovery-Runs :
      (json : Json) (headers : Headers) (agent_id : Text) (body : DiscoveryReportRequest) (now : ℕ)
      → Runs chrono argon (put_discovery chrono argon json headers agent_id body now)
  unfolding put_discovery
  put_discovery-Runs json headers agent_id body now =
      bind-Runs (verify_bearer-Runs headers agent_id) (λ _.
        bind-Runs (expect_ok-Runs (json.services_to_string body.services) _) (λ payload.
          write-Runs (put_discovery_snapshot chrono agent_id payload now) storage_error
            (λ db. report agent_id payload now db)))

  pub desired_services-Runs :
      (json : Json) (headers : Headers) (agent_id : Text)
      → Runs chrono argon (desired_services chrono argon json headers agent_id)
  unfolding desired_services
  desired_services-Runs json headers agent_id =
      bind-Runs (verify_bearer-Runs headers agent_id) (λ _.
        bind-Runs (read-Runs (λ db. ok (list_enabled_for_agent agent_id db)) storage_error) (λ rows.
          read_only-Runs
            (λ st. ok (record { services = map (desired_service chrono argon json) rows }))))
