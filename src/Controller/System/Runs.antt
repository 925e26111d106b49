-- ===== src/Controller/System/Runs.antt =====
-- Requests and tasks that run as a whole are sequences of the controller's steps.
use tailroute.Base.{ℕ, List, [], ◌∷◌}
use tailroute.Storage.Writes.{purge}
use tailroute.Controller.State.{AppState, refresh_dns, Headers, agent_ttl}
use tailroute.Controller.Router.{
  Request, Event, Libraries, cleanup, refresh_dns_registry, router, react, replay,
}
use tailroute.Controller.Overview.{listed, dashboard, admin_discovery, admin_dashboard}
use tailroute.Controller.Agents.Steps.{
  enroll-Runs, heartbeat-Runs, put_routes-Runs, put_discovery-Runs, desired_services-Runs,
}
use tailroute.Controller.Admin.Steps.{
  admin_login-Runs, admin_logout-Runs, admin_agents-Runs, admin_routes-Runs,
  admin_delete_route-Runs, admin_revoke_agent-Runs, admin_create_enrollment_token-Runs,
  admin_disable_service-Runs, admin_enable_service-Runs,
}
use tailroute.Controller.System
use tailroute.Controller.System.{write, Reach, here, next}
use tailroute.Controller.System.Rules.{
  Reach-trans, Runs, bind-Runs, read_only-Runs, check_admin-Runs, refresh_dns-Runs,
}

module _ (lib : Libraries) where
  open lib use {chrono, argon, json}

  admin_discovery-Runs :
      (headers : Headers) (instant now : ℕ)
      → Runs chrono argon (admin_discovery json lib.services_from_str chrono headers instant now)
  unfolding admin_discovery
  admin_discovery-Runs headers instant now =
      bind-Runs (check_admin-Runs headers instant)
        (λ _. read_only-Runs (listed json lib.services_from_str chrono now))

  admin_dashboard-Runs :
      (headers : Headers) (instant now : ℕ)
      → Runs chrono argon (admin_dashboard lib.probe chrono headers instant now)
  unfolding admin_dashboard
  admin_dashboard-Runs headers instant now =
      bind-Runs (check_admin-Runs headers instant)
        (λ _. read_only-Runs (dashboard lib.probe chrono now))

  router-Reach : (r : Request) (st : AppState) → Reach chrono argon st (router lib r st)
  unfolding router
  router-Reach Request.get_page st = here
  router-Reach (Request.login body token instant) st =
      (admin_login-Runs body token instant).steps st
  router-Reach (Request.logout headers) st = (admin_logout-Runs headers).steps st
  router-Reach (Request.enroll headers body id_part agent_token salt now) st =
      (enroll-Runs headers body id_part agent_token salt now).steps st
  router-Reach (Request.heartbeat headers agent_id body now) st =
      (heartbeat-Runs headers agent_id body now).steps st
  router-Reach (Request.put_routes headers agent_id body now) st =
      (put_routes-Runs headers agent_id body now).steps st
  router-Reach (Request.put_discovery headers agent_id body now) st =
      (put_discovery-Runs json headers agent_id body now).steps st
  router-Reach (Request.desired_services headers agent_id) st =
      (desired_services-Runs json headers agent_id).steps st
  router-Reach (Request.discovery headers instant now) st =
      (admin_discovery-Runs headers instant now).steps st
  router-Reach (Request.enable_service headers body random instant now) st =
      (admin_enable_service-Runs json lib.domain_to_ascii lib.url_parse headers body random instant
          now).steps
        st
  router-Reach (Request.disable_service headers id instant now) st =
      (admin_disable_service-Runs headers id instant now).steps st
  router-Reach (Request.list_agents headers instant now) st =
      (admin_agents-Runs headers instant now).steps st
  router-Reach (Request.list_routes headers instant now) st =
      (admin_routes-Runs headers instant now).steps st
  router-Reach (Request.dashboard headers instant now) st =
      (admin_dashboard-Runs headers instant now).steps st
  router-Reach (Request.delete_route headers hostname instant now) st =
      (admin_delete_route-Runs headers hostname instant now).steps st
  router-Reach (Request.create_token headers token salt instant now) st =
      (admin_create_enrollment_token-Runs headers token salt instant now).steps st
  router-Reach (Request.revoke_agent headers agent_id instant now) st =
      (admin_revoke_agent-Runs headers agent_id instant now).steps st

  cleanup-Reach :
      (now later : ℕ) (st : AppState) → Reach chrono argon st (cleanup chrono now later st)
  unfolding cleanup refresh_dns_registry refresh_dns
  cleanup-Reach now later st =
      Reach-trans (next here (write st (purge (agent_ttl st) now st.storage)))
        ((refresh_dns-Runs later).steps _)

  react-Reach : (e : Event) (st : AppState) → Reach chrono argon st (react lib e st)
  unfolding react
  react-Reach (Event.request r) st = router-Reach r st
  react-Reach (Event.tick now later) st = cleanup-Reach now later st
  react-Reach (Event.dns up) st = next here (System.dns st up)
  react-Reach (Event.restart cfg admin_password) st =
      next here (System.restart st cfg admin_password)

  -- Every list of requests, rounds of the cleanup task, changes of the DNS server's flag and
  -- restarts, each run as a whole, is a sequence of the controller's steps.
  replay-Reach : (es : List Event) (st : AppState) → Reach chrono argon st (replay lib es st)
  unfolding replay
  replay-Reach [] st = here
  replay-Reach (e ∷ es) st = Reach-trans (react-Reach e st) (replay-Reach es (react lib e st))
