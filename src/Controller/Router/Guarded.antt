-- ===== src/Controller/Router/Guarded.antt =====
-- What the routes of crates/tailsvc-controller/src/api.rs let through without a credential.
use tailroute.Base.{
  ℕ, ◌≡◌, refl, inl, inr, arith, Result, err, Bool, false, none, some, Option-cases, List, [], ◌∷◌,
  find, retain, length,
}
use tailroute.Base.Text.{Text}
use tailroute.Common.Auth.{verify_token}
use tailroute.Common.Api.{
  EnrollRequest, HeartbeatRequest, PutRoutesRequest, DiscoveryReportRequest, EnableServiceRequest,
}
use tailroute.Storage.{TokenRow}
use tailroute.Storage.Tokens.{unused_tokens, consume_enrollment_token, consume_fetched}
use tailroute.Storage.Tokens.SingleUse.{usable}
use tailroute.Controller.Sessions.{SessionStore}
use tailroute.Controller.State.{AppState, ApiError, unauthorized, bearer_token, Headers}
use tailroute.Controller.Agents
use tailroute.Controller.Agents.{verify_bearer, enroll}
use tailroute.Controller.Agents.Denied.{Unknown, agent_denied}
use tailroute.Controller.Admin
use tailroute.Controller.Admin.Denied.{
  is_admin, admin-Denied, admin_login-sessions, admin_logout-sessions,
}
use tailroute.Controller.Overview
use tailroute.Controller.Router.{Request, Libraries, router}

-- Nothing but the table of sessions differs.
abbrev pub SameButSessions : AppState → AppState → Type 0
SameButSessions st t = t ≡ record st { sessions = t.sessions }

no_row :
    (p : TokenRow → Bool) (rows : List TokenRow) → length (retain p rows) ≡ 0 → find p rows ≡ none
no_row p [] e = refl
no_row p (r ∷ rows) e = ground (arith, no_row p rows)

module _ (lib : Libraries) where
  open lib use {chrono, argon, json}

  -- The request brings no credential: no unused enrollment token, no token of the agent that it
  -- names, or no live session's token nor the admin's password. The pages, the login and the logout
  -- ask for none.
  abbrev pub Uncredited : Request → AppState → Type 0
  Uncredited Request.get_page st = Unit
  Uncredited (Request.login body token instant) st = Unit
  Uncredited (Request.logout headers) st = Unit
  Uncredited (Request.enroll headers body id_part agent_token salt now) st =
      (token : Text) → bearer_token headers ≡ some token → usable chrono argon token st.storage ≡ 0
  Uncredited (Request.heartbeat headers agent_id body now) st =
      Unknown chrono argon headers agent_id st
  Uncredited (Request.put_routes headers agent_id body now) st =
      Unknown chrono argon headers agent_id st
  Uncredited (Request.put_discovery headers agent_id body now) st =
      Unknown chrono argon headers agent_id st
  Uncredited (Request.desired_services headers agent_id) st =
      Unknown chrono argon headers agent_id st
  Uncredited (Request.discovery headers instant now) st =
      is_admin headers instant st (bearer_token headers) ≡ false
  Uncredited (Request.enable_service headers body random instant now) st =
      is_admin headers instant st (bearer_token headers) ≡ false
  Uncredited (Request.disable_service headers id instant now) st =
      is_admin headers instant st (bearer_token headers) ≡ false
  Uncredited (Request.list_agents headers instant now) st =
      is_admin headers instant st (bearer_token headers) ≡ false
  Uncredited (Request.list_routes headers instant now) st =
      is_admin headers instant st (bearer_token headers) ≡ false
  Uncredited (Request.dashboard headers instant now) st =
      is_admin headers instant st (bearer_token headers) ≡ false
  Uncredited (Request.delete_route headers hostname instant now) st =
      is_admin headers instant st (bearer_token headers) ≡ false
  Uncredited (Request.create_token headers token salt instant now) st =
      is_admin headers instant st (bearer_token headers) ≡ false
  Uncredited (Request.revoke_agent headers agent_id instant now) st =
      is_admin headers instant st (bearer_token headers) ≡ false

  kept :
      {B : Type 0} (st : AppState) (store : SessionStore) (r : Result B ApiError × AppState)
      → r ≡ (err unauthorized, record st { sessions = store })
      → SameButSessions st r.1
  kept st store r e = rw e refl

  admin_kept :
      (headers : Headers) (instant now : ℕ) (id token salt : Text) (body : EnableServiceRequest)
      (st : AppState)
      → is_admin headers instant st (bearer_token headers) ≡ false
      → SameButSessions st (Admin.admin_agents chrono headers instant now st).1
        × SameButSessions st (Admin.admin_routes chrono headers instant now st).1
        × SameButSessions st (Admin.admin_delete_route chrono headers id instant now st).1
        × SameButSessions st (Admin.admin_revoke_agent chrono headers id instant now st).1
        × SameButSessions st
            (Admin.admin_create_enrollment_token chrono argon headers token salt instant now st).1
        × SameButSessions st (Admin.admin_disable_service chrono headers id instant now st).1
        × SameButSessions st
            (Admin.admin_enable_service chrono json lib.domain_to_ascii lib.url_parse headers body
              token instant now st).1
        × SameButSessions st
            (Overview.admin_discovery json lib.services_from_str chrono headers instant now st).1
        × SameButSessions st (Overview.admin_dashboard lib.probe chrono headers instant now st).1
  admin_kept headers instant now id token salt body st h =
      let (a, b, c, d, e, f, g, i, j) =
        admin-Denied headers instant st chrono argon json lib.domain_to_ascii lib.url_parse now id
          token salt body lib.services_from_str lib.probe h in
      (
        kept st _ _ a,
        kept st _ _ b,
        kept st _ _ c,
        kept st _ _ d,
        kept st _ _ e,
        kept st _ _ f,
        kept st _ _ g,
        kept st _ _ i,
        kept st _ _ j,
      )

  agent_kept :
      (headers : Headers) (agent_id : Text) (beat : HeartbeatRequest) (routes : PutRoutesRequest)
      (report : DiscoveryReportRequest) (now : ℕ) (st : AppState)
      → Unknown chrono argon headers agent_id st
      → SameButSessions st (Agents.heartbeat chrono argon headers agent_id beat now st).1
        × SameButSessions st (Agents.put_routes chrono argon headers agent_id routes now st).1
        × SameButSessions st
            (Agents.put_discovery chrono argon json headers agent_id report now st).1
        × SameButSessions st (Agents.desired_services chrono argon json headers agent_id st).1
  agent_kept headers agent_id beat routes report now st unknown =
      let (a, b, c, d) =
        agent_denied chrono argon headers agent_id st json beat routes report now unknown in
      (kept st _ _ a, kept st _ _ b, kept st _ _ c, kept st _ _ d)

  enroll_kept :
      (headers : Headers) (body : EnrollRequest) (id_part agent_token salt : Text) (now : ℕ)
      (st : AppState)
      → ((token : Text)
          → bearer_token headers ≡ some token
          → usable chrono argon token st.storage ≡ 0)
      → SameButSessions st (enroll chrono argon headers body id_part agent_token salt now st).1
  unfolding enroll consume_enrollment_token
  enroll_kept headers body id_part agent_token salt now st none_usable =
      elim (Option-cases (bearer_token headers)) [
        | inl missing ↦ rw missing refl
        | inr (token, sent) ↦
            let none_left =
              no_row (λ t. verify_token argon t.token_hash token)
                (unused_tokens chrono argon st.storage) (none_usable token sent) in
            rw (sent, none_left, consume_fetched) refl
      ]

  -- What stands in for a body that a handler does not read.
  abbrev no_body : EnableServiceRequest
  no_body = record {
    agent_id = [];
    identity_key = [];
    container_name = none;
    hostnames = [];
    backend = [];
  }

  abbrev no_beat : HeartbeatRequest
  no_beat = record { tailscale_ipv4 = []; routes = [] }

  abbrev no_routes : PutRoutesRequest
  no_routes = record { routes = [] }

  abbrev no_report : DiscoveryReportRequest
  no_report = record { services = [] }

  -- A request to any route of the API that brings none of the credentials which the route asks for
  -- changes nothing but the table of sessions: not the database, nor the DNS registry.
  pub router-Uncredited :
      (r : Request) (st : AppState) → Uncredited r st → SameButSessions st (router lib r st)
  unfolding router
  router-Uncredited Request.get_page st h = refl
  router-Uncredited (Request.login body token instant) st h =
      admin_login-sessions body token instant st
  router-Uncredited (Request.logout headers) st h = admin_logout-sessions headers st
  router-Uncredited (Request.enroll headers body id_part agent_token salt now) st h =
      enroll_kept headers body id_part agent_token salt now st h
  router-Uncredited (Request.heartbeat headers agent_id body now) st h =
      (agent_kept headers agent_id body no_routes no_report now st h).0
  router-Uncredited (Request.put_routes headers agent_id body now) st h =
      (agent_kept headers agent_id no_beat body no_report now st h).1
  router-Uncredited (Request.put_discovery headers agent_id body now) st h =
      (agent_kept headers agent_id no_beat no_routes body now st h).2
  router-Uncredited (Request.desired_services headers agent_id) st h =
      (agent_kept headers agent_id no_beat no_routes no_report 0 st h).3
  router-Uncredited (Request.list_agents headers instant now) st h =
      (admin_kept headers instant now [] [] [] no_body st h).0
  router-Uncredited (Request.list_routes headers instant now) st h =
      (admin_kept headers instant now [] [] [] no_body st h).1
  router-Uncredited (Request.delete_route headers hostname instant now) st h =
      (admin_kept headers instant now hostname [] [] no_body st h).2
  router-Uncredited (Request.revoke_agent headers agent_id instant now) st h =
      (admin_kept headers instant now agent_id [] [] no_body st h).3
  router-Uncredited (Request.create_token headers token salt instant now) st h =
      (admin_kept headers instant now [] token salt no_body st h).4
  router-Uncredited (Request.disable_service headers id instant now) st h =
      (admin_kept headers instant now id [] [] no_body st h).5
  router-Uncredited (Request.enable_service headers body random instant now) st h =
      (admin_kept headers instant now [] random [] body st h).6
  router-Uncredited (Request.discovery headers instant now) st h =
      (admin_kept headers instant now [] [] [] no_body st h).7
  router-Uncredited (Request.dashboard headers instant now) st h =
      (admin_kept headers instant now [] [] [] no_body st h).8
