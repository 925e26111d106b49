-- ===== src/Controller/Admin/Denied.antt =====
-- Who passes the admin's check of crates/tailsvc-controller/src/api.rs, and what the admin's handlers
-- do for the others.
use tailroute.Base.{
  ℕ, ◌≡◌, refl, ap, ◌∙◌, inl, inr, Result, ok, err, Bool, false, ◌||◌, Option, none, some,
  Bool-cases, Option-cases, List, if◌then◌else◌,
}
use tailroute.Base.Text.{Text, as_bytes}
use tailroute.Common.Api.{EnableServiceRequest, DiscoveredContainerDto}
use tailroute.Common.Auth.{Argon2, constant_time_eq}
use tailroute.Common.Backend.{Url}
use tailroute.Storage.{Rfc3339}
use tailroute.Controller.Sessions.{SessionStore, valid}
use tailroute.Controller.State.{
  AppState, ApiError, continue, unauthorized, bearer_token, Headers, check_admin, check_bearer,
  admin_authorized, verify_password,
}
use tailroute.Controller.Agents.{Json}
use tailroute.Controller.Probe.{ProbeResult}
use tailroute.Controller.Overview.{admin_discovery, admin_dashboard}
use tailroute.Controller.Admin.{
  LoginRequest, admin_login, admin_logout, admin_agents, admin_routes, admin_delete_route,
  admin_revoke_agent, admin_create_enrollment_token, admin_disable_service, admin_enable_service,
}

module _ (headers : Headers) (instant : ℕ) (st : AppState) where
  -- The bearer token is that of a live session, or the admin's password.
  abbrev pub is_admin : Option Text → Bool
  is_admin none = false
  is_admin (some token) =
      (valid token instant st.sessions).0 || constant_time_eq st.admin_password (as_bytes token)

  abbrev pub sessions_after : Option Text → SessionStore
  sessions_after none = st.sessions
  sessions_after (some token) = (valid token instant st.sessions).1

  abbrev pub checked : AppState
  checked = record st { sessions = sessions_after (bearer_token headers) }

  check_bearer-eq :
      (bearer : Option Text)
      → check_bearer bearer instant st ≡ (
        if is_admin bearer then ok tt else err unauthorized,
        record st { sessions = sessions_after bearer },
      )
  unfolding check_bearer admin_authorized
  check_bearer-eq none = refl
  check_bearer-eq (some token) = elim (Bool-cases (valid token instant st.sessions).0) [
    | inl live ↦ rw live refl
    | inr dead ↦ rw dead refl
  ]

  pub check_admin-eq :
      check_admin headers instant st
      ≡ (if is_admin (bearer_token headers) then ok tt else err unauthorized, checked)
  check_admin-eq = check_bearer-eq (bearer_token headers)

  abbrev pub Denied : {A : Type 0} → Result A ApiError × AppState → Type 0
  Denied r = r ≡ (err unauthorized, checked)

  -- A request without a live session's token and without the admin's password is answered as
  -- unauthorized by each of the nine handlers that check for the admin, and changes no more than the
  -- table of sessions.
  pub admin-Denied :
      (chrono : Rfc3339) (argon : Argon2) (json : Json) (idna : Text → Result Text Text)
      (url_parse : Text → Result Url Text) (now : ℕ) (id token salt : Text)
      (body : EnableServiceRequest)
      (services_from_str : Text → Result (List DiscoveredContainerDto) Text)
      (probe : Text → Text → ProbeResult)
      → is_admin (bearer_token headers) ≡ false
      → Denied (admin_agents chrono headers instant now st)
        × Denied (admin_routes chrono headers instant now st)
        × Denied (admin_delete_route chrono headers id instant now st)
        × Denied (admin_revoke_agent chrono headers id instant now st)
        × Denied (admin_create_enrollment_token chrono argon headers token salt instant now st)
        × Denied (admin_disable_service chrono headers id instant now st)
        × Denied (admin_enable_service chrono json idna url_parse headers body token instant now st)
        × Denied (admin_discovery json services_from_str chrono headers instant now st)
        × Denied (admin_dashboard probe chrono headers instant now st)
  unfolding admin_agents admin_routes admin_delete_route admin_revoke_agent
      admin_create_enrollment_token admin_disable_service admin_enable_service admin_discovery
      admin_dashboard
  admin-Denied chrono argon json idna url_parse now id token salt body services_from_str probe h =
      let denied : check_admin headers instant st ≡ (err unauthorized, checked) =
        check_admin-eq ∙ rw h refl in
      (
        ap (continue _) denied,
        ap (continue _) denied,
        ap (continue _) denied,
        ap (continue _) denied,
        ap (continue _) denied,
        ap (continue _) denied,
        ap (continue _) denied,
        ap (continue _) denied,
        ap (continue _) denied,
      )

pub admin_login-sessions :
    (body : LoginRequest) (token : Text) (instant : ℕ) (st : AppState)
    → (admin_login body token instant st).1
      ≡ record st { sessions = (admin_login body token instant st).1.sessions }
unfolding admin_login
admin_login-sessions body token instant st =
    elim (Bool-cases (verify_password body.username body.password st)) [
      | inl good ↦ rw good refl
      | inr bad ↦ rw bad refl
    ]

pub admin_logout-sessions :
    (headers : Headers) (st : AppState)
    → (admin_logout headers st).1 ≡ record st { sessions = (admin_logout headers st).1.sessions }
unfolding admin_logout
admin_logout-sessions headers st = elim (Option-cases (bearer_token headers)) [
  | inl missing ↦ rw (missing, admin_logout) refl
  | inr (token, sent) ↦ rw (sent, admin_logout) refl
]
