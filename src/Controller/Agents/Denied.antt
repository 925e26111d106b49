-- ===== src/Controller/Agents/Denied.antt =====
-- What the handlers of crates/tailsvc-controller/src/api.rs do for a request without an agent's token,
-- and for a hostname that the policy refuses.
use tailroute.Base.{ℕ, ◌≡◌, ◌≢◌, refl, ap, inl, inr, ok, err, Result-cases, some, Option-cases}
use tailroute.Base.Text.{Text}
use tailroute.Common.Api.{HeartbeatRequest, PutRoutesRequest, DiscoveryReportRequest}
use tailroute.Common.Auth.{Argon2}
use tailroute.Storage.{Rfc3339}
use tailroute.Storage.Agents.{verify_agent_token}
use tailroute.Controller.State.{AppState, continue, unauthorized, bearer_token, Headers}
use tailroute.Controller.Agents.{
  Json, verify_bearer, heartbeat, put_routes, put_discovery, desired_services,
}

module _ (chrono : Rfc3339) (argon : Argon2) (headers : Headers) (agent_id : Text)
    (st : AppState) where
  -- No bearer token of the request is the agent's.
  abbrev pub Unknown : Type 0
  Unknown =
      (token : Text)
      → bearer_token headers ≡ some token
      → verify_agent_token argon agent_id token st.storage ≢ ok tt

  verify_bearer-Unknown :
      Unknown → verify_bearer chrono argon headers agent_id st ≡ (err unauthorized, st)
  unfolding verify_bearer
  verify_bearer-Unknown unknown = elim (Option-cases (bearer_token headers)) [
    | inl n ↦ rw n refl
    | inr (token, n) ↦ elim (Result-cases (verify_agent_token argon agent_id token st.storage)) [
      | inl (a, good) ↦ elim (unknown token n good) [ ]
      | inr (e, bad) ↦ rw (n, bad) refl
    ]
  ]

  -- A request without a token of the agent is answered as unauthorized by each of the agent's
  -- handlers, and changes nothing.
  pub agent_denied :
      (json : Json) (beat : HeartbeatRequest) (routes : PutRoutesRequest)
      (report : DiscoveryReportRequest) (now : ℕ)
      → Unknown
      → (heartbeat chrono argon headers agent_id beat now st ≡ (err unauthorized, st))
        × (put_routes chrono argon headers agent_id routes now st ≡ (err unauthorized, st))
        × (put_discovery chrono argon json headers agent_id report now st ≡ (err unauthorized, st))
        × (desired_services chrono argon json headers agent_id st ≡ (err unauthorized, st))
  unfolding heartbeat put_routes put_discovery desired_services
  agent_denied json beat routes report now unknown =
      let no = verify_bearer-Unknown unknown in
      (ap (continue _) no, ap (continue _) no, ap (continue _) no, ap (continue _) no)
