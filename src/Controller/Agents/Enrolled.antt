-- ===== src/Controller/Agents/Enrolled.antt =====
-- What a successful enrollment leaves for the agent's later requests.
use tailroute.Base.{
  ℕ, ◌≡◌, refl, sym, ap, ◌∙◌, inl, inr, ok, Result, Result-cases, some, Option-cases,
}
use tailroute.Base.Text.{Text}
use tailroute.Common.Api.{EnrollRequest, EnrollResponse}
use tailroute.Common.Auth.{Argon2, IsArgon2}
use tailroute.Storage.{Rfc3339, StorageError, Database}
use tailroute.Storage.Tokens.{consume_enrollment_token}
use tailroute.Storage.Agents.{enroll_agent, verify_agent_token}
use tailroute.Storage.Agents.Access.{enrolled_verifies}
use tailroute.Controller.State.{AppState, ApiError, Headers, bearer_token}
use tailroute.Controller.Agents.{enroll, verify_bearer}

module _ (chrono : Rfc3339) (argon : Argon2) where
  pub verify_bearer-ok :
      (headers : Headers) (agent_id token : Text) (st : AppState)
      → bearer_token headers ≡ some token
      → verify_agent_token argon agent_id token st.storage ≡ ok tt
      → verify_bearer chrono argon headers agent_id st ≡ (ok tt, st)
  unfolding verify_bearer
  verify_bearer-ok headers agent_id token st b v = rw (b, v) refl

  module _ (headers : Headers) (body : EnrollRequest) (id_part agent_token salt : Text) (now : ℕ)
      (st : AppState) where
    abbrev answer : Result EnrollResponse ApiError × AppState
    answer = enroll chrono argon headers body id_part agent_token salt now st

    abbrev stored : Database → Result (Text × Text) StorageError × Database
    stored db =
        enroll_agent chrono argon id_part agent_token salt body.display_name body.tailscale_ipv4
          body.docker_engine_id now db

    -- The credentials of an answered enrollment verify in the state that it leaves.
    pub answered-verifies :
        (resp : EnrollResponse)
        → IsArgon2 argon
        → answer.0 ≡ ok resp
        → verify_agent_token argon resp.agent_id resp.agent_token answer.1.storage ≡ ok tt
    unfolding enroll
    answered-verifies resp laws e = elim (Option-cases (bearer_token headers)) [
      | inl n ↦ let bad = rw (n, enroll) at e in absurd (cc)
      | inr (token, n) ↦
          elim (Result-cases (consume_enrollment_token chrono argon token now st.storage).0) [
            | inr (x, used) ↦ let bad = rw (n, used, enroll) at e in absurd (cc)
            | inl (u, fresh) ↦
                elim (Result-cases
                  (stored (consume_enrollment_token chrono argon token now st.storage).1).0) [
                    | inr (x, failed) ↦ let bad = rw (n, fresh, failed, enroll) at e in absurd (cc)
                    | inl (creds, made) ↦
                        finished creds
                          (consume_enrollment_token chrono argon token now st.storage).1 made
                          (rw (n, fresh, made, enroll) refl)
                  ]
          ]
    ]
      where
        reply : Text × Text → EnrollResponse
        reply creds = record {
          agent_id = creds.0;
          agent_token = creds.1;
          heartbeat_interval_seconds = st.cfg.leases.heartbeat_interval_seconds;
          lease_ttl_seconds = st.cfg.leases.agent_ttl_seconds;
        }

        finished :
            (creds : Text × Text) (db : Database)
            → (stored db).0 ≡ ok creds
            → answer ≡ (ok (reply creds), record st { storage = (stored db).1 })
            → verify_agent_token argon resp.agent_id resp.agent_token answer.1.storage ≡ ok tt
        finished creds db made same =
            let replied : ok (reply creds) ≡ ok resp = sym (ap (λ r. r.0) same) ∙ e in
            let is_resp : reply creds ≡ resp = cc in
            let kept : answer.1.storage ≡ (stored db).1 = ap (λ r. r.1.storage) same in
            rw (kept, ← is_resp)
              (enrolled_verifies chrono argon id_part agent_token salt body.display_name
                body.tailscale_ipv4 body.docker_engine_id now db creds.0 creds.1 laws made)
