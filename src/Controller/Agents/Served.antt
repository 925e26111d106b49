-- ===== src/Controller/Agents/Served.antt =====
-- What DNS answers after an agent has put its routes.
use tailroute.Base.{
  ℕ, ◌≡◌, refl, sym, ap, ◌∙◌, inl, inr, ◌⊎◌, Result, ok, err, Result-cases, true, Option, none,
  some, Option-cases, List, [], and_then,
}
use tailroute.Base.Keys.{member, list_key, nat_key, list_eq_iff}
use tailroute.Base.Text.{Text}
use tailroute.Base.Text.Ipv4.{parse_ipv4}
use tailroute.Common.Api.{PutRoutesRequest, PutRoutesResponse}
use tailroute.Common.Auth.{Argon2}
use tailroute.Storage.{Rfc3339, StorageError, AgentRow, RouteRow, Database, agent_row, route_row}
use tailroute.Storage.Agents.{AgentRecord, verify_agent_token, get_agent}
use tailroute.Storage.Routes
use tailroute.Storage.Routes.{PutRoutesOutcome}
use tailroute.Storage.Routes.Rows.{IsKeyed, is_owned}
use tailroute.Storage.Routes.Put.{put_routes-IsKeyed, put_routes-current}
use tailroute.Storage.Routes.Ownership.{put_routes_owned}
use tailroute.Storage.Leases.Served.{agent_address}
use tailroute.Dns.Registry.{lookup_a, key_of}
use tailroute.Controller.State.{
  AppState, ApiError, storage_error, continue, unauthorized, bearer_token, Headers, refresh_dns,
  agent_ttl,
}
use tailroute.Controller.State.Refresh.{refresh_dns_serves, served_ip}
use tailroute.Controller.Agents.{verify_bearer, store_routes, put_checked, put_routes, check_policy}

module _ (chrono : Rfc3339) (argon : Argon2) (headers : Headers) (agent_id : Text)
    (body : PutRoutesRequest) (now : ℕ) (st : AppState) where
  verify_bearer-cases :
      (verify_bearer chrono argon headers agent_id st ≡ (ok tt, st))
      ⊎ (verify_bearer chrono argon headers agent_id st ≡ (err unauthorized, st))
  unfolding verify_bearer
  verify_bearer-cases = elim (Option-cases (bearer_token headers)) [
    | inl n ↦ inr (rw n refl)
    | inr (token, n) ↦ elim (Result-cases (verify_agent_token argon agent_id token st.storage)) [
      | inl (a, good) ↦ inl (rw (n, good) refl)
      | inr (e, bad) ↦ inr (rw (n, bad) refl)
    ]
  ]

  abbrev stored : Result PutRoutesOutcome StorageError × Database
  stored = Routes.put_routes chrono agent_id body.routes (agent_ttl st) now st.storage

  abbrev after : AppState
  after = record st { storage = stored.1 }

  abbrev accepted_of : Result PutRoutesResponse ApiError → List Text
  accepted_of (ok out) = out.accepted
  accepted_of (err e) = []

  abbrev outcome : Result PutRoutesResponse ApiError × AppState
  outcome = put_routes chrono argon headers agent_id body now st

  put_routes-verified :
      (out : PutRoutesResponse)
      → outcome.0 ≡ ok out
      → (outcome ≡ store_routes chrono argon agent_id body now st)
        × (check_policy st.cfg body.routes ≡ ok tt)
  unfolding put_routes put_checked
  put_routes-verified out e = elim verify_bearer-cases [
    | inr bad ↦
        let refused : outcome.0 ≡ err unauthorized = ap (λ p. (continue go p).0) bad in
        cc (sym e ∙ refused)
    | inl good ↦
        let same : outcome ≡ put_checked chrono argon agent_id body now st =
          ap (continue go) good in
        elim (Result-cases (check_policy st.cfg body.routes)) [
          | inr (x, denied) ↦
              let refused : outcome.0 ≡ err x = ap (λ p. p.0) same ∙ rw denied refl in
              cc (sym e ∙ refused)
          | inl (u, allowed) ↦ (same ∙ rw allowed refl, allowed)
        ]
  ]
    where
      go : Unit {0} → AppState → Result PutRoutesResponse ApiError × AppState
      go _ = put_checked chrono argon agent_id body now

  -- A request that is answered has passed the policy, and its parts have run.
  pub put_routes-ok :
      (out : PutRoutesResponse)
      → outcome.0 ≡ ok out
      → (o : PutRoutesOutcome) × (stored.0 ≡ ok o)
        × (o.accepted ≡ out.accepted)
        × (outcome.1 ≡ (refresh_dns chrono now after).1)
        × (check_policy st.cfg body.routes ≡ ok tt)
  unfolding store_routes refresh_dns
  put_routes-ok out e =
      let (same, allowed) = put_routes-verified out e in
      elim (Result-cases stored.0) [
        | inr (x, failed) ↦
            let refused : outcome.0 ≡ err (storage_error x) = ap (λ p. p.0) same ∙ rw failed refl in
            cc (sym e ∙ refused)
        | inl (o, done) ↦
            let answered : outcome ≡ (
              ok (record { accepted = o.accepted; conflicts = o.conflicts }),
              (refresh_dns chrono now after).1,
            ) =
              same ∙ rw done refl in
            (
              o,
              done,
              ap accepted_of (sym (ap (λ p. p.0) answered) ∙ e),
              ap (λ p. p.1) answered,
              allowed,
            )
      ]

  stored_agents :
      (o : PutRoutesOutcome)
      → stored.0 ≡ ok o
      → (a : AgentRecord) × (get_agent chrono agent_id now st.storage ≡ ok a)
        × (stored.1.agents ≡ st.storage.agents)
  unfolding Routes.put_routes
  stored_agents o e = elim (Result-cases (get_agent chrono agent_id now st.storage)) [
    | inr (x, bad) ↦
        let refused : stored.0 ≡ err x = rw (bad, Routes.put_routes) refl in cc (sym e ∙ refused)
    | inl (a, good) ↦ (
      a,
      good,
      ap (λ p. p.1.agents)
          (put_routes-current chrono agent_id body.routes (agent_ttl st) now st.storage a good),
    )
  ]

  -- When an agent's routes are answered, a DNS query for each accepted hostname yields that
  -- agent's address, as long as the agent was seen within the lease's time and its address is
  -- readable. The condition: no hostname stands in two rows of the table of routes, and the agent
  -- has a row.
  pub put_routes_resolves :
      (out : PutRoutesResponse) (a : AgentRow)
      → IsKeyed st.storage.routes
      → agent_row agent_id st.storage.agents ≡ some a
      → (put_routes chrono argon headers agent_id body now st).0 ≡ ok out
      → (name : Text) → member (key_of name) out.accepted ≡ true
      → lookup_a (put_routes chrono argon headers agent_id body now st).1.registry name
        ≡ and_then (agent_address chrono (agent_ttl st) now (some a)) parse_ipv4
  put_routes_resolves out a k row e name accepted =
      let (o, done, same, state, allowed) = put_routes-ok out e in
      let (rec, current, agents) = stored_agents o done in
      let keyed = put_routes-IsKeyed chrono agent_id body.routes (agent_ttl st) now st.storage k in
      let owned =
        put_routes_owned chrono agent_id body.routes (agent_ttl st) now st.storage rec k current o
          done (key_of name) in
      ap (λ s. lookup_a s.registry name) state
      ∙ refresh_dns_serves chrono now after name keyed
      ∙ rw agents (
          owned_ip (route_row (key_of name) stored.1.routes)
            (owned ∙ ap (member (key_of name)) same ∙ accepted))
    where
      owned_ip :
          (r : Option RouteRow)
          → is_owned agent_id r ≡ true
          → served_ip chrono (agent_ttl st) now st.storage.agents r
            ≡ and_then (agent_address chrono (agent_ttl st) now (some a)) parse_ipv4
      owned_ip none h = cc
      owned_ip (some r) h = rw ((list_eq_iff r.agent_id agent_id).0 h, row) refl
