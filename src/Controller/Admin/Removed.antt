-- ===== src/Controller/Admin/Removed.antt =====
-- What DNS answers after the admin has deleted a route or revoked an agent.
use tailroute.Base.{
  ℕ, ◌≡◌, refl, ap, ◌∙◌, inl, inr, arith, Result, ok, Bool, true, false, not, Option, none, some,
  Bool-cases, map, if◌then◌else◌,
}
use mathlib.Core.Option
use tailroute.Base.Keys.{◌==◌, list_key, nat_key}
use tailroute.Base.Text.{Text, to_ascii_lowercase}
use tailroute.Storage.{Rfc3339, AgentRow, RouteRow, agent_row, route_row}
use tailroute.Storage.Agents.{revoke_agent}
use tailroute.Storage.Agents.Rows.{agent_row-map, agent_row-agent_id}
use tailroute.Storage.Routes.{delete_route}
use tailroute.Storage.Routes.Rows.{
  IsKeyed, is_owned, keep_if, retain-IsKeyed, route_row-retain, route_row-hostname,
}
use tailroute.Dns.Registry.{lookup_a, key_of}
use tailroute.Controller.State.{
  AppState, ApiError, continue, bearer_token, Headers, check_admin, agent_ttl, refresh_dns,
}
use tailroute.Controller.State.Refresh.{refresh_dns_serves, served_ip}
use tailroute.Controller.Admin.{admin_delete_route, admin_revoke_agent}
use tailroute.Controller.Admin.Denied.{is_admin, checked, check_admin-eq}

abbrev nothing : Option ℕ
nothing = none

none_left : (b : Bool) → nothing ≡ (if b then none else none)
none_left b = ground arith

module _ (chrono : Rfc3339) (headers : Headers) (instant now : ℕ) (st : AppState) where
  -- What the registry answers for a name by the tables of the state.
  abbrev pub served : Text → Option ℕ
  served name =
      served_ip chrono (agent_ttl st) now st.storage.agents
        (route_row (key_of name) st.storage.routes)

  abbrev deleted : Text → Result Unit ApiError × AppState
  deleted hostname = admin_delete_route chrono headers hostname instant now st

  -- An admin's deletion of a route ends the answers for its hostname and leaves the others to the
  -- table as it was. The condition: no hostname stands in two rows of the table of routes.
  pub delete_route_removes :
      (hostname : Text)
      → IsKeyed st.storage.routes
      → is_admin headers instant st (bearer_token headers) ≡ true
      → ((admin_delete_route chrono headers hostname instant now st).0 ≡ ok tt)
        × ((name : Text)
            → lookup_a (admin_delete_route chrono headers hostname instant now st).1.registry name
              ≡ (if key_of name == to_ascii_lowercase hostname then none else served name))
  unfolding admin_delete_route delete_route refresh_dns
  delete_route_removes hostname keyed admin =
      let passed : check_admin headers instant st ≡ (ok tt, checked headers instant st) =
        check_admin-eq headers instant st ∙ rw admin refl in
      let left : AppState = record (checked headers instant st) {
        storage = (delete_route hostname st.storage).1;
      } in
      let outcome : deleted hostname ≡ refresh_dns chrono now left = ap (continue _) passed in
      (
        ap (λ r. r.0) outcome,
        λ name.
            ap (λ r. lookup_a r.1.registry name) outcome
            ∙ refresh_dns_serves chrono now left name (retain-IsKeyed _ st.storage.routes keyed)
            ∙ rw
                (route_row-retain (λ r. not (r.hostname == to_ascii_lowercase hostname))
                  st.storage.routes (key_of name) keyed)
                (kept name (to_ascii_lowercase hostname) (route_row (key_of name) st.storage.routes)
                  refl),
      )
    where
      kept :
          (name host : Text) (r : Option RouteRow)
          → route_row (key_of name) st.storage.routes ≡ r
          → served_ip chrono
              (agent_ttl st)
              now
              st.storage.agents
              (keep_if (λ r. not (r.hostname == host)) r)
            ≡ (if key_of name == host
                then none
                else served_ip chrono (agent_ttl st) now st.storage.agents r)
      kept name host none e = none_left (key_of name == host)
      kept name host (some r) e =
          rw (route_row-hostname st.storage.routes (key_of name) r e) (ground arith)

  abbrev revoked : Text → Result Unit ApiError × AppState
  revoked agent_id = admin_revoke_agent chrono headers agent_id instant now st

  -- An admin's revocation of an agent ends the answers for the hostnames that the agent owned and
  -- leaves the others to the tables as they were. The condition: no hostname stands in two rows of
  -- the table of routes.
  pub revoke_agent_removes :
      (agent_id : Text)
      → IsKeyed st.storage.routes
      → is_admin headers instant st (bearer_token headers) ≡ true
      → ((admin_revoke_agent chrono headers agent_id instant now st).0 ≡ ok tt)
        × ((name : Text)
            → lookup_a (admin_revoke_agent chrono headers agent_id instant now st).1.registry name
              ≡ (if is_owned agent_id (route_row (key_of name) st.storage.routes)
                  then none
                  else served name))
  unfolding admin_revoke_agent revoke_agent refresh_dns
  revoke_agent_removes agent_id keyed admin =
      let passed : check_admin headers instant st ≡ (ok tt, checked headers instant st) =
        check_admin-eq headers instant st ∙ rw admin refl in
      let left : AppState = record (checked headers instant st) {
        storage = (revoke_agent chrono agent_id now st.storage).1;
      } in
      let outcome : revoked agent_id ≡ refresh_dns chrono now left = ap (continue _) passed in
      (
        ap (λ r. r.0) outcome,
        λ name.
            ap (λ r. lookup_a r.1.registry name) outcome
            ∙ refresh_dns_serves chrono now left name (retain-IsKeyed _ st.storage.routes keyed)
            ∙ rw
                (route_row-retain (λ r. not (r.agent_id == agent_id)) st.storage.routes
                  (key_of name) keyed)
                (others (route_row (key_of name) st.storage.routes)),
      )
    where
      mark : AgentRow → AgentRow
      mark a =
          if a.agent_id == agent_id
          then record a { revoked_at = some (chrono.to_rfc3339 now) }
          else a

      same : (a : AgentRow) → (mark a).agent_id ≡ a.agent_id
      same a = ground arith

      unmarked :
          (o : Option AgentRow) (j : Text)
          → agent_row j st.storage.agents ≡ o
          → (j == agent_id) ≡ false
          → Option.map mark o ≡ o
      unmarked none j e other = refl
      unmarked (some a) j e other = rw (agent_row-agent_id st.storage.agents j a e, other) refl

      others :
          (r : Option RouteRow)
          → served_ip chrono
              (agent_ttl st)
              now
              (map mark st.storage.agents)
              (keep_if (λ r. not (r.agent_id == agent_id)) r)
            ≡ (if is_owned agent_id r
                then none
                else served_ip chrono (agent_ttl st) now st.storage.agents r)
      others none = refl
      others (some r) = elim (Bool-cases (r.agent_id == agent_id)) [
        | inl owned ↦ rw owned refl
        | inr other ↦
            rw
              (
                other,
                agent_row-map mark same st.storage.agents r.agent_id,
                unmarked (agent_row r.agent_id st.storage.agents) r.agent_id refl other,
              )
              refl
      ]
