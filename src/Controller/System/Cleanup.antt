-- ===== src/Controller/System/Cleanup.antt =====
-- What DNS answers after a round of the cleanup task.
use tailroute.Base.{
  ℕ, ◌+◌, ◌-◌, ◌≤◌, ◌<◌, ◌≡◌, refl, ◌∙◌, ap, inl, inr, arith, Bool, false, not, ◌&&◌, Option, none,
  some, Bool-cases, any, ltb, if◌then◌else◌,
}
use tailroute.Base.Keys.{◌==◌, list_key, nat_key}
use tailroute.Base.Text.{Text}
use tailroute.Base.Text.Ipv4.{parse_ipv4}
use tailroute.Common.Auth.{Argon2}
use tailroute.Storage.{Rfc3339, IsRfc3339, AgentRow, RouteRow, agent_row, route_row, is_alive}
use tailroute.Storage.Agents.{is_current}
use tailroute.Storage.Agents.Rows.{any-agent_row}
use tailroute.Storage.Leases.{is_stale, purge_expired_agents}
use tailroute.Storage.Routes.Rows.{keep_if, retain-IsKeyed, route_row-retain}
use tailroute.Dns.Registry.{lookup_a, key_of}
use tailroute.Controller.State.{AppState, refresh_dns, agent_ttl}
use tailroute.Controller.State.Refresh.{refresh_dns_serves, served_ip}
use tailroute.Controller.Router.{cleanup, refresh_dns_registry}
use tailroute.Controller.System.{Reachable}
use tailroute.Controller.System.Tables.{Reachable-IsSound}

module _ (chrono : Rfc3339) (now later : ℕ) (st : AppState) where
  abbrev fresh : RouteRow → Bool
  fresh r = not (
      any (λ a. (a.agent_id == r.agent_id) && is_stale (chrono.to_rfc3339 (now - agent_ttl st)) a)
        st.storage.agents)

  -- The answer for a name whose route's owner was last seen at an instant.
  abbrev pub answer_at : AgentRow → ℕ → Option ℕ
  answer_at a t =
      if is_current a && ltb later (t + agent_ttl st) then parse_ipv4 a.tailscale_ipv4 else none

  kept :
      (laws : IsRfc3339 chrono)
      → now ≤ later
      → (r : RouteRow) (a : AgentRow) (t : ℕ) → agent_row r.agent_id st.storage.agents ≡ some a
      → a.last_seen_at ≡ some (chrono.to_rfc3339 t)
      → fresh r ≡ not (is_stale (chrono.to_rfc3339 (now - agent_ttl st)) a)
      → served_ip chrono (agent_ttl st) later st.storage.agents (keep_if fresh (some r))
        ≡ answer_at a t
  unfolding is_alive is_stale
  kept laws le r a t owner seen same =
      elim (Bool-cases (is_stale (chrono.to_rfc3339 (now - agent_ttl st)) a)) [
        | inl old ↦
            let early : t < now - agent_ttl st =
              (laws.ordered t (now - agent_ttl st)).0 (rw (seen, is_stale) at old) in
            let over : ltb later (t + agent_ttl st) ≡ false = ground arith in
            rw (same, old, over) (ground arith)
        | inr young ↦
            let alive : is_alive chrono later (agent_ttl st) (some (chrono.to_rfc3339 t))
                ≡ ltb later (t + agent_ttl st) =
              rw (is_alive, laws.parse_written t) refl in
            rw (same, young, owner, seen, alive) (ground arith)
      ]

  -- In every state that the controller reaches from empty tables, a round of the cleanup task leaves
  -- a name the answer that its lease demands: the address of the agent that owns its route, if the
  -- agent is not revoked and its last instant lies less than the lease's time back, and none
  -- otherwise. So a silent agent's hostnames are no longer answered. The conditions: written
  -- instants are read back and ordered as they are, and the clock does not go back in the round.
  pub cleanup_ends :
      {argon : Argon2}
      → Reachable chrono argon st
      → IsRfc3339 chrono
      → now ≤ later
      → (name : Text) (r : RouteRow) (a : AgentRow) (t : ℕ)
      → route_row (key_of name) st.storage.routes ≡ some r
      → agent_row r.agent_id st.storage.agents ≡ some a
      → a.last_seen_at ≡ some (chrono.to_rfc3339 t)
      → lookup_a (cleanup chrono now later st).registry name ≡ answer_at a t
  unfolding cleanup refresh_dns_registry refresh_dns purge_expired_agents
  cleanup_ends reach laws le name r a t row owner seen =
      let sound = Reachable-IsSound st reach in
      let keyed = sound.tables.routes_keyed in
      let purged : AppState = record st {
        storage = (purge_expired_agents chrono (agent_ttl st) now st.storage).1;
      } in
      refresh_dns_serves chrono later purged name (retain-IsKeyed fresh st.storage.routes keyed)
      ∙ ap (λ o. served_ip chrono (agent_ttl st) later st.storage.agents o)
          (route_row-retain fresh st.storage.routes (key_of name) keyed ∙ ap (keep_if fresh) row)
      ∙ kept laws le r a t owner seen (
          ap not (
            any-agent_row (is_stale (chrono.to_rfc3339 (now - agent_ttl st))) st.storage.agents
              r.agent_id sound.tables.agents_keyed
            ∙ rw owner refl))
