-- ===== src/Storage/Leases/Expiry.antt =====
-- How long a lease lasts, and what the purge and a revocation do to it.
use tailroute.Base.{
  ℕ, ◌+◌, ◌≡◌, refl, sym, ◌∙◌, ap, true, ◌&&◌, Option, none, some, map, arith, if◌then◌else◌, ok,
  ltb,
}
use mathlib.Core.Option
use tailroute.Base.Keys.{◌==◌, list_key, nat_key, list_eq_iff}
use tailroute.Base.Text.{Text}
use tailroute.Storage.{
  Rfc3339, IsRfc3339, AgentRow, RouteRow, Database, agent_row, route_row, is_alive,
}
use tailroute.Storage.Agents.{is_current, heartbeat}
use tailroute.Storage.Agents.Rows.{
  IsKeyed, agent_row-map, agent_row-agent_id, heartbeat-ok, passes, any-agent_row,
}
use tailroute.Storage.Leases.{active_dns_routes}
use tailroute.Storage.Leases.Served.{address, agent_address, active_dns_routes_served}
use tailroute.Storage.Routes.Rows.{IsKeyed as RoutesKeyed}

module _ (chrono : Rfc3339) (laws : IsRfc3339 chrono) (ttl : ℕ) where
  alive_written :
      (t now : ℕ) → is_alive chrono now ttl (some (chrono.to_rfc3339 t)) ≡ ltb now (t + ttl)
  unfolding is_alive
  alive_written t now = rw (laws.parse_written t, is_alive)

  -- The rows that a heartbeat writes.
  abbrev beat : Text → Text → ℕ → AgentRow → AgentRow
  beat agent_id ip now a =
      if (a.agent_id == agent_id) && is_current a
      then record a { last_seen_at = some (chrono.to_rfc3339 now); tailscale_ipv4 = ip }
      else a

  beat_row :
      (db : Database) (agent_id ip : Text) (seen : ℕ)
      → agent_row agent_id (map (beat agent_id ip seen) db.agents)
        ≡ Option.map (beat agent_id ip seen) (agent_row agent_id db.agents)
  beat_row db agent_id ip seen =
      agent_row-map (beat agent_id ip seen) (λ a. ground arith) db.agents agent_id

  -- A row that a heartbeat for it has written has a new lease.
  beat_address :
      (agent_id ip : Text) (seen now : ℕ) (o : Option AgentRow)
      → ((a : AgentRow) → o ≡ some a → a.agent_id ≡ agent_id)
      → passes is_current o ≡ true
      → agent_address chrono ttl now (Option.map (beat agent_id ip seen) o)
        ≡ (if ltb now (seen + ttl) then some ip else none)
  beat_address agent_id ip seen now none named p = cc
  beat_address agent_id ip seen now (some a) named p =
      ground (arith, named a refl, list_eq_iff a.agent_id agent_id, alive_written seen now)

  -- From a heartbeat that succeeds at the instant `seen`, each route of the agent is served with
  -- the reported address at every instant before `seen + ttl`, and at none from then on. The
  -- conditions: no hostname stands in two rows of the routes and no identifier in two rows of the
  -- agents, and written instants are read back.
  pub heartbeat_lease :
      (db : Database) (agent_id ip : Text) (seen now : ℕ) (h : Text) (r : RouteRow)
      → RoutesKeyed db.routes
      → IsKeyed db.agents
      → route_row h db.routes ≡ some r
      → r.agent_id ≡ agent_id
      → (heartbeat chrono agent_id ip seen db).0 ≡ ok tt
      → address h (active_dns_routes chrono ttl now (heartbeat chrono agent_id ip seen db).1)
        ≡ (if ltb now (seen + ttl) then some ip else none)
  heartbeat_lease db agent_id ip seen now h r keyed agents row owned done =
      let (present, after) = heartbeat-ok chrono agent_id ip seen db done in
      ap (λ d. address h (active_dns_routes chrono ttl now d)) after
      ∙ active_dns_routes_served chrono ttl now
          (record db { agents = map (beat agent_id ip seen) db.agents }) h keyed
      ∙ rw (row, owned, beat_row db agent_id ip seen)
          (beat_address agent_id ip seen now (agent_row agent_id db.agents)
            (λ a. agent_row-agent_id db.agents agent_id a)
            (sym (any-agent_row is_current db.agents agent_id agents) ∙ present))
