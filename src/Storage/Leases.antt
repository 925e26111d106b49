-- ===== src/Storage/Leases.antt =====
-- What depends on the leases in crates/tailsvc-storage/src/store.rs: the routes that DNS serves, the
-- admin's list, and the purge.
pub mod Served
pub mod Expiry
pub mod Purge
use tailroute.Base.{
  ℕ, ◌+◌, ◌-◌, Result, ok, err, Bool, true, not, ◌&&◌, ◌||◌, Option, none, some, List, [], ◌∷◌,
  ◌++◌, map, length, retain, any, is_some, and_then, unwrap_or, if◌then◌else◌,
}
use tailroute.Base.Keys.{◌==◌, list_key, nat_key}
use tailroute.Base.Text.{Text}
use tailroute.Base.Order.{text_lt}
use tailroute.Storage.{Rfc3339, StorageError, AgentRow, RouteRow, Database, agent_row, is_alive}
use tailroute.Storage.Agents.{is_current}

pub record DnsRoute : Type 0 where
  pub hostname : Text
  pub tailscale_ipv4 : Text

-- A row of `list_routes_admin`; `expires` is the end of the lease.
pub record AdminRoute : Type 0 where
  pub hostname : Text
  pub agent_id : Text
  pub backend : Text
  pub container_id : Option Text
  pub container_name : Option Text
  pub expires : ℕ

-- `FROM routes r JOIN agents a ON a.agent_id = r.agent_id WHERE a.revoked_at IS NULL`; `agent_id` is
-- the primary key of the agents.
unfoldable pub current_routes : List AgentRow → List RouteRow → List (RouteRow × AgentRow)
current_routes agents [] = []
current_routes agents (r ∷ rs) =
    let rest = current_routes agents rs in
    elim (agent_row r.agent_id agents) [
      | none ↦ rest
      | some a ↦ if is_current a then (r, a) ∷ rest else rest
    ]

-- `last_seen_at < ? OR last_seen_at IS NULL`.
unfoldable pub is_stale : Text → AgentRow → Bool
is_stale cutoff a = elim a.last_seen_at [ none ↦ true | some last ↦ text_lt last cutoff ]

module _ (chrono : Rfc3339) where
  unfoldable pub live_rows : ℕ → ℕ → List (RouteRow × AgentRow) → List (RouteRow × AgentRow)
  live_rows ttl now rows = retain (λ (r, a). is_alive chrono now ttl a.last_seen_at) rows

  unfoldable pub active_dns_routes : ℕ → ℕ → Database → List DnsRoute
  active_dns_routes ttl now db =
      map (λ (r, a). record { hostname = r.hostname; tailscale_ipv4 = a.tailscale_ipv4 })
        (live_rows ttl now (current_routes db.agents db.routes))

  pub list_routes_admin : ℕ → ℕ → Database → List AdminRoute
  list_routes_admin ttl now db =
      map
        (λ (r, a). record {
          hostname = r.hostname;
          agent_id = r.agent_id;
          backend = r.backend;
          container_id = r.container_id;
          container_name = r.container_name;
          expires = unwrap_or (and_then a.last_seen_at chrono.parse_from_rfc3339) now + ttl;
        })
        (live_rows ttl now (current_routes db.agents db.routes))

  -- Returns the number of deleted routes. Instants before the epoch do not occur, so that the
  -- difference stops at 0.
  unfoldable pub purge_expired_agents : ℕ → ℕ → Database → Result ℕ StorageError × Database
  purge_expired_agents ttl now db =
      let cutoff = chrono.to_rfc3339 (now - ttl) in
      let stale =
        λ (r : RouteRow). any (λ a. (a.agent_id == r.agent_id) && is_stale cutoff a) db.agents in
      (
        ok (length (retain stale db.routes)),
        record db { routes = retain (λ r. not (stale r)) db.routes },
      )
