-- ===== src/Storage/Consistent.antt =====
-- What the keys and the references of the tables in crates/tailsvc-storage/migrations/ demand, and
-- that the timestamps of the agents are the program's.
pub mod Agents
pub mod Others
use tailroute.Base.{◌≡◌, true, some, map, is_some}
use tailroute.Base.Keys.{list_key, nat_key, Distinct}
use tailroute.Base.Text.{Text}
use tailroute.Storage.{Rfc3339, AgentRow, RouteRow, Database, agent_row, route_row}
use tailroute.Storage.Agents.Rows.{IsKeyed as AgentsKeyed}
use tailroute.Storage.Routes.Rows.{IsKeyed as RoutesKeyed}
use tailroute.Storage.Leases.Purge.{IsWritten}

pub record IsConsistent (chrono : Rfc3339) (db : Database) : Type 0 where
  pub agents_keyed : AgentsKeyed db.agents
  pub tokens_keyed : Distinct (map (λ t. t.token_hash) db.enrollment_tokens)
  pub routes_keyed : RoutesKeyed db.routes
  pub snapshots_keyed : Distinct (map (λ s. s.agent_id) db.discovery_snapshots)
  pub services_keyed : Distinct (map (λ s. s.id) db.enabled_services)
  -- The owner of a route is an agent.
  pub owned :
      (h : Text) (r : RouteRow)
      → route_row h db.routes ≡ some r
      → is_some (agent_row r.agent_id db.agents) ≡ true
  pub written : (id : Text) (a : AgentRow) → agent_row id db.agents ≡ some a → IsWritten chrono a
