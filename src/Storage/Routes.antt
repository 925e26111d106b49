-- ===== src/Storage/Routes.antt =====
-- The routes of crates/tailsvc-storage/src/store.rs: registration by an agent, and deletion.
pub mod Rows
pub mod Put
pub mod Ownership
use tailroute.Base.{
  ℕ, ◌+◌, Result, ok, err, Bool, not, ◌&&◌, Option, none, some, List, [], ◌∷◌, ◌++◌, map, retain,
  is_some, and_then, unwrap_or, if◌then◌else◌,
}
use tailroute.Base.Keys.{◌==◌, list_key, nat_key, member}
use tailroute.Base.Text.{Text, to_ascii_lowercase}
use tailroute.Common.Api.{RouteEntry, RouteConflict}
use tailroute.Storage.{
  Rfc3339, StorageError, AgentRow, RouteRow, Database, agent_row, route_row, is_alive,
}
use tailroute.Storage.Agents.{get_agent}

pub record PutRoutesOutcome : Type 0 where
  pub accepted : List Text
  pub conflicts : List RouteConflict

-- `INSERT … ON CONFLICT(hostname) DO UPDATE`.
unfoldable pub upsert_route : RouteRow → List RouteRow → List RouteRow
upsert_route row [] = row ∷ []
upsert_route row (r ∷ rs) = if r.hostname == row.hostname then row ∷ rs else r ∷ upsert_route row rs

-- `DELETE FROM routes WHERE hostname = ? AND agent_id = ?`.
unfoldable pub delete_owned : Text → Text → List RouteRow → List RouteRow
delete_owned hostname agent_id rows =
    retain (λ r. not ((r.hostname == hostname) && (r.agent_id == agent_id))) rows

-- The loop that deletes the agent's routes that it no longer wants.
unfoldable pub delete_undesired : List Text → Text → List RouteRow → List RouteRow → List RouteRow
delete_undesired desired agent_id [] rows = rows
delete_undesired desired agent_id (r ∷ owned) rows =
    delete_undesired desired agent_id owned
      (if member r.hostname desired then rows else delete_owned r.hostname agent_id rows)

-- The variables of the loop over the requested routes.
pub record Sync : Type 0 where
  pub rows : List RouteRow
  pub accepted : List Text
  pub conflicts : List RouteConflict

module _ (chrono : Rfc3339) where
  -- The owner of a row and its `last_seen_at`, by the join with the agents.
  unfoldable pub owner_of : List AgentRow → Text → List RouteRow → Option (Text × Option Text)
  owner_of agents host rows =
      and_then (route_row host rows)
        (λ r. and_then (agent_row r.agent_id agents) (λ a. some (r.agent_id, a.last_seen_at)))

  -- The row that a request writes.
  unfoldable pub requested_row : Text → ℕ → RouteEntry → RouteRow
  requested_row agent_id now entry = record {
    hostname = to_ascii_lowercase entry.hostname;
    agent_id = agent_id;
    backend = entry.backend;
    container_id = entry.container_id;
    container_name = entry.container_name;
    updated_at = chrono.to_rfc3339 now;
  }

  -- The owner of the hostname, if it is another agent that is alive.
  unfoldable pub live_owner :
      List AgentRow → Text → ℕ → ℕ → Text → List RouteRow → Option (Text × Option Text)
  live_owner agents agent_id ttl now host rows =
      and_then (owner_of agents host rows) (λ (owner, last).
        if not (owner == agent_id) && is_alive chrono now ttl last
        then some (owner, last)
        else none)

  -- One round of the loop: a conflict, or an accepted route.
  unfoldable pub put_entry : List AgentRow → Text → ℕ → ℕ → RouteEntry → Sync → Sync
  put_entry agents agent_id ttl now entry s =
      let host = to_ascii_lowercase entry.hostname in
      elim (live_owner agents agent_id ttl now host s.rows) [
        | some (owner, last) ↦ record s {
          conflicts =
              s.conflicts
              ++ record {
                hostname = host;
                owner_agent_id = owner;
                lease_expires_at = unwrap_or (and_then last chrono.parse_from_rfc3339) now + ttl;
              }
                ∷ [];
        }
        | none ↦ record s {
          rows = upsert_route (requested_row agent_id now entry) s.rows;
          accepted = s.accepted ++ host ∷ [];
        }
      ]

  unfoldable pub put_entries : List AgentRow → Text → ℕ → ℕ → List RouteEntry → Sync → Sync
  put_entries agents agent_id ttl now [] s = s
  put_entries agents agent_id ttl now (entry ∷ entries) s =
      put_entries agents agent_id ttl now entries (put_entry agents agent_id ttl now entry s)

  unfoldable pub put_routes :
      Text → List RouteEntry → ℕ → ℕ → Database → Result PutRoutesOutcome StorageError × Database
  put_routes agent_id entries ttl now db = elim (get_agent chrono agent_id now db) [
    | err e ↦ (err e, db)
    | ok _ ↦
        let desired = map (λ e. to_ascii_lowercase e.hostname) entries in
        let s =
          put_entries db.agents agent_id ttl now entries
            (record { rows = db.routes; accepted = []; conflicts = [] }) in
        let owned = retain (λ r. r.agent_id == agent_id) s.rows in
        (
          ok (record { accepted = s.accepted; conflicts = s.conflicts }),
          record db { routes = delete_undesired desired agent_id owned s.rows },
        )
  ]

-- `DELETE FROM routes WHERE hostname = ?`.
unfoldable pub delete_route : Text → Database → Result Unit StorageError × Database
delete_route hostname db = (
  ok tt,
  record db { routes = retain (λ r. not (r.hostname == to_ascii_lowercase hostname)) db.routes },
)
