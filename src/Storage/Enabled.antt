-- ===== src/Storage/Enabled.antt =====
-- The discovery snapshots, the enabled services and the audit trail of
-- crates/tailsvc-storage/src/store.rs.
use tailroute.Base.{
  ℕ, Result, ok, err, Bool, true, not, ◌&&◌, ◌||◌, Option, some, List, [], ◌∷◌, ◌++◌, map, retain,
  any, find, is_some, and_then, if◌then◌else◌,
}
use tailroute.Base.Keys.{◌==◌, list_key, nat_key}
use tailroute.Base.Text.{Text}
use tailroute.Base.Order.{text_lt, sort_by}
use tailroute.Storage.{
  Rfc3339, StorageError, sqlx, not_found, SnapshotRow, EnabledServiceRecord, Database, agent_row,
}

-- `INSERT … ON CONFLICT(agent_id) DO UPDATE`.
unfoldable pub upsert_snapshot : SnapshotRow → List SnapshotRow → List SnapshotRow
upsert_snapshot row [] = row ∷ []
upsert_snapshot row (s ∷ ss) =
    if s.agent_id == row.agent_id then row ∷ ss else s ∷ upsert_snapshot row ss

-- `INSERT … ON CONFLICT(agent_id, identity_key) DO UPDATE`: an existing row keeps its identifier
-- and its `created_at`.
unfoldable pub upsert_enabled :
    EnabledServiceRecord → List EnabledServiceRecord → List EnabledServiceRecord
upsert_enabled row [] = row ∷ []
upsert_enabled row (s ∷ ss) =
    if (s.agent_id == row.agent_id) && (s.identity_key == row.identity_key)
    then record s {
      container_name = row.container_name;
      hostnames_json = row.hostnames_json;
      backend = row.backend;
      enabled = true;
      updated_at = row.updated_at;
    }
      ∷ ss
    else s ∷ upsert_enabled row ss

-- A snapshot and an enabled service refer to an agent.
module _ (chrono : Rfc3339) where
  unfoldable pub put_discovery_snapshot :
      Text → Text → ℕ → Database → Result Unit StorageError × Database
  put_discovery_snapshot agent_id payload_json now db =
      if is_some (agent_row agent_id db.agents)
      then (
        ok tt,
        record db {
          discovery_snapshots =
              upsert_snapshot
                (record {
                  agent_id = agent_id;
                  payload_json = payload_json;
                  updated_at = chrono.to_rfc3339 now;
                })
                db.discovery_snapshots;
        },
      )
      else (err sqlx, db)

  unfoldable pub upsert_enabled_service :
      Text
      → Text
      → Text
      → Option Text
      → Text
      → Text
      → ℕ
      → Database
      → Result Unit StorageError × Database
  upsert_enabled_service id agent_id identity_key container_name hostnames_json backend now db =
      if is_some (agent_row agent_id db.agents) && not (any (λ s. s.id == id) db.enabled_services)
      then (
        ok tt,
        record db {
          enabled_services =
              upsert_enabled
                (record {
                  id = id;
                  agent_id = agent_id;
                  identity_key = identity_key;
                  container_name = container_name;
                  hostnames_json = hostnames_json;
                  backend = backend;
                  enabled = true;
                  created_at = chrono.to_rfc3339 now;
                  updated_at = chrono.to_rfc3339 now;
                })
                db.enabled_services;
        },
      )
      else (err sqlx, db)

  unfoldable pub set_enabled_service :
      Text → Bool → ℕ → Database → Result Unit StorageError × Database
  set_enabled_service id enabled now db =
      if any (λ s. s.id == id) db.enabled_services
      then (
        ok tt,
        record db {
          enabled_services =
              map
                (λ s.
                  if s.id == id
                  then record s { enabled = enabled; updated_at = chrono.to_rfc3339 now }
                  else s)
                db.enabled_services;
        },
      )
      else (err not_found, db)

  unfoldable pub audit : Text → Text → ℕ → Database → Result Unit StorageError × Database
  audit event_type detail now db = (
    ok tt,
    record db {
      audit_events =
          db.audit_events
          ++ record { event_type = event_type; detail = detail; created_at = chrono.to_rfc3339 now }
            ∷ [];
    },
  )

pub get_discovery_snapshot : Text → Database → Option (Text × Text)
get_discovery_snapshot agent_id db =
    and_then (find (λ s. s.agent_id == agent_id) db.discovery_snapshots)
      (λ s. some (s.payload_json, s.updated_at))

pub list_discovery_snapshots : Database → List (Text × Text × Text)
list_discovery_snapshots db =
    map (λ s. (s.agent_id, s.payload_json, s.updated_at))
      (sort_by (λ s t. text_lt s.agent_id t.agent_id) db.discovery_snapshots)

pub list_enabled_for_agent : Text → Database → List EnabledServiceRecord
list_enabled_for_agent agent_id db =
    retain (λ s. (s.agent_id == agent_id) && s.enabled) db.enabled_services

pub list_all_enabled : Database → List EnabledServiceRecord
list_all_enabled db =
    sort_by
      (λ s t.
        text_lt s.agent_id t.agent_id
        || ((s.agent_id == t.agent_id) && text_lt s.identity_key t.identity_key))
      db.enabled_services

pub get_enabled_by_id : Text → Database → Option EnabledServiceRecord
get_enabled_by_id id db = find (λ s. s.id == id) db.enabled_services
