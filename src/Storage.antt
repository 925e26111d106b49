-- ===== src/Storage.antt =====
-- crates/tailsvc-storage (src/store.rs and the tables of migrations/): the controller's database.
-- A table is the list of its rows; each SQL statement of the program is a function on them, and a
-- method returns its result and the new database. One reading of the clock serves a method.
pub mod Tokens
pub mod Agents
pub mod Routes
pub mod Leases
pub mod Enabled
pub mod Consistent
pub mod Writes
pub mod Tests
use tailroute.Base.{
  ℕ, ◌+◌, ◌≡◌, ◌↔◌, ◌<◌, Result, Bool, true, false, Option, none, some, List, [], ltb, find,
  and_then,
}
use tailroute.Base.Keys.{◌==◌, list_key, nat_key}
use tailroute.Base.Text.{Text}
use tailroute.Base.Order.{text_lt}

-- chrono's texts for instants: a timestamp column holds what `to_rfc3339` writes.
pub record Rfc3339 : Type 0 where
  pub to_rfc3339 : ℕ → Text
  pub parse_from_rfc3339 : Text → Option ℕ

-- What the program relies on: a written instant is read back, and the texts are ordered as the
-- instants are.
pub record IsRfc3339 (chrono : Rfc3339) : Type 0 where
  pub parse_written : (t : ℕ) → chrono.parse_from_rfc3339 (chrono.to_rfc3339 t) ≡ some t
  pub ordered : (s t : ℕ) → (text_lt (chrono.to_rfc3339 s) (chrono.to_rfc3339 t) ≡ true) ↔ (s < t)

-- `sqlx` stands for an error of the database: here, a violated constraint of a table.
pub data StorageError : Type 0 where
  sqlx not_found conflict : StorageError
  other : Text → StorageError

pub record AgentRow : Type 0 where
  pub agent_id : Text
  pub display_name : Text
  pub tailscale_ipv4 : Text
  pub docker_engine_id : Text
  pub credential_hash : Text
  pub created_at : Text
  pub last_seen_at : Option Text
  pub revoked_at : Option Text

pub record TokenRow : Type 0 where
  pub token_hash : Text
  pub created_at : Text
  pub used_at : Option Text
  pub expires_at : Option Text

pub record RouteRow : Type 0 where
  pub hostname : Text
  pub agent_id : Text
  pub backend : Text
  pub container_id : Option Text
  pub container_name : Option Text
  pub updated_at : Text

pub record AuditRow : Type 0 where
  pub event_type : Text
  pub detail : Text
  pub created_at : Text

pub record SnapshotRow : Type 0 where
  pub agent_id : Text
  pub payload_json : Text
  pub updated_at : Text

pub record EnabledServiceRecord : Type 0 where
  pub id : Text
  pub agent_id : Text
  pub identity_key : Text
  pub container_name : Option Text
  pub hostnames_json : Text
  pub backend : Text
  pub enabled : Bool
  pub created_at : Text
  pub updated_at : Text

pub record Database : Type 0 where
  pub agents : List AgentRow
  pub enrollment_tokens : List TokenRow
  pub routes : List RouteRow
  pub audit_events : List AuditRow
  pub discovery_snapshots : List SnapshotRow
  pub enabled_services : List EnabledServiceRecord

-- The tables as the migrations create them.
abbrev pub empty : Database
empty = record {
  agents = [];
  enrollment_tokens = [];
  routes = [];
  audit_events = [];
  discovery_snapshots = [];
  enabled_services = [];
}

-- The row of a primary key.
unfoldable pub agent_row : Text → List AgentRow → Option AgentRow
agent_row agent_id agents = find (λ a. a.agent_id == agent_id) agents

unfoldable pub route_row : Text → List RouteRow → Option RouteRow
route_row hostname routes = find (λ r. r.hostname == hostname) routes

-- `now - t < ttl` for the instant `t` of a column; a missing or unreadable one is not alive.
unfoldable pub is_alive : Rfc3339 → ℕ → ℕ → Option Text → Bool
is_alive chrono now ttl last = elim (and_then last chrono.parse_from_rfc3339) [
  | none ↦ false
  | some t ↦ ltb now (t + ttl)
]
