-- ===== src/Storage/Agents.antt =====
-- The agents of crates/tailsvc-storage/src/store.rs.
pub mod Rows
pub mod Access
use tailroute.Base.{
  ℕ, Result, ok, err, ok_or, ◌>>=◌, Bool, not, ◌&&◌, Option, none, some, List, [], ◌∷◌, ◌++◌, map,
  retain, any, is_some, and_then, unwrap_or, if◌then◌else◌,
}
use tailroute.Base.Keys.{◌==◌, list_key, nat_key}
use tailroute.Base.Text.{Text, text}
use tailroute.Common.Auth.{Argon2, hash_token, verify_token}
use tailroute.Storage.{Rfc3339, StorageError, sqlx, not_found, other, AgentRow, Database, agent_row}

pub record AgentRecord : Type 0 where
  pub agent_id : Text
  pub display_name : Text
  pub tailscale_ipv4 : Text
  pub docker_engine_id : Text
  pub created_at : ℕ
  pub last_seen_at : Option ℕ

-- `revoked_at IS NULL`.
abbrev pub is_current : AgentRow → Bool
is_current a = not (is_some a.revoked_at)

-- The row `WHERE agent_id = ? AND revoked_at IS NULL`.
unfoldable pub current_agent : Text → Database → Option AgentRow
current_agent agent_id db =
    and_then (agent_row agent_id db.agents) (λ a. if is_current a then some a else none)

module _ (chrono : Rfc3339) where
  -- An unreadable `created_at` reads as the present.
  pub row_to_agent : ℕ → AgentRow → AgentRecord
  row_to_agent now a = record {
    agent_id = a.agent_id;
    display_name = a.display_name;
    tailscale_ipv4 = a.tailscale_ipv4;
    docker_engine_id = a.docker_engine_id;
    created_at = unwrap_or (chrono.parse_from_rfc3339 a.created_at) now;
    last_seen_at = and_then a.last_seen_at chrono.parse_from_rfc3339;
  }

  unfoldable pub get_agent : Text → ℕ → Database → Result AgentRecord StorageError
  get_agent agent_id now db = do
    a ← ok_or (current_agent agent_id db) not_found
    ok (row_to_agent now a)

  pub list_agents : ℕ → Database → List AgentRecord
  list_agents now db = map (row_to_agent now) (retain is_current db.agents)

  -- `UPDATE agents SET last_seen_at = ?, tailscale_ipv4 = ? WHERE agent_id = ? AND revoked_at IS
  -- NULL`; no row affected is `NotFound`.
  unfoldable pub heartbeat : Text → Text → ℕ → Database → Result Unit StorageError × Database
  heartbeat agent_id tailscale_ipv4 now db =
      if any (λ a. (a.agent_id == agent_id) && is_current a) db.agents
      then (
        ok tt,
        record db {
          agents =
              map
                (λ a.
                  if (a.agent_id == agent_id) && is_current a
                  then record a {
                    last_seen_at = some (chrono.to_rfc3339 now);
                    tailscale_ipv4 = tailscale_ipv4;
                  }
                  else a)
                db.agents;
        },
      )
      else (err not_found, db)

  -- The agent's routes go in a second statement.
  unfoldable pub revoke_agent : Text → ℕ → Database → Result Unit StorageError × Database
  revoke_agent agent_id now db = (
    ok tt,
    record db {
      agents =
          map
            (λ a.
              if a.agent_id == agent_id
              then record a { revoked_at = some (chrono.to_rfc3339 now) }
              else a)
            db.agents;
      routes = retain (λ r. not (r.agent_id == agent_id)) db.routes;
    },
  )

module _ (chrono : Rfc3339) (argon : Argon2) where
  -- `id_part`, `agent_token` and `salt` are what the random generator yields.
  unfoldable pub enroll_agent :
      Text
      → Text
      → Text
      → Text
      → Text
      → Text
      → ℕ
      → Database
      → Result (Text × Text) StorageError × Database
  enroll_agent id_part agent_token salt display_name tailscale_ipv4 docker_engine_id now db =
      let agent_id = text "agt_" ++ id_part in
      elim (hash_token argon salt agent_token) [
        | err e ↦ (err (other e), db)
        | ok credential_hash ↦ if is_some (agent_row agent_id db.agents) then (err sqlx, db) else (
          ok (agent_id, agent_token),
          record db {
            agents =
                db.agents
                ++ record {
                  agent_id = agent_id;
                  display_name = display_name;
                  tailscale_ipv4 = tailscale_ipv4;
                  docker_engine_id = docker_engine_id;
                  credential_hash = credential_hash;
                  created_at = chrono.to_rfc3339 now;
                  last_seen_at = some (chrono.to_rfc3339 now);
                  revoked_at = none;
                }
                  ∷ [];
          },
        )
      ]

module _ (argon : Argon2) where
  unfoldable pub verify_agent_token : Text → Text → Database → Result Unit StorageError
  verify_agent_token agent_id token db = do
    row ← ok_or (agent_row agent_id db.agents) not_found
    (if is_some row.revoked_at
        then err (other (text "revoked"))
        else if verify_token argon row.credential_hash token
        then ok tt
        else err (other (text "bad token")))
