-- ===== src/Storage/Writes.antt =====
-- The calls of `Storage` in crates/tailsvc-storage/src/store.rs that write, as steps of the database.
-- Each is one step; the use of an enrollment token is split at its await, so that the rows it looks
-- at are any rows.
use tailroute.Base.{ℕ, Bool, Option, List}
use tailroute.Base.Text.{Text}
use tailroute.Common.Api.{RouteEntry}
use tailroute.Common.Auth.{Argon2}
use tailroute.Storage.{Rfc3339, TokenRow, Database}
use tailroute.Storage.Tokens.{consume_fetched, create_enrollment_token}
use tailroute.Storage.Agents.{enroll_agent, heartbeat, revoke_agent}
use tailroute.Storage.Routes.{put_routes, delete_route}
use tailroute.Storage.Leases.{purge_expired_agents}
use tailroute.Storage.Enabled.{
  put_discovery_snapshot, upsert_enabled_service, set_enabled_service, audit,
}
use tailroute.Storage.Consistent.{IsConsistent}
use tailroute.Storage.Consistent.Agents.{
  delete_route-IsConsistent, purge-IsConsistent, heartbeat-IsConsistent, revoke_agent-IsConsistent,
  enroll_agent-IsConsistent,
}
use tailroute.Storage.Consistent.Others.{
  put_routes-IsConsistent, consume_fetched-IsConsistent, create_enrollment_token-IsConsistent,
  put_discovery_snapshot-IsConsistent, upsert_enabled_service-IsConsistent,
  set_enabled_service-IsConsistent, audit-IsConsistent,
}

pub data Write (chrono : Rfc3339) (argon : Argon2) : Database → Database → Type 0 where
  create_token :
      (token salt : Text) (now : ℕ) (db : Database)
      → Write chrono argon db (create_enrollment_token chrono argon token salt now db).1
  consume_token :
      (rows : List TokenRow) (token : Text) (now : ℕ) (db : Database)
      → Write chrono argon db (consume_fetched chrono argon rows token now db).1
  enroll :
      (id_part agent_token salt display_name ip engine : Text) (now : ℕ) (db : Database)
      → Write chrono argon db
          (enroll_agent chrono argon id_part agent_token salt display_name ip engine now db).1
  beat :
      (agent_id ip : Text) (now : ℕ) (db : Database)
      → Write chrono argon db (heartbeat chrono agent_id ip now db).1
  revoke :
      (agent_id : Text) (now : ℕ) (db : Database)
      → Write chrono argon db (revoke_agent chrono agent_id now db).1
  put :
      (agent_id : Text) (entries : List RouteEntry) (ttl now : ℕ) (db : Database)
      → Write chrono argon db (put_routes chrono agent_id entries ttl now db).1
  delete : (hostname : Text) (db : Database) → Write chrono argon db (delete_route hostname db).1
  purge :
      (ttl now : ℕ) (db : Database)
      → Write chrono argon db (purge_expired_agents chrono ttl now db).1
  report :
      (agent_id payload : Text) (now : ℕ) (db : Database)
      → Write chrono argon db (put_discovery_snapshot chrono agent_id payload now db).1
  enable :
      (id agent_id identity_key : Text) (container_name : Option Text) (hostnames backend : Text)
      (now : ℕ) (db : Database)
      → Write chrono argon db
          (upsert_enabled_service chrono id agent_id identity_key container_name hostnames backend
            now db).1
  switch :
      (id : Text) (enabled : Bool) (now : ℕ) (db : Database)
      → Write chrono argon db (set_enabled_service chrono id enabled now db).1
  note :
      (event detail : Text) (now : ℕ) (db : Database)
      → Write chrono argon db (audit chrono event detail now db).1

pub Write-IsConsistent :
    {chrono : Rfc3339} {argon : Argon2} {before after : Database}
    → Write chrono argon before after
    → IsConsistent chrono before
    → IsConsistent chrono after
Write-IsConsistent {argon} (create_token token salt now db) c =
    create_enrollment_token-IsConsistent c argon token salt now
Write-IsConsistent {argon} (consume_token rows token now db) c =
    consume_fetched-IsConsistent c argon rows token now
Write-IsConsistent {argon} (enroll id_part agent_token salt name ip engine now db) c =
    enroll_agent-IsConsistent c argon id_part agent_token salt name ip engine now
Write-IsConsistent (beat agent_id ip now db) c = heartbeat-IsConsistent c agent_id ip now
Write-IsConsistent (revoke agent_id now db) c = revoke_agent-IsConsistent c agent_id now
Write-IsConsistent (put agent_id entries ttl now db) c =
    put_routes-IsConsistent c agent_id entries ttl now
Write-IsConsistent (delete hostname db) c = delete_route-IsConsistent c hostname
Write-IsConsistent (purge ttl now db) c = purge-IsConsistent c ttl now
Write-IsConsistent (report agent_id payload now db) c =
    put_discovery_snapshot-IsConsistent c agent_id payload now
Write-IsConsistent (enable id agent_id key name hostnames backend now db) c =
    upsert_enabled_service-IsConsistent c id agent_id key name hostnames backend now
Write-IsConsistent (switch id enabled now db) c = set_enabled_service-IsConsistent c id enabled now
Write-IsConsistent (note event detail now db) c = audit-IsConsistent c event detail now
