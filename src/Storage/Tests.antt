-- ===== src/Storage/Tests.antt =====
-- A small database, and the theorems of the storage at it. The clock writes an instant as a text of
-- one character; the password hash is the password.
use tailroute.Base.{
  ℕ, ◌+◌, ◌≡◌, ◌≢◌, ◌⊎◌, refl, arith, Result, ok, err, false, Option, none, some, List, [], ◌∷◌,
  ltb, if◌then◌else◌, is_some, retain, not,
}
use tailroute.Base.Keys.{◌==◌, list_key, nat_key, list_eq, list_eq_iff, member}
use tailroute.Base.Text.{Text, text, to_ascii_lowercase, lower_char}
use tailroute.Base.Order.{text_lt}
use tailroute.Common.Api.{RouteEntry}
use tailroute.Common.Auth.{Argon2, IsArgon2, hash_token, verify_token}
use tailroute.Storage.{
  Rfc3339, IsRfc3339, StorageError, other, AgentRow, RouteRow, Database, empty, agent_row,
  route_row, is_alive,
}
use tailroute.Storage.Tokens.{unused_tokens, consume_fetched, consume_enrollment_token}
use tailroute.Storage.Tokens.SingleUse.{usable, consume_counts, consume_race}
use tailroute.Base.{inl, inr, Bool-cases}
use tailroute.Storage.{not_found}
use tailroute.Storage.Agents.{
  AgentRecord, row_to_agent, get_agent, current_agent, heartbeat, revoke_agent, enroll_agent,
  verify_agent_token,
}
use tailroute.Storage.Agents.Access.{enroll-verify, revoke_shuts_out}
use tailroute.Storage.Routes.{
  PutRoutesOutcome, put_routes, put_entries, put_entry, live_owner, owner_of, requested_row,
  upsert_route,
}
use tailroute.Storage.Routes.Rows.{is_owned}
use tailroute.Storage.Routes.Put.{expected_row, put_routes_row, requested}
use tailroute.Storage.Routes.Ownership.{owner_before, refusals, put_routes_answer, put_routes_owned}
use tailroute.Storage.Leases.{active_dns_routes, purge_expired_agents}
use tailroute.Storage.Leases.Served.{address, owner_address, active_dns_routes_served}
use tailroute.Storage.Leases.Expiry.{heartbeat_lease}
use tailroute.Storage.Leases.Purge.{IsWritten, purge_keeps_served}

abbrev pub clock : Rfc3339
clock = record { to_rfc3339 = λ t. t ∷ []; parse_from_rfc3339 = read }
  where
    read : Text → Option ℕ
    read [] = none
    read (t ∷ []) = some t
    read (t ∷ u ∷ s) = none

pub clock-IsRfc3339 : IsRfc3339 clock
unfolding text_lt
clock-IsRfc3339 = record { parse_written = λ t. refl; ordered = λ s t. ground arith }

abbrev pub plain : Argon2
plain = record {
  hash_password = λ token salt. ok token;
  parse_hash = λ hash. some hash;
  verify_password = λ token hash. token == hash;
}

pub plain-IsArgon2 : IsArgon2 plain
unfolding list_eq
plain-IsArgon2 = record {
  verifies = λ token salt hash e. (hash, refl, (list_eq_iff token hash).1 (ground arith));
}

abbrev pub alice : AgentRow
alice = record {
  agent_id = b'a' ∷ [];
  display_name = b'A' ∷ [];
  tailscale_ipv4 = b'1' ∷ b'.' ∷ b'2' ∷ b'.' ∷ b'3' ∷ b'.' ∷ b'4' ∷ [];
  docker_engine_id = [];
  credential_hash = b's' ∷ [];
  created_at = 1 ∷ [];
  last_seen_at = some (5 ∷ []);
  revoked_at = none;
}

abbrev pub bob : AgentRow
bob = record alice {
  agent_id = b'b' ∷ [];
  credential_hash = b't' ∷ [];
  last_seen_at = some (9 ∷ []);
}

abbrev pub row : Text → AgentRow → RouteRow
row host a = record {
  hostname = host;
  agent_id = a.agent_id;
  backend = [];
  container_id = none;
  container_name = none;
  updated_at = 5 ∷ [];
}

-- Alice owns `x` and Bob owns `y`; one enrollment token, `e`, is unused.
abbrev pub small : Database
small = record empty {
  agents = alice ∷ bob ∷ [];
  routes = row (b'x' ∷ []) alice ∷ row (b'y' ∷ []) bob ∷ [];
  enrollment_tokens =
      record { token_hash = b'e' ∷ []; created_at = 1 ∷ []; used_at = none; expires_at = none }
      ∷ [];
}

consume_counts_example :
    (((consume_enrollment_token clock plain (b'e' ∷ []) 7 small).0 ≡ ok tt)
      × (usable clock plain (b'e' ∷ []) small
          ≡ usable clock plain
              (b'e' ∷ [])
              (consume_enrollment_token clock plain (b'e' ∷ []) 7 small).1
            + 1))
    ⊎ (((consume_enrollment_token clock plain (b'e' ∷ []) 7 small)
          ≡ (err (other (text "invalid enrollment token")), small))
        × (usable clock plain (b'e' ∷ []) small ≡ 0))
consume_counts_example =
    consume_counts clock plain (b'e' ∷ []) 7 small (unfold member in (refl, tt))

consume_race_example :
    (let fetched = unused_tokens clock plain small in
      let after = consume_fetched clock plain fetched (b'e' ∷ []) 7 small in
      (after.0 ≡ ok tt) × ((consume_fetched clock plain fetched (b'e' ∷ []) 8 after.1).0 ≡ ok tt))
unfolding unused_tokens verify_token list_eq
consume_race_example = consume_race clock plain (b'e' ∷ []) 7 8 small refl

-- Alice asks for a new route and for one of Bob's.
abbrev pub request : List RouteEntry
request =
    record { hostname = b'Z' ∷ []; backend = []; container_id = none; container_name = none }
    ∷ record { hostname = b'y' ∷ []; backend = []; container_id = none; container_name = none }
    ∷ []

abbrev current : AgentRecord
current = row_to_agent clock 10 alice

put_routes_row_example :
    route_row (b'y' ∷ []) (put_routes clock (b'a' ∷ []) request 5 10 small).1.routes
    ≡ expected_row clock (b'a' ∷ []) request 5 10 small (b'y' ∷ [])
unfolding member get_agent current_agent agent_row list_eq
put_routes_row_example =
    put_routes_row clock (b'a' ∷ []) request 5 10 small current (refl, (refl, tt)) refl (b'y' ∷ [])

put_routes_answer_example :
    (put_routes clock (b'a' ∷ []) request 5 10 small).0
    ≡ ok (record {
      accepted =
          retain
            (λ h. not (is_some (owner_before clock (b'a' ∷ []) request 5 10 small h)))
            (requested request);
      conflicts =
          refusals clock 5 10
            (owner_before clock (b'a' ∷ []) request 5 10 small)
            (requested request);
    })
unfolding get_agent current_agent agent_row list_eq
put_routes_answer_example = put_routes_answer clock (b'a' ∷ []) request 5 10 small current refl

abbrev answered : PutRoutesOutcome
answered = record {
  accepted = (b'z' ∷ []) ∷ [];
  conflicts =
      record { hostname = b'y' ∷ []; owner_agent_id = b'b' ∷ []; lease_expires_at = 14 } ∷ [];
}

put_routes_owned_example :
    is_owned
      (b'a' ∷ [])
      (route_row (b'z' ∷ []) (put_routes clock (b'a' ∷ []) request 5 10 small).1.routes)
    ≡ member (b'z' ∷ []) answered.accepted
unfolding member get_agent current_agent agent_row list_eq put_routes put_entries put_entry
    live_owner owner_of route_row is_alive to_ascii_lowercase lower_char requested_row upsert_route
put_routes_owned_example =
    put_routes_owned clock (b'a' ∷ []) request 5 10 small current (refl, (refl, tt)) refl answered
      refl (b'z' ∷ [])

active_dns_routes_served_example :
    address (b'x' ∷ []) (active_dns_routes clock 8 10 small)
    ≡ owner_address clock 8 10 small.agents (route_row (b'x' ∷ []) small.routes)
unfolding member list_eq
active_dns_routes_served_example =
    active_dns_routes_served clock 8 10 small (b'x' ∷ []) (refl, (refl, tt))

heartbeat_lease_example :
    address
      (b'x' ∷ [])
      (active_dns_routes clock 5 22 (heartbeat clock (b'a' ∷ []) (b'9' ∷ []) 20 small).1)
    ≡ (if ltb 22 (20 + 5) then some (b'9' ∷ []) else none)
unfolding member list_eq route_row heartbeat
heartbeat_lease_example =
    heartbeat_lease clock clock-IsRfc3339 5 small (b'a' ∷ []) (b'9' ∷ []) 20 22 (b'x' ∷ [])
      (row (b'x' ∷ []) alice) (refl, (refl, tt)) (refl, (refl, tt)) refl refl refl

small-IsWritten :
    (id : Text) (a : AgentRow) → agent_row id small.agents ≡ some a → IsWritten clock a
unfolding agent_row
small-IsWritten id a e = elim (Bool-cases (alice.agent_id == id)) [
  | inl here ↦ (5, ground (arith, here))
  | inr later ↦ (9, ground (arith, later))
]

purge_keeps_served_example :
    active_dns_routes clock 5 12 (purge_expired_agents clock 5 11 small).1
    ≡ active_dns_routes clock 5 12 small
unfolding member list_eq
purge_keeps_served_example =
    purge_keeps_served clock 5 11 12 small clock-IsRfc3339 (omega arith) (refl, (refl, tt))
      small-IsWritten

abbrev joined : Result (Text × Text) StorageError × Database
joined = enroll_agent clock plain (b'c' ∷ []) (b'u' ∷ []) [] [] [] [] 10 small

enroll-verify_example :
    (agent_row (b'a' ∷ b'g' ∷ b't' ∷ b'_' ∷ b'c' ∷ []) small.agents ≡ none)
    × (verify_agent_token plain (b'a' ∷ b'g' ∷ b't' ∷ b'_' ∷ b'c' ∷ []) (b'u' ∷ []) joined.1
        ≡ ok tt)
    × (verify_agent_token plain (b'b' ∷ []) (b't' ∷ []) joined.1
        ≡ verify_agent_token plain (b'b' ∷ []) (b't' ∷ []) small)
unfolding enroll_agent hash_token text agent_row list_eq
enroll-verify_example =
    enroll-verify clock plain (b'c' ∷ []) (b'u' ∷ []) [] [] [] [] 10 small
      (b'a' ∷ b'g' ∷ b't' ∷ b'_' ∷ b'c' ∷ []) (b'u' ∷ []) (b'b' ∷ []) (b't' ∷ []) plain-IsArgon2
      refl refl

abbrev without_alice : Database
without_alice = (revoke_agent clock (b'a' ∷ []) 10 small).1

revoke_shuts_out_example :
    ((token : Text) → verify_agent_token plain (b'a' ∷ []) token without_alice ≢ ok tt)
    × ((later : ℕ) → get_agent clock (b'a' ∷ []) later without_alice ≡ err not_found)
    × ((h : Text) → is_owned (b'a' ∷ []) (route_row h without_alice.routes) ≡ false)
revoke_shuts_out_example = revoke_shuts_out plain clock (b'a' ∷ []) 10 small
