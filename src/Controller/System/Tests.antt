-- ===== src/Controller/System/Tests.antt =====
-- The theorems on the controller as a whole, after an agent's enrollment and registration.
use tailroute.Base.{ℕ, ◌≡◌, refl, arith, ok, err, none, some, List, [], ◌∷◌}
use tailroute.Base.Keys.{list_eq, member}
use tailroute.Base.Text.{Text, text, to_ascii_lowercase, lower_char, trim_end_matches, trim_end_by}
use tailroute.Common.Api.{RouteEntry}
use tailroute.Common.Auth.{hash_token}
use tailroute.Storage.{AgentRow, RouteRow, Database, empty, agent_row, route_row}
use tailroute.Storage.Agents.{enroll_agent, current_agent, get_agent}
use tailroute.Storage.Routes.{
  put_routes, put_entries, put_entry, live_owner, owner_of, requested_row, upsert_route,
  delete_undesired,
}
use tailroute.Storage.Tests.{clock, clock-IsRfc3339, plain}
use tailroute.Storage.Writes.{enroll, put}
use tailroute.Dns.Registry.{lookup_a}
use tailroute.Controller.Config.{ControllerConfig}
use tailroute.Controller.State.{AppState, restarted, new}
use tailroute.Controller.Agents.{Json}
use tailroute.Controller.Router.{Request, Libraries, router, cleanup}
use tailroute.Controller.Router.Guarded.{SameButSessions, router-Uncredited}
use tailroute.Controller.State.{bearer_token}
use tailroute.Base.Table.{get}
use tailroute.Controller.System.{write, here, next, Reachable}
use tailroute.Controller.System.Tables.{IsSound, Reachable-IsSound}
use tailroute.Controller.System.Cleanup.{answer_at, cleanup_ends}

abbrev config : ControllerConfig
config = record {
  api = record { admin_username = b'A' ∷ []; session_ttl_seconds = 300 };
  leases = record { heartbeat_interval_seconds = 20; agent_ttl_seconds = 90 };
  security = record { allowed_suffixes = []; blocked_names = [] };
}

abbrev password : List ℕ
password = b'w' ∷ []

abbrev ip : Text
ip = b'1' ∷ b'.' ∷ b'2' ∷ b'.' ∷ b'3' ∷ b'.' ∷ b'4' ∷ []

abbrev agent_id : Text
agent_id = b'a' ∷ b'g' ∷ b't' ∷ b'_' ∷ b'a' ∷ []

abbrev entries : List RouteEntry
entries =
    record { hostname = b'X' ∷ []; backend = []; container_id = none; container_name = none } ∷ []

abbrev enrolled : Database
enrolled = (enroll_agent clock plain (b'a' ∷ []) (b's' ∷ []) [] [] ip [] 5 empty).1

abbrev registered : Database
registered = (put_routes clock agent_id entries 90 6 enrolled).1

abbrev state : AppState
state = record (restarted empty config password) { storage = registered }

state-Reachable : Reachable clock plain state
unfolding new
state-Reachable = (
  config,
  password,
  next (next here (write _ (enroll (b'a' ∷ []) (b's' ∷ []) [] [] ip [] 5 empty)))
      (write _ (put agent_id entries 90 6 enrolled)),
)

Reachable-IsSound_example : IsSound clock state
Reachable-IsSound_example = Reachable-IsSound state state-Reachable

abbrev agent : AgentRow
agent = record {
  agent_id = agent_id;
  display_name = [];
  tailscale_ipv4 = ip;
  docker_engine_id = [];
  credential_hash = b's' ∷ [];
  created_at = 5 ∷ [];
  last_seen_at = some (5 ∷ []);
  revoked_at = none;
}

abbrev route : RouteRow
route = record {
  hostname = b'x' ∷ [];
  agent_id = agent_id;
  backend = [];
  container_id = none;
  container_name = none;
  updated_at = 6 ∷ [];
}

-- At the instant 90000000005 the lease of 90 seconds has run out.
cleanup_ends_example :
    lookup_a (cleanup clock 90000000004 90000000005 state).registry (b'x' ∷ [])
    ≡ answer_at clock 90000000004 90000000005 state agent 5
unfolding member enroll_agent hash_token text put_routes get_agent current_agent agent_row route_row
    put_entries put_entry live_owner owner_of requested_row upsert_route delete_undesired list_eq
    to_ascii_lowercase lower_char trim_end_matches trim_end_by
cleanup_ends_example =
    cleanup_ends clock 90000000004 90000000005 state state-Reachable clock-IsRfc3339 (omega arith)
      (b'x' ∷ []) route agent 5 refl refl refl

abbrev json : Json
json = record {
  services_to_string = λ services. ok [];
  hostnames_to_string = λ names. ok [];
  hostnames_from_str = λ s. ok [];
}

abbrev libraries : Libraries
libraries = record {
  chrono = clock;
  argon = plain;
  json = json;
  services_from_str = λ s. ok [];
  domain_to_ascii = λ s. ok s;
  url_parse = λ s. err [];
  probe = λ address host. record { status = []; ms = none; detail = none };
}

-- A revocation without a token.
abbrev intruder : Request
intruder = Request.revoke_agent [] agent_id 20 10

router-Uncredited_example : SameButSessions state (router libraries intruder state)
unfolding bearer_token get
router-Uncredited_example = router-Uncredited libraries intruder state refl
