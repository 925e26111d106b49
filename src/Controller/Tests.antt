-- ===== src/Controller/Tests.antt =====
-- The theorems on the handlers at a small state.
use tailroute.Base.{
  ◌⊎◌, ◌↔◌, Any, List, ℕ, ◌+◌, ◌≡◌, refl, arith, Result, ok, err, true, false, none, some, [], ◌∷◌,
  and_then, ltb, if◌then◌else◌,
}
use tailroute.Base.Keys.{◌==◌, list_key, nat_key, list_eq, member}
use tailroute.Base.Text.{
  Text, text, strip_prefix, to_ascii_lowercase, lower_char, trim_end_matches, trim_end_by,
}
use tailroute.Base.Text.Ipv4.{parse_ipv4}
use tailroute.Base.Table.{get}
use tailroute.Common.Api.{
  PutRoutesRequest, PutRoutesResponse, HeartbeatRequest, DiscoveryReportRequest,
  EnableServiceRequest,
}
use tailroute.Common.Auth.{verify_token}
use tailroute.Common.Backend.{Url}
use tailroute.Storage.{is_alive, route_row, agent_row}
use tailroute.Storage.Agents.{current_agent, get_agent, verify_agent_token}
use tailroute.Storage.Routes
use tailroute.Storage.Routes.{
  put_entries, put_entry, live_owner, owner_of, requested_row, upsert_route,
}
use tailroute.Storage.Routes.Rows.{is_owned}
use tailroute.Storage.Leases.Served.{agent_address}
use tailroute.Storage.Tests.{clock, plain, alice, small, request}
use tailroute.Dns.Registry.{lookup_a, key_of}
use tailroute.Controller.Config.{ControllerConfig, hostname_allowed, check_blocked}
use tailroute.Controller.Config.Policy.{IsBlocked, IsUnder, hostname_allowed_policy}
use tailroute.Controller.Sessions.{create, valid, revoke, purge_locked}
use tailroute.Controller.Sessions.Laws.{session_lifetime}
use tailroute.Controller.State.{
  AppState, unauthorized, Headers, bearer_token, to_str, agent_ttl, refresh_dns,
}
use tailroute.Controller.State.Refresh.{served_ip, refresh_dns_serves}
use tailroute.Controller.Agents.{
  Json, verify_bearer, check_policy, store_routes, put_checked, heartbeat, put_routes,
  put_discovery, desired_services,
}
use tailroute.Controller.Agents.Denied.{Unknown, agent_denied}
use tailroute.Controller.Agents.Served.{put_routes_resolves}
use tailroute.Common.Api.{DiscoveredContainerDto}
use tailroute.Controller.Probe.{ProbeResult}
use tailroute.Controller.Overview.{admin_discovery, admin_dashboard}
use tailroute.Controller.Admin.{
  admin_agents, admin_routes, admin_delete_route, admin_revoke_agent, admin_create_enrollment_token,
  admin_disable_service, admin_enable_service,
}
use tailroute.Controller.Admin.Denied.{Denied, admin-Denied}
use tailroute.Controller.Admin.Removed.{served, delete_route_removes, revoke_agent_removes}

abbrev config : ControllerConfig
config = record {
  api = record { admin_username = b'A' ∷ []; session_ttl_seconds = 300 };
  leases = record { heartbeat_interval_seconds = 20; agent_ttl_seconds = 90 };
  security = record { allowed_suffixes = []; blocked_names = (b'g' ∷ []) ∷ [] };
}

-- The session `p` lives until the instant 100.
abbrev state : AppState
state = record {
  storage = small;
  registry = record { inner = [] };
  cfg = config;
  admin_password = b'w' ∷ [];
  admin_username = b'A' ∷ [];
  sessions = record { inner = (b'p' ∷ [], 100) ∷ []; ttl = 300 };
  dns_up = true;
}

abbrev bearer : ℕ → Headers
bearer token =
    (text "authorization", b'B' ∷ b'e' ∷ b'a' ∷ b'r' ∷ b'e' ∷ b'r' ∷ b' ' ∷ token ∷ []) ∷ []

abbrev a_id : Text
a_id = b'a' ∷ []

hostname_allowed_policy_example : (hostname_allowed config (b'G' ∷ []) ≡ ok tt) ↔ (
    (¬ IsBlocked config (b'G' ∷ []))
    × ((config.security.allowed_suffixes ≡ [])
        ⊎ Any (IsUnder (to_ascii_lowercase (b'G' ∷ []))) config.security.allowed_suffixes))
hostname_allowed_policy_example = hostname_allowed_policy config (b'G' ∷ [])

abbrev n_token : Text
n_token = b'n' ∷ []

session_lifetime_example :
    ((valid (b'p' ∷ []) 60 (create (b'n' ∷ []) 50 state.sessions).1).0 ≡ (
      if n_token == (b'p' ∷ [])
      then ltb 60 (50 + 300)
      else (valid (b'p' ∷ []) 60 state.sessions).0))
    × ((valid (b'n' ∷ []) 60 (revoke (b'n' ∷ []) (create (b'n' ∷ []) 50 state.sessions).1)).0
        ≡ false)
unfolding member
session_lifetime_example =
    session_lifetime (b'n' ∷ []) 50 60 state.sessions (b'p' ∷ []) (refl, tt) (omega arith)

refresh_dns_serves_example :
    lookup_a (refresh_dns clock 10 state).1.registry (b'X' ∷ [])
    ≡ served_ip clock
        (agent_ttl state)
        10
        small.agents
        (route_row (key_of (b'X' ∷ [])) small.routes)
unfolding member list_eq
refresh_dns_serves_example = refresh_dns_serves clock 10 state (b'X' ∷ []) (refl, (refl, tt))

no_bearer : Unknown clock plain [] a_id state
unfolding bearer_token get
no_bearer token e v = cc

abbrev json : Json
json = record {
  services_to_string = λ services. ok [];
  hostnames_to_string = λ names. ok [];
  hostnames_from_str = λ s. ok [];
}

abbrev beat : HeartbeatRequest
beat = record { tailscale_ipv4 = []; routes = [] }

abbrev put : PutRoutesRequest
put = record { routes = request }

abbrev report : DiscoveryReportRequest
report = record { services = [] }

agent_denied_example :
    (heartbeat clock plain [] a_id beat 10 state ≡ (err unauthorized, state))
    × (put_routes clock plain [] a_id put 10 state ≡ (err unauthorized, state))
    × (put_discovery clock plain json [] a_id report 10 state ≡ (err unauthorized, state))
    × (desired_services clock plain json [] a_id state ≡ (err unauthorized, state))
agent_denied_example = agent_denied clock plain [] a_id state json beat put report 10 no_bearer

abbrev accepted : PutRoutesResponse
accepted = record {
  accepted = (b'z' ∷ []) ∷ [];
  conflicts =
      record { hostname = b'y' ∷ []; owner_agent_id = b'b' ∷ []; lease_expires_at = 90000000009 }
      ∷ [];
}

put_routes_resolves_example :
    lookup_a (put_routes clock plain (bearer b's') a_id put 10 state).1.registry (b'Z' ∷ [])
    ≡ and_then (agent_address clock (agent_ttl state) 10 (some alice)) parse_ipv4
unfolding member get_agent current_agent agent_row list_eq put_routes put_checked store_routes
    verify_bearer bearer_token get text to_str strip_prefix verify_agent_token verify_token
    check_policy hostname_allowed check_blocked Routes.put_routes put_entries put_entry live_owner
    owner_of route_row is_alive to_ascii_lowercase lower_char requested_row upsert_route
    trim_end_matches trim_end_by refresh_dns
put_routes_resolves_example =
    put_routes_resolves clock plain (bearer b's') a_id put 10 state accepted alice
      (refl, (refl, tt)) refl refl (b'Z' ∷ []) refl

abbrev enable : EnableServiceRequest
enable = record {
  agent_id = a_id;
  identity_key = [];
  container_name = none;
  hostnames = [];
  backend = [];
}

abbrev no_url : Text → Result Url Text
no_url t = err []

abbrev encode : Text → Result Text Text
encode t = ok t

abbrev no_services : Text → Result (List DiscoveredContainerDto) Text
no_services t = err []

abbrev no_probe : Text → Text → ProbeResult
no_probe address hostname = record { status = []; ms = none; detail = none }

admin-Denied_example :
    Denied [] 20 state (admin_agents clock [] 20 10 state)
    × Denied [] 20 state (admin_routes clock [] 20 10 state)
    × Denied [] 20 state (admin_delete_route clock [] a_id 20 10 state)
    × Denied [] 20 state (admin_revoke_agent clock [] a_id 20 10 state)
    × Denied [] 20 state (admin_create_enrollment_token clock plain [] a_id [] 20 10 state)
    × Denied [] 20 state (admin_disable_service clock [] a_id 20 10 state)
    × Denied [] 20 state (admin_enable_service clock json encode no_url [] enable a_id 20 10 state)
    × Denied [] 20 state (admin_discovery json no_services clock [] 20 10 state)
    × Denied [] 20 state (admin_dashboard no_probe clock [] 20 10 state)
unfolding bearer_token get
admin-Denied_example =
    admin-Denied [] 20 state clock plain json encode no_url 10 a_id a_id [] enable no_services
      no_probe refl

delete_route_removes_example :
    ((admin_delete_route clock (bearer b'p') (b'X' ∷ []) 20 10 state).0 ≡ ok tt)
    × ((name : Text)
        → lookup_a (admin_delete_route clock (bearer b'p') (b'X' ∷ []) 20 10 state).1.registry name
          ≡ (if key_of name == to_ascii_lowercase (b'X' ∷ [])
              then none
              else served clock (bearer b'p') 20 10 state name))
unfolding member list_eq bearer_token get text to_str strip_prefix valid purge_locked
delete_route_removes_example =
    delete_route_removes clock (bearer b'p') 20 10 state (b'X' ∷ []) (refl, (refl, tt)) refl

revoke_agent_removes_example :
    ((admin_revoke_agent clock (bearer b'p') a_id 20 10 state).0 ≡ ok tt)
    × ((name : Text)
        → lookup_a (admin_revoke_agent clock (bearer b'p') a_id 20 10 state).1.registry name ≡ (
            if is_owned a_id (route_row (key_of name) small.routes)
            then none
            else served clock (bearer b'p') 20 10 state name))
unfolding member list_eq bearer_token get text to_str strip_prefix valid purge_locked
revoke_agent_removes_example =
    revoke_agent_removes clock (bearer b'p') 20 10 state a_id (refl, (refl, tt)) refl
