-- ===== src/Agent/Client/Tests.antt =====
-- The client of an agent that enrolls with the token `e` of a small database.
use tailroute.Base.{◌≡◌, refl, ok, [], ◌∷◌}
use tailroute.Base.Keys.{list_key, nat_key, list_eq}
use tailroute.Base.Table.{get}
use tailroute.Base.Text.{Text, text, strip_prefix}
use tailroute.Common.Api.{EnrollRequest, EnrollResponse}
use tailroute.Common.Auth.{hash_token, verify_token}
use tailroute.Storage.{agent_row}
use tailroute.Storage.Agents.{enroll_agent}
use tailroute.Storage.Tokens.{consume_enrollment_token, consume_fetched, unused_tokens, mark_used}
use tailroute.Storage.Tests.{clock, plain, plain-IsArgon2, small}
use tailroute.Controller.Config.{ControllerConfig}
use tailroute.Controller.State.{
  AppState, Headers, restarted, new as new_state, to_str, bearer_token,
}
use tailroute.Controller.Agents.{enroll, verify_bearer}
use tailroute.Agent.Client.{Method, new, agent_request}
use tailroute.Agent.Client.Enrolled.{arrived, enrolled_client-verifies}

abbrev config : ControllerConfig
config = record {
  api = record { admin_username = b'A' ∷ []; session_ttl_seconds = 300 };
  leases = record { heartbeat_interval_seconds = 20; agent_ttl_seconds = 90 };
  security = record { allowed_suffixes = []; blocked_names = [] };
}

abbrev state : AppState
state = restarted small config (b'w' ∷ [])

abbrev headers : Headers
headers = (text "authorization", b'B' ∷ b'e' ∷ b'a' ∷ b'r' ∷ b'e' ∷ b'r' ∷ b' ' ∷ b'e' ∷ []) ∷ []

abbrev body : EnrollRequest
body = record { display_name = []; tailscale_ipv4 = []; docker_engine_id = [] }

abbrev answered : EnrollResponse
answered = record {
  agent_id = b'a' ∷ b'g' ∷ b't' ∷ b'_' ∷ b'c' ∷ [];
  agent_token = b's' ∷ [];
  heartbeat_interval_seconds = 20;
  lease_ttl_seconds = 90;
}

abbrev path : Text
path = text "/heartbeat"

abbrev url : Text
url = text "http://c:8080/"

enrolled_client-verifies_example :
    verify_bearer clock plain
      (arrived (agent_request Method.post path (new url answered.agent_id (b's' ∷ []))))
      answered.agent_id
      (enroll clock plain headers body (b'c' ∷ []) (b's' ∷ []) [] 7 state).1
    ≡ (ok tt, (enroll clock plain headers body (b'c' ∷ []) (b's' ∷ []) [] 7 state).1)
unfolding enroll bearer_token get list_eq text to_str strip_prefix consume_enrollment_token
    consume_fetched unused_tokens mark_used verify_token enroll_agent hash_token agent_row new_state
enrolled_client-verifies_example =
    enrolled_client-verifies clock plain headers body (b'c' ∷ []) (b's' ∷ []) [] 7 state answered
      url path Method.post plain-IsArgon2 refl refl
