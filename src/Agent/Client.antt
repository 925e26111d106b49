-- ===== src/Agent/Client.antt =====
-- crates/tailsvc-agent/src/controller_client.rs: the requests, and how an answer is read. The sending
-- of a request, and the reading of a JSON body, are arguments.
pub mod Enrolled
mod Tests
use tailroute.Base.{ℕ, Result, ok, err, ◌&&◌, ◌++◌, leb, ltb, if◌then◌else◌}
use tailroute.Base.Text.{Text, text, trim_end_matches}

pub record ControllerClient : Type 0 where
  pub base : Text
  pub agent_id : Text
  pub token : Text

unfoldable pub new : Text → Text → Text → ControllerClient
unfolding trim_end_matches
new base agent_id token = record {
  base = trim_end_matches b'/' base;
  agent_id = agent_id;
  token = token;
}

pub data Method : Type 0 where
  get post put : Method

-- A request without its body.
pub record HttpRequest : Type 0 where
  pub method : Method
  pub url : Text
  pub authorization : Text

abbrev pub bearer : Text → Text
bearer token = text "Bearer " ++ token

unfoldable pub enroll_request : Text → Text → HttpRequest
unfolding trim_end_matches
enroll_request base enrollment_token = record {
  method = post;
  url = trim_end_matches b'/' base ++ text "/v1/agents/enroll";
  authorization = bearer enrollment_token;
}

-- A request on the agent's own part of the API.
abbrev pub agent_request : Method → Text → ControllerClient → HttpRequest
agent_request method path client = record {
  method = method;
  url = client.base ++ (text "/v1/agents/" ++ (client.agent_id ++ path));
  authorization = bearer client.token;
}

unfoldable pub heartbeat : ControllerClient → HttpRequest
heartbeat = agent_request post (text "/heartbeat")

unfoldable pub put_routes : ControllerClient → HttpRequest
put_routes = agent_request put (text "/routes")

unfoldable pub put_discovery : ControllerClient → HttpRequest
put_discovery = agent_request put (text "/discovery")

unfoldable pub desired_services : ControllerClient → HttpRequest
desired_services = agent_request get (text "/desired-services")

-- A response: its status, and its body as read from JSON.
pub record HttpResponse (A : Type 0) : Type 0 where
  pub status : ℕ
  pub json : Result A Text

-- What a call of the client returns; `what` names the call in the
-- error, before the status as `display` writes it.
unfoldable pub receive :
    {A : Type 0} → (ℕ → Text) → Text → Result (HttpResponse A) Text → Result A Text
receive display what (err e) = err e
receive display what (ok resp) =
    if leb 200 resp.status && ltb resp.status 300
    then resp.json
    else err (what ++ display resp.status)
