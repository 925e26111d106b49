-- ===== src/Agent.antt =====
-- crates/tailsvc-agent: the routes that an agent registers and serves, and how it survives failures.
pub mod StaticRoutes
pub mod Probe
pub mod Reconcile
pub mod Tailscale
pub mod Loop
pub mod Client
pub mod Start
mod Tests
use tailroute.Base.{Bool, false, ◌&&◌, if◌then◌else◌}
use tailroute.Base.Text.{Text, text, split_first, contains_text}

-- crates/tailsvc-agent/src/ready.rs
pub record AgentReady : Type 0 where
  pub tailscale_ok : Bool
  pub docker_ok : Bool
  pub proxy_ok : Bool
  pub enrolled : Bool
  pub initial_reconcile : Bool

abbrev pub not_ready : AgentReady
not_ready = record {
  tailscale_ok = false;
  docker_ok = false;
  proxy_ok = false;
  enrolled = false;
  initial_reconcile = false;
}

pub is_ready : AgentReady → Bool
is_ready r = r.tailscale_ok && (r.docker_ok && (r.proxy_ok && (r.enrolled && r.initial_reconcile)))

-- The answer of the status server: the status line's code and the body. A text is what the request
-- begins with.
pub status_answer : AgentReady → Text → Text × Text
status_answer ready req =
    if contains_text (text " /ready") (split_first 10 req)
    then if is_ready ready
      then (text "200 OK", text "ready")
      else (text "503 Service Unavailable", text "not ready")
    else (text "200 OK", text "ok")
