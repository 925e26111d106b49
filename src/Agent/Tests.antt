-- ===== src/Agent/Tests.antt =====
-- The theorems on the agent at one container and one enabled service of the same hostname.
use tailroute.Base.{
  length, ◌*◌, ◌+◌, ◌≤◌, true, false, Option, or_else, ◌+◌, ◌≡◌, ◌≤◌, arith, Result, ok, err, none,
  some, [], ◌∷◌,
}
use tailroute.Base.Keys.{list_key, nat_key}
use tailroute.Base.Text.{Text, text}
use tailroute.Base.Table.{get}
use tailroute.Common.Api.{DesiredServicesResponse}
use tailroute.Agent.StaticRoutes.{prepare_static_routes}
use tailroute.Agent.Reconcile.Precedence.{
  static_of, enabled_of, labelled_route, build_tables_precedence,
}
use tailroute.Agent.Loop.{
  LoopState, World, on_event, on_heartbeat, reconciled, entered, event, periodic, heartbeat, Wakes,
  start, then_wake,
}
use tailroute.Agent.Loop.Delays.{InBounds, loop-InBounds}
use tailroute.Agent.Loop.Events.{performed, history, unhandled, IsDue, no_event_lost}
use tailroute.Common.Backend.{Url}
use tailroute.Docker.{DiscoveredService}
use tailroute.Agent.Probe.{Outcomes}
use tailroute.Agent.Reconcile.{AgentRun, Answers, build_tables, reconcile_with_backoff}
use tailroute.Agent.Reconcile.Agree.{AgreeAt, build_tables_agree}
use tailroute.Agent.Reconcile.Backoff.{IsBounded, probed_by, reconcile-IsBounded}

abbrev encode : Text → Result Text Text
encode t = ok t

abbrev url : Text → Result Url Text
url t = ok (record {
  scheme = b'h' ∷ b't' ∷ b't' ∷ b'p' ∷ [];
  username = [];
  password = none;
  path = [];
  query = none;
  host_str = some t;
  port = none;
})

abbrev service : DiscoveredService
service = record {
  container_id = b'i' ∷ [];
  container_name = b'c' ∷ [];
  labels = record {
    hosts = record { as_str = b'x' ∷ [] } ∷ [];
    port = none;
    backend = some (record { host = b'h' ∷ []; port = 81 });
    network = none;
  };
  network_mode = none;
  published_ports = [];
  networks = [];
  exposed_ports = [];
}

abbrev agent : AgentRun
agent = record {
  static_routes = record { hosts = (b's' ∷ []) ∷ []; backend = b'k' ∷ [] } ∷ [];
  routes = record { inner = [] };
  tailscale_ip = [];
  controller_backoff = 500;
  tcp_probe_on_register = true;
}

-- No backend is reached.
abbrev unreachable : Outcomes
unreachable call backend attempt = false

-- The controller is out of reach.
abbrev answers : Answers
answers = record {
  candidates = err [];
  services = ok (service ∷ []);
  desired = err [];
  put = λ req. err [];
  tcp_probe = unreachable;
}

build_tables_agree_example :
    AgreeAt (b'x' ∷ []) (build_tables encode url agent.static_routes (service ∷ []) (err []))
build_tables_agree_example =
    build_tables_agree (b'x' ∷ []) encode url agent.static_routes (service ∷ []) (err [])

reconcile-IsBounded_example :
    IsBounded (reconcile_with_backoff encode url answers (ok (service ∷ [])) unreachable agent).0
    × ((reconcile_with_backoff encode url answers (ok (service ∷ [])) unreachable agent).1
        ≤ 30000
          + 1600
            * (length (probed_by encode url agent answers.services)
                + length (probed_by encode url agent (ok (service ∷ [])))))
reconcile-IsBounded_example =
    reconcile-IsBounded encode url answers (ok (service ∷ [])) unreachable agent
      (omega arith, omega arith)

-- The admin has enabled a service under the container's hostname.
abbrev desired : DesiredServicesResponse
desired = record {
  services =
      record {
        id = [];
        identity_key = [];
        hostnames = (b'x' ∷ []) ∷ [];
        backend = b'e' ∷ [];
        container_name = none;
      }
      ∷ [];
}

build_tables_precedence_example :
    get (b'x' ∷ []) (build_tables encode url agent.static_routes (service ∷ []) (ok desired)).local
    ≡ or_else (static_of (b'x' ∷ []) (prepare_static_routes encode url agent.static_routes)) (
        or_else
          (enabled_of url (b'x' ∷ []) (ok desired))
          (labelled_route (b'x' ∷ []) (service ∷ [])))
build_tables_precedence_example =
    build_tables_precedence (b'x' ∷ []) encode url agent.static_routes (service ∷ []) (ok desired)

abbrev world : World
world = record { answers = answers; again = ok []; tcp_probe = unreachable }

abbrev entered_state : LoopState
entered_state = entered encode url world agent

abbrev stopped : Option Text
stopped = some (text "stop")

-- A reconciliation, then a container that stops, then a failed heartbeat.
abbrev wakes : Wakes encode url entered_state (
    on_heartbeat encode url
      (err [])
      (on_event stopped 70 (reconciled encode url world entered_state)))
wakes =
    then_wake (then_wake (then_wake start (periodic _ world)) (event _ stopped 70))
      (heartbeat _ (err []))

no_event_lost_example :
    ((on_heartbeat encode url
        (err [])
        (on_event stopped 70 (reconciled encode url world entered_state))).run
      ≡ performed encode url (history wakes) entered_state.run)
    × IsDue
        (unhandled (history wakes))
        (on_heartbeat encode url
          (err [])
          (on_event stopped 70 (reconciled encode url world entered_state))).debounce
no_event_lost_example = no_event_lost wakes

loop-InBounds_example : InBounds (
    on_heartbeat encode url
      (err [])
      (on_event stopped 70 (reconciled encode url world entered_state)))
loop-InBounds_example = loop-InBounds world agent (omega arith, omega arith) wakes
