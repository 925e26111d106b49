-- ===== src/Agent/Reconcile.antt =====
-- crates/tailsvc-agent/src/reconcile.rs: a reconciliation, on the answers of Docker and of the
-- controller, which are arguments.
pub mod Agree
pub mod Precedence
pub mod Backoff
use tailroute.Base.{
  ℕ, ◌+◌, ◌*◌, Result, ok, err, Bool, false, not, ◌||◌, Option, none, some, List, [], ◌∷◌, ◌++◌,
  map, leb, or_else, if◌then◌else◌,
}
use tailroute.Base.Keys.{list_key, nat_key}
use tailroute.Base.Text.{Text, text, contains, ends_with, to_ascii_lowercase}
use tailroute.Base.Table.{Table, insert}
use tailroute.Common.Hostname.{NormalizedHostname}
use tailroute.Common.Backend.{Backend, Url, parse_backend_url, base_url}
use tailroute.Common.Api.{
  RouteEntry, HeartbeatRouteRef, HeartbeatRequest, PutRoutesRequest, PutRoutesResponse,
  DiscoveredContainerDto, DiscoveryReportRequest, DesiredEnabledService, DesiredServicesResponse,
}
use tailroute.Docker.{DiscoveredService}
use tailroute.Docker.Resolve.{resolve_backend, backend_url}
use tailroute.Docker.Candidate.{ContainerCandidate, to_dto}
use tailroute.Agent.Probe.{Outcomes, probe_backends, probed}
use tailroute.Proxy.Routes.{BackendRoute, SharedRouteStore, replace}
use tailroute.Agent.StaticRoutes.{
  StaticRouteConfig, PreparedStaticRoute, Tables, Counted, add_route, override_route,
  prepare_static_routes, apply_static_routes,
}

-- Durations are in milliseconds.
abbrev pub controller_backoff_base : ℕ
controller_backoff_base = 500

abbrev pub controller_backoff_max : ℕ
controller_backoff_max = 30000

pub record AgentRun : Type 0 where
  pub static_routes : List StaticRouteConfig
  pub routes : SharedRouteStore
  pub tailscale_ip : Text
  pub controller_backoff : ℕ
  pub tcp_probe_on_register : Bool

-- A request that the client sends.
pub data ClientCall : Type 0 where
  put_discovery : DiscoveryReportRequest → ClientCall
  put_routes : PutRoutesRequest → ClientCall
  heartbeat : HeartbeatRequest → ClientCall

-- What Docker and the controller answer in one reconciliation; an error is its text.
pub record Answers : Type 0 where
  pub candidates : Result (List ContainerCandidate) Text
  pub services : Result (List DiscoveredService) Text
  pub desired : Result DesiredServicesResponse Text
  pub put : PutRoutesRequest → Result PutRoutesResponse Text
  pub tcp_probe : Outcomes

abbrev pub no_tables : Tables
no_tables = record { local = []; api_routes = []; hb_refs = [] }

abbrev pub service_route : DiscoveredService → Backend → BackendRoute
service_route svc backend = record {
  backend = backend;
  container_id = some svc.container_id;
  container_name = some svc.container_name;
}

unfoldable pub add_hosts : DiscoveredService → Backend → List NormalizedHostname → Tables → Tables
add_hosts svc backend [] t = t
add_hosts svc backend (host ∷ hosts) t =
    add_hosts svc backend hosts
      (add_route host.as_str (backend_url backend) (service_route svc backend) t)

-- The loop over the labelled containers; one without a backend is passed over.
unfoldable pub add_services : List DiscoveredService → Tables → Tables
add_services [] t = t
add_services (svc ∷ services) t = elim (resolve_backend svc) [
  | err _ ↦ add_services services t
  | ok backend ↦ add_services services (add_hosts svc backend svc.labels.hosts t)
]

abbrev pub enabled_route : DesiredEnabledService → Backend → BackendRoute
enabled_route d backend = record {
  backend = backend;
  container_id = none;
  container_name = or_else d.container_name (some (text "enabled"));
}

unfoldable pub enable_hosts : DesiredEnabledService → Backend → List Text → Tables → Tables
enable_hosts d backend [] t = t
enable_hosts d backend (host ∷ hosts) t =
    enable_hosts d backend hosts
      (override_route host (base_url backend) (enabled_route d backend) t)

-- The loops of `refresh_local_routes`, which fill the proxy's table only.
unfoldable pub insert_hosts :
    DiscoveredService
    → Backend
    → List NormalizedHostname
    → Table Text BackendRoute
    → Table Text BackendRoute
insert_hosts svc backend [] local = local
insert_hosts svc backend (host ∷ hosts) local =
    insert_hosts svc backend hosts (insert host.as_str (service_route svc backend) local)

unfoldable pub insert_services :
    List DiscoveredService → Table Text BackendRoute → Table Text BackendRoute
insert_services [] local = local
insert_services (svc ∷ services) local = elim (resolve_backend svc) [
  | err _ ↦ insert_services services local
  | ok backend ↦ insert_services services (insert_hosts svc backend svc.labels.hosts local)
]

unfoldable pub bump_controller_backoff : AgentRun → AgentRun
bump_controller_backoff a =
    let b = a.controller_backoff * 2 in
    record a {
      controller_backoff = if leb b controller_backoff_max then b else controller_backoff_max;
    }

-- The branch of `loop_forever` for the heartbeat's tick.
unfoldable pub heartbeat_tick : Result Unit Text → AgentRun → AgentRun
heartbeat_tick (err _) a = bump_controller_backoff a
heartbeat_tick (ok _) a = record a { controller_backoff = controller_backoff_base }

module _ (domain_to_ascii : Text → Result Text Text) (url_parse : Text → Result Url Text) where
  -- The loop over the services that the admin has enabled.
  unfoldable pub enable_services : List DesiredEnabledService → Tables → Tables
  enable_services [] t = t
  enable_services (d ∷ services) t = elim (parse_backend_url url_parse d.backend) [
    | err _ ↦ enable_services services t
    | ok backend ↦ enable_services services (enable_hosts d backend d.hostnames t)
  ]

  unfoldable pub enable_desired : Result DesiredServicesResponse Text → Tables → Tables
  enable_desired (err _) t = t
  enable_desired (ok desired) t = enable_services desired.services t

  -- The tables of a reconciliation: labels, then enabled services, then static routes.
  unfoldable pub build_tables :
      List StaticRouteConfig → List DiscoveredService → Result DesiredServicesResponse Text → Tables
  build_tables static_routes services desired =
      (apply_static_routes (prepare_static_routes domain_to_ascii url_parse static_routes)
        (enable_desired desired (add_services services no_tables))).tables

  unfoldable pub report_discovery : Result (List ContainerCandidate) Text → List ClientCall
  report_discovery (err _) = []
  report_discovery (ok cands) = put_discovery (record { services = map to_dto cands }) ∷ []

  -- After the controller's answer to the routes; the answer to the heartbeat is not looked at.
  unfoldable pub conclude :
      List HeartbeatRouteRef
      → List ClientCall
      → AgentRun
      → Result PutRoutesResponse Text
      → Result Unit Text × AgentRun × List ClientCall
  conclude hb_refs sent a (err e) = (err e, a, sent)
  conclude hb_refs sent a (ok _) = (
    ok tt,
    a,
    sent ++ heartbeat (record { tailscale_ipv4 = a.tailscale_ip; routes = hb_refs }) ∷ [],
  )

  -- The proxy's table is replaced before the controller is asked.
  unfoldable pub sync_services :
      Answers
      → List ClientCall
      → AgentRun
      → Result (List DiscoveredService) Text
      → Result Unit Text × AgentRun × List ClientCall
  sync_services w sent a (err e) = (err e, a, sent)
  sync_services w sent a (ok services) =
      let t = build_tables a.static_routes services w.desired in
      let req : PutRoutesRequest = record { routes = t.api_routes } in
      conclude t.hb_refs (sent ++ put_routes req ∷ [])
        (record a { routes = replace a.routes t.local }) (w.put req)

  -- The answer, the new state, and the requests sent, in order. The answer to the discovery report
  -- is not looked at.
  unfoldable pub reconcile_once : Answers → AgentRun → Result Unit Text × AgentRun × List ClientCall
  reconcile_once w a = sync_services w (report_discovery w.candidates) a w.services

  unfoldable pub refresh_local_routes :
      Result (List DiscoveredService) Text → AgentRun → Result Unit Text × AgentRun
  refresh_local_routes (err e) a = (err e, a)
  refresh_local_routes (ok services) a =
      let t : Tables = record {
        local = insert_services services [];
        api_routes = [];
        hb_refs = [];
      } in
      let c =
        apply_static_routes (prepare_static_routes domain_to_ascii url_parse a.static_routes) t in
      (ok tt, record a { routes = replace a.routes c.tables.local })

  -- The time that the probes of a pass over Docker's answer sleep.
  abbrev pub probe_time : Outcomes → AgentRun → Result (List DiscoveredService) Text → ℕ
  probe_time outcomes a services =
      probe_backends outcomes 0
        (probed domain_to_ascii url_parse a.tcp_probe_on_register a.static_routes services)

  -- `again` is Docker's answer when the local routes are refreshed, and `outcomes` those of the probes
  -- then; the second component is the time slept.
  unfoldable pub after_reconcile :
      Result (List DiscoveredService) Text → Outcomes → AgentRun → Result Unit Text → AgentRun × ℕ
  after_reconcile again outcomes a (ok _) =
      (record a { controller_backoff = controller_backoff_base }, 0)
  after_reconcile again outcomes a (err _) = (
    (refresh_local_routes again (bump_controller_backoff a)).1,
    a.controller_backoff + probe_time outcomes a again,
  )

  unfoldable pub reconcile_with_backoff :
      Answers → Result (List DiscoveredService) Text → Outcomes → AgentRun → AgentRun × ℕ
  reconcile_with_backoff w again outcomes a =
      let (r, a', sent) = reconcile_once w a in
      let (a'', slept) = after_reconcile again outcomes a' r in
      (a'', probe_time w.tcp_probe a w.services + slept)

pub looks_like_public_domain : Text → Bool
looks_like_public_domain host =
    if not (contains b'.' host)
    then false
    else (let lower = to_ascii_lowercase host in
        not (
          ends_with (text ".internal") lower
          || (ends_with (text ".local") lower
              || (ends_with (text ".localhost") lower
                  || (ends_with (text ".test") lower
                      || (ends_with (text ".lan") lower
                          || (ends_with (text ".home") lower
                              || ends_with (text ".corp") lower)))))))
