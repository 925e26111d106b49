-- ===== src/Controller/Overview.antt =====
-- What the admin's pages of crates/tailsvc-controller/src/api.rs show: the discovered containers and
-- the dashboard. The probe's outcome is a parameter.
use tailroute.Base.{
  ℕ, Result, ok, to_option, Bool, true, false, ◌||◌, ◌&&◌, Option, none, some, List, [], ◌∷◌, ◌++◌,
  map, ltb, is_empty, unwrap_or, if◌then◌else◌,
}
use tailroute.Base.Keys.{◌==◌, list_key, nat_key, pair_key}
use tailroute.Base.Text.{Text, text}
use tailroute.Base.Table.{Table, get, insert}
use tailroute.Base.Order.{text_lt, sort_by}
use tailroute.Common.Api.{
  DiscoveredContainerDto, AdminDiscoveryItem, AdminRouteHealthView, AdminDashboard,
}
use tailroute.Storage.{Rfc3339, EnabledServiceRecord}
use tailroute.Storage.Agents.{AgentRecord, list_agents}
use tailroute.Storage.Leases.{AdminRoute, list_routes_admin}
use tailroute.Storage.Enabled.{list_all_enabled, list_discovery_snapshots}
use tailroute.Controller.State.{AppState, ApiError, Handler, ◌>>◌, Headers, check_admin, agent_ttl}
use tailroute.Controller.Agents.{Json}
use tailroute.Controller.Probe.{ProbeResult}
use tailroute.Controller.Admin.{agent_view, ip_by_agent}

-- The agents by their identifiers.
abbrev agent_meta : List AgentRecord → Table Text AgentRecord → Table Text AgentRecord
agent_meta [] table = table
agent_meta (a ∷ agents) table = agent_meta agents (insert a.agent_id a table)

-- The enabled services by agent and identity key.
abbrev enabled_by_key :
    List EnabledServiceRecord
    → Table (Text × Text) EnabledServiceRecord
    → Table (Text × Text) EnabledServiceRecord
enabled_by_key [] table = table
enabled_by_key (e ∷ enabled) table =
    enabled_by_key enabled (insert (e.agent_id, e.identity_key) e table)

abbrev name_of : Text → Option AgentRecord → Text
name_of agent_id none = agent_id
name_of agent_id (some m) = m.display_name

abbrev address_of : Option AgentRecord → Text
address_of none = []
address_of (some m) = m.tailscale_ipv4

-- `sort_by` on the agent's name, then the container's.
abbrev item_before : AdminDiscoveryItem → AdminDiscoveryItem → Bool
item_before a b =
    text_lt a.agent_name b.agent_name
    || ((a.agent_name == b.agent_name) && text_lt a.container_name b.container_name)

module _ (json : Json) (services_from_str : Text → Result (List DiscoveredContainerDto) Text) where
  -- The flag, the identifier, the hostnames and the backend of the service, if it is enabled.
  unfoldable pub shown : Option EnabledServiceRecord → Bool × Option Text × List Text × Option Text
  shown none = (false, none, [], none)
  shown (some e) =
      if e.enabled
      then (
        true,
        some e.id,
        unwrap_or (to_option (json.hostnames_from_str e.hostnames_json)) [],
        some e.backend,
      )
      else (false, none, [], none)

  -- A discovered container, with the service that is enabled for it.
  unfoldable pub discovery_item :
      Text
      → Option AgentRecord
      → Text
      → DiscoveredContainerDto
      → Option EnabledServiceRecord
      → AdminDiscoveryItem
  unfolding shown
  discovery_item agent_id meta updated_at s en =
      let (flag, id, hostnames, backend) = shown en in
      record {
        agent_id = agent_id;
        agent_name = name_of agent_id meta;
        tailscale_ipv4 = address_of meta;
        identity_key = s.identity_key;
        container_id = s.container_id;
        container_name = s.container_name;
        image = s.image;
        suggested_backend = s.suggested_backend;
        published_ports = s.published_ports;
        exposed_ports = s.exposed_ports;
        has_tailsvc_labels = s.has_tailsvc_labels;
        enabled = flag;
        enabled_id = id;
        hostnames = hostnames;
        backend = backend;
        discovery_updated_at = some updated_at;
      }

  module _ (agents : Table Text AgentRecord)
      (enabled : Table (Text × Text) EnabledServiceRecord) where
    -- The inner loop: the containers of one snapshot.
    unfoldable pub snapshot_items :
        Text → Text → List DiscoveredContainerDto → List AdminDiscoveryItem
    unfolding discovery_item
    snapshot_items agent_id updated_at services =
        map
          (λ s.
            discovery_item agent_id (get agent_id agents) updated_at s
              (get (agent_id, s.identity_key) enabled))
          services

    -- The loop over the snapshots.
    unfoldable pub discovery_items : List (Text × Text × Text) → List AdminDiscoveryItem
    unfolding snapshot_items
    discovery_items [] = []
    discovery_items ((agent_id, payload, updated_at) ∷ snaps) =
        snapshot_items agent_id updated_at (unwrap_or (to_option (services_from_str payload)) [])
        ++ discovery_items snaps

  abbrev pub listed : Rfc3339 → ℕ → AppState → Result (List AdminDiscoveryItem) ApiError
  listed chrono now st = ok (
      sort_by item_before (
        discovery_items (agent_meta (list_agents chrono now st.storage) [])
          (enabled_by_key (list_all_enabled st.storage) []) (list_discovery_snapshots st.storage)))

  unfoldable pub admin_discovery : Rfc3339 → Headers → ℕ → ℕ → Handler (List AdminDiscoveryItem)
  admin_discovery chrono headers instant now = do
    check_admin headers instant
    (λ st. (listed chrono now st, st))

-- `probe` is the outcome of `probe_via_agent` for an address and a hostname.
module _ (probe : Text → Text → ProbeResult) where
  abbrev health_view : ℕ → Table Text Text → AdminRoute → AdminRouteHealthView
  health_view now ips r =
      let ts_ip = unwrap_or (get r.agent_id ips) [] in
      let p : ProbeResult =
        if is_empty ts_ip
        then record { status = text "skipped"; ms = none; detail = some (text "no agent ip") }
        else probe ts_ip r.hostname in
      record {
        hostname = r.hostname;
        agent_id = r.agent_id;
        tailscale_ipv4 = ts_ip;
        backend = r.backend;
        container_id = r.container_id;
        container_name = r.container_name;
        lease_expires_at = r.expires;
        registration = if ltb now r.expires then text "healthy" else text "stale";
        http_probe = p.status;
        probe_ms = p.ms;
        probe_detail = p.detail;
      }

  abbrev pub dashboard : Rfc3339 → ℕ → AppState → Result AdminDashboard ApiError
  dashboard chrono now st = ok (record {
    routes =
        map (health_view now (ip_by_agent (list_agents chrono now st.storage) []))
          (list_routes_admin chrono (agent_ttl st) now st.storage);
    agents = map (agent_view chrono (agent_ttl st) now) (list_agents chrono now st.storage);
  })

  unfoldable pub admin_dashboard : Rfc3339 → Headers → ℕ → ℕ → Handler AdminDashboard
  admin_dashboard chrono headers instant now = do
    check_admin headers instant
    (λ st. (dashboard chrono now st, st))
