-- ===== src/Agent/StaticRoutes.antt =====
-- crates/tailsvc-agent/src/static_routes.rs. What the agent registers: the table of its proxy, and
-- the entries and references that it sends to the controller.
use tailroute.Base.{
  ℕ, ◌+◌, Result, ok, err, not, none, some, List, [], ◌∷◌, ◌++◌, retain, is_empty, if◌then◌else◌,
}
use tailroute.Base.Keys.{◌==◌, list_key, nat_key}
use tailroute.Base.Text.{Text, text}
use tailroute.Base.Table.{Table, insert, contains_key}
use tailroute.Common.Hostname.{normalize_hostname}
use tailroute.Common.Backend.{Backend, Url, parse_backend_url, base_url, fingerprint}
use tailroute.Common.Api.{RouteEntry, HeartbeatRouteRef}
use tailroute.Proxy.Routes.{BackendRoute}

pub record StaticRouteConfig : Type 0 where
  pub hosts : List Text
  pub backend : Text

pub record PreparedStaticRoute : Type 0 where
  pub hosts : List Text
  pub backend : Backend
  pub backend_url : Text

module _ (domain_to_ascii : Text → Result Text Text) (url_parse : Text → Result Url Text) where
  -- The loop over the hosts of an entry; one that is invalid is passed over.
  unfoldable pub valid_hosts : List Text → List Text
  valid_hosts [] = []
  valid_hosts (h ∷ hosts) = elim (normalize_hostname domain_to_ascii h) [
    | err _ ↦ valid_hosts hosts
    | ok n ↦ n.as_str ∷ valid_hosts hosts
  ]

  unfoldable pub prepare_static_routes : List StaticRouteConfig → List PreparedStaticRoute
  unfolding valid_hosts
  prepare_static_routes [] = []
  prepare_static_routes (e ∷ entries) =
      let rest = prepare_static_routes entries in
      elim (parse_backend_url url_parse e.backend) [
        | err _ ↦ rest
        | ok backend ↦
            let hosts = valid_hosts e.hosts in
            if is_empty hosts
            then rest
            else record { hosts = hosts; backend = backend; backend_url = base_url backend } ∷ rest
      ]

pub record Tables : Type 0 where
  pub local : Table Text BackendRoute
  pub api_routes : List RouteEntry
  pub hb_refs : List HeartbeatRouteRef

-- One host's three entries.
unfoldable pub add_route : Text → Text → BackendRoute → Tables → Tables
add_route host url route t = record {
  local = insert host route t.local;
  api_routes =
      t.api_routes
      ++ record {
        hostname = host;
        backend = url;
        container_id = route.container_id;
        container_name = route.container_name;
      }
        ∷ [];
  hb_refs =
      t.hb_refs ++ record { hostname = host; backend_fingerprint = fingerprint route.backend } ∷ [];
}

-- What is registered for the host already gives way.
unfoldable pub override_route : Text → Text → BackendRoute → Tables → Tables
override_route host url route t = add_route host url route (
    if contains_key host t.local
    then record t {
      api_routes = retain (λ r. not (r.hostname == host)) t.api_routes;
      hb_refs = retain (λ r. not (r.hostname == host)) t.hb_refs;
    }
    else t)

abbrev pub static_route : PreparedStaticRoute → BackendRoute
static_route sr = record {
  backend = sr.backend;
  container_id = none;
  container_name = some (text "static");
}

-- The counts of hosts written and of hosts overridden.
pub record Counted : Type 0 where
  pub tables : Tables
  pub written : ℕ
  pub overridden : ℕ

unfoldable pub apply_hosts : PreparedStaticRoute → List Text → Counted → Counted
apply_hosts sr [] c = c
apply_hosts sr (host ∷ hosts) c = apply_hosts sr hosts (record {
  tables = override_route host sr.backend_url (static_route sr) c.tables;
  written = c.written + 1;
  overridden = if contains_key host c.tables.local then c.overridden + 1 else c.overridden;
})

unfoldable pub apply_routes : List PreparedStaticRoute → Counted → Counted
apply_routes [] c = c
apply_routes (sr ∷ static_routes) c = apply_routes static_routes (apply_hosts sr sr.hosts c)

unfoldable pub apply_static_routes : List PreparedStaticRoute → Tables → Counted
apply_static_routes static_routes t =
    apply_routes static_routes (record { tables = t; written = 0; overridden = 0 })
