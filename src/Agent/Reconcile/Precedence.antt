-- ===== src/Agent/Reconcile/Precedence.antt =====
-- Which route the agent's proxy serves under a hostname that several sources name.
use tailroute.Base.{
  ◌≡◌, refl, ap, ◌∙◌, inl, inr, arith, Result, ok, err, Result-cases, to_option, Bool, true, false,
  Bool-cases, Option, none, some, List, [], ◌∷◌, map, or_else, and_then, if◌then◌else◌,
}
use tailroute.Base.Keys.{◌==◌, list_key, nat_key, member, member-cons}
use tailroute.Base.Text.{Text}
use tailroute.Base.Table.{get, contains_key, get-insert}
use tailroute.Common.Hostname.{NormalizedHostname}
use tailroute.Common.Backend.{Backend, Url, base_url, parse_backend_url}
use tailroute.Common.Api.{DesiredEnabledService, DesiredServicesResponse}
use tailroute.Docker.{DiscoveredService}
use tailroute.Docker.Resolve.{resolve_backend, backend_url}
use tailroute.Proxy.Routes.{BackendRoute}
use tailroute.Agent.StaticRoutes.{
  StaticRouteConfig, PreparedStaticRoute, Tables, Counted, add_route, override_route, static_route,
  prepare_static_routes, apply_hosts, apply_routes, apply_static_routes,
}
use tailroute.Agent.Reconcile.{
  no_tables, service_route, enabled_route, add_hosts, add_services, enable_hosts, enable_services,
  enable_desired, build_tables,
}

-- The route of the last source in a list that names a hostname, where each source has its hostnames
-- and, unless it is passed over, a route.
module _ {S : Type 0} (names : S → List Text) (route : S → Option BackendRoute) where
  abbrev pub last_route : Text → List S → Option BackendRoute
  last_route h [] = none
  last_route h (s ∷ sources) =
      or_else (last_route h sources) (if member h (names s) then route s else none)

abbrev pub host_names : List NormalizedHostname → List Text
host_names hosts = map (λ n. n.as_str) hosts

abbrev pub labelled_route : Text → List DiscoveredService → Option BackendRoute
labelled_route =
    last_route (λ svc. host_names svc.labels.hosts)
      (λ svc. and_then (to_option (resolve_backend svc)) (λ b. some (service_route svc b)))

abbrev pub static_of : Text → List PreparedStaticRoute → Option BackendRoute
static_of = last_route (λ sr. sr.hosts) (λ sr. some (static_route sr))

module _ (url_parse : Text → Result Url Text) where
  abbrev pub enabled_of : Text → Result DesiredServicesResponse Text → Option BackendRoute
  enabled_of h (err _) = none
  enabled_of h (ok desired) =
      last_route (λ d. d.hostnames)
        (λ d.
          and_then (to_option (parse_backend_url url_parse d.backend))
            (λ b. some (enabled_route d b)))
        h desired.services

module _ (h : Text) where
  get-override :
      (host url : Text) (route : BackendRoute) (t : Tables)
      → get h (override_route host url route t).local
        ≡ (if host == h then some route else get h t.local)
  unfolding override_route add_route
  get-override host url route t = elim (Bool-cases (contains_key host t.local)) [
    | inl has ↦ rw has (get-insert host h route t.local)
    | inr lacks ↦ rw lacks (get-insert host h route t.local)
  ]

  get-add_hosts :
      (svc : DiscoveredService) (backend : Backend) (hosts : List NormalizedHostname) (t : Tables)
      → get h (add_hosts svc backend hosts t).local
        ≡ (if member h (host_names hosts) then some (service_route svc backend) else get h t.local)
  unfolding add_hosts
  get-add_hosts svc backend [] t = unfold member in refl
  get-add_hosts svc backend (host ∷ hosts) t =
      get-add_hosts svc backend hosts
        (add_route host.as_str (backend_url backend) (service_route svc backend) t)
      ∙ unfold add_route in
        ground (
          arith,
          get-insert host.as_str h (service_route svc backend) t.local,
          member-cons h host.as_str (host_names hosts),
        )

  get-enable_hosts :
      (d : DesiredEnabledService) (backend : Backend) (hosts : List Text) (t : Tables)
      → get h (enable_hosts d backend hosts t).local
        ≡ (if member h hosts then some (enabled_route d backend) else get h t.local)
  unfolding enable_hosts
  get-enable_hosts d backend [] t = unfold member in refl
  get-enable_hosts d backend (host ∷ hosts) t =
      get-enable_hosts d backend hosts
        (override_route host (base_url backend) (enabled_route d backend) t)
      ∙ ground (
        arith,
        get-override host (base_url backend) (enabled_route d backend) t,
        member-cons h host hosts,
      )

  get-apply_hosts :
      (sr : PreparedStaticRoute) (hosts : List Text) (c : Counted)
      → get h (apply_hosts sr hosts c).tables.local
        ≡ (if member h hosts then some (static_route sr) else get h c.tables.local)
  unfolding apply_hosts
  get-apply_hosts sr [] c = unfold member in refl
  get-apply_hosts sr (host ∷ hosts) c =
      get-apply_hosts sr hosts _
      ∙ ground (
        arith,
        get-override host sr.backend_url (static_route sr) c.tables,
        member-cons h host hosts,
      )

  -- A later source over an earlier one.
  over :
      (later : Option BackendRoute) (b : Bool) (route : Option BackendRoute)
      (before : Option BackendRoute)
      → or_else later (if b then or_else route before else before)
        ≡ or_else (or_else later (if b then route else none)) before
  over none true route before = refl
  over none false route before = refl
  over (some r) b route before = refl

  over_none :
      (later : Option BackendRoute) (b : Bool) (before : Option BackendRoute)
      → or_else later before ≡ or_else (or_else later (if b then none else none)) before
  over_none none true before = refl
  over_none none false before = refl
  over_none (some r) b before = refl

  get-add_services :
      (services : List DiscoveredService) (t : Tables)
      → get h (add_services services t).local ≡ or_else (labelled_route h services) (get h t.local)
  unfolding add_services
  get-add_services [] t = refl
  get-add_services (svc ∷ services) t = elim (Result-cases (resolve_backend svc)) [
    | inr (e, n) ↦
        rw (n, add_services)
          (get-add_services services t
            ∙ over_none (labelled_route h services) (member h (host_names svc.labels.hosts))
                (get h t.local))
    | inl (backend, n) ↦
        rw (n, add_services)
          (get-add_services services _
            ∙ ap (or_else (labelled_route h services))
                (get-add_hosts svc backend svc.labels.hosts t)
            ∙ over (labelled_route h services) (member h (host_names svc.labels.hosts))
                (some (service_route svc backend)) (get h t.local))
  ]

  get-apply_routes :
      (routes : List PreparedStaticRoute) (c : Counted)
      → get h (apply_routes routes c).tables.local
        ≡ or_else (static_of h routes) (get h c.tables.local)
  unfolding apply_routes
  get-apply_routes [] c = refl
  get-apply_routes (sr ∷ routes) c =
      get-apply_routes routes _
      ∙ ap (or_else (static_of h routes)) (get-apply_hosts sr sr.hosts c)
      ∙ over (static_of h routes) (member h sr.hosts) (some (static_route sr))
          (get h c.tables.local)

  module _ (domain_to_ascii : Text → Result Text Text) (url_parse : Text → Result Url Text) where
    get-enable_services :
        (services : List DesiredEnabledService) (t : Tables)
        → get h (enable_services domain_to_ascii url_parse services t).local
          ≡ or_else (enabled_of url_parse h (ok (record { services = services }))) (get h t.local)
    unfolding enable_services
    get-enable_services [] t = refl
    get-enable_services (d ∷ services) t =
        elim (Result-cases (parse_backend_url url_parse d.backend)) [
          | inr (e, n) ↦
              rw (n, enable_services)
                (get-enable_services services t
                  ∙ over_none (enabled_of url_parse h (ok (record { services = services })))
                      (member h d.hostnames) (get h t.local))
          | inl (backend, n) ↦
              rw (n, enable_services)
                (get-enable_services services _
                  ∙ ap (or_else (enabled_of url_parse h (ok (record { services = services }))))
                      (get-enable_hosts d backend d.hostnames t)
                  ∙ over (enabled_of url_parse h (ok (record { services = services })))
                      (member h d.hostnames) (some (enabled_route d backend)) (get h t.local))
        ]

    get-enable_desired :
        (desired : Result DesiredServicesResponse Text) (t : Tables)
        → get h (enable_desired domain_to_ascii url_parse desired t).local
          ≡ or_else (enabled_of url_parse h desired) (get h t.local)
    unfolding enable_desired
    get-enable_desired (err e) t = refl
    get-enable_desired (ok desired) t = get-enable_services desired.services t

    -- The proxy of an agent serves a hostname by the last static route that names it; without one,
    -- by the last enabled service that names it and whose backend is readable; without one, by the
    -- last labelled container that names it and whose backend is found; and otherwise not at all.
    pub build_tables_precedence :
        (static_routes : List StaticRouteConfig) (services : List DiscoveredService)
        (desired : Result DesiredServicesResponse Text)
        → get h (build_tables domain_to_ascii url_parse static_routes services desired).local
          ≡ or_else
              (static_of h (prepare_static_routes domain_to_ascii url_parse static_routes))
              (or_else (enabled_of url_parse h desired) (labelled_route h services))
    unfolding build_tables apply_static_routes
    build_tables_precedence static_routes services desired =
        let prepared = prepare_static_routes domain_to_ascii url_parse static_routes in
        get-apply_routes prepared _
        ∙ ap (or_else (static_of h prepared)) (
            get-enable_desired desired (add_services services no_tables)
            ∙ ap (or_else (enabled_of url_parse h desired)) (
                get-add_services services no_tables
                ∙ unfold get in alone (labelled_route h services)))
      where
        alone : (o : Option BackendRoute) → or_else o none ≡ o
        alone none = refl
        alone (some r) = refl
