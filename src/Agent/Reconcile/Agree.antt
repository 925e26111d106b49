-- ===== src/Agent/Reconcile/Agree.antt =====
-- The agent's own table and what it sends to the controller: what
-- crates/tailsvc-agent/src/reconcile.rs and src/static_routes.rs keep in step.
use tailroute.Base.{
  ◌≡◌, refl, ap, inl, inr, arith, Result, ok, err, Result-cases, true, false, not, Bool-cases,
  Option, none, some, List, [], ◌∷◌, ◌++◌, retain, or_else, is_empty, if◌then◌else◌,
}
use mathlib.Core.Option
use tailroute.Base.Keys.{◌==◌, list_key, nat_key, list_eq_iff}
use tailroute.Base.Text.{Text}
use tailroute.Base.Table.{get, contains_key, get-insert}
use tailroute.Common.Hostname.{NormalizedHostname}
use tailroute.Common.Backend.{Backend, Url, base_url, fingerprint, parse_backend_url}
use tailroute.Common.Api.{
  RouteEntry, HeartbeatRouteRef, DesiredEnabledService, DesiredServicesResponse,
}
use tailroute.Docker.{DiscoveredService}
use tailroute.Docker.Resolve.{resolve_backend, backend_url}
use tailroute.Proxy.Routes.{BackendRoute}
use tailroute.Agent.StaticRoutes.{
  StaticRouteConfig, PreparedStaticRoute, Tables, Counted, add_route, override_route, static_route,
  prepare_static_routes, valid_hosts, apply_hosts, apply_routes, apply_static_routes,
}
use tailroute.Agent.Reconcile.{
  no_tables, service_route, enabled_route, add_hosts, add_services, enable_hosts, enable_services,
  enable_desired, build_tables,
}

-- The last element with a hostname, which is the one that the controller keeps.
module _ {A : Type 0} (name : A → Text) where
  abbrev pub latest : Text → List A → Option A
  latest h [] = none
  latest h (x ∷ xs) = or_else (latest h xs) (if name x == h then some x else none)

  latest-append :
      (h : Text) (x : A) (xs : List A)
      → latest h (xs ++ x ∷ []) ≡ (if name x == h then some x else latest h xs)
  latest-append h x [] = refl
  latest-append h x (y ∷ ys) = ground (arith, latest-append h x ys)

  latest-retain :
      (h host : Text) (xs : List A)
      → latest h (retain (λ x. not (name x == host)) xs) ≡ (if host == h then none else latest h xs)
  latest-retain h host [] = ground arith
  latest-retain h host (x ∷ xs) = ground (
    arith,
    latest-retain h host xs,
    list_eq_iff (name x) h,
    list_eq_iff (name x) host,
    list_eq_iff host h,
  )

-- The entry and the reference that stand for a route of the proxy.
abbrev pub entry_of : Text → BackendRoute → RouteEntry
entry_of h route = record {
  hostname = h;
  backend = base_url route.backend;
  container_id = route.container_id;
  container_name = route.container_name;
}

abbrev pub ref_of : Text → BackendRoute → HeartbeatRouteRef
ref_of h route = record { hostname = h; backend_fingerprint = fingerprint route.backend }

-- The last entry and the last reference of a hostname are those of the proxy's route.
abbrev pub AgreeAt : Text → Tables → Type 0
AgreeAt h t =
    (latest (λ r. r.hostname) h t.api_routes ≡ Option.map (entry_of h) (get h t.local))
    × (latest (λ r. r.hostname) h t.hb_refs ≡ Option.map (ref_of h) (get h t.local))

add_route-here :
    (host : Text) (route : BackendRoute) (t : Tables) (h : Text)
    → (host == h) ≡ true
    → AgreeAt h (add_route host (base_url route.backend) route t)
unfolding add_route
add_route-here host route t h here =
    let same : host ≡ h = (list_eq_iff host h).0 here in
    rw
      (
        latest-append (λ (r : RouteEntry). r.hostname) h,
        latest-append (λ (r : HeartbeatRouteRef). r.hostname) h,
        get-insert host h,
        here,
      )
      (ap (λ n. some (entry_of n route)) same, ap (λ n. some (ref_of n route)) same)

add_route-other :
    (host url : Text) (route : BackendRoute) (t : Tables) (h : Text)
    → (host == h) ≡ false
    → AgreeAt h t
    → AgreeAt h (add_route host url route t)
unfolding add_route
add_route-other host url route t h other agree =
    rw
      (
        latest-append (λ (r : RouteEntry). r.hostname) h,
        latest-append (λ (r : HeartbeatRouteRef). r.hostname) h,
        get-insert host h,
        other,
      )
      agree

add_route-AgreeAt :
    (host : Text) (route : BackendRoute) (t : Tables) (h : Text)
    → AgreeAt h t
    → AgreeAt h (add_route host (base_url route.backend) route t)
add_route-AgreeAt host route t h agree = elim (Bool-cases (host == h)) [
  | inl here ↦ add_route-here host route t h here
  | inr other ↦ add_route-other host (base_url route.backend) route t h other agree
]

override_route-AgreeAt :
    (host : Text) (route : BackendRoute) (t : Tables) (h : Text)
    → AgreeAt h t
    → AgreeAt h (override_route host (base_url route.backend) route t)
unfolding override_route
override_route-AgreeAt host route t h agree = elim (Bool-cases (host == h)) [
  | inl here ↦ add_route-here host route _ h here
  | inr other ↦ elim (Bool-cases (contains_key host t.local)) [
    | inl has ↦ rw has (
        add_route-other host (base_url route.backend) route _ h other (
          rw
            (
              latest-retain (λ (r : RouteEntry). r.hostname) h host,
              latest-retain (λ (r : HeartbeatRouteRef). r.hostname) h host,
              other,
            )
            agree))
    | inr lacks ↦ rw lacks (add_route-other host (base_url route.backend) route t h other agree)
  ]
]

module _ (h : Text) where
  add_hosts-AgreeAt :
      (svc : DiscoveredService) (backend : Backend) (hosts : List NormalizedHostname) (t : Tables)
      → AgreeAt h t
      → AgreeAt h (add_hosts svc backend hosts t)
  unfolding add_hosts
  add_hosts-AgreeAt svc backend [] t agree = agree
  add_hosts-AgreeAt svc backend (host ∷ hosts) t agree =
      add_hosts-AgreeAt svc backend hosts _ (
        same_url backend host (add_route-AgreeAt host.as_str (service_route svc backend) t h agree))
    where
      same_url :
          (backend : Backend) (host : NormalizedHostname)
          → AgreeAt h (add_route host.as_str (base_url backend) (service_route svc backend) t)
          → AgreeAt h (add_route host.as_str (backend_url backend) (service_route svc backend) t)
      same_url backend host agree = unfold backend_url base_url in agree

  enable_hosts-AgreeAt :
      (d : DesiredEnabledService) (backend : Backend) (hosts : List Text) (t : Tables)
      → AgreeAt h t
      → AgreeAt h (enable_hosts d backend hosts t)
  unfolding enable_hosts
  enable_hosts-AgreeAt d backend [] t agree = agree
  enable_hosts-AgreeAt d backend (host ∷ hosts) t agree =
      enable_hosts-AgreeAt d backend hosts _
        (override_route-AgreeAt host (enabled_route d backend) t h agree)

  add_services-AgreeAt :
      (services : List DiscoveredService) (t : Tables)
      → AgreeAt h t
      → AgreeAt h (add_services services t)
  unfolding add_services
  add_services-AgreeAt [] t agree = agree
  add_services-AgreeAt (svc ∷ services) t agree = elim (Result-cases (resolve_backend svc)) [
    | inr (e, n) ↦ rw (n, add_services) (add_services-AgreeAt services t agree)
    | inl (backend, n) ↦
        rw (n, add_services)
          (add_services-AgreeAt services _ (add_hosts-AgreeAt svc backend svc.labels.hosts t agree))
  ]

  -- A prepared route's URL is that of its backend.
  abbrev IsPrepared : List PreparedStaticRoute → Type 0
  IsPrepared [] = Unit
  IsPrepared (sr ∷ routes) = (sr.backend_url ≡ base_url sr.backend) × IsPrepared routes

  apply_hosts-AgreeAt :
      (sr : PreparedStaticRoute) (hosts : List Text) (c : Counted)
      → sr.backend_url ≡ base_url sr.backend
      → AgreeAt h c.tables
      → AgreeAt h (apply_hosts sr hosts c).tables
  unfolding apply_hosts
  apply_hosts-AgreeAt sr [] c url agree = agree
  apply_hosts-AgreeAt sr (host ∷ hosts) c url agree =
      apply_hosts-AgreeAt sr hosts _ url
        (rw url (override_route-AgreeAt host (static_route sr) c.tables h agree))

  apply_routes-AgreeAt :
      (routes : List PreparedStaticRoute) (c : Counted)
      → IsPrepared routes
      → AgreeAt h c.tables
      → AgreeAt h (apply_routes routes c).tables
  unfolding apply_routes
  apply_routes-AgreeAt [] c prepared agree = agree
  apply_routes-AgreeAt (sr ∷ routes) c (url, prepared) agree =
      apply_routes-AgreeAt routes _ prepared (apply_hosts-AgreeAt sr sr.hosts c url agree)

  module _ (domain_to_ascii : Text → Result Text Text) (url_parse : Text → Result Url Text) where
    enable_services-AgreeAt :
        (services : List DesiredEnabledService) (t : Tables)
        → AgreeAt h t
        → AgreeAt h (enable_services domain_to_ascii url_parse services t)
    unfolding enable_services
    enable_services-AgreeAt [] t agree = agree
    enable_services-AgreeAt (d ∷ services) t agree =
        elim (Result-cases (parse_backend_url url_parse d.backend)) [
          | inr (e, n) ↦ rw (n, enable_services) (enable_services-AgreeAt services t agree)
          | inl (backend, n) ↦
              rw (n, enable_services)
                (enable_services-AgreeAt services _
                  (enable_hosts-AgreeAt d backend d.hostnames t agree))
        ]

    enable_desired-AgreeAt :
        (desired : Result DesiredServicesResponse Text) (t : Tables)
        → AgreeAt h t
        → AgreeAt h (enable_desired domain_to_ascii url_parse desired t)
    unfolding enable_desired
    enable_desired-AgreeAt (err e) t agree = agree
    enable_desired-AgreeAt (ok desired) t agree = enable_services-AgreeAt desired.services t agree

    prepare-IsPrepared :
        (entries : List StaticRouteConfig)
        → IsPrepared (prepare_static_routes domain_to_ascii url_parse entries)
    unfolding prepare_static_routes
    prepare-IsPrepared [] = tt
    prepare-IsPrepared (e ∷ entries) = elim (Result-cases (parse_backend_url url_parse e.backend)) [
      | inr (x, n) ↦ rw (n, prepare_static_routes) (prepare-IsPrepared entries)
      | inl (backend, n) ↦
          elim (Bool-cases (is_empty (valid_hosts domain_to_ascii url_parse e.hosts))) [
            | inl none_valid ↦
                rw (n, none_valid, prepare_static_routes) (prepare-IsPrepared entries)
            | inr some_valid ↦
                rw (n, some_valid, prepare_static_routes) (refl, prepare-IsPrepared entries)
          ]
    ]

    -- Whatever Docker, the controller and the configuration name, the last entry that the agent sends
    -- for a hostname and the last reference of its heartbeat are those of the route that its proxy
    -- serves under the hostname; for a hostname that the proxy does not serve it sends none.
    pub build_tables_agree :
        (static_routes : List StaticRouteConfig) (services : List DiscoveredService)
        (desired : Result DesiredServicesResponse Text)
        → AgreeAt h (build_tables domain_to_ascii url_parse static_routes services desired)
    unfolding build_tables apply_static_routes
    build_tables_agree static_routes services desired =
        apply_routes-AgreeAt _ _ (prepare-IsPrepared static_routes) (
          enable_desired-AgreeAt desired _
            (add_services-AgreeAt services no_tables (unfold get in (refl, refl))))
