-- ===== src/Docker/Candidate.antt =====
-- crates/tailsvc-docker/src/candidate.rs, on what the Docker client reports of a container.
use tailroute.Base.{
  ℕ, Bool, Option, none, some, List, [], ◌∷◌, ◌++◌, map, ltb, is_some, unwrap_or, and_then, any,
  Result, if◌then◌else◌, false,
}
use tailroute.Base.Keys.{list_key, nat_key}
use tailroute.Base.Text.{Text, text, to_ascii_lowercase, contains_text, trim_end_matches}
use tailroute.Base.Table.{Table, get}
use tailroute.Base.Order.{sort_by, dedup, text_lt}
use tailroute.Common.Api.{DiscoveredContainerDto}
use tailroute.Common.Backend.{Backend, Url, base_url}
use tailroute.Common.Labels.{labels_from_map}
use tailroute.Docker.{PublishedPort}
use tailroute.Docker.Resolve.{only, reachable_host, is_host_mode}
use tailroute.Docker.Inspect.{
  Inspection, container_name, published_of_ports, networks_of, exposed_of,
}

abbrev pub skip_image_prefixes : List Text
skip_image_prefixes =
    text "redis:"
    ∷ text "postgres:"
    ∷ text "mysql:"
    ∷ text "mongo:"
    ∷ text "mariadb:"
    ∷ text "memcached:"
    ∷ text "rabbitmq:"
    ∷ text "pgvector/"
    ∷ text "tensorchord/"
    ∷ []

pub record ContainerCandidate : Type 0 where
  pub identity_key : Text
  pub container_id : Text
  pub container_name : Text
  pub image : Text
  pub network_mode : Option Text
  pub published_ports : List PublishedPort
  pub exposed_ports : List ℕ
  pub networks : Table Text Text
  pub compose_project : Option Text
  pub compose_service : Option Text
  pub has_tailsvc_labels : Bool
  pub suggested_backend : Option Backend

unfoldable pub to_dto : ContainerCandidate → DiscoveredContainerDto
to_dto c = record {
  identity_key = c.identity_key;
  container_id = c.container_id;
  container_name = c.container_name;
  image = c.image;
  network_mode = c.network_mode;
  suggested_backend = and_then c.suggested_backend (λ b. some (trim_end_matches b'/' (base_url b)));
  published_ports = dedup (sort_by ltb (map (λ p. p.host_port) c.published_ports));
  exposed_ports = c.exposed_ports;
  compose_project = c.compose_project;
  compose_service = c.compose_service;
  has_tailsvc_labels = c.has_tailsvc_labels;
}

unfoldable pub should_skip_image : Text → Bool
should_skip_image image = any (λ p. contains_text p (to_ascii_lowercase image)) skip_image_prefixes

-- The one network and the one exposed port.
abbrev on_network : Option (Text × Text) → Option ℕ → Option Backend
on_network none port = none
on_network (some n) port = and_then port (λ p. some (record { host = n.1; port = p }))

unfoldable pub suggest_backend :
    Option Text → List PublishedPort → List ℕ → Table Text Text → Option Backend
suggest_backend network_mode published exposed networks = elim (only published) [
  | some p ↦ some (record { host = reachable_host p; port = p.host_port })
  | none ↦
      if is_host_mode network_mode
      then and_then (only exposed) (λ p. some (record { host = text "127.0.0.1"; port = p }))
      else on_network (only networks) (only exposed)
]

-- `compose:project/service`, or the container's name.
unfoldable pub identity_of : Option Text → Option Text → Text → Text
identity_of (some p) (some s) name = text "compose:" ++ (p ++ (text "/" ++ s))
identity_of (some p) none name = text "name:" ++ name
identity_of none service name = text "name:" ++ name

module _ (domain_to_ascii : Text → Result Text Text) (url_parse : Text → Result Url Text) where
  unfoldable pub inspect_candidate : Text → Inspection → Option ContainerCandidate
  inspect_candidate id inspect =
      let labels_raw = unwrap_or inspect.labels [] in
      let name = container_name id inspect in
      let project = get (text "com.docker.compose.project") labels_raw in
      let service = get (text "com.docker.compose.service") labels_raw in
      let published = published_of_ports (unwrap_or inspect.ports []) in
      let networks = networks_of (unwrap_or inspect.networks []) [] in
      let exposed = dedup (sort_by ltb (exposed_of (unwrap_or inspect.exposed []))) in
      if unwrap_or inspect.running false
      then some (record {
        identity_key = identity_of project service name;
        container_id = id;
        container_name = name;
        image = unwrap_or inspect.image [];
        network_mode = inspect.network_mode;
        published_ports = published;
        exposed_ports = exposed;
        networks = networks;
        compose_project = project;
        compose_service = service;
        has_tailsvc_labels = is_some (labels_from_map domain_to_ascii url_parse labels_raw);
        suggested_backend = suggest_backend inspect.network_mode published exposed networks;
      })
      else none

  -- The loop over the running containers, with the report on each; `none` is a failed inspection.
  unfoldable pub candidates_of : List (Text × Option Inspection) → List ContainerCandidate
  candidates_of [] = []
  candidates_of ((id, report) ∷ containers) = elim (and_then report (inspect_candidate id)) [
    | none ↦ candidates_of containers
    | some c ↦
        if should_skip_image c.image then candidates_of containers else c ∷ candidates_of containers
  ]

  unfoldable pub list_candidates : List (Text × Option Inspection) → List ContainerCandidate
  list_candidates containers =
      sort_by (λ a b. text_lt a.container_name b.container_name) (candidates_of containers)
