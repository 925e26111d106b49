-- ===== src/Docker/Inspect.antt =====
-- `inspect_service` of crates/tailsvc-docker/src/docker_runtime.rs, on what the Docker client reports
-- of a container, and the events that start a reconciliation.
use tailroute.Base.{
  ℕ, Result, ok, err, Bool, false, ◌||◌, Option, none, some, List, [], ◌∷◌, ◌++◌, is_empty,
  unwrap_or, and_then, any, if◌then◌else◌,
}
use tailroute.Base.Keys.{◌==◌, list_key, nat_key}
use tailroute.Base.Text.{Text, text, split_first, trim_start_matches, starts_with}
use tailroute.Base.Text.Numbers.{parse_unsigned}
use tailroute.Base.Table.{Table, insert}
use tailroute.Common.Backend.{Url}
use tailroute.Common.Labels.{labels_from_map, validate_service_labels}
use tailroute.Docker.{PublishedPort, DiscoveredService}

pub record PortBinding : Type 0 where
  pub host_ip : Option Text
  pub host_port : Option Text

-- What the program reads of the client's report. `ports` and `networks` are absent, or the entries
-- of the maps.
pub record Inspection : Type 0 where
  pub running : Option Bool
  pub labels : Option (List (Text × Text))
  pub image : Option Text
  pub name : Option Text
  pub network_mode : Option Text
  pub ports : Option (List (Text × Option (List PortBinding)))
  pub networks : Option (List (Text × Option Text))
  pub exposed : Option (List Text)

abbrev u16_max : ℕ
u16_max = 65535

-- The number before the slash of `80/tcp`.
unfoldable pub port_of_key : Text → Option ℕ
port_of_key key = parse_unsigned u16_max (split_first b'/' key)

-- A binding without a readable host port is passed over.
unfoldable pub published_of_binding : ℕ → PortBinding → List PublishedPort
published_of_binding container_port b =
    elim (and_then b.host_port (λ hp. parse_unsigned u16_max hp)) [
      | none ↦ []
      | some hport ↦
          record {
            container_port = container_port;
            host_ip = unwrap_or b.host_ip (text "0.0.0.0");
            host_port = hport;
          }
          ∷ []
    ]

unfoldable pub published_of_bindings : ℕ → List PortBinding → List PublishedPort
published_of_bindings container_port [] = []
published_of_bindings container_port (b ∷ bs) =
    published_of_binding container_port b ++ published_of_bindings container_port bs

unfoldable pub published_of_ports : List (Text × Option (List PortBinding)) → List PublishedPort
published_of_ports [] = []
published_of_ports ((key, bindings) ∷ ports) =
    published_of_bindings (unwrap_or (port_of_key key) 0) (unwrap_or bindings [])
    ++ published_of_ports ports

-- The loop that fills the map of networks; one without an address is passed over.
unfoldable pub networks_of : List (Text × Option Text) → Table Text Text → Table Text Text
networks_of [] networks = networks
networks_of ((name, address) ∷ nets) networks = elim address [
  | none ↦ networks_of nets networks
  | some ip ↦ networks_of nets (if is_empty ip then networks else insert name ip networks)
]

unfoldable pub exposed_of : List Text → List ℕ
exposed_of [] = []
exposed_of (key ∷ keys) = elim (port_of_key key) [
  | none ↦ exposed_of keys
  | some p ↦ p ∷ exposed_of keys
]

-- The name without the slashes in front of it; the identifier, if there is none.
unfoldable pub container_name : Text → Inspection → Text
container_name id inspect = trim_start_matches b'/' (unwrap_or inspect.name id)

module _ (domain_to_ascii : Text → Result Text Text) (url_parse : Text → Result Url Text) where
  unfoldable pub inspect_service : Text → Inspection → Option DiscoveredService
  inspect_service id inspect =
      if unwrap_or inspect.running false
      then (and_then (labels_from_map domain_to_ascii url_parse (unwrap_or inspect.labels []))
          (λ labels. elim (validate_service_labels labels) [
            | err _ ↦ none
            | ok _ ↦ some (record {
              container_id = id;
              container_name = container_name id inspect;
              labels = labels;
              network_mode = inspect.network_mode;
              published_ports = published_of_ports (unwrap_or inspect.ports []);
              networks = networks_of (unwrap_or inspect.networks []) [];
              exposed_ports = exposed_of (unwrap_or inspect.exposed []);
            })
          ]))
      else none

-- The action of an event of the Docker daemon.
unfoldable pub is_relevant_event : Option Text → Bool
is_relevant_event msg =
    let action = unwrap_or msg [] in
    any (λ a. action == a)
      (text "start"
        ∷ text "stop"
        ∷ text "die"
        ∷ text "destroy"
        ∷ text "rename"
        ∷ text "connect"
        ∷ text "disconnect"
        ∷ text "health_status"
        ∷ text "health_status: healthy"
        ∷ text "health_status: unhealthy"
        ∷ [])
    || starts_with (text "health_status") action
