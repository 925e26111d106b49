-- ===== src/Docker/Resolve.antt =====
-- crates/tailsvc-docker/src/backend_resolve.rs
use tailroute.Base.{
  ℕ, Result, ok, err, ◌>>=◌, ok_or, Bool, false, ◌||◌, Option, none, some, List, [], ◌∷◌, ◌++◌, map,
  ltb, nat_eq, is_empty, retain, or_else, if◌then◌else◌,
}
use tailroute.Base.Keys.{◌==◌, list_key, nat_key}
use tailroute.Base.Text.{Text, text}
use tailroute.Base.Table.{get}
use tailroute.Base.Order.{sort_by, dedup}
use tailroute.Common.Errors.{Error, ambiguous_backend}
use tailroute.Common.Backend.{Backend, authority}
use tailroute.Docker.{PublishedPort, DiscoveredService}

-- The element of a list of one.
abbrev pub only {ℓ} : {A : Type ℓ} → List A → Option A
only [] = none
only (a ∷ []) = some a
only (a ∷ b ∷ l) = none

abbrev pub is_any_address : PublishedPort → Bool
is_any_address p = (p.host_ip == text "0.0.0.0") || is_empty p.host_ip

-- The address at which a published port is reached.
abbrev pub reachable_host : PublishedPort → Text
reachable_host p = if is_any_address p then text "127.0.0.1" else p.host_ip

unfoldable pub is_host_mode : Option Text → Bool
is_host_mode none = false
is_host_mode (some mode) = mode == text "host"

unfoldable pub single_exposed_port : DiscoveredService → Option ℕ
single_exposed_port svc = only svc.exposed_ports

unfoldable pub single_published_container_port : DiscoveredService → Option ℕ
single_published_container_port svc =
    only (dedup (sort_by ltb (map (λ p. p.container_port) svc.published_ports)))

abbrev pub is_local : PublishedPort → Bool
is_local p = (p.host_ip == text "127.0.0.1") || is_any_address p

-- Of several bindings, the one that is local.
unfoldable pub local_binding : List PublishedPort → Result (Option PublishedPort) Error
local_binding matches = elim (only (retain is_local matches)) [
  | some p ↦ ok (some p)
  | none ↦ err (ambiguous_backend (text "multiple published bindings for port"))
]

unfoldable pub select_published_port : DiscoveredService → ℕ → Result (Option PublishedPort) Error
select_published_port svc container_port =
    elim (retain (λ p. nat_eq p.container_port container_port) svc.published_ports) [
      | [] ↦ ok none
      | p ∷ others ↦ elim others [ [] ↦ ok (some p) | q ∷ more ↦ local_binding (p ∷ q ∷ more) ]
    ]

unfoldable pub select_container_ip : DiscoveredService → Result Text Error
select_container_ip svc = elim svc.labels.network [
  | some net ↦
      ok_or (get net svc.networks)
        (ambiguous_backend (text "network " ++ (net ++ text " not found")))
  | none ↦ elim svc.networks [
    | [] ↦ err (ambiguous_backend (text "no container IP"))
    | n ∷ others ↦ elim others [
      | [] ↦ ok n.1
      | m ∷ more ↦ err (ambiguous_backend (text "multiple networks; set tailsvc.network"))
    ]
  ]
]

-- Cases 2 to 4, for the chosen port.
unfoldable pub resolve_port : DiscoveredService → ℕ → Result Backend Error
resolve_port svc port = do
  published ← select_published_port svc port
  elim published [
    | some p ↦ ok (record { host = reachable_host p; port = p.host_port })
    | none ↦
        if is_host_mode svc.network_mode
        then ok (record { host = text "127.0.0.1"; port = port })
        else (do ip ← select_container_ip svc; ok (record { host = ip; port = port }))
  ]

-- The port of the labels, or one that the container leaves no choice of.
unfoldable pub chosen_port : DiscoveredService → Option ℕ
chosen_port svc =
    or_else (or_else svc.labels.port (single_exposed_port svc))
      (single_published_container_port svc)

unfoldable pub resolve_backend : DiscoveredService → Result Backend Error
resolve_backend svc = elim svc.labels.backend [
  | some b ↦ ok b
  | none ↦ do
    port ← ok_or (chosen_port svc) (ambiguous_backend (text "no port specified"))
    resolve_port svc port
]

unfoldable pub backend_url : Backend → Text
backend_url backend = text "http://" ++ (authority backend ++ text "/")
