-- ===== src/Agent/Tailscale.antt =====
-- crates/tailsvc-agent/src/tailscale.rs: the parts that read texts, and the order
-- of the sources. What the commands print is an argument.
use tailroute.Base.{
  ℕ, ◌/◌, Bool, not, or_else, ◌++◌, ◌||◌, Option, none, some, List, [], ◌∷◌, nat_eq, if◌then◌else◌,
}
use tailroute.Base.Text.{Text, text, trim, starts_with, split, split_first, strip_prefix}
use tailroute.Base.Text.Numbers.{decimal}
use tailroute.Base.Text.Ipv4.{parse_ipv4}

-- The addresses of 127.0.0.0/8, 0.0.0.0 and 255.255.255.255.
abbrev is_special : ℕ → Bool
is_special ip = nat_eq (ip / 16777216) 127 || (nat_eq ip 0 || nat_eq ip 4294967295)

-- `none` stands for each of the errors.
unfoldable pub parse_ts_ip : Text → Option ℕ
parse_ts_ip s = elim (parse_ipv4 s) [
  | none ↦ none
  | some ip ↦
      if not (starts_with (text "100.") s) then none else if is_special ip then none else some ip
]

abbrev is_delimiter : ℕ → Bool
is_delimiter c = nat_eq c b'"' || (nat_eq c b'[' || (nat_eq c b']' || nat_eq c b','))

abbrev cons_part : ℕ → List Text → List Text
cons_part c [] = (c ∷ []) ∷ []
cons_part c (w ∷ ws) = (c ∷ w) ∷ ws

-- `split(['"', '[', ']', ','])`.
unfoldable pub parts : Text → List Text
parts [] = [] ∷ []
parts (c ∷ s) = let rest = parts s in if is_delimiter c then [] ∷ rest else cons_part c rest

-- The first part that is a Tailscale address.
unfoldable pub first_ip : List Text → Option ℕ
first_ip [] = none
first_ip (part ∷ rest) =
    let later = first_ip rest in
    let p = trim part in
    if starts_with (text "100.") p
    then elim (parse_ts_ip p) [ none ↦ later | some ip ↦ some ip ]
    else later

-- `find`, and the text from there on.
unfoldable pub from_key : Text → Text → Option Text
from_key key [] = none
from_key key (c ∷ s) =
    let later = from_key key s in if starts_with key (c ∷ s) then some (c ∷ s) else later

unfoldable pub parse_status_json_ip : Text → Option ℕ
parse_status_json_ip body = elim (from_key (text "\"TailscaleIPs\"") body) [
  | none ↦ none
  | some slice ↦ first_ip (parts slice)
]

-- A command: it may not run, and its status may tell of a failure.
pub data Command : Type 0 where
  no_output failed : Command
  printed : Text → Command

-- A socket of the LocalAPI: whether it exists, and what `curl` prints.
pub record LocalApi : Type 0 where
  pub is_there : Bool
  pub curl : Command

-- The first socket whose answer holds an address; a `curl` that cannot run ends the search.
unfoldable pub from_local_api : List LocalApi → Option ℕ
unfolding parse_status_json_ip
from_local_api [] = none
from_local_api (s ∷ sockets) =
    let rest = from_local_api sockets in
    if not s.is_there then rest else elim s.curl [
      | no_output ↦ none
      | failed ↦ rest
      | printed body ↦ or_else (parse_status_json_ip body) rest
    ]

-- The first line of `tailscale ip -4`.
unfoldable pub from_tailscale_cli : Command → Option ℕ
from_tailscale_cli no_output = none
from_tailscale_cli failed = none
from_tailscale_cli (printed s) = parse_ts_ip (trim (split_first 10 s))

-- The loop over the lines of `ip -4 addr show`.
abbrev address_of_line : Option Text → Option ℕ
address_of_line none = none
address_of_line (some rest) = parse_ts_ip (trim (split_first b'/' rest))

unfoldable pub first_interface : List Text → Option ℕ
first_interface [] = none
first_interface (line ∷ lines) =
    or_else (address_of_line (strip_prefix (text "inet ") (trim line))) (first_interface lines)

unfoldable pub from_interfaces : Command → Option ℕ
unfolding first_interface
from_interfaces no_output = none
from_interfaces failed = none
from_interfaces (printed s) = first_interface (split 10 s)

unfoldable pub discover_tailscale_ipv4 : List LocalApi → Command → Command → Option ℕ
unfolding from_local_api from_tailscale_cli from_interfaces
discover_tailscale_ipv4 sockets cli interfaces =
    or_else (from_local_api sockets) (or_else (from_tailscale_cli cli) (from_interfaces interfaces))

-- The configured address goes before the discovered one.
unfoldable pub resolve_tailscale_ipv4 : Option Text → List LocalApi → Command → Command → Option ℕ
unfolding discover_tailscale_ipv4
resolve_tailscale_ipv4 (some s) sockets cli interfaces = parse_ts_ip (trim s)
resolve_tailscale_ipv4 none sockets cli interfaces = discover_tailscale_ipv4 sockets cli interfaces

-- `parse` is `SocketAddr`'s, and `show` the address as text; `none` is an error.
unfoldable pub proxy_listen_addr :
    (Text → Option Text) → (ℕ → Text) → Option Text → ℕ → ℕ → Option Text
proxy_listen_addr parse show (some s) port ip = parse s
proxy_listen_addr parse show none port ip = parse (show ip ++ (text ":" ++ decimal port))
