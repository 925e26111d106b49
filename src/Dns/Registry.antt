-- ===== src/Dns/Registry.antt =====
-- crates/tailsvc-dns/src/registry.rs
use tailroute.Base.{ℕ, Bool, Option, [], is_some}
use tailroute.Base.Keys.{list_key, nat_key}
use tailroute.Base.Text.{Text, trim_end_matches, to_ascii_lowercase}
use tailroute.Base.Table.{Table, get}

pub record DnsRegistry : Type 0 where
  pub inner : Table Text ℕ

abbrev pub new : DnsRegistry
new = record { inner = [] }

unfoldable pub replace : DnsRegistry → Table Text ℕ → DnsRegistry
replace registry routes = record registry { inner = routes }

-- The key of a queried name: without dots at its end, in lower case.
abbrev pub key_of : Text → Text
key_of hostname = to_ascii_lowercase (trim_end_matches b'.' hostname)

unfoldable pub lookup_a : DnsRegistry → Text → Option ℕ
lookup_a registry hostname = get (key_of hostname) registry.inner

unfoldable pub contains : DnsRegistry → Text → Bool
contains registry hostname = is_some (lookup_a registry hostname)
