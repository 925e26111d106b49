-- ===== src/Proxy/Routes.antt =====
-- crates/tailsvc-proxy/src/routes.rs
use tailroute.Base.{Option, []}
use tailroute.Base.Keys.{list_key, nat_key}
use tailroute.Base.Text.{Text, split_first, to_ascii_lowercase}
use tailroute.Base.Table.{Table, get}
use tailroute.Common.Backend.{Backend}

pub record BackendRoute : Type 0 where
  pub backend : Backend
  pub container_id : Option Text
  pub container_name : Option Text

pub record SharedRouteStore : Type 0 where
  pub inner : Table Text BackendRoute

abbrev pub new : SharedRouteStore
new = record { inner = [] }

unfoldable pub replace : SharedRouteStore → Table Text BackendRoute → SharedRouteStore
replace store routes = record store { inner = routes }

-- The host of a `Host` header, without its port, in lower case.
abbrev pub key_of : Text → Text
key_of host = to_ascii_lowercase (split_first b':' host)

unfoldable pub resolve : SharedRouteStore → Text → Option BackendRoute
resolve store host = get (key_of host) store.inner
