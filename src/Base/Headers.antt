-- ===== src/Base/Headers.antt =====
-- The values of HTTP headers, which are bytes, read as text.
use tailroute.Base.Tests.{ltb, leb, nat_eq, if◌then◌else◌}
use tailroute.Base.Text.{Text}
use mathlib.Core.Bool.{Bool, ◌&&◌, ◌||◌}
use mathlib.Core.Option.{Option, none, some}
use tailroute.Base.Lists.{all}

-- Visible ASCII, the space and the tab.
abbrev pub is_visible : Text → Bool
is_visible v = all (λ c. nat_eq c 9 || (leb 32 c && ltb c 127)) v

-- `HeaderValue::to_str`.
unfoldable pub to_str : Text → Option Text
to_str v = if is_visible v then some v else none
