-- ===== src/Base/Text/Ipv4.antt =====
-- `Ipv4Addr::from_str`: four decimal octets of at most three digits, without a zero in front. An
-- address is the number that its octets make.
use tailroute.Base.Tests.{ltb, and_then, if◌then◌else◌}
use tailroute.Base.Lists.{length, is_empty, all}
use tailroute.Base.Text.{Text, split, is_digit, starts_with_char}
use tailroute.Base.Text.Numbers.{parse_unsigned}
use Prim.Native.Nat.{ℕ, ◌+◌, ◌*◌}
use mathlib.Core.Bool.{not, ◌&&◌, ◌||◌}
use mathlib.Core.Option.{Option, none, some}
use mathlib.Core.List.{List, [], ◌∷◌}

unfoldable pub parse_octet : Text → Option ℕ
parse_octet s =
    if ((is_empty s || ltb 3 (length s)) || not (all is_digit s))
      || (starts_with_char b'0' s && ltb 1 (length s))
    then none
    else parse_unsigned 255 s

unfoldable pub octets : List Text → Option ℕ
octets (a ∷ b ∷ c ∷ d ∷ []) = and_then (parse_octet a) (λ a. and_then (parse_octet b) (λ b.
    and_then (parse_octet c)
      (λ c. and_then (parse_octet d) (λ d. some (((a * 256 + b) * 256 + c) * 256 + d)))))
octets _ = none

unfoldable pub parse_ipv4 : Text → Option ℕ
parse_ipv4 s = octets (split b'.' s)
