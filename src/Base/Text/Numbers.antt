-- ===== src/Base/Text/Numbers.antt =====
-- Decimal numbers in text: `Display` of the unsigned integers, and their `FromStr`.
use tailroute.Base.Text.{Text, is_digit}
use tailroute.Base.Tests.{ltb, leb, nat_eq, if◌then◌else◌, Bool-cases}
use Prim.Native.Nat.{ℕ, zero, suc, ◌+◌, ◌-◌, ◌*◌, ◌/◌, ◌%◌, ◌≤◌}
use mathlib.Core.Path.{◌≡◌, refl}
use mathlib.Core.Logic.{inl, inr}
use mathlib.Core.Option.{Option, none, some}
use mathlib.Core.List.{[], ◌∷◌}
use native.Mathlib.Omega.{arith}

-- The digits of `n` in front of `rest`; the fuel bounds their number.
digits_before : ℕ → ℕ → Text → Text
digits_before zero n rest = rest
digits_before (suc f) n rest =
    let more = digits_before f (n / 10) ((48 + n % 10) ∷ rest) in
    if ltb n 10 then (48 + n) ∷ rest else more

-- `to_string` of an unsigned integer. `n + 1` rounds are enough, since every round divides by ten.
unfoldable pub decimal : ℕ → Text
unfolding digits_before
decimal n = digits_before (suc n) n []

-- The digits of `s` after the value `n`; `none` at another character, or beyond `max`.
unfoldable pub parse_digits : ℕ → ℕ → Text → Option ℕ
parse_digits max n [] = some n
parse_digits max n (c ∷ s) =
    let n' = n * 10 + (c - 48) in
    let rest = parse_digits max n' s in
    if is_digit c then (if leb n' max then rest else none) else none

-- `str::parse` into an unsigned integer with the greatest value `max`: an optional `+`, then at
-- least one digit.
unfoldable pub parse_unsigned : ℕ → Text → Option ℕ
unfolding parse_digits
parse_unsigned max [] = none
parse_unsigned max (c ∷ []) = parse_digits max 0 (c ∷ [])
parse_unsigned max (c ∷ d ∷ s) =
    if nat_eq c b'+' then parse_digits max 0 (d ∷ s) else parse_digits max 0 (c ∷ d ∷ s)

parse_digits-le : (max n : ℕ) (s : Text) (v : ℕ) → n ≤ max → parse_digits max n s ≡ some v → v ≤ max
unfolding parse_digits
parse_digits-le max n [] v h e = ground arith
parse_digits-le max n (c ∷ s) v h e = ground (arith, parse_digits-le max (n * 10 + (c - 48)) s v)

-- A parsed number is in range.
pub parse_unsigned-le : (max : ℕ) (s : Text) (v : ℕ) → parse_unsigned max s ≡ some v → v ≤ max
unfolding parse_unsigned
parse_unsigned-le max [] v e = cc
parse_unsigned-le max (c ∷ []) v e = parse_digits-le max 0 (c ∷ []) v (omega arith) e
parse_unsigned-le max (c ∷ d ∷ s) v e = elim (Bool-cases (nat_eq c b'+')) [
  | inl plus ↦ parse_digits-le max 0 (d ∷ s) v (omega arith) (rw (plus, parse_unsigned) at e)
  | inr bare ↦ parse_digits-le max 0 (c ∷ d ∷ s) v (omega arith) (rw (bare, parse_unsigned) at e)
]

decimal_sample : decimal 8080 ≡ b'8' ∷ b'0' ∷ b'8' ∷ b'0' ∷ []
unfolding decimal
decimal_sample = refl

parse_sample : parse_unsigned 65535 (b'+' ∷ b'4' ∷ b'2' ∷ []) ≡ some 42
unfolding parse_unsigned
parse_sample = refl
