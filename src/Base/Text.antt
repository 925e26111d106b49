-- ===== src/Base/Text.antt =====
-- Rust's `str` as the list of its code points, with the operations of the standard library that
-- the program calls.
pub mod Laws
pub mod Split
pub mod Numbers
pub mod Ipv4
use Prim.Native.Char.{code}
use Prim.Native.String
use Prim.Native.String.{String}
use mathlib.Core.List.{reverse}
use tailroute.Base.Tests.{ltb, leb, nat_eq, if◌then◌else◌}
use tailroute.Base.Lists.{length, any, all}
use tailroute.Base.Keys.{Eq, list_eq, ◌==◌, nat_key}
use Prim.Native.Nat.{ℕ, ◌+◌, ◌/◌, ◌%◌}
use mathlib.Core.Bool.{Bool, true, false, not, ◌&&◌, ◌||◌}
use mathlib.Core.Option.{Option, none, some}
use mathlib.Core.List.{List, [], ◌∷◌, ◌++◌, map}

abbrev pub Text : Type 0
Text = List ℕ

-- A literal. Shut, so that messages stay small; a test that compares one unfolds it.
unfoldable pub text : String → Text
text String.[] = []
text (String.◌∷◌ c s) = code c ∷ text s

abbrev pub text_eq : Text → Text → Bool
text_eq = list_eq

-- `u8::is_ascii_uppercase`, `char::is_ascii_alphanumeric` and `char::to_ascii_lowercase`.
abbrev pub is_upper : ℕ → Bool
is_upper c = leb 65 c && leb c 90

abbrev pub is_lower : ℕ → Bool
is_lower c = leb 97 c && leb c 122

abbrev pub is_digit : ℕ → Bool
is_digit c = leb 48 c && leb c 57

abbrev pub is_ascii_alphanumeric : ℕ → Bool
is_ascii_alphanumeric c = is_digit c || (is_upper c || is_lower c)

unfoldable pub lower_char : ℕ → ℕ
lower_char c = if is_upper c then c + 32 else c

unfoldable pub to_ascii_lowercase : Text → Text
to_ascii_lowercase s = map lower_char s

pub eq_ignore_ascii_case : Text → Text → Bool
eq_ignore_ascii_case s t = text_eq (to_ascii_lowercase s) (to_ascii_lowercase t)

-- `char::is_whitespace`: the property White_Space of Unicode.
unfoldable pub is_whitespace : ℕ → Bool
is_whitespace c =
    (leb 9 c && leb c 13)
    || (nat_eq c 32
        || (nat_eq c 133
            || (nat_eq c 160
                || (nat_eq c 5760
                    || ((leb 8192 c && leb c 8202)
                        || (nat_eq c 8232
                            || (nat_eq c 8233
                                || (nat_eq c 8239 || (nat_eq c 8287 || nat_eq c 12288)))))))))

-- Drops the longest prefix whose characters pass.
unfoldable pub trim_start_by : (ℕ → Bool) → Text → Text
trim_start_by p [] = []
trim_start_by p (c ∷ s) = if p c then trim_start_by p s else c ∷ s

-- Drops the longest suffix whose characters pass.
unfoldable pub trim_end_by : (ℕ → Bool) → Text → Text
trim_end_by p [] = []
trim_end_by p (c ∷ s) = elim (trim_end_by p s) [
  | [] ↦ if p c then [] else c ∷ []
  | d ∷ rest ↦ c ∷ d ∷ rest
]

unfoldable pub trim : Text → Text
unfolding trim_start_by trim_end_by is_whitespace
trim s = trim_end_by is_whitespace (trim_start_by is_whitespace s)

unfoldable pub trim_start_matches : ℕ → Text → Text
unfolding trim_start_by
trim_start_matches c = trim_start_by (nat_eq c)

unfoldable pub trim_end_matches : ℕ → Text → Text
unfolding trim_end_by
trim_end_matches c = trim_end_by (nat_eq c)

-- `contains(char)`.
unfoldable pub contains : ℕ → Text → Bool
contains c s = any (nat_eq c) s

-- `strip_prefix(&str)`.
unfoldable pub strip_prefix : Text → Text → Option Text
strip_prefix [] s = some s
strip_prefix (c ∷ p) [] = none
strip_prefix (c ∷ p) (d ∷ s) = if nat_eq c d then strip_prefix p s else none

unfoldable pub starts_with : Text → Text → Bool
starts_with [] s = true
starts_with (c ∷ p) [] = false
starts_with (c ∷ p) (d ∷ s) = nat_eq c d && starts_with p s

unfoldable pub ends_with : Text → Text → Bool
ends_with suffix [] = text_eq suffix []
ends_with suffix (c ∷ s) = text_eq suffix (c ∷ s) || ends_with suffix s

-- `contains(&str)`.
unfoldable pub contains_text : Text → Text → Bool
contains_text part [] = text_eq part []
contains_text part (c ∷ s) = starts_with part (c ∷ s) || contains_text part s

-- `split(char)`: one more part than there are separators.
abbrev pub cons_head : ℕ → List Text → List Text
cons_head c [] = (c ∷ []) ∷ []
cons_head c (w ∷ ws) = (c ∷ w) ∷ ws

unfoldable pub split : ℕ → Text → List Text
split sep [] = [] ∷ []
split sep (c ∷ s) = let rest = split sep s in if nat_eq sep c then [] ∷ rest else cons_head c rest

-- `split(char).next()`: the part before the first separator.
unfoldable pub split_first : ℕ → Text → Text
split_first sep [] = []
split_first sep (c ∷ s) = if nat_eq sep c then [] else c ∷ split_first sep s

-- `split_whitespace`.
abbrev pub begins_word : Text → Bool
begins_word [] = false
begins_word (c ∷ s) = not (is_whitespace c)

unfoldable pub split_whitespace : Text → List Text
split_whitespace [] = []
split_whitespace (c ∷ s) =
    let rest = split_whitespace s in
    if is_whitespace c then rest else if begins_word s then cons_head c rest else (c ∷ []) ∷ rest

-- `str::len`: the bytes of the UTF-8 encoding.
abbrev pub utf8_width : ℕ → ℕ
utf8_width c = if ltb c 128 then 1 else if ltb c 2048 then 2 else if ltb c 65536 then 3 else 4

unfoldable pub byte_len : Text → ℕ
byte_len [] = 0
byte_len (c ∷ s) = utf8_width c + byte_len s

-- `join(&str)`.
unfoldable pub join : Text → List Text → Text
join sep [] = []
join sep (w ∷ []) = w
join sep (w ∷ v ∷ ws) = w ++ (sep ++ join sep (v ∷ ws))

-- `starts_with(char)` and `ends_with(char)`.
unfoldable pub starts_with_char : ℕ → Text → Bool
starts_with_char c [] = false
starts_with_char c (d ∷ s) = nat_eq c d

unfoldable pub ends_with_char : ℕ → Text → Bool
ends_with_char c [] = false
ends_with_char c (d ∷ []) = nat_eq c d
ends_with_char c (d ∷ e ∷ s) = ends_with_char c (e ∷ s)

-- `as_bytes`: the UTF-8 encoding.
unfoldable pub utf8 : ℕ → List ℕ
utf8 c =
    if ltb c 128
    then c ∷ []
    else if ltb c 2048
    then (192 + c / 64) ∷ (128 + c % 64) ∷ []
    else if ltb c 65536
    then (224 + c / 4096) ∷ (128 + c / 64 % 64) ∷ (128 + c % 64) ∷ []
    else (240 + c / 262144) ∷ (128 + c / 4096 % 64) ∷ (128 + c / 64 % 64) ∷ (128 + c % 64) ∷ []

unfoldable pub as_bytes : Text → List ℕ
unfolding utf8
as_bytes [] = []
as_bytes (c ∷ s) = utf8 c ++ as_bytes s
