-- ===== src/Base/Text/Laws.antt =====
-- Laws of the text operations that several components use.
use tailroute.Base.Text.{
  Text, lower_char, to_ascii_lowercase, is_upper, is_whitespace, trim_start_by, trim_end_by, trim,
  contains, contains_text, starts_with,
}
use tailroute.Base.Tests.{Bool-cases}
use tailroute.Base.Lists.{All}
use tailroute.Base.Keys.{list_eq}
use Prim.Native.Nat.{ℕ}
use mathlib.Core.Path.{◌≡◌, refl}
use mathlib.Core.Logic.{inl, inr}
use mathlib.Core.Bool.{Bool, true, false}
use mathlib.Core.List.{[], ◌∷◌}
use native.Mathlib.Omega.{arith}

-- No ASCII capital letter.
abbrev pub IsLower : Text → Type 0
IsLower s = All (λ c. is_upper c ≡ false) s

pub lower_char_idem : (c : ℕ) → lower_char (lower_char c) ≡ lower_char c
unfolding lower_char
lower_char_idem c = ground arith

pub to_ascii_lowercase_idem :
    (s : Text) → to_ascii_lowercase (to_ascii_lowercase s) ≡ to_ascii_lowercase s
unfolding to_ascii_lowercase
to_ascii_lowercase_idem [] = refl
to_ascii_lowercase_idem (c ∷ s) = cc (lower_char_idem c, to_ascii_lowercase_idem s)

lower_char-eq_self : (c : ℕ) → is_upper c ≡ false → lower_char c ≡ c
unfolding lower_char
lower_char-eq_self c h = ground arith

pub to_ascii_lowercase_of_IsLower : (s : Text) → IsLower s → to_ascii_lowercase s ≡ s
unfolding to_ascii_lowercase
to_ascii_lowercase_of_IsLower [] h = refl
to_ascii_lowercase_of_IsLower (c ∷ s) (p, h) =
    cc (lower_char-eq_self c p, to_ascii_lowercase_of_IsLower s h)

lower_char-not_upper : (c : ℕ) → is_upper (lower_char c) ≡ false
unfolding lower_char
lower_char-not_upper c = ground arith

pub to_ascii_lowercase-IsLower : (s : Text) → IsLower (to_ascii_lowercase s)
unfolding to_ascii_lowercase
to_ascii_lowercase-IsLower [] = tt
to_ascii_lowercase-IsLower (c ∷ s) = (lower_char-not_upper c, to_ascii_lowercase-IsLower s)

-- A text that no trimmed character stands in stays as it is.
pub trim_start_by_none :
    (p : ℕ → Bool) (s : Text) → All (λ c. p c ≡ false) s → trim_start_by p s ≡ s
unfolding trim_start_by
trim_start_by_none p [] h = refl
trim_start_by_none p (c ∷ s) (q, h) = rw q

pub trim_end_by_none : (p : ℕ → Bool) (s : Text) → All (λ c. p c ≡ false) s → trim_end_by p s ≡ s
unfolding trim_end_by
trim_end_by_none p [] h = refl
trim_end_by_none p (c ∷ []) (q, h) = rw q
trim_end_by_none p (c ∷ d ∷ s) (q, h) = rw (trim_end_by_none p (d ∷ s) h, trim_end_by)

pub trim_none : (s : Text) → All (λ c. is_whitespace c ≡ false) s → trim s ≡ s
unfolding trim
trim_none s h = rw (trim_start_by_none is_whitespace s h) (trim_end_by_none is_whitespace s h)

-- A text that contains a text contains each of its characters.
starts_with-contains :
    (c : ℕ) (p s : Text) → contains c p ≡ true → starts_with p s ≡ true → contains c s ≡ true
unfolding contains starts_with
starts_with-contains c [] s h k = cc
starts_with-contains c (d ∷ p) [] h k = cc
starts_with-contains c (d ∷ p) (x ∷ s) h k = ground (arith, starts_with-contains c p s)

contains_cons : (c x : ℕ) (s : Text) → contains c s ≡ true → contains c (x ∷ s) ≡ true
unfolding contains
contains_cons c x s h = ground arith

pub contains_text-contains :
    (c : ℕ) (p s : Text) → contains c p ≡ true → contains_text p s ≡ true → contains c s ≡ true
unfolding contains_text list_eq
contains_text-contains c [] [] h k = h
contains_text-contains c (d ∷ p) [] h k = cc
contains_text-contains c p (x ∷ s) h k = elim (Bool-cases (starts_with p (x ∷ s))) [
  | inl here ↦ starts_with-contains c p (x ∷ s) h here
  | inr later ↦
      contains_cons c x s (contains_text-contains c p s h (rw (later, contains_text) at k))
]
