-- ===== src/Controller/Config/Policy.antt =====
-- Which hostnames the policy of crates/tailsvc-controller/src/config.rs lets through.
use tailroute.Base.{
  ◌≡◌, ◌↔◌, ◌⊎◌, inl, inr, refl, sym, ap, ok, Bool, true, false, ◌||◌, Bool-cases, List, [], ◌∷◌,
  ◌++◌, All, Any, Result-cases, is_empty, nat_eq, nat_eq_iff, if◌then◌else◌,
}
use tailroute.Base.Keys.{◌==◌, list_key, nat_key, list_eq, list_eq_iff, ==_refl}
use tailroute.Base.Text.{
  Text, to_ascii_lowercase, trim_start_matches, trim_start_by, ends_with, starts_with_char,
}
use tailroute.Controller.Config.{ControllerConfig, check_blocked, check_suffixes, hostname_allowed}

-- The hostname is the suffix without the dots in front of it.
abbrev pub IsBare : Text → Text → Type 0
IsBare h suf =
    (dots : Text) × All (λ c. c ≡ b'.') dots × (suf ≡ dots ++ h) × (starts_with_char b'.' h ≡ false)

-- The hostname ends with the suffix, after a dot or not.
abbrev pub EndsIn : Text → Text → Type 0
EndsIn h suf = (front : Text) × (h ≡ front ++ suf)

abbrev pub IsUnder : Text → Text → Type 0
IsUnder h suf = IsBare h (to_ascii_lowercase suf) ⊎ EndsIn h (to_ascii_lowercase suf)

ends_with-front : (suf s : Text) → ends_with suf s ≡ true → EndsIn s suf
unfolding ends_with
ends_with-front suf [] e = ([], sym ((list_eq_iff suf []).0 e))
ends_with-front suf (c ∷ s) e = elim (Bool-cases (suf == c ∷ s)) [
  | inl whole ↦ ([], sym ((list_eq_iff suf (c ∷ s)).0 whole))
  | inr part ↦
      let (front, same) = ends_with-front suf s (rw part at e) in (c ∷ front, ap (λ t. c ∷ t) same)
]

or_true : (b : Bool) → (b || true) ≡ true
or_true true = refl
or_true false = refl

front-ends_with : (suf front : Text) → ends_with suf (front ++ suf) ≡ true
unfolding ends_with list_eq
front-ends_with [] [] = refl
front-ends_with (c ∷ suf) [] = rw (==_refl (c ∷ suf)) refl
front-ends_with suf (c ∷ front) =
    rw (front-ends_with suf front) (or_true (suf == c ∷ (front ++ suf)))

split_dots : (s : Text) → IsBare (trim_start_matches b'.' s) s
unfolding trim_start_matches trim_start_by starts_with_char
split_dots [] = ([], tt, refl, refl)
split_dots (c ∷ s) = elim (Bool-cases (nat_eq b'.' c)) [
  | inl dot ↦
      let (dots, all, same, bare) = split_dots s in
      rw dot (c ∷ dots, (sym ((nat_eq_iff b'.' c).0 dot), all), ap (λ t. c ∷ t) same, bare)
  | inr other ↦ rw other ([], tt, refl, other)
]

drop_dots :
    (h dots : Text)
    → All (λ c. c ≡ b'.') dots
    → starts_with_char b'.' h ≡ false
    → trim_start_matches b'.' (dots ++ h) ≡ h
unfolding trim_start_matches trim_start_by starts_with_char
drop_dots [] [] all bare = refl
drop_dots (c ∷ h) [] all bare = rw bare refl
drop_dots h (c ∷ dots) (dot, all) bare =
    rw ((nat_eq_iff b'.' c).1 (sym dot)) (drop_dots h dots all bare)

abbrev passes : Text → Text → Bool
passes h suf =
    (h == trim_start_matches b'.' (to_ascii_lowercase suf)) || ends_with (to_ascii_lowercase suf) h

passes-IsUnder : (h suf : Text) → (passes h suf ≡ true) ↔ IsUnder h suf
passes-IsUnder h suf =
    let s = to_ascii_lowercase suf in
    (
      λ e. elim (Bool-cases (h == trim_start_matches b'.' s)) [
        | inl same ↦ inl (rw ((list_eq_iff h (trim_start_matches b'.' s)).0 same) (split_dots s))
        | inr other ↦ inr (ends_with-front s h (rw other at e))
      ],
      λ under. elim under [
        | inl (dots, all, same, bare) ↦ rw (same, drop_dots h dots all bare, ==_refl h) refl
        | inr (front, same) ↦
            rw (same, front-ends_with s front) (or_true (front ++ s == trim_start_matches b'.' s))
      ],
    )

check_suffixes_iff :
    (host h : Text) (suffixes : List Text)
    → (check_suffixes host h suffixes ≡ ok tt) ↔ Any (IsUnder h) suffixes
unfolding check_suffixes
check_suffixes_iff host h [] = (λ e. absurd (cc), λ none_left. elim none_left [ ])
check_suffixes_iff host h (suf ∷ suffixes) = elim (Bool-cases (passes h suf)) [
  | inl passed ↦ rw passed (λ e. inl ((passes-IsUnder h suf).0 passed), λ a. refl)
  | inr refused ↦ rw refused (
    λ e. inr ((check_suffixes_iff host h suffixes).0 e),
    λ a. elim a [
      | inl under ↦ let bad = (passes-IsUnder h suf).1 under in absurd (cc)
      | inr more ↦ (check_suffixes_iff host h suffixes).1 more
    ],
  )
]

suffixes_allowed :
    (host h : Text) (suffixes : List Text)
    → ((if is_empty suffixes then ok tt else check_suffixes host h suffixes) ≡ ok tt)
      ↔ ((suffixes ≡ []) ⊎ Any (IsUnder h) suffixes)
suffixes_allowed host h [] = (λ e. inl refl, λ a. refl)
suffixes_allowed host h (suf ∷ suffixes) = (
  λ e. inr ((check_suffixes_iff host h (suf ∷ suffixes)).0 e),
  λ a. elim a [
    | inl no_suffix ↦ absurd (cc)
    | inr under ↦ (check_suffixes_iff host h (suf ∷ suffixes)).1 under
  ],
)

-- The name is blocked, in any case of its letters.
abbrev pub IsBlocked : ControllerConfig → Text → Type 0
IsBlocked cfg host =
    Any (λ b. to_ascii_lowercase host ≡ to_ascii_lowercase b) cfg.security.blocked_names

check_blocked_iff :
    (host h : Text) (names : List Text)
    → (check_blocked host h names ≡ ok tt) ↔ (¬ Any (λ b. h ≡ to_ascii_lowercase b) names)
unfolding check_blocked
check_blocked_iff host h [] = (λ e a. elim a [ ], λ a. refl)
check_blocked_iff host h (b ∷ names) = elim (Bool-cases (h == to_ascii_lowercase b)) [
  | inl same ↦ rw same (
    λ e. absurd (cc),
    λ clear. elim (clear (inl ((list_eq_iff h (to_ascii_lowercase b)).0 same))) [ ],
  )
  | inr other ↦ rw other (
    λ e a. elim a [
      | inl same ↦ let bad = (list_eq_iff h (to_ascii_lowercase b)).1 same in absurd (cc)
      | inr more ↦ (check_blocked_iff host h names).0 e more
    ],
    λ clear. (check_blocked_iff host h names).1 (λ more. clear (inr more)),
  )
]

-- A hostname is let through exactly when it is none of the blocked names and, if there are allowed
-- suffixes, it ends with one of them or is one of them without the dots in front, whatever the case
-- of the letters.
pub hostname_allowed_policy :
    (cfg : ControllerConfig) (host : Text)
    → (hostname_allowed cfg host ≡ ok tt) ↔ (
        (¬ IsBlocked cfg host)
        × ((cfg.security.allowed_suffixes ≡ [])
            ⊎ Any (IsUnder (to_ascii_lowercase host)) cfg.security.allowed_suffixes))
unfolding hostname_allowed
hostname_allowed_policy cfg host =
    let h = to_ascii_lowercase host in
    let allowed = suffixes_allowed host h cfg.security.allowed_suffixes in
    let clear = check_blocked_iff host h cfg.security.blocked_names in
    elim (Result-cases (check_blocked host h cfg.security.blocked_names)) [
      | inl (u, good) ↦ rw good (λ e. (clear.0 good, allowed.0 e), λ (a, b). allowed.1 b)
      | inr (e, bad) ↦ rw bad (λ h. absurd (cc), λ (a, b). let good = clear.1 a in absurd (cc))
    ]
