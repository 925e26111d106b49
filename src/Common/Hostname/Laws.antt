-- ===== src/Common/Hostname/Laws.antt =====
-- What `normalize_hostname` accepts and returns.
use tailroute.Base.{
  ℕ, ◌≡◌, refl, sym, ◌∙◌, ap, subst, ◌≢◌, ◌↔◌, inl, inr, true, false, List, [], ◌∷◌, ◌++◌, Result,
  ok, ◌>>=◌, ◌>>◌, map_err, >>=-eq-ok, arith, nat_eq, is_empty, All, All-imp, All-append,
  Bool-cases, Result-cases,
}
use tailroute.Base.Text.{
  Text, text, trim, contains, contains_text, to_ascii_lowercase, join, is_whitespace,
}
use tailroute.Base.Text.Laws.{to_ascii_lowercase_idem, trim_none, contains_text-contains}
use tailroute.Common.Errors.{Error, invalid_hostname}
use tailroute.Common.Hostname.{NormalizedHostname, validate_hostname_syntax, normalize_hostname}
use tailroute.Common.Hostname.Grammar.{
  IsHostname, IsLabel, IsLabelChar, validate_hostname_syntax_iff,
}

-- The conditions on the text that is handed to IDNA.
pub record IsBareName (trimmed : Text) : Type 0 where
  pub nonempty : trimmed ≢ []
  pub no_colon : contains b':' trimmed ≡ false
  pub no_slash : contains b'/' trimmed ≡ false

scheme_has_colon : contains b':' (text "://") ≡ true
unfolding contains text
scheme_has_colon = refl

-- The test for `://` never fires, since every text with `://` has a colon.
no_scheme : (s : Text) → contains b':' s ≡ false → contains_text (text "://") s ≡ false
no_scheme s h = elim (Bool-cases (contains_text (text "://") s)) [
  | inl e ↦ cc (contains_text-contains b':' (text "://") s scheme_has_colon e)
  | inr e ↦ e
]

is_empty_of_ne : (s : Text) → s ≢ [] → is_empty s ≡ false
is_empty_of_ne [] h = absurd (h refl)
is_empty_of_ne (c ∷ s) h = refl

module _ (domain_to_ascii : Text → Result Text Text) where
  abbrev rest : Text → Result NormalizedHostname Error
  rest trimmed = do
    ascii ← map_err (λ e. invalid_hostname (text "idna: " ++ e)) (domain_to_ascii trimmed)
    let lower = to_ascii_lowercase ascii
    validate_hostname_syntax lower
    ok (record { as_str = lower })

  normalize_bare :
      (input : Text)
      → IsBareName (trim input)
      → normalize_hostname domain_to_ascii input ≡ rest (trim input)
  unfolding normalize_hostname
  normalize_bare input b =
      rw (is_empty_of_ne (trim input) b.nonempty)
        (rw b.no_colon (rw b.no_slash (rw (no_scheme (trim input) b.no_colon))))

  normalize-IsBareName :
      (input : Text) (h : NormalizedHostname)
      → normalize_hostname domain_to_ascii input ≡ ok h
      → IsBareName (trim input)
  unfolding normalize_hostname
  normalize-IsBareName input h e = record {
    nonempty = λ k. let full : is_empty (trim input) ≡ false = ground arith in cc;
    no_colon = ground arith;
    no_slash = ground arith;
  }

  -- What the program accepts, and what it returns.
  pub record Accepts (input host : Text) : Type 0 where
    pub bare : IsBareName (trim input)
    pub ascii : Text
    pub encoded : domain_to_ascii (trim input) ≡ ok ascii
    pub lowered : host ≡ to_ascii_lowercase ascii
    pub valid : IsHostname host

  rest_sound :
      (trimmed : Text) (h : NormalizedHostname)
      → rest trimmed ≡ ok h
      → (ascii : Text) × (domain_to_ascii trimmed ≡ ok ascii)
        × (h.as_str ≡ to_ascii_lowercase ascii)
        × IsHostname h.as_str
  rest_sound trimmed h e = elim (Result-cases (domain_to_ascii trimmed)) [
    | inr (m, bad) ↦ cc
    | inl (ascii, good) ↦
        let e' = rw good at e in
        let (u, valid, same) =
          >>=-eq-ok (validate_hostname_syntax (to_ascii_lowercase ascii)) _ e' in
        let host : h.as_str ≡ to_ascii_lowercase ascii = cc in
        (ascii, good, host, rw host ((validate_hostname_syntax_iff _).0 valid))
  ]

  -- `normalize_hostname` succeeds exactly on the texts that, trimmed, are not empty, have no colon
  -- and no slash, and that IDNA turns into a text whose lower-case form is a valid hostname; that
  -- form is what it returns.
  pub normalize_hostname_iff :
      (input : Text) (h : NormalizedHostname)
      → (normalize_hostname domain_to_ascii input ≡ ok h) ↔ Accepts input h.as_str
  normalize_hostname_iff input h = (
    λ e.
        let b = normalize-IsBareName input h e in
        let (ascii, good, host, valid) =
          rest_sound (trim input) h (sym (normalize_bare input b) ∙ e) in
        record { bare = b; ascii = ascii; encoded = good; lowered = host; valid = valid },
    λ a.
        normalize_bare input a.bare
        ∙ rw a.encoded (
            rw ((validate_hostname_syntax_iff _).1 (subst IsHostname a.lowered a.valid))
              (cc (a.lowered))),
  )

-- Labels and dots have no space, no colon and no slash.
abbrev IsPlain : ℕ → Type 0
IsPlain c = (is_whitespace c ≡ false) × (nat_eq b':' c ≡ false) × (nat_eq b'/' c ≡ false)

label_char-IsPlain : (c : ℕ) → IsLabelChar c → IsPlain c
unfolding is_whitespace
label_char-IsPlain c h = ground arith

join-IsPlain :
    (l : Text) (ls : List Text) → All IsLabel (l ∷ ls) → All IsPlain (join (b'.' ∷ []) (l ∷ ls))
unfolding join is_whitespace
join-IsPlain l [] (p, _) = All-imp label_char-IsPlain l p.chars
join-IsPlain l (m ∷ ls) (p, h) =
    All-append IsPlain l _ (All-imp label_char-IsPlain l p.chars)
      ((refl, refl, refl), join-IsPlain m ls h)

contains-none : (c : ℕ) (s : Text) → All (λ d. nat_eq c d ≡ false) s → contains c s ≡ false
unfolding contains
contains-none c [] h = refl
contains-none c (d ∷ s) (p, h) = rw p (contains-none c s h)

join-ne-nil : (l : Text) (ls : List Text) → l ≢ [] → join (b'.' ∷ []) (l ∷ ls) ≢ []
unfolding join
join-ne-nil [] ls h e = h refl
join-ne-nil (c ∷ l) [] h e = cc
join-ne-nil (c ∷ l) (m ∷ ls) h e = cc

IsHostname-IsPlain : (h : Text) → IsHostname h → All IsPlain h
IsHostname-IsPlain h v = rw v.joined (join-IsPlain v.first v.others v.labelled)

trim-hostname : (h : Text) → IsHostname h → trim h ≡ h
trim-hostname h v = trim_none h (All-imp (λ c p. p.0) h (IsHostname-IsPlain h v))

hostname-IsBareName : (h : Text) → IsHostname h → IsBareName h
hostname-IsBareName h v = record {
  nonempty = λ e. join-ne-nil v.first v.others v.labelled.0.nonempty (sym v.joined ∙ e);
  no_colon = contains-none b':' h (All-imp (λ c p. p.1) h (IsHostname-IsPlain h v));
  no_slash = contains-none b'/' h (All-imp (λ c p. p.2) h (IsHostname-IsPlain h v));
}

module _ (domain_to_ascii : Text → Result Text Text)
    (idempotent : (s t : Text)
      → domain_to_ascii s ≡ ok t
      → domain_to_ascii (to_ascii_lowercase t) ≡ ok (to_ascii_lowercase t)) where
  -- Where the encoder leaves the lower-case form of its own results as it is, a normalized hostname
  -- is normalized to itself.
  pub normalize_hostname_idem :
      (input : Text) (h : NormalizedHostname)
      → normalize_hostname domain_to_ascii input ≡ ok h
      → normalize_hostname domain_to_ascii h.as_str ≡ ok h
  normalize_hostname_idem input h e =
      let a = (normalize_hostname_iff domain_to_ascii input h).0 e in
      let same = trim-hostname h.as_str a.valid in
      let fixed : domain_to_ascii h.as_str ≡ ok h.as_str =
        rw a.lowered (idempotent (trim input) a.ascii a.encoded) in
      (normalize_hostname_iff domain_to_ascii h.as_str h).1 (record {
        bare = rw same (hostname-IsBareName h.as_str a.valid);
        ascii = h.as_str;
        encoded = rw same fixed;
        lowered =
            sym (ap to_ascii_lowercase a.lowered ∙ to_ascii_lowercase_idem a.ascii ∙ sym a.lowered);
        valid = a.valid;
      })
