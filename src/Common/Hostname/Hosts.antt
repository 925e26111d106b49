-- ===== src/Common/Hostname/Hosts.antt =====
-- What `parse_host_list` returns.
use tailroute.Base.{
  ◌≡◌, refl, sym, subst, ◌∙◌, ◌↔◌, ◌⊎◌, inl, inr, Bool, true, not, List, [], ◌∷◌, ◌++◌, map, Result,
  ok, >>=-eq-ok, arith, is_empty, Any, Bool-cases, if◌then◌else◌,
}
use tailroute.Base.Keys.{
  member, member-append, Distinct, Distinct-concat, list_key, list_eq_iff, nat_key,
}
use tailroute.Base.Text.{Text, split}
use tailroute.Common.Hostname.{NormalizedHostname, normalize_hostname, parse_parts, parse_host_list}
use mathlib.Core.List.{map-append}

abbrev pub names : List NormalizedHostname → List Text
names hs = map (λ h. h.as_str) hs

module _ (domain_to_ascii : Text → Result Text Text) where
  abbrev pub NormalizesTo : Text → Text → Type 0
  NormalizesTo name part =
      (h : NormalizedHostname) × (normalize_hostname domain_to_ascii part ≡ ok h)
      × (h.as_str ≡ name)

  -- What one round keeps: the list has the names of the set, each once.
  abbrev InStep : List NormalizedHostname → List Text → Type 0
  InStep out seen = Distinct (names out) × ((t : Text) → member t seen ≡ member t (names out))

  abbrev next_out : NormalizedHostname → Bool → List NormalizedHostname → List NormalizedHostname
  next_out h fresh out = if fresh then out ++ h ∷ [] else out

  abbrev next_seen : NormalizedHostname → Bool → List Text → List Text
  next_seen h fresh seen = if fresh then h.as_str ∷ seen else seen

  names-concat :
      (out : List NormalizedHostname) (h : NormalizedHostname)
      → names (out ++ h ∷ []) ≡ names out ++ h.as_str ∷ []
  names-concat out h = map-append (λ n. n.as_str) out (h ∷ [])

  round-InStep :
      (h : NormalizedHostname) (out : List NormalizedHostname) (seen : List Text)
      → InStep out seen
      → (let fresh = not (member h.as_str seen) in
          InStep (next_out h fresh out) (next_seen h fresh seen))
  round-InStep h out seen (d, same) = elim (Bool-cases (member h.as_str seen)) [
    | inl old ↦ rw old (d, same)
    | inr new ↦ rw new (
      rw (names-concat out h) (Distinct-concat (names out) h.as_str d (sym (same h.as_str) ∙ new)),
      λ t.
          rw (names-concat out h, member-append t (names out) (h.as_str ∷ []))
            (unfold member in ground (arith, same t)),
    )
  ]

  round-member :
      (h : NormalizedHostname) (out : List NormalizedHostname) (seen : List Text) (t : Text)
      → InStep out seen
      → (member t (names (next_out h (not (member h.as_str seen)) out)) ≡ true)
        ↔ ((member t (names out) ≡ true) ⊎ (h.as_str ≡ t))
  round-member h out seen t (d, same) = elim (Bool-cases (member h.as_str seen)) [
    | inl old ↦
        let had : member h.as_str (names out) ≡ true = sym (same h.as_str) ∙ old in
        rw old (
          (λ m. inl m),
          λ s. elim s [ inl m ↦ m | inr e ↦ subst (λ n. member n (names out) ≡ true) e had ],
        )
    | inr new ↦ rw new (
        rw (names-concat out h, member-append t (names out) (h.as_str ∷ []))
          (unfold member in ground (arith, list_eq_iff h.as_str t)))
  ]

  abbrev Listed : Text → List NormalizedHostname → List Text → Type 0
  Listed t out parts = (member t (names out) ≡ true) ⊎ Any (NormalizesTo t) parts

  parse_parts-names :
      (parts : List Text) (out : List NormalizedHostname) (seen : List Text)
      (res : List NormalizedHostname)
      → InStep out seen
      → parse_parts domain_to_ascii parts out seen ≡ ok res
      → Distinct (names res) × ((t : Text) → (member t (names res) ≡ true) ↔ Listed t out parts)
  unfolding parse_parts
  parse_parts-names [] out seen res inv e =
      let same : out ≡ res = cc in
      subst (λ r. Distinct (names r) × ((t : Text) → (member t (names r) ≡ true) ↔ Listed t out []))
        same (inv.0, λ t. (λ m. inl m, λ s. elim s [ inl m ↦ m | inr h ↦ absurd h ]))
  parse_parts-names (part ∷ parts) out seen res inv e =
      let (h, good, more) = >>=-eq-ok (normalize_hostname domain_to_ascii part) _ e in
      let fresh = not (member h.as_str seen) in
      let (d, listed) =
        parse_parts-names parts (next_out h fresh out) (next_seen h fresh seen) res
          (round-InStep h out seen inv) more in
      (
        d,
        λ t.
            let round = round-member h out seen t inv in
            (
              λ m. elim ((listed t).0 m) [
                | inr later ↦ inr (inr later)
                | inl old ↦ elim (round.0 old) [
                  | inl o ↦ inl o
                  | inr here ↦ inr (inl (h, good, here))
                ]
              ],
              λ s. (listed t).1 (elim s [
                | inl o ↦ inl (round.1 (inl o))
                | inr a ↦ elim a [
                  | inl w ↦ inl (round.1 (inr (from_here part h t good w)))
                  | inr later ↦ inr later
                ]
              ]),
            ),
      )
    where
      from_here :
          (part : Text) (h : NormalizedHostname) (t : Text)
          → normalize_hostname domain_to_ascii part ≡ ok h
          → NormalizesTo t part
          → h.as_str ≡ t
      from_here part h t good (k, kgood, e) = cc

  -- `parse_host_list` returns no hostname twice, and returns exactly those that the parts between
  -- the commas normalize to.
  pub parse_host_list-names :
      (raw : Text) (hosts : List NormalizedHostname)
      → parse_host_list domain_to_ascii raw ≡ ok hosts
      → Distinct (names hosts)
        × ((t : Text) → (member t (names hosts) ≡ true) ↔ Any (NormalizesTo t) (split b',' raw))
  unfolding parse_host_list member
  parse_host_list-names raw hosts e =
      let parsed = accepted raw hosts e in
      let (d, listed) = parse_parts-names (split b',' raw) [] [] hosts (tt, λ t. refl) parsed in
      (
        d,
        λ t. (
          λ m. elim ((listed t).0 m) [ inl none_yet ↦ absurd (nothing t none_yet) | inr a ↦ a ],
          λ a. (listed t).1 (inr a),
        ),
      )
    where
      accepted :
          (raw : Text) (hosts : List NormalizedHostname)
          → parse_host_list domain_to_ascii raw ≡ ok hosts
          → parse_parts domain_to_ascii (split b',' raw) [] [] ≡ ok hosts
      accepted raw hosts e =
          let (out, parsed, kept) =
            >>=-eq-ok (parse_parts domain_to_ascii (split b',' raw) [] []) _ e in
          elim (Bool-cases (is_empty out)) [
            | inl empty ↦ let k = rw empty at kept in cc
            | inr full ↦ let k = rw full at kept in cc
          ]

      nothing : (t : Text) → member t [] ≡ true → ⊥
      nothing t m = cc
