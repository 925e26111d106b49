-- ===== src/Storage/Tokens/SingleUse.antt =====
-- The enrollment tokens: a token enrolls one agent, if its uses do not overlap.
use tailroute.Base.{
  ℕ, ◌+◌, ◌≡◌, refl, ap, inl, inr, ◌⊎◌, Bool, true, false, none, some, List, [], ◌∷◌, map, retain,
  length, find, arith, Bool-cases, Option-cases, if◌then◌else◌, ok, err,
}
use tailroute.Base.Keys.{◌==◌, list_key, nat_key, list_eq_iff, member, member-cons, Distinct}
use tailroute.Base.Text.{Text, text}
use tailroute.Common.Auth.{Argon2, verify_token}
use tailroute.Storage.{Rfc3339, TokenRow, Database, other}
use tailroute.Storage.Tokens.{
  is_unused, mark_used, unused_tokens, consume_fetched, consume_enrollment_token,
}

abbrev pub hashes : List TokenRow → List Text
hashes rows = map (λ t. t.token_hash) rows

-- The primary key of the table.
abbrev pub IsKeyed : List TokenRow → Type 0
IsKeyed rows = Distinct (hashes rows)

mark_absent :
    (used hash : Text) (rows : List TokenRow)
    → member hash (hashes rows) ≡ false
    → mark_used used hash rows ≡ rows
unfolding mark_used
mark_absent used hash [] h = refl
mark_absent used hash (t ∷ rows) h =
    ground (arith, member-cons hash t.token_hash (hashes rows), mark_absent used hash rows)

module _ (verify : Text → Bool) where
  abbrev passing : List TokenRow → List TokenRow
  passing rows = retain (λ t. verify t.token_hash) rows

  find_verifies :
      (rows : List TokenRow) (t : TokenRow)
      → find (λ t. verify t.token_hash) rows ≡ some t
      → verify t.token_hash ≡ true
  find_verifies [] t e = cc
  find_verifies (r ∷ rows) t e = ground (arith, find_verifies rows t)

  none_passes :
      (rows : List TokenRow) → find (λ t. verify t.token_hash) rows ≡ none → passing rows ≡ []
  none_passes [] e = refl
  none_passes (r ∷ rows) e = ground (arith, none_passes rows)

  mark_skip :
      (used hash : Text) (r : TokenRow) (rows : List TokenRow)
      → mark_used used hash (r ∷ rows)
        ≡ (if r.token_hash == hash then record r { used_at = some used } else r)
          ∷ mark_used used hash rows
  unfolding mark_used
  mark_skip used hash r rows = refl

  -- Marking the first unused token that verifies takes one token out of those that are left.
  mark_one :
      (used : Text) (rows : List TokenRow) (t : TokenRow)
      → IsKeyed rows
      → find (λ t. verify t.token_hash) (retain is_unused rows) ≡ some t
      → length (passing (retain is_unused rows))
        ≡ length (passing (retain is_unused (mark_used used t.token_hash rows))) + 1
  mark_one used [] t k e = cc
  mark_one used (r ∷ rows) t (fresh, k) e = elim (Bool-cases (is_unused r)) [
    | inr spent ↦ rw mark_skip (ground (arith, spent, mark_one used rows t k))
    | inl open_yet ↦ elim (Bool-cases (verify r.token_hash)) [
      | inl this ↦
          let same : r ≡ t = ground (arith, open_yet, this) in
          rw (← same) (
            rw mark_skip (
              rw
                (
                  (list_eq_iff r.token_hash r.token_hash).1 refl,
                  mark_absent used r.token_hash rows fresh,
                  open_yet,
                  this,
                )
                (omega arith)))
      | inr other_one ↦
          let found = find_verifies (retain is_unused rows) t in
          rw mark_skip (
            ground (
              arith,
              open_yet,
              other_one,
              found,
              list_eq_iff r.token_hash t.token_hash,
              mark_one used rows t k,
            ))
    ]
  ]

module _ (chrono : Rfc3339) (argon : Argon2) where
  -- How many unused tokens of the database the text verifies against.
  abbrev pub usable : Text → Database → ℕ
  usable token db =
      length (passing (λ hash. verify_token argon hash token) (unused_tokens chrono argon db))

  -- A use of an enrollment token succeeds exactly if an unused token verifies, and takes one such
  -- token away; a failing use changes nothing. The condition: no hash stands in two rows of the
  -- table of tokens.
  pub consume_counts :
      (token : Text) (now : ℕ) (db : Database)
      → IsKeyed db.enrollment_tokens
      → (((consume_enrollment_token chrono argon token now db).0 ≡ ok tt)
          × (usable token db
              ≡ usable token (consume_enrollment_token chrono argon token now db).1 + 1))
        ⊎ (((consume_enrollment_token chrono argon token now db)
              ≡ (err (other (text "invalid enrollment token")), db))
            × (usable token db ≡ 0))
  unfolding consume_enrollment_token
  consume_counts token now db k =
      elim (Option-cases (
        find (λ t. verify_token argon t.token_hash token)
          (retain is_unused db.enrollment_tokens))) [
            | inl nothing ↦ inr (
              rw (nothing, consume_fetched),
              ap length (none_passes (λ hash. verify_token argon hash token) _ nothing),
            )
            | inr (t, found) ↦ inl (
              rw (found, consume_fetched),
              rw (found, consume_fetched)
                  (mark_one (λ hash. verify_token argon hash token) (chrono.to_rfc3339 now)
                    db.enrollment_tokens t k found),
            )
          ]

  -- Two requests with one token whose reads both come before either write both succeed, though the
  -- database holds a single token for them.
  pub consume_race :
      (token : Text) (first second : ℕ) (db : Database)
      → usable token db ≡ 1
      → (let fetched = unused_tokens chrono argon db in
          let after = consume_fetched chrono argon fetched token first db in
          (after.0 ≡ ok tt)
          × ((consume_fetched chrono argon fetched token second after.1).0 ≡ ok tt))
  unfolding consume_fetched
  consume_race token first second db one =
      elim (Option-cases
        (find (λ t. verify_token argon t.token_hash token) (unused_tokens chrono argon db))) [
          | inl nothing ↦ absurd (
              omega (
                arith,
                one,
                ap length (
                    none_passes (λ hash. verify_token argon hash token)
                      (unused_tokens chrono argon db) nothing),
              ))
          | inr (t, found) ↦ (rw (found, consume_fetched), rw (found, consume_fetched))
        ]
