-- ===== src/Storage/Tokens.antt =====
-- The enrollment tokens of crates/tailsvc-storage/src/store.rs.
pub mod SingleUse
use tailroute.Base.{
  ℕ, Result, ok, err, Bool, not, ◌&&◌, Option, none, some, List, [], ◌∷◌, ◌++◌, map, retain, any,
  is_some, find, if◌then◌else◌,
}
use tailroute.Base.Keys.{◌==◌, list_key, nat_key}
use tailroute.Base.Text.{Text, text}
use tailroute.Common.Auth.{Argon2, hash_token, verify_token}
use tailroute.Storage.{Rfc3339, StorageError, sqlx, other, TokenRow, Database}

-- `SELECT … WHERE used_at IS NULL`.
abbrev pub is_unused : TokenRow → Bool
is_unused t = not (is_some t.used_at)

-- `UPDATE enrollment_tokens SET used_at = ? WHERE token_hash = ?`.
unfoldable pub mark_used : Text → Text → List TokenRow → List TokenRow
mark_used used hash rows =
    map (λ t. if t.token_hash == hash then record t { used_at = some used } else t) rows

module _ (chrono : Rfc3339) (argon : Argon2) where
  -- `token` and `salt` are what the random generator yields.
  unfoldable pub create_enrollment_token :
      Text → Text → ℕ → Database → Result Text StorageError × Database
  create_enrollment_token token salt now db = elim (hash_token argon salt token) [
    | err e ↦ (err (other e), db)
    | ok token_hash ↦
        if any (λ t. t.token_hash == token_hash) db.enrollment_tokens then (err sqlx, db) else (
          ok token,
          record db {
            enrollment_tokens =
                db.enrollment_tokens
                ++ record {
                  token_hash = token_hash;
                  created_at = chrono.to_rfc3339 now;
                  used_at = none;
                  expires_at = none;
                }
                  ∷ [];
          },
        )
  ]

  -- `SELECT token_hash, used_at FROM enrollment_tokens WHERE used_at IS NULL`, the first await.
  unfoldable pub unused_tokens : Database → List TokenRow
  unused_tokens db = retain is_unused db.enrollment_tokens

  -- The loop over the fetched rows: the first whose hash verifies is marked used.
  unfoldable pub consume_fetched :
      List TokenRow → Text → ℕ → Database → Result Unit StorageError × Database
  unfolding mark_used
  consume_fetched rows token now db =
      elim (find (λ t. verify_token argon t.token_hash token) rows) [
        | none ↦ (err (other (text "invalid enrollment token")), db)
        | some t ↦ (
          ok tt,
          record db {
            enrollment_tokens = mark_used (chrono.to_rfc3339 now) t.token_hash db.enrollment_tokens;
          },
        )
      ]

  unfoldable pub consume_enrollment_token :
      Text → ℕ → Database → Result Unit StorageError × Database
  unfolding unused_tokens consume_fetched
  consume_enrollment_token token now db = consume_fetched (unused_tokens db) token now db
