-- ===== src/Controller/Sessions.antt =====
-- crates/tailsvc-controller/src/sessions.rs. The clock's reading and the random token are arguments.
pub mod Laws
use tailroute.Base.{
  ℕ, ◌+◌, Bool, true, false, Option, none, some, List, [], ◌∷◌, ltb, retain, if◌then◌else◌,
}
use tailroute.Base.Keys.{list_key, nat_key}
use tailroute.Base.Text.{Text}
use tailroute.Base.Table.{Table, get, insert, remove}

pub record SessionStore : Type 0 where
  pub inner : Table Text ℕ
  pub ttl : ℕ

abbrev pub new : ℕ → SessionStore
new ttl = record { inner = []; ttl = ttl }

unfoldable pub purge_locked : ℕ → Table Text ℕ → Table Text ℕ
purge_locked now sessions = retain (λ (_, exp). ltb now exp) sessions

unfoldable pub create : Text → ℕ → SessionStore → Text × SessionStore
create token now store =
    (token, record store { inner = insert token (now + store.ttl) (purge_locked now store.inner) })

-- What the stored end of a session comes to.
abbrev pub judge : Text → ℕ → SessionStore → Option ℕ → Bool × SessionStore
judge token now store none = (false, store)
judge token now store (some exp) =
    if ltb now exp
    then (true, store)
    else (false, record store { inner = remove token store.inner })

unfoldable pub valid : Text → ℕ → SessionStore → Bool × SessionStore
valid token now store =
    let purged : SessionStore = record store { inner = purge_locked now store.inner } in
    judge token now purged (get token purged.inner)

unfoldable pub revoke : Text → SessionStore → SessionStore
revoke token store = record store { inner = remove token store.inner }
