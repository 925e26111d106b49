-- ===== src/Controller/Sessions/Laws.antt =====
-- How long a session of crates/tailsvc-controller/src/sessions.rs is valid.
use tailroute.Base.{
  ℕ, ◌+◌, ◌≤◌, ◌≡◌, refl, sym, ap, ◌∙◌, subst, inl, inr, arith, Bool, false, ◌||◌, Option, none,
  some, List, [], ◌∷◌, Bool-cases, ltb, map, if◌then◌else◌,
}
use tailroute.Base.Keys.{◌==◌, ==_refl, list_key, nat_key, list_eq_iff, member, Distinct}
use tailroute.Base.Text.{Text}
use tailroute.Base.Table.{Table, get, insert, remove, get-insert, get-remove}
use tailroute.Controller.Sessions.{SessionStore, purge_locked, judge, create, valid, revoke}

abbrev tokens : Table Text ℕ → List Text
tokens m = map (λ (t, _). t) m

-- The sessions are a map: no token stands twice.
abbrev pub IsKeyed : Table Text ℕ → Type 0
IsKeyed m = Distinct (tokens m)

abbrev unexpired : ℕ → Option ℕ → Option ℕ
unexpired now none = none
unexpired now (some exp) = if ltb now exp then some exp else none

abbrev is_live : ℕ → Option ℕ → Bool
is_live now none = false
is_live now (some exp) = ltb now exp

get-absent : (k : Text) (m : Table Text ℕ) → member k (tokens m) ≡ false → get k m ≡ none
unfolding get member
get-absent k [] h = refl
get-absent k ((t, e) ∷ m) h = ground (arith, get-absent k m)

member-purge :
    (k : Text) (now : ℕ) (m : Table Text ℕ)
    → member k (tokens m) ≡ false
    → member k (tokens (purge_locked now m)) ≡ false
unfolding member purge_locked
member-purge k now [] h = refl
member-purge k now ((t, e) ∷ m) h = ground (arith, member-purge k now m)

pub purge-IsKeyed : (now : ℕ) (m : Table Text ℕ) → IsKeyed m → IsKeyed (purge_locked now m)
unfolding purge_locked
purge-IsKeyed now [] k = tt
purge-IsKeyed now ((t, e) ∷ m) (fresh, k) = elim (Bool-cases (ltb now e)) [
  | inl live ↦ rw live (member-purge t now m fresh, purge-IsKeyed now m k)
  | inr gone ↦ rw gone (purge-IsKeyed now m k)
]

get-purge :
    (k : Text) (now : ℕ) (m : Table Text ℕ)
    → IsKeyed m
    → get k (purge_locked now m) ≡ unexpired now (get k m)
unfolding purge_locked get
get-purge k now [] keyed = refl
get-purge k now ((t, e) ∷ m) (fresh, keyed) = elim (Bool-cases (t == k)) [
  | inl here ↦
      let absent : member k (tokens m) ≡ false =
        subst (λ x. member x (tokens m) ≡ false) ((list_eq_iff t k).0 here) fresh in
      let gone : get k (purge_locked now m) ≡ none =
        get-absent k (purge_locked now m) (member-purge k now m absent) in
      ground (arith, gone, here)
  | inr later ↦ ground (arith, get-purge k now m keyed, later)
]

member-insert :
    (j k : Text) (v : ℕ) (m : Table Text ℕ)
    → member j (tokens (insert k v m)) ≡ ((k == j) || member j (tokens m))
unfolding member insert
member-insert j k v [] = refl
member-insert j k v ((t, e) ∷ m) =
    ground (arith, member-insert j k v m, list_eq_iff t k, list_eq_iff t j, list_eq_iff k j)

pub insert-IsKeyed : (k : Text) (v : ℕ) (m : Table Text ℕ) → IsKeyed m → IsKeyed (insert k v m)
unfolding insert
insert-IsKeyed k v [] keyed = (unfold member in refl, tt)
insert-IsKeyed k v ((t, e) ∷ m) (fresh, keyed) = elim (Bool-cases (t == k)) [
  | inl same ↦ rw same (cc ((list_eq_iff t k).0 same, fresh), keyed)
  | inr new ↦ rw new (
    ground (arith, member-insert t k v m, list_eq_iff t k, list_eq_iff k t, fresh),
    insert-IsKeyed k v m keyed,
  )
]

member-remove :
    (j k : Text) (m : Table Text ℕ)
    → member j (tokens m) ≡ false
    → member j (tokens (remove k m)) ≡ false
unfolding member remove
member-remove j k [] h = refl
member-remove j k ((t, e) ∷ m) h = ground (arith, member-remove j k m)

pub remove-IsKeyed : (k : Text) (m : Table Text ℕ) → IsKeyed m → IsKeyed (remove k m)
unfolding remove
remove-IsKeyed k [] keyed = tt
remove-IsKeyed k ((t, e) ∷ m) (fresh, keyed) = elim (Bool-cases (t == k)) [
  | inl same ↦ rw same (remove-IsKeyed k m keyed)
  | inr new ↦ rw new (member-remove t k m fresh, remove-IsKeyed k m keyed)
]

-- A token is valid exactly when its session is stored and has not run out.
pub valid-eq :
    (token : Text) (now : ℕ) (store : SessionStore)
    → IsKeyed store.inner
    → (valid token now store).0 ≡ is_live now (get token store.inner)
unfolding valid
valid-eq token now store keyed =
    let purged : SessionStore = record store { inner = purge_locked now store.inner } in
    ap (λ o. (judge token now purged o).0) (get-purge token now store.inner keyed)
    ∙ judged purged (get token store.inner)
  where
    judged :
        (s : SessionStore) (o : Option ℕ) → (judge token now s (unexpired now o)).0 ≡ is_live now o
    judged s none = refl
    judged s (some exp) = elim (Bool-cases (ltb now exp)) [
      | inl live ↦ rw live (rw live refl)
      | inr gone ↦ rw gone refl
    ]

pub create-IsKeyed :
    (token : Text) (now : ℕ) (store : SessionStore)
    → IsKeyed store.inner
    → IsKeyed (create token now store).1.inner
unfolding create
create-IsKeyed token now store keyed =
    insert-IsKeyed token (now + store.ttl) _ (purge-IsKeyed now store.inner keyed)

pub valid-IsKeyed :
    (token : Text) (now : ℕ) (store : SessionStore)
    → IsKeyed store.inner
    → IsKeyed (valid token now store).1.inner
unfolding valid
valid-IsKeyed token now store keyed = judged (get token (purge_locked now store.inner))
  where
    purged : SessionStore
    purged = record store { inner = purge_locked now store.inner }

    left : IsKeyed purged.inner
    left = purge-IsKeyed now store.inner keyed

    judged : (o : Option ℕ) → IsKeyed (judge token now purged o).1.inner
    judged none = left
    judged (some exp) = elim (Bool-cases (ltb now exp)) [
      | inl live ↦ rw live left
      | inr gone ↦ rw gone (remove-IsKeyed token purged.inner left)
    ]

module _ (token : Text) (now later : ℕ) (store : SessionStore) where
  abbrev created : SessionStore
  created = (create token now store).1

  -- A session that is created is valid until the store's lifetime has passed and not after it,
  -- every other token is as valid as it was, and a revoked one is not valid. The conditions: no
  -- token stands twice in the table of sessions, and the later instant is not before the creation.
  pub session_lifetime :
      (t : Text)
      → IsKeyed store.inner
      → now ≤ later
      → ((valid t later created).0
          ≡ (if token == t then ltb later (now + store.ttl) else (valid t later store).0))
        × ((valid token later (revoke token created)).0 ≡ false)
  unfolding create revoke
  session_lifetime t keyed le =
      let purged = purge-IsKeyed now store.inner keyed in
      let made = insert-IsKeyed token (now + store.ttl) (purge_locked now store.inner) purged in
      (
        valid-eq t later created made ∙ elim (Bool-cases (token == t)) [
          | inl same ↦ rw (get-insert token t, same) refl
          | inr other ↦
              rw (get-insert token t, other, get-purge t now store.inner keyed)
                (still_live (get t store.inner) ∙ sym (valid-eq t later store keyed))
        ],
        valid-eq token later (revoke token created) (remove-IsKeyed token created.inner made)
            ∙ rw (get-remove token token, ==_refl token) refl,
      )
    where
      still_live : (o : Option ℕ) → is_live later (unexpired now o) ≡ is_live later o
      still_live none = refl
      still_live (some exp) = ground (arith, le)
