-- ===== src/Storage/Routes/Rows.antt =====
-- The table of routes as a map from hostnames: what each statement does to the row of a hostname.
use tailroute.Base.{
  ◌≡◌, refl, subst, ◌∙◌, ap, inl, inr, Bool, true, false, not, ◌&&◌, ◌||◌, Option, none, some, List,
  [], ◌∷◌, map, retain, arith, Bool-cases, if◌then◌else◌,
}
use tailroute.Base.Keys.{
  ◌==◌, list_key, nat_key, list_eq, list_eq_iff, member, member-cons, Distinct,
}
use tailroute.Base.Text.{Text}
use tailroute.Storage.{RouteRow, route_row}
use tailroute.Storage.Routes.{upsert_route, delete_owned, delete_undesired}

abbrev pub hostnames : List RouteRow → List Text
hostnames rs = map (λ r. r.hostname) rs

-- The primary key of the table: no hostname stands in two rows.
abbrev pub IsKeyed : List RouteRow → Type 0
IsKeyed rs = Distinct (hostnames rs)

-- The agent of a row, if there is one, is `agent_id`.
abbrev pub is_owned : Text → Option RouteRow → Bool
is_owned agent_id none = false
is_owned agent_id (some r) = r.agent_id == agent_id

pub route_row-upsert :
    (row : RouteRow) (rs : List RouteRow) (h : Text)
    → route_row h (upsert_route row rs) ≡ (if row.hostname == h then some row else route_row h rs)
unfolding route_row upsert_route
route_row-upsert row [] h = refl
route_row-upsert row (r ∷ rs) h = ground (
  arith,
  route_row-upsert row rs h,
  list_eq_iff r.hostname row.hostname,
  list_eq_iff r.hostname h,
  list_eq_iff row.hostname h,
)

member-upsert :
    (row : RouteRow) (rs : List RouteRow) (h : Text)
    → member h (hostnames (upsert_route row rs))
      ≡ (list_eq row.hostname h || member h (hostnames rs))
unfolding upsert_route member
member-upsert row [] h = refl
member-upsert row (r ∷ rs) h = ground (
  arith,
  member-upsert row rs h,
  list_eq_iff r.hostname row.hostname,
  list_eq_iff r.hostname h,
  list_eq_iff row.hostname h,
)

pub upsert-IsKeyed :
    (row : RouteRow) (rs : List RouteRow) → IsKeyed rs → IsKeyed (upsert_route row rs)
unfolding upsert_route member
upsert-IsKeyed row [] k = (refl, tt)
upsert-IsKeyed row (r ∷ rs) (fresh, k) = elim (Bool-cases (r.hostname == row.hostname)) [
  | inl e ↦ rw e (cc ((list_eq_iff r.hostname row.hostname).0 e, fresh), k)
  | inr e ↦ rw e (
    ground (
      arith,
      member-upsert row rs r.hostname,
      list_eq_iff r.hostname row.hostname,
      list_eq_iff row.hostname r.hostname,
    ),
    upsert-IsKeyed row rs k,
  )
]

member-retain :
    (p : RouteRow → Bool) (rs : List RouteRow) (h : Text)
    → member h (hostnames rs) ≡ false
    → member h (hostnames (retain p rs)) ≡ false
unfolding member
member-retain p [] h e = refl
member-retain p (r ∷ rs) h e = ground (arith, member-retain p rs h)

pub retain-IsKeyed : (p : RouteRow → Bool) (rs : List RouteRow) → IsKeyed rs → IsKeyed (retain p rs)
retain-IsKeyed p [] k = tt
retain-IsKeyed p (r ∷ rs) (fresh, k) = elim (Bool-cases (p r)) [
  | inl e ↦ rw e (member-retain p rs r.hostname fresh, retain-IsKeyed p rs k)
  | inr e ↦ rw e (retain-IsKeyed p rs k)
]

pub route_row-none :
    (rs : List RouteRow) (h : Text) → member h (hostnames rs) ≡ false → route_row h rs ≡ none
unfolding route_row member
route_row-none [] h e = refl
route_row-none (r ∷ rs) h e = ground (arith, route_row-none rs h)

-- A row found under a hostname, if it passes.
abbrev pub keep_if : (RouteRow → Bool) → Option RouteRow → Option RouteRow
keep_if p none = none
keep_if p (some r) = if p r then some r else none

pub route_row-retain :
    (p : RouteRow → Bool) (rs : List RouteRow) (h : Text)
    → IsKeyed rs
    → route_row h (retain p rs) ≡ keep_if p (route_row h rs)
unfolding route_row
route_row-retain p [] h k = refl
route_row-retain p (r ∷ rs) h (fresh, k) = elim (Bool-cases (p r)) [
  | inl e ↦ rw e (ground (arith, route_row-retain p rs h k))
  | inr e ↦ rw e (elim (Bool-cases (r.hostname == h)) [
    | inl here ↦
        rw (here, e)
          (route_row-none (retain p rs) h (
            member-retain p rs h (
              subst (λ n. member n (hostnames rs) ≡ false) ((list_eq_iff r.hostname h).0 here)
                fresh)))
    | inr later ↦ rw later (route_row-retain p rs h k)
  ])
]

pub route_row-hostname :
    (rs : List RouteRow) (h : Text) (r : RouteRow) → route_row h rs ≡ some r → r.hostname ≡ h
unfolding route_row
route_row-hostname [] h r e = cc
route_row-hostname (x ∷ rs) h r e =
    ground (arith, list_eq_iff x.hostname h, route_row-hostname rs h r)

pub route_row-delete_owned :
    (j agent_id : Text) (rs : List RouteRow) (h : Text)
    → IsKeyed rs
    → route_row h (delete_owned j agent_id rs)
      ≡ (if (j == h) && is_owned agent_id (route_row h rs) then none else route_row h rs)
unfolding delete_owned
route_row-delete_owned j agent_id rs h k =
    route_row-retain (λ r. not ((r.hostname == j) && (r.agent_id == agent_id))) rs h k
    ∙ kept (route_row h rs) (λ r. route_row-hostname rs h r)
  where
    kept :
        (o : Option RouteRow)
        → ((r : RouteRow) → o ≡ some r → r.hostname ≡ h)
        → keep_if (λ r. not ((r.hostname == j) && (r.agent_id == agent_id))) o
          ≡ (if (j == h) && is_owned agent_id o then none else o)
    kept none named = ground arith
    kept (some r) named = rw (named r refl) (ground (arith, list_eq_iff h j, list_eq_iff j h))

delete_owned-IsKeyed :
    (j agent_id : Text) (rs : List RouteRow) → IsKeyed rs → IsKeyed (delete_owned j agent_id rs)
unfolding delete_owned
delete_owned-IsKeyed j agent_id rs k = retain-IsKeyed _ rs k

pub delete_undesired-IsKeyed :
    (desired : List Text) (agent_id : Text) (owned rs : List RouteRow)
    → IsKeyed rs
    → IsKeyed (delete_undesired desired agent_id owned rs)
unfolding delete_undesired
delete_undesired-IsKeyed desired agent_id [] rs k = k
delete_undesired-IsKeyed desired agent_id (r ∷ owned) rs k =
    elim (Bool-cases (member r.hostname desired)) [
      | inl e ↦ rw e (delete_undesired-IsKeyed desired agent_id owned rs k)
      | inr e ↦ rw e (
          delete_undesired-IsKeyed desired agent_id owned _
            (delete_owned-IsKeyed r.hostname agent_id rs k))
    ]

-- A hostname of the list that is not wanted and that the agent owns.
abbrev dropped : List Text → Text → List RouteRow → List RouteRow → Text → Bool
dropped desired agent_id owned rs h =
    (member h (hostnames owned) && not (member h desired)) && is_owned agent_id (route_row h rs)

dropped_wanted :
    (desired : List Text) (agent_id : Text) (r : RouteRow) (owned rs : List RouteRow) (h : Text)
    → member r.hostname desired ≡ true
    → dropped desired agent_id owned rs h ≡ dropped desired agent_id (r ∷ owned) rs h
dropped_wanted desired agent_id r owned rs h e =
    ground (arith, member-cons h r.hostname (hostnames owned), list_eq_iff r.hostname h)

dropped_unwanted :
    (desired : List Text) (agent_id : Text) (r : RouteRow) (owned rs : List RouteRow) (h : Text)
    → IsKeyed rs
    → member r.hostname desired ≡ false
    → (if dropped desired agent_id owned (delete_owned r.hostname agent_id rs) h
        then none
        else route_row h (delete_owned r.hostname agent_id rs))
      ≡ (if dropped desired agent_id (r ∷ owned) rs h then none else route_row h rs)
dropped_unwanted desired agent_id r owned rs h k e = ground (
  arith,
  member-cons h r.hostname (hostnames owned),
  list_eq_iff r.hostname h,
  route_row-delete_owned r.hostname agent_id rs h k,
)

pub route_row-delete_undesired :
    (desired : List Text) (agent_id : Text) (owned rs : List RouteRow) (h : Text)
    → IsKeyed rs
    → route_row h (delete_undesired desired agent_id owned rs)
      ≡ (if dropped desired agent_id owned rs h then none else route_row h rs)
unfolding delete_undesired
route_row-delete_undesired desired agent_id [] rs h k = unfold member in refl
route_row-delete_undesired desired agent_id (r ∷ owned) rs h k =
    elim (Bool-cases (member r.hostname desired)) [
      | inl e ↦ rw e (
          route_row-delete_undesired desired agent_id owned rs h k
          ∙ ap (λ (b : Bool). if b then none else route_row h rs)
              (dropped_wanted desired agent_id r owned rs h e))
      | inr e ↦ rw e (
          route_row-delete_undesired desired agent_id owned (delete_owned r.hostname agent_id rs) h
            (delete_owned-IsKeyed r.hostname agent_id rs k)
          ∙ dropped_unwanted desired agent_id r owned rs h k e)
    ]

-- The list of the agent's own rows has the hostnames that it owns.
pub member-owned :
    (agent_id h : Text) (rs : List RouteRow)
    → IsKeyed rs
    → member h (hostnames (retain (λ r. r.agent_id == agent_id) rs))
      ≡ is_owned agent_id (route_row h rs)
unfolding route_row
member-owned agent_id h [] k = unfold member in refl
member-owned agent_id h (r ∷ rs) (fresh, k) = ground (
  arith,
  member-owned agent_id h rs k,
  member-cons h r.hostname (hostnames (retain (λ r. r.agent_id == agent_id) rs)),
  list_eq_iff r.hostname h,
  route_row-none rs h,
)
