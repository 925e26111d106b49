-- ===== src/Storage/Routes/Put.antt =====
-- `put_routes` against a description of each hostname by itself.
use tailroute.Base.{
  ℕ, ◌≡◌, refl, ◌∙◌, ap, inl, inr, not, ◌&&◌, Option, none, some, List, [], ◌∷◌, map, retain, arith,
  if◌then◌else◌, and_then, or_else, is_some, ok, Result-cases,
}
use tailroute.Base.Keys.{◌==◌, list_key, nat_key, list_eq_iff, member, member-cons}
use tailroute.Base.Text.{Text, to_ascii_lowercase}
use tailroute.Common.Api.{RouteEntry}
use tailroute.Storage.{Rfc3339, AgentRow, RouteRow, Database, agent_row, route_row, is_alive}
use tailroute.Storage.Agents.{AgentRecord, get_agent}
use tailroute.Storage.Routes.{
  delete_undesired, Sync, owner_of, requested_row, live_owner, put_entry, put_entries, put_routes,
  PutRoutesOutcome,
}
use tailroute.Storage.Routes.Rows.{
  IsKeyed, is_owned, route_row-upsert, upsert-IsKeyed, route_row-delete_undesired, member-owned,
  delete_undesired-IsKeyed,
}

-- The last request for a hostname.
abbrev pub last_entry : Text → List RouteEntry → Option RouteEntry
last_entry h [] = none
last_entry h (e ∷ es) =
    or_else (last_entry h es) (if to_ascii_lowercase e.hostname == h then some e else none)

abbrev pub requested : List RouteEntry → List Text
requested entries = map (λ e. to_ascii_lowercase e.hostname) entries

pub member-requested :
    (h : Text) (es : List RouteEntry) → member h (requested es) ≡ is_some (last_entry h es)
member-requested h [] = unfold member in refl
member-requested h (e ∷ es) =
    ground
      (arith, member-requested h es, member-cons h (to_ascii_lowercase e.hostname) (requested es))

module _ (chrono : Rfc3339) (agents : List AgentRow) (agent_id : Text) (ttl now : ℕ) where
  -- The other agent that holds a row, if it is alive.
  abbrev pub holder : Option RouteRow → Option (Text × Option Text)
  holder none = none
  holder (some r) = and_then (agent_row r.agent_id agents) (λ a.
      if not (r.agent_id == agent_id) && is_alive chrono now ttl a.last_seen_at
      then some (r.agent_id, a.last_seen_at)
      else none)

  -- The row of a hostname after the requests, from the row before.
  abbrev pub settled : Option RouteRow → Option RouteEntry → Option RouteRow
  settled before none = before
  settled before (some e) =
      if is_some (holder before) then before else some (requested_row chrono agent_id now e)

  pub live_owner-eq-holder :
      (h : Text) (rs : List RouteRow)
      → live_owner chrono agents agent_id ttl now h rs ≡ holder (route_row h rs)
  unfolding live_owner owner_of
  live_owner-eq-holder h rs = ground arith

  pub holder_self : (r : RouteRow) → r.agent_id ≡ agent_id → holder (some r) ≡ none
  holder_self r e = ground (arith, list_eq_iff r.agent_id agent_id)

  abbrev entry_row : RouteEntry → RouteRow
  entry_row e = requested_row chrono agent_id now e

  pub put_entry_row :
      (e : RouteEntry) (s : Sync) (h : Text)
      → route_row h (put_entry chrono agents agent_id ttl now e s).rows
        ≡ settled (route_row h s.rows) (if to_ascii_lowercase e.hostname == h then some e else none)
  unfolding put_entry requested_row
  put_entry_row e s h =
      let host = to_ascii_lowercase e.hostname in
      ground (
        arith,
        live_owner-eq-holder host s.rows,
        route_row-upsert (entry_row e) s.rows h,
        list_eq_iff host h,
      )

  settled-settled :
      (before : Option RouteRow) (e l : Option RouteEntry)
      → settled (settled before e) l ≡ settled before (or_else l e)
  unfolding requested_row
  settled-settled before none none = refl
  settled-settled before none (some l) = refl
  settled-settled before (some e) none = refl
  settled-settled before (some e) (some l) = ground (arith, holder_self (entry_row e) refl)

  put_entries_row :
      (es : List RouteEntry) (s : Sync) (h : Text)
      → route_row h (put_entries chrono agents agent_id ttl now es s).rows
        ≡ settled (route_row h s.rows) (last_entry h es)
  unfolding put_entries
  put_entries_row [] s h = refl
  put_entries_row (e ∷ es) s h =
      let first = if to_ascii_lowercase e.hostname == h then some e else none in
      put_entries_row es (put_entry chrono agents agent_id ttl now e s) h
      ∙ ap (λ b. settled b (last_entry h es)) (put_entry_row e s h)
      ∙ settled-settled (route_row h s.rows) first (last_entry h es)

  put_entry-IsKeyed :
      (e : RouteEntry) (s : Sync)
      → IsKeyed s.rows
      → IsKeyed (put_entry chrono agents agent_id ttl now e s).rows
  unfolding put_entry
  put_entry-IsKeyed e s k = ground (arith, upsert-IsKeyed (entry_row e) s.rows k)

  pub put_entries-IsKeyed :
      (es : List RouteEntry) (s : Sync)
      → IsKeyed s.rows
      → IsKeyed (put_entries chrono agents agent_id ttl now es s).rows
  unfolding put_entries
  put_entries-IsKeyed [] s k = k
  put_entries-IsKeyed (e ∷ es) s k =
      put_entries-IsKeyed es (put_entry chrono agents agent_id ttl now e s)
        (put_entry-IsKeyed e s k)

-- The row of a hostname after `put_routes`, from the row before.
module _ (chrono : Rfc3339) (agent_id : Text) (entries : List RouteEntry) (ttl now : ℕ)
    (db : Database) where
  abbrev pub expected_row : Text → Option RouteRow
  expected_row h =
      let before = route_row h db.routes in
      elim (last_entry h entries) [
        | none ↦ if is_owned agent_id before then none else before
        | some e ↦
            if is_some (holder chrono db.agents agent_id ttl now before)
            then before
            else some (requested_row chrono agent_id now e)
      ]

  abbrev start : Sync
  start = record { rows = db.routes; accepted = []; conflicts = [] }

  abbrev pub finish : Sync
  finish = put_entries chrono db.agents agent_id ttl now entries start

  abbrev cleared : List RouteRow
  cleared =
      delete_undesired (requested entries) agent_id
        (retain (λ r. r.agent_id == agent_id) finish.rows) finish.rows

  abbrev pub result : PutRoutesOutcome
  result = record { accepted = finish.accepted; conflicts = finish.conflicts }

  -- A current agent's request runs to its end.
  pub put_routes-current :
      (a : AgentRecord)
      → get_agent chrono agent_id now db ≡ ok a
      → put_routes chrono agent_id entries ttl now db ≡ (ok result, record db { routes = cleared })
  unfolding put_routes
  put_routes-current a e = rw (e, put_routes)

  cleared_row : (h : Text) → IsKeyed db.routes → route_row h cleared ≡ expected_row h
  cleared_row h k =
      let keyed = put_entries-IsKeyed chrono db.agents agent_id ttl now entries start k in
      let row = put_entries_row chrono db.agents agent_id ttl now entries start h in
      route_row-delete_undesired (requested entries) agent_id _ finish.rows h keyed
      ∙ rw (member-owned agent_id h finish.rows keyed, member-requested h entries, row)
          (settled_cleared (route_row h db.routes) (last_entry h entries))
    where
      settled_cleared :
          (before : Option RouteRow) (e : Option RouteEntry)
          → (if (is_owned agent_id (settled chrono db.agents agent_id ttl now before e)
                  && not (is_some e))
                && is_owned agent_id (settled chrono db.agents agent_id ttl now before e)
              then none
              else settled chrono db.agents agent_id ttl now before e)
            ≡ elim e [
              | none ↦ if is_owned agent_id before then none else before
              | some x ↦
                  if is_some (holder chrono db.agents agent_id ttl now before)
                  then before
                  else some (requested_row chrono agent_id now x)
            ]
      settled_cleared before none = ground arith
      settled_cleared before (some x) = ground arith

  -- After `put_routes` by a current agent, whatever the hostname: one that was not requested has
  -- the row it had, unless the agent owned it, and then it has none; one that was requested has
  -- the row it had if another agent that is alive owns it, and otherwise the row of the last
  -- request for it. The condition: no hostname stands in two rows of the table of routes.
  pub put_routes_row :
      (a : AgentRecord)
      → IsKeyed db.routes
      → get_agent chrono agent_id now db ≡ ok a
      → (h : Text)
      → route_row h (put_routes chrono agent_id entries ttl now db).1.routes ≡ expected_row h
  put_routes_row a k e h = rw (put_routes-current a e) (cleared_row h k)

  -- `put_routes` keeps the primary key of the table.
  pub put_routes-IsKeyed :
      IsKeyed db.routes → IsKeyed (put_routes chrono agent_id entries ttl now db).1.routes
  unfolding put_routes
  put_routes-IsKeyed k = elim (Result-cases (get_agent chrono agent_id now db)) [
    | inr (x, bad) ↦ rw (bad, put_routes) k
    | inl (a, good) ↦ rw (put_routes-current a good) (
        delete_undesired-IsKeyed (requested entries) agent_id _ finish.rows
          (put_entries-IsKeyed chrono db.agents agent_id ttl now entries start k))
  ]
