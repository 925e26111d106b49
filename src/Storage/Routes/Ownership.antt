-- ===== src/Storage/Routes/Ownership.antt =====
-- What `put_routes` answers.
use tailroute.Base.{
  ℕ, ◌+◌, ◌≡◌, refl, sym, ◌∙◌, ap, inl, inr, not, ◌&&◌, Option, none, some, List, [], ◌∷◌, ◌++◌,
  retain, arith, Option-cases, if◌then◌else◌, and_then, unwrap_or, is_some, ok,
}
use tailroute.Base.Keys.{◌==◌, list_key, nat_key, list_eq_iff, member, member-cons}
use tailroute.Base.Text.{Text, to_ascii_lowercase}
use tailroute.Common.Api.{RouteEntry, RouteConflict}
use tailroute.Storage.{Rfc3339, AgentRow, RouteRow, Database, route_row}
use tailroute.Storage.Agents.{AgentRecord, get_agent}
use tailroute.Storage.Routes.{
  Sync, requested_row, put_entry, put_entries, put_routes, PutRoutesOutcome,
}
use tailroute.Storage.Routes.Rows.{IsKeyed, is_owned}
use tailroute.Storage.Routes.Put.{
  holder, settled, last_entry, requested, member-requested, live_owner-eq-holder, put_entry_row,
  holder_self, put_routes-current, put_routes_row,
}
use mathlib.Core.List.{append_assoc, append-nil}

-- The conflict that is reported for a hostname with this owner.
abbrev pub conflict_of : Rfc3339 → ℕ → ℕ → Text → Text × Option Text → RouteConflict
conflict_of chrono ttl now host (owner, last) = record {
  hostname = host;
  owner_agent_id = owner;
  lease_expires_at = unwrap_or (and_then last chrono.parse_from_rfc3339) now + ttl;
}

-- The conflicts of the requested hostnames, by the owners that they have.
abbrev pub refusal : Rfc3339 → ℕ → ℕ → Text → Option (Text × Option Text) → List RouteConflict
refusal chrono ttl now host none = []
refusal chrono ttl now host (some o) = conflict_of chrono ttl now host o ∷ []

abbrev pub refusals :
    Rfc3339 → ℕ → ℕ → (Text → Option (Text × Option Text)) → List Text → List RouteConflict
refusals chrono ttl now owner [] = []
refusals chrono ttl now owner (h ∷ hs) =
    refusal chrono ttl now h (owner h) ++ refusals chrono ttl now owner hs

module _ (chrono : Rfc3339) (agents : List AgentRow) (agent_id : Text) (ttl now : ℕ) where
  abbrev step : RouteEntry → Sync → Sync
  step e s = put_entry chrono agents agent_id ttl now e s

  abbrev owner_in : Sync → Text → Option (Text × Option Text)
  owner_in s h = holder chrono agents agent_id ttl now (route_row h s.rows)

  -- A round leaves the other live owner of every hostname as it was.
  owner_in-step : (e : RouteEntry) (s : Sync) (h : Text) → owner_in (step e s) h ≡ owner_in s h
  owner_in-step e s h =
      ap (holder chrono agents agent_id ttl now)
        (put_entry_row chrono agents agent_id ttl now e s h)
      ∙ settled_holder (route_row h s.rows)
          (if to_ascii_lowercase e.hostname == h then some e else none)
    where
      settled_holder :
          (before : Option RouteRow) (x : Option RouteEntry)
          → holder chrono agents agent_id ttl now (settled chrono agents agent_id ttl now before x)
            ≡ holder chrono agents agent_id ttl now before
      settled_holder before none = refl
      settled_holder before (some x) =
          unfold requested_row in
          ground (
            arith,
            holder_self chrono agents agent_id ttl now (requested_row chrono agent_id now x) refl,
          )

  abbrev host_of : RouteEntry → Text
  host_of e = to_ascii_lowercase e.hostname

  step_accepted :
      (e : RouteEntry) (s : Sync)
      → (step e s).accepted
        ≡ (if is_some (owner_in s (host_of e)) then s.accepted else s.accepted ++ host_of e ∷ [])
  unfolding put_entry
  step_accepted e s =
      ground (arith, live_owner-eq-holder chrono agents agent_id ttl now (host_of e) s.rows)

  step_conflicts :
      (e : RouteEntry) (s : Sync)
      → (step e s).conflicts
        ≡ s.conflicts ++ refusal chrono ttl now (host_of e) (owner_in s (host_of e))
  unfolding put_entry
  step_conflicts e s = ground (
    arith,
    live_owner-eq-holder chrono agents agent_id ttl now (host_of e) s.rows,
    append-nil s.conflicts,
  )

  -- The loop's two lists, for the owners that the table has at its start.
  loop_lists :
      (owner : Text → Option (Text × Option Text)) (es : List RouteEntry) (s : Sync)
      → ((h : Text) → owner_in s h ≡ owner h)
      → ((put_entries chrono agents agent_id ttl now es s).accepted
          ≡ s.accepted ++ retain (λ h. not (is_some (owner h))) (requested es))
        × ((put_entries chrono agents agent_id ttl now es s).conflicts
            ≡ s.conflicts ++ refusals chrono ttl now owner (requested es))
  unfolding put_entries
  loop_lists owner [] s same = (sym (append-nil s.accepted), sym (append-nil s.conflicts))
  loop_lists owner (e ∷ es) s same =
      let (a, c) = loop_lists owner es (step e s) (λ h. owner_in-step e s h ∙ same h) in
      (a ∙ accept, c ∙ refuse)
    where
      accept :
          (step e s).accepted ++ retain (λ h. not (is_some (owner h))) (requested es)
          ≡ s.accepted ++ retain (λ h. not (is_some (owner h))) (requested (e ∷ es))
      accept =
          rw (step_accepted e s, same (host_of e))
            (elim (Option-cases (owner (host_of e))) [
              | inl n ↦ rw n (append_assoc s.accepted (host_of e ∷ []) _)
              | inr (o, n) ↦ rw n refl
            ])

      refuse :
          (step e s).conflicts ++ refusals chrono ttl now owner (requested es)
          ≡ s.conflicts ++ refusals chrono ttl now owner (requested (e ∷ es))
      refuse =
          rw (step_conflicts e s, same (host_of e))
            (append_assoc s.conflicts (refusal chrono ttl now (host_of e) (owner (host_of e))) _)

module _ (chrono : Rfc3339) (agent_id : Text) (entries : List RouteEntry) (ttl now : ℕ)
    (db : Database) where
  -- The other live owner of a hostname when the request arrives.
  abbrev pub owner_before : Text → Option (Text × Option Text)
  owner_before h = holder chrono db.agents agent_id ttl now (route_row h db.routes)

  -- A current agent's request is answered: the accepted hostnames are those of the request that no
  -- other live agent owns, in order, and the conflicts are the others, in order, each with its owner
  -- and the end of the owner's lease.
  pub put_routes_answer :
      (a : AgentRecord)
      → get_agent chrono agent_id now db ≡ ok a
      → (put_routes chrono agent_id entries ttl now db).0
        ≡ ok (record {
          accepted = retain (λ h. not (is_some (owner_before h))) (requested entries);
          conflicts = refusals chrono ttl now owner_before (requested entries);
        })
  put_routes_answer a e =
      let start : Sync = record { rows = db.routes; accepted = []; conflicts = [] } in
      let (acc, con) =
        loop_lists chrono db.agents agent_id ttl now owner_before entries start (λ h. refl) in
      ap (λ r. r.0) (put_routes-current chrono agent_id entries ttl now db a e)
      ∙ (λ i. ok (record { accepted = acc i; conflicts = con i }))

  member-accepted :
      (h : Text) (hs : List Text)
      → member h (retain (λ h. not (is_some (owner_before h))) hs)
        ≡ (member h hs && not (is_some (owner_before h)))
  member-accepted h [] = unfold member in refl
  member-accepted h (x ∷ hs) = ground (
    arith,
    member-accepted h hs,
    member-cons h x hs,
    list_eq_iff x h,
    member-cons h x (retain (λ h. not (is_some (owner_before h))) hs),
  )

  -- After a current agent's request, the agent owns exactly the accepted hostnames. The condition:
  -- no hostname stands in two rows of the table of routes.
  pub put_routes_owned :
      (a : AgentRecord)
      → IsKeyed db.routes
      → get_agent chrono agent_id now db ≡ ok a
      → (out : PutRoutesOutcome) → (put_routes chrono agent_id entries ttl now db).0 ≡ ok out
      → (h : Text)
      → is_owned agent_id (route_row h (put_routes chrono agent_id entries ttl now db).1.routes)
        ≡ member h out.accepted
  put_routes_owned a k e out answered h =
      let same : out.accepted ≡ retain (λ h. not (is_some (owner_before h))) (requested entries) =
        cc (put_routes_answer a e) in
      rw
        (
          put_routes_row chrono agent_id entries ttl now db a k e h,
          same,
          member-accepted h (requested entries),
          member-requested h entries,
        )
        (owned_row (route_row h db.routes) (last_entry h entries))
    where
      owned_row :
          (before : Option RouteRow) (x : Option RouteEntry)
          → is_owned agent_id (elim x [
            | none ↦ if is_owned agent_id before then none else before
            | some y ↦
                if is_some (holder chrono db.agents agent_id ttl now before)
                then before
                else some (requested_row chrono agent_id now y)
          ])
            ≡ (is_some x && not (is_some (holder chrono db.agents agent_id ttl now before)))
      owned_row none none = refl
      owned_row (some r) none = ground arith
      owned_row none (some y) = unfold requested_row in (list_eq_iff agent_id agent_id).1 refl
      owned_row (some r) (some y) =
          unfold requested_row in
          ground (arith, list_eq_iff r.agent_id agent_id, list_eq_iff agent_id agent_id)
