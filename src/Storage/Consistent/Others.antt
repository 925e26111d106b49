-- ===== src/Storage/Consistent/Others.antt =====
-- The methods that write the other tables keep the tables consistent.
use tailroute.Base.{
  ℕ, ◌≡◌, refl, sym, ap, ◌∙◌, subst, inl, inr, ok, Result-cases, Bool, true, false, ◌&&◌, ◌||◌,
  Option, none, some, Bool-cases, Option-cases, List, [], ◌∷◌, map, any, find, arith, is_some,
  if◌then◌else◌,
}
use tailroute.Base.Keys.{◌==◌, list_key, nat_key, list_eq, list_eq_iff, Distinct, member}
use tailroute.Base.Keyed.{map-Distinct, append-Distinct}
use tailroute.Base.Text.{Text}
use tailroute.Common.Api.{RouteEntry}
use tailroute.Common.Auth.{Argon2, hash_token, verify_token}
use tailroute.Storage.{
  Rfc3339, AgentRow, TokenRow, RouteRow, SnapshotRow, AuditRow, EnabledServiceRecord, Database,
  agent_row, route_row,
}
use tailroute.Storage.Agents.{AgentRecord, current_agent, get_agent}
use tailroute.Storage.Tokens.{mark_used, consume_fetched, create_enrollment_token}
use tailroute.Storage.Routes.{put_routes, requested_row}
use tailroute.Storage.Routes.Put.{
  last_entry, holder, put_routes_row, put_routes-IsKeyed, put_routes-current,
}
use tailroute.Storage.Routes.Rows.{is_owned}
use tailroute.Storage.Enabled.{
  upsert_snapshot, upsert_enabled, put_discovery_snapshot, upsert_enabled_service,
  set_enabled_service, audit,
}
use tailroute.Storage.Consistent.{IsConsistent}

get_agent-row :
    (chrono : Rfc3339) (agent_id : Text) (now : ℕ) (db : Database) (a : AgentRecord)
    → get_agent chrono agent_id now db ≡ ok a
    → is_some (agent_row agent_id db.agents) ≡ true
unfolding get_agent current_agent
get_agent-row chrono agent_id now db a e = elim (Option-cases (agent_row agent_id db.agents)) [
  | inl n ↦ let bad = rw (n, get_agent, current_agent) at e in absurd (cc)
  | inr (x, n) ↦ rw n refl
]

member-upsert_snapshot :
    (row : SnapshotRow) (rows : List SnapshotRow) (k : Text)
    → member k (map (λ s. s.agent_id) (upsert_snapshot row rows))
      ≡ (list_eq row.agent_id k || member k (map (λ s. s.agent_id) rows))
unfolding upsert_snapshot member
member-upsert_snapshot row [] k = refl
member-upsert_snapshot row (s ∷ rows) k = ground (
  arith,
  member-upsert_snapshot row rows k,
  list_eq_iff s.agent_id row.agent_id,
  list_eq_iff s.agent_id k,
  list_eq_iff row.agent_id k,
)

upsert_snapshot-Distinct :
    (row : SnapshotRow) (rows : List SnapshotRow)
    → Distinct (map (λ s. s.agent_id) rows)
    → Distinct (map (λ s. s.agent_id) (upsert_snapshot row rows))
unfolding upsert_snapshot member
upsert_snapshot-Distinct row [] d = (refl, tt)
upsert_snapshot-Distinct row (s ∷ rows) (fresh, d) =
    elim (Bool-cases (s.agent_id == row.agent_id)) [
      | inl e ↦ rw e (cc ((list_eq_iff s.agent_id row.agent_id).0 e, fresh), d)
      | inr e ↦ rw e (
        ground (
          arith,
          member-upsert_snapshot row rows s.agent_id,
          list_eq_iff s.agent_id row.agent_id,
          list_eq_iff row.agent_id s.agent_id,
        ),
        upsert_snapshot-Distinct row rows d,
      )
    ]

absent-upsert :
    (row : EnabledServiceRecord) (rows : List EnabledServiceRecord) (k : Text)
    → member k (map (λ s. s.id) rows) ≡ false
    → (row.id == k) ≡ false
    → member k (map (λ s. s.id) (upsert_enabled row rows)) ≡ false
unfolding upsert_enabled member
absent-upsert row [] k h other = ground arith
absent-upsert row (s ∷ rows) k h other = ground (arith, absent-upsert row rows k)

-- An enabled service is changed in place, or comes last.
upsert_enabled-Distinct :
    (row : EnabledServiceRecord) (rows : List EnabledServiceRecord)
    → Distinct (map (λ s. s.id) rows)
    → any (λ s. s.id == row.id) rows ≡ false
    → Distinct (map (λ s. s.id) (upsert_enabled row rows))
unfolding upsert_enabled member
upsert_enabled-Distinct row [] d free = (refl, tt)
upsert_enabled-Distinct row (s ∷ rows) (fresh, d) free =
    elim (Bool-cases ((s.agent_id == row.agent_id) && (s.identity_key == row.identity_key))) [
      | inl e ↦ rw e (fresh, d)
      | inr e ↦ rw e (
        absent-upsert row rows s.id fresh
            (ground (arith, list_eq_iff s.id row.id, list_eq_iff row.id s.id)),
        upsert_enabled-Distinct row rows d (ground arith),
      )
    ]

abbrev owner_or : Text → Option RouteRow → Text
owner_or other none = other
owner_or other (some r) = r.agent_id

-- The owner of a hostname's row after `put_routes` owned the row before, or is the agent itself.
expected-owner :
    (chrono : Rfc3339) (agent_id : Text) (now : ℕ) (agents : List AgentRow) (held : Bool)
    (before : Option RouteRow) (l : Option RouteEntry) (r : RouteRow)
    → ((x : RouteRow) → before ≡ some x → is_some (agent_row x.agent_id agents) ≡ true)
    → is_some (agent_row agent_id agents) ≡ true
    → elim l [
      | none ↦ if is_owned agent_id before then none else before
      | some e ↦ if held then before else some (requested_row chrono agent_id now e)
    ]
      ≡ some r
    → is_some (agent_row r.agent_id agents) ≡ true
unfolding requested_row
expected-owner chrono agent_id now agents held before none r old self e =
    elim (Bool-cases (is_owned agent_id before)) [
      | inl own ↦ let bad = rw own at e in absurd (cc)
      | inr other ↦ old r (rw other at e)
    ]
expected-owner chrono agent_id now agents true before (some x) r old self e = old r e
expected-owner chrono agent_id now agents false before (some x) r old self e =
    let same : agent_id ≡ r.agent_id = ap (owner_or agent_id) e in
    subst (λ id. is_some (agent_row id agents) ≡ true) same self

module _ {chrono : Rfc3339} {db : Database} (c : IsConsistent chrono db) where
  pub put_routes-IsConsistent :
      (agent_id : Text) (entries : List RouteEntry) (ttl now : ℕ)
      → IsConsistent chrono (put_routes chrono agent_id entries ttl now db).1
  unfolding put_routes
  put_routes-IsConsistent agent_id entries ttl now =
      elim (Result-cases (get_agent chrono agent_id now db)) [
        | inr (x, bad) ↦ rw (bad, put_routes) c
        | inl (a, good) ↦
            rw (put_routes-current chrono agent_id entries ttl now db a good) (record {
              agents_keyed = c.agents_keyed;
              tokens_keyed = c.tokens_keyed;
              routes_keyed =
                  rw (put_routes-current chrono agent_id entries ttl now db a good) at
                    (put_routes-IsKeyed chrono agent_id entries ttl now db c.routes_keyed);
              snapshots_keyed = c.snapshots_keyed;
              services_keyed = c.services_keyed;
              owned = λ h r e.
                  expected-owner chrono agent_id now db.agents
                    (is_some (holder chrono db.agents agent_id ttl now (route_row h db.routes)))
                    (route_row h db.routes) (last_entry h entries) r (c.owned h)
                    (get_agent-row chrono agent_id now db a good)
                    (sym (
                        rw (put_routes-current chrono agent_id entries ttl now db a good) at (
                          put_routes_row chrono agent_id entries ttl now db a c.routes_keyed good
                            h))
                      ∙ e);
              written = c.written;
            })
      ]

  tokens-IsConsistent :
      (rows : List TokenRow)
      → Distinct (map (λ x. x.token_hash) rows)
      → IsConsistent chrono (record db { enrollment_tokens = rows })
  tokens-IsConsistent rows d = record {
    agents_keyed = c.agents_keyed;
    tokens_keyed = d;
    routes_keyed = c.routes_keyed;
    snapshots_keyed = c.snapshots_keyed;
    services_keyed = c.services_keyed;
    owned = c.owned;
    written = c.written;
  }

  snapshots-IsConsistent :
      (rows : List SnapshotRow)
      → Distinct (map (λ x. x.agent_id) rows)
      → IsConsistent chrono (record db { discovery_snapshots = rows })
  snapshots-IsConsistent rows d = record {
    agents_keyed = c.agents_keyed;
    tokens_keyed = c.tokens_keyed;
    routes_keyed = c.routes_keyed;
    snapshots_keyed = d;
    services_keyed = c.services_keyed;
    owned = c.owned;
    written = c.written;
  }

  services-IsConsistent :
      (rows : List EnabledServiceRecord)
      → Distinct (map (λ x. x.id) rows)
      → IsConsistent chrono (record db { enabled_services = rows })
  services-IsConsistent rows d = record {
    agents_keyed = c.agents_keyed;
    tokens_keyed = c.tokens_keyed;
    routes_keyed = c.routes_keyed;
    snapshots_keyed = c.snapshots_keyed;
    services_keyed = d;
    owned = c.owned;
    written = c.written;
  }

  audits-IsConsistent :
      (rows : List AuditRow) → IsConsistent chrono (record db { audit_events = rows })
  audits-IsConsistent rows = record {
    agents_keyed = c.agents_keyed;
    tokens_keyed = c.tokens_keyed;
    routes_keyed = c.routes_keyed;
    snapshots_keyed = c.snapshots_keyed;
    services_keyed = c.services_keyed;
    owned = c.owned;
    written = c.written;
  }

module _ {chrono : Rfc3339} {db : Database} (c : IsConsistent chrono db) where
  pub consume_fetched-IsConsistent :
      (argon : Argon2) (rows : List TokenRow) (token : Text) (now : ℕ)
      → IsConsistent chrono (consume_fetched chrono argon rows token now db).1
  unfolding consume_fetched mark_used
  consume_fetched-IsConsistent argon rows token now =
      elim (Option-cases (find (λ t. verify_token argon t.token_hash token) rows)) [
        | inl n ↦ rw (n, consume_fetched) c
        | inr (t, n) ↦
            rw (n, consume_fetched)
              (tokens-IsConsistent c _ (
                map-Distinct (λ t. t.token_hash) (mark t.token_hash) (same t.token_hash)
                  db.enrollment_tokens c.tokens_keyed))
      ]
    where
      mark : Text → TokenRow → TokenRow
      mark hash t =
          if t.token_hash == hash then record t { used_at = some (chrono.to_rfc3339 now) } else t

      same : (hash : Text) (t : TokenRow) → (mark hash t).token_hash ≡ t.token_hash
      same hash t = ground arith

  pub create_enrollment_token-IsConsistent :
      (argon : Argon2) (token salt : Text) (now : ℕ)
      → IsConsistent chrono (create_enrollment_token chrono argon token salt now db).1
  unfolding create_enrollment_token
  create_enrollment_token-IsConsistent argon token salt now =
      elim (Result-cases (hash_token argon salt token)) [
        | inr (e, bad) ↦ rw (bad, create_enrollment_token) c
        | inl (hash, good) ↦
            elim (Bool-cases (any (λ t. t.token_hash == hash) db.enrollment_tokens)) [
              | inl taken ↦ rw (good, taken, create_enrollment_token) c
              | inr free ↦
                  rw (good, free, create_enrollment_token)
                    (tokens-IsConsistent c _ (
                      append-Distinct (λ t. t.token_hash)
                        (record {
                          token_hash = hash;
                          created_at = chrono.to_rfc3339 now;
                          used_at = none;
                          expires_at = none;
                        })
                        db.enrollment_tokens c.tokens_keyed free))
            ]
      ]

  pub put_discovery_snapshot-IsConsistent :
      (agent_id payload_json : Text) (now : ℕ)
      → IsConsistent chrono (put_discovery_snapshot chrono agent_id payload_json now db).1
  unfolding put_discovery_snapshot
  put_discovery_snapshot-IsConsistent agent_id payload_json now =
      elim (Bool-cases (is_some (agent_row agent_id db.agents))) [
        | inl there ↦
            rw (there, put_discovery_snapshot)
              (snapshots-IsConsistent c _
                (upsert_snapshot-Distinct _ db.discovery_snapshots c.snapshots_keyed))
        | inr absent ↦ rw (absent, put_discovery_snapshot) c
      ]

  pub upsert_enabled_service-IsConsistent :
      (id agent_id identity_key : Text) (container_name : Option Text)
      (hostnames_json backend : Text) (now : ℕ)
      → IsConsistent chrono
          (upsert_enabled_service chrono id agent_id identity_key container_name hostnames_json
            backend now db).1
  unfolding upsert_enabled_service
  upsert_enabled_service-IsConsistent id agent_id identity_key container_name hostnames_json backend
        now =
      elim (Bool-cases (is_some (agent_row agent_id db.agents))) [
        | inr absent ↦ rw (absent, upsert_enabled_service) c
        | inl there ↦ elim (Bool-cases (any (λ s. s.id == id) db.enabled_services)) [
          | inl taken ↦ rw (there, taken, upsert_enabled_service) c
          | inr free ↦
              rw (there, free, upsert_enabled_service)
                (services-IsConsistent c _
                  (upsert_enabled-Distinct _ db.enabled_services c.services_keyed free))
        ]
      ]

  pub set_enabled_service-IsConsistent :
      (id : Text) (enabled : Bool) (now : ℕ)
      → IsConsistent chrono (set_enabled_service chrono id enabled now db).1
  unfolding set_enabled_service
  set_enabled_service-IsConsistent id enabled now =
      elim (Bool-cases (any (λ s. s.id == id) db.enabled_services)) [
        | inl there ↦
            rw (there, set_enabled_service)
              (services-IsConsistent c _
                (map-Distinct (λ s. s.id) mark same db.enabled_services c.services_keyed))
        | inr absent ↦ rw (absent, set_enabled_service) c
      ]
    where
      mark : EnabledServiceRecord → EnabledServiceRecord
      mark s =
          if s.id == id
          then record s { enabled = enabled; updated_at = chrono.to_rfc3339 now }
          else s

      same : (s : EnabledServiceRecord) → (mark s).id ≡ s.id
      same s = ground arith

  pub audit-IsConsistent :
      (event_type detail : Text) (now : ℕ)
      → IsConsistent chrono (audit chrono event_type detail now db).1
  unfolding audit
  audit-IsConsistent event_type detail now = audits-IsConsistent c _
