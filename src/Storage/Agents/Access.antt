-- ===== src/Storage/Agents/Access.antt =====
-- Who may speak for an agent: enrollment gives a token that verifies, revocation takes it away.
use tailroute.Base.{
  ◌≢◌, ℕ, ◌≡◌, refl, ◌∙◌, ap, inl, inr, ◌⊎◌, true, false, not, none, some, List, [], ◌∷◌, ◌++◌,
  retain, arith, Option-cases, if◌then◌else◌, is_some, Result, ok, err, Result-cases,
}
use mathlib.Core.Option
use tailroute.Base.Keys.{◌==◌, list_key, nat_key, list_eq_iff}
use tailroute.Base.Text.{Text, text}
use tailroute.Common.Auth.{Argon2, IsArgon2, verify-hash, hash_token}
use tailroute.Storage.{
  Rfc3339, StorageError, AgentRow, RouteRow, Database, agent_row, route_row, not_found,
}
use tailroute.Storage.Agents.{
  revoke_agent, enroll_agent, verify_agent_token, get_agent, current_agent,
}
use tailroute.Storage.Agents.Rows.{agent_row-map, agent_row-agent_id, agent_row-append}
use tailroute.Storage.Routes.Rows.{is_owned}

retained_unowned :
    (agent_id : Text) (rs : List RouteRow) (h : Text)
    → is_owned agent_id (route_row h (retain (λ r. not (r.agent_id == agent_id)) rs)) ≡ false
unfolding route_row
retained_unowned agent_id [] h = refl
retained_unowned agent_id (r ∷ rs) h = ground (arith, retained_unowned agent_id rs h)

module _ (chrono : Rfc3339) (argon : Argon2) (id_part agent_token salt name ip engine : Text)
    (now : ℕ) (db : Database) where
  abbrev enrolled : Result (Text × Text) StorageError × Database
  enrolled = enroll_agent chrono argon id_part agent_token salt name ip engine now db

  enroll-ok :
      (id token : Text)
      → enrolled.0 ≡ ok (id, token)
      → (row : AgentRow) × (hash_token argon salt token ≡ ok row.credential_hash)
        × (row.agent_id ≡ id)
        × (row.revoked_at ≡ none)
        × (agent_row id db.agents ≡ none)
        × (enrolled.1.agents ≡ db.agents ++ row ∷ [])
  unfolding enroll_agent
  enroll-ok id token e = elim (Result-cases (hash_token argon salt agent_token)) [
    | inr (x, bad) ↦ let k = rw (bad, enroll_agent) at e in absurd (cc)
    | inl (hash, good) ↦ (
      record {
        agent_id = text "agt_" ++ id_part;
        display_name = name;
        tailscale_ipv4 = ip;
        docker_engine_id = engine;
        credential_hash = hash;
        created_at = chrono.to_rfc3339 now;
        last_seen_at = some (chrono.to_rfc3339 now);
        revoked_at = none;
      },
      ground (arith, good),
      ground (arith, good),
      refl,
      ground (arith, good),
      ground (arith, good),
    )
  ]

  pub enrolled_verifies :
      (id token : Text)
      → IsArgon2 argon
      → enrolled.0 ≡ ok (id, token)
      → verify_agent_token argon id token enrolled.1 ≡ ok tt
  unfolding verify_agent_token
  enrolled_verifies id token laws e =
      let (row, hashed, named, current, free, after) = enroll-ok id token e in
      let verified = verify-hash argon laws token salt row.credential_hash hashed in
      rw (after, agent_row-append db.agents row id, free, named, (list_eq_iff id id).1 refl)
        (ground arith)

  -- An enrollment that succeeds returns an identifier that was free and a token that verifies for
  -- it, and every token verifies or fails for the other agents as before. The condition: the
  -- password hash verifies what it has hashed.
  pub enroll-verify :
      (id token other_id t : Text)
      → IsArgon2 argon
      → enrolled.0 ≡ ok (id, token)
      → (id == other_id) ≡ false
      → (agent_row id db.agents ≡ none)
        × (verify_agent_token argon id token enrolled.1 ≡ ok tt)
        × (verify_agent_token argon other_id t enrolled.1 ≡ verify_agent_token argon other_id t db)
  unfolding verify_agent_token
  enroll-verify id token other_id t laws e distinct =
      let (row, hashed, named, current, free, after) = enroll-ok id token e in
      let found = agent_row-append db.agents row in
      (
        free,
        enrolled_verifies id token laws e,
        rw (after, found other_id, named, distinct) (ground arith),
      )

module _ (argon : Argon2) (chrono : Rfc3339) (agent_id : Text) (now : ℕ) (db : Database) where
  abbrev revoked : Database
  revoked = (revoke_agent chrono agent_id now db).1

  abbrev mark : AgentRow → AgentRow
  mark a =
      if a.agent_id == agent_id then record a { revoked_at = some (chrono.to_rfc3339 now) } else a

  revoked_row : agent_row agent_id revoked.agents ≡ Option.map mark (agent_row agent_id db.agents)
  unfolding revoke_agent
  revoked_row = agent_row-map mark (λ a. ground arith) db.agents agent_id

  marked_row :
      (agent_row agent_id revoked.agents ≡ none)
      ⊎ ((a : AgentRow) × (agent_row agent_id revoked.agents ≡ some a)
          × (is_some a.revoked_at ≡ true))
  marked_row = elim (Option-cases (agent_row agent_id db.agents)) [
    | inl absent ↦ inl (revoked_row ∙ ap (Option.map mark) absent)
    | inr (a, found) ↦ inr (
      mark a,
      revoked_row ∙ ap (Option.map mark) found,
      rw ((list_eq_iff a.agent_id agent_id).1 (agent_row-agent_id db.agents agent_id a found)),
    )
  ]

  -- After a revocation no token verifies for the agent, its registrations are refused, and it owns
  -- no route.
  pub revoke_shuts_out :
      ((token : Text) → verify_agent_token argon agent_id token revoked ≢ ok tt)
      × ((later : ℕ) → get_agent chrono agent_id later revoked ≡ err not_found)
      × ((h : Text) → is_owned agent_id (route_row h revoked.routes) ≡ false)
  revoke_shuts_out = (
    λ token e. refused token e,
    λ later. missing later,
    λ h. unfold revoke_agent in retained_unowned agent_id db.routes h,
  )
    where
      refused : (token : Text) → verify_agent_token argon agent_id token revoked ≡ ok tt → ⊥
      refused token e =
          unfold verify_agent_token in
          elim marked_row [
            | inl absent ↦ ground (arith, absent)
            | inr (a, found, marked) ↦ ground (arith, found, marked)
          ]

      missing : (later : ℕ) → get_agent chrono agent_id later revoked ≡ err not_found
      missing later =
          unfold get_agent current_agent in
          elim marked_row [
            | inl absent ↦ ground (arith, absent)
            | inr (a, found, marked) ↦ ground (arith, found, marked)
          ]
