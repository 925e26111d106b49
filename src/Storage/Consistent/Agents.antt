-- ===== src/Storage/Consistent/Agents.antt =====
-- The methods that write the table of agents, and those that delete routes, keep the tables consistent.
use tailroute.Base.{
  ℕ, ◌≡◌, refl, sym, ◌∙◌, subst, inl, inr, Result-cases, Bool, true, false, ◌&&◌, Option, none,
  some, Bool-cases, [], ◌∷◌, ◌++◌, map, retain, any, arith, is_some, or_else, if◌then◌else◌,
}
use mathlib.Core.Option
use tailroute.Base.Keys.{◌==◌, list_key, nat_key}
use tailroute.Base.Keyed.{map-Distinct, append_found-Distinct}
use tailroute.Base.Text.{Text, text}
use tailroute.Common.Auth.{Argon2, hash_token}
use tailroute.Storage.{Rfc3339, AgentRow, RouteRow, Database, agent_row, route_row}
use tailroute.Storage.Agents.{is_current, heartbeat, revoke_agent, enroll_agent}
use tailroute.Storage.Agents.Rows.{agent_row-map, agent_row-append}
use tailroute.Storage.Routes.{delete_route}
use tailroute.Storage.Routes.Rows.{keep_if, retain-IsKeyed, route_row-retain}
use tailroute.Storage.Leases.{purge_expired_agents}
use tailroute.Storage.Leases.Purge.{IsWritten}
use tailroute.Storage.Consistent.{IsConsistent}

module _ {chrono : Rfc3339} {db : Database} (c : IsConsistent chrono db) where
  -- Deleting routes.
  retain-IsConsistent :
      (keep : RouteRow → Bool) → IsConsistent chrono (record db { routes = retain keep db.routes })
  retain-IsConsistent keep = record {
    agents_keyed = c.agents_keyed;
    tokens_keyed = c.tokens_keyed;
    routes_keyed = retain-IsKeyed keep db.routes c.routes_keyed;
    snapshots_keyed = c.snapshots_keyed;
    services_keyed = c.services_keyed;
    owned = λ h r e.
        kept h r (route_row h db.routes) refl
          (sym (route_row-retain keep db.routes h c.routes_keyed) ∙ e);
    written = c.written;
  }
    where
      kept :
          (h : Text) (r : RouteRow) (o : Option RouteRow)
          → route_row h db.routes ≡ o
          → keep_if keep o ≡ some r
          → is_some (agent_row r.agent_id db.agents) ≡ true
      kept h r none before e = cc
      kept h r (some x) before e = c.owned h r (before ∙ same (keep x) e)
        where
          same : (b : Bool) → (if b then some x else none) ≡ some r → some x ≡ some r
          same true e = e
          same false e = cc

module _ {chrono : Rfc3339} {db : Database} (c : IsConsistent chrono db) where
  pub delete_route-IsConsistent :
      (hostname : Text) → IsConsistent chrono (delete_route hostname db).1
  unfolding delete_route
  delete_route-IsConsistent hostname = retain-IsConsistent c _

  pub purge-IsConsistent :
      (ttl now : ℕ) → IsConsistent chrono (purge_expired_agents chrono ttl now db).1
  unfolding purge_expired_agents
  purge-IsConsistent ttl now = retain-IsConsistent c _

  -- An update of agents that leaves their identifiers, and leaves the program's instants such.
  update-IsConsistent :
      (f : AgentRow → AgentRow)
      → ((a : AgentRow) → (f a).agent_id ≡ a.agent_id)
      → ((a : AgentRow) → IsWritten chrono a → IsWritten chrono (f a))
      → IsConsistent chrono (record db { agents = map f db.agents })
  update-IsConsistent f same keep = record {
    agents_keyed = map-Distinct (λ a. a.agent_id) f same db.agents c.agents_keyed;
    tokens_keyed = c.tokens_keyed;
    routes_keyed = c.routes_keyed;
    snapshots_keyed = c.snapshots_keyed;
    services_keyed = c.services_keyed;
    owned = λ h r e.
        rw (agent_row-map f same db.agents r.agent_id)
          (present (agent_row r.agent_id db.agents) (c.owned h r e));
    written = λ id a e.
        stamped id a (agent_row id db.agents) refl (sym (agent_row-map f same db.agents id) ∙ e);
  }
    where
      present : (o : Option AgentRow) → is_some o ≡ true → is_some (Option.map f o) ≡ true
      present none e = cc
      present (some a) e = refl

      stamped :
          (id : Text) (a : AgentRow) (o : Option AgentRow)
          → agent_row id db.agents ≡ o
          → Option.map f o ≡ some a
          → IsWritten chrono a
      stamped id a none before e = cc
      stamped id a (some x) before e =
          let fx : f x ≡ a = cc in
          subst (λ y. IsWritten chrono y) fx (keep x (c.written id x before))

module _ {chrono : Rfc3339} {db : Database} (c : IsConsistent chrono db) where
  pub heartbeat-IsConsistent :
      (agent_id ip : Text) (now : ℕ) → IsConsistent chrono (heartbeat chrono agent_id ip now db).1
  unfolding heartbeat
  heartbeat-IsConsistent agent_id ip now =
      elim (Bool-cases (any (λ a. (a.agent_id == agent_id) && is_current a) db.agents)) [
        | inl some_row ↦ rw (some_row, heartbeat) (update-IsConsistent c beat same keep)
        | inr no_row ↦ rw (no_row, heartbeat) c
      ]
    where
      beat : AgentRow → AgentRow
      beat a =
          if (a.agent_id == agent_id) && is_current a
          then record a { last_seen_at = some (chrono.to_rfc3339 now); tailscale_ipv4 = ip }
          else a

      same : (a : AgentRow) → (beat a).agent_id ≡ a.agent_id
      same a = ground arith

      keep : (a : AgentRow) → IsWritten chrono a → IsWritten chrono (beat a)
      keep a w = elim (Bool-cases ((a.agent_id == agent_id) && is_current a)) [
        | inl hit ↦ rw hit (now, refl)
        | inr miss ↦ rw miss w
      ]

  pub revoke_agent-IsConsistent :
      (agent_id : Text) (now : ℕ) → IsConsistent chrono (revoke_agent chrono agent_id now db).1
  unfolding revoke_agent
  revoke_agent-IsConsistent agent_id now =
      retain-IsConsistent (update-IsConsistent c mark same keep) _
    where
      mark : AgentRow → AgentRow
      mark a =
          if a.agent_id == agent_id
          then record a { revoked_at = some (chrono.to_rfc3339 now) }
          else a

      same : (a : AgentRow) → (mark a).agent_id ≡ a.agent_id
      same a = ground arith

      keep : (a : AgentRow) → IsWritten chrono a → IsWritten chrono (mark a)
      keep a w = elim (Bool-cases (a.agent_id == agent_id)) [
        | inl hit ↦ rw hit w
        | inr miss ↦ rw miss w
      ]

  -- A new agent.
  enrolled-IsConsistent :
      (a : AgentRow)
      → is_some (agent_row a.agent_id db.agents) ≡ false
      → IsWritten chrono a
      → IsConsistent chrono (record db { agents = db.agents ++ a ∷ [] })
  enrolled-IsConsistent a fresh w = record {
    agents_keyed =
        unfold agent_row in
        append_found-Distinct (λ x. x.agent_id) a db.agents c.agents_keyed fresh;
    tokens_keyed = c.tokens_keyed;
    routes_keyed = c.routes_keyed;
    snapshots_keyed = c.snapshots_keyed;
    services_keyed = c.services_keyed;
    owned = λ h r e.
        rw (agent_row-append db.agents a r.agent_id)
          (present (agent_row r.agent_id db.agents) _ (c.owned h r e));
    written = λ id x e.
        stamped id x (agent_row id db.agents) (a.agent_id == id) refl
          (sym (agent_row-append db.agents a id) ∙ e);
  }
    where
      present : (o other : Option AgentRow) → is_some o ≡ true → is_some (or_else o other) ≡ true
      present none other e = cc
      present (some x) other e = refl

      stamped :
          (id : Text) (x : AgentRow) (o : Option AgentRow) (b : Bool)
          → agent_row id db.agents ≡ o
          → or_else o (if b then some a else none) ≡ some x
          → IsWritten chrono x
      stamped id x none true before e =
          let same : a ≡ x = cc in subst (λ y. IsWritten chrono y) same w
      stamped id x none false before e = cc
      stamped id x (some y) b before e = c.written id x (before ∙ e)

module _ {chrono : Rfc3339} {db : Database} (c : IsConsistent chrono db) where
  pub enroll_agent-IsConsistent :
      (argon : Argon2) (id_part agent_token salt display_name ip engine : Text) (now : ℕ)
      → IsConsistent chrono
          (enroll_agent chrono argon id_part agent_token salt display_name ip engine now db).1
  unfolding enroll_agent
  enroll_agent-IsConsistent argon id_part agent_token salt display_name ip engine now =
      elim (Result-cases (hash_token argon salt agent_token)) [
        | inr (e, bad) ↦ rw (bad, enroll_agent) c
        | inl (hash, good) ↦
            elim (Bool-cases (is_some (agent_row (text "agt_" ++ id_part) db.agents))) [
              | inl taken ↦ rw (good, taken, enroll_agent) c
              | inr free ↦
                  rw (good, free, enroll_agent)
                    (enrolled-IsConsistent c
                      (record {
                        agent_id = text "agt_" ++ id_part;
                        display_name = display_name;
                        tailscale_ipv4 = ip;
                        docker_engine_id = engine;
                        credential_hash = hash;
                        created_at = chrono.to_rfc3339 now;
                        last_seen_at = some (chrono.to_rfc3339 now);
                        revoked_at = none;
                      })
                      free (now, refl))
            ]
      ]
