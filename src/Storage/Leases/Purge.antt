-- ===== src/Storage/Leases/Purge.antt =====
-- The purge deletes only routes that are no longer served.
use tailroute.Base.{
  ℕ, ◌-◌, ◌≤◌, ◌<◌, ◌≡◌, refl, sym, ◌∙◌, ap, inl, inr, Bool, true, false, not, ◌&&◌, Option, none,
  some, List, [], ◌∷◌, map, retain, any, arith, Bool-cases, if◌then◌else◌,
}
use tailroute.Base.Keys.{◌==◌, list_key, nat_key}
use tailroute.Base.Text.{Text}
use tailroute.Storage.{Rfc3339, IsRfc3339, AgentRow, RouteRow, Database, agent_row, is_alive}
use tailroute.Storage.Agents.{is_current}
use tailroute.Storage.Agents.Rows.{IsKeyed, passes, any-agent_row}
use tailroute.Storage.Leases.{
  current_routes, live_rows, active_dns_routes, is_stale, purge_expired_agents,
}

module _ (chrono : Rfc3339) where
  -- The program wrote the agent's `last_seen_at`.
  abbrev pub IsWritten : AgentRow → Type 0
  IsWritten a = (t : ℕ) × (a.last_seen_at ≡ some (chrono.to_rfc3339 t))

module _ (chrono : Rfc3339) (laws : IsRfc3339 chrono) (ttl now later : ℕ)
    (no_earlier : now ≤ later) where
  stale_not_alive :
      (a : AgentRow)
      → IsWritten chrono a
      → is_stale (chrono.to_rfc3339 (now - ttl)) a ≡ true
      → is_alive chrono later ttl a.last_seen_at ≡ false
  unfolding is_stale is_alive
  stale_not_alive a (t, w) s =
      let old : t < now - ttl = (laws.ordered t (now - ttl)).0 (rw (w, is_stale) at s) in
      rw (w, laws.parse_written t, is_alive) (ground arith)

  abbrev stale : List AgentRow → RouteRow → Bool
  stale agents r =
      any (λ a. (a.agent_id == r.agent_id) && is_stale (chrono.to_rfc3339 (now - ttl)) a) agents

  abbrev served : List AgentRow → List RouteRow → List (RouteRow × AgentRow)
  served agents rs = live_rows chrono ttl later (current_routes agents rs)

  abbrev one_more :
      RouteRow → Option AgentRow → List (RouteRow × AgentRow) → List (RouteRow × AgentRow)
  one_more r none l = l
  one_more r (some a) l =
      if is_current a && is_alive chrono later ttl a.last_seen_at then (r, a) ∷ l else l

  skipped :
      (r : RouteRow) (o : Option AgentRow) (l : List (RouteRow × AgentRow))
      → passes (is_stale (chrono.to_rfc3339 (now - ttl))) o ≡ true
      → ((a : AgentRow) → o ≡ some a → IsWritten chrono a)
      → one_more r o l ≡ l
  skipped r none l s w = refl
  skipped r (some a) l s w = ground (arith, stale_not_alive a (w a refl) s)

  served_cons :
      (agents : List AgentRow) (r : RouteRow) (rs : List RouteRow)
      → served agents (r ∷ rs) ≡ one_more r (agent_row r.agent_id agents) (served agents rs)
  unfolding live_rows current_routes
  served_cons agents r rs = ground arith

  served_purged :
      (agents : List AgentRow) (rs : List RouteRow)
      → IsKeyed agents
      → ((id : Text) (a : AgentRow) → agent_row id agents ≡ some a → IsWritten chrono a)
      → served agents (retain (λ r. not (stale agents r)) rs) ≡ served agents rs
  served_purged agents [] k w = refl
  served_purged agents (r ∷ rs) k w = elim (Bool-cases (stale agents r)) [
    | inr fresh ↦ rw fresh (
        served_cons agents r _
        ∙ ap (λ l. one_more r (agent_row r.agent_id agents) l) (served_purged agents rs k w)
        ∙ sym (served_cons agents r rs))
    | inl old ↦ rw old (
        served_purged agents rs k w
        ∙ sym (
            served_cons agents r rs
            ∙ skipped r (agent_row r.agent_id agents) (served agents rs)
                (sym (any-agent_row (is_stale (chrono.to_rfc3339 (now - ttl))) agents r.agent_id k)
                  ∙ old)
                (w r.agent_id)))
  ]

-- The purge leaves what the controller serves as it is, from its own instant on: it deletes no
-- route whose lease has not run out. The conditions: the purge is not later than the query, no
-- identifier stands in two rows of the agents, the program wrote each agent's last instant, and
-- written instants are ordered as they are.
pub purge_keeps_served :
    (chrono : Rfc3339) (ttl now later : ℕ) (db : Database)
    → IsRfc3339 chrono
    → now ≤ later
    → IsKeyed db.agents
    → ((id : Text) (a : AgentRow) → agent_row id db.agents ≡ some a → IsWritten chrono a)
    → active_dns_routes chrono ttl later (purge_expired_agents chrono ttl now db).1
      ≡ active_dns_routes chrono ttl later db
unfolding active_dns_routes purge_expired_agents
purge_keeps_served chrono ttl now later db laws le keyed written =
    ap
      (λ rows.
        map (λ (r, a). record { hostname = r.hostname; tailscale_ipv4 = a.tailscale_ipv4 }) rows)
      (served_purged chrono laws ttl now later le db.agents db.routes keyed written)
