-- ===== src/Storage/Leases/Served.antt =====
-- Which routes the controller serves, by hostname.
use tailroute.Base.{
  ℕ, ◌≡◌, refl, subst, inl, inr, true, false, ◌&&◌, Option, none, some, List, [], ◌∷◌, map, find,
  arith, Bool-cases, if◌then◌else◌, and_then, is_some,
}
use tailroute.Base.Keys.{◌==◌, list_key, nat_key, list_eq_iff, member}
use tailroute.Base.Text.{Text}
use tailroute.Storage.{Rfc3339, AgentRow, RouteRow, Database, agent_row, route_row, is_alive}
use tailroute.Storage.Agents.{is_current}
use tailroute.Storage.Leases.{DnsRoute, current_routes, live_rows, active_dns_routes}
use tailroute.Storage.Routes.Rows.{IsKeyed, route_row-none, hostnames}

-- The address of the first route with a hostname.
abbrev pub address : Text → List DnsRoute → Option Text
address h routes = and_then (find (λ r. r.hostname == h) routes) (λ r. some r.tailscale_ipv4)

pub route_row_here :
    (r : RouteRow) (rs : List RouteRow) (h : Text)
    → (r.hostname == h) ≡ true
    → route_row h (r ∷ rs) ≡ some r
unfolding route_row
route_row_here r rs h e = rw e

pub route_row_later :
    (r : RouteRow) (rs : List RouteRow) (h : Text)
    → (r.hostname == h) ≡ false
    → route_row h (r ∷ rs) ≡ route_row h rs
unfolding route_row
route_row_later r rs h e = rw e

module _ (chrono : Rfc3339) (ttl now : ℕ) where
  -- The address of an agent that is neither revoked nor silent for the lease's time.
  abbrev pub agent_address : Option AgentRow → Option Text
  agent_address none = none
  agent_address (some a) =
      if is_current a && is_alive chrono now ttl a.last_seen_at then some a.tailscale_ipv4 else none

  abbrev pub owner_address : List AgentRow → Option RouteRow → Option Text
  owner_address agents none = none
  owner_address agents (some r) = agent_address (agent_row r.agent_id agents)

  abbrev pub active : List AgentRow → List RouteRow → List DnsRoute
  active agents rs =
      map (λ (r, a). record { hostname = r.hostname; tailscale_ipv4 = a.tailscale_ipv4 })
        (live_rows chrono ttl now (current_routes agents rs))

  active_cons :
      (agents : List AgentRow) (r : RouteRow) (rs : List RouteRow) (h : Text)
      → address h (active agents (r ∷ rs)) ≡ (
          if (r.hostname == h) && is_some (agent_address (agent_row r.agent_id agents))
          then agent_address (agent_row r.agent_id agents)
          else address h (active agents rs))
  unfolding current_routes live_rows
  active_cons agents r rs h = ground arith

  active-none :
      (agents : List AgentRow) (rs : List RouteRow) (h : Text)
      → route_row h rs ≡ none
      → address h (active agents rs) ≡ none
  active-none agents [] h e = unfold current_routes live_rows in refl
  active-none agents (r ∷ rs) h e =
      ground (arith, active_cons agents r rs h, active-none agents rs h, row_none r rs h e)
    where
      row_none :
          (r : RouteRow) (rs : List RouteRow) (h : Text)
          → route_row h (r ∷ rs) ≡ none
          → ((r.hostname == h) ≡ false) × (route_row h rs ≡ none)
      row_none r rs h e = unfold route_row in ground arith

  address-active :
      (agents : List AgentRow) (rs : List RouteRow) (h : Text)
      → IsKeyed rs
      → address h (active agents rs) ≡ owner_address agents (route_row h rs)
  address-active agents [] h k = unfold current_routes live_rows route_row in refl
  address-active agents (r ∷ rs) h (fresh, k) = elim (Bool-cases (r.hostname == h)) [
    | inl here ↦
        let absent : member h (hostnames rs) ≡ false =
          subst (λ n. member n (hostnames rs) ≡ false) ((list_eq_iff r.hostname h).0 here) fresh in
        rw
          (
            active_cons agents r rs h,
            here,
            route_row_here r rs h here,
            active-none agents rs h (route_row-none rs h absent),
          )
          (ground arith)
    | inr later ↦
        rw (active_cons agents r rs h, later, route_row_later r rs h later)
          (address-active agents rs h k)
  ]

  -- The controller serves a hostname exactly when the agent that owns its route is not revoked and
  -- was seen within the lease's time, and then with that agent's address. The condition: no
  -- hostname stands in two rows of the table of routes.
  pub active_dns_routes_served :
      (db : Database) (h : Text)
      → IsKeyed db.routes
      → address h (active_dns_routes chrono ttl now db)
        ≡ owner_address db.agents (route_row h db.routes)
  unfolding active_dns_routes
  active_dns_routes_served db h k = address-active db.agents db.routes h k
