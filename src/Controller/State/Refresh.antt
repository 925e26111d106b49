-- ===== src/Controller/State/Refresh.antt =====
-- What the DNS registry answers after `refresh_dns`.
use tailroute.Base.{
  ℕ, ◌≡◌, refl, subst, ◌∙◌, inl, inr, false, Option, none, some, List, [], ◌∷◌, arith, Bool-cases,
  Option-cases, and_then,
}
use tailroute.Base.Keys.{◌==◌, list_key, nat_key, list_eq_iff, member}
use tailroute.Base.Text.{Text}
use tailroute.Base.Text.Ipv4.{parse_ipv4}
use tailroute.Base.Table.{Table, get, get-insert}
use tailroute.Storage.{Rfc3339, AgentRow, RouteRow, agent_row, route_row}
use tailroute.Storage.Routes.Rows.{IsKeyed, route_row-none, hostnames}
use tailroute.Storage.Leases.{DnsRoute, current_routes, live_rows, active_dns_routes}
use tailroute.Storage.Leases.Served.{
  active, agent_address, owner_address, route_row_here, route_row_later,
}
use tailroute.Dns.Registry.{lookup_a, key_of, replace}
use tailroute.Controller.State.{AppState, refresh_dns, insert_routes, inserted, agent_ttl}

-- The numeric address of the agent that serves a row.
abbrev pub served_ip : Rfc3339 → ℕ → ℕ → List AgentRow → Option RouteRow → Option ℕ
served_ip chrono ttl now agents row = and_then (owner_address chrono ttl now agents row) parse_ipv4

insert_routes_cons :
    (r : DnsRoute) (rs : List DnsRoute) (t : Table Text ℕ) (h : Text)
    → get h (insert_routes (r ∷ rs) t)
      ≡ get h (insert_routes rs (inserted (parse_ipv4 r.tailscale_ipv4) r.hostname t))
unfolding insert_routes
insert_routes_cons r rs t h = refl

module _ (chrono : Rfc3339) (ttl now : ℕ) where
  active_step :
      (agents : List AgentRow) (r : RouteRow) (rs : List RouteRow)
      → active chrono ttl now agents (r ∷ rs)
        ≡ elim (agent_address chrono ttl now (agent_row r.agent_id agents)) [
          | none ↦ active chrono ttl now agents rs
          | some ip ↦
              record { hostname = r.hostname; tailscale_ipv4 = ip }
              ∷ active chrono ttl now agents rs
        ]
  unfolding current_routes live_rows
  active_step agents r rs = ground arith

  abbrev or_get : Option ℕ → Option ℕ → Option ℕ
  or_get none other = other
  or_get (some ip) other = some ip

  insert_active :
      (agents : List AgentRow) (rs : List RouteRow) (h : Text) (t : Table Text ℕ)
      → IsKeyed rs
      → get h (insert_routes (active chrono ttl now agents rs) t)
        ≡ or_get (served_ip chrono ttl now agents (route_row h rs)) (get h t)
  insert_active agents [] h t k = unfold insert_routes current_routes live_rows route_row in refl
  insert_active agents (r ∷ rs) h t (fresh, k) =
      rw (active_step agents r rs)
        (elim (Option-cases (agent_address chrono ttl now (agent_row r.agent_id agents))) [
          | inl n ↦ rw n (insert_active agents rs h t k ∙ skip n)
          | inr (ip, n) ↦ rw n (put ip (insert_active agents rs h _ k) n)
        ])
    where
      skip :
          agent_address chrono ttl now (agent_row r.agent_id agents) ≡ none
          → or_get (served_ip chrono ttl now agents (route_row h rs)) (get h t)
            ≡ or_get (served_ip chrono ttl now agents (route_row h (r ∷ rs))) (get h t)
      skip n = elim (Bool-cases (r.hostname == h)) [
        | inl here ↦
            let absent : member h (hostnames rs) ≡ false =
              subst (λ n. member n (hostnames rs) ≡ false) ((list_eq_iff r.hostname h).0 here)
                fresh in
            rw (route_row-none rs h absent, route_row_here r rs h here, n) refl
        | inr later ↦ rw (route_row_later r rs h later) refl
      ]

      put :
          (ip : Text)
          → get h (
              insert_routes
                (active chrono ttl now agents rs)
                (inserted (parse_ipv4 ip) r.hostname t))
            ≡ or_get
                (served_ip chrono ttl now agents (route_row h rs))
                (get h (inserted (parse_ipv4 ip) r.hostname t))
          → agent_address chrono ttl now (agent_row r.agent_id agents) ≡ some ip
          → get h (
              insert_routes
                (record { hostname = r.hostname; tailscale_ipv4 = ip }
                  ∷ active chrono ttl now agents rs)
                t)
            ≡ or_get (served_ip chrono ttl now agents (route_row h (r ∷ rs))) (get h t)
      put ip rest n =
          insert_routes_cons _ _ t h
          ∙ (rest ∙ elim (Bool-cases (r.hostname == h)) [
            | inl here ↦
                let absent : member h (hostnames rs) ≡ false =
                  subst (λ n. member n (hostnames rs) ≡ false) ((list_eq_iff r.hostname h).0 here)
                    fresh in
                rw (route_row-none rs h absent, route_row_here r rs h here, n)
                  (elim (Option-cases (parse_ipv4 ip)) [
                    | inl u ↦ rw u refl
                    | inr (x, u) ↦ rw (u, get-insert r.hostname h x t, here) refl
                  ])
            | inr later ↦ rw (route_row_later r rs h later) (elim (Option-cases (parse_ipv4 ip)) [
              | inl u ↦ rw u refl
              | inr (x, u) ↦ rw (u, get-insert r.hostname h x t, later) refl
            ])
          ])

-- After the registry is renewed, a queried name has the address of the agent that owns the name's
-- route, exactly when that agent is not revoked, was seen within the lease's time and has a
-- readable address. The condition: no hostname stands in two rows of the table of routes.
pub refresh_dns_serves :
    (chrono : Rfc3339) (now : ℕ) (st : AppState) (name : Text)
    → IsKeyed st.storage.routes
    → lookup_a (refresh_dns chrono now st).1.registry name
      ≡ served_ip chrono
          (agent_ttl st)
          now
          st.storage.agents
          (route_row (key_of name) st.storage.routes)
unfolding refresh_dns lookup_a replace active_dns_routes
refresh_dns_serves chrono now st name k =
    insert_active chrono (agent_ttl st) now st.storage.agents st.storage.routes (key_of name) [] k
    ∙ unfold get in
      no_other (
        served_ip chrono (agent_ttl st) now st.storage.agents
          (route_row (key_of name) st.storage.routes))
  where
    no_other : (a : Option ℕ) → or_get chrono (agent_ttl st) now a none ≡ a
    no_other none = refl
    no_other (some a) = refl
