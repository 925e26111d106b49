-- ===== src/Storage/Agents/Rows.antt =====
-- The table of agents as a map from identifiers.
use tailroute.Base.{
  ◌≡◌, refl, subst, inl, inr, Bool, true, false, ◌&&◌, Option, none, some, List, [], ◌∷◌, ◌++◌, map,
  any, arith, Bool-cases, if◌then◌else◌, or_else,
}
use mathlib.Core.Option
use tailroute.Base.Keys.{◌==◌, list_key, nat_key, list_eq_iff, Distinct, member}
use tailroute.Base.Text.{Text}
use tailroute.Storage.{Rfc3339, Database, AgentRow, agent_row}
use tailroute.Storage.Agents.{is_current, heartbeat}
use tailroute.Base.{ℕ, ok}

abbrev pub agent_ids : List AgentRow → List Text
agent_ids agents = map (λ a. a.agent_id) agents

-- The primary key of the table.
abbrev pub IsKeyed : List AgentRow → Type 0
IsKeyed agents = Distinct (agent_ids agents)

pub agent_row-agent_id :
    (agents : List AgentRow) (id : Text) (a : AgentRow)
    → agent_row id agents ≡ some a
    → a.agent_id ≡ id
unfolding agent_row
agent_row-agent_id [] id a e = cc
agent_row-agent_id (x ∷ agents) id a e =
    ground (arith, list_eq_iff x.agent_id id, agent_row-agent_id agents id a)

-- An update of rows that leaves their identifiers as they are.
module _ (f : AgentRow → AgentRow) (same : (a : AgentRow) → (f a).agent_id ≡ a.agent_id) where
  pub agent_row-map :
      (agents : List AgentRow) (j : Text)
      → agent_row j (map f agents) ≡ Option.map f (agent_row j agents)
  unfolding agent_row
  agent_row-map [] j = refl
  agent_row-map (a ∷ agents) j = ground (
    arith,
    agent_row-map agents j,
    same a,
    list_eq_iff a.agent_id j,
    list_eq_iff (f a).agent_id j,
  )

pub agent_row-append :
    (agents : List AgentRow) (a : AgentRow) (j : Text)
    → agent_row j (agents ++ a ∷ [])
      ≡ or_else (agent_row j agents) (if a.agent_id == j then some a else none)
unfolding agent_row
agent_row-append [] a j = ground arith
agent_row-append (x ∷ agents) a j = ground (arith, agent_row-append agents a j)

absent_row :
    (agents : List AgentRow) (id : Text)
    → member id (agent_ids agents) ≡ false
    → agent_row id agents ≡ none
unfolding agent_row member
absent_row [] id h = refl
absent_row (a ∷ agents) id h = ground (arith, absent_row agents id)

-- Whether some row passes both tests, where the first is for the key.
abbrev pub passes : (AgentRow → Bool) → Option AgentRow → Bool
passes p none = false
passes p (some a) = p a

pub any-agent_row :
    (p : AgentRow → Bool) (agents : List AgentRow) (id : Text)
    → IsKeyed agents
    → any (λ a. (a.agent_id == id) && p a) agents ≡ passes p (agent_row id agents)
unfolding agent_row
any-agent_row p [] id k = refl
any-agent_row p (a ∷ agents) id (fresh, k) = elim (Bool-cases (a.agent_id == id)) [
  | inl here ↦
      rw
        (
          here,
          any-agent_row p agents id k,
          absent_row agents id (
              subst (λ j. member j (agent_ids agents) ≡ false) ((list_eq_iff a.agent_id id).0 here)
                fresh),
        )
        (ground arith)
  | inr later ↦ rw later (any-agent_row p agents id k)
]

pub heartbeat-ok :
    (chrono : Rfc3339) (agent_id ip : Text) (now : ℕ) (db : Database)
    → (heartbeat chrono agent_id ip now db).0 ≡ ok tt
    → (any (λ a. (a.agent_id == agent_id) && is_current a) db.agents ≡ true)
      × ((heartbeat chrono agent_id ip now db).1 ≡ record db {
        agents =
            map
              (λ a.
                if (a.agent_id == agent_id) && is_current a
                then record a { last_seen_at = some (chrono.to_rfc3339 now); tailscale_ipv4 = ip }
                else a)
              db.agents;
      })
unfolding heartbeat
heartbeat-ok chrono agent_id ip now db e =
    elim (Bool-cases (any (λ a. (a.agent_id == agent_id) && is_current a) db.agents)) [
      | inl some_row ↦ (some_row, rw (some_row, heartbeat))
      | inr no_row ↦ let k = rw (no_row, heartbeat) at e in absurd (cc)
    ]
