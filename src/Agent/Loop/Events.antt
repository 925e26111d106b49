-- ===== src/Agent/Loop/Events.antt =====
-- No event of Docker goes without a reconciliation.
use tailroute.Base.{
  ℕ, ◌+◌, ◌≡◌, refl, List, [], ◌∷◌, inl, inr, Result, Bool-cases, Option, none, some, if◌then◌else◌,
}
use tailroute.Base.Text.{Text}
use tailroute.Common.Backend.{Url}
use tailroute.Docker.Inspect.{is_relevant_event}
use tailroute.Agent.Reconcile.{AgentRun, reconcile_with_backoff, heartbeat_tick}
use tailroute.Agent.Loop.{
  LoopState, World, on_debounce, on_end, reconciled, on_event, on_heartbeat, reconcile_debounce,
  Wake, event, ended, debounced, periodic, heartbeat, Wakes, start, then_wake,
}

-- What a wake-up is for: a relevant event at an instant, a reconciliation, or a heartbeat.
pub data Work : Type 0 where
  noticed : ℕ → Work
  reconcile : World → Work
  beat : Result Unit Text → Work

-- The last relevant event that no reconciliation has followed. The latest work comes first.
abbrev pub unhandled : List Work → Option ℕ
unhandled [] = none
unhandled (noticed at ∷ works) = some at
unhandled (reconcile w ∷ works) = none
unhandled (beat r ∷ works) = unhandled works

-- The debounce that is due for such an event.
abbrev pub IsDue : Option ℕ → Option ℕ → Type 0
IsDue none debounce = Unit
IsDue (some at) debounce = debounce ≡ some (at + reconcile_debounce)

module _ (domain_to_ascii : Text → Result Text Text) (url_parse : Text → Result Url Text) where
  -- The agent after the reconciliations and heartbeats, one after the other.
  abbrev pub performed : List Work → AgentRun → AgentRun
  performed [] a = a
  performed (noticed at ∷ works) a = performed works a
  performed (reconcile w ∷ works) a =
      (reconcile_with_backoff domain_to_ascii url_parse w.answers w.again w.tcp_probe
        (performed works a)).0
  performed (beat r ∷ works) a = heartbeat_tick r (performed works a)

  abbrev Keeps : AgentRun → List Work → LoopState → Type 0
  Keeps a works t = (t.run ≡ performed works a) × IsDue (unhandled works) t.debounce

module _ {domain_to_ascii : Text → Result Text Text} {url_parse : Text → Result Url Text} where
  abbrev work_of : {s t : LoopState} → Wake domain_to_ascii url_parse s t → List Work → List Work
  work_of (event s action now) works =
      if is_relevant_event action then noticed now ∷ works else works
  work_of (ended s w) works = reconcile w ∷ works
  work_of (debounced s w deadline now e le) works = reconcile w ∷ works
  work_of (periodic s w) works = reconcile w ∷ works
  work_of (heartbeat s r) works = beat r ∷ works

  -- What the wake-ups are for, the latest first.
  abbrev pub history : {s t : LoopState} → Wakes domain_to_ascii url_parse s t → List Work
  history start = []
  history (then_wake r wake) = work_of wake (history r)

  wake-Keeps :
      {s t : LoopState} (a : AgentRun) (wake : Wake domain_to_ascii url_parse s t)
      (works : List Work)
      → Keeps domain_to_ascii url_parse a works s
      → Keeps domain_to_ascii url_parse a (work_of wake works) t
  unfolding on_event on_heartbeat on_debounce on_end reconciled
  wake-Keeps a (event s action now) works (same, due) =
      elim (Bool-cases (is_relevant_event action)) [
        | inl relevant ↦ rw relevant (same, refl)
        | inr other ↦ rw other (same, due)
      ]
  wake-Keeps a (ended s w) works (same, due) = (rw same refl, tt)
  wake-Keeps a (debounced s w deadline now d le) works (same, due) = (rw same refl, tt)
  wake-Keeps a (periodic s w) works (same, due) = (rw same refl, tt)
  wake-Keeps a (heartbeat s r) works (same, due) = (rw same refl, due)

  -- However the agent's loop is woken, the agent is as after a reconciliation for each end of the
  -- debounce, each tick of the period and each end of the stream, and the heartbeats, in this order;
  -- and a relevant event of Docker that no such reconciliation has followed yet has one due 400 ms
  -- after the last such event: the loop waits for that deadline.
  pub no_event_lost :
      {s t : LoopState} (r : Wakes domain_to_ascii url_parse s t)
      → (t.run ≡ performed domain_to_ascii url_parse (history r) s.run)
        × IsDue (unhandled (history r)) t.debounce
  no_event_lost start = (refl, tt)
  no_event_lost {s} (then_wake r wake) = wake-Keeps s.run wake (history r) (no_event_lost r)
