-- ===== src/Agent/Loop.antt =====
-- crates/tailsvc-agent/src/reconcile.rs: `loop_forever`. A wake-up of its `select!` is a step on the
-- variables of the loop; what Docker, the controller and the clock yield is an argument. Instants
-- and durations are in milliseconds.
pub mod Events
pub mod Delays
use tailroute.Base.{
  ℕ, ◌+◌, ◌*◌, ◌≤◌, ◌≡◌, Result, Bool, true, false, Option, none, some, List, leb, if◌then◌else◌,
}
use tailroute.Base.Text.{Text}
use tailroute.Common.Backend.{Url}
use tailroute.Docker.{DiscoveredService}
use tailroute.Docker.Inspect.{is_relevant_event}
use tailroute.Agent.{AgentReady}
use tailroute.Agent.Probe.{Outcomes}
use tailroute.Agent.Reconcile.{AgentRun, Answers, reconcile_with_backoff, heartbeat_tick}

abbrev pub event_reconnect_base : ℕ
event_reconnect_base = 1000

abbrev pub event_reconnect_max : ℕ
event_reconnect_max = 30000

abbrev pub reconcile_debounce : ℕ
reconcile_debounce = 400

pub record LoopState : Type 0 where
  pub run : AgentRun
  pub reconnect_delay : ℕ
  pub debounce : Option ℕ
  pub saw_event : Bool

-- What Docker, the controller and the probes yield in one call of `reconcile_with_backoff`.
pub record World : Type 0 where
  pub answers : Answers
  pub again : Result (List DiscoveredService) Text
  pub tcp_probe : Outcomes

-- The branch for an event of the stream.
unfoldable pub on_event : Option Text → ℕ → LoopState → LoopState
unfolding is_relevant_event
on_event action now s =
    if is_relevant_event action
    then record s { saw_event = true; debounce = some (now + reconcile_debounce) }
    else record s { saw_event = true }

module _ (domain_to_ascii : Text → Result Text Text) (url_parse : Text → Result Url Text) where
  -- The state after a reconciliation.
  unfoldable pub reconciled : World → LoopState → LoopState
  reconciled w s = record s {
    run = (reconcile_with_backoff domain_to_ascii url_parse w.answers w.again w.tcp_probe s.run).0;
  }

  -- The branch for the end of the debounce.
  unfoldable pub on_debounce : World → LoopState → LoopState
  unfolding reconciled
  on_debounce w s = reconciled w (record s { debounce = none })

  -- The branch for the heartbeat's tick.
  unfoldable pub on_heartbeat : Result Unit Text → LoopState → LoopState
  on_heartbeat r s = record s { run = heartbeat_tick r s.run }

  -- The end of the stream, which leaves the inner loop: a reconciliation and a pause, and the next
  -- round with new variables. The second component is the pause.
  unfoldable pub on_end : World → LoopState → LoopState × ℕ
  unfolding reconciled
  on_end w s =
      let delay = if s.saw_event then event_reconnect_base else s.reconnect_delay in
      (
        record (reconciled w s) {
          reconnect_delay =
              if leb (delay * 2) event_reconnect_max then delay * 2 else event_reconnect_max;
          debounce = none;
          saw_event = false;
        },
        delay,
      )

  -- Before the first wake-up: the first reconciliation.
  unfoldable pub entered : World → AgentRun → LoopState
  entered w a = record {
    run = (reconcile_with_backoff domain_to_ascii url_parse w.answers w.again w.tcp_probe a).0;
    reconnect_delay = event_reconnect_base;
    debounce = none;
    saw_event = false;
  }

  -- A wake-up. The debounce ends at its deadline or later, if there is one.
  pub data Wake : LoopState → LoopState → Type 0 where
    event : (s : LoopState) (action : Option Text) (now : ℕ) → Wake s (on_event action now s)
    ended : (s : LoopState) (w : World) → Wake s (on_end w s).0
    debounced :
        (s : LoopState) (w : World) (deadline now : ℕ)
        → s.debounce ≡ some deadline
        → deadline ≤ now
        → Wake s (on_debounce w s)
    periodic : (s : LoopState) (w : World) → Wake s (reconciled w s)
    heartbeat : (s : LoopState) (r : Result Unit Text) → Wake s (on_heartbeat r s)

  pub data Wakes (s : LoopState) : LoopState → Type 0 where
    start : Wakes s s
    then_wake : {t u : LoopState} → Wakes s t → Wake t u → Wakes s u
