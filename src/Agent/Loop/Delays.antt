-- ===== src/Agent/Loop/Delays.antt =====
-- The delays of the agent's loop stay in their bounds.
use tailroute.Base.{◌≤◌, arith, Result, ok, err, Bool, true, false, if◌then◌else◌}
use tailroute.Base.Text.{Text}
use tailroute.Common.Backend.{Url}
use tailroute.Docker.Inspect.{is_relevant_event}
use tailroute.Agent.Reconcile.{AgentRun, heartbeat_tick}
use tailroute.Agent.Reconcile.Backoff.{IsBounded, bump-IsBounded, reconcile-IsBounded}
use tailroute.Agent.Loop.{
  LoopState, World, on_event, on_debounce, on_end, on_heartbeat, reconciled, entered,
  event_reconnect_base, event_reconnect_max, Wake, event, ended, debounced, periodic, heartbeat,
  Wakes, start, then_wake,
}

pub record InBounds (s : LoopState) : Type 0 where
  pub run : IsBounded s.run
  pub reconnect :
      (event_reconnect_base ≤ s.reconnect_delay) × (s.reconnect_delay ≤ event_reconnect_max)

heartbeat_tick-IsBounded :
    (r : Result Unit Text) (a : AgentRun) → IsBounded a → IsBounded (heartbeat_tick r a)
unfolding heartbeat_tick
heartbeat_tick-IsBounded (err e) a b = bump-IsBounded a b
heartbeat_tick-IsBounded (ok u) a b = (omega arith, omega arith)

on_event-InBounds :
    (relevant : Bool) (s t u : LoopState)
    → InBounds t
    → InBounds u
    → InBounds (if relevant then t else u)
on_event-InBounds true s t u b c = b
on_event-InBounds false s t u b c = c

module _ (domain_to_ascii : Text → Result Text Text) (url_parse : Text → Result Url Text) where
  reconciled-InBounds :
      (w : World) (s : LoopState) → InBounds s → InBounds (reconciled domain_to_ascii url_parse w s)
  unfolding reconciled
  reconciled-InBounds w s b = record {
    run =
        (reconcile-IsBounded domain_to_ascii url_parse w.answers w.again w.tcp_probe s.run b.run).0;
    reconnect = b.reconnect;
  }

module _ {domain_to_ascii : Text → Result Text Text} {url_parse : Text → Result Url Text} where
  pub Wake-InBounds :
      {s t : LoopState} → Wake domain_to_ascii url_parse s t → InBounds s → InBounds t
  unfolding on_event on_debounce on_heartbeat on_end reconciled
  Wake-InBounds (event s action now) b =
      on_event-InBounds (is_relevant_event action) s _ _
        (record { run = b.run; reconnect = b.reconnect })
        (record { run = b.run; reconnect = b.reconnect })
  Wake-InBounds (ended s w) b = record {
    run = (reconciled-InBounds domain_to_ascii url_parse w s b).run;
    reconnect = (ground (arith, b.reconnect), ground (arith, b.reconnect));
  }
  Wake-InBounds (debounced s w deadline now e le) b =
      let c = reconciled-InBounds domain_to_ascii url_parse w s b in
      record { run = c.run; reconnect = c.reconnect }
  Wake-InBounds (periodic s w) b = reconciled-InBounds domain_to_ascii url_parse w s b
  Wake-InBounds (heartbeat s r) b = record {
    run = heartbeat_tick-IsBounded r s.run b.run;
    reconnect = b.reconnect;
  }

  -- In every state of the agent's loop the pause before a new event stream lies between 1 s and
  -- 30 s and the delay after a failure between 500 ms and 30 s. The condition: the delay lay there before the loop.
  pub loop-InBounds :
      (first : World) (a : AgentRun)
      → IsBounded a
      → {t : LoopState}
      → Wakes domain_to_ascii url_parse (entered domain_to_ascii url_parse first a) t
      → InBounds t
  unfolding entered
  loop-InBounds first a b start = record {
    run =
        (reconcile-IsBounded domain_to_ascii url_parse first.answers first.again first.tcp_probe a
          b).0;
    reconnect = (omega arith, omega arith);
  }
  loop-InBounds first a b (then_wake r wake) = Wake-InBounds wake (loop-InBounds first a b r)
