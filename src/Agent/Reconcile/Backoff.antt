-- ===== src/Agent/Reconcile/Backoff.antt =====
-- How long the agent of crates/tailsvc-agent/src/reconcile.rs waits after failures.
use tailroute.Base.{
  ℕ, zero, suc, ◌*◌, ◌+◌, length, ◌^◌, ◌≤◌, ◌≡◌, refl, ap, arith, Result, ok, err, leb, List,
  if◌then◌else◌,
}
use tailroute.Base.Text.{Text}
use tailroute.Common.Backend.{Backend, Url}
use tailroute.Common.Api.{HeartbeatRouteRef, PutRoutesResponse}
use tailroute.Docker.{DiscoveredService}
use tailroute.Agent.Probe.{Outcomes, probed, probe_backends_bound}
use tailroute.Agent.Reconcile.{
  probe_time, AgentRun, Answers, ClientCall, conclude, sync_services, after_reconcile,
  report_discovery, controller_backoff_base, controller_backoff_max, bump_controller_backoff,
  reconcile_once, reconcile_with_backoff, refresh_local_routes,
}

-- The delay is between the least and the greatest one.
abbrev pub IsBounded : AgentRun → Type 0
IsBounded a =
    (controller_backoff_base ≤ a.controller_backoff)
    × (a.controller_backoff ≤ controller_backoff_max)

abbrev bumps : ℕ → AgentRun → AgentRun
bumps zero a = a
bumps (suc n) a = bump_controller_backoff (bumps n a)

bump_min :
    (a : AgentRun) (d : ℕ)
    → a.controller_backoff ≡ (if leb d controller_backoff_max then d else controller_backoff_max)
    → (bump_controller_backoff a).controller_backoff
      ≡ (if leb (2 * d) controller_backoff_max then 2 * d else controller_backoff_max)
unfolding bump_controller_backoff
bump_min a d e = ground arith

-- After `n` failures in a row the delay is 500 ms doubled `n` times, at most 30 s. The condition:
-- the delay was 500 ms before.
bumps_delay :
    (n : ℕ) (a : AgentRun)
    → a.controller_backoff ≡ controller_backoff_base
    → (bumps n a).controller_backoff
      ≡ (if leb (500 * 2 ^ n) controller_backoff_max then 500 * 2 ^ n else controller_backoff_max)
bumps_delay zero a e = e
bumps_delay (suc n) a e = ground (arith, bump_min (bumps n a) (500 * 2 ^ n) (bumps_delay n a e))

pub bump-IsBounded : (a : AgentRun) → IsBounded a → IsBounded (bump_controller_backoff a)
unfolding bump_controller_backoff
bump-IsBounded a (lo, hi) = (ground arith, ground arith)

module _ (domain_to_ascii : Text → Result Text Text) (url_parse : Text → Result Url Text) where
  -- The backends that the agent probes in a pass over Docker's answer.
  abbrev pub probed_by : AgentRun → Result (List DiscoveredService) Text → List Backend
  probed_by a services =
      probed domain_to_ascii url_parse a.tcp_probe_on_register a.static_routes services

  conclude-backoff :
      (refs : List HeartbeatRouteRef) (sent : List ClientCall) (a : AgentRun)
      (r : Result PutRoutesResponse Text)
      → (conclude domain_to_ascii url_parse refs sent a r).1 ≡ a
  unfolding conclude
  conclude-backoff refs sent a (err e) = refl
  conclude-backoff refs sent a (ok o) = refl

  sync-backoff :
      (w : Answers) (sent : List ClientCall) (a : AgentRun)
      (services : Result (List DiscoveredService) Text)
      → (sync_services domain_to_ascii url_parse w sent a services).1.controller_backoff
        ≡ a.controller_backoff
  unfolding sync_services
  sync-backoff w sent a (err e) = refl
  sync-backoff w sent a (ok services) = ap (λ b. b.controller_backoff) (conclude-backoff _ _ _ _)

  sync-probed :
      (w : Answers) (sent : List ClientCall) (a : AgentRun)
      (services again : Result (List DiscoveredService) Text)
      → probed_by (sync_services domain_to_ascii url_parse w sent a services).1 again
        ≡ probed_by a again
  unfolding sync_services
  sync-probed w sent a (err e) again = refl
  sync-probed w sent a (ok services) again = ap (λ b. probed_by b again) (conclude-backoff _ _ _ _)

  refresh-backoff :
      (services : Result (List DiscoveredService) Text) (a : AgentRun)
      → (refresh_local_routes domain_to_ascii url_parse services a).1.controller_backoff
        ≡ a.controller_backoff
  unfolding refresh_local_routes
  refresh-backoff (err e) a = refl
  refresh-backoff (ok services) a = refl

  after-IsBounded :
      (again : Result (List DiscoveredService) Text) (outcomes : Outcomes) (a : AgentRun)
      (r : Result Unit Text)
      → IsBounded a
      → IsBounded (after_reconcile domain_to_ascii url_parse again outcomes a r).0
        × ((after_reconcile domain_to_ascii url_parse again outcomes a r).1
            ≤ controller_backoff_max + probe_time domain_to_ascii url_parse outcomes a again)
  unfolding after_reconcile
  after-IsBounded again outcomes a (ok u) bounded = (ground arith, omega arith)
  after-IsBounded again outcomes a (err e) bounded =
      rw (refresh-backoff again (bump_controller_backoff a))
        (bump-IsBounded a bounded, omega (arith, bounded.1))

  -- Each reconciliation keeps the delay between 500 ms and 30 s, whatever Docker, the controller and
  -- the probes answer, and sleeps for at most 30 s and 1.6 s for each backend that it probes: those
  -- of Docker's first answer, and, if the routes are refreshed, of the second. The condition: the
  -- delay lay there before.
  pub reconcile-IsBounded :
      (w : Answers) (again : Result (List DiscoveredService) Text) (outcomes : Outcomes)
      (a : AgentRun)
      → IsBounded a
      → IsBounded (reconcile_with_backoff domain_to_ascii url_parse w again outcomes a).0
        × ((reconcile_with_backoff domain_to_ascii url_parse w again outcomes a).1
            ≤ 30000 + 1600 * (length (probed_by a w.services) + length (probed_by a again)))
  unfolding reconcile_with_backoff reconcile_once
  reconcile-IsBounded w again outcomes a bounded =
      let sent = report_discovery domain_to_ascii url_parse w.candidates in
      let out = sync_services domain_to_ascii url_parse w sent a w.services in
      let kept : IsBounded out.1 = rw (sync-backoff w sent a w.services) bounded in
      let after = after-IsBounded again outcomes out.1 out.0 kept in
      let first = probe_backends_bound w.tcp_probe 0 (probed_by a w.services) in
      let second = probe_backends_bound outcomes 0 (probed_by a again) in
      let same = sync-probed w sent a w.services again in
      (after.0, omega (arith, first, second, rw same at after.1))
