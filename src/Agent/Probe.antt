-- ===== src/Agent/Probe.antt =====
-- crates/tailsvc-agent/src/reconcile.rs: `tcp_probe_with_retries` and the probes of a reconciliation.
-- A failed probe only writes to the log, but the tries wait in between. The outcome of each try of
-- `tcp_probe` is an argument; times are in milliseconds and leave out what a connection takes.
use tailroute.Base.{
  ℕ, zero, suc, ◌+◌, ◌*◌, ◌≤◌, ◌≡◌, refl, arith, Result, ok, err, Bool, true, false, List, [], ◌∷◌,
  ◌++◌, map, ltb, length, if◌then◌else◌,
}
use tailroute.Base.Text.{Text}
use tailroute.Common.Backend.{Backend, Url}
use tailroute.Docker.{DiscoveredService}
use tailroute.Docker.Resolve.{resolve_backend}
use tailroute.Agent.StaticRoutes.{StaticRouteConfig, prepare_static_routes}

abbrev pub probe_retries : ℕ
probe_retries = 5

abbrev pub probe_retry_delay : ℕ
probe_retry_delay = 400

-- The loop from a try on, with the number of tries that are left: the answer and the time slept.
unfoldable pub tcp_probe_from : (ℕ → Bool) → ℕ → ℕ → Bool × ℕ
tcp_probe_from tcp_probe zero attempt = (false, 0)
tcp_probe_from tcp_probe (suc left) attempt =
    let (reached, slept) = tcp_probe_from tcp_probe left (attempt + 1) in
    if tcp_probe attempt
    then (true, 0)
    else (reached, (if ltb (attempt + 1) probe_retries then probe_retry_delay else 0) + slept)

unfoldable pub tcp_probe_with_retries : (ℕ → Bool) → Bool × ℕ
unfolding tcp_probe_from
tcp_probe_with_retries tcp_probe = tcp_probe_from tcp_probe probe_retries 0

-- The outcome of a try, by the number of the call, the backend and the number of the try.
abbrev pub Outcomes : Type 0
Outcomes = ℕ → Backend → ℕ → Bool

-- The time slept for backends that are probed one after the other.
unfoldable pub probe_backends : Outcomes → ℕ → List Backend → ℕ
probe_backends outcomes call [] = 0
probe_backends outcomes call (b ∷ backends) =
    (tcp_probe_with_retries (outcomes call b)).1 + probe_backends outcomes (call + 1) backends

-- The backends of the labelled containers; one without a backend is passed over.
unfoldable pub resolved : List DiscoveredService → List Backend
resolved [] = []
resolved (svc ∷ services) = elim (resolve_backend svc) [
  | err _ ↦ resolved services
  | ok backend ↦ backend ∷ resolved services
]

module _ (domain_to_ascii : Text → Result Text Text) (url_parse : Text → Result Url Text) where
  -- The backends that are probed in a pass over Docker's answer: those of the labels, then the static
  -- ones. The flag is `tcp_probe_on_register`.
  unfoldable pub probed :
      Bool → List StaticRouteConfig → Result (List DiscoveredService) Text → List Backend
  unfolding resolved
  probed on static_routes (err e) = []
  probed on static_routes (ok services) =
      if on
      then resolved services
        ++ map (λ sr. sr.backend) (prepare_static_routes domain_to_ascii url_parse static_routes)
      else []

from_bound :
    (tcp_probe : ℕ → Bool) (left attempt : ℕ)
    → left + attempt ≡ probe_retries
    → (tcp_probe_from tcp_probe left attempt).1 + 400 * attempt
      ≤ 1600 + (if ltb attempt 5 then 0 else 400)
unfolding tcp_probe_from
from_bound tcp_probe zero attempt e = ground arith
from_bound tcp_probe (suc left) attempt e =
    ground (arith, from_bound tcp_probe left (attempt + 1) (omega (arith, e)))

with_retries_bound : (tcp_probe : ℕ → Bool) → (tcp_probe_with_retries tcp_probe).1 ≤ 1600
unfolding tcp_probe_with_retries
with_retries_bound tcp_probe = omega (arith, from_bound tcp_probe 5 0 refl)

-- The probes of some backends sleep for at most 1.6 s each.
pub probe_backends_bound :
    (outcomes : Outcomes) (call : ℕ) (backends : List Backend)
    → probe_backends outcomes call backends ≤ 1600 * length backends
unfolding probe_backends
probe_backends_bound outcomes call [] = omega arith
probe_backends_bound outcomes call (b ∷ backends) =
    omega (
      arith,
      with_retries_bound (outcomes call b),
      probe_backends_bound outcomes (call + 1) backends,
    )
