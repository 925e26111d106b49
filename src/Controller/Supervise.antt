-- ===== src/Controller/Supervise.antt =====
-- The supervision of the DNS server in crates/tailsvc-controller/src/main.rs. Durations are in
-- milliseconds.
use tailroute.Base.{ℕ, ◌*◌, ◌≤◌, Bool, true, false, List, [], ◌∷◌, leb, arith, if◌then◌else◌}

abbrev first_backoff : ℕ
first_backoff = 1000

abbrev last_backoff : ℕ
last_backoff = 60000

-- One round: whether the server starts. Where it does, it has run to its end when the round pauses.
-- The components are the pause and the next backoff.
unfoldable pub restart_round : Bool → ℕ → ℕ × ℕ
restart_round started backoff =
    let pause = if started then first_backoff else backoff in
    (pause, if leb (pause * 2) last_backoff then pause * 2 else last_backoff)

-- The pauses of a run of rounds.
unfoldable pub restart_rounds : List Bool → ℕ → List ℕ
unfolding restart_round
restart_rounds [] backoff = []
restart_rounds (started ∷ rounds) backoff =
    let (pause, next) = restart_round started backoff in pause ∷ restart_rounds rounds next

abbrev Between : List ℕ → Type 0
Between [] = Unit
Between (p ∷ pauses) = (first_backoff ≤ p) × (p ≤ last_backoff) × Between pauses

-- Each pause lies between a second and a minute. The condition: the backoff did before.
restart_rounds-Between :
    (rounds : List Bool) (backoff : ℕ)
    → first_backoff ≤ backoff
    → backoff ≤ last_backoff
    → Between (restart_rounds rounds backoff)
unfolding restart_rounds restart_round
restart_rounds-Between [] backoff lo hi = tt
restart_rounds-Between (true ∷ rounds) backoff lo hi =
    (omega arith, omega arith, restart_rounds-Between rounds _ (omega arith) (omega arith))
restart_rounds-Between (false ∷ rounds) backoff lo hi =
    (lo, hi, restart_rounds-Between rounds _ (ground arith) (ground arith))
