-- ===== src/Controller/System/Rules.antt =====
-- Handlers as sequences of steps of the controller, by a rule for each form of the handlers' code.
use tailroute.Base.{ℕ, subst, sym, ap, Result, ok, err, Option, none, some}
use tailroute.Base.Text.{Text}
use tailroute.Common.Auth.{Argon2}
use tailroute.Storage.{Rfc3339, StorageError, Database}
use tailroute.Storage.Writes.{Write}
use tailroute.Controller.State.{
  AppState, ApiError, Handler, continue, ◌>>=◌, expect, expect_ok, run, Headers, bearer_token,
  check_admin, refresh_dns,
}
use tailroute.Controller.Admin.Denied.{sessions_after, check_admin-eq}
use tailroute.Controller.System.{check, write, renew, session, Reach, here, next}

module _ {chrono : Rfc3339} {argon : Argon2} where
  pub Reach-trans :
      {s t u : AppState} → Reach chrono argon s t → Reach chrono argon t u → Reach chrono argon s u
  Reach-trans r here = r
  Reach-trans r (next q step) = next (Reach-trans r q) step

  then_runs :
      {A B : Type 0} {s : AppState} (k : A → Handler B)
      → ((a : A) (st : AppState) → Reach chrono argon st (k a st).1)
      → (r : Result A ApiError × AppState) → Reach chrono argon s r.1
      → Reach chrono argon s (continue k r).1
  then_runs k each (err e, st) q = q
  then_runs k each (ok a, st) q = Reach-trans q (each a st)

-- A handler's change of the state is a sequence of steps.
pub record Runs (chrono : Rfc3339) (argon : Argon2) {A : Type 0} (m : Handler A) : Type 0 where
  pub steps : (st : AppState) → Reach chrono argon st (m st).1

module _ {chrono : Rfc3339} {argon : Argon2} where
  pub bind-Runs :
      {A B : Type 0} {m : Handler A} {k : A → Handler B}
      → Runs chrono argon m
      → ((a : A) → Runs chrono argon (k a))
      → Runs chrono argon (m >>= k)
  bind-Runs {m = m} {k = k} first rest = record {
    steps = λ st. then_runs k (λ a. (rest a).steps) (m st) (first.steps st);
  }

  -- A handler that chooses its course by the state.
  pub state-Runs :
      {A : Type 0} {m : AppState → Handler A}
      → ((st : AppState) → Runs chrono argon (m st))
      → Runs chrono argon (λ st. m st st)
  state-Runs each = record { steps = λ st. (each st).steps st }

  pub read_only-Runs :
      {A : Type 0} (read : AppState → Result A ApiError) → Runs chrono argon (λ st. (read st, st))
  read_only-Runs read = record { steps = λ st. here }

  pub expect_ok-Runs :
      {A E : Type 0} (r : Result A E) (f : E → ApiError) → Runs chrono argon (expect_ok r f)
  expect_ok-Runs (ok a) f = record { steps = λ st. here }
  expect_ok-Runs (err e) f = record { steps = λ st. here }

  pub expect-Runs : {A : Type 0} (o : Option A) (e : ApiError) → Runs chrono argon (expect o e)
  expect-Runs none e = record { steps = λ st. here }
  expect-Runs (some a) e = record { steps = λ st. here }

  pub write-Runs :
      {A : Type 0} (method : Database → Result A StorageError × Database)
      (f : StorageError → ApiError)
      → ((db : Database) → Write chrono argon db (method db).1)
      → Runs chrono argon (run method f)
  write-Runs method f w = record {
    steps = λ st.
        let after : AppState = record st { storage = (method st.storage).1 } in
        Reach-trans (next here (write st (w st.storage)))
          ((expect_ok-Runs (method st.storage).0 f).steps after);
  }

  pub read-Runs :
      {A : Type 0} (method : Database → Result A StorageError) (f : StorageError → ApiError)
      → Runs chrono argon (run (λ db. (method db, db)) f)
  read-Runs method f = record { steps = λ st. (expect_ok-Runs (method st.storage) f).steps st }

  pub refresh_dns-Runs : (now : ℕ) → Runs chrono argon (refresh_dns chrono now)
  unfolding refresh_dns
  refresh_dns-Runs now = record { steps = λ st. next here (renew st st now) }

  pub check_admin-Runs :
      (headers : Headers) (instant : ℕ) → Runs chrono argon (check_admin headers instant)
  check_admin-Runs headers instant = record {
    steps = λ st.
        subst (λ t. Reach chrono argon st t)
          (sym (ap (λ r. r.1) (check_admin-eq headers instant st)))
          (looked_up st (bearer_token headers));
  }
    where
      looked_up :
          (st : AppState) (bearer : Option Text)
          → Reach chrono argon st
              (record st { sessions = sessions_after headers instant st bearer })
      looked_up st none = here
      looked_up st (some token) = next here (session st (check token instant st.sessions))
