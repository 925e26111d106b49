-- ===== src/Controller/System.antt =====
-- The controller as a whole, crates/tailsvc-controller/src/lib.rs and src/main.rs: the tasks share one
-- state, and any of them may run between two calls of another. A step is a call of the storage that
-- writes, a renewal of the DNS registry, a use of the sessions, a change of the DNS server's flag,
-- or a restart on the same database.
pub mod Rules
pub mod Tables
pub mod Runs
pub mod Cleanup
mod Tests
use tailroute.Base.{ℕ, Result, ok, err, Bool, List, []}
use tailroute.Base.Text.{Text}
use tailroute.Common.Auth.{Argon2}
use tailroute.Storage
use tailroute.Storage.{Rfc3339, Database}
use tailroute.Storage.Writes.{Write}
use tailroute.Storage.Leases.{purge_expired_agents}
use tailroute.Dns.Registry
use tailroute.Controller.Config.{ControllerConfig}
use tailroute.Controller.Sessions.{SessionStore, create, valid, revoke}
use tailroute.Controller.State.{AppState, Handler, refresh_dns, restarted}

-- What the handlers do to the sessions.
pub data Use : SessionStore → SessionStore → Type 0 where
  login : (token : Text) (instant : ℕ) (s : SessionStore) → Use s (create token instant s).1
  check : (token : Text) (instant : ℕ) (s : SessionStore) → Use s (valid token instant s).1
  logout : (token : Text) (s : SessionStore) → Use s (revoke token s)

pub data Step (chrono : Rfc3339) (argon : Argon2) : AppState → AppState → Type 0 where
  write :
      (st : AppState) {db : Database}
      → Write chrono argon st.storage db
      → Step chrono argon st (record st { storage = db })
  -- The tables that a renewal has read may be those of an earlier state.
  renew :
      (st read : AppState) (now : ℕ)
      → Step chrono argon st (record st { registry = (refresh_dns chrono now read).1.registry })
  session :
      (st : AppState) {s : SessionStore}
      → Use st.sessions s
      → Step chrono argon st (record st { sessions = s })
  dns : (st : AppState) (up : Bool) → Step chrono argon st (record st { dns_up = up })
  restart :
      (st : AppState) (cfg : ControllerConfig) (admin_password : List ℕ)
      → Step chrono argon st (restarted st.storage cfg admin_password)

pub data Reach (chrono : Rfc3339) (argon : Argon2) (s : AppState) : AppState → Type 0 where
  here : Reach chrono argon s s
  next : {t u : AppState} → Reach chrono argon s t → Step chrono argon t u → Reach chrono argon s u

-- The controller's states, from its first start on empty tables.
abbrev pub Reachable : Rfc3339 → Argon2 → AppState → Type 0
Reachable chrono argon st =
    (cfg : ControllerConfig) × (admin_password : List ℕ) × Reach chrono argon
      (restarted Storage.empty cfg admin_password) st
