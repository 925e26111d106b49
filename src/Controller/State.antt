-- ===== src/Controller/State.antt =====
-- crates/tailsvc-controller/src/state.rs, and what the handlers of src/api.rs share: the bearer token,
-- the admin's check, and the renewal of the DNS registry. A handler takes the shared state and
-- returns its answer and the new state; one reading of each clock serves a handler.
pub mod Refresh
unfoldable pub use tailroute.Base.Headers.{to_str}
use tailroute.Base.{
  ℕ, ◌*◌, Result, ok, err, Bool, true, false, not, ◌&&◌, ◌||◌, Option, none, some, List, [], ◌∷◌,
  ltb, leb, nat_eq, all, and_then, if◌then◌else◌,
}
use tailroute.Base.Keys.{list_key, nat_key}
use tailroute.Base.Text.{Text, text, strip_prefix, as_bytes}
use tailroute.Base.Text.Ipv4.{parse_ipv4}
use tailroute.Base.Table.{Table, get, insert}
use tailroute.Common.Auth.{constant_time_eq}
use tailroute.Storage.{Rfc3339, StorageError, Database}
use tailroute.Storage.Leases.{DnsRoute, active_dns_routes}
use tailroute.Dns.Registry
use tailroute.Dns.Registry.{DnsRegistry, replace}
use tailroute.Controller.Config.{ControllerConfig}
use tailroute.Controller.Sessions
use tailroute.Controller.Sessions.{SessionStore, valid}

pub record AppState : Type 0 where
  pub storage : Database
  pub registry : DnsRegistry
  pub cfg : ControllerConfig
  pub admin_password : List ℕ
  pub admin_username : Text
  pub sessions : SessionStore
  pub dns_up : Bool

pub data ApiError : Type 0 where
  unauthorized : ApiError
  forbidden : Text → ApiError
  storage_error : StorageError → ApiError

-- `AppState::new`; the admin's password is read from its file. A session lives at least 300 s.
unfoldable pub new : Database → DnsRegistry → ControllerConfig → List ℕ → AppState
new storage registry cfg admin_password =
    let seconds = cfg.api.session_ttl_seconds in
    record {
      storage = storage;
      registry = registry;
      cfg = cfg;
      admin_password = admin_password;
      admin_username = cfg.api.admin_username;
      sessions = Sessions.new ((if leb seconds 300 then 300 else seconds) * 1000000000);
      dns_up = false;
    }

-- The state of a program that starts on a database.
abbrev pub restarted : Database → ControllerConfig → List ℕ → AppState
restarted db cfg admin_password = new db Registry.new cfg admin_password

-- The status of an error's response.
abbrev pub status : ApiError → ℕ
status unauthorized = 401
status (forbidden _) = 403
status (storage_error _) = 500

abbrev pub Handler : Type 0 → Type 0
Handler A = AppState → Result A ApiError × AppState

-- What follows an outcome: nothing after an error.
abbrev pub continue :
    {A B : Type 0} → (A → Handler B) → Result A ApiError × AppState → Result B ApiError × AppState
continue f (err e, st) = (err e, st)
continue f (ok a, st) = f a st

infixl 5 ◌>>=◌ ◌>>◌
abbrev pub ◌>>=◌ : {A B : Type 0} → Handler A → (A → Handler B) → Handler B
(m >>= f) st = continue f (m st)

abbrev pub ◌>>◌ : {A B : Type 0} → Handler A → Handler B → Handler B
m >> k = m >>= λ _. k

abbrev pub answer : {A : Type 0} → A → Handler A
answer a st = (ok a, st)

abbrev pub fail : {A : Type 0} → ApiError → Handler A
fail e st = (err e, st)

abbrev pub expect : {A : Type 0} → Option A → ApiError → Handler A
expect none e = fail e
expect (some a) e = answer a

abbrev pub expect_ok : {A E : Type 0} → Result A E → (E → ApiError) → Handler A
expect_ok (ok a) f = answer a
expect_ok (err e) f = fail (f e)

-- A method of the storage, and its error's answer.
abbrev pub run :
    {A : Type 0}
    → (Database → Result A StorageError × Database)
    → (StorageError → ApiError)
    → Handler A
run method f st = let (r, db) = method st.storage in expect_ok r f (record st { storage = db })

-- The headers of a request by their names in lower case.
abbrev pub Headers : Type 0
Headers = Table Text Text

unfoldable pub bearer_token : Headers → Option Text
bearer_token headers =
    and_then (get (text "authorization") headers)
      (λ v. and_then (to_str v) (strip_prefix (text "Bearer ")))

unfoldable pub admin_authorized : Text → ℕ → AppState → Bool × AppState
admin_authorized bearer instant st =
    let (is_valid, sessions) = valid bearer instant st.sessions in
    (
      if is_valid then true else constant_time_eq st.admin_password (as_bytes bearer),
      record st { sessions = sessions },
    )

unfoldable pub verify_password : Text → Text → AppState → Bool
verify_password username password st =
    if not (constant_time_eq (as_bytes st.admin_username) (as_bytes username))
    then false
    else constant_time_eq st.admin_password (as_bytes password)

unfoldable pub check_bearer : Option Text → ℕ → Handler Unit
check_bearer none instant st = (err unauthorized, st)
check_bearer (some token) instant st =
    let (is_authorized, st') = admin_authorized token instant st in
    (if is_authorized then ok tt else err unauthorized, st')

abbrev pub check_admin : Headers → ℕ → Handler Unit
check_admin headers = check_bearer (bearer_token headers)

-- `ChronoDuration::seconds(agent_ttl_seconds)`, in nanoseconds.
abbrev pub agent_ttl : AppState → ℕ
agent_ttl st = st.cfg.leases.agent_ttl_seconds * 1000000000

-- A route with an unreadable address is left out.
abbrev pub inserted : Option ℕ → Text → Table Text ℕ → Table Text ℕ
inserted none hostname table = table
inserted (some ip) hostname table = insert hostname ip table

-- The loop that fills the map.
unfoldable pub insert_routes : List DnsRoute → Table Text ℕ → Table Text ℕ
insert_routes [] table = table
insert_routes (r ∷ routes) table =
    insert_routes routes (inserted (parse_ipv4 r.tailscale_ipv4) r.hostname table)

unfoldable pub refresh_dns : Rfc3339 → ℕ → Handler Unit
unfolding insert_routes replace
refresh_dns chrono now st = (
  ok tt,
  record st {
    registry =
        replace st.registry
          (insert_routes (active_dns_routes chrono (agent_ttl st) now st.storage) []);
  },
)
