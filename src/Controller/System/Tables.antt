-- ===== src/Controller/System/Tables.antt =====
-- In every state of the controller the tables are consistent.
use tailroute.Common.Auth.{Argon2}
use tailroute.Storage.{Rfc3339, empty, agent_row, route_row}
use tailroute.Storage.Consistent.{IsConsistent}
use tailroute.Storage.Writes.{Write-IsConsistent}
use tailroute.Controller.Sessions.{SessionStore, revoke}
use tailroute.Controller.Sessions.Laws.{IsKeyed, create-IsKeyed, valid-IsKeyed, remove-IsKeyed}
use tailroute.Controller.State.{AppState, new}
use tailroute.Controller.System.{
  Use, login, check, logout, Step, write, renew, session, dns, restart, Reach, here, next,
  Reachable,
}

pub record IsSound (chrono : Rfc3339) (st : AppState) : Type 0 where
  pub tables : IsConsistent chrono st.storage
  pub sessions_keyed : IsKeyed st.sessions.inner

Use-IsKeyed : {s t : SessionStore} → Use s t → IsKeyed s.inner → IsKeyed t.inner
unfolding revoke
Use-IsKeyed (login token instant s) k = create-IsKeyed token instant s k
Use-IsKeyed (check token instant s) k = valid-IsKeyed token instant s k
Use-IsKeyed (logout token s) k = remove-IsKeyed token s.inner k

module _ {chrono : Rfc3339} {argon : Argon2} where
  Step-IsSound : {s t : AppState} → Step chrono argon s t → IsSound chrono s → IsSound chrono t
  Step-IsSound (write st w) i = record {
    tables = Write-IsConsistent w i.tables;
    sessions_keyed = i.sessions_keyed;
  }
  Step-IsSound (renew st read now) i = record {
    tables = i.tables;
    sessions_keyed = i.sessions_keyed;
  }
  Step-IsSound (session st u) i = record {
    tables = i.tables;
    sessions_keyed = Use-IsKeyed u i.sessions_keyed;
  }
  Step-IsSound (dns st up) i = record { tables = i.tables; sessions_keyed = i.sessions_keyed }
  Step-IsSound (restart st cfg password) i =
      unfold new in record { tables = i.tables; sessions_keyed = tt }

  Reach-IsSound : {s t : AppState} → Reach chrono argon s t → IsSound chrono s → IsSound chrono t
  Reach-IsSound here i = i
  Reach-IsSound (next r step) i = Step-IsSound step (Reach-IsSound r i)

empty-IsConsistent : (chrono : Rfc3339) → IsConsistent chrono empty
unfolding route_row agent_row
empty-IsConsistent chrono = record {
  agents_keyed = tt;
  tokens_keyed = tt;
  routes_keyed = tt;
  snapshots_keyed = tt;
  services_keyed = tt;
  owned = λ h r e. cc;
  written = λ id a e. absurd (cc);
}

-- In every state that the controller reaches from empty tables, whatever the order of the calls of
-- its tasks: no agent, token, hostname, snapshot or enabled service stands in two rows, each route's
-- owner has a row, the program wrote each agent's last instant, and no session stands twice.
pub Reachable-IsSound :
    {chrono : Rfc3339} {argon : Argon2} (st : AppState)
    → Reachable chrono argon st
    → IsSound chrono st
unfolding new
Reachable-IsSound {chrono} st (cfg, password, r) =
    Reach-IsSound r (record { tables = empty-IsConsistent chrono; sessions_keyed = tt })
