-- ===== src/Agent/Client/Enrolled.antt =====
-- The agent's client against the controller's check of its requests.
use tailroute.Base.{
  ℕ, ◌≡◌, refl, ap, inl, inr, arith, Bool, true, Bool-cases, ◌&&◌, ◌||◌, ok, some, [], ◌∷◌, ◌++◌,
  all, nat_eq, nat_eq_iff, leb, ltb,
}
use tailroute.Base.Keys.{list_key, nat_key, list_eq}
use tailroute.Base.Table.{get}
use tailroute.Base.Text.{Text, text, strip_prefix}
use tailroute.Common.Api.{EnrollRequest, EnrollResponse}
use tailroute.Common.Auth.{Argon2, IsArgon2}
use tailroute.Storage.{Rfc3339}
use tailroute.Controller.State.{AppState, Headers, to_str, bearer_token}
use tailroute.Controller.Agents.{enroll, verify_bearer}
use tailroute.Controller.Agents.Enrolled.{verify_bearer-ok, answered-verifies}
use tailroute.Agent.Client.{Method, HttpRequest, bearer, new, agent_request}

-- The headers of a request as the controller reads them.
abbrev pub arrived : HttpRequest → Headers
arrived req = (text "authorization", req.authorization) ∷ []

all-append : (p : ℕ → Bool) (s t : Text) → all p s ≡ true → all p t ≡ true → all p (s ++ t) ≡ true
all-append p [] t hs ht = ht
all-append p (c ∷ s) t hs ht = ground (arith, all-append p s t)

strip_prefix-append : (p s : Text) → strip_prefix p (p ++ s) ≡ some s
unfolding strip_prefix
strip_prefix-append [] s = refl
strip_prefix-append (c ∷ p) s = rw ((nat_eq_iff c c).1 refl) (strip_prefix-append p s)

abbrev visible : ℕ → Bool
visible c = nat_eq c 9 || (leb 32 c && ltb c 127)

to_str-visible : (token : Text) → to_str token ≡ some token → all visible token ≡ true
unfolding to_str
to_str-visible token e = elim (Bool-cases (all visible token)) [
  | inl v ↦ v
  | inr hidden ↦ let bad = rw hidden at e in absurd (cc)
]

bearer-to_str :
    (token : Text) → to_str token ≡ some token → to_str (bearer token) ≡ some (bearer token)
unfolding to_str
bearer-to_str token e =
    let seen : all visible (bearer token) ≡ true =
      all-append visible (text "Bearer ") token (unfold text in refl) (to_str-visible token e) in
    rw seen refl

bearer_token-arrived :
    (req : HttpRequest) (token : Text)
    → req.authorization ≡ bearer token
    → to_str token ≡ some token
    → bearer_token (arrived req) ≡ some token
unfolding bearer_token
bearer_token-arrived req token same e =
    let found : get (text "authorization") (arrived req) ≡ some (bearer token) =
      unfold get list_eq text in ap (λ v. some v) same in
    rw (found, bearer-to_str token e) (strip_prefix-append (text "Bearer ") token)

-- Every request that the agent's client makes with the credentials of an answered enrollment passes
-- the controller's check of the agent, in the state that the enrollment leaves. The conditions: the
-- password hash verifies what it has hashed, and the agent's token is of characters that a header may
-- hold.
pub enrolled_client-verifies :
    (chrono : Rfc3339) (argon : Argon2) (headers : Headers) (body : EnrollRequest)
    (id_part agent_token salt : Text) (now : ℕ) (st : AppState) (resp : EnrollResponse)
    (url path : Text) (method : Method)
    → IsArgon2 argon
    → (enroll chrono argon headers body id_part agent_token salt now st).0 ≡ ok resp
    → to_str resp.agent_token ≡ some resp.agent_token
    → verify_bearer chrono argon
        (arrived (agent_request method path (new url resp.agent_id resp.agent_token)))
        resp.agent_id
        (enroll chrono argon headers body id_part agent_token salt now st).1
      ≡ (ok tt, (enroll chrono argon headers body id_part agent_token salt now st).1)
enrolled_client-verifies chrono argon headers body id_part agent_token salt now st resp url path
      method laws e visible_token =
    verify_bearer-ok chrono argon _ resp.agent_id resp.agent_token _
      (bearer_token-arrived (agent_request method path (new url resp.agent_id resp.agent_token))
        resp.agent_token (unfold new in refl) visible_token)
      (answered-verifies chrono argon headers body id_part agent_token salt now st resp laws e)
