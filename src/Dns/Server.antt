-- ===== src/Dns/Server.antt =====
-- The server of crates/tailsvc-dns/src/server.rs, on decoded messages. The resolver is a parameter:
-- what it yields for a name and a type, within the query's time or not.
pub mod Answers
use tailroute.Base.{
  ℕ, ◌+◌, ◌*◌, Bool, true, false, not, ◌&&◌, ◌||◌, Option, none, some, List, [], ◌∷◌, ◌++◌, map,
  leb, nat_eq, any, is_empty, if◌then◌else◌,
}
use tailroute.Base.Text.{Text}
use tailroute.Dns.Registry.{DnsRegistry, lookup_a, contains}
use tailroute.Dns.Cache.{
  ResponseCode, no_error, serv_fail, nx_domain, refused, Record, address, CacheEntry, ResponseCache,
  cache_get, cache_put,
}

pub record SocketAddr : Type 0 where
  pub ip : ℕ
  pub port : ℕ

-- Durations are in nanoseconds, `service_ttl` is in seconds.
pub record DnsServerConfig : Type 0 where
  pub listen : SocketAddr
  pub upstreams : List SocketAddr
  pub service_ttl : ℕ
  pub positive_cache_max : ℕ
  pub negative_cache_max : ℕ
  pub registry : DnsRegistry

pub record Query : Type 0 where
  pub name : Text
  pub query_type : ℕ

-- A request, and the parts of a response that the server sets.
pub record Request : Type 0 where
  pub id : ℕ
  pub op_code : ℕ
  pub recursion_desired : Bool
  pub queries : List Query

pub record Response : Type 0 where
  pub id : ℕ
  pub op_code : ℕ
  pub authoritative : Bool
  pub recursion_available : Bool
  pub recursion_desired : Bool
  pub queries : List Query
  pub rcode : ResponseCode
  pub answers : List Record

-- What the resolver yields; `no_records` is its error for a name without records of the type.
pub data Upstream : Type 0 where
  found : List Record → Upstream
  no_records failed timed_out : Upstream

-- What a query comes to; `error` stands for an error and for the end of the query's time.
pub data Outcome : Type 0 where
  answered : List Record → ResponseCode → Outcome
  error : Outcome

abbrev pub type_a : ℕ
type_a = 1

abbrev pub type_aaaa : ℕ
type_aaaa = 28

abbrev pub seconds : ℕ → ℕ
seconds n = n * 1000000000

-- The least TTL of the records, at most `cap`; `cap` if there is none.
unfoldable pub capped_ttl : ℕ → List Record → ℕ
capped_ttl cap [] = cap
capped_ttl cap (r ∷ rs) =
    let rest = capped_ttl cap rs in if leb rest (seconds r.ttl) then rest else seconds r.ttl

abbrev is_no_error : ResponseCode → Bool
is_no_error no_error = true
is_no_error _ = false

-- The variables of the loop over the questions.
pub record Progress : Type 0 where
  pub rcode : ResponseCode
  pub answers : List Record
  pub any_fail : Bool
  pub any_answer : Bool

unfoldable pub note_outcome : Outcome → Progress → Progress
note_outcome error p = record p { any_fail = true }
note_outcome (answered records rcode) p = record p {
  rcode = if not (is_no_error rcode) && is_empty records then rcode else p.rcode;
  answers = p.answers ++ records;
  any_answer = p.any_answer || not (is_empty records);
}

-- The response as it is before the questions are looked at.
abbrev pub respond : Request → ResponseCode → List Record → Response
respond req rcode answers = record {
  id = req.id;
  op_code = req.op_code;
  authoritative = false;
  recursion_available = true;
  recursion_desired = req.recursion_desired;
  queries = req.queries;
  rcode = rcode;
  answers = answers;
}

module _ (cfg : DnsServerConfig) (resolver : Text → ℕ → Upstream) (now : ℕ) where
  -- The second half of `forward_query`: no entry of the cache serves.
  unfoldable pub ask_upstream : Query → Upstream → ResponseCache → Outcome × ResponseCache
  ask_upstream q (found records) cache = (
    answered records no_error,
    cache_put q.name q.query_type records no_error (capped_ttl cfg.positive_cache_max records) now
        cache,
  )
  ask_upstream q no_records cache = (
    answered [] nx_domain,
    cache_put q.name q.query_type [] nx_domain cfg.negative_cache_max now cache,
  )
  ask_upstream q failed cache = (error, cache)
  ask_upstream q timed_out cache = (error, cache)

  abbrev pub unless_cached : Query → Option CacheEntry × ResponseCache → Outcome × ResponseCache
  unless_cached q (some entry, cache) = (answered entry.records entry.rcode, cache)
  unless_cached q (none, cache) = ask_upstream q (resolver q.name q.query_type) cache

  unfoldable pub forward_query : Query → ResponseCache → Outcome × ResponseCache
  forward_query q cache = unless_cached q (cache_get q.name q.query_type now cache)

  unfoldable pub answer_query : Query → ResponseCache → Outcome × ResponseCache
  answer_query q cache = elim (lookup_a cfg.registry q.name) [
    | none ↦ forward_query q cache
    | some ip ↦
        if nat_eq q.query_type type_a
        then (
          answered (record { name = q.name; ttl = cfg.service_ttl; rdata = address ip } ∷ [])
              no_error,
          cache,
        )
        else if nat_eq q.query_type type_aaaa
        then (answered [] no_error, cache)
        else forward_query q cache
  ]

  unfoldable pub answer_queries : List Query → Progress → ResponseCache → Progress × ResponseCache
  answer_queries [] p cache = (p, cache)
  answer_queries (q ∷ qs) p cache =
      let (outcome, cache') = answer_query q cache in
      answer_queries qs (note_outcome outcome p) cache'

  abbrev is_self : SocketAddr → Bool
  is_self a = nat_eq a.ip cfg.listen.ip && nat_eq a.port cfg.listen.port

  -- An upstream is the server itself, and a question is not in the registry.
  abbrev pub would_loop : Request → Bool
  would_loop req =
      any is_self cfg.upstreams && any (λ q. not (contains cfg.registry q.name)) req.queries

  unfoldable pub answer_request : Request → ResponseCache → Response × ResponseCache
  answer_request req cache =
      let (p, cache') =
        answer_queries req.queries
          (record { rcode = no_error; answers = []; any_fail = false; any_answer = false }) cache in
      (
        respond req (if p.any_fail && not p.any_answer then serv_fail else p.rcode) p.answers,
        cache',
      )

  pub handle_request : Request → Option SocketAddr → ResponseCache → Response × ResponseCache
  handle_request req none cache = answer_request req cache
  handle_request req (some peer) cache =
      if is_self peer
      then (respond req refused [], cache)
      else if would_loop req
      then (respond req serv_fail [], cache)
      else answer_request req cache
