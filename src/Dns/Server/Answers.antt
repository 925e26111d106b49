-- ===== src/Dns/Server/Answers.antt =====
-- What the server of crates/tailsvc-dns/src/server.rs answers from its registry and from its cache.
use tailroute.Base.{
  ℕ, ◌+◌, ◌≤◌, ◌≡◌, refl, sym, ap, ◌∙◌, inl, inr, arith, Bool, true, false, not, ◌&&◌, ◌||◌, none,
  some, List, [], ◌∷◌, ◌++◌, Bool-cases, leb, nat_eq, all, is_some, is_empty, if◌then◌else◌,
}
use tailroute.Base.Keys.{==_refl, list_key, nat_key, pair_key}
use tailroute.Base.Text.{Text, to_ascii_lowercase}
use tailroute.Base.Table.{get, insert, remove, get-insert}
use tailroute.Dns.Registry.{lookup_a}
use tailroute.Dns.Cache.{
  no_error, Record, address, CacheEntry, ResponseCache, cache_get, cache_put, unless_expired,
}
use tailroute.Dns.Server.{
  DnsServerConfig, Query, Request, Upstream, found, no_records, failed, timed_out, answered,
  Progress, type_a, type_aaaa, seconds, capped_ttl, forward_query, unless_cached, ask_upstream,
  answer_query, note_outcome, answer_queries, answer_request, respond,
}
use mathlib.Core.List.{append_assoc, append-nil}

capped_ttl_cons :
    (cap : ℕ) (r : Record) (rs : List Record)
    → (capped_ttl cap (r ∷ rs) ≤ capped_ttl cap rs) × (capped_ttl cap (r ∷ rs) ≤ seconds r.ttl)
unfolding capped_ttl
capped_ttl_cons cap r rs = ground arith

all_le :
    (m n : ℕ) (rs : List Record)
    → m ≤ n
    → all (λ r. leb n (seconds r.ttl)) rs ≡ true
    → all (λ r. leb m (seconds r.ttl)) rs ≡ true
all_le m n [] le h = refl
all_le m n (r ∷ rs) le h = ground (arith, all_le m n rs le)

-- The TTL of a cached answer is at most the configured bound and at most the TTL of each record.
capped_ttl_bound :
    (cap : ℕ) (records : List Record)
    → (capped_ttl cap records ≤ cap)
      × (all (λ r. leb (capped_ttl cap records) (seconds r.ttl)) records ≡ true)
capped_ttl_bound cap [] = (unfold capped_ttl in ground arith, refl)
capped_ttl_bound cap (r ∷ rs) =
    let (le, each) = capped_ttl_bound cap rs in
    let (below, own) = capped_ttl_cons cap r rs in
    let rest = all_le (capped_ttl cap (r ∷ rs)) (capped_ttl cap rs) rs below each in
    (ground arith, ground (arith, rest))

or_false : (b : Bool) → (b || false) ≡ b
or_false b = ground arith

or_nonempty :
    (b : Bool) (xs ys : List Record)
    → ((b || not (is_empty xs)) || not (is_empty ys)) ≡ (b || not (is_empty (xs ++ ys)))
or_nonempty b [] ys = ground arith
or_nonempty b (x ∷ xs) ys = ground arith

module _ (cfg : DnsServerConfig) where
  -- The record that answers a question from the registry.
  abbrev pub registry_record : Text → ℕ → Record
  registry_record name ip = record { name = name; ttl = cfg.service_ttl; rdata = address ip }

  -- The records that the registry holds for a question of type A.
  abbrev pub registry_answer : Query → List Record
  registry_answer q = elim (lookup_a cfg.registry q.name) [
    | none ↦ []
    | some ip ↦ if nat_eq q.query_type type_a then registry_record q.name ip ∷ [] else []
  ]

  abbrev pub registry_answers : List Query → List Record
  registry_answers [] = []
  registry_answers (q ∷ qs) = registry_answer q ++ registry_answers qs

  -- A question of type A or AAAA for a name of the registry.
  abbrev pub is_local : Query → Bool
  is_local q =
      is_some (lookup_a cfg.registry q.name)
      && (nat_eq q.query_type type_a || nat_eq q.query_type type_aaaa)

  module _ (resolver : Text → ℕ → Upstream) (now : ℕ) where
    answer_local :
        (q : Query) (cache : ResponseCache)
        → is_local q ≡ true
        → answer_query cfg resolver now q cache ≡ (answered (registry_answer q) no_error, cache)
    unfolding answer_query
    answer_local q cache h = ground arith

    abbrev local_progress : List Query → Progress → Progress
    local_progress qs p = record p {
      answers = p.answers ++ registry_answers qs;
      any_answer = p.any_answer || not (is_empty (registry_answers qs));
    }

    note_local :
        (q : Query) (qs : List Query) (p : Progress)
        → local_progress qs (note_outcome (answered (registry_answer q) no_error) p)
          ≡ local_progress (q ∷ qs) p
    unfolding note_outcome
    note_local q qs p i = record p {
      answers = append_assoc p.answers (registry_answer q) (registry_answers qs) i;
      any_answer = or_nonempty p.any_answer (registry_answer q) (registry_answers qs) i;
    }

    answer_queries_local :
        (qs : List Query) (p : Progress) (cache : ResponseCache)
        → all is_local qs ≡ true
        → answer_queries cfg resolver now qs p cache ≡ (local_progress qs p, cache)
    unfolding answer_queries
    answer_queries_local [] p cache h = λ i. (
      record p {
        answers = sym (append-nil p.answers) i;
        any_answer = sym (or_false p.any_answer) i;
      },
      cache,
    )
    answer_queries_local (q ∷ qs) p cache h =
        let here : is_local q ≡ true = ground arith in
        let later : all is_local qs ≡ true = ground arith in
        rw (answer_local q cache here) (
          answer_queries_local qs (note_outcome (answered (registry_answer q) no_error) p) cache
            later
          ∙ ap (λ p. (p, cache)) (note_local q qs p))

  -- A request whose questions are all of type A or AAAA for names of the registry is answered from the
  -- registry alone: without an error, with the records that it holds for the questions of type A,
  -- in order, whatever the resolver would yield; the cache stays as it is.
  pub answer_request_local :
      (resolver : Text → ℕ → Upstream) (now : ℕ) (req : Request) (cache : ResponseCache)
      → all is_local req.queries ≡ true
      → answer_request cfg resolver now req cache
        ≡ (respond req no_error (registry_answers req.queries), cache)
  unfolding answer_request
  answer_request_local resolver now req cache h =
      rw
        (answer_queries_local resolver now req.queries
          (record { rcode = no_error; answers = []; any_fail = false; any_answer = false }) cache h)
        refl

  module _ (q : Query) (records : List Record) (now : ℕ) where
    abbrev ttl : ℕ
    ttl = capped_ttl cfg.positive_cache_max records

    abbrev kept : CacheEntry
    kept = record { records = records; rcode = no_error; expires = now + ttl }

    abbrev stored : ResponseCache → ResponseCache
    stored cache = cache_put q.name q.query_type records no_error ttl now cache

    forward_query_asked :
        (resolver : Text → ℕ → Upstream) (cache : ResponseCache)
        → cache_get q.name q.query_type now cache ≡ (none, cache)
        → resolver q.name q.query_type ≡ found records
        → forward_query cfg resolver now q cache ≡ (answered records no_error, stored cache)
    unfolding forward_query ask_upstream
    forward_query_asked resolver cache miss asked =
        ap (unless_cached cfg resolver now q) miss ∙ rw asked refl

    cache_get-put :
        (later : ℕ) (cache : ResponseCache)
        → nat_eq ttl 0 ≡ false
        → cache_get q.name q.query_type later (stored cache) ≡ (
            if leb (now + ttl) later
            then (none, remove (to_ascii_lowercase q.name, q.query_type) (stored cache))
            else (some kept, stored cache))
    unfolding cache_get cache_put
    cache_get-put later cache positive =
        let key : Text × ℕ = (to_ascii_lowercase q.name, q.query_type) in
        let found_it : get key (insert key kept cache) ≡ some kept =
          get-insert key key kept cache ∙ rw (==_refl key) refl in
        rw positive (ap (unless_expired key later (insert key kept cache)) found_it)

    same_answer :
        (again : Text → ℕ → Upstream) (later : ℕ) (u : Upstream) (c d : ResponseCache)
        → (ask_upstream cfg again later q u c).0 ≡ (ask_upstream cfg again later q u d).0
    unfolding ask_upstream
    same_answer again later (found rs) c d = refl
    same_answer again later no_records c d = refl
    same_answer again later failed c d = refl
    same_answer again later timed_out c d = refl

    -- An answer that the resolver has found is served from the cache, whatever the resolver would
    -- yield then, until its TTL has run out; from that instant on the resolver is asked again. The
    -- conditions: no entry of the cache served the question before, and the TTL is not 0.
    pub forward_query_cached :
        (resolver again : Text → ℕ → Upstream) (later : ℕ) (cache : ResponseCache)
        → cache_get q.name q.query_type now cache ≡ (none, cache)
        → resolver q.name q.query_type ≡ found records
        → nat_eq ttl 0 ≡ false
        → (forward_query cfg again later q (forward_query cfg resolver now q cache).1).0 ≡ (
            if leb (now + ttl) later
            then (ask_upstream cfg again later q (again q.name q.query_type) cache).0
            else answered records no_error)
    unfolding forward_query
    forward_query_cached resolver again later cache miss asked positive =
        ap (λ p. (forward_query cfg again later q p.1).0)
          (forward_query_asked resolver cache miss asked)
        ∙ elim (Bool-cases (leb (now + ttl) later)) [
          | inl gone ↦
              let missed : cache_get q.name q.query_type later (stored cache)
                  ≡ (none, remove (to_ascii_lowercase q.name, q.query_type) (stored cache)) =
                cache_get-put later cache positive ∙ rw gone refl in
              rw gone (
                ap (λ o. (unless_cached cfg again later q o).0) missed
                ∙ same_answer again later (again q.name q.query_type) _ cache)
          | inr fresh ↦
              let hit : cache_get q.name q.query_type later (stored cache)
                  ≡ (some kept, stored cache) =
                cache_get-put later cache positive ∙ rw fresh refl in
              rw fresh (ap (λ o. (unless_cached cfg again later q o).0) hit)
        ]
