-- ===== src/Dns/Tests.antt =====
-- The theorems on the DNS server at one name of the registry and one of the resolver.
use tailroute.Base.{
  arith, ℕ, Result, ok, some, is_some, ◌+◌, ◌≡◌, refl, true, List, [], ◌∷◌, leb, if◌then◌else◌,
}
use tailroute.Base.Keys.{list_key, nat_key, list_eq}
use tailroute.Base.Text.{Text, trim_end_matches, trim_end_by, to_ascii_lowercase, lower_char}
use tailroute.Base.Table.{get}
use tailroute.Dns.Registry.{lookup_a}
use tailroute.Dns.Tcp.{handle_tcp_conn}
use tailroute.Dns.Tcp.Frames.{frames, handle_tcp_conn-frames, handle_tcp_conn-ends}
use tailroute.Dns.Cache.{no_error, Record, address, cache_get}
use tailroute.Dns.Server.{
  DnsServerConfig, Query, Request, found, failed, answered, capped_ttl, ask_upstream, forward_query,
  answer_request, respond,
}
use tailroute.Dns.Server.Answers.{registry_answers, answer_request_local, forward_query_cached}

abbrev config : DnsServerConfig
config = record {
  listen = record { ip = 1; port = 53 };
  upstreams = [];
  service_ttl = 5;
  positive_cache_max = 300000000000;
  negative_cache_max = 30000000000;
  registry = record { inner = (b'x' ∷ [], 7) ∷ [] };
}

-- `X.`, type A.
abbrev query : Query
query = record { name = b'X' ∷ b'.' ∷ []; query_type = 1 }

abbrev request : Request
request = record { id = 3; op_code = 0; recursion_desired = true; queries = query ∷ [] }

abbrev records : List Record
records = record { name = b'w' ∷ []; ttl = 2; rdata = address 9 } ∷ []

abbrev web : Query
web = record { name = b'w' ∷ []; query_type = 1 }

answer_request_local_example :
    answer_request config (λ name type. failed) 4 request []
    ≡ (respond request no_error (registry_answers config request.queries), [])
unfolding lookup_a trim_end_matches trim_end_by to_ascii_lowercase lower_char get list_eq
answer_request_local_example = answer_request_local config (λ name type. failed) 4 request [] refl

forward_query_cached_example :
    (forward_query config
      (λ name type. failed)
      1000
      web
      (forward_query config (λ name type. found records) 4 web []).1).0
    ≡ (if leb (4 + capped_ttl config.positive_cache_max records) 1000
        then (ask_upstream config (λ name type. failed) 1000 web failed []).0
        else answered records no_error)
unfolding cache_get get capped_ttl
forward_query_cached_example =
    forward_query_cached config web records 4 (λ name type. found records) (λ name type. failed)
      1000 [] refl refl refl

-- A server that answers a message by its own bytes and one more, and counts.
abbrev echo : ℕ → List ℕ → Result (List ℕ) Text × ℕ
echo n message = (ok (n ∷ message), n + 1)

abbrev sent : List (List ℕ)
sent = (b'q' ∷ []) ∷ [] ∷ []

abbrev returned : List (List ℕ)
returned = (7 ∷ b'q' ∷ []) ∷ (8 ∷ []) ∷ []

handle_tcp_conn-frames_example :
    handle_tcp_conn echo 9 (frames sent) 7 ≡ some (frames returned, ok tt)
handle_tcp_conn-frames_example =
    handle_tcp_conn-frames echo 9 sent returned 7 (omega arith) (omega arith) (refl, (refl, tt))

-- A client that closes within a message.
handle_tcp_conn-ends_example : is_some (handle_tcp_conn echo 9 (0 ∷ 5 ∷ b'q' ∷ []) 7) ≡ true
handle_tcp_conn-ends_example = handle_tcp_conn-ends echo 9 (0 ∷ 5 ∷ b'q' ∷ []) 7 (omega arith)
