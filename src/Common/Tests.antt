-- ===== src/Common/Tests.antt =====
-- The theorems on backends and tokens at small texts.
use tailroute.Base.{
  ℕ, List, ◌≡◌, ◌↔◌, Result, ok, true, false, none, some, [], ◌∷◌, is_empty, any, ltb,
}
use tailroute.Base.Text.{Text, text, trim}
use tailroute.Common.Auth.{constant_time_eq}
use tailroute.Common.Auth.Equality.{constant_time_eq_iff}
use tailroute.Common.Backend.{Url, parse_backend_url}
use tailroute.Common.Backend.Laws.{IsBackendUrl, parse_backend_url_iff}

-- A parser that knows one URL, `http://h:81/`.
abbrev url : Url
url = record {
  scheme = text "http";
  username = [];
  password = none;
  path = text "/";
  query = none;
  host_str = some (b'h' ∷ []);
  port = some 81;
}

abbrev parse : Text → Result Url Text
parse t = ok url

parse_backend_url_example :
    (parse_backend_url parse (b'u' ∷ []) ≡ ok (record { host = b'h' ∷ []; port = 81 })) ↔ (
      (is_empty (trim (b'u' ∷ [])) ≡ false)
      × (any (λ c. ltb c 32) (trim (b'u' ∷ [])) ≡ false)
      × ((found : Url) × (parse (trim (b'u' ∷ [])) ≡ ok found)
          × IsBackendUrl found (record { host = b'h' ∷ []; port = 81 })))
parse_backend_url_example =
    parse_backend_url_iff parse (b'u' ∷ []) (record { host = b'h' ∷ []; port = 81 })

abbrev secret : List ℕ
secret = b'p' ∷ b'q' ∷ []

-- A secret of the same length.
abbrev guess : List ℕ
guess = b'p' ∷ b'r' ∷ []

constant_time_eq_example : (constant_time_eq secret guess ≡ true) ↔ (secret ≡ guess)
constant_time_eq_example = constant_time_eq_iff secret guess
