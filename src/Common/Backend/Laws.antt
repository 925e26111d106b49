-- ===== src/Common/Backend/Laws.antt =====
-- Which backend URLs crates/tailsvc-common/src/backend.rs accepts.
use tailroute.Base.{
  ◌≡◌, inl, inr, arith, ◌↔◌, Result, ok, Result-cases, true, false, ◌||◌, some, is_empty, is_some,
  any, ltb, nat_eq, unwrap_or,
}
use tailroute.Base.Keys.{◌==◌, list_key, nat_key}
use tailroute.Base.Text.{Text, text, trim}
use tailroute.Common.Backend.{Backend, Url, backend_of_url, parse_backend_url}

-- A URL of the scheme http without credentials, path and query, with a host, and a port other
-- than 0; the backend has its host and its port, or port 80.
abbrev pub IsBackendUrl : Url → Backend → Type 0
IsBackendUrl url b =
    ((url.scheme == text "http") ≡ true)
    × (is_empty url.username ≡ true)
    × (is_some url.password ≡ false)
    × (((url.path == text "/") || is_empty url.path) ≡ true)
    × (is_some url.query ≡ false)
    × (url.host_str ≡ some b.host)
    × (unwrap_or url.port 80 ≡ b.port)
    × (nat_eq b.port 0 ≡ false)

backend_of_url-eq-ok : (url : Url) (b : Backend) → (backend_of_url url ≡ ok b) ↔ IsBackendUrl url b
unfolding backend_of_url
backend_of_url-eq-ok url b = (λ e. ground arith, λ e. ground arith)

module _ (url_parse : Text → Result Url Text) where
  -- A text is accepted as a backend exactly when, without the space around it, it has a character, has
  -- no control character and parses as a URL of the scheme http with a host and without credentials,
  -- path or query, whose port is not 0; the backend has the URL's host and its port, or port 80.
  pub parse_backend_url_iff :
      (raw : Text) (b : Backend)
      → (parse_backend_url url_parse raw ≡ ok b) ↔ (
          (is_empty (trim raw) ≡ false)
          × (any (λ c. ltb c 32) (trim raw) ≡ false)
          × ((url : Url) × (url_parse (trim raw) ≡ ok url) × IsBackendUrl url b))
  unfolding parse_backend_url
  parse_backend_url_iff raw b = (
    accepted,
    λ (some_text, clean, (url, parsed, good)).
        rw (some_text, clean, parsed, parse_backend_url) ((backend_of_url-eq-ok url b).1 good),
  )
    where
      accepted :
          parse_backend_url url_parse raw ≡ ok b
          → (is_empty (trim raw) ≡ false)
            × (any (λ c. ltb c 32) (trim raw) ≡ false)
            × ((url : Url) × (url_parse (trim raw) ≡ ok url) × IsBackendUrl url b)
      accepted e = elim (Result-cases (url_parse (trim raw))) [
        | inr (x, bad) ↦ ground arith
        | inl (url, parsed) ↦ (
          ground arith,
          ground arith,
          (url, parsed, (backend_of_url-eq-ok url b).0 (ground arith)),
        )
      ]
