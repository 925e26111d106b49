-- ===== src/Common/Backend.antt =====
-- crates/tailsvc-common/src/backend.rs. `Url::parse` is a parameter; its error is the text that the
-- error displays.
pub mod Laws
use tailroute.Base.{
  ℕ, Result, ok, err, ◌>>=◌, map_err, ok_or, Bool, not, ◌&&◌, ◌||◌, Option, List, [], ◌∷◌, ◌++◌,
  ltb, nat_eq, is_empty, is_some, any, unwrap_or, if◌then◌else◌,
}
use tailroute.Base.Keys.{◌==◌, list_key, nat_key}
use tailroute.Base.Text.{Text, text, trim, contains, starts_with_char}
use tailroute.Base.Text.Numbers.{decimal}
use tailroute.Common.Errors.{Error, invalid_backend}

pub record Backend : Type 0 where
  pub host : Text
  pub port : ℕ

-- The parts of a parsed URL that the program reads.
pub record Url : Type 0 where
  pub scheme : Text
  pub username : Text
  pub password : Option Text
  pub path : Text
  pub query : Option Text
  pub host_str : Option Text
  pub port : Option ℕ

unfoldable pub authority : Backend → Text
authority b =
    if contains b':' b.host && not (starts_with_char b'[' b.host)
    then text "[" ++ (b.host ++ (text "]:" ++ decimal b.port))
    else b.host ++ (text ":" ++ decimal b.port)

unfoldable pub base_url : Backend → Text
base_url b = text "http://" ++ (authority b ++ text "/")

unfoldable pub fingerprint : Backend → Text
fingerprint b = text "http://" ++ (authority b ++ text "/")

-- The tests on the parsed URL.
unfoldable pub backend_of_url : Url → Result Backend Error
backend_of_url url =
    if not (url.scheme == text "http")
    then err (invalid_backend (text "only http scheme supported"))
    else if not (is_empty url.username) || is_some url.password
    then err (invalid_backend (text "credentials not allowed"))
    else if not (url.path == text "/") && not (is_empty url.path)
    then err (invalid_backend (text "path not allowed"))
    else if is_some url.query
    then err (invalid_backend (text "query not allowed"))
    else (do
      host ← ok_or url.host_str (invalid_backend (text "missing host"))
      let port = unwrap_or url.port 80
      (if nat_eq port 0
          then err (invalid_backend (text "invalid port"))
          else ok (record { host = host; port = port })))

module _ (url_parse : Text → Result Url Text) where
  unfoldable pub parse_backend_url : Text → Result Backend Error
  parse_backend_url raw =
      let trimmed = trim raw in
      if is_empty trimmed
      then err (invalid_backend (text "empty"))
      else if any (λ b. ltb b 32) trimmed
      then err (invalid_backend (text "control characters"))
      else (do url ← map_err (λ e. invalid_backend e) (url_parse trimmed); backend_of_url url)
