-- ===== src/Proxy/Handle.antt =====
-- crates/tailsvc-proxy/src/proxy.rs: the decisions of `handle`, the forwarded headers, and the
-- answer to each way in which a backend may fail. A header map is the list of its entries, names in
-- lower case; the backend is a parameter.
pub mod Entries
pub mod Forwarded
use tailroute.Base.{
  ℕ, Bool, false, not, ◌&&◌, ◌||◌, Option, none, some, List, [], ◌∷◌, ◌++◌, retain, unwrap_or,
  and_then, is_empty, if◌then◌else◌,
}
use tailroute.Base.Headers.{to_str}
use tailroute.Base.Keys.{◌==◌, list_key, nat_key}
use tailroute.Base.Text.{Text, text, to_ascii_lowercase, contains_text, eq_ignore_ascii_case}
use tailroute.Base.Table.{get}
use tailroute.Common.Backend.{authority}
use tailroute.Proxy.Routes.{BackendRoute, SharedRouteStore, resolve}

abbrev pub HeaderMap : Type 0
HeaderMap = List (Text × Text)

-- `HeaderMap::insert`: the entries of the name give way to one.
unfoldable pub header_insert : Text → Text → HeaderMap → HeaderMap
header_insert name value headers = retain (λ (n, _). not (n == name)) headers ++ (name, value) ∷ []

pub record Response : Type 0 where
  pub status : ℕ
  pub headers : HeaderMap
  pub body : Text

unfoldable pub text_response : ℕ → Text → Response
text_response status body = record {
  status = status;
  headers =
      (text "content-type", text "text/plain; charset=utf-8")
      ∷ (text "cache-control", text "no-store")
      ∷ [];
  body = body;
}

unfoldable pub is_websocket_upgrade : HeaderMap → Bool
is_websocket_upgrade headers =
    let upgrade =
      unwrap_or
        (and_then (and_then (get (text "upgrade") headers) to_str)
          (λ s. some (eq_ignore_ascii_case s (text "websocket"))))
        false in
    let connection =
      unwrap_or
        (and_then (and_then (get (text "connection") headers) to_str)
          (λ s. some (contains_text (text "upgrade") (to_ascii_lowercase s))))
        false in
    upgrade && connection

-- `set_header`: the entry that is made where a value is present.
abbrev pub insert_some : Text → Option Text → HeaderMap → HeaderMap
insert_some name none headers = headers
insert_some name (some v) headers = header_insert name v headers

-- The addresses that the request has passed, with the peer's at the end.
unfoldable pub forwarded_for : Option Text → Text → Text
forwarded_for none peer_ip = peer_ip
forwarded_for (some existing) peer_ip =
    if is_empty existing then peer_ip else existing ++ (text ", " ++ peer_ip)

-- `HeaderValue::from_bytes` takes the bytes of a value, and `from_str` those texts that `to_str` yields.
unfoldable pub inject_forwarded_headers : HeaderMap → Text → Option Text → HeaderMap
inject_forwarded_headers headers peer_ip original_host =
    let h1 = insert_some (text "host") original_host headers in
    let h2 = header_insert (text "x-forwarded-proto") (text "http") h1 in
    let h3 = insert_some (text "x-forwarded-host") original_host h2 in
    let xff = forwarded_for (and_then (get (text "x-forwarded-for") h3) to_str) peer_ip in
    insert_some (text "x-forwarded-for") (to_str xff) h3

-- What the backend does with a plain request. An error is the text that it displays.
pub data BackendResult : Type 0 where
  replied : Response → BackendResult
  errored : Text → BackendResult
  no_reply : BackendResult

-- The headers of a reply that are passed on, behind the proxy's own `cache-control`.
unfoldable pub pass_headers : HeaderMap → HeaderMap
pass_headers headers =
    (text "cache-control", text "no-store, no-cache, must-revalidate")
    ∷ retain (λ (n, _). not (n == text "transfer-encoding")) headers

unfoldable pub answer_http : BackendResult → Response
answer_http (replied resp) = record resp { headers = pass_headers resp.headers }
answer_http (errored e) =
    let msg = to_ascii_lowercase e in
    if contains_text (text "timeout") msg || contains_text (text "timed out") msg
    then text_response 504 (text "backend timeout")
    else text_response 502 (text "backend unavailable")
answer_http no_reply = text_response 504 (text "backend timeout")

pub record Request : Type 0 where
  pub path_and_query : Option Text
  pub headers : HeaderMap

-- A request to a backend: the target address and the headers.
pub record BackendRequest : Type 0 where
  pub uri : Text
  pub headers : HeaderMap

-- Where a request goes.
pub data Decision : Type 0 where
  respond : Response → Decision
  http : BackendRoute → BackendRequest → Decision
  websocket : BackendRoute → Decision

-- `None` where the target is no valid URI.
module _ (valid_uri : Text → Bool) where
  unfoldable pub prepare_http : BackendRoute → Text → Request → Decision
  prepare_http route peer_ip req =
      let uri =
        text "http://" ++ (authority route.backend ++ unwrap_or req.path_and_query (text "/")) in
      if not (valid_uri uri)
      then respond (text_response 400 (text "bad request"))
      else http route (record {
        uri = uri;
        headers = inject_forwarded_headers req.headers peer_ip (get (text "host") req.headers);
      })

  unfoldable pub handle : Bool → SharedRouteStore → Text → Request → Decision
  handle shutting_down routes peer_ip req =
      if shutting_down
      then respond (text_response 503 (text "agent shutting down"))
      else elim (resolve routes (unwrap_or (and_then (get (text "host") req.headers) to_str) [])) [
        | none ↦ respond (text_response 404 (text "unknown tailsvc host"))
        | some route ↦
            if is_websocket_upgrade req.headers
            then websocket route
            else prepare_http route peer_ip req
      ]
