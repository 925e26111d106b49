-- ===== src/Proxy/WebSocket.antt =====
-- crates/tailsvc-proxy/src/proxy.rs: the upgrade of a WebSocket connection up to its answer. What the
-- network yields is an argument; the bytes of the tunnel are left out.
pub mod Tunnel
use tailroute.Base.{
  Result, ok, err, Timed, finished, elapsed, Bool, true, false, not, Option, none, some, List, [],
  ◌∷◌, unwrap_or, nat_eq, if◌then◌else◌,
}
use tailroute.Base.Text.{Text, text}
use tailroute.Base.Keys.{list_key, nat_key}
use tailroute.Base.Table.{get}
use tailroute.Common.Backend.{authority}
use tailroute.Proxy.Routes.{BackendRoute}
use tailroute.Proxy.Handle.{
  HeaderMap, Request, BackendRequest, Response, text_response, inject_forwarded_headers,
}

-- The network, and what `hyper` accepts: socket addresses in text, name lookup, a TCP connection, the
-- builders of a request and of a response, and the exchange with the backend.
pub record Network : Type 0 where
  pub parse_socket : Text → Option Text
  pub lookup_host : Text → Result (List Text) Text
  pub connect : Text → Timed Unit Text
  pub builds_request : BackendRequest → Bool
  pub handshake : Result Unit Text
  pub send_request : BackendRequest → Result Response Text
  pub builds_response : HeaderMap → Bool

abbrev pub first_address : Result (List Text) Text → Result Text Text
first_address (err e) = err e
first_address (ok []) = err (text "no address")
first_address (ok (a ∷ more)) = ok a

unfoldable pub resolve_authority : Network → Text → Result Text Text
resolve_authority net authority = elim (net.parse_socket authority) [
  | some a ↦ ok a
  | none ↦ first_address (net.lookup_host authority)
]

-- The answer to the client, and whether the tunnel's task is started.
abbrev pub Outcome : Type 0
Outcome = Response × Bool

abbrev pub unavailable : Outcome
unavailable = (text_response 502 (text "backend unavailable"), false)

abbrev pub timed_out : Outcome
timed_out = (text_response 504 (text "backend timeout"), false)

module _ (net : Network) where
  -- `text_response` stands in for headers that make no response.
  unfoldable pub switch_protocols : HeaderMap → Response
  switch_protocols headers =
      if net.builds_response headers
      then record { status = 101; headers = headers; body = [] }
      else text_response 502 (text "backend unavailable")

  unfoldable pub answer_upgrade : Result Response Text → Outcome
  unfolding switch_protocols
  answer_upgrade (err e) = unavailable
  answer_upgrade (ok resp) =
      if not (nat_eq resp.status 101) then unavailable else (switch_protocols resp.headers, true)

  unfoldable pub exchange : BackendRequest → Result Unit Text → Outcome
  unfolding answer_upgrade
  exchange req (err e) = unavailable
  exchange req (ok _) = answer_upgrade (net.send_request req)

  unfoldable pub forward_upgrade : BackendRequest → Timed Unit Text → Outcome
  unfolding exchange
  forward_upgrade req elapsed = timed_out
  forward_upgrade req (finished (err e)) = unavailable
  forward_upgrade req (finished (ok _)) =
      if net.builds_request req
      then exchange req net.handshake
      else (text_response 400 (text "bad request"), false)

  unfoldable pub connect_backend : BackendRequest → Result Text Text → Outcome
  unfolding forward_upgrade
  connect_backend req (err e) = unavailable
  connect_backend req (ok address) = forward_upgrade req (net.connect address)

  -- The request to the backend: the path as it came, the headers with those of the proxy.
  abbrev pub upgrade_request : Text → Request → BackendRequest
  upgrade_request peer_ip req = record {
    uri = unwrap_or req.path_and_query (text "/");
    headers = inject_forwarded_headers req.headers peer_ip (get (text "host") req.headers);
  }

  unfoldable pub proxy_websocket : BackendRoute → Text → Request → Outcome
  unfolding connect_backend resolve_authority
  proxy_websocket route peer_ip req =
      connect_backend (upgrade_request peer_ip req)
        (resolve_authority net (authority route.backend))
