-- ===== src/Proxy/Tests.antt =====
-- The theorems on the proxy at a small request.
use tailroute.Base.{◌++◌, ◌≡◌, ◌↔◌, refl, ok, finished, true, none, Option, some, [], ◌∷◌}
use tailroute.Base.Keys.{list_eq, list_key, nat_key, member}
use tailroute.Base.Text.{Text, text}
use tailroute.Base.Table.{get}
use tailroute.Common.Backend.{authority}
use tailroute.Proxy.Routes.{BackendRoute}
use tailroute.Proxy.Handle.{HeaderMap, Request, Response, inject_forwarded_headers}
use tailroute.Proxy.WebSocket.{Network, switch_protocols, upgrade_request, proxy_websocket}
use tailroute.Proxy.WebSocket.Tunnel.{Switched, passed_on, proxy_websocket_tunnel}
use tailroute.Proxy.Handle.Forwarded.{passed, sent_or, forwarded_headers}
use tailroute.Proxy.Handle.Entries.{entries}

abbrev host : Option Text
host = some (b'h' ∷ [])

-- A client that names a proxy before this one.
abbrev headers : HeaderMap
headers =
    (text "host", b'h' ∷ []) ∷ (text "x-forwarded-for", b'1' ∷ []) ∷ (text "accept", b'*' ∷ []) ∷ []

forwarded_headers_example :
    (entries (text "host") (inject_forwarded_headers headers (b'2' ∷ []) host)
      ≡ sent_or (text "host") host (entries (text "host") headers))
    × (entries (text "x-forwarded-proto") (inject_forwarded_headers headers (b'2' ∷ []) host)
        ≡ (text "x-forwarded-proto", text "http") ∷ [])
    × (entries (text "x-forwarded-host") (inject_forwarded_headers headers (b'2' ∷ []) host)
        ≡ sent_or (text "x-forwarded-host") host (entries (text "x-forwarded-host") headers))
    × (entries (text "x-forwarded-for") (inject_forwarded_headers headers (b'2' ∷ []) host)
        ≡ (text "x-forwarded-for", passed (get (text "x-forwarded-for") headers) ++ (b'2' ∷ []))
          ∷ [])
    × (entries (text "accept") (inject_forwarded_headers headers (b'2' ∷ []) host)
        ≡ entries (text "accept") headers)
unfolding text member list_eq
forwarded_headers_example = forwarded_headers headers (b'2' ∷ []) host (text "accept") refl refl

-- A network with one host, whose backend agrees to switch protocols.
abbrev network : Network
network = record {
  parse_socket = λ t. none;
  lookup_host = λ t. ok (t ∷ []);
  connect = λ t. finished (ok tt);
  builds_request = λ r. true;
  handshake = ok tt;
  send_request = λ r. ok (record { status = 101; headers = headers; body = [] });
  builds_response = λ h. true;
}

abbrev route : BackendRoute
route = record {
  backend = record { host = b'h' ∷ []; port = 81 };
  container_id = none;
  container_name = none;
}

abbrev request : Request
request = record { path_and_query = none; headers = headers }

abbrev switched : Response
switched = record { status = 101; headers = headers; body = [] }

switched_run : proxy_websocket network route (b'2' ∷ []) request ≡ (switched, true)
unfolding proxy_websocket switch_protocols
switched_run = refl

proxy_websocket_tunnel_example :
    (proxy_websocket network route (b'2' ∷ []) request ≡ (switched, true)) ↔ (
      (s : Switched network (upgrade_request network (b'2' ∷ []) request) (authority route.backend))
      × (switched ≡ passed_on network s.response.headers))
proxy_websocket_tunnel_example = proxy_websocket_tunnel network route (b'2' ∷ []) request switched
