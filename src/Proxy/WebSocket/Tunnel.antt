-- ===== src/Proxy/WebSocket/Tunnel.antt =====
-- When the proxy opens a tunnel for a WebSocket connection.
use tailroute.Base.{
  ◌⊎◌, Option-cases, none, some, List, ◌∷◌, [], if◌then◌else◌, ◌≡◌, ◌↔◌, refl, ap, sym, ◌∙◌, inl,
  inr, Result, ok, err, Timed, finished, elapsed, true, Bool-cases, nat_eq, nat_eq_iff,
}
use tailroute.Base.Text.{Text, text}
use tailroute.Common.Backend.{authority}
use tailroute.Proxy.Routes.{BackendRoute}
use tailroute.Proxy.Handle.{Request, BackendRequest, Response, HeaderMap, text_response}
use tailroute.Proxy.WebSocket.{
  Network, first_address, resolve_authority, switch_protocols, answer_upgrade, exchange,
  forward_upgrade, connect_backend, upgrade_request, proxy_websocket,
}

module _ (net : Network) where
  -- The backend's authority stands for this address: it is one in text, or the first that the name
  -- lookup yields.
  abbrev pub IsAddressOf : Text → Text → Type 0
  IsAddressOf host address =
      (net.parse_socket host ≡ some address)
      ⊎ ((net.parse_socket host ≡ none)
          × (more : List Text) × (net.lookup_host host ≡ ok (address ∷ more)))

  resolve_authority_iff :
      (host address : Text) → (resolve_authority net host ≡ ok address) ↔ IsAddressOf host address
  unfolding resolve_authority
  resolve_authority_iff host address = (
    elim (Option-cases (net.parse_socket host)) [
      | inl name ↦
          rw (name, resolve_authority)
            (λ e. let (more, found) = looked_up (net.lookup_host host) e in inr (refl, more, found))
      | inr (a, socket) ↦ rw (socket, resolve_authority) (λ e. inl (cc))
    ],
    λ found. elim found [
      | inl socket ↦ rw (socket, resolve_authority) refl
      | inr (name, more, found) ↦ rw (name, found, resolve_authority) refl
    ],
  )
    where
      looked_up :
          (r : Result (List Text) Text)
          → first_address r ≡ ok address
          → (more : List Text) × (r ≡ ok (address ∷ more))
      looked_up (err e) h = absurd (cc)
      looked_up (ok []) h = absurd (cc)
      looked_up (ok (a ∷ more)) h = (more, cc)

  -- The backend was reached and has agreed to switch protocols.
  pub record Switched (req : BackendRequest) (host : Text) : Type 0 where
    pub address : Text
    pub response : Response
    pub found : IsAddressOf host address
    pub connected : net.connect address ≡ finished (ok tt)
    pub built : net.builds_request req ≡ true
    pub shaken : net.handshake ≡ ok tt
    pub replied : net.send_request req ≡ ok response
    pub agreed : response.status ≡ 101

  answer_upgrade-opened :
      (r : Result Response Text)
      → (answer_upgrade net r).1 ≡ true
      → (resp : Response) × (r ≡ ok resp) × (resp.status ≡ 101)
  unfolding answer_upgrade
  answer_upgrade-opened (err e) h = cc
  answer_upgrade-opened (ok resp) h = elim (Bool-cases (nat_eq resp.status 101)) [
    | inl same ↦ (resp, refl, (nat_eq_iff resp.status 101).0 same)
    | inr other ↦ let bad = rw other at h in absurd (cc)
  ]

  exchange-opened :
      (req : BackendRequest) (r : Result Unit Text)
      → (exchange net req r).1 ≡ true
      → (r ≡ ok tt) × ((answer_upgrade net (net.send_request req)).1 ≡ true)
  unfolding exchange
  exchange-opened req (err e) h = cc
  exchange-opened req (ok u) h = (refl, h)

  forward_upgrade-opened :
      (req : BackendRequest) (t : Timed Unit Text)
      → (forward_upgrade net req t).1 ≡ true
      → (t ≡ finished (ok tt))
        × (net.builds_request req ≡ true)
        × ((exchange net req net.handshake).1 ≡ true)
  unfolding forward_upgrade
  forward_upgrade-opened req elapsed h = cc
  forward_upgrade-opened req (finished (err e)) h = cc
  forward_upgrade-opened req (finished (ok u)) h = elim (Bool-cases (net.builds_request req)) [
    | inl built ↦ (refl, built, rw built at h)
    | inr not_built ↦ let bad = rw not_built at h in absurd (cc)
  ]

  connect_backend-opened :
      (req : BackendRequest) (r : Result Text Text)
      → (connect_backend net req r).1 ≡ true
      → (address : Text) × (r ≡ ok address)
        × ((forward_upgrade net req (net.connect address)).1 ≡ true)
  unfolding connect_backend
  connect_backend-opened req (err e) h = cc
  connect_backend-opened req (ok address) h = (address, refl, h)

  opened-Switched :
      (req : BackendRequest) (host : Text)
      → (connect_backend net req (resolve_authority net host)).1 ≡ true
      → Switched req host
  opened-Switched req host h =
      let (address, found, h1) = connect_backend-opened req (resolve_authority net host) h in
      let (connected, built, h2) = forward_upgrade-opened req (net.connect address) h1 in
      let (shaken, h3) = exchange-opened req net.handshake h2 in
      let (resp, replied, agreed) = answer_upgrade-opened (net.send_request req) h3 in
      record {
        address = address;
        response = resp;
        found = (resolve_authority_iff host address).0 found;
        connected = connected;
        built = built;
        shaken = shaken;
        replied = replied;
        agreed = agreed;
      }

  -- Status 101 with the backend's headers, or 502 if they make no response.
  abbrev pub passed_on : HeaderMap → Response
  passed_on headers =
      if net.builds_response headers
      then record { status = 101; headers = headers; body = [] }
      else text_response 502 (text "backend unavailable")

  Switched-opened :
      (req : BackendRequest) (host : Text) (s : Switched req host)
      → connect_backend net req (resolve_authority net host) ≡ (passed_on s.response.headers, true)
  unfolding connect_backend forward_upgrade exchange answer_upgrade switch_protocols
  Switched-opened req host s =
      let found = (resolve_authority_iff host s.address).1 s.found in
      rw (found, s.connected, s.built, s.shaken, s.replied, s.agreed) refl

  -- The proxy answers a WebSocket request with `response` and starts a tunnel exactly when the
  -- backend's authority is a socket address or a name that the lookup has addresses for, the
  -- connection to it, or to the first of them, is made before the timeout, the request to it is
  -- built, the handshake succeeds, the backend answers with status 101, and `response` has status 101
  -- and that answer's headers, or is a 502 if no response can be built of these.
  pub proxy_websocket_tunnel :
      (route : BackendRoute) (peer_ip : Text) (req : Request) (response : Response)
      → (proxy_websocket net route peer_ip req ≡ (response, true)) ↔ (
          (s : Switched (upgrade_request net peer_ip req) (authority route.backend)) × (response
            ≡ passed_on s.response.headers))
  unfolding proxy_websocket
  proxy_websocket_tunnel route peer_ip req response =
      let backend_req = upgrade_request net peer_ip req in
      let name = authority route.backend in
      (
        λ e.
            let s = opened-Switched backend_req name (ap (λ o. o.1) e) in
            (s, ap (λ o. o.0) (sym e ∙ Switched-opened backend_req name s)),
        λ (s, e). Switched-opened backend_req name s ∙ ap (λ r. (r, true)) (sym e),
      )
