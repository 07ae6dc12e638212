-- ===== src/Proxy/Outcome.antt =====
-- What the first stage of a request does to the gateway: refused, it leaves no stream behind; or it
-- waits on a new stream of the client that the host belongs to.
use go_tunnel.Base.{
  ℕ, ◌+◌, ◌^◌, ◌<◌, Bytes, bytes, false, Option, none, some, [], ◌∷◌, arith, ◌≡◌, refl, ◌⊎◌, inl,
  inr, Bool-cases, nat_eq, bytes_eq, ◌==◌,
}
use go_tunnel.Base.Decimal.{format_uint}
use go_tunnel.Base.Result.{Result, ok, err}
use go_tunnel.GoMap
use go_tunnel.GoMap.{GoMap}
use go_tunnel.Registry
use go_tunnel.Registry.{Tunnel, MemoryRegistry, RegistryError, tunnel_not_found}
use go_tunnel.Broker
use go_tunnel.Broker.{
  Broker, Stream, ClientConn, conn, stream, open_stream, close_stream, get_connection_by_subdomain,
}
use go_tunnel.Broker.Streams.{open_stream_lem, open_stream_fresh, close_stream_lem}
use go_tunnel.Metrics.{inc_requests}
use go_tunnel.Server.{Server, count}
use go_tunnel.Host.{extract_subdomain}
use go_tunnel.Proxy.{
  Request, Setup, Writes, Stage, answered, panicked, error, refuse, open_request, route_request,
  serve_http,
}

-- The connection has the same streams.
abbrev pub SameStreams : Broker → Broker → Type 0
SameStreams b b' =
    (a : ℕ) (c : ClientConn)
    → conn b a ≡ some c
    → (c' : ClientConn) × (conn b' a ≡ some c')
      × ((id : ℕ) → GoMap.get c'.streams id ≡ GoMap.get c.streams id)

pub counter-open :
    (b : Broker) (a : ℕ) (tunnel_id : Bytes)
    → b.next_stream_id + 1 < 2 ^ 32
    → (open_stream b a tunnel_id).0.next_stream_id ≡ b.next_stream_id + 1
unfolding open_stream
counter-open b a tunnel_id room = ground arith

-- A stream that is opened and closed leaves every connection the streams that it had.
pub SameStreams-close-open :
    (b : Broker) (a : ℕ) (tunnel_id : Bytes) (c : ClientConn)
    → Broker.Streams.Inv b
    → b.next_stream_id + 1 < 2 ^ 32
    → conn b a ≡ some c
    → let b1 = (open_stream b a tunnel_id).0 in SameStreams b (close_stream b1 a b1.next_stream_id)
SameStreams-close-open b a tunnel_id c v room hc y d hd =
    let id = b.next_stream_id + 1 in
    let (b1, x) = open_stream b a tunnel_id in
    let same_id = counter-open b a tunnel_id room in
    let (hc1, _, _, _, kept) = open_stream_lem b a tunnel_id c v room hc in
    let c1 : ClientConn = record c { streams = GoMap.put c.streams id x } in
    let hx : GoMap.get c1.streams id ≡ some x = ground (arith, GoMap.get-put c.streams id id x) in
    let (closed, _, _, others) = close_stream_lem b1 a id x c1 hc1 hx in
    let fresh = open_stream_fresh b a a tunnel_id c v room hc in
    rw same_id (elim (Bool-cases (a == y)) [
      | inl hit ↦ (
        record c1 { streams = GoMap.delete c1.streams id },
        ground (arith, closed),
        λ j. ground (
          arith,
          GoMap.get-delete c1.streams id j,
          GoMap.get-put c.streams id j x,
          fresh,
          same_id,
          hc,
          hd,
        ),
      )
      | inr miss ↦ (d, ground (arith, others y, kept y, hd), λ j. refl)
    ])

module _ (setup : Setup) where
  abbrev pub named : Request → Bytes
  named r = extract_subdomain setup.unicode r.host setup.public_hostname

  -- The request was refused with a 502 before any stream was opened.
  abbrev pub RefusedEarly : Server → Request → Server × Stage → Type 0
  RefusedEarly s r outcome =
      (message : Bytes) × (outcome
        ≡ (count s (inc_requests (bytes "502") r.method), answered (error message 502 ∷ [])))

  -- The host led to a tunnel and a connection.
  abbrev pub RoutedTo : Server → Request → Writes → Server × Stage → Type 0
  RoutedTo s r w outcome =
      (tunnel : Tunnel) × (a : ℕ) × (Registry.get_by_subdomain s.registry (named r)
        ≡ ok (some tunnel))
      × (get_connection_by_subdomain s.broker (named r) ≡ some a)
      × (outcome ≡ open_request setup s r w a tunnel)

  route_request-cases :
      (s : Server) (r : Request) (w : Writes) (t : Option Tunnel) (o : Option ℕ)
      → Registry.get_by_subdomain s.registry (named r) ≡ ok t
      → get_connection_by_subdomain s.broker (named r) ≡ o
      → RefusedEarly s r (route_request setup s r w t o)
        ⊎ ((t ≡ none) × (route_request setup s r w t o ≡ (s, panicked)))
        ⊎ RoutedTo s r w (route_request setup s r w t o)
  unfolding route_request refuse format_uint
  route_request-cases s r w t none ht ho =
      inl (bytes "502 Bad Gateway: tunnel client not connected", refl)
  route_request-cases s r w none (some a) ht ho = inr (inl (refl, refl))
  route_request-cases s r w (some tunnel) (some a) ht ho = inr (inr (tunnel, a, ht, ho, refl))

  pub serve_http-cases :
      (s : Server) (r : Request) (w : Writes)
      → RefusedEarly s r (serve_http setup s r w)
        ⊎ ((Registry.get_by_subdomain s.registry (named r) ≡ ok none)
            × (serve_http setup s r w ≡ (s, panicked)))
        ⊎ RoutedTo s r w (serve_http setup s r w)
  unfolding serve_http refuse format_uint
  serve_http-cases s r w = elim (Bool-cases (named r == [])) [
    | inl empty ↦ inl (bytes "502 Bad Gateway: unable to determine tunnel", ground arith)
    | inr full ↦ looked full (Registry.get_by_subdomain s.registry (named r)) refl
  ]
    where
      looked :
          (named r == []) ≡ false
          → (found : Result RegistryError (Option Tunnel))
          → Registry.get_by_subdomain s.registry (named r) ≡ found
          → RefusedEarly s r (serve_http setup s r w)
            ⊎ ((Registry.get_by_subdomain s.registry (named r) ≡ ok none)
                × (serve_http setup s r w ≡ (s, panicked)))
            ⊎ RoutedTo s r w (serve_http setup s r w)
      looked full (err e) h = inl (bytes "502 Bad Gateway: tunnel not found", ground arith)
      looked full (ok t) h =
          let o = get_connection_by_subdomain s.broker (named r) in
          let same : serve_http setup s r w ≡ route_request setup s r w t o = ground arith in
          rw same (elim (route_request-cases s r w t o h refl) [
            | inl early ↦ inl early
            | inr (inl (nil, stopped)) ↦ inr (inl (rw nil at h, stopped))
            | inr (inr routed) ↦ inr (inr routed)
          ])
