-- ===== src/Proxy/Opened.antt =====
-- A request that waits for the client.
use go_tunnel.Base.{
  ℕ, ◌+◌, ◌^◌, ◌<◌, Bytes, false, none, some, [], ◌∷◌, arith, ◌≡◌, refl, sym, ap, ◌∙◌, inl, inr,
  length, nat_eq, bytes_eq,
}
use go_tunnel.Base.Decimal.{format_uint}
use go_tunnel.Base.Result.{ok}
use go_tunnel.GoMap
use go_tunnel.Protocol.{frame_open_stream, frame_stream_data}
use go_tunnel.Protocol.Frame.{encode_control_message}
use go_tunnel.Registry
use go_tunnel.Broker
use go_tunnel.Broker.{
  Broker, Stream, ClientConn, conn, stream, open_stream, get_connection_by_subdomain,
}
use go_tunnel.Broker.Streams.{open_stream_lem}
use go_tunnel.Metrics.{add_bytes_sent}
use go_tunnel.Server.{Server, count, write_message}
use go_tunnel.Server.Messages.{get_stream}
use go_tunnel.Proxy.{
  Request, Setup, Writes, Stage, waiting, give_up, socket, open_message, open_request, refuse,
  serve_http,
}
use go_tunnel.Proxy.Stages.{IsEnvelope, send_open-cases}
use go_tunnel.Proxy.Outcome.{serve_http-cases, named, counter-open}
use go_tunnel.Proxy.Refused.{routed_conn}

module _ (setup : Setup) where
  -- The gateway while the handler waits on the stream at x, opened under the id on the connection at
  -- a: the host belongs to a tunnel and leads to the connection; the stream is new and empty; and its
  -- client has been sent the opening frame and then the data frame.
  pub record IsOpened (s s' : Server) (r : Request) (a x id : ℕ) : Type 0 where
    pub tunnel : Registry.Tunnel
    pub client : ClientConn
    pub data_bytes : Bytes
    pub open_frame : Bytes
    pub data_frame : Bytes
    pub registered : Registry.get_by_subdomain s.registry (named setup r) ≡ ok (some tunnel)
    pub routed : get_connection_by_subdomain s.broker (named setup r) ≡ some a
    pub connected : conn s.broker a ≡ some client
    pub entered : get_stream s'.broker a id ≡ some x
    pub empty :
        stream s'.broker x
        ≡ some (record { id = id; tunnel_id = tunnel.id; response = []; done = false })
    pub new : stream s.broker x ≡ none
    pub enveloped : IsEnvelope setup r data_bytes
    pub open_encoded :
        encode_control_message setup.codecs.open_stream frame_open_stream
          (open_message r id tunnel.id)
        ≡ some open_frame
    pub data_encoded :
        encode_control_message setup.codecs.stream_data frame_stream_data
          (record { stream_id = format_uint id; content = data_bytes })
        ≡ some data_frame
    pub sent : s'.sent ≡ (client.ws, data_frame) ∷ (client.ws, open_frame) ∷ s.sent
    pub counted : s'.metrics ≡ add_bytes_sent (length data_bytes) ∷ s.metrics
    pub numbered : id ≡ s.broker.next_stream_id + 1
    pub registry : s'.registry ≡ s.registry

  opened :
      (s s' : Server) (r : Request) (b : ℕ) (tunnel : Registry.Tunnel) (c : ClientConn)
      (data_bytes f1 f2 : Bytes) (a x id : ℕ)
      → Broker.Streams.Inv s.broker
      → s.broker.next_stream_id + 1 < 2 ^ 32
      → conn s.broker b ≡ some c
      → Registry.get_by_subdomain s.registry (named setup r) ≡ ok (some tunnel)
      → get_connection_by_subdomain s.broker (named setup r) ≡ some b
      → IsEnvelope setup r data_bytes
      → let (b1, y) = open_stream s.broker b tunnel.id in
        let id1 = b1.next_stream_id in
        let s1 : Server = record s { broker = b1 } in
        let s2 = write_message s1 (socket b1 b) (some f1) in
        encode_control_message setup.codecs.open_stream frame_open_stream
            (open_message r id1 tunnel.id)
          ≡ some f1
        → encode_control_message setup.codecs.stream_data frame_stream_data
            (record { stream_id = format_uint id1; content = data_bytes })
          ≡ some f2
        → ◌≡◌ {A = Server × Stage}
            (s', waiting a x id)
            (
              count (write_message s2 (socket b1 b) (some f2)) (add_bytes_sent (length data_bytes)),
              waiting b y id1,
            )
        → IsOpened s s' r a x id
  unfolding get_stream socket
  opened s s' r b tunnel c data_bytes f1 f2 a x id v room hc found route enveloped e1 e2 whole =
      let (b1, y) = open_stream s.broker b tunnel.id in
      let (hc1, hy, new_y, _, _) = open_stream_lem s.broker b tunnel.id c v room hc in
      let same_state = ap (λ (o : Server × Stage). o.0) whole in
      let same_stage = ap (λ (o : Server × Stage). o.1) whole in
      let same_a : a ≡ b = cc in
      let same_x : x ≡ y = cc in
      let same_id : id ≡ b1.next_stream_id = cc in
      let counter = counter-open s.broker b tunnel.id room in
      rw (same_state, same_a, same_x, same_id)
        (record {
          tunnel = tunnel;
          client = c;
          data_bytes = data_bytes;
          open_frame = f1;
          data_frame = f2;
          registered = found;
          routed = route;
          connected = hc;
          entered = ground (
            arith,
            hc1,
            counter,
            GoMap.get-put c.streams (s.broker.next_stream_id + 1) (s.broker.next_stream_id + 1) y,
          );
          empty = rw counter hy;
          new = new_y;
          enveloped = enveloped;
          open_encoded = e1;
          data_encoded = e2;
          sent = ground (arith, hc1);
          counted = refl;
          numbered = counter;
          registry = refl;
        })

  -- In a well-formed broker, while the counter of stream ids has not wrapped: a request waits only on
  -- a new stream of the connection that its host leads to, once both frames have been sent there.
  pub serve_http-waiting :
      (s s' : Server) (r : Request) (w : Writes) (a x id : ℕ)
      → Broker.Streams.Inv s.broker
      → s.broker.next_stream_id + 1 < 2 ^ 32
      → serve_http setup s r w ≡ (s', waiting a x id)
      → IsOpened s s' r a x id
  unfolding open_request give_up refuse
  serve_http-waiting s s' r w a x id v room h = elim (serve_http-cases setup s r w) [
    | inl (message, e) ↦ cc (sym h ∙ e)
    | inr (inl (nil, e)) ↦ cc (sym h ∙ e)
    | inr (inr (tunnel, b, found, route, e)) ↦
        let (c, hc) = routed_conn s.broker (named setup r) b v route in
        let b1 = (open_stream s.broker b tunnel.id).0 in
        let y = (open_stream s.broker b tunnel.id).1 in
        elim (send_open-cases setup r w b y b1.next_stream_id (record s { broker = b1 })
          tunnel.id) [
            | inl (l, message, f) ↦ cc (sym h ∙ e ∙ f)
            | inr (f1, e1, (d, f2, enveloped, e2, f)) ↦
                opened s s' r b tunnel c d f1 f2 a x id v room hc found route enveloped e1 e2
                  (sym h ∙ e ∙ f)
          ]
  ]
