-- ===== src/Server/Connect.antt =====
-- internal/server/server.go: handleConnect, up to the read loop. The arguments are what the
-- connection gives: the WebSocket, its first message if one could be read, and a clock whose n-th
-- reading is the n-th time that is asked for (0 for the token, 1 for the connection's name, then two
-- for each tunnel).
use go_tunnel.Base.{
  ℕ, suc, ◌+◌, Bytes, bytes, Option, none, some, List, [], ◌∷◌, ◌++◌, nat_eq, bytes_eq, ◌==◌,
  if◌then◌else◌,
}
use go_tunnel.Base.Int.{ℤ, pos, negsuc, wrap64}
use go_tunnel.Base.Decimal.{format_uint}
use go_tunnel.Base.Result.{Result, ok, err}
use go_tunnel.Protocol.{
  Register, TunnelConfig, frame_register, code_ok, code_unauthorized, code_invalid_request,
}
use go_tunnel.Protocol.Frame.{decode_frame, decode_control_message, FrameError}
use go_tunnel.Registry
use go_tunnel.Registry.{Tunnel, RegistryError}
use go_tunnel.Auth.{Mac, Token, validate_token}
use go_tunnel.Broker
use go_tunnel.Metrics.{inc_active_tunnels, inc_token_auth_failures}
use go_tunnel.Server.{
  Codecs, Server, registry_error_text, auth_error_text, count, send_control_response,
  cleanup_connection,
}

-- %d of an int64.
unfoldable pub format_int : ℤ → Bytes
format_int (pos n) = format_uint n
format_int (negsuc n) = b'-' ∷ format_uint (suc n)

-- The connection's id: the client's own, or one made of the time.
unfoldable pub choose_conn_id : Bytes → ℤ → Bytes
unfolding format_int
choose_conn_id client_id now =
    if client_id == [] then bytes "conn-" ++ format_int (wrap64 now) else client_id

unfoldable pub tunnel_id : Bytes → Bytes → Bytes
tunnel_id conn_id subdomain = conn_id ++ b'-' ∷ subdomain

unfoldable pub new_tunnel : Bytes → Bytes → TunnelConfig → ℤ → ℤ → Tunnel
new_tunnel conn_id user_id tc created beat = record {
  id = tunnel_id conn_id tc.subdomain;
  owner_id = user_id;
  subdomain = tc.subdomain;
  protocol = tc.protocol;
  target_port = tc.port;
  created_at = created;
  last_heartbeat_at = beat;
  conn_id = conn_id;
  ttl = pos 0;
  bandwidth_limit = pos 0;
}

-- A round of the registration loop that succeeded.
unfoldable pub added : Server → Registry.MemoryRegistry → Bytes → Bytes → Server
added s registry conn_id subdomain =
    count
      (record s { registry = registry; broker = Broker.map_subdomain s.broker subdomain conn_id })
      inc_active_tunnels

-- The end of a handshake: the connection is closed, or the read loop starts with the address of the
-- connection, its id and its tunnels.
pub data Handshake : Type 0 where
  closed : Handshake
  serving : ℕ → Bytes → List Bytes → Handshake

module _ (codecs : Codecs) (clock : ℕ → ℤ) where
  -- The loop over the tunnels of the register message. `ids` are those registered so far, n is the
  -- next reading of the clock; `none` if a tunnel was refused and the connection given up.
  unfoldable pub register_tunnels :
      ℕ → Bytes → Bytes → List TunnelConfig → List Bytes → ℕ → Server → Server × Option (List Bytes)
  unfolding new_tunnel added
  register_tunnels ws conn_id user_id [] ids n s = (s, some ids)
  register_tunnels ws conn_id user_id (tc ∷ rest) ids n s =
      let tunnel = new_tunnel conn_id user_id tc (clock n) (clock (n + 1)) in
      let (registry, error) = Registry.register s.registry tunnel in
      elim error [
        | some e ↦ (
          cleanup_connection
              (send_control_response codecs s ws code_invalid_request
                (bytes "register tunnel failed: " ++ registry_error_text e))
              conn_id ids,
          none,
        )
        | none ↦
            register_tunnels ws conn_id user_id rest (ids ++ tunnel.id ∷ []) (n + 2)
              (added s registry conn_id tc.subdomain)
      ]

  unfoldable pub finish_registration :
      ℕ → ℕ → Bytes → Server × Option (List Bytes) → Server × Handshake
  finish_registration ws a conn_id (s, none) = (s, closed)
  finish_registration ws a conn_id (s, some ids) = (
    send_control_response codecs (record s { broker = Broker.set_tunnels s.broker a ids }) ws
        code_ok (bytes "registered"),
    serving a conn_id ids,
  )

  -- From the validated token on, with no other handler between its calls.
  unfoldable pub accept : Server → ℕ → Register → Token → Server × Handshake
  unfolding register_tunnels finish_registration choose_conn_id
  accept s ws reg token =
      let conn_id = choose_conn_id reg.client_id (clock 1) in
      let (broker, a) = Broker.add_connection s.broker conn_id token.user_id ws in
      finish_registration ws a conn_id
        (register_tunnels ws conn_id token.user_id reg.tunnels [] 2 (record s { broker = broker }))

  module _ (mac : Mac) where
    unfoldable pub authenticate : Server → ℕ → Register → Server × Handshake
    unfolding accept
    authenticate s ws reg = elim (validate_token mac s.auth reg.token (clock 0)) [
      | err e ↦ (
        send_control_response codecs (count s inc_token_auth_failures) ws code_unauthorized
            (bytes "authentication failed: " ++ auth_error_text e),
        closed,
      )
      | ok token ↦ accept s ws reg token
    ]

    unfoldable pub read_register : Server → ℕ → Bytes → Server × Handshake
    unfolding authenticate
    read_register s ws payload = elim (decode_control_message codecs.register payload) [
      | none ↦ (
        send_control_response codecs s ws code_invalid_request (bytes "invalid register payload"),
        closed,
      )
      | some reg ↦ authenticate s ws reg
    ]

    unfoldable pub expect_register : Server → ℕ → Result FrameError (ℕ × Bytes) → Server × Handshake
    unfolding read_register
    expect_register s ws (err e) = (
      send_control_response codecs s ws code_invalid_request (bytes "expected register frame"),
      closed,
    )
    expect_register s ws (ok (frame_type, payload)) =
        if frame_type == frame_register then read_register s ws payload else (
          send_control_response codecs s ws code_invalid_request (bytes "expected register frame"),
          closed,
        )

    -- `first` is the first message, `none` if the upgrade or the read failed.
    unfoldable pub handle_connect : Server → ℕ → Option Bytes → Server × Handshake
    unfolding expect_register
    handle_connect s ws none = (s, closed)
    handle_connect s ws (some raw) = expect_register s ws (decode_frame raw).0
