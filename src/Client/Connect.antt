-- ===== src/Client/Connect.antt =====
-- internal/client/client.go: NewClient's check, Connect and heartbeatLoop. What the machine and the
-- network do is the input `Link`; a Connect that succeeds starts the two loops.
use go_tunnel.Base.{
  ℕ, Bytes, bytes, Bool, not, ◌||◌, Option, none, some, List, [], ◌∷◌, map, nat_eq, bytes_eq, ◌==◌,
  if◌then◌else◌,
}
use go_tunnel.Base.Int.{ℤ, pos, leb_ℤ}
use go_tunnel.Base.Result.{Result, ok, err}
use go_tunnel.GoTime
use go_tunnel.Config.Types.{ClientConfig, ClientTunnel, ClientSettings, ClientTlsConfig}
use go_tunnel.Protocol.{
  TunnelConfig, Register, Heartbeat, frame_register, frame_heartbeat, frame_control_response,
  code_ok,
}
use go_tunnel.Protocol.Frame.{
  Json, FrameError, decode_frame, encode_control_message, decode_control_message,
}
use go_tunnel.Server.{Codecs}
use go_tunnel.Client.Session.{Client, new_client, write_message}

-- NewClient; `none` is the error for a nil configuration.
unfoldable pub new_client_of : Option ClientConfig → Option Client
new_client_of none = none
new_client_of (some cfg) = some (new_client cfg.client)

pub data ConnectError : Type 0 where
  read_ca parse_ca dial encode_register send_register read_response : ConnectError
  decode_response : FrameError → ConnectError
  unexpected_frame : ℕ → ConnectError
  decode_control : ConnectError
  refused : Bytes → ℕ → ConnectError

-- The files, whether a PEM file has a certificate, runtime.GOOS, whether the dial and the write of
-- the register frame succeed, and the first message, `none` if it cannot be read.
pub record Link : Type 0 where
  pub files : Bytes → Option Bytes
  pub has_certificate : Bytes → Bool
  pub goos : Bytes
  pub dials : Bool
  pub writes : Bool
  pub first : Option Bytes

unfoldable pub tunnel_config : ClientTunnel → TunnelConfig
tunnel_config t = record {
  name = t.name;
  protocol = t.protocol;
  port = t.port;
  subdomain = t.subdomain;
}

-- The field client_id is left empty.
unfoldable pub register_message : Bytes → ClientSettings → Register
register_message goos s = record {
  kind = bytes "register";
  token = s.token;
  tunnels = map tunnel_config s.tunnels;
  client_id = [];
  metadata = record { os = goos; version = bytes "1.0.0" };
}

abbrev then_connect : Option ConnectError → Option ConnectError → Option ConnectError
then_connect none later = later
then_connect (some e) later = some e

unfoldable pub load_ca : Link → Option Bytes → Option ConnectError
load_ca link none = some read_ca
load_ca link (some cert) = if link.has_certificate cert then none else some parse_ca

unfoldable pub prepare_tls : Link → ClientTlsConfig → Option ConnectError
unfolding load_ca
prepare_tls link tls =
    if tls.skip_verify || not (tls.ca_file == [])
    then (if tls.ca_file == [] then none else load_ca link (link.files tls.ca_file))
    else none

module _ (codecs : Codecs) where
  unfoldable pub read_control : Bytes → Option ConnectError
  read_control payload = elim (decode_control_message codecs.control_response payload) [
    | none ↦ some decode_control
    | some resp ↦ if resp.code == code_ok then none else some (refused resp.message resp.code)
  ]

  unfoldable pub expect_control : Result FrameError (ℕ × Bytes) → Option ConnectError
  unfolding read_control
  expect_control (err e) = some (decode_response e)
  expect_control (ok (frame_type, payload)) =
      if frame_type == frame_control_response
      then read_control payload
      else some (unexpected_frame frame_type)

  unfoldable pub read_first : Option Bytes → Option ConnectError
  unfolding expect_control
  read_first none = some read_response
  read_first (some raw) = expect_control (decode_frame raw).0

  unfoldable pub register : Link → Option Bytes → Option ConnectError
  unfolding read_first
  register link none = some encode_register
  register link (some frame) = if link.writes then read_first link.first else some send_register

  unfoldable pub register_frame : Link → ClientSettings → Option Bytes
  unfolding register_message tunnel_config
  register_frame link s =
      encode_control_message codecs.register frame_register (register_message link.goos s)

  -- The error of Connect, if it fails.
  unfoldable pub connect : Link → ClientSettings → Option ConnectError
  unfolding prepare_tls register register_frame
  connect link s =
      then_connect (prepare_tls link s.tls)
        (if link.dials then register link (register_frame link s) else some dial)

unfoldable pub heartbeat_interval : ℤ → ℤ
heartbeat_interval seconds =
    let interval = GoTime.duration seconds GoTime.second in
    if leb_ℤ interval (pos 0) then GoTime.duration (pos 30) GoTime.second else interval

-- A tick of the heartbeat loop: the time, in seconds, and whether the write succeeds.
pub record Tick : Type 0 where
  pub unix : ℤ
  pub written : Bool

abbrev pub heartbeat : ℤ → Heartbeat
heartbeat unix = record { kind = bytes "heartbeat"; timestamp = unix }

-- The heartbeat loop over the ticks until the connection ends: a heartbeat that cannot be encoded is
-- skipped, one that cannot be written ends the loop.
unfoldable pub heartbeat_loop : Json Heartbeat → Client → List Tick → Client
heartbeat_loop json c [] = c
heartbeat_loop json c (t ∷ ticks) =
    let skipped = heartbeat_loop json c ticks in
    elim (encode_control_message json frame_heartbeat (heartbeat t.unix)) [
      | none ↦ skipped
      | some frame ↦
          let beaten = write_message c (some frame) in
          let later = heartbeat_loop json beaten ticks in if t.written then later else beaten
    ]
