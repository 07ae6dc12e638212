-- ===== src/Protocol.antt =====
-- internal/protocol/protocol.go: the frame types, the codes and the messages of the wire protocol.
-- The byte layout of a frame is in the child module. Texts are byte lists, Go's int is ℤ.
pub mod Frame
use go_tunnel.Base.{ℕ, List, Bytes, Option}
use go_tunnel.Base.Int.{ℤ}

-- Frame type constants.
abbrev pub frame_register : ℕ
frame_register = 1

abbrev pub frame_heartbeat : ℕ
frame_heartbeat = 2

abbrev pub frame_open_stream : ℕ
frame_open_stream = 3

abbrev pub frame_stream_data : ℕ
frame_stream_data = 4

abbrev pub frame_close_stream : ℕ
frame_close_stream = 5

abbrev pub frame_control_response : ℕ
frame_control_response = 6

-- Error code constants.
abbrev pub code_ok : ℕ
code_ok = 1000

abbrev pub code_unauthorized : ℕ
code_unauthorized = 2001

abbrev pub code_invalid_request : ℕ
code_invalid_request = 2002

pub record TunnelConfig : Type 0 where
  pub name : Bytes
  pub protocol : Bytes
  pub port : ℤ
  pub subdomain : Bytes

pub record ClientMetadata : Type 0 where
  pub os : Bytes
  pub version : Bytes

-- The register message; `kind` is its field `Type`.
pub record Register : Type 0 where
  pub kind : Bytes
  pub token : Bytes
  pub tunnels : List TunnelConfig
  pub client_id : Bytes
  pub metadata : ClientMetadata

pub record Heartbeat : Type 0 where
  pub kind : Bytes
  pub timestamp : ℤ

pub record StreamMetadata : Type 0 where
  pub method : Bytes
  pub path : Bytes

pub record OpenStream : Type 0 where
  pub kind : Bytes
  pub stream_id : Bytes
  pub target_tunnel : Bytes
  pub metadata : StreamMetadata

-- `content` is the field `Data`.
pub record StreamData : Type 0 where
  pub stream_id : Bytes
  pub content : Bytes

pub record CloseStream : Type 0 where
  pub stream_id : Bytes

-- The field `Data`, which no code sets or reads, is left out.
pub record ControlResponse : Type 0 where
  pub code : ℕ
  pub message : Bytes
