-- ===== src/Protocol/Frame.antt =====
-- internal/protocol/protocol.go: EncodeFrame, DecodeFrame and the control messages over them. A
-- reader is the list of the bytes that it has left. JSON is a parameter: what package encoding/json
-- makes of one type of message.
pub mod RoundTrip
pub mod Truncated
use go_tunnel.Base.{
  ℕ, ◌+◌, ◌*◌, ◌/◌, ◌%◌, ◌^◌, Bytes, List, [], ◌∷◌, ◌++◌, Option, none, some, length, take, drop,
  get_or, leb, ltb, nat_eq, ◌==◌, if◌then◌else◌,
}
use go_tunnel.Base.Result.{Result, ok, err}

-- The size of the frame header: 1 byte of type and 4 of length.
abbrev pub header_size : ℕ
header_size = 5

-- io.EOF and io.ErrUnexpectedEOF.
pub data ReadError : Type 0 where
  eof unexpected_eof : ReadError

pub data FrameError : Type 0 where
  reading_header reading_payload : ReadError → FrameError

-- binary.BigEndian.PutUint32 of `uint32(n)`.
unfoldable pub put_uint32 : ℕ → Bytes
put_uint32 n = let v = n % 2 ^ 32 in v / 2 ^ 24 ∷ v / 2 ^ 16 % 256 ∷ v / 2 ^ 8 % 256 ∷ v % 256 ∷ []

-- binary.BigEndian.Uint32.
unfoldable pub get_uint32 : Bytes → ℕ
get_uint32 b = get_or b 0 0 * 2 ^ 24 + get_or b 1 0 * 2 ^ 16 + get_or b 2 0 * 2 ^ 8 + get_or b 3 0

unfoldable pub encode_frame : ℕ → Bytes → Bytes
unfolding put_uint32
encode_frame frame_type payload = frame_type ∷ put_uint32 (length payload) ++ payload

-- io.ReadFull into a buffer of n bytes.
unfoldable pub read_full : ℕ → Bytes → Result ReadError Bytes × Bytes
read_full n reader =
    if leb n (length reader)
    then (ok (take n reader), drop n reader)
    else (err (if length reader == 0 then eof else unexpected_eof), [])

unfoldable pub decode_payload :
    ℕ → Result ReadError Bytes × Bytes → Result FrameError (ℕ × Bytes) × Bytes
decode_payload frame_type (ok payload, rest) = (ok (frame_type, payload), rest)
decode_payload frame_type (err e, rest) = (err (reading_payload e), rest)

unfoldable pub decode_header :
    Result ReadError Bytes × Bytes → Result FrameError (ℕ × Bytes) × Bytes
unfolding get_uint32 decode_payload read_full
decode_header (err e, rest) = (err (reading_header e), rest)
decode_header (ok header, rest) =
    let frame_type = get_or header 0 0 in
    let n = get_uint32 (drop 1 header) in
    if ltb 0 n then decode_payload frame_type (read_full n rest) else (ok (frame_type, []), rest)

-- The frame, or the error, and what is left in the reader.
unfoldable pub decode_frame : Bytes → Result FrameError (ℕ × Bytes) × Bytes
unfolding decode_header read_full
decode_frame reader = decode_header (read_full header_size reader)

-- json.Marshal and json.Unmarshal at one type of message; `none` is an error.
pub record Json (A : Type 0) : Type 0 where
  pub marshal : A → Option Bytes
  pub unmarshal : Bytes → Option A

module _ {A : Type 0} (json : Json A) where
  abbrev frame_of : ℕ → Option Bytes → Option Bytes
  frame_of frame_type none = none
  frame_of frame_type (some payload) = some (encode_frame frame_type payload)

  unfoldable pub encode_control_message : ℕ → A → Option Bytes
  encode_control_message frame_type msg = frame_of frame_type (json.marshal msg)

  unfoldable pub decode_control_message : Bytes → Option A
  decode_control_message payload = json.unmarshal payload
