-- ===== src/Tests/Protocol.antt =====
-- internal/protocol/protocol.go on concrete frames.
use go_tunnel.Base.{◌^◌, ◌<◌, Bytes, [], ◌∷◌, ◌++◌, arith, ◌≡◌, refl, ◌↔◌, length, All, IsByte}
use go_tunnel.Base.Result.{ok}
use go_tunnel.Protocol.Frame.{
  put_uint32, get_uint32, encode_frame, read_full, decode_payload, decode_header, decode_frame,
}
use go_tunnel.Protocol.Frame.RoundTrip.{decode-encode_wrapped}
use go_tunnel.Protocol.Frame.Truncated.{decode-eq-ok}

program : Unit {0}
unfolding put_uint32 get_uint32 encode_frame read_full decode_payload decode_header decode_frame
program = tt

-- A heartbeat frame of three bytes, and one byte of the next frame.
abbrev wire : Bytes
wire = 2 ∷ 0 ∷ 0 ∷ 0 ∷ 3 ∷ 97 ∷ 98 ∷ 99 ∷ 4 ∷ []

abbrev abc : Bytes
abc = 97 ∷ 98 ∷ 99 ∷ []

wire_decoded : decode_frame wire ≡ (ok (2, abc), 4 ∷ [])
unfolding program
wire_decoded = refl

wire-IsByte : All IsByte wire
wire-IsByte = (
  omega arith,
  (
    omega arith,
    (
      omega arith,
      (omega arith, (omega arith, (omega arith, (omega arith, (omega arith, (omega arith, tt)))))),
    ),
  ),
)

decode-eq-ok_example :
    (decode_frame wire ≡ (ok (2, abc), 4 ∷ []))
    ↔ ((wire ≡ encode_frame 2 abc ++ 4 ∷ []) × (length abc < 2 ^ 32))
decode-eq-ok_example = decode-eq-ok wire 2 abc (4 ∷ []) wire-IsByte

decode-encode_wrapped_example :
    decode_frame (encode_frame 5 (1 ∷ 2 ∷ []) ++ 9 ∷ []) ≡ (ok (5, 1 ∷ 2 ∷ []), 9 ∷ [])
decode-encode_wrapped_example = decode-encode_wrapped 5 (1 ∷ 2 ∷ []) (9 ∷ [])
