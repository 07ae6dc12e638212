-- ===== src/Protocol/Frame/RoundTrip.antt =====
-- A frame that was encoded is decoded to its type and payload, and only such bytes decode.
use go_tunnel.Base.{
  ℕ, ◌%◌, ◌^◌, ◌≤◌, ◌<◌, Bytes, [], ◌∷◌, ◌++◌, length, take, drop, arith, ◌≡◌, refl, ◌∙◌, zero, suc,
  ltb, if◌then◌else◌,
}
use go_tunnel.Base.Lists.{take-append_left, drop-append_left, length-append}
use go_tunnel.Base.Result.{Result, ok}
use go_tunnel.Protocol.Frame.{
  FrameError, put_uint32, get_uint32, encode_frame, read_full, decode_payload, decode_header,
  decode_frame,
}

get-put_uint32 : (n : ℕ) → get_uint32 (put_uint32 n) ≡ n % 2 ^ 32
unfolding get_uint32 put_uint32
get-put_uint32 n = omega arith

-- The decoder on a frame with the length field n.
unfoldable pub body : ℕ → ℕ → Bytes → Result FrameError (ℕ × Bytes) × Bytes
body t v bs = if ltb 0 v then decode_payload t (read_full v bs) else (ok (t, []), bs)

decode_header-put :
    (t n : ℕ) (bs : Bytes) → decode_header (ok (t ∷ put_uint32 n), bs) ≡ body t (n % 2 ^ 32) bs
unfolding decode_header body
decode_header-put t n bs = rw (← get-put_uint32 n)

pub decode-put :
    (t n : ℕ) (bs : Bytes) → decode_frame (t ∷ put_uint32 n ++ bs) ≡ body t (n % 2 ^ 32) bs
decode-put t n bs = header_taken ∙ decode_header-put t n bs
  where
    header_taken : decode_frame (t ∷ put_uint32 n ++ bs) ≡ decode_header (ok (t ∷ put_uint32 n), bs)
    header_taken = unfold decode_frame read_full put_uint32 in ground arith

read_full_fits : (n : ℕ) (bs : Bytes) → n ≤ length bs → read_full n bs ≡ (ok (take n bs), drop n bs)
unfolding read_full
read_full_fits n bs h = ground arith

body_fits : (t n : ℕ) (bs : Bytes) → n ≤ length bs → body t n bs ≡ (ok (t, take n bs), drop n bs)
unfolding body decode_payload
body_fits t zero bs h = refl
body_fits t (suc n) bs h = ground (arith, read_full_fits (suc n) bs h)

-- Whatever the payload and what follows it, the decoder returns the type and as many bytes as the
-- payload's length modulo 2 ^ 32 says, and leaves the rest in the reader. (A length of 4 GiB or more
-- does not fit the length field.)
pub decode-encode_wrapped :
    (t : ℕ) (payload rest : Bytes)
    → let n = length payload % 2 ^ 32 in
      decode_frame (encode_frame t payload ++ rest)
      ≡ (ok (t, take n (payload ++ rest)), drop n (payload ++ rest))
unfolding encode_frame
decode-encode_wrapped t payload rest =
    decode-put t (length payload) (payload ++ rest)
    ∙ body_fits t (length payload % 2 ^ 32) (payload ++ rest)
        (omega (arith, length-append payload rest))

-- A frame whose payload is shorter than 4 GiB is decoded to its type and its payload, and exactly
-- the bytes after it are left in the reader.
pub decode-encode :
    (t : ℕ) (payload rest : Bytes)
    → length payload < 2 ^ 32
    → decode_frame (encode_frame t payload ++ rest) ≡ (ok (t, payload), rest)
decode-encode t payload rest h =
    decode-encode_wrapped t payload rest
    ∙ rw small (rw (take-append_left payload rest, drop-append_left payload rest))
  where
    small : length payload % 2 ^ 32 ≡ length payload
    small = omega arith
