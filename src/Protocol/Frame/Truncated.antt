-- ===== src/Protocol/Frame/Truncated.antt =====
-- Only encoded frames decode, and a frame that is cut short never does.
use go_tunnel.Base.{
  ℕ, zero, suc, ◌/◌, ◌%◌, ◌^◌, ◌<◌, Bytes, IsByte, [], ◌∷◌, ◌++◌, length, take, All, arith, ◌≡◌,
  ◌∙◌, ap, sym, ◌↔◌,
}
use go_tunnel.Base.Lists.{length-take, take-append-drop}
use go_tunnel.Base.Result.{ok, err}
use go_tunnel.Protocol.Frame.{
  FrameError, eof, unexpected_eof, reading_header, reading_payload, put_uint32, get_uint32,
  encode_frame, read_full, decode_payload, decode_header, decode_frame,
}
use go_tunnel.Protocol.Frame.RoundTrip.{body, decode-put, decode-encode}

put-get_uint32 :
    (a b c d : ℕ)
    → a < 256
    → b < 256
    → c < 256
    → d < 256
    → put_uint32 (get_uint32 (a ∷ b ∷ c ∷ d ∷ [])) ≡ a ∷ b ∷ c ∷ d ∷ []
unfolding put_uint32 get_uint32
put-get_uint32 a b c d ha hb hc hd = cc (ea, eb, ec, ed)
  where
    n : ℕ
    n = get_uint32 (a ∷ b ∷ c ∷ d ∷ [])

    ea : n % 2 ^ 32 / 2 ^ 24 ≡ a
    ea = omega arith

    eb : n % 2 ^ 32 / 2 ^ 16 % 256 ≡ b
    eb = omega arith

    ec : n % 2 ^ 32 / 2 ^ 8 % 256 ≡ c
    ec = omega arith

    ed : n % 2 ^ 32 % 256 ≡ d
    ed = omega arith

get_uint32-lt :
    (a b c d : ℕ) → a < 256 → b < 256 → c < 256 → d < 256 → get_uint32 (a ∷ b ∷ c ∷ d ∷ []) < 2 ^ 32
unfolding get_uint32
get_uint32-lt a b c d ha hb hc hd = omega arith

decode_frame-body :
    (t a b c d : ℕ) (bs : Bytes)
    → decode_frame (t ∷ a ∷ b ∷ c ∷ d ∷ bs) ≡ body t (get_uint32 (a ∷ b ∷ c ∷ d ∷ [])) bs
unfolding body
decode_frame-body t a b c d bs = unfold decode_frame get_uint32 read_full in ground arith

body_ok :
    (t n u : ℕ) (bs p rest : Bytes)
    → body t n bs ≡ (ok (u, p), rest)
    → (u ≡ t) × (length p ≡ n) × (p ++ rest ≡ bs)
unfolding body decode_payload read_full
body_ok t n u bs p rest h = ground (arith, length-take n bs, take-append-drop n bs)

body_short : (t n : ℕ) (bs : Bytes) → length bs < n → (e : FrameError) × (body t n bs ≡ (err e, []))
unfolding body decode_payload read_full
body_short t n [] h = (reading_payload eof, ground arith)
body_short t n (b ∷ bs) h = (reading_payload unexpected_eof, ground arith)

decode_short : (bs : Bytes) → length bs < 5 → (e : FrameError) × (decode_frame bs ≡ (err e, []))
unfolding decode_frame decode_header read_full
decode_short [] h = (reading_header eof, ground arith)
decode_short (b ∷ bs) h = (reading_header unexpected_eof, ground arith)

short-ne-ok :
    {X : Type 0} (bs : Bytes) (t : ℕ) (p rest : Bytes)
    → length bs < 5
    → decode_frame bs ≡ (ok (t, p), rest)
    → X
short-ne-ok bs t p rest h e = let (x, f) = decode_short bs h in cc

encode-decode :
    (bs : Bytes) (t : ℕ) (p rest : Bytes)
    → All IsByte bs
    → decode_frame bs ≡ (ok (t, p), rest)
    → (bs ≡ encode_frame t p ++ rest) × (length p < 2 ^ 32)
encode-decode [] t p rest all e = short-ne-ok [] t p rest (omega arith) e
encode-decode (a ∷ []) t p rest all e = short-ne-ok (a ∷ []) t p rest (omega arith) e
encode-decode (a ∷ b ∷ []) t p rest all e = short-ne-ok (a ∷ b ∷ []) t p rest (omega arith) e
encode-decode (a ∷ b ∷ c ∷ []) t p rest all e =
    short-ne-ok (a ∷ b ∷ c ∷ []) t p rest (omega arith) e
encode-decode (a ∷ b ∷ c ∷ d ∷ []) t p rest all e =
    short-ne-ok (a ∷ b ∷ c ∷ d ∷ []) t p rest (omega arith) e
encode-decode (k ∷ a ∷ b ∷ c ∷ d ∷ bs) t p rest all e =
    let (same, long, split) =
      body_ok k (get_uint32 (a ∷ b ∷ c ∷ d ∷ [])) t bs p rest
        (sym (decode_frame-body k a b c d bs) ∙ e) in
    (
      rebuild same long split,
      omega (
        arith,
        long,
        get_uint32-lt a b c d (omega arith) (omega arith) (omega arith) (omega arith),
      ),
    )
  where
    rebuild :
        t ≡ k
        → length p ≡ get_uint32 (a ∷ b ∷ c ∷ d ∷ [])
        → p ++ rest ≡ bs
        → (k ∷ a ∷ b ∷ c ∷ d ∷ bs) ≡ encode_frame t p ++ rest
    rebuild same long split =
        unfold encode_frame put_uint32 in
        cc (
          ap put_uint32 long,
          put-get_uint32 a b c d (omega arith) (omega arith) (omega arith) (omega arith),
        )

-- Bytes decode to a frame and a rest exactly when they are that frame's encoding followed by that
-- rest, the payload being shorter than 4 GiB.
pub decode-eq-ok :
    (bs : Bytes) (t : ℕ) (p rest : Bytes)
    → All IsByte bs
    → (decode_frame bs ≡ (ok (t, p), rest))
      ↔ ((bs ≡ encode_frame t p ++ rest) × (length p < 2 ^ 32))
decode-eq-ok bs t p rest all =
    (encode-decode bs t p rest all, λ h. rw h.0 (decode-encode t p rest h.1))

-- A frame of which the last bytes are missing is an error, and the reader is left empty.
pub decode-take :
    (t : ℕ) (p : Bytes) (n : ℕ)
    → length p < 2 ^ 32
    → n < length (encode_frame t p)
    → (e : FrameError) × (decode_frame (take n (encode_frame t p)) ≡ (err e, []))
unfolding encode_frame
decode-take t p zero h k = decode_short [] (omega arith)
decode-take t p (suc zero) h k = decode_short (t ∷ []) (omega arith)
decode-take t p (suc (suc zero)) h k = decode_short (take 2 (encode_frame t p)) (omega arith)
decode-take t p (suc (suc (suc zero))) h k = decode_short (take 3 (encode_frame t p)) (omega arith)
decode-take t p (suc (suc (suc (suc zero)))) h k =
    decode_short (take 4 (encode_frame t p)) (omega arith)
decode-take t p (suc (suc (suc (suc (suc m))))) h k =
    let (e, short) = body_short t (length p % 2 ^ 32) (take m p) (omega (arith, length-take m p)) in
    (e, decode-put t (length p) (take m p) ∙ short)
