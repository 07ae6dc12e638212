-- ===== src/Base/Hex.antt =====
-- Package encoding/hex, and the first cut of a text at a byte, strings.SplitN(s, sep, 2).
use Prim.Native.Nat.{ℕ, ◌+◌, ◌-◌, ◌*◌, ◌/◌, ◌%◌, ◌<◌}
use mathlib.Core.Path.{◌≡◌, refl}
use mathlib.Core.Bool.{◌&&◌}
use mathlib.Core.List.{[], ◌∷◌, ◌++◌}
use mathlib.Core.Option.{Option, none, some}
use mathlib.Core.Logic.{◌≢◌}
use native.Mathlib.Omega.{arith}
use go_tunnel.Base.Tests.{leb, ltb, nat_beq, if◌then◌else◌}
use go_tunnel.Base.Lists.{All}
use go_tunnel.Base.Text.{Bytes, IsByte}

unfoldable pub hex_digit : ℕ → ℕ
hex_digit n = if ltb n 10 then 48 + n else 87 + n

-- hex.EncodeToString.
unfoldable pub hex_encode : Bytes → Bytes
unfolding hex_digit
hex_encode [] = []
hex_encode (b ∷ bs) = hex_digit (b / 16) ∷ hex_digit (b % 16) ∷ hex_encode bs

-- The value of a hexadecimal digit, of either case.
unfoldable pub from_hex_char : ℕ → Option ℕ
from_hex_char c =
    if leb 48 c && leb c 57
    then some (c - 48)
    else if leb 97 c && leb c 102
    then some (c - 87)
    else if leb 65 c && leb c 70
    then some (c - 55)
    else none

abbrev hex_join : Option ℕ → Option ℕ → Option Bytes → Option Bytes
hex_join (some a) (some b) (some rest) = some ((a * 16 + b) ∷ rest)
hex_join _ _ _ = none

-- hex.DecodeString; `none` is any of its errors.
unfoldable pub hex_decode : Bytes → Option Bytes
unfolding from_hex_char
hex_decode [] = some []
hex_decode (c ∷ []) = none
hex_decode (c ∷ d ∷ cs) = hex_join (from_hex_char c) (from_hex_char d) (hex_decode cs)

abbrev cut_cons : ℕ → Option (Bytes × Bytes) → Option (Bytes × Bytes)
cut_cons c none = none
cut_cons c (some (before, rest)) = some (c ∷ before, rest)

-- The text before the first separator and the text after it; `none` if there is no separator.
unfoldable pub cut : ℕ → Bytes → Option (Bytes × Bytes)
cut sep [] = none
cut sep (c ∷ cs) = let rest = cut sep cs in if nat_beq c sep then some ([], cs) else cut_cons c rest

from-hex_digit : (n : ℕ) → n < 16 → from_hex_char (hex_digit n) ≡ some n
unfolding from_hex_char hex_digit
from-hex_digit n h = ground arith

pub decode-hex_encode : (bs : Bytes) → All IsByte bs → hex_decode (hex_encode bs) ≡ some bs
unfolding hex_encode hex_decode
decode-hex_encode [] all = refl
decode-hex_encode (b ∷ bs) all =
    rw
      (
        from-hex_digit (b / 16) (omega arith),
        from-hex_digit (b % 16) (omega arith),
        decode-hex_encode bs all.1,
      )
      (ground arith)

pub hex_digit-ne-dot : (n : ℕ) → hex_digit n ≢ b'.'
unfolding hex_digit
hex_digit-ne-dot n h = ground arith

-- A text of hexadecimal digits is not cut at the dot.
pub cut-hex_encode :
    (bs rest : Bytes) → cut b'.' (hex_encode bs ++ b'.' ∷ rest) ≡ some (hex_encode bs, rest)
unfolding cut hex_encode
cut-hex_encode [] rest = ground arith
cut-hex_encode (b ∷ bs) rest =
    ground (arith, hex_digit-ne-dot (b / 16), hex_digit-ne-dot (b % 16), cut-hex_encode bs rest)

-- A cut puts together again.
pub cut_joins :
    (sep : ℕ) (s before rest : Bytes)
    → cut sep s ≡ some (before, rest)
    → (s ≡ before ++ sep ∷ rest) × All (λ c. c ≢ sep) before
unfolding cut
cut_joins sep [] before rest h = cc
cut_joins sep (c ∷ cs) [] rest h = (ground arith, tt)
cut_joins sep (c ∷ cs) (d ∷ before) rest h =
    let inner : cut sep cs ≡ some (before, rest) = ground arith in
    let (joined, clear) = cut_joins sep cs before rest inner in
    (ground arith, ((λ e. ground arith), clear))

pub cut-append :
    (sep : ℕ) (before rest : Bytes)
    → All (λ c. c ≢ sep) before
    → cut sep (before ++ sep ∷ rest) ≡ some (before, rest)
unfolding cut
cut-append sep [] rest clear = ground arith
cut-append sep (c ∷ before) rest clear = ground (arith, clear.0, cut-append sep before rest clear.1)
