-- ===== src/Base/Decimal.antt =====
-- Package strconv as the program uses it: FormatUint (and %d) in base 10, ParseUint(s, 10, 32) and
-- Atoi.
use Prim.Native.Nat.{ℕ, zero, suc, ◌+◌, ◌-◌, ◌*◌, ◌/◌, ◌%◌, ◌^◌, ◌≤◌, ◌<◌}
use mathlib.Core.Path.{◌≡◌, refl, ◌∙◌}
use mathlib.Core.Bool.{Bool, true, false, ◌&&◌}
use mathlib.Core.List.{[], ◌∷◌}
use mathlib.Core.Option.{Option, none, some}
use native.Mathlib.Omega.{arith}
use go_tunnel.Base.Tests.{leb, ltb, nat_beq, Bool-cases, if◌then◌else◌}
use mathlib.Core.Logic.{inl, inr}
use go_tunnel.Base.Text.{Bytes}
use go_tunnel.Base.Int.{ℤ, pos, negsuc}

-- The digits of n before those of `acc`. The fuel is a bound on the number of digits.
unfoldable pub format_loop : ℕ → ℕ → Bytes → Bytes
format_loop zero n acc = acc
format_loop (suc fuel) n acc =
    let rest = format_loop fuel (n / 10) ((48 + n % 10) ∷ acc) in
    if ltb n 10 then (48 + n) ∷ acc else rest

-- strconv.FormatUint(n, 10): n has at most n + 1 digits.
unfoldable pub format_uint : ℕ → Bytes
unfolding format_loop
format_uint n = format_loop (suc n) n []

abbrev pub is_digit : ℕ → Bool
is_digit c = leb 48 c && leb c 57

-- The loop of ParseUint below a greatest value; `none` is either of its errors.
unfoldable pub parse_loop : ℕ → ℕ → Bytes → Option ℕ
parse_loop greatest acc [] = some acc
parse_loop greatest acc (c ∷ cs) =
    let v = acc * 10 + (c - 48) in
    let rest = parse_loop greatest v cs in
    if is_digit c then (if ltb greatest v then none else rest) else none

-- strconv.ParseUint(s, 10, 32).
unfoldable pub parse_uint32 : Bytes → Option ℕ
unfolding parse_loop
parse_uint32 [] = none
parse_uint32 (c ∷ cs) = parse_loop (2 ^ 32 - 1) 0 (c ∷ cs)

parse-format_loop :
    (greatest fuel n : ℕ) (acc : Bytes)
    → n < fuel
    → n ≤ greatest
    → parse_loop greatest 0 (format_loop fuel n acc) ≡ parse_loop greatest n acc
unfolding parse_loop format_loop
parse-format_loop greatest zero n acc h small = absurd (omega arith)
parse-format_loop greatest (suc fuel) n acc h small = elim (Bool-cases (ltb n 10)) [
  | inl last ↦ rw last (ground arith)
  | inr more ↦ rw more (
      parse-format_loop greatest fuel (n / 10) ((48 + n % 10) ∷ acc) (ground arith) (omega arith)
      ∙ (let same : n / 10 * 10 + (48 + n % 10 - 48) ≡ n = omega arith in rw same (ground arith)))
]

format_loop-cons :
    (fuel n c : ℕ) (acc : Bytes) → (d : ℕ) × (ds : Bytes) × (format_loop fuel n (c ∷ acc) ≡ d ∷ ds)
unfolding format_loop
format_loop-cons zero n c acc = (c, acc, refl)
format_loop-cons (suc fuel) n c acc = elim (Bool-cases (ltb n 10)) [
  | inl last ↦ (48 + n, c ∷ acc, rw last)
  | inr more ↦ rw more (format_loop-cons fuel (n / 10) (48 + n % 10) (c ∷ acc))
]

format_uint-cons : (n : ℕ) → (d : ℕ) × (ds : Bytes) × (format_uint n ≡ d ∷ ds)
unfolding format_uint
format_uint-cons n = elim (Bool-cases (ltb n 10)) [
  | inl last ↦ (48 + n, [], rw last)
  | inr more ↦ rw more (format_loop-cons n (n / 10) (48 + n % 10) [])
]

parse_uint32-cons :
    (s : Bytes) (d : ℕ) (ds : Bytes) → s ≡ d ∷ ds → parse_uint32 s ≡ parse_loop (2 ^ 32 - 1) 0 s
unfolding parse_uint32
parse_uint32-cons [] d ds e = cc
parse_uint32-cons (c ∷ cs) d ds e = refl

-- The decimal text of a uint32 parses back to it.
pub parse-format_uint : (n : ℕ) → n < 2 ^ 32 → parse_uint32 (format_uint n) ≡ some n
parse-format_uint n h =
    let (d, ds, e) = format_uint-cons n in parse_uint32-cons (format_uint n) d ds e ∙ parsed_back
  where
    parsed_back : parse_loop (2 ^ 32 - 1) 0 (format_uint n) ≡ some n
    parsed_back =
        unfold format_uint parse_loop in
        parse-format_loop (2 ^ 32 - 1) (suc n) n [] (omega arith) (omega arith)

-- What ParseUint accepts fits a uint32.
parse_loop-le :
    (greatest acc n : ℕ) (s : Bytes)
    → acc ≤ greatest
    → parse_loop greatest acc s ≡ some n
    → n ≤ greatest
unfolding parse_loop
parse_loop-le greatest acc n [] small h = ground arith
parse_loop-le greatest acc n (c ∷ s) small h =
    ground (arith, parse_loop-le greatest (acc * 10 + (c - 48)) n s)

pub parse_uint32-lt : (s : Bytes) (n : ℕ) → parse_uint32 s ≡ some n → n < 2 ^ 32
unfolding parse_uint32
parse_uint32-lt [] n h = cc
parse_uint32-lt (c ∷ s) n h = omega (arith, parse_loop-le (2 ^ 32 - 1) 0 n (c ∷ s) (omega arith) h)

abbrev pub parsed : Option ℕ → Bool
parsed none = false
parsed (some n) = true

abbrev pub digits_fit : ℕ → Bytes → Bool
digits_fit greatest [] = false
digits_fit greatest (c ∷ cs) = parsed (parse_loop greatest 0 (c ∷ cs))

-- Whether strconv.Atoi succeeds: digits with or without a sign, that fit an int64.
unfoldable pub atoi_ok : Bytes → Bool
unfolding parse_loop
atoi_ok [] = false
atoi_ok (c ∷ cs) =
    if nat_beq c b'-'
    then digits_fit (2 ^ 63) cs
    else if nat_beq c b'+'
    then digits_fit (2 ^ 63 - 1) cs
    else digits_fit (2 ^ 63 - 1) (c ∷ cs)

abbrev negated : Option ℕ → Option ℤ
negated none = none
negated (some zero) = some (pos 0)
negated (some (suc n)) = some (negsuc n)

abbrev plain : Option ℕ → Option ℤ
plain none = none
plain (some n) = some (pos n)

abbrev digits : ℕ → Bytes → Option ℕ
digits greatest [] = none
digits greatest (c ∷ cs) = parse_loop greatest 0 (c ∷ cs)

-- strconv.Atoi; `none` is either of its errors.
unfoldable pub atoi : Bytes → Option ℤ
unfolding parse_loop
atoi [] = none
atoi (c ∷ cs) =
    if nat_beq c b'-'
    then negated (digits (2 ^ 63) cs)
    else if nat_beq c b'+'
    then plain (digits (2 ^ 63 - 1) cs)
    else plain (digits (2 ^ 63 - 1) (c ∷ cs))
