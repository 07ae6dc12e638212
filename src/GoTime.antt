-- ===== src/GoTime.antt =====
-- What the program uses of package time: an instant is the integer number of nanoseconds since some
-- epoch (a time.Time does not wrap), a Duration is an int64 number of nanoseconds.
use go_tunnel.Base.{◌*◌, ◌^◌, ◌-◌, Bool, if◌then◌else◌}
use go_tunnel.Base.Int.{ℤ, pos, negsuc, ◌+ℤ◌, ◌-ℤ◌, ◌*ℤ◌, ltb_ℤ, wrap64}

abbrev pub second : ℤ
second = pos (10 ^ 9)

abbrev pub minute : ℤ
minute = pos (60 * 10 ^ 9)

abbrev pub millisecond : ℤ
millisecond = pos (10 ^ 6)

-- time.Duration(n) * unit.
unfoldable pub duration : ℤ → ℤ → ℤ
unfolding ◌*ℤ◌ wrap64
duration n unit = wrap64 (n *ℤ unit)

-- t.Sub(u), which stops at the ends of int64.
unfoldable pub sub : ℤ → ℤ → ℤ
unfolding ◌-ℤ◌
sub t u =
    let d = t -ℤ u in
    if ltb_ℤ (pos (2 ^ 63 - 1)) d
    then pos (2 ^ 63 - 1)
    else if ltb_ℤ d (negsuc (2 ^ 63 - 1))
    then negsuc (2 ^ 63 - 1)
    else d

-- t.Add(d).
unfoldable pub add : ℤ → ℤ → ℤ
unfolding ◌+ℤ◌
add t d = t +ℤ d

-- t.After(u).
abbrev pub after : ℤ → ℤ → Bool
after t u = ltb_ℤ u t
