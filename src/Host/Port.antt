-- ===== src/Host/Port.antt =====
-- A Host header of ordinary bytes, with and without a port.
use go_tunnel.Base.{
  ℕ, ◌+◌, ◌*◌, ◌^◌, ◌-◌, Bytes, Bool, true, false, ◌&&◌, not, none, some, [], ◌∷◌, ◌++◌, map, arith,
  ◌≡◌, ◌≢◌, refl, leb, ltb, nat_eq, bytes_eq, ◌==◌,
}
use go_tunnel.Base.Decimal.{parse_loop, atoi_ok, digits_fit, parsed}
use go_tunnel.Base.Member.{contains}
use go_tunnel.Host.{
  Unicode, is_ascii, lower_byte, is_space, trim_left, trim_right, cut_last, to_lower, trim_space,
  strip_port, extract_subdomain,
}
use go_tunnel.Host.Label.{extract_subdomain_iff}

-- Neither a blank, a capital, a colon nor outside ASCII.
abbrev pub is_plain : ℕ → Bool
is_plain c = ltb c 128 && not (is_space c) && not (leb b'A' c && leb c b'Z') && not (c == b':')

abbrev pub all_plain : Bytes → Bool
all_plain [] = true
all_plain (c ∷ cs) = is_plain c && all_plain cs

all_plain-append :
    (s t : Bytes) → all_plain s ≡ true → all_plain t ≡ true → all_plain (s ++ t) ≡ true
all_plain-append [] t hs ht = ht
all_plain-append (c ∷ s) t hs ht = ground (arith, all_plain-append s t)

is_ascii_plain : (s : Bytes) → all_plain s ≡ true → is_ascii s ≡ true
is_ascii_plain [] h = refl
is_ascii_plain (c ∷ s) h = ground (arith, is_ascii_plain s)

map-lower_byte_plain : (s : Bytes) → all_plain s ≡ true → map lower_byte s ≡ s
map-lower_byte_plain [] h = refl
map-lower_byte_plain (c ∷ s) h = ground (arith, map-lower_byte_plain s)

trim_left_plain : (s : Bytes) → all_plain s ≡ true → trim_left s ≡ s
unfolding trim_left
trim_left_plain [] h = refl
trim_left_plain (c ∷ s) h = ground arith

trim_right_plain : (s : Bytes) → all_plain s ≡ true → trim_right s ≡ s
unfolding trim_right
trim_right_plain [] h = refl
trim_right_plain (c ∷ []) h = ground arith
trim_right_plain (c ∷ d ∷ s) h = rw (trim_right_plain (d ∷ s) (ground arith)) refl

normal_plain :
    (unicode : Unicode) (s : Bytes)
    → all_plain s ≡ true
    → to_lower unicode (trim_space unicode s) ≡ s
unfolding to_lower trim_space
normal_plain unicode s h =
    rw (is_ascii_plain s h, trim_left_plain s h, trim_right_plain s h, is_ascii_plain s h)
      (map-lower_byte_plain s h)

no_colon : (s : Bytes) → all_plain s ≡ true → contains s b':' ≡ false
no_colon [] h = refl
no_colon (c ∷ s) h = ground (arith, no_colon s)

cut_last-none : (sep : ℕ) (s : Bytes) → contains s sep ≡ false → cut_last sep s ≡ none
unfolding cut_last
cut_last-none sep [] h = refl
cut_last-none sep (c ∷ s) h = ground (arith, cut_last-none sep s)

pub cut_last-append :
    (sep : ℕ) (s t : Bytes) → contains t sep ≡ false → cut_last sep (s ++ sep ∷ t) ≡ some (s, t)
unfolding cut_last
cut_last-append sep [] t h = ground (arith, cut_last-none sep t)
cut_last-append sep (c ∷ s) t h = rw (cut_last-append sep s t h) refl

parse_loop-digits :
    (greatest acc : ℕ) (s : Bytes)
    → parsed (parse_loop greatest acc s) ≡ true
    → contains s b':' ≡ false
unfolding parse_loop
parse_loop-digits greatest acc [] h = refl
parse_loop-digits greatest acc (c ∷ s) h =
    ground (arith, parse_loop-digits greatest (acc * 10 + (c - 48)) s)

digits_fit-digits :
    (greatest : ℕ) (s : Bytes) → digits_fit greatest s ≡ true → contains s b':' ≡ false
digits_fit-digits greatest [] h = refl
digits_fit-digits greatest (c ∷ s) h = parse_loop-digits greatest 0 (c ∷ s) h

port_digits : (s : Bytes) → atoi_ok s ≡ true → contains s b':' ≡ false
unfolding atoi_ok
port_digits [] h = refl
port_digits (c ∷ s) h = ground (
  arith,
  digits_fit-digits (2 ^ 63) s,
  digits_fit-digits (2 ^ 63 - 1) s,
  digits_fit-digits (2 ^ 63 - 1) (c ∷ s),
)

strip_port_plain : (s : Bytes) → contains s b':' ≡ false → strip_port s ≡ s
unfolding strip_port
strip_port_plain s h = ground (arith, cut_last-none b':' s h)

strip_port-append : (s port : Bytes) → atoi_ok port ≡ true → strip_port (s ++ b':' ∷ port) ≡ s
unfolding strip_port
strip_port-append s port h = ground (arith, cut_last-append b':' s port (port_digits port h))

below :
    (unicode : Unicode) (host sub name : Bytes)
    → all_plain sub ≡ true
    → all_plain name ≡ true
    → contains sub b'.' ≡ false
    → sub ≢ []
    → name ≢ []
    → strip_port host ≡ sub ++ b'.' ∷ name
    → extract_subdomain unicode host name ≡ sub
below unicode host sub name hs hn dot ne1 ne2 e =
    (extract_subdomain_iff unicode host name sub ne1).1 (
      rw (normal_plain unicode name hn, e)
        (
          ne2,
          normal_plain unicode (sub ++ b'.' ∷ name)
              (all_plain-append sub (b'.' ∷ name) hs (ground arith)),
          dot,
        ))

-- For a subdomain without dots and a public host name, neither empty and both of plain bytes, the
-- host made of them leads to the subdomain, alone and with any port.
pub extract_subdomain-port :
    (unicode : Unicode) (sub name port : Bytes)
    → all_plain sub ≡ true
    → all_plain name ≡ true
    → contains sub b'.' ≡ false
    → sub ≢ []
    → name ≢ []
    → atoi_ok port ≡ true
    → (extract_subdomain unicode (sub ++ b'.' ∷ name) name ≡ sub)
      × (extract_subdomain unicode ((sub ++ b'.' ∷ name) ++ b':' ∷ port) name ≡ sub)
extract_subdomain-port unicode sub name port hs hn dot ne1 ne2 p =
    let whole = all_plain-append sub (b'.' ∷ name) hs (ground arith) in
    (
      below unicode (sub ++ b'.' ∷ name) sub name hs hn dot ne1 ne2
          (strip_port_plain (sub ++ b'.' ∷ name) (no_colon (sub ++ b'.' ∷ name) whole)),
      below unicode ((sub ++ b'.' ∷ name) ++ b':' ∷ port) sub name hs hn dot ne1 ne2
          (strip_port-append (sub ++ b'.' ∷ name) port p),
    )
