-- ===== src/Host.antt =====
-- internal/proxy/proxy.go: extractSubdomain, which finds the subdomain of a request in its Host
-- header. What package strings makes of a text that is not ASCII is a parameter.
pub mod Label
pub mod Port
use go_tunnel.Base.{
  ℕ, ◌+◌, ◌-◌, Bytes, bytes, Bool, true, false, ◌&&◌, ◌||◌, not, Option, none, some, List, [], ◌∷◌,
  ◌++◌, map, length, take, drop, leb, ltb, nat_eq, bytes_eq, ◌==◌, if◌then◌else◌,
}
use go_tunnel.Base.Decimal.{atoi_ok}
use go_tunnel.Base.Member.{contains}

-- strings.ToLower and strings.TrimSpace of a text with a byte above 127.
pub record Unicode : Type 0 where
  pub lower : Bytes → Bytes
  pub trim : Bytes → Bytes

abbrev pub is_ascii : Bytes → Bool
is_ascii [] = true
is_ascii (c ∷ cs) = ltb c 128 && is_ascii cs

abbrev pub lower_byte : ℕ → ℕ
lower_byte c = if leb b'A' c && leb c b'Z' then c + 32 else c

-- Tab, line feed, vertical tab, form feed, carriage return and blank.
abbrev pub is_space : ℕ → Bool
is_space c = leb 9 c && leb c 13 || c == 32

unfoldable pub trim_left : Bytes → Bytes
trim_left [] = []
trim_left (c ∷ cs) = let rest = trim_left cs in if is_space c then rest else c ∷ cs

abbrev cons_trimmed : ℕ → Bytes → Bytes
cons_trimmed c [] = if is_space c then [] else c ∷ []
cons_trimmed c (d ∷ ds) = c ∷ d ∷ ds

unfoldable pub trim_right : Bytes → Bytes
trim_right [] = []
trim_right (c ∷ cs) = cons_trimmed c (trim_right cs)

-- The parts before and after the last occurrence of the byte.
abbrev cut_later : ℕ → ℕ → Bytes → Option (Bytes × Bytes) → Option (Bytes × Bytes)
cut_later sep c cs none = if c == sep then some ([], cs) else none
cut_later sep c cs (some (before, behind)) = some (c ∷ before, behind)

unfoldable pub cut_last : ℕ → Bytes → Option (Bytes × Bytes)
cut_last sep [] = none
cut_last sep (c ∷ cs) = cut_later sep c cs (cut_last sep cs)

-- The first step: the host without its port.
unfoldable pub strip_port : Bytes → Bytes
unfolding cut_last
strip_port host = elim (cut_last b':' host) [
  | none ↦ host
  | some (h, port) ↦ if atoi_ok port then h else host
]

-- strings.HasSuffix and strings.TrimSuffix.
unfoldable pub has_suffix : Bytes → Bytes → Bool
has_suffix s suffix = leb (length suffix) (length s) && drop (length s - length suffix) s == suffix

unfoldable pub trim_suffix : Bytes → Bytes → Bytes
unfolding has_suffix
trim_suffix s suffix = if has_suffix s suffix then take (length s - length suffix) s else s

-- From the two names without port, blanks and capitals.
unfoldable pub label_below : Bytes → Bytes → Bytes
unfolding trim_suffix has_suffix
label_below host public_hostname =
    let suffix = b'.' ∷ public_hostname in
    let subdomain = trim_suffix host suffix in
    if public_hostname == []
    then []
    else if not (has_suffix host suffix)
    then []
    else if subdomain == []
    then []
    else if contains subdomain b'.'
    then []
    else subdomain

module _ (unicode : Unicode) where
  unfoldable pub to_lower : Bytes → Bytes
  to_lower s = if is_ascii s then map lower_byte s else unicode.lower s

  unfoldable pub trim_space : Bytes → Bytes
  unfolding trim_left trim_right
  trim_space s = if is_ascii s then trim_right (trim_left s) else unicode.trim s

  unfoldable pub extract_subdomain : Bytes → Bytes → Bytes
  unfolding to_lower trim_space strip_port label_below
  extract_subdomain host public_hostname =
      label_below (to_lower (trim_space (strip_port host))) (to_lower (trim_space public_hostname))
