-- ===== src/RateLimiter/Address.antt =====
-- net.SplitHostPort, as the rate limiter uses it.
use go_tunnel.Base.{Bytes, ◌||◌, Option, none, some, [], ◌∷◌, nat_eq, ◌==◌, if◌then◌else◌}
use go_tunnel.Base.Hex.{cut}
use go_tunnel.Base.Member.{contains}
use go_tunnel.Host.{cut_last}

-- host and port at the last colon, where no bracket opens the text.
unfoldable pub split_plain : Bytes → Option (Bytes × Bytes)
unfolding cut_last
split_plain s = elim (cut_last b':' s) [
  | none ↦ none
  | some (host, port) ↦
      if contains host b':' || contains s b'[' || contains s b']' then none else some (host, port)
]

abbrev port_behind : Bytes → Bytes → Option (Bytes × Bytes)
port_behind host [] = none
port_behind host (c ∷ port) =
    if c == b':'
    then (if contains port b':' || contains host b'[' || contains port b'[' || contains port b']'
        then none
        else some (host, port))
    else none

-- The text behind an opening bracket.
unfoldable pub split_bracketed : Bytes → Option (Bytes × Bytes)
unfolding cut
split_bracketed s = elim (cut b']' s) [ none ↦ none | some (host, rest) ↦ port_behind host rest ]

-- `none` is any of its errors.
unfoldable pub split_host_port : Bytes → Option (Bytes × Bytes)
unfolding split_plain split_bracketed
split_host_port [] = none
split_host_port (c ∷ s) = if c == b'[' then split_bracketed s else split_plain (c ∷ s)
