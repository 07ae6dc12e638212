-- ===== src/Host/Label.antt =====
-- Which subdomain a Host header names.
use go_tunnel.Base.{
  ◌-◌, Bytes, true, false, ◌&&◌, [], ◌∷◌, ◌++◌, arith, ◌≡◌, ◌≢◌, sym, ap, ◌∙◌, ◌↔◌, inl, inr,
  length, take, drop, leb, nat_eq, bytes_eq, ◌==◌, Bool-cases, bytes_beq_iff,
}
use go_tunnel.Base.Lists.{take-append_left, drop-append_left, length-append, take-append-drop}
use go_tunnel.Base.Member.{contains}
use go_tunnel.Host.{
  Unicode, to_lower, trim_space, strip_port, has_suffix, trim_suffix, label_below,
  extract_subdomain,
}

-- A text with a suffix is what TrimSuffix leaves, and the suffix.
pub has_suffix_split : (s t : Bytes) → has_suffix s t ≡ true → s ≡ trim_suffix s t ++ t
unfolding trim_suffix
has_suffix_split s t h = rw h (put_together (unfold has_suffix in h))
  where
    put_together :
        (leb (length t) (length s) && drop (length s - length t) s == t) ≡ true
        → s ≡ take (length s - length t) s ++ t
    put_together fits =
        let same : drop (length s - length t) s ≡ t =
          ground (arith, bytes_beq_iff (drop (length s - length t) s) t) in
        sym (take-append-drop (length s - length t) s)
        ∙ ap (λ d. take (length s - length t) s ++ d) same

suffix_length : (s t : Bytes) → length (s ++ t) - length t ≡ length s
suffix_length s t = omega (arith, length-append s t)

pub has_suffix-append : (s t : Bytes) → has_suffix (s ++ t) t ≡ true
unfolding has_suffix
has_suffix-append s t =
    rw (suffix_length s t, drop-append_left s t)
      (ground (arith, length-append s t, bytes_beq_iff t t))

trim_suffix-append : (s t : Bytes) → trim_suffix (s ++ t) t ≡ s
unfolding trim_suffix
trim_suffix-append s t = rw (has_suffix-append s t, suffix_length s t, take-append_left s t)

label_below_iff :
    (host name sub : Bytes)
    → sub ≢ []
    → (label_below host name ≡ sub)
      ↔ ((name ≢ []) × (host ≡ sub ++ b'.' ∷ name) × (contains sub b'.' ≡ false))
unfolding label_below
label_below_iff host name sub ne = (
  λ h. elim (Bool-cases (has_suffix host (b'.' ∷ name))) [
    | inl fits ↦
        let split = has_suffix_split host (b'.' ∷ name) fits in
        ground
          (arith, split, bytes_beq_iff name [], bytes_beq_iff (trim_suffix host (b'.' ∷ name)) [])
    | inr apart ↦ ground arith
  ],
  λ h. rw (h.1) (
      ground (
        arith,
        has_suffix-append sub (b'.' ∷ name),
        trim_suffix-append sub (b'.' ∷ name),
        bytes_beq_iff name [],
        bytes_beq_iff sub [],
      )),
)

-- A request belongs to the non-empty subdomain exactly if its host, without port, blanks and
-- capitals, is the subdomain, a dot and the public host name (also without blanks and capitals),
-- which is not empty, and the subdomain has no dot.
pub extract_subdomain_iff :
    (unicode : Unicode) (host public_hostname sub : Bytes)
    → sub ≢ []
    → let name = to_lower unicode (trim_space unicode public_hostname) in
      (extract_subdomain unicode host public_hostname ≡ sub) ↔ (
        (name ≢ [])
        × (to_lower unicode (trim_space unicode (strip_port host)) ≡ sub ++ b'.' ∷ name)
        × (contains sub b'.' ≡ false))
unfolding extract_subdomain
extract_subdomain_iff unicode host public_hostname sub ne =
    label_below_iff (to_lower unicode (trim_space unicode (strip_port host)))
      (to_lower unicode (trim_space unicode public_hostname)) sub ne
