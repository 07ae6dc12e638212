-- ===== src/Tests/Host.antt =====
-- internal/proxy/proxy.go, extractSubdomain on concrete hosts.
use go_tunnel.Base.{bytes, bytes_beq, false, [], ◌∷◌, ◌++◌, ◌≡◌, ◌≢◌, refl, ◌↔◌, nat_eq}
use go_tunnel.Base.Decimal.{atoi_ok, parse_loop}
use go_tunnel.Base.Member.{contains}
use go_tunnel.Host.{
  Unicode, trim_left, trim_right, cut_last, strip_port, has_suffix, trim_suffix, label_below,
  to_lower, trim_space, extract_subdomain,
}
use go_tunnel.Host.Label.{extract_subdomain_iff}

pub program : Unit {0}
unfolding bytes_beq atoi_ok parse_loop trim_left trim_right cut_last strip_port has_suffix
    trim_suffix label_below to_lower trim_space extract_subdomain
program = tt

abbrev pub ascii_only : Unicode
ascii_only = record { lower = λ s. s; trim = λ s. s }

-- Capitals, blanks and a port.
untidy : extract_subdomain ascii_only (bytes " App.GT.io :8080") (bytes "gt.io ") ≡ bytes "app"
unfolding program
untidy = refl

two_labels : extract_subdomain ascii_only (bytes "a.b.gt.io") (bytes "gt.io") ≡ []
unfolding program
two_labels = refl

extract_subdomain_iff_example :
    (extract_subdomain ascii_only (bytes "App.gt.io:80") (bytes "gt.io") ≡ bytes "app") ↔ (
      (to_lower ascii_only (trim_space ascii_only (bytes "gt.io")) ≢ [])
      × (to_lower ascii_only (trim_space ascii_only (strip_port (bytes "App.gt.io:80")))
          ≡ bytes "app" ++ b'.' ∷ to_lower ascii_only (trim_space ascii_only (bytes "gt.io")))
      × (contains (bytes "app") b'.' ≡ false))
extract_subdomain_iff_example =
    extract_subdomain_iff ascii_only (bytes "App.gt.io:80") (bytes "gt.io") (bytes "app") (λ e. cc)
