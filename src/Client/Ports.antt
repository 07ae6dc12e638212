-- ===== src/Client/Ports.antt =====
-- Which port a tunnel's id leads to.
use go_tunnel.Base.{
  Bytes, true, false, Option, some, List, [], ◌∷◌, ◌++◌, arith, ◌≡◌, refl, sym, ap, ◌∙◌, nat_eq,
  bytes_eq, bytes_beq_iff, ◌==◌, if◌then◌else◌, All, inl, inr, Bool-cases,
}
use go_tunnel.Base.Int.{ℤ}
use go_tunnel.Base.Member.{contains}
use mathlib.Core.List.{append_assoc}
use go_tunnel.Host.{has_suffix, trim_suffix, cut_last}
use go_tunnel.Host.Label.{has_suffix_split, has_suffix-append}
use go_tunnel.Host.Port.{cut_last-append}
use go_tunnel.Server.Connect.{tunnel_id}
use go_tunnel.Config.Types.{ClientTunnel}
use go_tunnel.Client.{port_loop, first_port, resolve_port}

-- The port of the first tunnel with the subdomain.
abbrev pub port_of : Bytes → ℤ → List ClientTunnel → ℤ
port_of sub fallback [] = fallback
port_of sub fallback (t ∷ rest) = if t.subdomain == sub then t.port else port_of sub fallback rest

abbrev pub HasNoDash : ClientTunnel → Type 0
HasNoDash t = contains t.subdomain b'-' ≡ false

same_tail :
    (a b x y : Bytes)
    → contains x b'-' ≡ false
    → contains y b'-' ≡ false
    → a ++ b'-' ∷ x ≡ b ++ b'-' ∷ y
    → x ≡ y
same_tail a b x y hx hy e =
    let same : ◌≡◌ {A = Option (Bytes × Bytes)} (some (a, x)) (some (b, y)) =
      sym (cut_last-append b'-' a x hx) ∙ ap (cut_last b'-') e ∙ cut_last-append b'-' b y hy in
    cc

suffix-tunnel_id :
    (c sub other : Bytes)
    → contains sub b'-' ≡ false
    → contains other b'-' ≡ false
    → has_suffix (tunnel_id c sub) (b'-' ∷ other) ≡ (other == sub)
unfolding tunnel_id
suffix-tunnel_id c sub other hs ho = elim (Bool-cases (other == sub)) [
  | inl same ↦
      let e : other ≡ sub = (bytes_beq_iff other sub).0 same in
      rw (same, e) (has_suffix-append c (b'-' ∷ sub))
  | inr apart ↦ elim (Bool-cases (has_suffix (c ++ b'-' ∷ sub) (b'-' ∷ other))) [
    | inr misfit ↦ misfit ∙ sym apart
    | inl fits ↦
        let split = has_suffix_split (c ++ b'-' ∷ sub) (b'-' ∷ other) fits in
        let e : sub ≡ other =
          same_tail c (trim_suffix (c ++ b'-' ∷ sub) (b'-' ∷ other)) sub other hs ho split in
        ground (arith, bytes_beq_iff other sub)
  ]
]

port_loop-tunnel_id :
    (c sub : Bytes) (fallback : ℤ) (tunnels : List ClientTunnel)
    → contains sub b'-' ≡ false
    → All HasNoDash tunnels
    → port_loop (tunnel_id c sub) fallback tunnels ≡ port_of sub fallback tunnels
unfolding port_loop
port_loop-tunnel_id c sub fallback [] hs all = refl
port_loop-tunnel_id c sub fallback (t ∷ rest) hs all =
    rw
      (
        suffix-tunnel_id c sub t.subdomain hs all.0,
        port_loop-tunnel_id c sub fallback rest hs all.1,
      )
      refl

-- If neither the subdomain nor any subdomain of the client's configuration has a dash, the id that the
-- server makes for the subdomain leads to the port of the configured tunnel with that subdomain, the
-- first one if there are several; if there is none, to the first tunnel's port, or to 0.
pub resolve_port-tunnel_id :
    (conn_id sub : Bytes) (tunnels : List ClientTunnel)
    → contains sub b'-' ≡ false
    → All HasNoDash tunnels
    → resolve_port tunnels (tunnel_id conn_id sub) ≡ port_of sub (first_port tunnels) tunnels
unfolding resolve_port
resolve_port-tunnel_id conn_id sub tunnels hs all =
    port_loop-tunnel_id conn_id sub (first_port tunnels) tunnels hs all

-- A subdomain that ends in a dash and the subdomain of the first configured tunnel leads to that
-- tunnel's port, whether or not a later tunnel has the subdomain itself.
pub resolve_port_misled :
    (conn_id before : Bytes) (t : ClientTunnel) (rest : List ClientTunnel)
    → resolve_port (t ∷ rest) (tunnel_id conn_id (before ++ b'-' ∷ t.subdomain)) ≡ t.port
unfolding resolve_port port_loop tunnel_id
resolve_port_misled conn_id before t rest =
    let whole : has_suffix (tunnel_id conn_id (before ++ b'-' ∷ t.subdomain)) (b'-' ∷ t.subdomain)
        ≡ true =
      rw (← append_assoc conn_id (b'-' ∷ before) (b'-' ∷ t.subdomain))
        (has_suffix-append (conn_id ++ b'-' ∷ before) (b'-' ∷ t.subdomain)) in
    ground (arith, whole)
