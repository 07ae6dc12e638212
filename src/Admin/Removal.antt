-- ===== src/Admin/Removal.antt =====
-- What is left when a tunnel is deleted through the admin API while its client is connected.
use go_tunnel.Base.{
  true, false, Option, List, refl, sym, ◌∙◌, inl, inr, Option-cases, Bool-cases, ◌==◌,
  if◌then◌else◌, Bytes, bytes, none, some, [], ◌∷◌, ◌++◌, arith, ◌≡◌, ◌≢◌, ap, bytes_eq,
  bytes_beq_iff,
}
use go_tunnel.Base.Lists.{take-append_left, drop-append_left}
use go_tunnel.GoMap
use go_tunnel.Registry.{Tunnel, unregister, remove_tunnel, get_by_id}
use go_tunnel.Registry.Clean.{tunnels-remove}
use go_tunnel.Server.CleanUp.{dropped, cleanup_round}
use go_tunnel.Metrics.{active_tunnels}
use go_tunnel.Base.Int.{ℤ, pos, ◌+ℤ◌, ◌-ℤ◌}
use go_tunnel.Base.Member.{contains}
use go_tunnel.Server.{Server, unmap_tunnel, drop_tunnel, cleanup_tunnels, cleanup_connection}
use go_tunnel.Admin.{
  AdminRequest, nothing, reply, has_prefix, trim_prefix, delete_tunnel, handle_tunnel_by_id,
}

trim_prefix-append : (p s : Bytes) → trim_prefix (p ++ s) p ≡ s
unfolding trim_prefix has_prefix
trim_prefix-append p s =
    rw (take-append_left p s, drop-append_left p s) (ground (arith, bytes_beq_iff p p))

-- A DELETE of a tunnel that is registered answers 200 and unregisters it, and touches neither the
-- broker's routes nor the metrics.
deleted :
    (s : Server) (r : AdminRequest) (id : Bytes) (t : Tunnel)
    → r.method ≡ bytes "DELETE"
    → r.path ≡ bytes "/api/v1/tunnels/" ++ id
    → id ≢ []
    → GoMap.get s.registry.tunnels id ≡ some t
    → handle_tunnel_by_id s r ≡ (
      record s { registry = remove_tunnel s.registry id t },
      reply 200 (bytes "tunnel deleted") nothing,
    )
unfolding handle_tunnel_by_id delete_tunnel unregister
deleted s r id t method path named held =
    rw (method, path, trim_prefix-append (bytes "/api/v1/tunnels/") id)
      (ground (arith, bytes_beq_iff id [], bytes_beq_iff (bytes "DELETE") (bytes "DELETE")))

-- A round of the clean-up for a tunnel that is not registered changes nothing.
missing_round :
    (s : Server) (id : Bytes)
    → GoMap.get s.registry.tunnels id ≡ none
    → drop_tunnel (unmap_tunnel s id) id ≡ s
unfolding drop_tunnel unmap_tunnel get_by_id unregister
missing_round s id gone = ground arith

abbrev round : Server → Bytes → Server
round s id = drop_tunnel (unmap_tunnel s id) id

abbrev at_id : Server → Bytes → Option Tunnel
at_id s k = GoMap.get s.registry.tunnels k

abbrev gauge : Server → ℤ
gauge s = active_tunnels s.metrics

-- Two gateways with the same tunnels, of which the gauge of the second is one higher.
abbrev OneHigher : Server → Server → Type 0
OneHigher s d = ((k : Bytes) → at_id d k ≡ at_id s k) × (gauge d ≡ gauge s +ℤ pos 1)

-- The second gateway is without one tunnel, and the gauges show the same.
abbrev Lacks : Bytes → Server → Server → Type 0
Lacks id s d =
    ((k : Bytes) → at_id d k ≡ (if id == k then none else at_id s k)) × (gauge d ≡ gauge s)

dropped-tunnels :
    (s : Server) (id k : Bytes) (t : Tunnel)
    → at_id (dropped s id t) k ≡ (if id == k then none else at_id s k)
dropped-tunnels s id k t = tunnels-remove s.registry id k t

gauge-dropped : (s : Server) (id : Bytes) (t : Tunnel) → gauge (dropped s id t) ≡ gauge s -ℤ pos 1
unfolding active_tunnels
gauge-dropped s id t = refl

down_up : (z : ℤ) → z ≡ z -ℤ pos 1 +ℤ pos 1
unfolding ◌+ℤ◌ ◌-ℤ◌
down_up z = ground arith

up_down : (z : ℤ) → z +ℤ pos 1 -ℤ pos 1 ≡ z -ℤ pos 1 +ℤ pos 1
unfolding ◌+ℤ◌ ◌-ℤ◌
up_down z = ground arith

OneHigher-round : (s d : Server) (j : Bytes) → OneHigher s d → OneHigher (round s j) (round d j)
OneHigher-round s d j (same, higher) = elim (Option-cases (at_id s j)) [
  | inl gone ↦ rw (missing_round s j gone, missing_round d j (same j ∙ gone)) (same, higher)
  | inr (t, e) ↦
      rw (cleanup_round s j t e, cleanup_round d j t (same j ∙ e))
        (
          λ k. ground (arith, dropped-tunnels s j k t, dropped-tunnels d j k t, same k),
          gauge-dropped d j t
              ∙ ap (λ z. z -ℤ pos 1) higher
              ∙ up_down (gauge s)
              ∙ ap (λ z. z +ℤ pos 1) (sym (gauge-dropped s j t)),
        )
]

OneHigher-tunnels :
    (ids : List Bytes) (s d : Server)
    → OneHigher s d
    → gauge (cleanup_tunnels d ids) ≡ gauge (cleanup_tunnels s ids) +ℤ pos 1
unfolding cleanup_tunnels
OneHigher-tunnels [] s d h = h.1
OneHigher-tunnels (j ∷ ids) s d h =
    OneHigher-tunnels ids (round s j) (round d j) (OneHigher-round s d j h)

Lacks-hit :
    (s d : Server) (id : Bytes) (t : Tunnel)
    → at_id s id ≡ some t
    → Lacks id s d
    → OneHigher (round s id) (round d id)
Lacks-hit s d id t held (tunnels, same) =
    let gone : at_id d id ≡ none = ground (arith, tunnels id, bytes_beq_iff id id) in
    rw (cleanup_round s id t held, missing_round d id gone)
      (
        λ k. tunnels k ∙ sym (dropped-tunnels s id k t),
        same ∙ down_up (gauge s) ∙ ap (λ z. z +ℤ pos 1) (sym (gauge-dropped s id t)),
      )

Lacks-miss :
    (s d : Server) (id j : Bytes) (t : Tunnel)
    → (j == id) ≡ false
    → at_id s id ≡ some t
    → Lacks id s d
    → Lacks id (round s j) (round d j) × (at_id (round s j) id ≡ some t)
Lacks-miss s d id j t apart held (tunnels, same) = elim (Option-cases (at_id s j)) [
  | inl gone ↦
      let lost : at_id d j ≡ none = ground (arith, tunnels j) in
      rw (missing_round s j gone, missing_round d j lost) ((tunnels, same), held)
  | inr (u, e) ↦
      let there : at_id d j ≡ some u =
        ground (arith, tunnels j, bytes_beq_iff j id, bytes_beq_iff id j) in
      rw (cleanup_round s j u e, cleanup_round d j u there)
        (
          (
            λ k. ground (arith, dropped-tunnels s j k u, dropped-tunnels d j k u, tunnels k),
            gauge-dropped d j u ∙ ap (λ z. z -ℤ pos 1) same ∙ sym (gauge-dropped s j u),
          ),
          ground (arith, dropped-tunnels s j id u),
        )
]

Lacks-tunnels :
    (ids : List Bytes) (s d : Server) (id : Bytes) (t : Tunnel)
    → contains ids id ≡ true
    → at_id s id ≡ some t
    → Lacks id s d
    → gauge (cleanup_tunnels d ids) ≡ gauge (cleanup_tunnels s ids) +ℤ pos 1
unfolding cleanup_tunnels
Lacks-tunnels [] s d id t own held h = cc
Lacks-tunnels (j ∷ ids) s d id t own held h = elim (Bool-cases (j == id)) [
  | inl hit ↦
      let same : j ≡ id = (bytes_beq_iff j id).0 hit in
      rw same (OneHigher-tunnels ids (round s id) (round d id) (Lacks-hit s d id t held h))
  | inr miss ↦
      let (later, still) = Lacks-miss s d id j t miss held h in
      Lacks-tunnels ids (round s j) (round d j) id t (ground arith) still later
]

-- If a registered tunnel is deleted through the API and then its connection ends, whatever other
-- tunnels that has, the gauge of active tunnels is one higher than it is without the deletion: nobody
-- counts the deleted tunnel down.
pub delete-clean-up :
    (s : Server) (r : AdminRequest) (id conn_id : Bytes) (ids : List Bytes) (t : Tunnel)
    → r.method ≡ bytes "DELETE"
    → r.path ≡ bytes "/api/v1/tunnels/" ++ id
    → id ≢ []
    → GoMap.get s.registry.tunnels id ≡ some t
    → contains ids id ≡ true
    → active_tunnels (cleanup_connection (handle_tunnel_by_id s r).0 conn_id ids).metrics
      ≡ active_tunnels (cleanup_connection s conn_id ids).metrics +ℤ pos 1
unfolding cleanup_connection
delete-clean-up s r id conn_id ids t method path named held own =
    let d : Server = record s { registry = remove_tunnel s.registry id t } in
    rw (deleted s r id t method path named held)
      (Lacks-tunnels ids s d id t own held (λ k. tunnels-remove s.registry id k t, refl))
