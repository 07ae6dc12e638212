-- ===== src/Gateway/Administers.antt =====
-- The admin API keeps the gateway's state sound.
use go_tunnel.Base.{
  Bytes, bytes, Option, none, some, [], arith, ◌≡◌, inl, inr, Option-cases, Bool-cases, bytes_eq,
  nat_eq, ◌==◌,
}
use go_tunnel.Base.Int.{ℤ, int_eq}
use go_tunnel.Base.Result.{Result, ok, err}
use go_tunnel.Server.{Server}
use go_tunnel.Auth.{Mac}
use go_tunnel.Admin.{
  AdminRequest, Route, ApiResponse, CreateTokenRequest, health, tokens, tunnels, tunnel_by_id,
  serve_admin, handle_route, handle_tunnel_by_id, handle_create_token, create_from, make_token,
  trim_prefix, require_admin,
}
use go_tunnel.Gateway.Sound.{IsSound}
use go_tunnel.Gateway.Serves.{delete_tunnel-IsSound}

module _ (mac : Mac) where
  create-registry :
      (s : Server) (req : CreateTokenRequest) (random : Option Bytes) (now : ℤ)
      → (create_from mac s (ok req) random now).0.registry ≡ s.registry
  unfolding create_from make_token
  create-registry s req random now = ground arith

  create-broker :
      (s : Server) (req : CreateTokenRequest) (random : Option Bytes) (now : ℤ)
      → (create_from mac s (ok req) random now).0.broker ≡ s.broker
  unfolding create_from make_token
  create-broker s req random now = ground arith

  create-IsSound :
      (s : Server) (r : AdminRequest) (random : Option Bytes) (now : ℤ)
      → IsSound s
      → IsSound (handle_create_token mac s r random now).0
  unfolding handle_create_token
  create-IsSound s r random now v = elim (Bool-cases (r.method == bytes "POST")) [
    | inl posts ↦ rw posts (from r.body)
    | inr other ↦ rw other v
  ]
    where
      from :
          (body : Result Bytes CreateTokenRequest) → IsSound (create_from mac s body random now).0
      from (err e) = unfold create_from in v
      from (ok req) = record {
        registry = rw (create-registry s req random now) v.registry;
        broker = rw (create-broker s req random now) v.broker;
      }

  by_id-IsSound : (s : Server) (r : AdminRequest) → IsSound s → IsSound (handle_tunnel_by_id s r).0
  unfolding handle_tunnel_by_id
  by_id-IsSound s r v =
      let id = trim_prefix r.path (bytes "/api/v1/tunnels/") in
      elim (Bool-cases (r.method == bytes "DELETE")) [
        | inr other ↦ rw other v
        | inl deletes ↦ elim (Bool-cases (id == [])) [
          | inl empty ↦ rw (deletes, empty) v
          | inr named ↦ rw (deletes, named) (delete_tunnel-IsSound s id v)
        ]
      ]

  handle_route-IsSound :
      (s : Server) (route : Route) (r : AdminRequest) (random : Option Bytes) (now : ℤ)
      → IsSound s
      → IsSound (handle_route mac s route r random now).0
  unfolding handle_route
  handle_route-IsSound s health r random now v = v
  handle_route-IsSound s tokens r random now v = create-IsSound s r random now v
  handle_route-IsSound s tunnels r random now v = v
  handle_route-IsSound s tunnel_by_id r random now v = by_id-IsSound s r v

  guarded :
      (s : Server) (route : Route) (r : AdminRequest) (random : Option Bytes) (now later : ℤ)
      → IsSound s
      → IsSound
          (elim (require_admin mac s r now) as (λ _. Server × ApiResponse) [
            | some refusal ↦ (s, refusal)
            | none ↦ handle_route mac s route r random later
          ]).0
  guarded s route r random now later v = elim (Option-cases (require_admin mac s r now)) [
    | inl passes ↦ rw passes (handle_route-IsSound s route r random later v)
    | inr (refusal, refused) ↦ rw refused v
  ]

  pub serve_admin-IsSound :
      (s : Server) (route : Route) (r : AdminRequest) (random : Option Bytes) (now later : ℤ)
      → IsSound s
      → IsSound (serve_admin mac s route r random now later).0
  unfolding serve_admin
  serve_admin-IsSound s health r random now later v = handle_route-IsSound s health r random later v
  serve_admin-IsSound s tokens r random now later v = guarded s tokens r random now later v
  serve_admin-IsSound s tunnels r random now later v = guarded s tunnels r random now later v
  serve_admin-IsSound s tunnel_by_id r random now later v =
      guarded s tunnel_by_id r random now later v
