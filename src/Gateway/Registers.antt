-- ===== src/Gateway/Registers.antt =====
-- Accepting a client keeps the gateway's state sound.
use go_tunnel.Base.{
  ℕ, ◌+◌, Bytes, bytes, Option, none, some, List, [], ◌∷◌, ◌++◌, arith, ◌≡◌, refl, sym, ap, ◌∙◌,
  inl, inr, Bool-cases, bytes_eq, bytes_beq_iff, ◌==◌,
}
use go_tunnel.Base.Int.{ℤ}
use go_tunnel.GoMap
use go_tunnel.Protocol.{
  Register, TunnelConfig, code_invalid_request, code_ok, frame_control_response,
}
use go_tunnel.Protocol.Frame.{encode_control_message}
use go_tunnel.Server.CleanUp.{tunnel_id-injective}
use go_tunnel.Server.Undo.{write_only}
use go_tunnel.Registry
use go_tunnel.Registry.{MemoryRegistry, RegistryError, Tunnel, register, insert_tunnel, with_ttl}
use go_tunnel.Registry.Invariant.{register-Inv, register-cases, with_ttl-fields}
use go_tunnel.Auth.{Token}
use go_tunnel.Broker
use go_tunnel.Broker.Invariant.{adds, maps, step, step-Inv}
use go_tunnel.Server.{Codecs, Server, registry_error_text, send_control_response}
use go_tunnel.Server.Connect.{
  tunnel_id, new_tunnel, added, register_tunnels, finish_registration, accept, choose_conn_id,
}
use go_tunnel.Gateway.{Unclaimed}
use go_tunnel.Gateway.Sound.{IsSound, set_tunnels-Inv, cleanup_connection-IsSound}

IsSound-send :
    (codecs : Codecs) (s : Server) (ws code : ℕ) (message : Bytes)
    → IsSound s
    → IsSound (send_control_response codecs s ws code message)
unfolding send_control_response
IsSound-send codecs s ws code message v =
    let (l, same) = write_only s ws (
      encode_control_message codecs.control_response frame_control_response
        (record { code = code; message = message })) in
    rw same (record { registry = v.registry; broker = v.broker })

insert-Unclaimed :
    (r : MemoryRegistry) (cid : Bytes) (t : Tunnel)
    → t.id ≡ tunnel_id cid t.subdomain
    → Unclaimed r cid
    → Unclaimed (insert_tunnel r t) cid
unfolding insert_tunnel
insert-Unclaimed r cid t named free sub missing =
    let index = GoMap.get-put r.subdomain_index t.subdomain sub t.id in
    let tunnels = GoMap.get-put r.tunnels t.id (tunnel_id cid sub) t in
    elim (Bool-cases (t.id == tunnel_id cid sub)) [
      | inr apart ↦ ground (arith, tunnels, index, free sub)
      | inl clash ↦
          let same =
            tunnel_id-injective cid t.subdomain sub
              (sym named ∙ (bytes_beq_iff t.id (tunnel_id cid sub)).0 clash) in
          let k : ⊥ = ground (arith, index, bytes_beq_iff t.subdomain sub) in absurd k
    ]

module _ (codecs : Codecs) (clock : ℕ → ℤ) (ws : ℕ) (cid user : Bytes) where
  added-IsSound :
      (s : Server) (r : MemoryRegistry) (sub : Bytes)
      → Registry.Invariant.Inv r
      → IsSound s
      → IsSound (added s r cid sub)
  unfolding added step
  added-IsSound s r sub w v = record {
    registry = w;
    broker = step-Inv s.broker (maps sub cid) tt v.broker;
  }

  register_tunnels-IsSound :
      (tcs : List TunnelConfig) (ids : List Bytes) (n : ℕ) (s : Server)
      → Unclaimed s.registry cid
      → IsSound s
      → IsSound (register_tunnels codecs clock ws cid user tcs ids n s).0
  unfolding register_tunnels new_tunnel
  register_tunnels-IsSound [] ids n s free v = v
  register_tunnels-IsSound (tc ∷ rest) ids n s free v =
      let tunnel = new_tunnel cid user tc (clock n) (clock (n + 1)) in
      elim (register-cases s.registry tunnel) [
        | inl (e, refused) ↦
            let text = bytes "register tunnel failed: " ++ registry_error_text e in
            rw (refused, register_tunnels)
              (cleanup_connection-IsSound
                (send_control_response codecs s ws code_invalid_request text) cid ids
                (IsSound-send codecs s ws code_invalid_request text v))
        | inr (done, _, _, unused) ↦
            let t = with_ttl s.registry tunnel in
            let (named, same) = with_ttl-fields s.registry tunnel in
            let kept = register-Inv s.registry tunnel (free tc.subdomain unused) v.registry in
            let r = (register s.registry tunnel).0 in
            let accepted = ap (λ (p : MemoryRegistry × Option RegistryError). p.1) done in
            let left : Unclaimed r cid =
              rw done (insert-Unclaimed s.registry cid t (rw (named, same) refl) free) in
            rw (accepted, register_tunnels)
              (register_tunnels-IsSound rest (ids ++ tunnel.id ∷ []) (n + 2)
                (added s r cid tc.subdomain) (unfold added in left)
                (added-IsSound s r tc.subdomain kept v))
      ]

  finish-IsSound :
      (a : ℕ) (r : Server × Option (List Bytes))
      → IsSound r.0
      → IsSound (finish_registration codecs clock ws a cid r).0
  unfolding finish_registration
  finish-IsSound a (s, none) v = v
  finish-IsSound a (s, some ids) v =
      IsSound-send codecs (record s { broker = Broker.set_tunnels s.broker a ids }) ws code_ok
        (bytes "registered")
        (record { registry = v.registry; broker = set_tunnels-Inv s.broker a ids v.broker })

pub accept-IsSound :
    (codecs : Codecs) (clock : ℕ → ℤ) (s : Server) (ws : ℕ) (reg : Register) (token : Token)
    → Unclaimed s.registry (choose_conn_id reg.client_id (clock 1))
    → IsSound s
    → IsSound (accept codecs clock s ws reg token).0
unfolding accept step
accept-IsSound codecs clock s ws reg token free v =
    let cid = choose_conn_id reg.client_id (clock 1) in
    let b = (Broker.add_connection s.broker cid token.user_id ws).0 in
    let joined : Server = record s { broker = b } in
    finish-IsSound codecs clock ws cid token.user_id _ _ (
      register_tunnels-IsSound codecs clock ws cid token.user_id reg.tunnels [] 2 joined free
        (record {
          registry = v.registry;
          broker = step-Inv s.broker (adds cid token.user_id ws) tt v.broker;
        }))
