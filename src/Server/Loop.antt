-- ===== src/Server/Loop.antt =====
-- The registration loop of handleConnect ends in one of two ways.
use mathlib.Core.List.{map-append, append-nil, append_assoc}
use go_tunnel.Base.{
  ℕ, ◌+◌, Bytes, bytes, Option, none, some, List, [], ◌∷◌, ◌++◌, map, arith, ◌≡◌, refl, subst,
  bytes_eq, ◌⊎◌, inl, inr,
}
use go_tunnel.Base.Int.{ℤ}
use go_tunnel.GoMap
use go_tunnel.Protocol.{TunnelConfig, code_invalid_request}
use go_tunnel.Registry.{Tunnel, MemoryRegistry, RegistryError, register, insert_tunnel, with_ttl}
use go_tunnel.Registry.Invariant.{register-cases, with_ttl-fields}
use go_tunnel.Server.{
  Codecs, Server, registry_error_text, send_control_response, cleanup_connection,
}
use go_tunnel.Server.Connect.{tunnel_id, new_tunnel, added, register_tunnels}
use go_tunnel.Server.Registered.{With, With-snoc}

abbrev pub subdomain_of : TunnelConfig → Bytes
subdomain_of tc = tc.subdomain

module _ (codecs : Codecs) (clock : ℕ → ℤ) (ws : ℕ) (c user : Bytes) where
  abbrev run : List TunnelConfig → List Bytes → ℕ → Server → Server × Option (List Bytes)
  run tcs subs n s = register_tunnels codecs clock ws c user tcs (map (tunnel_id c) subs) n s

  abbrev tunnel : ℕ → TunnelConfig → Tunnel
  tunnel n tc = new_tunnel c user tc (clock n) (clock (n + 1))

  -- Every tunnel was registered.
  abbrev pub Registered : Server → List Bytes → Server × Option (List Bytes) → Type 0
  Registered s0 subs r = (s : Server) × (r ≡ (s, some (map (tunnel_id c) subs))) × With s0 s c subs

  -- One was refused: the client is told, and what was registered before it is cleaned up.
  abbrev pub Refused : Server → Server × Option (List Bytes) → Type 0
  Refused s0 r =
      (s : Server) × (subs : List Bytes) × (message : Bytes) × (r ≡ (
        cleanup_connection (send_control_response codecs s ws code_invalid_request message) c
            (map (tunnel_id c) subs),
        none,
      ))
      × With s0 s c subs

  Refused-step :
      (tc : TunnelConfig) (rest : List TunnelConfig) (subs : List Bytes) (n : ℕ) (s0 s : Server)
      (e : RegistryError)
      → register s.registry (new_tunnel c user tc (clock n) (clock (n + 1))) ≡ (s.registry, some e)
      → With s0 s c subs
      → Refused s0 (run (tc ∷ rest) subs n s)
  unfolding register_tunnels
  Refused-step tc rest subs n s0 s e refused w = (
    s,
    subs,
    bytes "register tunnel failed: " ++ registry_error_text e,
    rw (refused, register_tunnels),
    w,
  )

  accepted_step :
      (tc : TunnelConfig) (rest : List TunnelConfig) (subs : List Bytes) (n : ℕ) (s : Server)
      (registry : MemoryRegistry)
      → register s.registry (new_tunnel c user tc (clock n) (clock (n + 1))) ≡ (registry, none)
      → run (tc ∷ rest) subs n s
        ≡ run rest (subs ++ tc.subdomain ∷ []) (n + 2) (added s registry c tc.subdomain)
  unfolding register_tunnels
  accepted_step tc rest subs n s registry done =
      ground (arith, map-append (tunnel_id c) subs (tc.subdomain ∷ []))

  With-added :
      (s0 s : Server) (subs : List Bytes) (t : Tunnel) (sub : Bytes)
      → t.id ≡ tunnel_id c sub
      → t.subdomain ≡ sub
      → GoMap.get s.registry.subdomain_index sub ≡ none
      → With s0 s c subs
      → With s0 (added s (insert_tunnel s.registry t) c sub) c (subs ++ sub ∷ [])
  With-added s0 s subs t sub named same free w =
      subst (λ x. With s0 (added s (insert_tunnel s.registry t) c x) c (subs ++ x ∷ [])) same
        (With-snoc s0 s c t subs (rw same named) (rw same free) w)

  run-nil :
      (subs : List Bytes) (n : ℕ) (s : Server)
      → run [] subs n s ≡ (s, some (map (tunnel_id c) subs))
  unfolding register_tunnels
  run-nil subs n s = refl

  -- The loop registers the tunnels one after the other, all of them or up to one that is refused.
  pub loop_outcome :
      (tcs : List TunnelConfig) (subs : List Bytes) (n : ℕ) (s0 s : Server)
      → With s0 s c subs
      → Registered s0 (subs ++ map subdomain_of tcs) (run tcs subs n s)
        ⊎ Refused s0 (run tcs subs n s)
  unfolding new_tunnel
  loop_outcome [] subs n s0 s w = rw append-nil (inl (s, run-nil subs n s, w))
  loop_outcome (tc ∷ rest) subs n s0 s w = elim (register-cases s.registry (tunnel n tc)) [
    | inl (e, refused) ↦ inr (Refused-step tc rest subs n s0 s e refused w)
    | inr (done, _, _, free) ↦
        let t = with_ttl s.registry (tunnel n tc) in
        let (named, same) = with_ttl-fields s.registry (tunnel n tc) in
        let next =
          loop_outcome rest (subs ++ tc.subdomain ∷ []) (n + 2) s0
            (added s (insert_tunnel s.registry t) c tc.subdomain)
            (With-added s0 s subs t tc.subdomain named same free w) in
        rw (accepted_step tc rest subs n s (insert_tunnel s.registry t) done)
          (rw (append_assoc subs (tc.subdomain ∷ []) (map subdomain_of rest)) at next)
  ]
