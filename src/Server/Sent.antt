-- ===== src/Server/Sent.antt =====
-- What cleaning up leaves of the messages that were sent, and the texts of the refusals.
use go_tunnel.Base.{
  Bytes, bytes, Bool, true, ◌&&◌, Option, none, some, List, [], ◌∷◌, ◌++◌, ltb, length, ◌≡◌, ◌≢◌,
  refl, ◌∙◌, arith, inl, inr, Option-cases, Bool-cases, nat_eq, bytes_eq,
}
use go_tunnel.Base.Int.{ℤ}
use go_tunnel.Base.Result.{err, Result-cases}
use go_tunnel.GoMap
use go_tunnel.Registry
use go_tunnel.Registry.{RegistryError}
use go_tunnel.Auth.{
  Mac, Token, AuthError, MemoryTokenStore, validate_token, check_token, token_not_found,
  token_expired, token_revoked, invalid_token, invalid_scope, generating_random,
}
use go_tunnel.Server.{
  Server, registry_error_text, auth_error_text, unmap_tunnel, drop_tunnel, cleanup_tunnels,
  cleanup_connection,
}

abbrev is_ascii : Bytes → Bool
is_ascii [] = true
is_ascii (c ∷ cs) = ltb c 128 && is_ascii cs

-- A text of fewer than 100 characters, all ASCII.
abbrev pub is_plain : Bytes → Bool
is_plain s = is_ascii s && ltb (length s) 100

unmap_tunnel-sent : (s : Server) (id : Bytes) → (unmap_tunnel s id).sent ≡ s.sent
unfolding unmap_tunnel
unmap_tunnel-sent s id = elim (Result-cases (Registry.get_by_id s.registry id)) [
  | inl (t, e) ↦ rw (e, unmap_tunnel) refl
  | inr (x, e) ↦ rw (e, unmap_tunnel) refl
]

drop_tunnel-sent : (s : Server) (id : Bytes) → (drop_tunnel s id).sent ≡ s.sent
unfolding drop_tunnel
drop_tunnel-sent s id = elim (Option-cases (Registry.unregister s.registry id).1) [
  | inl e ↦ rw (e, drop_tunnel) refl
  | inr (x, e) ↦ rw (e, drop_tunnel) refl
]

cleanup_tunnels-sent : (s : Server) (ids : List Bytes) → (cleanup_tunnels s ids).sent ≡ s.sent
unfolding cleanup_tunnels
cleanup_tunnels-sent s [] = refl
cleanup_tunnels-sent s (id ∷ ids) =
    cleanup_tunnels-sent (drop_tunnel (unmap_tunnel s id) id) ids
    ∙ drop_tunnel-sent (unmap_tunnel s id) id
    ∙ unmap_tunnel-sent s id

pub cleanup_connection-sent :
    (s : Server) (cid : Bytes) (ids : List Bytes) → (cleanup_connection s cid ids).sent ≡ s.sent
unfolding cleanup_connection
cleanup_connection-sent s cid ids = cleanup_tunnels-sent s ids

pub registry_error_text-is_plain :
    (e : RegistryError)
    → is_plain (bytes "register tunnel failed: " ++ registry_error_text e) ≡ true
registry_error_text-is_plain Registry.subdomain_reserved = refl
registry_error_text-is_plain Registry.subdomain_taken = refl
registry_error_text-is_plain Registry.subdomain_too_long = refl
registry_error_text-is_plain Registry.tunnel_not_found = refl

check_token-not-scope :
    (mac : Mac) (found : Option Token) (now : ℤ) (scope : Bytes)
    → check_token mac found now ≢ err (invalid_scope scope)
unfolding check_token
check_token-not-scope mac none now scope h = cc
check_token-not-scope mac (some token) now scope h = elim (Bool-cases token.revoked) [
  | inl gone ↦ ground arith
  | inr live ↦ ground arith
]

pub validated-is_plain :
    (mac : Mac) (store : MemoryTokenStore) (token_str : Bytes) (now : ℤ) (e : AuthError)
    → validate_token mac store token_str now ≡ err e
    → is_plain (bytes "authentication failed: " ++ auth_error_text e) ≡ true
unfolding validate_token
validated-is_plain mac store token_str now token_not_found h = refl
validated-is_plain mac store token_str now token_expired h = refl
validated-is_plain mac store token_str now token_revoked h = refl
validated-is_plain mac store token_str now invalid_token h = refl
validated-is_plain mac store token_str now generating_random h = refl
validated-is_plain mac store token_str now (invalid_scope scope) h =
    let k : ⊥ =
      ground (arith, check_token-not-scope mac (GoMap.get store.tokens token_str) now scope) in
    absurd k
