-- ===== src/Auth/Revoke.antt =====
-- Revocation: a revoked token is never accepted again, and no other token is touched.
use go_tunnel.Base.{
  Bytes, true, Option, none, some, List, [], ◌∷◌, arith, ◌≡◌, ◌≢◌, refl, bytes_eq, bytes_beq_iff,
  ◌==◌, if◌then◌else◌, All, inl, inr, Option-cases, Bool-cases,
}
use go_tunnel.Base.Int.{ℤ}
use go_tunnel.Base.Result.{ok, err}
use go_tunnel.GoMap
use go_tunnel.GoMap.{GoMap}
use go_tunnel.Auth.{
  token_revoked, invalid_token, Token, MemoryTokenStore, Mac, new_token, create_token, signature_ok,
  validate_token, revoke_token, token_string, add_token,
}
use go_tunnel.Auth.Validate.{create_token-cases}

-- Calls that change the store. The arguments of a creation are those of CreateToken.
pub data StoreCall : Type 0 where
  creates : Bytes → List Bytes → ℤ → Option Bytes → ℤ → StoreCall
  revokes : Bytes → StoreCall

-- The store holds a revoked token under the id.
pub record IsRevoked (s : MemoryTokenStore) (id : Bytes) : Type 0 where
  pub token : Token
  pub held : GoMap.get s.tokens id ≡ some token
  pub revoked : token.revoked ≡ true

module _ (mac : Mac) where
  unfoldable pub after_call : MemoryTokenStore → StoreCall → MemoryTokenStore
  after_call s (creates user_id scopes ttl random now) =
      (create_token mac s user_id scopes ttl random now).0
  after_call s (revokes id) = (revoke_token s id).0

  unfoldable pub after_calls : MemoryTokenStore → List StoreCall → MemoryTokenStore
  after_calls s [] = s
  after_calls s (c ∷ cs) = after_calls (after_call s c) cs

  -- The call does not draw the random bytes from which the id was made.
  abbrev pub NotMinted : Bytes → Bytes → StoreCall → Type 0
  NotMinted key id (creates user_id scopes ttl none now) = Unit {0}
  NotMinted key id (creates user_id scopes ttl (some r) now) = token_string mac key r ≢ id
  NotMinted key id (revokes other) = Unit {0}

  -- After a revocation that found its token, the token is refused at any time (as revoked, or as
  -- invalid if its signature is not right), and what ValidateToken says of any other text is
  -- unchanged.
  pub validate-revoke :
      (s : MemoryTokenStore) (id other : Bytes) (now : ℤ)
      → (revoke_token s id).1 ≡ none
      → (validate_token mac (revoke_token s id).0 id now
          ≡ (if signature_ok mac s.signing_key id then err token_revoked else err invalid_token))
        × (other ≢ id
            → validate_token mac (revoke_token s id).0 other now ≡ validate_token mac s other now)
  unfolding revoke_token validate_token
  validate-revoke s id other now done = elim (Option-cases (GoMap.get s.tokens id)) [
    | inl gone ↦ ground arith
    | inr (t, e) ↦
        let t' : Token = record t { revoked = true } in
        rw (e, revoke_token)
          (
            ground (arith, GoMap.get-put s.tokens id id t', bytes_beq_iff id id),
            λ ne. ground (arith, GoMap.get-put s.tokens id other t', bytes_beq_iff id other),
          )
  ]

  IsRevoked-revoke :
      (s : MemoryTokenStore) (id other : Bytes)
      → IsRevoked s id
      → IsRevoked (revoke_token s other).0 id
  unfolding revoke_token
  IsRevoked-revoke s id other v = elim (Option-cases (GoMap.get s.tokens other)) [
    | inl gone ↦ rw (gone, revoke_token) v
    | inr (t, e) ↦
        let t' : Token = record t { revoked = true } in
        rw (e, revoke_token)
          (elim (Bool-cases (other == id)) [
            | inl same ↦ record {
              token = t';
              held = ground (arith, GoMap.get-put s.tokens other id t');
              revoked = refl;
            }
            | inr ne ↦ record {
              token = v.token;
              held = ground (arith, v.held, GoMap.get-put s.tokens other id t');
              revoked = v.revoked;
            }
          ])
  ]

  IsRevoked-add :
      (s : MemoryTokenStore) (id : Bytes) (t : Token)
      → t.id ≢ id
      → IsRevoked s id
      → IsRevoked (add_token mac s t) id
  IsRevoked-add s id t ne v = record {
    token = v.token;
    held = ground (arith, v.held, GoMap.get-put s.tokens t.id id t, bytes_beq_iff t.id id);
    revoked = v.revoked;
  }

  key-call : (s : MemoryTokenStore) (c : StoreCall) → (after_call s c).signing_key ≡ s.signing_key
  unfolding after_call create_token revoke_token
  key-call s (creates user_id scopes ttl random now) = ground arith
  key-call s (revokes id) = ground arith

  IsRevoked-create :
      (s : MemoryTokenStore) (id user_id : Bytes) (scopes : List Bytes) (ttl : ℤ)
      (random : Option Bytes) (now : ℤ)
      → ((r : Bytes) → random ≡ some r → token_string mac s.signing_key r ≢ id)
      → IsRevoked s id
      → IsRevoked (create_token mac s user_id scopes ttl random now).0 id
  unfolding new_token
  IsRevoked-create s id user_id scopes ttl random now n v =
      elim (create_token-cases mac s user_id scopes ttl random now) [
        | inl (e, refused) ↦ rw refused v
        | inr (r, drawn, _, made) ↦ rw made (
            IsRevoked-add s id (new_token mac s.signing_key user_id scopes ttl r now) (n r drawn) v)
      ]

  IsRevoked-call :
      (s : MemoryTokenStore) (id : Bytes) (c : StoreCall)
      → NotMinted s.signing_key id c
      → IsRevoked s id
      → IsRevoked (after_call s c) id
  unfolding after_call
  IsRevoked-call s id (revokes other) n v = IsRevoked-revoke s id other v
  IsRevoked-call s id (creates user_id scopes ttl none now) n v =
      IsRevoked-create s id user_id scopes ttl none now (λ r e. cc) v
  IsRevoked-call s id (creates user_id scopes ttl (some r) now) n v =
      IsRevoked-create s id user_id scopes ttl (some r) now
        (λ r' e same. let drawn : r ≡ r' = cc in n (rw drawn same)) v

  IsRevoked-calls :
      (s : MemoryTokenStore) (id : Bytes) (cs : List StoreCall)
      → All (NotMinted s.signing_key id) cs
      → IsRevoked s id
      → IsRevoked (after_calls s cs) id
  unfolding after_calls
  IsRevoked-calls s id [] n v = v
  IsRevoked-calls s id (c ∷ cs) n v =
      IsRevoked-calls (after_call s c) id cs (rw key-call n.1) (IsRevoked-call s id c n.0 v)

  -- A revoked token is never accepted again: not at any time, and not after any further calls,
  -- unless one of them draws the very random bytes of the token again.
  pub revoked_for_good :
      (s : MemoryTokenStore) (id : Bytes) (cs : List StoreCall) (now : ℤ) (token : Token)
      → IsRevoked s id
      → All (NotMinted s.signing_key id) cs
      → validate_token mac (after_calls s cs) id now ≢ ok token
  unfolding validate_token
  revoked_for_good s id cs now token v n h =
      let w = IsRevoked-calls s id cs n v in ground (arith, w.held, w.revoked)
