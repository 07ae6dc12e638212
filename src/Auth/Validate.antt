-- ===== src/Auth/Validate.antt =====
-- Which tokens ValidateToken accepts.
use go_tunnel.Base.{
  Bytes, true, false, Option, none, some, List, ◌∷◌, ◌++◌, arith, ◌≡◌, ◌≢◌, refl, bytes_eq,
  bytes_beq_iff, if◌then◌else◌, All, ◌↔◌, Option-cases, ◌⊎◌, inl, inr,
}
use go_tunnel.Base.Int.{ℤ}
use go_tunnel.Base.Hex.{
  hex_encode, hex_decode, cut, decode-hex_encode, cut-hex_encode, cut_joins, cut-append,
}
use go_tunnel.Base.Result.{ok, err}
use go_tunnel.GoTime
use go_tunnel.GoMap
use go_tunnel.GoMap.{GoMap, map_laws}
use go_tunnel.Auth.{
  AuthError, token_expired, generating_random, invalid_scope, Token, MemoryTokenStore, Mac,
  bad_scope, token_string, new_token, create_token, signature_ok, validate_token, add_token,
}

module _ (mac : Mac) where
  -- A text is signed if it is a text with no dot, a dot, and hexadecimal digits that stand for the
  -- first part's HMAC under the key.
  pub record IsSigned (key token_str : Bytes) : Type 0 where
    pub message : Bytes
    pub hex_sig : Bytes
    pub parts : token_str ≡ message ++ b'.' ∷ hex_sig
    pub no_dot : All (λ c. c ≢ b'.') message
    pub signature : hex_decode hex_sig ≡ some (mac.sum message key)

  pub signature-token_string :
      (key random : Bytes) → signature_ok mac key (token_string mac key random) ≡ true
  unfolding signature_ok token_string
  signature-token_string key random =
      let hex_random = hex_encode random in
      let sig = mac.sum hex_random key in
      ground (
        arith,
        cut-hex_encode random (hex_encode sig),
        decode-hex_encode sig (mac.sum-IsByte hex_random key),
        bytes_beq_iff sig sig,
      )

  signature-IsSigned :
      (key token_str : Bytes) → signature_ok mac key token_str ≡ true → IsSigned key token_str
  unfolding signature_ok
  signature-IsSigned key token_str h = elim (Option-cases (cut b'.' token_str)) [
    | inl e ↦ ground arith
    | inr ((message, hex_sig), e) ↦
        let (joined, clear) = cut_joins b'.' token_str message hex_sig e in
        elim (Option-cases (hex_decode hex_sig)) [
          | inl f ↦ ground arith
          | inr (sig, f) ↦ record {
            message = message;
            hex_sig = hex_sig;
            parts = joined;
            no_dot = clear;
            signature = ground (arith, bytes_beq_iff sig (mac.sum message key));
          }
        ]
  ]

  IsSigned-signature :
      (key token_str : Bytes) → IsSigned key token_str → signature_ok mac key token_str ≡ true
  unfolding signature_ok
  IsSigned-signature key token_str s = rw s.parts (
      ground (
        arith,
        cut-append b'.' s.message s.hex_sig s.no_dot,
        s.signature,
        bytes_beq_iff (mac.sum s.message key) (mac.sum s.message key),
      ))

  -- ValidateToken accepts a text exactly if it is signed under the store's key and the store holds a
  -- token under it that is not revoked and not past its expiry; and then it returns that token.
  pub validate_iff :
      (s : MemoryTokenStore) (token_str : Bytes) (now : ℤ) (token : Token)
      → (validate_token mac s token_str now ≡ ok token) ↔ (
          IsSigned s.signing_key token_str
          × (GoMap.get s.tokens token_str ≡ some token)
          × (token.revoked ≡ false)
          × (GoTime.after now token.expires_at ≡ false))
  unfolding validate_token
  validate_iff s token_str now token = (
    λ h. (
      signature-IsSigned s.signing_key token_str (ground arith),
      ground arith,
      ground arith,
      ground arith,
    ),
    λ h. ground (arith, IsSigned-signature s.signing_key token_str h.0),
  )

  -- The outcome of CreateToken: refused, with the store as it was, or a new token added.
  pub create_token-cases :
      (s : MemoryTokenStore) (user_id : Bytes) (scopes : List Bytes) (ttl_minutes : ℤ)
      (random : Option Bytes) (now : ℤ)
      → ((e : AuthError) × (create_token mac s user_id scopes ttl_minutes random now ≡ (s, err e)))
        ⊎ ((r : Bytes) × (random ≡ some r)
            × (bad_scope scopes ≡ none)
            × (create_token mac s user_id scopes ttl_minutes random now ≡ (
              add_token mac s (new_token mac s.signing_key user_id scopes ttl_minutes r now),
              ok (new_token mac s.signing_key user_id scopes ttl_minutes r now),
            )))
  unfolding create_token
  create_token-cases s user_id scopes ttl_minutes none now =
      elim (Option-cases (bad_scope scopes)) [
        | inl fine ↦ inl (generating_random, ground arith)
        | inr (scope, e) ↦ inl (invalid_scope scope, ground arith)
      ]
  create_token-cases s user_id scopes ttl_minutes (some r) now =
      elim (Option-cases (bad_scope scopes)) [
        | inl fine ↦ inr (r, refl, fine, ground arith)
        | inr (scope, e) ↦ inl (invalid_scope scope, ground arith)
      ]

  validate-add :
      (s : MemoryTokenStore) (token : Token) (later : ℤ)
      → signature_ok mac s.signing_key token.id ≡ true
      → token.revoked ≡ false
      → validate_token mac (add_token mac s token) token.id later
        ≡ (if GoTime.after later token.expires_at then err token_expired else ok token)
  unfolding validate_token
  validate-add s token later signed live =
      ground
        (arith, GoMap.get-put s.tokens token.id token.id token, bytes_beq_iff token.id token.id)

  -- A token that CreateToken returned is accepted until its expiry, and refused as expired after it.
  pub validate-create :
      (s s' : MemoryTokenStore) (user_id : Bytes) (scopes : List Bytes) (ttl_minutes : ℤ)
      (random : Option Bytes) (now later : ℤ) (token : Token)
      → create_token mac s user_id scopes ttl_minutes random now ≡ (s', ok token)
      → validate_token mac s' token.id later
        ≡ (if GoTime.after later token.expires_at then err token_expired else ok token)
  validate-create s s' user_id scopes ttl_minutes random now later token h =
      elim (create_token-cases s user_id scopes ttl_minutes random now) [
        | inl (e, refused) ↦ cc
        | inr (r, _, _, made) ↦
            created r (new_token mac s.signing_key user_id scopes ttl_minutes r now) refl made
      ]
    where
      created :
          (r : Bytes) (t : Token)
          → t ≡ new_token mac s.signing_key user_id scopes ttl_minutes r now
          → create_token mac s user_id scopes ttl_minutes random now ≡ (add_token mac s t, ok t)
          → validate_token mac s' token.id later
            ≡ (if GoTime.after later token.expires_at then err token_expired else ok token)
      created r t e made =
          rw (same_store, same_token)
            (validate-add s t later
              (rw e (unfold new_token in signature-token_string s.signing_key r))
              (rw e (unfold new_token in refl)))
        where
          same_store : s' ≡ add_token mac s t
          same_store = cc

          same_token : token ≡ t
          same_token = cc
