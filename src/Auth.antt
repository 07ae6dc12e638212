-- ===== src/Auth.antt =====
-- internal/auth/auth.go: signed API tokens. HMAC-SHA256 is a parameter, a function of message and
-- key whose results are bytes; the random bytes of CreateToken and the time of a call are arguments.
-- A *Token is stored by value: its only writer is RevokeToken, under the store's lock.
pub mod Validate
pub mod Revoke
use go_tunnel.Base.{
  ℕ, Bytes, IsByte, bytes, Bool, true, false, ◌&&◌, ◌||◌, not, Option, none, some, List, [], ◌∷◌,
  ◌++◌, map, bytes_eq, ◌==◌, if◌then◌else◌, All,
}
use go_tunnel.Base.Int.{ℤ}
use go_tunnel.Base.Lists.{select}
use go_tunnel.Base.Hex.{hex_encode, hex_decode, cut}
use go_tunnel.Base.Result.{Result, ok, err}
use go_tunnel.GoTime
use go_tunnel.GoMap
use go_tunnel.GoMap.{GoMap}

pub data AuthError : Type 0 where
  token_not_found token_expired token_revoked invalid_token : AuthError
  invalid_scope : Bytes → AuthError
  generating_random : AuthError

pub record Token : Type 0 where
  pub id : Bytes
  pub user_id : Bytes
  pub scopes : List Bytes
  pub created_at : ℤ
  pub expires_at : ℤ
  pub revoked : Bool

pub record MemoryTokenStore : Type 0 where
  pub tokens : GoMap Bytes Token
  pub signing_key : Bytes

-- HMAC-SHA256, of a message and a key.
pub record Mac : Type 0 where
  pub sum : Bytes → Bytes → Bytes
  pub sum-IsByte : (message key : Bytes) → All IsByte (sum message key)

unfoldable pub new_memory_token_store : Bytes → MemoryTokenStore
new_memory_token_store signing_key = record { tokens = GoMap.empty; signing_key = signing_key }

-- validScopes[scope].
unfoldable pub valid_scope : Bytes → Bool
valid_scope scope =
    scope == bytes "create"
    || scope == bytes "list"
    || scope == bytes "revoke"
    || scope == bytes "admin"

-- The first scope that is not valid.
unfoldable pub bad_scope : List Bytes → Option Bytes
unfolding valid_scope
bad_scope [] = none
bad_scope (scope ∷ rest) =
    let later = bad_scope rest in if valid_scope scope then later else some scope

unfoldable pub revoke_token : MemoryTokenStore → Bytes → MemoryTokenStore × Option AuthError
revoke_token s id = elim (GoMap.get s.tokens id) [
  | none ↦ (s, some token_not_found)
  | some token ↦
      (record s { tokens = GoMap.put s.tokens id (record token { revoked = true }) }, none)
]

abbrev token_of : Bytes × Token → Token
token_of (id, token) = token

unfoldable pub list_all_tokens : MemoryTokenStore → List Token
list_all_tokens s = map token_of (GoMap.range s.tokens)

unfoldable pub list_tokens : MemoryTokenStore → Bytes → List Token
unfolding list_all_tokens
list_tokens s user_id = select (λ token. token.user_id == user_id) (list_all_tokens s)

module _ (mac : Mac) where
  unfoldable pub compute_hmac : Bytes → Bytes → Bytes
  compute_hmac message key = mac.sum message key

  -- The token string that CreateToken makes of its random bytes.
  unfoldable pub token_string : Bytes → Bytes → Bytes
  unfolding compute_hmac
  token_string key random =
      let hex_random = hex_encode random in
      hex_random ++ b'.' ∷ hex_encode (compute_hmac hex_random key)

  unfoldable pub new_token : Bytes → Bytes → List Bytes → ℤ → Bytes → ℤ → Token
  unfolding token_string
  new_token key user_id scopes ttl_minutes random now = record {
    id = token_string key random;
    user_id = user_id;
    scopes = scopes;
    created_at = now;
    expires_at = GoTime.add now (GoTime.duration ttl_minutes GoTime.minute);
    revoked = false;
  }

  abbrev add_token : MemoryTokenStore → Token → MemoryTokenStore
  add_token s token = record s { tokens = GoMap.put s.tokens token.id token }

  -- `random` is what rand.Read gave, `none` for its error.
  unfoldable pub create_token :
      MemoryTokenStore
      → Bytes
      → List Bytes
      → ℤ
      → Option Bytes
      → ℤ
      → MemoryTokenStore × Result AuthError Token
  unfolding new_token bad_scope
  create_token s user_id scopes ttl_minutes random now = elim (bad_scope scopes) [
    | some scope ↦ (s, err (invalid_scope scope))
    | none ↦ elim random [
      | none ↦ (s, err generating_random)
      | some random_bytes ↦
          let token = new_token s.signing_key user_id scopes ttl_minutes random_bytes now in
          (add_token s token, ok token)
    ]
  ]

  -- The part of ValidateToken before the lookup: whether the text carries a valid signature.
  unfoldable pub signature_ok : Bytes → Bytes → Bool
  unfolding compute_hmac
  signature_ok key token_str = elim (cut b'.' token_str) [
    | none ↦ false
    | some (hex_random, hex_sig) ↦ elim (hex_decode hex_sig) [
      | none ↦ false
      | some provided_sig ↦ provided_sig == compute_hmac hex_random key
    ]
  ]

  unfoldable pub check_token : Option Token → ℤ → Result AuthError Token
  check_token none now = err token_not_found
  check_token (some token) now =
      if token.revoked
      then err token_revoked
      else if GoTime.after now token.expires_at
      then err token_expired
      else ok token

  unfoldable pub validate_token : MemoryTokenStore → Bytes → ℤ → Result AuthError Token
  unfolding signature_ok check_token
  validate_token s token_str now =
      if signature_ok s.signing_key token_str
      then check_token (GoMap.get s.tokens token_str) now
      else err invalid_token
