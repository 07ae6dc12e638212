-- ===== src/Tests/Auth.antt =====
-- internal/auth/auth.go with a toy HMAC, the two lengths.
use go_tunnel.Base.{
  ◌%◌, bytes, bytes_beq, Bool, false, some, List, [], ◌∷◌, arith, ◌≡◌, ◌≢◌, refl, ◌↔◌, bytes_eq,
  length,
}
use go_tunnel.Base.Int.{pos}
use go_tunnel.Base.Hex.{hex_encode, hex_digit, hex_decode, from_hex_char, cut}
use go_tunnel.Base.Result.{ok, err}
use go_tunnel.GoTime
use go_tunnel.GoMap
use go_tunnel.GoMap.Assoc.{find, without}
use go_tunnel.Auth.{
  Token, MemoryTokenStore, Mac, new_memory_token_store, create_token, validate_token, revoke_token,
  token_expired, new_token, token_string, compute_hmac, bad_scope, valid_scope, signature_ok,
  check_token,
}
use go_tunnel.Auth.Validate.{IsSigned, validate_iff, validate-create}
use go_tunnel.Auth.Revoke.{
  StoreCall, creates, revokes, IsRevoked, after_call, after_calls, revoked_for_good,
}

abbrev pub toy_mac : Mac
toy_mac = record {
  sum = λ message key. length message % 256 ∷ length key % 256 ∷ [];
  sum-IsByte = λ message key. (omega arith, (omega arith, tt));
}

program : Unit {0}
unfolding bytes_beq GoMap.empty GoMap.get GoMap.put find without hex_encode hex_digit hex_decode
    from_hex_char cut GoTime.duration GoTime.add new_memory_token_store create_token validate_token
    revoke_token new_token token_string compute_hmac bad_scope valid_scope signature_ok check_token
    after_call after_calls
program = tt

abbrev pub empty_store : MemoryTokenStore
empty_store = new_memory_token_store (bytes "key")

abbrev pub ann_store : MemoryTokenStore
ann_store =
    (create_token toy_mac empty_store (bytes "ann") (bytes "create" ∷ []) (pos 10)
      (some (18 ∷ 52 ∷ [])) (pos 0)).0

abbrev pub ann_token : Token
ann_token = record {
  id = bytes "1234.0403";
  user_id = bytes "ann";
  scopes = bytes "create" ∷ [];
  created_at = pos 0;
  expires_at = pos 600_000_000_000;
  revoked = false;
}

pub ann_token_valid : validate_token toy_mac ann_store (bytes "1234.0403") (pos 5) ≡ ok ann_token
unfolding program
ann_token_valid = refl

validate_iff_example :
    (validate_token toy_mac ann_store (bytes "1234.0403") (pos 5) ≡ ok ann_token) ↔ (
      IsSigned toy_mac ann_store.signing_key (bytes "1234.0403")
      × (GoMap.get ann_store.tokens (bytes "1234.0403") ≡ some ann_token)
      × (ann_token.revoked ≡ false)
      × (GoTime.after (pos 5) ann_token.expires_at ≡ false))
validate_iff_example = validate_iff toy_mac ann_store (bytes "1234.0403") (pos 5) ann_token

validate-create_example :
    validate_token toy_mac ann_store ann_token.id (pos 600_000_000_001) ≡ err token_expired
unfolding program
validate-create_example =
    validate-create toy_mac empty_store ann_store (bytes "ann") (bytes "create" ∷ []) (pos 10)
      (some (18 ∷ 52 ∷ [])) (pos 0) (pos 600_000_000_001) ann_token refl

-- Another token is made and another one is revoked, after the revocation.
abbrev later_calls : List StoreCall
later_calls =
    creates (bytes "bob") (bytes "admin" ∷ []) (pos 5) (some (1 ∷ [])) (pos 3)
    ∷ revokes (bytes "1")
    ∷ []

token-IsRevoked_now : IsRevoked (revoke_token ann_store (bytes "1234.0403")).0 (bytes "1234.0403")
unfolding program
token-IsRevoked_now = record {
  token = record ann_token { revoked = Bool.true };
  held = refl;
  revoked = refl;
}

revoked_for_good_example :
    validate_token toy_mac
      (after_calls toy_mac (revoke_token ann_store (bytes "1234.0403")).0 later_calls)
      (bytes "1234.0403")
      (pos 5)
    ≢ ok ann_token
unfolding program
revoked_for_good_example =
    revoked_for_good toy_mac (revoke_token ann_store (bytes "1234.0403")).0 (bytes "1234.0403")
      later_calls (pos 5) ann_token token-IsRevoked_now (λ e. cc, (tt, tt))
