-- ===== src/Tests/Admin.antt =====
-- internal/admin/admin.go: an administrator's calls.
use go_tunnel.Base.{
  Bytes, bytes, bytes_beq, none, some, List, [], ◌∷◌, ◌≡◌, refl, inr, bytes_eq, nat_eq, arith,
}
use go_tunnel.Base.Int.{pos}
use go_tunnel.Base.Hex.{hex_encode, hex_digit, hex_decode, from_hex_char, cut}
use go_tunnel.Base.Result.{ok, err}
use go_tunnel.GoTime
use go_tunnel.GoMap
use go_tunnel.GoMap.Assoc.{find, without}
use go_tunnel.Registry.{
  list, new_memory_registry, reserve_all, register, insert_tunnel, with_ttl, too_long,
}
use go_tunnel.Auth.{
  MemoryTokenStore, new_memory_token_store, create_token, validate_token, new_token, token_string,
  compute_hmac, bad_scope, valid_scope, signature_ok, check_token,
}
use go_tunnel.Server.{Server, new_server, cleanup_connection}
use go_tunnel.Admin.{
  AdminRequest, tunnels, tokens, tunnel_list, reply, has_prefix, trim_prefix, handle_tunnels,
  require_admin, handle_route, serve_admin, handle_tunnel_by_id,
}
use go_tunnel.Admin.Access.{
  IsAuthorized, AdminCall, after_admin, serve_admin-IsAuthorized, after_admin_idle,
}
use go_tunnel.Metrics.{active_tunnels}
use go_tunnel.Base.Int.{◌+ℤ◌}
use go_tunnel.Admin.Removal.{delete-clean-up}
use go_tunnel.Tests.Auth.{toy_mac, empty_store}
use go_tunnel.Tests.Registry.{app, app_registry}
use go_tunnel.Tests.Server.{started}

program : Unit {0}
unfolding bytes_beq GoMap.empty GoMap.get GoMap.put GoMap.range find without hex_encode hex_digit
    hex_decode from_hex_char cut GoTime.duration GoTime.add new_memory_registry reserve_all register
    insert_tunnel with_ttl too_long new_memory_token_store create_token validate_token new_token
    token_string compute_hmac bad_scope valid_scope signature_ok check_token new_server reply
    has_prefix trim_prefix handle_tunnels require_admin handle_route serve_admin
program = tt

abbrev admin_store : MemoryTokenStore
admin_store =
    (create_token toy_mac empty_store (bytes "root") (bytes "admin" ∷ []) (pos 10)
      (some (18 ∷ 52 ∷ [])) (pos 0)).0

abbrev administered : Server
administered = record started { registry = app_registry; auth = admin_store }

abbrev asks : Bytes → Bytes → AdminRequest
asks method path = record {
  method = method;
  path = path;
  authorization = bytes "Bearer 1234.0403";
  user_id = [];
  body = err (bytes "EOF");
}

serve_admin-IsAuthorized_example :
    IsAuthorized toy_mac administered (asks (bytes "GET") (bytes "/api/v1/tunnels")) (pos 5)
unfolding program
serve_admin-IsAuthorized_example =
    serve_admin-IsAuthorized toy_mac administered administered tunnels
      (asks (bytes "GET") (bytes "/api/v1/tunnels")) none (pos 5) (pos 6)
      (reply 200 (bytes "tunnels listed") (tunnel_list (list app_registry))) (λ e. cc) refl
      (inr ((λ e. omega arith), (λ e. omega arith)))

abbrev bootstrap : List (AdminCall toy_mac)
bootstrap =
    (record {
      route = tokens;
      request = record (asks (bytes "POST") (bytes "/api/v1/tokens")) {
        body =
            ok (record {
              user_id = bytes "root";
              scopes = bytes "admin" ∷ [];
              ttl_minutes = pos 10;
            });
      };
      random = some (18 ∷ 52 ∷ []);
      now = pos 1;
      later = pos 2;
    })
    ∷ []

after_admin_idle_example : after_admin toy_mac started bootstrap ≡ started
unfolding new_server new_memory_token_store
after_admin_idle_example = after_admin_idle toy_mac started bootstrap (λ k. GoMap.get-empty k)

delete-clean-up_example :
    active_tunnels
      (cleanup_connection
        (handle_tunnel_by_id administered
          (asks (bytes "DELETE") (bytes "/api/v1/tunnels/c1-app"))).0
        (bytes "c1")
        (bytes "c1-web" ∷ bytes "c1-app" ∷ [])).metrics
    ≡ active_tunnels
        (cleanup_connection administered
          (bytes "c1")
          (bytes "c1-web" ∷ bytes "c1-app" ∷ [])).metrics
      +ℤ pos 1
unfolding program
delete-clean-up_example =
    delete-clean-up administered (asks (bytes "DELETE") (bytes "/api/v1/tunnels/c1-app"))
      (bytes "c1-app") (bytes "c1") (bytes "c1-web" ∷ bytes "c1-app" ∷ [])
      (record app { ttl = pos 60 }) refl refl (λ e. cc) refl refl
