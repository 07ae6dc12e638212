-- ===== src/Admin.antt =====
-- internal/admin/admin.go: the admin API over the gateway's token store and registry. The mux that
-- chooses a handler is net/http's, so a request comes with its route; the body of a POST comes decoded,
-- or with the decoder's error. A response is its status, message and data.
pub mod Access
pub mod Removal
use go_tunnel.Base.{
  ℕ, Bytes, bytes, Bool, true, false, ◌&&◌, ◌||◌, not, Option, none, some, List, [], ◌∷◌, ◌++◌,
  length, take, drop, bytes_eq, ◌==◌, if◌then◌else◌,
}
use go_tunnel.Base.Int.{ℤ}
use go_tunnel.Base.Member.{contains}
use go_tunnel.Base.Result.{Result, ok, err}
use go_tunnel.Registry
use go_tunnel.Registry.{Tunnel}
use go_tunnel.Auth.{Mac, Token, validate_token, create_token}
use go_tunnel.Server.{Server, auth_error_text, registry_error_text}

pub data ApiData : Type 0 where
  nothing health_status : ApiData
  token_made : Token → ApiData
  tunnel_list : List Tunnel → ApiData

pub record ApiResponse : Type 0 where
  pub code : ℕ
  pub message : Bytes
  pub content : ApiData

pub record CreateTokenRequest : Type 0 where
  pub user_id : Bytes
  pub scopes : List Bytes
  pub ttl_minutes : ℤ

-- The four patterns of Handler.
pub data Route : Type 0 where
  health tokens tunnels tunnel_by_id : Route

-- `authorization` and `user_id` are empty where the request has no such header or parameter.
pub record AdminRequest : Type 0 where
  pub method : Bytes
  pub path : Bytes
  pub authorization : Bytes
  pub user_id : Bytes
  pub body : Result Bytes CreateTokenRequest

-- writeJSON with the same status and code.
unfoldable pub reply : ℕ → Bytes → ApiData → ApiResponse
reply status message content = record { code = status; message = message; content = content }

unfoldable pub handle_health : AdminRequest → ApiResponse
unfolding reply
handle_health r =
    if r.method == bytes "GET"
    then reply 200 (bytes "ok") health_status
    else reply 405 (bytes "method not allowed") nothing

-- strings.HasPrefix and strings.TrimPrefix.
unfoldable pub has_prefix : Bytes → Bytes → Bool
has_prefix s prefix = take (length prefix) s == prefix

unfoldable pub trim_prefix : Bytes → Bytes → Bytes
unfolding has_prefix
trim_prefix s prefix = if has_prefix s prefix then drop (length prefix) s else s

unfoldable pub handle_tunnels : Server → AdminRequest → ApiResponse
unfolding reply
handle_tunnels s r =
    if not (r.method == bytes "GET")
    then reply 405 (bytes "method not allowed") nothing
    else if not (r.user_id == [])
    then reply 200 (bytes "tunnels listed")
        (tunnel_list (Registry.get_by_owner s.registry r.user_id))
    else reply 200 (bytes "tunnels listed") (tunnel_list (Registry.list s.registry))

unfoldable pub delete_tunnel : Server → Bytes → Server × ApiResponse
unfolding reply
delete_tunnel s id =
    let (registry, error) = Registry.unregister s.registry id in
    elim error [
      | none ↦ (record s { registry = registry }, reply 200 (bytes "tunnel deleted") nothing)
      | some e ↦ (
        record s { registry = registry },
        reply 404 (bytes "tunnel not found: " ++ registry_error_text e) nothing,
      )
    ]

unfoldable pub handle_tunnel_by_id : Server → AdminRequest → Server × ApiResponse
unfolding reply trim_prefix delete_tunnel
handle_tunnel_by_id s r =
    let id = trim_prefix r.path (bytes "/api/v1/tunnels/") in
    if not (r.method == bytes "DELETE")
    then (s, reply 405 (bytes "method not allowed") nothing)
    else if id == []
    then (s, reply 400 (bytes "tunnel id is required") nothing)
    else delete_tunnel s id

module _ (mac : Mac) where
  -- The random bytes and the time are those of CreateToken.
  unfoldable pub make_token : Server → CreateTokenRequest → Option Bytes → ℤ → Server × ApiResponse
  unfolding reply
  make_token s req random now =
      let (auth, made) =
        create_token mac s.auth req.user_id req.scopes req.ttl_minutes random now in
      elim made [
        | err e ↦ (
          record s { auth = auth },
          reply 500 (bytes "failed to create token: " ++ auth_error_text e) nothing,
        )
        | ok token ↦
            (record s { auth = auth }, reply 201 (bytes "token created") (token_made token))
      ]

  unfoldable pub create_from :
      Server → Result Bytes CreateTokenRequest → Option Bytes → ℤ → Server × ApiResponse
  unfolding reply make_token
  create_from s (err e) random now = (s, reply 400 (bytes "invalid request body: " ++ e) nothing)
  create_from s (ok req) random now =
      if req.user_id == []
      then (s, reply 400 (bytes "user_id is required") nothing)
      else make_token s req random now

  unfoldable pub handle_create_token :
      Server → AdminRequest → Option Bytes → ℤ → Server × ApiResponse
  unfolding reply create_from
  handle_create_token s r random now =
      if not (r.method == bytes "POST")
      then (s, reply 405 (bytes "method not allowed") nothing)
      else create_from s r.body random now

  -- requireAdmin: the refusal, or `none` if the wrapped handler runs.
  unfoldable pub require_admin : Server → AdminRequest → ℤ → Option ApiResponse
  unfolding reply has_prefix trim_prefix
  require_admin s r now =
      if r.authorization == [] || not (has_prefix r.authorization (bytes "Bearer "))
      then some (reply 401 (bytes "missing or invalid authorization header") nothing)
      else elim (validate_token mac s.auth (trim_prefix r.authorization (bytes "Bearer ")) now) [
        | err e ↦ some (reply 401 (bytes "invalid token: " ++ auth_error_text e) nothing)
        | ok token ↦
            if contains token.scopes (bytes "admin")
            then none
            else some (reply 403 (bytes "insufficient scope: admin required") nothing)
      ]

  -- The wrapped handlers.
  unfoldable pub handle_route :
      Server → Route → AdminRequest → Option Bytes → ℤ → Server × ApiResponse
  unfolding handle_create_token handle_tunnels handle_tunnel_by_id handle_health
  handle_route s health r random now = (s, handle_health r)
  handle_route s tokens r random now = handle_create_token s r random now
  handle_route s tunnels r random now = (s, handle_tunnels s r)
  handle_route s tunnel_by_id r random now = handle_tunnel_by_id s r

  -- A call of the API: `now` is the time of requireAdmin, `later` that of CreateToken.
  unfoldable pub serve_admin :
      Server → Route → AdminRequest → Option Bytes → ℤ → ℤ → Server × ApiResponse
  serve_admin s health r random now later = handle_route s health r random later
  serve_admin s route r random now later = elim (require_admin s r now) [
    | some refusal ↦ (s, refusal)
    | none ↦ handle_route s route r random later
  ]
