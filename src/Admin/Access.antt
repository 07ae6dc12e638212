-- ===== src/Admin/Access.antt =====
-- Who can use the admin API.
use go_tunnel.Base.{
  Bytes, bytes, true, false, ◌||◌, not, Option, none, some, List, [], ◌∷◌, ◌++◌, arith, ◌≡◌, ◌≢◌,
  refl, sym, ap, ◌∙◌, ◌⊎◌, inl, inr, length, take, drop, bytes_eq, bytes_beq_iff, ◌==◌, Bool-cases,
}
use go_tunnel.Base.Int.{ℤ}
use go_tunnel.Base.Lists.{take-append-drop}
use go_tunnel.Base.Member.{contains}
use go_tunnel.Base.Result.{Result, ok, err}
use go_tunnel.GoMap
use go_tunnel.Auth.{Mac, Token, AuthError, validate_token, check_token}
use go_tunnel.Server.{Server, auth_error_text}
use go_tunnel.Admin.{
  ApiResponse, Route, health, tokens, tunnels, tunnel_by_id, AdminRequest, nothing, reply,
  has_prefix, trim_prefix, require_admin, handle_route, serve_admin,
}

prefix_split : (s p : Bytes) → has_prefix s p ≡ true → s ≡ p ++ trim_prefix s p
unfolding trim_prefix
prefix_split s p h = rw h (joined (unfold has_prefix in h))
  where
    joined : (take (length p) s == p) ≡ true → s ≡ p ++ drop (length p) s
    joined fits =
        let same : take (length p) s ≡ p = ground (arith, bytes_beq_iff (take (length p) s) p) in
        sym (take-append-drop (length p) s) ∙ ap (λ t. t ++ drop (length p) s) same

module _ (mac : Mac) where
  -- The request carries a token that the store accepts at the time and that has the admin scope.
  pub record IsAuthorized (s : Server) (r : AdminRequest) (now : ℤ) : Type 0 where
    pub id : Bytes
    pub token : Token
    pub header : r.authorization ≡ bytes "Bearer " ++ id
    pub valid : validate_token mac s.auth id now ≡ ok token
    pub admin : contains token.scopes (bytes "admin") ≡ true

  -- A refusal of the middleware has one of two codes.
  abbrev IsRefusal : ApiResponse → Type 0
  IsRefusal resp = (resp.code ≡ 401) ⊎ (resp.code ≡ 403)

  abbrev validated : Server → AdminRequest → ℤ → Result AuthError Token
  validated s r now = validate_token mac s.auth (trim_prefix r.authorization (bytes "Bearer ")) now

  require_admin-cases :
      (s : Server) (r : AdminRequest) (now : ℤ)
      → ((resp : ApiResponse) × (require_admin mac s r now ≡ some resp) × IsRefusal resp)
        ⊎ ((require_admin mac s r now ≡ none) × IsAuthorized s r now)
  unfolding require_admin reply
  require_admin-cases s r now =
      elim (Bool-cases
        (r.authorization == [] || not (has_prefix r.authorization (bytes "Bearer ")))) [
          | inl missing ↦ inl (
            reply 401 (bytes "missing or invalid authorization header") nothing,
            ground arith,
            inl refl,
          )
          | inr there ↦ looked there (validated s r now) refl
        ]
    where
      looked :
          (r.authorization == [] || not (has_prefix r.authorization (bytes "Bearer "))) ≡ false
          → (found : Result AuthError Token) → validated s r now ≡ found
          → ((resp : ApiResponse) × (require_admin mac s r now ≡ some resp) × IsRefusal resp)
            ⊎ ((require_admin mac s r now ≡ none) × IsAuthorized s r now)
      looked there (err e) h =
          inl (
            reply 401 (bytes "invalid token: " ++ auth_error_text e) nothing,
            ground arith,
            inl refl,
          )
      looked there (ok token) h = elim (Bool-cases (contains token.scopes (bytes "admin"))) [
        | inl scope ↦ inr (
          ground arith,
          record {
            id = trim_prefix r.authorization (bytes "Bearer ");
            token = token;
            header = prefix_split r.authorization (bytes "Bearer ") (ground arith);
            valid = h;
            admin = scope;
          },
        )
        | inr no_scope ↦
            inl (
              reply 403 (bytes "insufficient scope: admin required") nothing,
              ground arith,
              inr refl,
            )
      ]

  serve_admin-protected :
      (s : Server) (route : Route) (r : AdminRequest) (random : Option Bytes) (now later : ℤ)
      → route ≢ health
      → ((resp : ApiResponse) × (serve_admin mac s route r random now later ≡ (s, resp))
          × IsRefusal resp)
        ⊎ ((serve_admin mac s route r random now later ≡ handle_route mac s route r random later)
            × IsAuthorized s r now)
  unfolding serve_admin
  serve_admin-protected s health r random now later ne = absurd (ne refl)
  serve_admin-protected s tokens r random now later ne = elim (require_admin-cases s r now) [
    | inl (resp, e, refused) ↦ inl (resp, rw (e, serve_admin) refl, refused)
    | inr (e, may) ↦ inr (rw (e, serve_admin) refl, may)
  ]
  serve_admin-protected s tunnels r random now later ne = elim (require_admin-cases s r now) [
    | inl (resp, e, refused) ↦ inl (resp, rw (e, serve_admin) refl, refused)
    | inr (e, may) ↦ inr (rw (e, serve_admin) refl, may)
  ]
  serve_admin-protected s tunnel_by_id r random now later ne = elim (require_admin-cases s r now) [
    | inl (resp, e, refused) ↦ inl (resp, rw (e, serve_admin) refl, refused)
    | inr (e, may) ↦ inr (rw (e, serve_admin) refl, may)
  ]

  -- A call of the API, other than for its health, that changes the gateway or is not answered with 401
  -- or 403 carries a bearer token that the store accepts at that time and that has the admin scope.
  pub serve_admin-IsAuthorized :
      (s s' : Server) (route : Route) (r : AdminRequest) (random : Option Bytes) (now later : ℤ)
      (resp : ApiResponse)
      → route ≢ health
      → serve_admin mac s route r random now later ≡ (s', resp)
      → (s' ≢ s) ⊎ ((resp.code ≢ 401) × (resp.code ≢ 403))
      → IsAuthorized s r now
  serve_admin-IsAuthorized s s' route r random now later resp ne h effect =
      elim (serve_admin-protected s route r random now later ne) [
        | inr (_, may) ↦ may
        | inl (refusal, e, refused) ↦
            let same = sym h ∙ e in
            let same_state : s' ≡ s = ap (λ (o : Server × ApiResponse). o.0) same in
            let same_code : resp.code ≡ refusal.code =
              ap (λ (o : Server × ApiResponse). o.1.code) same in
            absurd (nothing_done refusal same_state same_code refused effect)
      ]
    where
      nothing_done :
          (refusal : ApiResponse)
          → s' ≡ s
          → resp.code ≡ refusal.code
          → IsRefusal refusal
          → (s' ≢ s) ⊎ ((resp.code ≢ 401) × (resp.code ≢ 403))
          → ⊥
      nothing_done refusal e f refused (inl changed) = changed e
      nothing_done refusal e f (inl g) (inr served) = served.0 (f ∙ g)
      nothing_done refusal e f (inr g) (inr served) = served.1 (f ∙ g)

  -- A call of the API, with what it draws and when.
  pub record AdminCall : Type 0 where
    pub route : Route
    pub request : AdminRequest
    pub random : Option Bytes
    pub now : ℤ
    pub later : ℤ

  unfoldable pub after_admin : Server → List AdminCall → Server
  after_admin s [] = s
  after_admin s (c ∷ cs) =
      after_admin (serve_admin mac s c.route c.request c.random c.now c.later).0 cs

  none_valid :
      (s : Server) (id : Bytes) (now : ℤ) (token : Token)
      → ((k : Bytes) → GoMap.get s.auth.tokens k ≡ none)
      → validate_token mac s.auth id now ≢ ok token
  unfolding validate_token check_token
  none_valid s id now token empty h = ground (arith, empty id)

  idle_protected :
      (s : Server) (route : Route) (r : AdminRequest) (random : Option Bytes) (now later : ℤ)
      → ((k : Bytes) → GoMap.get s.auth.tokens k ≡ none)
      → route ≢ health
      → (serve_admin mac s route r random now later).0 ≡ s
  idle_protected s route r random now later empty ne =
      elim (serve_admin-protected s route r random now later ne) [
        | inl (resp, e, _) ↦ ap (λ (o : Server × ApiResponse). o.0) e
        | inr (_, may) ↦ absurd (none_valid s may.id now may.token empty may.valid)
      ]

  idle :
      (s : Server) (route : Route) (r : AdminRequest) (random : Option Bytes) (now later : ℤ)
      → ((k : Bytes) → GoMap.get s.auth.tokens k ≡ none)
      → (serve_admin mac s route r random now later).0 ≡ s
  unfolding serve_admin handle_route
  idle s health r random now later empty = refl
  idle s tokens r random now later empty =
      idle_protected s tokens r random now later empty (λ e. cc)
  idle s tunnels r random now later empty =
      idle_protected s tunnels r random now later empty (λ e. cc)
  idle s tunnel_by_id r random now later empty =
      idle_protected s tunnel_by_id r random now later empty (λ e. cc)

  -- While the store holds no token, no sequence of calls of the API changes the gateway: in
  -- particular none of them creates a first token.
  pub after_admin_idle :
      (s : Server) (calls : List AdminCall)
      → ((k : Bytes) → GoMap.get s.auth.tokens k ≡ none)
      → after_admin s calls ≡ s
  unfolding after_admin
  after_admin_idle s [] empty = refl
  after_admin_idle s (c ∷ cs) empty =
      rw (idle s c.route c.request c.random c.now c.later empty) (after_admin_idle s cs empty)
