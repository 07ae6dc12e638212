-- ===== src/Server/Start.antt =====
-- internal/server/server.go: NewServer from a configuration, the routes of Start and its end, and
-- handleHealth. Listening, signals and shutdown are net/http's and the system's: their outcomes are
-- inputs.
use go_tunnel.Base.{
  Bytes, bytes, Bool, Option, none, some, List, [], ◌∷◌, take, bytes_eq, nat_eq, ◌==◌,
  if◌then◌else◌,
}
use go_tunnel.Base.Int.{ℤ, pos}
use go_tunnel.Base.Result.{Result, ok, err}
use go_tunnel.Config.Types.{Config}
use go_tunnel.Logging.{LogError, Logger, new_logger, with_component}
use go_tunnel.Host.{Unicode}
use go_tunnel.Proxy.{WriterCall, error, set_header, write_header, write}
use go_tunnel.RateLimiter.{Buckets, RateLimiter, new_rate_limiter, admit}
use go_tunnel.Server.{Server, new_server}

-- The gateway with the parts that NewServer builds around its state. The admin API shares the state,
-- and the proxy is the state and the public host name.
pub record Gateway (Rate Limiter : Type 0) : Type 0 where
  pub config : Config
  pub state : Server
  pub public_hostname : Bytes
  pub limiter : RateLimiter Rate Limiter
  pub logger : Logger

pub data Route : Type 0 where
  connect api health metrics_page proxied : Route
  redirected : Bytes → Route

-- The mux of Start, for a path that it does not have to clean first. A subtree is also meant by its
-- name without the slash, which is redirected.
unfoldable pub route : Bytes → Route
route path =
    if path == bytes "/connect"
    then connect
    else if path == bytes "/health"
    then health
    else if path == bytes "/metrics"
    then metrics_page
    else if take 8 path == bytes "/api/v1/"
    then api
    else if path == bytes "/api/v1"
    then redirected (bytes "/api/v1/")
    else proxied

unfoldable pub handle_health : Bytes → List WriterCall
handle_health method =
    if method == bytes "GET"
    then set_header (bytes "Content-Type") (bytes "application/json")
      ∷ write_header (pos 200)
      ∷ write (bytes "{\"status\":\"ok\"}\n")
      ∷ []
    else error (bytes "method not allowed") 405 ∷ []

-- How the wait of Start ends: by a signal, with the outcome of the shutdown, or because the server
-- could not listen.
pub data Ending : Type 0 where
  signalled : Bool → Ending
  listen_failed : Ending

pub data StartError : Type 0 where
  http_server graceful_shutdown : StartError

unfoldable pub start : Ending → Option StartError
start (signalled clean) = if clean then none else some graceful_shutdown
start listen_failed = some http_server

module _ {Rate Limiter : Type 0} (lib : Buckets Rate Limiter) where
  unfoldable pub build_gateway : Config → Logger → Gateway Rate Limiter
  build_gateway cfg log = record {
    config = cfg;
    state =
        new_server cfg.auth.token_signing_key cfg.registry.reserved_subdomains
          cfg.registry.max_subdomain_length cfg.registry.default_ttl_seconds;
    public_hostname = cfg.server.public_hostname;
    limiter = new_rate_limiter lib cfg.limits.request_rate_per_ip_per_min;
    logger = with_component log (bytes "server");
  }

  abbrev built : Config → Result LogError Logger → Result LogError (Gateway Rate Limiter)
  built cfg (err e) = err e
  built cfg (ok log) = ok (build_gateway cfg log)

  unfoldable pub make_gateway :
      Unicode → (Bytes → Bool) → Config → Result LogError (Gateway Rate Limiter)
  unfolding build_gateway
  make_gateway unicode opens cfg =
      built cfg (new_logger unicode opens cfg.logging.level cfg.logging.format cfg.logging.file)

  -- The server's handler: the rate limiter in front of the mux. `none` is the answer 429.
  unfoldable pub receive :
      Gateway Rate Limiter → Bytes → Bytes → ℤ → Gateway Rate Limiter × Option Route
  receive g remote_addr path now =
      let (limiter, allowed) = admit lib g.limiter remote_addr now in
      (record g { limiter = limiter }, if allowed then some (route path) else none)
