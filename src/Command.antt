-- ===== src/Command.antt =====
-- cmd/gotunnel/main.go: what a command line does. Package flag is a parameter: what it makes of the
-- arguments of a subcommand, `none` if it exits with a usage error. The two servers' runs are given by
-- their outcomes.
pub mod Precedence
use go_tunnel.Base.{
  ℕ, Bytes, bytes, Bool, Option, none, some, List, [], ◌∷◌, bytes_eq, ◌==◌, if◌then◌else◌,
}
use go_tunnel.Base.Result.{Result, ok, err}
use go_tunnel.Config.{Machine, ConfigError, load, load_client_config}
use go_tunnel.Config.Types.{Config, ClientConfig}
use go_tunnel.Host.{Unicode}
use go_tunnel.Logging.{LogError}
use go_tunnel.RateLimiter.{Buckets}
use go_tunnel.Server.Start.{Gateway, StartError, Ending, make_gateway, start}
use go_tunnel.Client.Reconnect.{RunEnd, Round, run, gave_up}
use go_tunnel.Client.Session.{Client, new_client}

pub data Command : Type 0 where
  usage version : Command
  server client : List Bytes → Command
  unimplemented : Command

-- The switch of main; the arguments are those behind the program's name.
unfoldable pub choose : List Bytes → Command
choose [] = usage
choose (name ∷ args) =
    if name == bytes "server"
    then server args
    else if name == bytes "client"
    then client args
    else if name == bytes "token"
    then unimplemented
    else if name == bytes "tunnel"
    then unimplemented
    else if name == bytes "version"
    then version
    else usage

pub record Flags : Type 0 where
  pub config : Bytes
  pub log_level : Bytes

-- What main prints an error for before it exits with 1.
pub data Failure : Type 0 where
  loading_config : ConfigError → Failure
  creating_server : LogError → Failure
  starting_server : StartError → Failure
  running_client : Failure

unfoldable pub with_log_level : Bytes → Config → Config
with_log_level level cfg =
    if level == [] then cfg else record cfg { logging = record cfg.logging { level = level } }

abbrev started : Option StartError → Option Failure
started none = none
started (some e) = some (starting_server e)

abbrev client_end : RunEnd → Option Failure
client_end gave_up = some running_client
client_end _ = none

module _ {Rate Limiter : Type 0} (lib : Buckets Rate Limiter) (unicode : Unicode)
    (opens : Bytes → Bool) where
  abbrev serve : Ending → Result LogError (Gateway Rate Limiter) → Option Failure
  serve ending (err e) = some (creating_server e)
  serve ending (ok gateway) = started (start ending)

  abbrev serve_config : Ending → Bytes → Result ConfigError Config → Option Failure
  serve_config ending level (err e) = some (loading_config e)
  serve_config ending level (ok cfg) =
      serve ending (make_gateway lib unicode opens (with_log_level level cfg))

  -- runServer, once its flags are parsed.
  unfoldable pub run_server : Machine Config → Ending → Flags → Option Failure
  unfolding with_log_level
  run_server machine ending flags = serve_config ending flags.log_level (load machine flags.config)

-- runClient, once its flags are parsed, with the rounds of its run. It does not read the log level,
-- and the configuration is never nil.
abbrev run_config : List Round → Result ConfigError ClientConfig → Option Failure
run_config rounds (err e) = some (loading_config e)
run_config rounds (ok cfg) =
    client_end (run cfg.client.reconnect.max_retries cfg.client.reconnect.backoff_ms rounds).1

unfoldable pub run_client : Machine ClientConfig → List Round → Flags → Option Failure
run_client machine rounds flags = run_config rounds (load_client_config machine flags.config)
