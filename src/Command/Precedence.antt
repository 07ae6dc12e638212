-- ===== src/Command/Precedence.antt =====
-- Which setting of the log level counts.
use go_tunnel.Base.{Bytes, Bool, none, some, ◌≡◌, arith, inl, inr, Option-cases, bytes_eq}
use go_tunnel.Base.Result.{ok, Result-cases}
use go_tunnel.Config.{
  Machine, defaults, overridden, log_level, apply_server_env, load, load_file, config_path,
}
use go_tunnel.Config.Types.{Config}
use go_tunnel.Host.{Unicode}
use go_tunnel.Logging.{Level, parse_level, new_logger}
use go_tunnel.RateLimiter.{Buckets}
use go_tunnel.Server.Start.{Ending, make_gateway}
use go_tunnel.Command.{Flags, with_log_level, run_server}

-- The log level that counts: the flag's, if there is one, else the environment's, else the file's.
abbrev pub effective_level : Machine Config → Flags → Config → Bytes
effective_level machine flags file =
    overridden flags.log_level (overridden (machine.getenv log_level) file.logging.level)

module _ {Rate Limiter : Type 0} (lib : Buckets Rate Limiter) (unicode : Unicode)
    (opens : Bytes → Bool) where
  -- If the server command ends without an error, its configuration was loaded, and the text that is
  -- its level, the flag before the environment before the file, is one that the loggers know.
  pub run_server-none :
      (machine : Machine Config) (ending : Ending) (flags : Flags)
      → run_server lib unicode opens machine ending flags ≡ none
      → (file : Config) × (level : Level) × (load_file machine defaults
            (config_path machine flags.config)
          ≡ ok file)
        × (parse_level unicode (effective_level machine flags file) ≡ some level)
  unfolding run_server load with_log_level apply_server_env make_gateway new_logger
  run_server-none machine ending flags h =
      elim (Result-cases (load_file machine defaults (config_path machine flags.config))) [
        | inr (x, e) ↦ let k : ⊥ = ground (arith, e) in absurd k
        | inl (file, e) ↦
            elim (Option-cases (parse_level unicode (effective_level machine flags file))) [
              | inr (level, known) ↦ (file, level, e, known)
              | inl unknown ↦ let k : ⊥ = ground (arith, e, unknown) in absurd k
            ]
      ]
