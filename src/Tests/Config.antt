-- ===== src/Tests/Config.antt =====
-- internal/config/config.go and cmd/gotunnel/main.go in an environment with some variables.
use go_tunnel.Base.{
  Bytes, bytes, bytes_beq, true, some, [], ◌≡◌, refl, arith, bytes_eq, ◌==◌, bytes_beq_iff,
  if◌then◌else◌,
}
use go_tunnel.Base.Decimal.{atoi, parse_loop}
use go_tunnel.Base.Result.{ok}
use go_tunnel.Config.{
  Machine, defaults, port, log_level, is_port, apply_server_env, read_yaml, load_file, load,
  config_path,
}
use go_tunnel.Config.Types.{Config}
use go_tunnel.Config.Override.{listen_addr, with_https, settled_in, load_without_port}
use go_tunnel.Logging.{Level, parse_level, parse_format, open_output, make_logger, new_logger}
use go_tunnel.Host.{to_lower}
use go_tunnel.Server.Start.{signalled, start, make_gateway, build_gateway}
use go_tunnel.Command.{Flags, with_log_level, run_server}
use go_tunnel.Command.Precedence.{effective_level, run_server-none}
use go_tunnel.Tests.Host.{ascii_only}
use go_tunnel.Tests.RateLimiter.{buckets}

program : Unit {0}
unfolding bytes_beq atoi parse_loop is_port apply_server_env read_yaml load_file load listen_addr
    parse_level parse_format open_output make_logger new_logger to_lower start make_gateway
    build_gateway with_log_level run_server defaults
program = tt

-- LOG_LEVEL is set to Warn.
abbrev verbose : Bytes → Bytes
verbose name = if name == log_level then bytes "Warn" else []

-- PORT is set too.
abbrev with_port : Bytes → Bytes
with_port name = if name == port then bytes "8080" else verbose name

abbrev machine : Machine Config
machine = record { getenv = verbose; files = λ path. some []; yaml = λ content cfg. some cfg }

abbrev loaded : Config
loaded = apply_server_env verbose defaults

load_without_port_example :
    (addr : Bytes) × (load (settled_in machine with_port) (bytes "g.yml")
      ≡ ok (with_https loaded addr))
    × (listen_addr (with_https loaded addr) ≡ listen_addr loaded)
unfolding program
load_without_port_example =
    load_without_port machine with_port (bytes "g.yml") loaded
      (λ name other. ground (arith, bytes_beq_iff name port)) refl

-- What PORT sets, and what it leaves.
port_set :
    load (settled_in machine with_port) (bytes "g.yml") ≡ ok (with_https loaded (bytes ":8080"))
unfolding program
port_set = refl

abbrev flags : Flags
flags = record { config = bytes "g.yml"; log_level = [] }

run_server-none_example :
    (file : Config) × (level : Level) × (load_file machine defaults
        (config_path machine (bytes "g.yml"))
      ≡ ok file)
    × (parse_level ascii_only (effective_level machine flags file) ≡ some level)
unfolding program
run_server-none_example =
    run_server-none buckets ascii_only (λ file. true) machine (signalled true) flags refl
