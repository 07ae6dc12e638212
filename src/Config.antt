-- ===== src/Config.antt =====
-- internal/config/config.go: the configurations, their defaults, Load and LoadClientConfig. The
-- environment, the files and the YAML decoder are parameters.
pub mod Types
pub mod Override
use go_tunnel.Base.{
  Bool, Bytes, bytes, true, false, Option, none, some, [], bytes_eq, ◌==◌, ◌&&◌, ◌∷◌, if◌then◌else◌,
}
use go_tunnel.Base.Int.{ℤ, pos, leb_ℤ, ltb_ℤ}
use go_tunnel.Base.Decimal.{atoi}
use go_tunnel.Base.Result.{Result, ok, err}
use Types.{Config, ClientConfig}

unfoldable pub defaults : Config
defaults = record {
  server = record {
    listen_http = bytes ":80";
    listen_https = bytes ":443";
    gateway_host = bytes "0.0.0.0";
    public_hostname = [];
    allowed_domains = [];
    tls = record {
      enabled = true;
      auto_lets_encrypt = false;
      cert_dir = bytes "/var/lib/gotunnel/certs";
      acme = record { email = []; staging = false };
    };
  };
  auth = record {
    token_signing_key = [];
    token_ttl_minutes = pos 525600;
    enable_jwt = true;
    jwt_issuer = bytes "gotunnel";
    jwt_audience = bytes "gotunnel-clients";
  };
  storage = record {
    kind = bytes "memory";
    redis = record { addr = bytes "127.0.0.1:6379"; db = pos 0; password = [] };
    postgres = record { dsn = [] };
  };
  registry = record {
    reserved_subdomains = [];
    default_ttl_seconds = pos 3600;
    max_subdomain_length = pos 32;
  };
  limits = record {
    max_tunnels_per_user = pos 10;
    max_bandwidth_per_tunnel_mbps = pos 100;
    max_concurrent_streams_per_tunnel = pos 256;
    request_rate_per_ip_per_min = pos 600;
  };
  logging = record { level = bytes "info"; format = bytes "json"; file = [] };
  metrics = record { enabled = true; bind_addr = bytes ":9090" };
  security = record {
    ip_blacklist = [];
    ip_whitelist = [];
    enable_mtls = false;
    mtls = record { ca_cert_file = [] };
  };
}

unfoldable pub client_defaults : ClientConfig
client_defaults = record {
  client = record {
    gateway_url = [];
    token = [];
    local_bind = bytes "127.0.0.1";
    tunnels = [];
    reconnect = record { max_retries = pos 0; backoff_ms = pos 1000 };
    heartbeat_seconds = pos 10;
    tls = record { skip_verify = false; ca_file = bytes "/etc/ssl/certs/ca-certificates.crt" };
  };
}

-- A setting that a variable of the environment overrides unless it is empty, as it is when unset.
abbrev pub overridden : Bytes → Bytes → Bytes
overridden v old = if v == [] then old else v

unfoldable pub is_port : Option ℤ → Bool
is_port none = false
is_port (some p) = ltb_ℤ (pos 0) p && leb_ℤ p (pos 65535)

abbrev pub log_level : Bytes
log_level = bytes "GOTUNNEL_LOG_LEVEL"

abbrev pub storage_type : Bytes
storage_type = bytes "GOTUNNEL_STORAGE_TYPE"

abbrev pub redis_addr : Bytes
redis_addr = bytes "GOTUNNEL_REDIS_ADDR"

abbrev pub auth_key : Bytes
auth_key = bytes "GOTUNNEL_AUTH_KEY"

abbrev pub port : Bytes
port = bytes "PORT"

-- The environment: os.Getenv.
unfoldable pub apply_server_env : (Bytes → Bytes) → Config → Config
unfolding is_port
apply_server_env getenv cfg = record cfg {
  logging = record cfg.logging { level = overridden (getenv log_level) cfg.logging.level };
  storage = record cfg.storage {
    kind = overridden (getenv storage_type) cfg.storage.kind;
    redis = record cfg.storage.redis {
      addr = overridden (getenv redis_addr) cfg.storage.redis.addr;
    };
  };
  auth = record cfg.auth {
    token_signing_key = overridden (getenv auth_key) cfg.auth.token_signing_key;
  };
  server = record cfg.server {
    listen_https =
        if is_port (atoi (getenv port)) then b':' ∷ getenv port else cfg.server.listen_https;
  };
}

pub data ConfigError : Type 0 where
  read_file parse_yaml : ConfigError

-- What the loader has of the machine; `yaml` decodes a file over a configuration.
pub record Machine (C : Type 0) : Type 0 where
  pub getenv : Bytes → Bytes
  pub files : Bytes → Option Bytes
  pub yaml : Bytes → C → Option C

module _ {C : Type 0} (machine : Machine C) where
  unfoldable pub read_yaml : C → Option Bytes → Result ConfigError C
  read_yaml cfg none = err read_file
  read_yaml cfg (some content) = elim (machine.yaml content cfg) [
    | none ↦ err parse_yaml
    | some c ↦ ok c
  ]

  -- The path that is read, empty for none.
  abbrev pub config_path : Bytes → Bytes
  config_path path = if path == [] then machine.getenv (bytes "GOTUNNEL_CONFIG") else path

  unfoldable pub load_file : C → Bytes → Result ConfigError C
  unfolding read_yaml
  load_file cfg path = if path == [] then ok cfg else read_yaml cfg (machine.files path)

abbrev with_env : (Bytes → Bytes) → Result ConfigError Config → Result ConfigError Config
with_env getenv (ok cfg) = ok (apply_server_env getenv cfg)
with_env getenv (err e) = err e

unfoldable pub load : Machine Config → Bytes → Result ConfigError Config
load machine path = with_env machine.getenv (load_file machine defaults (config_path machine path))

unfoldable pub load_client_config : Machine ClientConfig → Bytes → Result ConfigError ClientConfig
load_client_config machine path = load_file machine client_defaults (config_path machine path)
