-- ===== src/Config/Types.antt =====
-- internal/config/config.go: the types of the configuration.
use go_tunnel.Base.{Bytes, Bool, List}
use go_tunnel.Base.Int.{ℤ}

pub record AcmeConfig : Type 0 where
  pub email : Bytes
  pub staging : Bool

pub record TlsConfig : Type 0 where
  pub enabled : Bool
  pub auto_lets_encrypt : Bool
  pub cert_dir : Bytes
  pub acme : AcmeConfig

pub record ServerConfig : Type 0 where
  pub listen_http : Bytes
  pub listen_https : Bytes
  pub gateway_host : Bytes
  pub public_hostname : Bytes
  pub allowed_domains : List Bytes
  pub tls : TlsConfig

pub record AuthConfig : Type 0 where
  pub token_signing_key : Bytes
  pub token_ttl_minutes : ℤ
  pub enable_jwt : Bool
  pub jwt_issuer : Bytes
  pub jwt_audience : Bytes

pub record RedisConfig : Type 0 where
  pub addr : Bytes
  pub db : ℤ
  pub password : Bytes

pub record PostgresConfig : Type 0 where
  pub dsn : Bytes

-- `kind` is the field `Type`.
pub record StorageConfig : Type 0 where
  pub kind : Bytes
  pub redis : RedisConfig
  pub postgres : PostgresConfig

pub record RegistryConfig : Type 0 where
  pub reserved_subdomains : List Bytes
  pub default_ttl_seconds : ℤ
  pub max_subdomain_length : ℤ

pub record LimitsConfig : Type 0 where
  pub max_tunnels_per_user : ℤ
  pub max_bandwidth_per_tunnel_mbps : ℤ
  pub max_concurrent_streams_per_tunnel : ℤ
  pub request_rate_per_ip_per_min : ℤ

pub record LoggingConfig : Type 0 where
  pub level : Bytes
  pub format : Bytes
  pub file : Bytes

pub record MetricsConfig : Type 0 where
  pub enabled : Bool
  pub bind_addr : Bytes

pub record MtlsConfig : Type 0 where
  pub ca_cert_file : Bytes

pub record SecurityConfig : Type 0 where
  pub ip_blacklist : List Bytes
  pub ip_whitelist : List Bytes
  pub enable_mtls : Bool
  pub mtls : MtlsConfig

pub record Config : Type 0 where
  pub server : ServerConfig
  pub auth : AuthConfig
  pub storage : StorageConfig
  pub registry : RegistryConfig
  pub limits : LimitsConfig
  pub logging : LoggingConfig
  pub metrics : MetricsConfig
  pub security : SecurityConfig

-- A tunnel of the client's configuration.
pub record ClientTunnel : Type 0 where
  pub name : Bytes
  pub port : ℤ
  pub protocol : Bytes
  pub subdomain : Bytes

pub record ReconnectConfig : Type 0 where
  pub max_retries : ℤ
  pub backoff_ms : ℤ

pub record ClientTlsConfig : Type 0 where
  pub skip_verify : Bool
  pub ca_file : Bytes

pub record ClientSettings : Type 0 where
  pub gateway_url : Bytes
  pub token : Bytes
  pub local_bind : Bytes
  pub tunnels : List ClientTunnel
  pub reconnect : ReconnectConfig
  pub heartbeat_seconds : ℤ
  pub tls : ClientTlsConfig

pub record ClientConfig : Type 0 where
  pub client : ClientSettings
