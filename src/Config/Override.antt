-- ===== src/Config/Override.antt =====
-- What the environment can change of the configuration.
use go_tunnel.Base.{Bytes, bytes, ◌≡◌, ◌≢◌, arith, bytes_eq, inl, inr, refl, ◌∷◌, if◌then◌else◌}
use go_tunnel.Base.Decimal.{atoi}
use go_tunnel.Base.Result.{ok, Result-cases}
use go_tunnel.Config.Types.{Config}
use go_tunnel.Config.{
  Machine, apply_server_env, is_port, port, log_level, storage_type, redis_addr, auth_key, load,
  load_file, read_yaml, config_path, defaults,
}

-- The address at which Start listens.
unfoldable pub listen_addr : Config → Bytes
listen_addr cfg = cfg.server.listen_http

abbrev pub with_https : Config → Bytes → Config
with_https cfg addr = record cfg { server = record cfg.server { listen_https = addr } }

-- Two environments that differ in PORT at most.
abbrev pub SamePlace : (Bytes → Bytes) → (Bytes → Bytes) → Type 0
SamePlace g h = (name : Bytes) → name ≢ port → h name ≡ g name

abbrev pub settled_in : Machine Config → (Bytes → Bytes) → Machine Config
settled_in machine getenv = record machine { getenv = getenv }

apply-SamePlace :
    (g h : Bytes → Bytes) (cfg : Config)
    → SamePlace g h
    → (addr : Bytes) × (apply_server_env h cfg ≡ with_https (apply_server_env g cfg) addr)
unfolding apply_server_env
apply-SamePlace g h cfg same = (
  (if is_port (atoi (h port)) then b':' ∷ h port else cfg.server.listen_https),
  rw
      (
        same log_level (λ e. ground arith),
        same storage_type (λ e. ground arith),
        same redis_addr (λ e. ground arith),
        same auth_key (λ e. ground arith),
      )
      refl,
)

load_file-SamePlace :
    (machine : Machine Config) (h : Bytes → Bytes) (path : Bytes)
    → SamePlace machine.getenv h
    → load_file (settled_in machine h) defaults (config_path (settled_in machine h) path)
      ≡ load_file machine defaults (config_path machine path)
unfolding load_file read_yaml
load_file-SamePlace machine h path same =
    rw (same (bytes "GOTUNNEL_CONFIG") (λ e. ground arith)) refl

-- If two environments differ in PORT at most and Load gives a configuration in one, it gives one in the
-- other too, and the two differ in the HTTPS address at most; the address that Start listens at, the
-- HTTP one, is the same.
pub load_without_port :
    (machine : Machine Config) (h : Bytes → Bytes) (path : Bytes) (cfg : Config)
    → ((name : Bytes) → name ≢ port → h name ≡ machine.getenv name)
    → load machine path ≡ ok cfg
    → (addr : Bytes) × (load (settled_in machine h) path ≡ ok (with_https cfg addr))
      × (listen_addr (with_https cfg addr) ≡ listen_addr cfg)
unfolding load listen_addr
load_without_port machine h path cfg same loaded =
    let file = load_file machine defaults (config_path machine path) in
    elim (Result-cases file) [
      | inl (c, e) ↦
          let (addr, changed) = apply-SamePlace machine.getenv h c same in
          let here : cfg ≡ apply_server_env machine.getenv c = ground (arith, e) in
          (addr, rw (load_file-SamePlace machine h path same, e) (rw (changed, here) refl), refl)
      | inr (x, e) ↦ let k : ⊥ = ground (arith, e) in absurd k
    ]
