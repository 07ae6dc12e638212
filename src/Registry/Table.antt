-- ===== src/Registry/Table.antt =====
-- The abstract view of internal/registry/registry.go: a table from subdomains to tunnels, and what
-- each call of the registry does to it.
pub mod Views
use go_tunnel.Base.{
  Bytes, Bool, true, false, ◌&&◌, ◌||◌, not, Option, none, some, List, [], ◌∷◌, arith, ◌≡◌, ◌↔◌,
  refl, sym, ap, ◌∙◌, inl, inr, ℕ, Option-cases, Bool-cases, bytes_eq, bytes_beq_iff, ◌==◌,
  if◌then◌else◌,
}
use go_tunnel.Base.{length}
use go_tunnel.Base.Member.{contains}
use go_tunnel.Base.Int.{ltb_ℤ, ℤ, pos, int_eq}
use go_tunnel.Base.Result.{Result, ok, err}
use go_tunnel.GoMap
use go_tunnel.Registry.{
  Tunnel, MemoryRegistry, RegistryError, tunnel_not_found, register, unregister, update_heartbeat,
  clean_expired, get_by_subdomain, is_expired, too_long, with_ttl, insert_tunnel, remove_tunnel,
  clean_loop,
}
use go_tunnel.Registry.Invariant.{
  Inv, register-Inv, register-cases, with_ttl-fields, unregister-Inv, update_heartbeat-Inv,
}
use go_tunnel.Registry.Clean.{by_test, clean_expired_lem, clean_expired-Inv}

-- The abstract table.
abbrev pub Directory : Type 0
Directory = Bytes → Option Tunnel

-- A call of a method that changes the registry.
pub data Call : Type 0 where
  registers : Tunnel → Call
  unregisters : Bytes → Call
  beats : Bytes → ℤ → Call
  expires : ℤ → Call

unfoldable pub call : MemoryRegistry → Call → MemoryRegistry
call r (registers t) = (register r t).0
call r (unregisters id) = (unregister r id).0
call r (beats id now) = (update_heartbeat r id now).0
call r (expires now) = (clean_expired r now).0

-- Which subdomains are refused to everyone, and the default TTL.
pub record Rules : Type 0 where
  pub refuses : Bytes → Bool
  pub ttl : ℤ

abbrev pub keep_unless : (Tunnel → Bool) → Option Tunnel → Option Tunnel
keep_unless p none = none
keep_unless p (some t) = if p t then none else some t

abbrev pub touched : Bytes → ℤ → Option Tunnel → Option Tunnel
touched id now none = none
touched id now (some t) = if t.id == id then some (record t { last_heartbeat_at = now }) else some t

abbrev pub is_free : Option Tunnel → Bool
is_free none = true
is_free (some t) = false

abbrev pub filled : ℤ → Tunnel → Tunnel
filled ttl t = if t.ttl == pos 0 then record t { ttl = ttl } else t

-- The table accepts a tunnel: its subdomain is not refused and is free.
abbrev pub admits : Rules → Directory → Tunnel → Bool
admits rules d t = not (rules.refuses t.subdomain) && is_free (d t.subdomain)

-- What a call does to the table.
abbrev pub change : Rules → Directory → Call → Directory
change rules d (registers t) sub =
    if admits rules d t && t.subdomain == sub then some (filled rules.ttl t) else d sub
change rules d (unregisters id) sub = keep_unless (λ t. t.id == id) (d sub)
change rules d (beats id now) sub = touched id now (d sub)
change rules d (expires now) sub = keep_unless (is_expired now) (d sub)

abbrev pub is_some {ℓ} : {A : Type ℓ} → Option A → Bool
is_some none = false
is_some (some a) = true

abbrev pub rules_of : MemoryRegistry → Rules
rules_of r = record {
  refuses = λ sub. is_some (GoMap.get r.reserved_subdomains sub) || too_long r sub;
  ttl = r.default_ttl;
}

-- The rules of a new registry: the configured subdomains and those above the limit, where it is
-- positive, are refused.
abbrev pub configured : List Bytes → ℤ → ℤ → Rules
configured reserved longest ttl = record {
  refuses =
      λ sub. contains reserved sub || (ltb_ℤ (pos 0) longest && ltb_ℤ longest (pos (length sub)));
  ttl = ttl;
}

abbrev pub bare : Directory
bare sub = none

abbrev pub looked_up : Option Tunnel → Result RegistryError (Option Tunnel)
looked_up none = err tunnel_not_found
looked_up (some t) = ok (some t)

abbrev pub view : MemoryRegistry → Directory
view r sub = elim (GoMap.get r.subdomain_index sub) [
  | none ↦ none
  | some id ↦ GoMap.get r.tunnels id
]

-- Under which calls nothing but a registration under an id in use can go wrong.
unfoldable pub IsFresh : MemoryRegistry → Call → Type 0
IsFresh r (registers t) = GoMap.get r.tunnels t.id ≡ none
IsFresh r (unregisters id) = Unit
IsFresh r (beats id now) = Unit
IsFresh r (expires now) = Unit

unfoldable pub run : MemoryRegistry → List Call → MemoryRegistry
run r [] = r
run r (c ∷ calls) = run (call r c) calls

-- Every registration in a list of calls is under an id that is not in use when it is made.
unfoldable pub AreFresh : MemoryRegistry → List Call → Type 0
AreFresh r [] = Unit
AreFresh r (c ∷ calls) = IsFresh r c × AreFresh (call r c) calls

-- The same calls on the table.
abbrev pub changes : Rules → Directory → List Call → Directory
changes rules d [] = d
changes rules d (c ∷ calls) = changes rules (change rules d c) calls
