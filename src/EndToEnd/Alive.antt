-- ===== src/EndToEnd/Alive.antt =====
-- internal/client/client.go, heartbeatLoop, against internal/server/server.go, handleHeartbeat, and
-- internal/registry/registry.go, UpdateHeartbeat and CleanExpired: what a heartbeat does to the tunnels.
use go_tunnel.Base.{
  ℕ, suc, Bytes, Bool, true, false, Option, some, List, [], ◌∷◌, ◌≡◌, refl, ◌∙◌, arith, bytes_eq,
  bytes_beq_iff, ◌==◌, inl, inr, Bool-cases, Option-cases,
}
use go_tunnel.Base.Int.{ℤ}
use go_tunnel.Base.Member.{contains}
use go_tunnel.Base.Result.{ok}
use go_tunnel.GoMap
use go_tunnel.Registry.{
  Tunnel, MemoryRegistry, update_heartbeat, is_expired, clean_expired, get_by_subdomain,
}
use go_tunnel.Registry.Invariant.{Inv, update_heartbeat-Inv}
use go_tunnel.Registry.Clean.{clean_expired_lem, clean_expired-Inv}
use go_tunnel.Registry.Table.Views.{beat-tunnels}
use go_tunnel.Protocol.{Heartbeat, frame_heartbeat}
use go_tunnel.Protocol.Frame.{Json, encode_frame}
use go_tunnel.Server.{Codecs, Server}
use go_tunnel.Server.Messages
use go_tunnel.Server.Messages.{dispatch, handle_message, handle_heartbeat}
use go_tunnel.Client.Session.{Client}
use go_tunnel.Client.Connect
use go_tunnel.Client.Connect.{Tick, heartbeat}
use go_tunnel.EndToEnd.{Survives, Survives-frame, Survives-encoded}

-- The server after the heartbeats, and its tunnels.
abbrev after : (ℕ → ℤ) → List Bytes → ℕ → Server → Server
after clock ids n s = Messages.heartbeat_loop clock ids n s

abbrev at_id : Server → Bytes → Option Tunnel
at_id s j = GoMap.get s.registry.tunnels j

abbrev beaten : Server → Bytes → ℤ → Server
beaten s id now = record s { registry = (update_heartbeat s.registry id now).0 }

after-Inv :
    (clock : ℕ → ℤ) (ids : List Bytes) (n : ℕ) (s : Server)
    → Inv s.registry
    → Inv (after clock ids n s).registry
unfolding Messages.heartbeat_loop
after-Inv clock [] n s v = v
after-Inv clock (id ∷ ids) n s v =
    after-Inv clock ids (suc n) (beaten s id (clock n))
      (update_heartbeat-Inv s.registry id (clock n) v)

untouched :
    (r : MemoryRegistry) (id j : Bytes) (now : ℤ)
    → Inv r
    → (id == j) ≡ false
    → GoMap.get (update_heartbeat r id now).0.tunnels j ≡ GoMap.get r.tunnels j
untouched r id j now v other = elim (Option-cases (GoMap.get r.tunnels j)) [
  | inl gone ↦ ground (arith, beat-tunnels r id j now v)
  | inr (t, here) ↦ ground (
    arith,
    beat-tunnels r id j now v,
    v.indexed j t here,
    bytes_beq_iff t.id id,
    bytes_beq_iff id j,
  )
]

strangers_kept :
    (clock : ℕ → ℤ) (ids : List Bytes) (n : ℕ) (s : Server) (j : Bytes)
    → Inv s.registry
    → contains ids j ≡ false
    → at_id (after clock ids n s) j ≡ at_id s j
unfolding Messages.heartbeat_loop
strangers_kept clock [] n s j v out = refl
strangers_kept clock (id ∷ ids) n s j v out =
    let v' = update_heartbeat-Inv s.registry id (clock n) v in
    strangers_kept clock ids (suc n) (beaten s id (clock n)) j v' (ground arith)
    ∙ untouched s.registry id j (clock n) v (ground arith)

beaten_again :
    (clock : ℕ → ℤ) (ids : List Bytes) (n m : ℕ) (s : Server) (j : Bytes) (t : Tunnel)
    → Inv s.registry
    → at_id s j ≡ some (record t { last_heartbeat_at = clock m })
    → (k : ℕ) × (at_id (after clock ids n s) j ≡ some (record t { last_heartbeat_at = clock k }))
unfolding Messages.heartbeat_loop
beaten_again clock [] n m s j t v here = (m, here)
beaten_again clock (id ∷ ids) n m s j t v here =
    let v' = update_heartbeat-Inv s.registry id (clock n) v in
    let beat = beat-tunnels s.registry id j (clock n) v in
    elim (Bool-cases (t.id == id)) [
      | inl hit ↦ beaten_again clock ids (suc n) n (beaten s id (clock n)) j t v' (ground arith)
      | inr miss ↦ beaten_again clock ids (suc n) m (beaten s id (clock n)) j t v' (ground arith)
    ]

all_beaten :
    (clock : ℕ → ℤ) (ids : List Bytes) (n : ℕ) (s : Server) (j : Bytes) (t : Tunnel)
    → Inv s.registry
    → contains ids j ≡ true
    → at_id s j ≡ some t
    → (k : ℕ) × (at_id (after clock ids n s) j ≡ some (record t { last_heartbeat_at = clock k }))
unfolding Messages.heartbeat_loop
all_beaten clock [] n s j t v there here = let k : ⊥ = ground arith in absurd k
all_beaten clock (id ∷ ids) n s j t v there here =
    let v' = update_heartbeat-Inv s.registry id (clock n) v in
    let beat = beat-tunnels s.registry id j (clock n) v in
    let own = (v.indexed j t here).0 in
    elim (Bool-cases (id == j)) [
      | inl hit ↦
          beaten_again clock ids (suc n) n (beaten s id (clock n)) j t v'
            (ground (arith, bytes_beq_iff id j, bytes_beq_iff t.id id))
      | inr miss ↦
          all_beaten clock ids (suc n) (beaten s id (clock n)) j t v' (ground arith)
            (ground (arith, bytes_beq_iff id j, bytes_beq_iff t.id id))
    ]

-- A tunnel that has not expired is left by the clean-up.
unexpired_kept :
    (r : MemoryRegistry) (now : ℤ) (j : Bytes) (t : Tunnel)
    → GoMap.get r.tunnels j ≡ some t
    → is_expired now t ≡ false
    → GoMap.get (clean_expired r now).0.tunnels j ≡ some t
unexpired_kept r now j t here young = ground (arith, (clean_expired_lem r now).0 j)

module _ (codecs : Codecs) (json : Json Heartbeat) where
  -- A heartbeat keeps a client's tunnels alive. Take a tick of the client's heartbeat loop whose
  -- message survives JSON, and a gateway with a well-formed registry that reads what the client
  -- then writes on a connection with the tunnel ids `ids`. It stamps every one of its tunnels with a
  -- time the clock showed, and no other tunnel changes; and where each such time is young enough for
  -- the tunnel's TTL, the next CleanExpired leaves the tunnel, and its subdomain leads to it.
  pub heartbeat_keeps :
      (c : Client) (tick : Tick) (chosen : Bool) (clock : ℕ → ℤ) (a : ℕ) (ids : List Bytes)
      (s : Server) (now : ℤ) (t : Tunnel)
      → Survives json (heartbeat tick.unix)
      → Inv s.registry
      → contains ids t.id ≡ true
      → GoMap.get s.registry.tunnels t.id ≡ some t
      → ((n : ℕ) → is_expired now (record t { last_heartbeat_at = clock n }) ≡ false)
      → (raw : Bytes) × (s' : Server) × (n : ℕ) × ((Connect.heartbeat_loop json c (tick ∷ [])).sent
          ≡ raw ∷ c.sent)
        × (handle_message codecs chosen clock a ids raw s ≡ some s')
        × (GoMap.get s'.registry.tunnels t.id ≡ some (record t { last_heartbeat_at = clock n }))
        × ((j : Bytes)
            → contains ids j ≡ false
            → GoMap.get s'.registry.tunnels j ≡ GoMap.get s.registry.tunnels j)
        × (get_by_subdomain (clean_expired s'.registry now).0 t.subdomain
            ≡ ok (some (record t { last_heartbeat_at = clock n })))
  unfolding handle_message dispatch handle_heartbeat get_by_subdomain Connect.heartbeat_loop
  heartbeat_keeps c tick chosen clock a ids s now t kept v own here young =
      let m = heartbeat tick.unix in
      let raw = encode_frame frame_heartbeat kept.payload in
      let encoded = Survives-encoded json m frame_heartbeat kept in
      let decoded = Survives-frame json m frame_heartbeat raw kept encoded in
      let s' = after clock ids 0 s in
      let (n, there) = all_beaten clock ids 0 s t.id t v own here in
      let u = record t { last_heartbeat_at = clock n } in
      let left = unexpired_kept s'.registry now t.id u there (young n) in
      let v'' = clean_expired-Inv s'.registry now (after-Inv clock ids 0 s v) in
      let indexed = (v''.indexed t.id u left).1 in
      (
        raw,
        s',
        n,
        ground (arith, encoded),
        rw (decoded, dispatch) refl,
        there,
        λ j out. strangers_kept clock ids 0 s j v out,
        ground arith,
      )
