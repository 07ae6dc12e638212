-- ===== src/Client/Steps.antt =====
-- internal/client/client.go: the read loop, its handlers and the resets of Run as steps of one system.
-- A handler that was started with `go` begins at some later step; between its wait, the call of the
-- local service and the deferred delete, every other step may come.
use go_tunnel.Base.{
  ℕ, Bytes, Bool, false, ◌||◌, Option, none, some, List, [], ◌∷◌, ◌++◌, map, ◌≡◌, true, ◌⊎◌,
  bytes_eq, nat_eq,
}
use go_tunnel.GoMap
use go_tunnel.Config.Types.{ClientSettings}
use go_tunnel.Protocol.{OpenStream}
use go_tunnel.Client.Session.{Client, new_client, read_message, read_failed, close, reset}
use go_tunnel.Client.Handler.{Setup, LocalCall, LocalAnswer, begin, forward, leave}

-- A handler waits on its channel, and whether the Done channel that it waits on belongs to a
-- connection that Run has replaced and was closed by then; or it has its request; or only its deferred
-- call is left.
pub data Stage : Type 0 where
  waiting : ℕ → Bool → Stage
  calling : Bytes → Stage
  leaving : Stage

-- The client, the handlers that have not begun yet, and those that have.
pub record System : Type 0 where
  pub client : Client
  pub started : List OpenStream
  pub running : List (OpenStream × Stage)

abbrev pub queued : Option OpenStream → List OpenStream → List OpenStream
queued none handlers = handlers
queued (some os) handlers = handlers ++ os ∷ []

-- What a reset of the connection means for a handler.
abbrev pub replaced : Bool → OpenStream × Stage → OpenStream × Stage
replaced done (os, waiting a dropped) = (os, waiting a (dropped || done))
replaced done (os, calling m) = (os, calling m)
replaced done (os, leaving) = (os, leaving)

module _ (setup : Setup) where
  unfoldable pub after_read : System → Bytes → System
  after_read s raw =
      let (c, os) = read_message setup.codecs s.client raw in
      record s { client = c; started = queued os s.started }

  -- A message is read; a handler begins, receives its request, ends its wait in another way (its Done
  -- channel or the client is closed, or 30 seconds are over), calls the local service and answers, or
  -- leaves; the connection drops; the client is closed; Run sets the connection up afresh.
  pub data Step (s : System) (t : System) : Type 0 where
    reads : (raw : Bytes) → t ≡ after_read s raw → Step s t
    begins :
        (xs ys : List OpenStream) (os : OpenStream)
        → s.started ≡ xs ++ os ∷ ys
        → t ≡ record s {
          client = (begin s.client os.stream_id).0;
          started = xs ++ ys;
          running = (os, waiting (begin s.client os.stream_id).1 false) ∷ s.running;
        }
        → Step s t
    receives :
        (xs ys : List (OpenStream × Stage)) (os : OpenStream) (a : ℕ) (dropped : Bool) (m : Bytes)
        (ms : List Bytes)
        → s.running ≡ xs ++ (os, waiting a dropped) ∷ ys
        → GoMap.get s.client.channels a ≡ some (m ∷ ms)
        → t ≡ record s {
          client = record s.client { channels = GoMap.put s.client.channels a ms };
          running = xs ++ (os, calling m) ∷ ys;
        }
        → Step s t
    stops_early :
        (xs ys : List (OpenStream × Stage)) (os : OpenStream) (a : ℕ) (dropped : Bool)
        → s.running ≡ xs ++ (os, waiting a dropped) ∷ ys
        → ((dropped || s.client.done) ≡ true) ⊎ (s.client.closed ≡ true)
        → t ≡ record s { running = xs ++ (os, leaving) ∷ ys }
        → Step s t
    times_out :
        (xs ys : List (OpenStream × Stage)) (os : OpenStream) (a : ℕ) (dropped : Bool)
        → s.running ≡ xs ++ (os, waiting a dropped) ∷ ys
        → t ≡ record s { running = xs ++ (os, leaving) ∷ ys }
        → Step s t
    calls :
        (xs ys : List (OpenStream × Stage)) (os : OpenStream) (m : Bytes)
        (local : LocalCall → LocalAnswer)
        → s.running ≡ xs ++ (os, calling m) ∷ ys
        → t ≡ record s {
          client = forward setup local s.client os m;
          running = xs ++ (os, leaving) ∷ ys;
        }
        → Step s t
    leaves :
        (xs ys : List (OpenStream × Stage)) (os : OpenStream)
        → s.running ≡ xs ++ (os, leaving) ∷ ys
        → t ≡ record s { client = leave s.client os.stream_id; running = xs ++ ys }
        → Step s t
    drops : t ≡ record s { client = read_failed s.client } → Step s t
    closes : t ≡ record s { client = close s.client } → Step s t
    reconnects :
        t ≡ record s { client = reset s.client; running = map (replaced s.client.done) s.running }
        → Step s t

  pub data Reach (s : System) : System → Type 0 where
    here : Reach s s
    next : {t u : System} → Reach s t → Step t u → Reach s u

abbrev pub initial : ClientSettings → System
initial settings = record { client = new_client settings; started = []; running = [] }
