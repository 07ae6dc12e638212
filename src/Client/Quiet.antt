-- ===== src/Client/Quiet.antt =====
-- The streams that a client has pending are those of its handlers.
use go_tunnel.Base.{
  Bool, sym, ap, ◌∙◌, ℕ, Bytes, false, Option, none, some, List, [], ◌∷◌, ◌++◌, ◌||◌, map, ◌≡◌,
  refl, arith, inl, inr, Option-cases, Bool-cases, bytes_eq, nat_eq, ◌==◌,
}
use mathlib.Core.List.{map-append}
use go_tunnel.Base.Member.{contains, contains-append}
use go_tunnel.Base.Result.{Result, ok, err}
use go_tunnel.GoMap
use go_tunnel.GoMap.{GoMap}
use go_tunnel.Config.Types.{ClientSettings}
use go_tunnel.Protocol.{OpenStream, frame_open_stream, frame_stream_data}
use go_tunnel.Protocol.Frame.{FrameError, decode_frame, decode_control_message}
use go_tunnel.Server.{Codecs}
use go_tunnel.Client.Session.{
  Client, new_client, deliver_at, deliver_stream_data, handle_data, dispatch, read_message,
  read_failed, close, reset,
}
use go_tunnel.Client.Handler.{Setup, begin, leave}
use go_tunnel.Client.Ended.{OnlySends-forward}
use go_tunnel.Client.Steps.{
  System, Stage, waiting, calling, leaving, Step, Reach, reads, begins, receives, stops_early,
  times_out, calls, leaves, drops, closes, reconnects, here, next, after_read, initial, replaced,
}

abbrev OnlyDelivers : Client → Client → Type 0
OnlyDelivers c c' = (m : GoMap ℕ (List Bytes)) × (c' ≡ record c { channels = m })

OnlyDelivers-deliver_at :
    (c : Client) (a : ℕ) (found : Option (List Bytes)) (d : Bytes)
    → OnlyDelivers c (deliver_at c a found d)
unfolding deliver_at
OnlyDelivers-deliver_at c a none d = (c.channels, refl)
OnlyDelivers-deliver_at c a (some []) d = (GoMap.put c.channels a (d ∷ []), refl)
OnlyDelivers-deliver_at c a (some (m ∷ ms)) d = (c.channels, refl)

module _ (codecs : Codecs) where
  OnlyDelivers-handle_data :
      (c : Client) (payload : Bytes) → OnlyDelivers c (handle_data codecs c payload)
  unfolding handle_data deliver_stream_data
  OnlyDelivers-handle_data c payload =
      elim (Option-cases (decode_control_message codecs.stream_data payload)) [
        | inl bad ↦ (c.channels, rw (bad, handle_data) refl)
        | inr (sd, good) ↦ elim (Option-cases (GoMap.get c.pending sd.stream_id)) [
          | inl missing ↦
              (c.channels, rw (good, handle_data) (rw (missing, deliver_stream_data) refl))
          | inr (a, found) ↦
              let (m, e) = OnlyDelivers-deliver_at c a (GoMap.get c.channels a) sd.content in
              (m, rw (good, handle_data) (rw (found, deliver_stream_data) e))
        ]
      ]

  OnlyDelivers-dispatch :
      (c : Client) (frame : Result FrameError (ℕ × Bytes))
      → OnlyDelivers c (dispatch codecs c frame).0
  unfolding dispatch
  OnlyDelivers-dispatch c (err e) = (c.channels, refl)
  OnlyDelivers-dispatch c (ok (t, payload)) =
      let (m, e) = OnlyDelivers-handle_data c payload in
      elim (Bool-cases (t == frame_open_stream)) [
        | inl opening ↦ (c.channels, rw opening refl)
        | inr other ↦ elim (Bool-cases (t == frame_stream_data)) [
          | inl carrying ↦ (m, rw (other, carrying) e)
          | inr neither ↦ (c.channels, rw (other, neither) refl)
        ]
      ]

abbrev id_of : OpenStream × Stage → Bytes
id_of (os, stage) = os.stream_id

-- The ids of the streams whose handlers run.
abbrev pub running_ids : System → List Bytes
running_ids s = map id_of s.running

abbrev pub Inv : System → Type 0
Inv s = (id : Bytes) → contains (running_ids s) id ≡ false → GoMap.get s.client.pending id ≡ none

ids_split :
    (xs ys : List (OpenStream × Stage)) (os : OpenStream) (stage : Stage) (id : Bytes)
    → contains (map id_of (xs ++ (os, stage) ∷ ys)) id
      ≡ (os.stream_id == id || contains (map id_of (xs ++ ys)) id)
ids_split xs ys os stage id = ground (
  arith,
  map-append id_of xs ((os, stage) ∷ ys),
  map-append id_of xs ys,
  contains-append (map id_of xs) (map id_of ((os, stage) ∷ ys)) id,
  contains-append (map id_of xs) (map id_of ys) id,
)

-- A handler that goes to another stage keeps its id.
ids_staged :
    (l xs ys : List (OpenStream × Stage)) (os : OpenStream) (before after : Stage) (id : Bytes)
    → l ≡ xs ++ (os, before) ∷ ys
    → contains (map id_of (xs ++ (os, after) ∷ ys)) id ≡ contains (map id_of l) id
ids_staged l xs ys os before after id e =
    ids_split xs ys os after id
    ∙ sym (ids_split xs ys os before id)
    ∙ ap (λ k. contains (map id_of k) id) (sym e)

ids_replaced :
    (done : Bool) (l : List (OpenStream × Stage)) → map id_of (map (replaced done) l) ≡ map id_of l
ids_replaced done [] = refl
ids_replaced done ((os, waiting a dropped) ∷ l) = ap (λ k. os.stream_id ∷ k) (ids_replaced done l)
ids_replaced done ((os, calling m) ∷ l) = ap (λ k. os.stream_id ∷ k) (ids_replaced done l)
ids_replaced done ((os, leaving) ∷ l) = ap (λ k. os.stream_id ∷ k) (ids_replaced done l)

module _ (setup : Setup) where
  Step-Inv : (s t : System) → Step setup s t → Inv s → Inv t
  unfolding after_read read_message begin read_failed close leave reset
  Step-Inv s t (reads raw e) v id out =
      let (m, f) = OnlyDelivers-dispatch setup.codecs s.client (decode_frame raw).0 in
      let k = v id (rw e at out) in rw (e, f) k
  Step-Inv s t (begins xs ys os started e) v id out =
      let there = rw e at out in
      let k : contains (running_ids s) id ≡ false = ground arith in
      let put = GoMap.get-put s.client.pending os.stream_id id s.client.next_channel in
      rw e (ground (arith, put, v id k))
  Step-Inv s t (receives xs ys os a dropped m ms runs full e) v id out =
      let there = rw e at out in
      let same = ids_staged s.running xs ys os (waiting a dropped) (calling m) id runs in
      rw e (v id (sym same ∙ there))
  Step-Inv s t (stops_early xs ys os a dropped runs ready e) v id out =
      let there = rw e at out in
      let same = ids_staged s.running xs ys os (waiting a dropped) leaving id runs in
      rw e (v id (sym same ∙ there))
  Step-Inv s t (times_out xs ys os a dropped runs e) v id out =
      let there = rw e at out in
      let same = ids_staged s.running xs ys os (waiting a dropped) leaving id runs in
      rw e (v id (sym same ∙ there))
  Step-Inv s t (calls xs ys os m local runs e) v id out =
      let there = rw e at out in
      let (l, f) = OnlySends-forward setup local s.client os m in
      let same = ids_staged s.running xs ys os (calling m) leaving id runs in
      rw (e, f) (v id (sym same ∙ there))
  Step-Inv s t (leaves xs ys os runs e) v id out =
      let there = rw e at out in
      let gone = GoMap.get-delete s.client.pending os.stream_id id in
      let before : contains (running_ids s) id
          ≡ (os.stream_id == id || contains (map id_of (xs ++ ys)) id) =
        rw runs (ids_split xs ys os leaving id) in
      rw e (ground (arith, gone, before, v id))
  Step-Inv s t (drops e) v id out = let k = v id (rw e at out) in rw e k
  Step-Inv s t (closes e) v id out = let k = v id (rw e at out) in rw e k
  Step-Inv s t (reconnects e) v id out = rw e (GoMap.get-empty {V = ℕ} id)

  new_client-Inv : (settings : ClientSettings) → Inv (initial settings)
  unfolding new_client
  new_client-Inv settings id out = GoMap.get-empty id

  -- In every state that the client comes to, over any number of connections, whatever it reads and
  -- however its handlers are delayed, and even if the gateway uses a stream's id twice: a stream that
  -- is pending is one that a handler still works on, from the start of its wait to its deferred call.
  pub pending-running :
      (settings : ClientSettings) (s : System) (id : Bytes)
      → Reach setup (initial settings) s
      → contains (running_ids s) id ≡ false
      → GoMap.get s.client.pending id ≡ none
  pending-running settings s id r out = reached s r id out
    where
      reached : (t : System) → Reach setup (initial settings) t → Inv t
      reached t here = new_client-Inv settings
      reached t (next {t = before} q st) = Step-Inv before t st (reached before q)
