-- ===== src/Client/Reconnect.antt =====
-- internal/client/client.go: Run, which reconnects with a backoff. What happens in a round (whether
-- Connect succeeds, and whether the client is closed before or during the wait) is the input; a
-- connection that succeeded has dropped when its round goes on.
pub mod Rows
use Prim.Native.Nat.{min}
use native.Mathlib.Nat.{pow-le-pow_right, mul-le-mul_left, min-le_right}
use go_tunnel.Base.{
  ◌++◌, ◌⊎◌, ap, refl, ℕ, zero, suc, ◌+◌, ◌-◌, ◌*◌, ◌^◌, ◌≤◌, ◌<◌, Bool, false, ◌&&◌, List, [], ◌∷◌,
  arith, ◌≡◌, if◌then◌else◌, length, ◌≢◌, Bool-cases, inl, inr,
}
use go_tunnel.Base.Int.{ℤ, sub_ℕ, pos, leb_ℤ, ltb_ℤ, ◌*ℤ◌, wrap64}
use go_tunnel.GoTime

pub record Round : Type 0 where
  pub connected : Bool
  pub closed_before : Bool
  pub closed_waiting : Bool

-- Run returned nil, or its error; or it is still running when the rounds end.
pub data RunEnd : Type 0 where
  stopped gave_up running : RunEnd

unfoldable pub base_backoff : ℤ → ℤ
base_backoff backoff_ms = if leb_ℤ backoff_ms (pos 0) then pos 1000 else backoff_ms

abbrev pub shift : ℕ → ℕ
shift attempt = min (attempt - 1) 10

-- The wait behind an attempt, in nanoseconds.
unfoldable pub wait : ℤ → ℕ → ℤ
wait backoff_ms attempt =
    GoTime.duration (GoTime.duration backoff_ms GoTime.millisecond) (pos (2 ^ shift attempt))

abbrev waited : ℤ → List ℤ × RunEnd → List ℤ × RunEnd
waited w (ws, end) = (w ∷ ws, end)

-- The loop with the number of attempts so far: the waits that were begun, and how it ended.
unfoldable pub run_loop : ℤ → ℤ → ℕ → List Round → List ℤ × RunEnd
run_loop max_retries backoff_ms attempt [] = ([], running)
run_loop max_retries backoff_ms attempt (r ∷ rounds) =
    let next = suc (if r.connected then 0 else attempt) in
    let later = run_loop max_retries backoff_ms next rounds in
    if r.closed_before
    then ([], stopped)
    else if ltb_ℤ (pos 0) max_retries && leb_ℤ max_retries (pos next)
    then ([], gave_up)
    else if r.closed_waiting
    then (wait backoff_ms next ∷ [], stopped)
    else waited (wait backoff_ms next) later

unfoldable pub run : ℤ → ℤ → List Round → List ℤ × RunEnd
unfolding run_loop base_backoff
run max_retries backoff_ms rounds = run_loop max_retries (base_backoff backoff_ms) 0 rounds

abbrev pub failing : Round
failing = record { connected = false; closed_before = false; closed_waiting = false }

-- So many rounds in which the gateway cannot be reached.
abbrev pub unreachable : ℕ → List Round
unreachable zero = []
unreachable (suc n) = failing ∷ unreachable n

-- Waits from an attempt on, in nanoseconds: each is twice the one before, up to 1024 times the base.
abbrev pub doubling : ℕ → ℕ → ℕ → List ℤ
doubling backoff_ms attempt zero = []
doubling backoff_ms attempt (suc n) =
    pos (backoff_ms * 1000000 * 2 ^ shift attempt) ∷ doubling backoff_ms (suc attempt) n

duration_exact : (a u : ℕ) → a * u < 2 ^ 63 → GoTime.duration (pos a) (pos u) ≡ pos (a * u)
unfolding GoTime.duration ◌*ℤ◌ wrap64
duration_exact a u small =
    let n = a * u in
    let whole : sub_ℕ (a * u + 0) (a * 0 + 0 * u) ≡ pos n = ground arith in rw whole (ground arith)

wait_exact :
    (b attempt : ℕ)
    → b * 1000000 * 1024 < 2 ^ 63
    → wait (pos b) attempt ≡ pos (b * 1000000 * 2 ^ shift attempt)
unfolding wait
wait_exact b attempt small =
    let power : 2 ^ shift attempt ≤ 1024 =
      pow-le-pow_right {n = 2} (omega arith) {i = shift attempt} {j = 10}
        (min-le_right (attempt - 1) 10) in
    let fits : b * 1000000 * 2 ^ shift attempt ≤ b * 1000000 * 1024 =
      mul-le-mul_left (b * 1000000) power in
    rw (duration_exact b 1000000 (omega arith))
      (duration_exact (b * 1000000) (2 ^ shift attempt) (omega arith))

loop_unreachable :
    (b limit attempt n m : ℕ)
    → b * 1000000 * 1024 < 2 ^ 63
    → attempt + suc n ≡ limit
    → suc n ≤ m
    → run_loop (pos limit) (pos b) attempt (unreachable m) ≡ (doubling b (suc attempt) n, gave_up)
unfolding run_loop
loop_unreachable b limit attempt n zero small e h = absurd (omega arith)
loop_unreachable b limit attempt zero (suc m) small e h = ground arith
loop_unreachable b limit attempt (suc n) (suc m) small e h = ground (
  arith,
  wait_exact b (suc attempt) small,
  loop_unreachable b limit (suc attempt) n m small (omega arith) (omega arith),
)

-- While the gateway cannot be reached, a client with a limit of n + 1 retries gives up after n + 1
-- attempts. It waits n times, at first for its base backoff, then each time for twice as long as before, but
-- for 1024 times the base at most; the condition on the base keeps every wait within an int64.
pub run-unreachable :
    (b n m : ℕ)
    → 0 < b
    → b * 1000000 * 1024 < 2 ^ 63
    → suc n ≤ m
    → run (pos (suc n)) (pos b) (unreachable m) ≡ (doubling b 1 n, gave_up)
unfolding run base_backoff
run-unreachable b n m positive small h =
    rw (based b positive) (loop_unreachable b (suc n) 0 n m small (omega arith) h)
  where
    based : (b : ℕ) → 0 < b → base_backoff (pos b) ≡ pos b
    based b positive = ground arith
