-- ===== src/Client/Reconnect/Rows.antt =====
-- When Run gives up: after a row of failures as long as its limit, and then only.
use go_tunnel.Base.{
  ◌++◌, ◌⊎◌, ap, refl, ℕ, suc, ◌+◌, ◌≤◌, ◌<◌, false, List, [], ◌∷◌, arith, ◌≡◌, if◌then◌else◌,
  length, ◌≢◌, Bool-cases, inl, inr,
}
use go_tunnel.Base.Int.{ℤ, pos, leb_ℤ}
use go_tunnel.Client.Reconnect.{Round, running, gave_up, run_loop, run, base_backoff}

-- Rounds in none of which the client connects.
abbrev pub NeverConnects : List Round → Type 0
NeverConnects [] = Unit {0}
NeverConnects (r ∷ rounds) = (r.connected ≡ false) × NeverConnects rounds

-- So many rounds fail to connect, the first of them perhaps after a connection that dropped: the round
-- in which a connection drops counts as the first attempt of the next one.
abbrev pub InARow : ℕ → List Round → Type 0
InARow limit rounds =
    (before : List Round) × (first : Round) × (tries : List Round) × (after : List Round) × (rounds
      ≡ before ++ first ∷ tries ++ after)
    × NeverConnects tries
    × (suc (length tries) ≡ limit)

tries_end :
    (limit : ℕ) (backoff_ms : ℤ) (attempt : ℕ) (tries after : List Round)
    → attempt < limit
    → NeverConnects tries
    → limit ≤ attempt + length tries
    → (run_loop (pos limit) backoff_ms attempt (tries ++ after)).1 ≢ running
unfolding run_loop
tries_end limit b attempt [] after small never enough h = absurd (omega arith)
tries_end limit b attempt (r ∷ tries) after small never enough h =
    elim (Bool-cases r.closed_before) [
      | inl stops ↦ ground arith
      | inr goes ↦ elim (Bool-cases (leb_ℤ (pos limit) (pos (suc attempt)))) [
        | inl last ↦ ground arith
        | inr more ↦ ground (
          arith,
          tries_end limit b (suc attempt) tries after (ground arith) never.1 (ground arith),
        )
      ]
    ]

-- One round, if what comes behind it ends.
round_ends :
    (limit : ℕ) (backoff_ms : ℤ) (attempt : ℕ) (r : Round) (rounds : List Round)
    → 0 < limit
    → let next = suc (if r.connected then 0 else attempt) in
      (next < limit → (run_loop (pos limit) backoff_ms next rounds).1 ≢ running)
      → (run_loop (pos limit) backoff_ms attempt (r ∷ rounds)).1 ≢ running
unfolding run_loop
round_ends limit b attempt r rounds positive later h =
    let next = suc (if r.connected then 0 else attempt) in
    elim (Bool-cases (leb_ℤ (pos limit) (pos next))) [
      | inl last ↦ ground arith
      | inr more ↦ let ends = later (ground arith) in ground arith
    ]

row_ends :
    (limit : ℕ) (backoff_ms : ℤ) (attempt : ℕ) (before tries after : List Round) (first : Round)
    → 0 < limit
    → NeverConnects tries
    → limit ≤ suc (length tries)
    → (run_loop (pos limit) backoff_ms attempt (before ++ first ∷ tries ++ after)).1 ≢ running
row_ends limit b attempt [] tries after first positive never enough =
    let next = suc (if first.connected then 0 else attempt) in
    round_ends limit b attempt first (tries ++ after) positive
      (λ small. tries_end limit b next tries after small never (omega arith))
row_ends limit b attempt (r ∷ before) tries after first positive never enough =
    let next = suc (if r.connected then 0 else attempt) in
    round_ends limit b attempt r (before ++ first ∷ tries ++ after) positive
      (λ small. row_ends limit b next before tries after first positive never enough)

-- The rounds begin with failures that reach the limit.
abbrev FailsAtOnce : ℕ → ℕ → List Round → Type 0
FailsAtOnce limit attempt rounds =
    (tries : List Round) × (after : List Round) × (rounds ≡ tries ++ after)
    × NeverConnects tries
    × (attempt + length tries ≡ limit)

last_failure :
    (limit attempt : ℕ) (r : Round) (rounds : List Round)
    → attempt < limit
    → limit ≤ suc (if r.connected then 0 else attempt)
    → FailsAtOnce limit attempt (r ∷ rounds) ⊎ InARow limit (r ∷ rounds)
last_failure limit attempt r rounds small last = elim (Bool-cases r.connected) [
  | inl connects ↦ inr ([], r, [], rounds, refl, tt, ground arith)
  | inr fails ↦ inl (r ∷ [], rounds, refl, (fails, tt), ground arith)
]

earlier_round :
    (limit attempt : ℕ) (r : Round) (rounds : List Round)
    → FailsAtOnce limit (suc (if r.connected then 0 else attempt)) rounds ⊎ InARow limit rounds
    → FailsAtOnce limit attempt (r ∷ rounds) ⊎ InARow limit (r ∷ rounds)
earlier_round limit attempt r rounds (inr (before, first, tries, after, e, never, n)) =
    inr (r ∷ before, first, tries, after, ap (λ l. r ∷ l) e, never, n)
earlier_round limit attempt r rounds (inl (tries, after, e, never, n)) =
    elim (Bool-cases r.connected) [
      | inl connects ↦ inr ([], r, tries, after, ap (λ l. r ∷ l) e, never, ground arith)
      | inr fails ↦ inl (r ∷ tries, after, ap (λ l. r ∷ l) e, (fails, never), ground arith)
    ]

loop_gave_up :
    (limit : ℕ) (backoff_ms : ℤ) (attempt : ℕ) (rounds : List Round)
    → attempt < limit
    → (run_loop (pos limit) backoff_ms attempt rounds).1 ≡ gave_up
    → FailsAtOnce limit attempt rounds ⊎ InARow limit rounds
unfolding run_loop
loop_gave_up limit b attempt [] small h = cc
loop_gave_up limit b attempt (r ∷ rounds) small h =
    let next = suc (if r.connected then 0 else attempt) in
    elim (Bool-cases (leb_ℤ (pos limit) (pos next))) [
      | inl last ↦ last_failure limit attempt r rounds small (ground arith)
      | inr more ↦
          let later : (run_loop (pos limit) b next rounds).1 ≡ gave_up = ground arith in
          earlier_round limit attempt r rounds
            (loop_gave_up limit b next rounds (ground arith) later)
    ]

at_once-InARow :
    (limit : ℕ) (rounds : List Round) → 0 < limit → FailsAtOnce limit 0 rounds → InARow limit rounds
at_once-InARow limit rounds positive ([], after, e, never, n) = absurd (omega arith)
at_once-InARow limit rounds positive (r ∷ tries, after, e, never, n) =
    ([], r, tries, after, e, never.1, omega arith)

-- With a limit of retries, Run returns once so many rounds in a row have failed to connect, wherever
-- they stand among the rounds; and it gives up only then, so a connection in between starts the count
-- afresh. (The round in which a connection drops counts as the first of a row.)
pub run_ends :
    (limit : ℕ) (backoff_ms : ℤ) (rounds : List Round)
    → 0 < limit
    → (InARow limit rounds → (run (pos limit) backoff_ms rounds).1 ≢ running)
      × ((run (pos limit) backoff_ms rounds).1 ≡ gave_up → InARow limit rounds)
unfolding run
run_ends limit backoff_ms rounds positive =
    let b = base_backoff backoff_ms in
    (
      λ (before, first, tries, after, e, never, n).
          rw e (row_ends limit b 0 before tries after first positive never (omega arith)),
      λ h. elim (loop_gave_up limit b 0 rounds positive h) [
        | inl at_once ↦ at_once-InARow limit rounds positive at_once
        | inr row ↦ row
      ],
    )
