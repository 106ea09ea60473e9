-- ===== src/Retry/Termination.antt =====
-- The loop ends: every round after the first waits for at least a minute.
use otomatik.Base.{
  All, ◌≢◌, ℕ, zero, suc, ◌+◌, ◌-◌, ◌*◌, ◌≤◌, ◌<◌, ◌≡◌, refl, false, List, [], ◌∷◌, Option, none,
  some, ltb, if◌then◌else◌, length, get_or, arith, Option-cases, inl, inr,
}
use otomatik.Base.Errors.{Error}
use otomatik.Retry.{
  minute, retry_intervals, max_retry_duration, interval, next_index, Effects, retry_loop,
  do_with_retry,
}

-- Time under the effects: it never runs backwards, a reading lies between the states, and a timer
-- that fires has taken its duration.
pub record Timed {S : Type 0} (x : Effects S) : Type 0 where
  pub time : S → ℕ
  pub clock_reads : (s : S) → (time s ≤ (x.clock s).0) × ((x.clock s).0 ≤ time (x.clock s).1)
  pub wait_lasts :
      (d : ℕ) (s : S)
      → (time s ≤ time (x.wait d s).1) × ((x.wait d s).0 ≡ false → time s + d ≤ time (x.wait d s).1)
  pub attempt_lasts : (n : ℕ) (s : S) → time s ≤ time (x.attempt n s).1

All-get_or : (P : ℕ → Type 0) (l : List ℕ) (i : ℕ) → All P l → i < length l → P (get_or l i 0)
All-get_or P [] i h b = absurd (omega arith)
All-get_or P (d ∷ l) zero h b = h.0
All-get_or P (d ∷ l) (suc i) h b = All-get_or P l i h.1 (omega arith)

-- The index stays inside the table, so that every interval lasts a minute.
abbrev InTable : Option ℕ → Type 0
InTable none = Unit
InTable (some i) = i < length retry_intervals

interval-ge-minute : (i : ℕ) → i < length retry_intervals → minute ≤ interval (some i)
unfolding interval
interval-ge-minute i h = All-get_or (λ d. minute ≤ d) retry_intervals i (omega arith) h

next_index-InTable :
    (o : Option ℕ) → InTable o → (i : ℕ) × (next_index o ≡ some i) × (i < length retry_intervals)
unfolding next_index
next_index-InTable none h = (0, refl, omega arith)
next_index-InTable (some i) h =
    (if ltb i (length retry_intervals - 1) then i + 1 else i, ground arith, ground arith)

module _ {S : Type 0} (x : Effects S) (law : Timed x) where
  -- The state after a round that failed, and after the two readings that follow it.
  after_round : Option ℕ → ℕ → S → S
  after_round o attempts s =
      (x.clock (x.clock (x.attempt attempts (x.wait (interval o) (x.clock s).1).1).1).1).1

  after_round-le :
      (o : Option ℕ) (attempts : ℕ) (s : S)
      → (x.wait (interval o) (x.clock s).1).0 ≡ false
      → law.time s + interval o ≤ law.time (after_round o attempts s)
  unfolding after_round
  after_round-le o attempts s fired =
      let s₁ = (x.clock s).1 in
      let s₂ = (x.wait (interval o) s₁).1 in
      let s₃ = (x.attempt attempts s₂).1 in
      omega (
        arith,
        law.clock_reads s,
        (law.wait_lasts (interval o) s₁).1 fired,
        law.attempt_lasts attempts s₂,
        law.clock_reads s₃,
        law.clock_reads (x.clock s₃).1,
      )

  -- A round returns, if the next one does where the test is passed and the timer fires.
  round_returns :
      (f start : ℕ) (o : Option ℕ) (attempts : ℕ) (err : Option Error) (s : S)
      → (law.time s < start + max_retry_duration
          → (x.wait (interval o) (x.clock s).1).0 ≡ false
          → (e : Error)
          → retry_loop x f start (next_index o) (attempts + 1) (some e) (after_round o attempts s)
            ≢ none)
      → retry_loop x (suc f) start o attempts err s ≢ none
  unfolding retry_loop after_round
  round_returns f start o attempts err s next =
      elim (Option-cases (x.attempt attempts (x.wait (interval o) (x.clock s).1).1).0) [
        | inl succeeded ↦ ground (arith, succeeded)
        | inr (e, failed) ↦ ground (
          arith,
          failed,
          law.clock_reads s,
          λ (p : law.time s < start + max_retry_duration)
                (q : (x.wait (interval o) (x.clock s).1).0 ≡ false).
              next p q e,
        )
      ]

  -- The fuel covers the time that is left, a minute a round.
  loop_returns :
      (f start i attempts : ℕ) (err : Option Error) (s : S)
      → i < length retry_intervals
      → start + max_retry_duration ≤ law.time s + f * minute
      → retry_loop x (suc f) start (some i) attempts err s ≢ none
  loop_returns zero start i attempts err s h b =
      round_returns zero start (some i) attempts err s (λ early _ e. absurd (omega arith))
  loop_returns (suc f) start i attempts err s h b =
      let (j, moved, fits) = next_index-InTable (some i) h in
      round_returns (suc f) start (some i) attempts err s λ early fired e. rw moved (
        loop_returns f start j (attempts + 1) (some e) (after_round (some i) attempts s) fits
          (omega (arith, after_round-le (some i) attempts s fired, interval-ge-minute i h)))

  first_round_returns :
      (f start : ℕ) (s : S)
      → start + max_retry_duration ≤ law.time s + f * minute
      → retry_loop x (suc (suc f)) start none 0 none s ≢ none
  unfolding next_index
  first_round_returns f start s b = round_returns (suc f) start none 0 none s λ early fired e.
      loop_returns f start 0 1 (some e) (after_round none 0 s) (omega arith)
        (omega (arith, after_round-le none 0 s fired))

  -- Under a clock that never runs backwards and timers that last, doWithRetry returns a result when it
  -- has fuel for 43,202 rounds: a round a minute over thirty days, and two more.
  pub do_with_retry_terminates :
      (fuel : ℕ) (s : S) → 43202 ≤ fuel → (r : Option Error × S) × (do_with_retry x fuel s ≡ some r)
  unfolding do_with_retry
  do_with_retry_terminates zero s h = absurd (omega arith)
  do_with_retry_terminates (suc zero) s h = absurd (omega arith)
  do_with_retry_terminates (suc (suc f)) s h =
      let (start, s') = x.clock s in
      elim (Option-cases (retry_loop x (suc (suc f)) start none 0 none s')) [
        | inl out ↦ absurd (first_round_returns f start s' (omega (arith, law.clock_reads s)) out)
        | inr found ↦ found
      ]
