-- ===== src/Retry.antt =====
-- async.go: doWithRetry. The operation, the timer and the clock act on a state of which the model
-- knows nothing else; the loop takes fuel.
pub mod Termination
pub mod Outcomes
pub mod Preserved
use otomatik.Base.{
  ℕ, zero, suc, ◌+◌, ◌-◌, ◌*◌, Bool, true, false, ◌||◌, List, [], ◌∷◌, Option, none, some, ltb,
  if◌then◌else◌, length, get_or,
}
use otomatik.Base.Errors.{Error, canceled, is_canceled, is_no_retry}

-- Durations are nanoseconds.
abbrev pub minute : ℕ
minute = 60_000_000_000

abbrev pub hour : ℕ
hour = 3_600_000_000_000

abbrev pub retry_intervals : List ℕ
retry_intervals =
    (1 * minute)
    ∷ (2 * minute)
    ∷ (2 * minute)
    ∷ (5 * minute)
    ∷ (10 * minute)
    ∷ (20 * minute)
    ∷ (20 * minute)
    ∷ (30 * minute)
    ∷ (30 * minute)
    ∷ (1 * hour)
    ∷ (3 * hour)
    ∷ (6 * hour)
    ∷ []

abbrev pub max_retry_duration : ℕ
max_retry_duration = 24 * hour * 30

-- `intervalIndex`, where `none` is -1.
unfoldable pub interval : Option ℕ → ℕ
interval none = 0
interval (some i) = get_or retry_intervals i 0

unfoldable pub next_index : Option ℕ → Option ℕ
next_index none = some 0
next_index (some i) = if ltb i (length retry_intervals - 1) then some (i + 1) else some i

-- What the loop calls: the operation, with the number of attempts so far; the wait for a timer,
-- which says whether the context was cancelled first; and a reading of the clock.
pub record Effects (S : Type 0) : Type 0 where
  pub attempt : ℕ → S → Option Error × S
  pub wait : ℕ → S → Bool × S
  pub clock : S → ℕ × S

module _ {S : Type 0} (x : Effects S) where
  open x use {attempt, wait, clock}

  -- After an attempt failed with `e`: stop, give up, or go on. `rest` is the next round.
  unfoldable pub after_failure :
      ℕ → Error → (S → Option (Option Error × S)) → S → Option (Option Error × S)
  after_failure start e rest s =
      if is_canceled e || is_no_retry e
      then some (some e, s)
      else let (t, s') = clock s in
        let (logged, s'') = clock s' in
        (if ltb (t - start) max_retry_duration then rest s'' else some (none, s''))

  -- The loop, `none` when the fuel is out; `err` is the error of the last attempt.
  unfoldable pub retry_loop : ℕ → ℕ → Option ℕ → ℕ → Option Error → S → Option (Option Error × S)
  unfolding after_failure
  retry_loop zero start index attempts err s = none
  retry_loop (suc fuel) start index attempts err s =
      let (t, s₁) = clock s in
      if ltb (t - start) max_retry_duration
      then (let (cancelled, s₂) = wait (interval index) s₁ in
          if cancelled
          then some (some canceled, s₂)
          else (let (result, s₃) = attempt attempts s₂ in
              elim result [
                | none ↦ some (none, s₃)
                | some e ↦
                    after_failure start e
                      (retry_loop fuel start (next_index index) (attempts + 1) (some e)) s₃
              ]))
      else some (err, s₁)

  -- doWithRetry
  unfoldable pub do_with_retry : ℕ → S → Option (Option Error × S)
  unfolding retry_loop
  do_with_retry fuel s = let (start, s') = clock s in retry_loop fuel start none 0 none s'
