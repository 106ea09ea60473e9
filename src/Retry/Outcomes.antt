-- ===== src/Retry/Outcomes.antt =====
-- What the result of doWithRetry says about the operation, and what it hides.
use otomatik.Base.{
  if_elim, ap, ◌∙◌, subst, ℕ, zero, suc, ◌+◌, ◌-◌, ◌≤◌, ◌<◌, ◌≡◌, refl, Bool, true, false, ◌||◌,
  Option, none, some, ltb, if◌then◌else◌, arith,
}
use otomatik.Base.Errors.{Error, canceled, is_canceled, is_no_retry}
use otomatik.Retry.{
  max_retry_duration, interval, next_index, Effects, after_failure, retry_loop, do_with_retry,
}
use otomatik.Retry.Termination.{Timed, do_with_retry_terminates}

module _ {S : Type 0} (x : Effects S) (law : Timed x) where
  -- Where a result came from. A nil error: from an attempt that succeeded, or from time running out.
  -- An error: from an attempt that failed with it, or from a wait that the context cut short.
  pub data Origin (start : ℕ) : Option Error → S → Type 0 where
    succeeded : (n : ℕ) (s t : S) → x.attempt n s ≡ (none, t) → Origin start none t
    timed_out : (t : S) → start + max_retry_duration ≤ law.time t → Origin start none t
    failed :
        (n : ℕ) (e : Error) (s s' t : S) → x.attempt n s ≡ (some e, s') → Origin start (some e) t
    cut_short : (d : ℕ) (s t : S) → x.wait d s ≡ (true, t) → Origin start (some canceled) t

  abbrev Explained : ℕ → Option (Option Error × S) → Type 0
  Explained start none = Unit
  Explained start (some (e, s)) = Origin start e s

  -- The error of the last attempt, if there was one.
  abbrev Attempted : Option Error → Type 0
  Attempted none = Unit
  Attempted (some e) = (n : ℕ) × (s : S) × (s' : S) × (x.attempt n s ≡ (some e, s'))

  timed_out_or_failed :
      (start : ℕ) (err : Option Error) (t : S)
      → Attempted err
      → start + max_retry_duration ≤ law.time t
      → Origin start err t
  timed_out_or_failed start none t a late = timed_out t late
  timed_out_or_failed start (some e) t (n, s, s', a) late = failed n e s s' t a

  after_failure-Explained :
      (start : ℕ) (e : Error) (rest : S → Option (Option Error × S)) (s : S)
      → Attempted (some e)
      → start ≤ law.time s
      → ((s' : S) → law.time s ≤ law.time s' → Explained start (rest s'))
      → Explained start (after_failure x start e rest s)
  unfolding after_failure
  after_failure-Explained start e rest s a b go_on =
      if_elim (Explained start) (is_canceled e || is_no_retry e) _ _
        (λ _. let (n, s₀, s₁, failure) = a in failed n e s₀ s₁ s failure)
        (λ _.
          if_elim (Explained start) (ltb ((x.clock s).0 - start) max_retry_duration) _ _
            (λ _. go_on s₂ (omega (arith, law.clock_reads s, law.clock_reads (x.clock s).1)))
            (λ late.
              timed_out s₂
                (ground (arith, late, law.clock_reads s, law.clock_reads (x.clock s).1))))
    where
      s₂ : S
      s₂ = (x.clock (x.clock s).1).1

  loop-Explained :
      (fuel start : ℕ) (index : Option ℕ) (attempts : ℕ) (err : Option Error) (s : S)
      → Attempted err
      → start ≤ law.time s
      → Explained start (retry_loop x fuel start index attempts err s)
  unfolding retry_loop
  loop-Explained zero start index attempts err s a b = tt
  loop-Explained (suc fuel) start index attempts err s a b =
      if_elim (Explained start) (ltb ((x.clock s).0 - start) max_retry_duration) _ _
        (λ _.
          if_elim (Explained start) fired.0 _ _
            (λ cancelled. cut_short (interval index) s₁ fired.1 (ap (λ c. (c, fired.1)) cancelled))
            (λ _.
              by_result r.0 refl
                (λ e. loop-Explained fuel start (next_index index) (attempts + 1) (some e))))
        (λ late. timed_out_or_failed start err s₁ a (ground (arith, late, law.clock_reads s)))
    where
      s₁ : S
      s₁ = (x.clock s).1

      fired : Bool × S
      fired = x.wait (interval index) s₁

      r : Option Error × S
      r = x.attempt attempts fired.1

      in_order : start ≤ law.time r.1
      in_order = omega (
        arith,
        law.clock_reads s,
        law.wait_lasts (interval index) s₁,
        law.attempt_lasts attempts fired.1,
      )

      by_result :
          (o : Option Error)
          → r.0 ≡ o
          → ((e : Error) (s' : S)
              → Attempted (some e)
              → start ≤ law.time s'
              → Explained start
                  (retry_loop x fuel start (next_index index) (attempts + 1) (some e) s'))
          → Explained start (elim o [
            | none ↦ some (none, r.1)
            | some e ↦
                after_failure x start e
                  (retry_loop x fuel start (next_index index) (attempts + 1) (some e))
                  r.1
          ])
      by_result none h rest = succeeded attempts fired.1 r.1 (ap (λ o. (o, r.1)) h)
      by_result (some e) h rest =
          let a' : Attempted (some e) = (attempts, fired.1, r.1, ap (λ o. (o, r.1)) h) in
          after_failure-Explained start e _ r.1 a' in_order
            (λ s' later. rest e s' a' (omega (arith, in_order)))

  -- Under a clock that never runs backwards and timers that last, where a result of doWithRetry comes
  -- from: a nil error from an attempt that succeeded or from
  -- thirty days having passed since the loop began, any other error from an attempt that failed with
  -- it or from a cancelled wait.
  pub do_with_retry-Origin :
      (fuel : ℕ) (s t : S) (e : Option Error)
      → do_with_retry x fuel s ≡ some (e, t)
      → Origin (x.clock s).0 e t
  unfolding do_with_retry
  do_with_retry-Origin fuel s t e h = subst (Explained (x.clock s).0) h (
      loop-Explained fuel (x.clock s).0 none 0 none (x.clock s).1 tt
        (omega (arith, law.clock_reads s)))

  -- Every attempt fails with an error that may be retried, nothing is cancelled, and only the waits
  -- and the attempts take time.
  pub record NeverSucceeds : Type 0 where
    pub fails :
        (n : ℕ) (s : S)
        → (e : Error) × ((x.attempt n s).0 ≡ some e)
          × (is_canceled e ≡ false)
          × (is_no_retry e ≡ false)
    pub fires : (d : ℕ) (s : S) → (x.wait d s).0 ≡ false
    pub instant : (s : S) → x.clock s ≡ (law.time s, s)

  -- What the loop can return then.
  abbrev OutOrNil : Option (Option Error × S) → Type 0
  OutOrNil none = Unit
  OutOrNil (some (e, s)) = e ≡ none

  module _ (bad : NeverSucceeds) where
    -- The state after an attempt, and its error.
    tried : Option ℕ → ℕ → S → S
    tried index attempts s = (x.attempt attempts (x.wait (interval index) s).1).1

    reason : Option ℕ → ℕ → S → Error
    reason index attempts s = (bad.fails attempts (x.wait (interval index) s).1).0

    after_failure-retried :
        (start : ℕ) (e : Error) (rest : S → Option (Option Error × S)) (s : S)
        → is_canceled e ≡ false
        → is_no_retry e ≡ false
        → after_failure x start e rest s
          ≡ (if ltb (law.time s - start) max_retry_duration then rest s else some (none, s))
    unfolding after_failure
    after_failure-retried start e rest s p q = rw (p, q, bad.instant s, bad.instant s)

    loop-retried :
        (fuel start : ℕ) (index : Option ℕ) (attempts : ℕ) (err : Option Error) (s : S)
        → ltb (law.time s - start) max_retry_duration ≡ true
        → retry_loop x (suc fuel) start index attempts err s
          ≡ after_failure x start
              (reason index attempts s)
              (retry_loop x fuel start
                (next_index index)
                (attempts + 1)
                (some (reason index attempts s)))
              (tried index attempts s)
    unfolding retry_loop tried reason
    loop-retried fuel start index attempts err s early = rw (
      bad.instant s,
      early,
      bad.fires (interval index) s,
      (bad.fails attempts (x.wait (interval index) s).1).1,
      bad.instant s,
    )

    loop-OutOrNil :
        (fuel start : ℕ) (index : Option ℕ) (attempts : ℕ) (err : Option Error) (s : S)
        → law.time s < start + max_retry_duration
        → start ≤ law.time s
        → OutOrNil (retry_loop x fuel start index attempts err s)
    unfolding tried reason
    loop-OutOrNil zero start index attempts err s early b = unfold retry_loop in tt
    loop-OutOrNil (suc fuel) start index attempts err s early b =
        let s' = tried index attempts s in
        let e = bad.fails attempts (x.wait (interval index) s).1 in
        let later : start ≤ law.time s' = omega (
          arith,
          law.wait_lasts (interval index) s,
          law.attempt_lasts attempts (x.wait (interval index) s).1,
        ) in
        rw (loop-retried fuel start index attempts err s (ground arith)) (
          rw (after_failure-retried start (reason index attempts s) _ s' e.2 e.3) (
            if_elim OutOrNil (ltb (law.time s' - start) max_retry_duration) _ _
              (λ go_on.
                loop-OutOrNil fuel start (next_index index) (attempts + 1) (some e.0) s'
                  (ground (arith, go_on, later)) later)
              (λ late. refl)))

    -- Under such a clock and timers, an operation that fails on every one of its attempts with an error
    -- that may be retried, while nothing is cancelled, is reported as a success: with fuel for 43,202
    -- rounds doWithRetry returns, and what it returns is a nil error.
    pub retry_hides_failure :
        (fuel : ℕ) (s : S) → 43202 ≤ fuel → (t : S) × (do_with_retry x fuel s ≡ some (none, t))
    unfolding do_with_retry
    retry_hides_failure fuel s h =
        let (r, found) = do_with_retry_terminates x law fuel s h in
        let nil : r.0 ≡ none = subst OutOrNil found (
          rw (bad.instant s)
            (loop-OutOrNil fuel (law.time s) none 0 none s (omega arith) (omega arith))) in
        (r.1, found ∙ ap (λ e. some (e, r.1)) nil)
