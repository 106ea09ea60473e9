-- ===== src/Retry/Preserved.antt =====
-- doWithRetry: what each of its calls preserves, it preserves.
use otomatik.Base.{
  ℕ, zero, suc, ◌+◌, ◌-◌, Bool, true, false, Option, none, some, ltb, if◌then◌else◌, ◌||◌,
}
use otomatik.Base.Errors.{Error, is_canceled, is_no_retry}
use otomatik.Retry.{
  Effects, interval, next_index, max_retry_duration, after_failure, retry_loop, do_with_retry,
}

-- The state at the end, if the fuel was enough.
abbrev pub AtEnd : {S : Type 0} → (S → Type 0) → Option (Option Error × S) → Type 0
AtEnd P none = Unit
AtEnd P (some (e, s)) = P s

by_flag :
    {S : Type 0} (P : S → Type 0) (b : Bool) (x y : Option (Option Error × S))
    → AtEnd P x
    → AtEnd P y
    → AtEnd P (if b then x else y)
by_flag P true x y p q = p
by_flag P false x y p q = q

module _ {S : Type 0} (x : Effects S) (P : S → Type 0)
    (attempt_keeps : (n : ℕ) (s : S) → P s → P (x.attempt n s).1)
    (wait_keeps : (d : ℕ) (s : S) → P s → P (x.wait d s).1)
    (clock_keeps : (s : S) → P s → P (x.clock s).1) where
  after_failure-AtEnd :
      (start : ℕ) (e : Error) (rest : S → Option (Option Error × S)) (s : S)
      → P s
      → ((t : S) → P t → AtEnd P (rest t))
      → AtEnd P (after_failure x start e rest s)
  unfolding after_failure
  after_failure-AtEnd start e rest s p later =
      let p' = clock_keeps s p in
      let p'' = clock_keeps (x.clock s).1 p' in
      by_flag P (is_canceled e || is_no_retry e) (some (some e, s)) _ p (
        by_flag P (ltb ((x.clock s).0 - start) max_retry_duration) _ _
          (later (x.clock (x.clock s).1).1 p'') p'')

  loop-AtEnd :
      (fuel start : ℕ) (index : Option ℕ) (attempts : ℕ) (err : Option Error) (s : S)
      → P s
      → AtEnd P (retry_loop x fuel start index attempts err s)
  unfolding retry_loop
  loop-AtEnd zero start index attempts err s p = tt
  loop-AtEnd (suc fuel) start index attempts err s p =
      let s₁ = (x.clock s).1 in
      let s₂ = (x.wait (interval index) s₁).1 in
      let p₁ = clock_keeps s p in
      let p₂ = wait_keeps (interval index) s₁ p₁ in
      let p₃ = attempt_keeps attempts s₂ p₂ in
      by_flag P (ltb ((x.clock s).0 - start) max_retry_duration) _ _
        (by_flag P (x.wait (interval index) s₁).0 _ _ p₂ (
          by_result (x.attempt attempts s₂).0 (x.attempt attempts s₂).1 p₃
            (λ e t q. loop-AtEnd fuel start (next_index index) (attempts + 1) (some e) t q)))
        p₁
    where
      by_result :
          (o : Option Error) (t : S)
          → P t
          → ((e : Error) (u : S)
              → P u
              → AtEnd P (retry_loop x fuel start (next_index index) (attempts + 1) (some e) u))
          → AtEnd P (elim o [
            | none ↦ some (none, t)
            | some e ↦
                after_failure x start e
                  (retry_loop x fuel start (next_index index) (attempts + 1) (some e))
                  t
          ])
      by_result none t p rest = p
      by_result (some e) t p rest = after_failure-AtEnd start e _ t p (rest e)

  pub do_with_retry-AtEnd : (fuel : ℕ) (s : S) → P s → AtEnd P (do_with_retry x fuel s)
  unfolding do_with_retry
  do_with_retry-AtEnd fuel s p =
      loop-AtEnd fuel (x.clock s).0 none 0 none (x.clock s).1 (clock_keeps s p)
