-- ===== src/Tests/Retry.antt =====
-- Runs of doWithRetry of async.go. The state is the time.
use otomatik.Base.{ℕ, zero, suc, ◌+◌, ◌≡◌, refl, false, Option, none, some, arith}
use otomatik.Base.Errors.{Error, problem, is_canceled, is_no_retry}
use otomatik.Retry.{minute, Effects, do_with_retry, retry_loop, after_failure, interval, next_index}
use otomatik.Retry.Termination.{Timed, do_with_retry_terminates}
use otomatik.Retry.Outcomes.{Origin, NeverSucceeds, do_with_retry-Origin}

-- A server that answers from the given attempt on, and 500 before.
abbrev answer : ℕ → ℕ → Option Error
answer zero n = none
answer (suc k) zero = some (problem 500)
answer (suc k) (suc n) = answer k n

abbrev server : ℕ → Effects ℕ
server k = record {
  attempt = λ n t. (answer k n, t);
  wait = λ d t. (false, t + d);
  clock = λ t. (t, t);
}

server-Timed : (k : ℕ) → Timed (server k)
server-Timed k = record {
  time = λ t. t;
  clock_reads = λ t. (omega arith, omega arith);
  wait_lasts = λ d t. (omega arith, λ _. omega arith);
  attempt_lasts = λ n t. omega arith;
}

do_with_retry_terminates_example :
    (r : Option Error × ℕ) × (do_with_retry (server 3) 43202 7 ≡ some r)
do_with_retry_terminates_example =
    do_with_retry_terminates (server 3) (server-Timed 3) 43202 7 (omega arith)

-- The second attempt comes a minute after the first and succeeds.
do_with_retry_test : do_with_retry (server 1) 2 7 ≡ some (none, minute + 7)
unfolding do_with_retry retry_loop after_failure interval next_index is_canceled is_no_retry
do_with_retry_test = refl

do_with_retry-Origin_example : Origin (server 1) (server-Timed 1) 7 none (minute + 7)
do_with_retry-Origin_example =
    do_with_retry-Origin (server 1) (server-Timed 1) 2 7 (minute + 7) none do_with_retry_test

abbrev dead_server : Effects ℕ
dead_server = record {
  attempt = λ n t. (some (problem 500), t);
  wait = λ d t. (false, t + d);
  clock = λ t. (t, t);
}

abbrev dead_server-Timed : Timed dead_server
dead_server-Timed = record {
  time = λ t. t;
  clock_reads = λ t. (omega arith, omega arith);
  wait_lasts = λ d t. (omega arith, λ _. omega arith);
  attempt_lasts = λ n t. omega arith;
}

dead_server-NeverSucceeds : NeverSucceeds dead_server dead_server-Timed
unfolding is_canceled is_no_retry
dead_server-NeverSucceeds = record {
  fails = λ n s. (problem 500, refl, refl, refl);
  fires = λ d s. refl;
  instant = λ s. refl;
}
