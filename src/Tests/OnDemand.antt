-- ===== src/Tests/OnDemand.antt =====
-- Runs of handshakes that obtain or renew on demand.
use otomatik.Base.{none, ◌≡◌, refl, true, false, List, [], ◌∷◌, ◌++◌, some, ◌⊎◌, arith}
use otomatik.Base.Text.{Text, codes, text_eq}
use otomatik.Base.Map.{get, put, delete}
use otomatik.OnDemand.{
  OnDemandConfig, check_if_cert_should_be_obtained, Task, Goroutine, Waiters, is_closed, enter,
  deny, Step, AnyStep, Reach, no_waiters,
}
use otomatik.Names.{subject_qualifies_for_cert}
use otomatik.OnDemand.Waiting.{busy}
use otomatik.OnDemand.Denied.{denied_renewal_blocks}
use otomatik.OnDemand.Served.{waiters_are_served}

-- One goroutine renews `a`.
abbrev renewing : Waiters
renewing =
    enter [] [] Task.renew (codes "a")
      (record no_waiters { goroutines = Goroutine.entering Task.renew (codes "a") ∷ [] })

renewing_reached : Reach AnyStep no_waiters renewing
renewing_reached =
    Reach.next (Reach.next Reach.here (AnyStep.run (Step.come _ Task.renew (codes "a"))))
      (AnyStep.run (Step.enters _ [] [] Task.renew (codes "a") refl))

abbrev after_denial : Waiters
after_denial = record (deny [] [] renewing) {
  goroutines = Goroutine.entering Task.obtain (codes "a") ∷ (deny [] [] renewing).goroutines;
}

denied_renewal_blocks_example :
    (is_closed 0 after_denial.closed ≡ false)
    × ((task : Task) (vs ts : List Goroutine)
        → enter vs ts task (codes "a") after_denial
          ≡ record after_denial { goroutines = vs ++ Goroutine.waiting 0 ∷ ts })
unfolding enter get
denied_renewal_blocks_example =
    denied_renewal_blocks (codes "a") 0 [] [] renewing_reached refl (
      Reach.next Reach.here (AnyStep.run (Step.come (deny [] [] renewing) Task.obtain (codes "a"))))

-- Two goroutines obtain `a`: the second one waits for the first.
abbrev two_obtain : Waiters
two_obtain = record {
  chans = (codes "a", 0) ∷ [];
  made = 1;
  closed = [];
  goroutines = Goroutine.waiting 0 ∷ Goroutine.working Task.obtain (codes "a") 0 ∷ [];
}

two_obtain_reached : Reach Step no_waiters two_obtain
unfolding enter get put delete text_eq
two_obtain_reached =
    Reach.next
      (Reach.next
        (Reach.next (Reach.next Reach.here (Step.come _ Task.obtain (codes "a")))
          (Step.enters _ [] [] Task.obtain (codes "a") refl))
        (Step.come _ Task.obtain (codes "a")))
      (Step.enters _ [] (Goroutine.working Task.obtain (codes "a") 0 ∷ []) Task.obtain (codes "a")
        refl)

waiters_are_served_example :
    (is_closed 0 two_obtain.closed ≡ true)
    ⊎ ((n : Text) × (get two_obtain.chans n ≡ some 0) × (busy n 0 two_obtain.goroutines ≡ 1))
waiters_are_served_example = waiters_are_served 0 two_obtain_reached (omega arith)

abbrev listed_host : OnDemandConfig
listed_host = record { decision_func = none; host_whitelist = codes "A.com" ∷ [] }

-- The whitelist does not mind the case of letters.
check_if_cert_should_be_obtained_test :
    check_if_cert_should_be_obtained (some listed_host) (codes "a.com") ≡ none
unfolding check_if_cert_should_be_obtained subject_qualifies_for_cert text_eq
check_if_cert_should_be_obtained_test = refl
