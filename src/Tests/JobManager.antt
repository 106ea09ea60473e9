-- ===== src/Tests/JobManager.antt =====
-- Runs of the job manager of async.go.
use otomatik.Base.{refl, [], ◌∷◌}
use otomatik.Base.Text.{codes, text_eq}
use otomatik.Base.Map.{get, put, delete}
use otomatik.JobManager.{NamedJob, JobManager, enqueue, submit, look, Step, Reach, fresh}
use otomatik.JobManager.Invariant.{Inv, job_manager_invariant}

abbrev renew_a : NamedJob
renew_a = record { name = codes "renew_a"; job = 1 }

abbrev renew_b : NamedJob
renew_b = record { name = codes "renew_b"; job = 2 }

-- One worker at most: it runs the first job while the second one waits.
abbrev busy : JobManager
busy =
    look [] [] (renew_a ∷ renew_b ∷ []) (submit (submit (submit (fresh 1) renew_a) renew_b) renew_a)

two_jobs : Reach (fresh 1) busy
unfolding look submit enqueue get put delete text_eq
two_jobs =
    Reach.next
      (Reach.next
        (Reach.next (Reach.next Reach.here (Step.submits _ renew_a)) (Step.submits _ renew_b))
        (Step.submits _ renew_a))
      (Step.looks _ [] [] refl)

job_manager_invariant_example : Inv busy
job_manager_invariant_example = job_manager_invariant 1 two_jobs

busy-Inv : Inv busy
busy-Inv = job_manager_invariant 1 two_jobs
