-- ===== src/JobManager.antt =====
-- async.go: the job manager. A job is known by a number; what it does is not modelled. Names are
-- texts, and the empty name asks for no duplicate prevention.
pub mod Invariant
use otomatik.Base.{
  ℕ, ◌+◌, ◌-◌, ◌≡◌, Bool, true, false, List, [], ◌∷◌, ◌++◌, Option, none, some, ltb, if◌then◌else◌,
}
use otomatik.Base.Text.{Text, text_eq, is_empty}
use otomatik.Base.Map.{Map, get, put, delete}

pub record NamedJob : Type 0 where
  pub name : Text
  pub job : ℕ

-- A goroutine of `worker`: at the head of its loop, or running a job outside the lock.
pub data Worker : Type 0 where
  looking : Worker
  running : NamedJob → Worker

-- `workers` are the goroutines that have been started and have not returned.
pub record JobManager : Type 0 where
  pub max_concurrent_jobs : ℕ
  pub active_workers : ℕ
  pub queue : List NamedJob
  pub names : Map (Unit {0})
  pub workers : List Worker

-- _, ok := jobmanager.names[name]
abbrev pub is_taken : Map (Unit {0}) → Text → Bool
is_taken m name = elim (get m name) [ none ↦ false | some _ ↦ true ]

-- Submit from the append on.
unfoldable pub enqueue : JobManager → NamedJob → JobManager
enqueue m j =
    let m' = record m { queue = m.queue ++ j ∷ [] } in
    if ltb m'.active_workers m'.max_concurrent_jobs
    then record m' { active_workers = m'.active_workers + 1; workers = Worker.looking ∷ m'.workers }
    else m'

-- Submit
unfoldable pub submit : JobManager → NamedJob → JobManager
unfolding enqueue
submit m j =
    if is_empty j.name
    then enqueue m j
    else if is_taken m.names j.name
    then m
    else enqueue (record m { names = put m.names j.name tt }) j

-- One turn of `worker` under the lock, for the worker between `ws` and `us`: it takes the first job,
-- or leaves when there is none.
unfoldable pub look : List Worker → List Worker → List NamedJob → JobManager → JobManager
look ws us [] m = record m { active_workers = m.active_workers - 1; workers = ws ++ us }
look ws us (next ∷ rest) m = record m { queue = rest; workers = ws ++ Worker.running next ∷ us }

-- The end of a turn, when `next.job()` has returned.
unfoldable pub finish : List Worker → List Worker → NamedJob → JobManager → JobManager
finish ws us next m =
    let m' = record m { workers = ws ++ Worker.looking ∷ us } in
    if is_empty next.name then m' else record m' { names = delete m'.names next.name }

-- The goroutines interleave: a caller submits, or a worker takes its next step.
pub data Step : JobManager → JobManager → Type 0 where
  submits : (m : JobManager) (j : NamedJob) → Step m (submit m j)
  looks :
      (m : JobManager) (ws us : List Worker)
      → m.workers ≡ ws ++ Worker.looking ∷ us
      → Step m (look ws us m.queue m)
  finishes :
      (m : JobManager) (ws us : List Worker) (next : NamedJob)
      → m.workers ≡ ws ++ Worker.running next ∷ us
      → Step m (finish ws us next m)

pub data Reach (m : JobManager) : JobManager → Type 0 where
  here : Reach m m
  next : {k l : JobManager} → Reach m k → Step k l → Reach m l

-- The manager of the package, for some limit.
abbrev pub fresh : ℕ → JobManager
fresh limit = record {
  max_concurrent_jobs = limit;
  active_workers = 0;
  queue = [];
  names = [];
  workers = [];
}
