-- ===== src/JobManager/Invariant.antt =====
-- What holds of the job manager in every interleaving.
use otomatik.Base.{
  ℕ, suc, ◌+◌, ◌≤◌, ◌<◌, ◌≡◌, ◌≢◌, refl, ap, ◌∙◌, true, false, List, [], ◌∷◌, ◌++◌, if◌then◌else◌,
  length, length-append, arith,
}
use otomatik.Base.Text.{Text, text_eq, text_eq_iff, text_eq_refl, is_empty}
use otomatik.Base.Occurs.{one_if}
use otomatik.Base.Map.{Map, get, put, delete, get-put, get-delete}
use otomatik.JobManager.{
  NamedJob, Worker, JobManager, is_taken, enqueue, submit, look, finish, Step, submits, looks,
  finishes, Reach, here, next, fresh,
}

-- How many jobs of a name are in the queue, and how many are being run.
abbrev pub queued : Text → List NamedJob → ℕ
queued n [] = 0
queued n (j ∷ q) = one_if (text_eq j.name n) + queued n q

abbrev runs : Text → Worker → ℕ
runs n Worker.looking = 0
runs n (Worker.running j) = one_if (text_eq j.name n)

abbrev pub run_by : Text → List Worker → ℕ
run_by n [] = 0
run_by n (w ∷ ws) = runs n w + run_by n ws

unfoldable pub pending : Text → JobManager → ℕ
pending n m = queued n m.queue + run_by n m.workers

pub record Inv (m : JobManager) : Type 0 where
  pub counted : m.active_workers ≡ length m.workers
  pub bounded : m.active_workers ≤ m.max_concurrent_jobs
  pub attended : 0 < m.max_concurrent_jobs → m.queue ≢ [] → 0 < length m.workers
  pub named : (n : Text) → is_empty n ≡ false → pending n m ≡ one_if (is_taken m.names n)

queued-append : (n : Text) (p q : List NamedJob) → queued n (p ++ q) ≡ queued n p + queued n q
queued-append n [] q = omega arith
queued-append n (j ∷ p) q = omega (arith, queued-append n p q)

run_by-append : (n : Text) (p q : List Worker) → run_by n (p ++ q) ≡ run_by n p + run_by n q
run_by-append n [] q = omega arith
run_by-append n (w ∷ p) q = omega (arith, run_by-append n p q)

taken-put :
    (m : Map (Unit {0})) (k n : Text)
    → is_taken (put m k tt) n ≡ (if text_eq k n then true else is_taken m n)
taken-put m k n = ground (arith, get-put m k n tt)

taken-delete :
    (m : Map (Unit {0})) (k n : Text)
    → is_taken (delete m k) n ≡ (if text_eq k n then false else is_taken m n)
taken-delete m k n = ground (arith, get-delete m k n)

-- The queue after an append, and the workers that it starts.
pending-enqueue :
    (n : Text) (m : JobManager) (j : NamedJob)
    → pending n (enqueue m j) ≡ pending n m + one_if (text_eq j.name n)
unfolding pending enqueue
pending-enqueue n m j = ground (arith, queued-append n m.queue (j ∷ []))

-- What `enqueue` keeps of the invariant, whatever the names say.
enqueue-counted :
    (m : JobManager) (j : NamedJob)
    → Inv m
    → (enqueue m j).active_workers ≡ length (enqueue m j).workers
unfolding enqueue
enqueue-counted m j v = ground (arith, v.counted)

enqueue-bounded :
    (m : JobManager) (j : NamedJob)
    → Inv m
    → (enqueue m j).active_workers ≤ (enqueue m j).max_concurrent_jobs
unfolding enqueue
enqueue-bounded m j v = ground (arith, v.bounded)

enqueue-attended :
    (m : JobManager) (j : NamedJob)
    → Inv m
    → 0 < (enqueue m j).max_concurrent_jobs
    → 0 < length (enqueue m j).workers
unfolding enqueue
enqueue-attended m j v = ground (arith, v.bounded, v.counted)

names-enqueue : (m : JobManager) (j : NamedJob) → (enqueue m j).names ≡ m.names
unfolding enqueue
names-enqueue m j = ground arith

is_empty-eq : (a b : Text) → is_empty a ≡ true → is_empty b ≡ false → text_eq a b ≡ false
unfolding text_eq
is_empty-eq [] (c ∷ b) p q = refl
is_empty-eq a b p q = ground arith

pending-submit :
    (m : JobManager) (j : NamedJob) (n : Text)
    → pending n (submit m j)
      ≡ pending n m
        + (if is_empty j.name
            then one_if (text_eq j.name n)
            else if is_taken m.names j.name
            then 0
            else one_if (text_eq j.name n))
unfolding submit enqueue pending
pending-submit m j n = ground (arith, queued-append n m.queue (j ∷ []))

names-submit :
    (m : JobManager) (j : NamedJob)
    → (submit m j).names ≡ (
        if is_empty j.name
        then m.names
        else if is_taken m.names j.name
        then m.names
        else put m.names j.name tt)
unfolding submit enqueue
names-submit m j = ground arith

taken-submit :
    (m : JobManager) (j : NamedJob) (n : Text)
    → is_taken (submit m j).names n ≡ (
        if is_empty j.name
        then is_taken m.names n
        else if is_taken m.names j.name
        then is_taken m.names n
        else if text_eq j.name n
        then true
        else is_taken m.names n)
taken-submit m j n = rw (names-submit m j) (ground (arith, taken-put m.names j.name n))

submit-named :
    (m : JobManager) (j : NamedJob)
    → Inv m
    → (n : Text) → is_empty n ≡ false
    → pending n (submit m j) ≡ one_if (is_taken (submit m j).names n)
submit-named m j v n h =
    pending-submit m j n
    ∙ ground (arith, taken-submit m j n, v.named n h, text_eq_iff j.name n, is_empty-eq j.name n)

submit-Inv : (m : JobManager) (j : NamedJob) → Inv m → Inv (submit m j)
submit-Inv m j v = record {
  counted = unfold submit enqueue in ground (arith, v.counted);
  bounded = unfold submit enqueue in ground (arith, v.bounded);
  attended = unfold submit enqueue in ground (arith, v.bounded, v.counted, v.attended);
  named = submit-named m j v;
}

module _ (m : JobManager) (ws us : List Worker) (w : Worker)
    (placed : m.workers ≡ ws ++ w ∷ us) where
  length-placed : length m.workers ≡ length ws + suc (length us)
  length-placed = ap length placed ∙ length-append ws (w ∷ us)

  run_by-placed : (n : Text) → run_by n m.workers ≡ run_by n ws + (runs n w + run_by n us)
  run_by-placed n = ap (run_by n) placed ∙ run_by-append n ws (w ∷ us)

look-Inv :
    (m : JobManager) (ws us : List Worker) (q : List NamedJob)
    → m.queue ≡ q
    → m.workers ≡ ws ++ Worker.looking ∷ us
    → Inv m
    → Inv (look ws us q m)
unfolding look pending
look-Inv m ws us [] e w v = record {
  counted = omega (arith, v.counted, length-placed m ws us _ w, length-append ws us);
  bounded = omega (arith, v.bounded);
  attended = λ p n. absurd (n e);
  named = λ n h. omega (arith, run_by-append n ws us, run_by-placed m ws us _ w n) ∙ v.named n h;
}
look-Inv m ws us (j ∷ q) e w v = record {
  counted =
      omega (arith, v.counted, length-placed m ws us _ w, length-append ws (Worker.running j ∷ us));
  bounded = v.bounded;
  attended = λ p n. omega (arith, length-append ws (Worker.running j ∷ us));
  named = λ n h.
      omega (
        arith,
        run_by-append n ws (Worker.running j ∷ us),
        run_by-placed m ws us _ w n,
        ap (queued n) e,
      )
      ∙ v.named n h;
}

pending-finish :
    (m : JobManager) (ws us : List Worker) (j : NamedJob) (n : Text)
    → m.workers ≡ ws ++ Worker.running j ∷ us
    → pending n (finish ws us j m) + one_if (text_eq j.name n) ≡ pending n m
unfolding pending finish
pending-finish m ws us j n w =
    ground (arith, run_by-append n ws (Worker.looking ∷ us), run_by-placed m ws us _ w n)

taken-finish :
    (m : JobManager) (ws us : List Worker) (j : NamedJob) (n : Text)
    → is_taken (finish ws us j m).names n ≡ (
        if is_empty j.name
        then is_taken m.names n
        else if text_eq j.name n
        then false
        else is_taken m.names n)
unfolding finish
taken-finish m ws us j n = ground (arith, taken-delete m.names j.name n)

finish-Inv :
    (m : JobManager) (ws us : List Worker) (j : NamedJob)
    → m.workers ≡ ws ++ Worker.running j ∷ us
    → Inv m
    → Inv (finish ws us j m)
finish-Inv m ws us j w v = record {
  counted =
      unfold finish in
      ground (arith, v.counted, length-placed m ws us _ w, length-append ws (Worker.looking ∷ us));
  bounded = unfold finish in ground (arith, v.bounded);
  attended = unfold finish in ground (arith, length-append ws (Worker.looking ∷ us));
  named = λ n h. ground (
    arith,
    pending-finish m ws us j n w,
    taken-finish m ws us j n,
    v.named n h,
    is_empty-eq j.name n,
  );
}

Step-Inv : {m k : JobManager} → Step m k → Inv m → Inv k
Step-Inv (submits m j) v = submit-Inv m j v
Step-Inv (looks m ws us w) v = look-Inv m ws us m.queue refl w v
Step-Inv (finishes m ws us j w) v = finish-Inv m ws us j w v

Reach-Inv : {m k : JobManager} → Reach m k → Inv m → Inv k
Reach-Inv here v = v
Reach-Inv (next r s) v = Step-Inv s (Reach-Inv r v)

fresh-Inv : (limit : ℕ) → Inv (fresh limit)
unfolding pending get
fresh-Inv limit = record {
  counted = refl;
  bounded = omega arith;
  attended = λ _ n. absurd (n refl);
  named = λ n h. refl;
}

-- From the manager with any limit and nothing to do, in every interleaving of callers and workers: the
-- count of active workers is the number of
-- goroutines and stays within the limit, jobs in the queue have a worker to take them where the limit
-- is not 0, and of a non-empty name there is one job in the queue or at work if the name is noted
-- as taken, and none if it is not.
pub job_manager_invariant : (limit : ℕ) {m : JobManager} → Reach (fresh limit) m → Inv m
job_manager_invariant limit r = Reach-Inv r (fresh-Inv limit)

-- For every manager that satisfies the invariant and every job with a non-empty name: after Submit
-- there is exactly one job of that name in the queue or at work, and there are as many jobs of any
-- other name as before.
pub submit_once :
    (m : JobManager) (j : NamedJob)
    → Inv m
    → is_empty j.name ≡ false
    → (pending j.name (submit m j) ≡ 1)
      × ((n : Text) → text_eq j.name n ≡ false → pending n (submit m j) ≡ pending n m)
submit_once m j v h = (
  ground (arith, pending-submit m j j.name, v.named j.name h, text_eq_refl j.name),
  λ n other. ground (arith, pending-submit m j n, other),
)
