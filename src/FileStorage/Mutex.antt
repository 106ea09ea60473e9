-- ===== src/FileStorage/Mutex.antt =====
-- filestorage.go: the locks as a mutex.
pub mod FileSystem
mod Turns
mod Owner
use otomatik.Base.{
  ℕ, ◌≡◌, ◌≢◌, ◌↔◌, refl, sym, ap, ◌∙◌, subst, Bool, true, false, ◌⊎◌, inl, inr, List, [], ◌∷◌,
  ◌++◌, Option, none, some, ◌==◌, if◌then◌else◌, arith, Bool-cases, Option-cases, ==_iff, by_test,
}
use otomatik.Base.Text.{Text, codes, text_eq, text_eq_iff}
use otomatik.Base.Errors.{Error}
use otomatik.Base.Result.{Result, ok, err, stopped}
use otomatik.FileStorage.{Files, is_exist, is_not_exist}
use otomatik.FileStorage.Freshness.{
  LockMeta, Keeper, resting, opening_rw, reading_meta, truncating, seeking, stamping_meta,
  writing_meta, over, keep, keep_by, open_by, meta_by, contents_by, refreshed_by,
}
use otomatik.FileStorage.Locks.{
  unlock_filename, file_lock_is_stale, Remover, retry, release, Pc, making_dir, creating, stamping,
  writing, starting, clearing, held, opening, reading, judging, pausing, guarding_dir, guarding,
  removing, unguarding, returned, back_from, created_by, written_by, opened_by, decoded_by, read_by,
  judged_by, guarded_by, turn, World, Event, locks, unlocks, run, run_keeper, is_running, events_of,
  finds_stale, update, begun_by, Step, calls_lock, calls_unlock, runs, keeps, Steps, here, next,
  no_locks,
}
use otomatik.FileStorage.Mutex.FileSystem.{IsFileSystem, owns, retries, is_held}
use otomatik.FileStorage.Mutex.Turns.{Change, same, turn-Changed, turn-calm, keep-keeps}
use otomatik.FileStorage.Mutex.Owner.{Inv, moved-Inv, moved-Held, moved-Freed, no_holder}

-- What a mutex allows: of the returns from Lock and the calls of Unlock, those of Unlock by the process
-- that holds it, and of Lock where nobody holds it.
unfoldable pub mutex : Option ℕ → List Event → Option (Option ℕ)
mutex holder [] = some holder
mutex none (locks i ∷ es) = mutex (some i) es
mutex none (unlocks i ∷ es) = none
mutex (some j) (locks i ∷ es) = none
mutex (some j) (unlocks i ∷ es) = let rest = mutex none es in if j == i then rest else none

mutex-append :
    (a : Option ℕ) (es fs : List Event) {b : Option ℕ}
    → mutex a es ≡ some b
    → mutex a (es ++ fs) ≡ mutex b fs
unfolding mutex
mutex-append a [] fs h = ground (arith)
mutex-append none (locks i ∷ es) fs h = mutex-append (some i) es fs h
mutex-append none (unlocks i ∷ es) fs h = cc
mutex-append (some j) (locks i ∷ es) fs h = cc
mutex-append (some j) (unlocks i ∷ es) fs h =
    by_test (j == i) h (λ e k. rw e (mutex-append none es fs k)) (λ e k. cc)

module _ {S H : Type 0} (x : Files S H LockMeta) (law : IsFileSystem x) (file : Text) where
  abbrev Simulated : Option ℕ → List Event → World S H → Type 0
  Simulated holder es v =
      (holder' : Option ℕ) × (mutex holder es ≡ some holder') × Inv x law file holder' v

  -- A turn, by whether the process comes to hold the lock
  turn-Simulated :
      (holder : Option ℕ) (w : World S H)
      → Inv x law file holder w
      → (i : ℕ) → is_held (w.pcs i) ≡ false
      → (pc' : Pc H) (s' : S) (ks : List (Keeper H)) → Change x law file (w.pcs i) w.outside pc' s'
      → retries pc' ≡ false
      → Simulated holder
          (events_of i pc')
          (record { outside = s'; pcs = update w.pcs i pc'; keepers = ks })
  unfolding mutex
  turn-Simulated holder w inv i old held s' ks c calm = (
    some i,
    rw (no_holder x law file holder w inv i held s' c refl old) refl,
    moved-Held x law file holder w inv i held s' c calm refl ks,
  )
  turn-Simulated holder w inv i old pc' s' ks c calm =
      (holder, refl, moved-Inv x law file holder w inv i pc' s' c calm refl old ks)

  running-not_held : (pc : Pc H) → is_running pc ≡ true → is_held pc ≡ false
  running-not_held held h = cc
  running-not_held pc h = refl

  at_self : (pcs : ℕ → Pc H) (i : ℕ) (pc : Pc H) → update pcs i pc i ≡ pc
  at_self pcs i pc = rw ((==_iff i i).1 refl) refl

  run-Simulated :
      (holder : Option ℕ) (w : World S H)
      → Inv x law file holder w
      → (i : ℕ) → is_running (w.pcs i) ≡ true
      → finds_stale ((run x file i w).pcs i) ≡ false
      → Simulated holder (events_of i ((run x file i w).pcs i)) (run x file i w)
  unfolding run
  run-Simulated holder w inv i running fresh =
      let (pc', s') = turn x file (w.pcs i) w.outside in
      let self = at_self w.pcs i (turn x file (w.pcs i) w.outside).0 in
      subst (λ pc. Simulated holder (events_of i pc) (run x file i w)) (sym self)
        (turn-Simulated holder w inv i (running-not_held (w.pcs i) running) _ _ _
          (turn-Changed x law file (w.pcs i) w.outside (inv.calm i))
          (turn-calm x law file (w.pcs i) w.outside (inv.calm i)
            (subst (λ pc. finds_stale pc ≡ false) self fresh)))

  step-Simulated :
      (holder : Option ℕ) {w v : World S H} {es : List Event}
      → Inv x law file holder w
      → Step x file w es v
      → Simulated holder es v
  unfolding mutex run_keeper
  step-Simulated holder inv (calls_lock w i result e) =
      turn-Simulated holder w inv i (rw e refl) making_dir w.outside w.keepers
        (same (rw e refl) (λ h. h)) refl
  step-Simulated holder inv (calls_unlock w i e) = (
    none,
    rw (inv.known i (rw e refl), (==_iff i i).1 refl) refl,
    moved-Freed x law file holder w inv i (guarding_dir release) w.outside
        (same (rw e refl) (λ h. h)) refl refl (rw e refl) w.keepers,
  )
  step-Simulated holder inv (runs w i running fresh) = run-Simulated holder w inv i running fresh
  step-Simulated holder inv (keeps w ks k ls e) = (
    holder,
    refl,
    record {
      kept = λ i h. keep-keeps x law file k w.outside (inv.kept i h);
      one = inv.one;
      calm = inv.calm;
      known = inv.known;
      holds = inv.holds;
    },
  )

  no_locks-Inv : (s : S) → Inv x law file none (no_locks s)
  no_locks-Inv s = record {
    kept = λ i h. cc;
    one = λ i j h k. cc;
    calm = λ i. refl;
    known = λ i h. cc;
    holds = λ i h. cc;
  }

  steps-Simulated :
      (s : S) {w : World S H} {es : List Event}
      → Steps x file (no_locks s) es w
      → Simulated none es w
  unfolding mutex
  steps-Simulated s here = (none, refl, no_locks-Inv s)
  steps-Simulated s (next {es} {fs} steps step) =
      let (a, run_a, inv) = steps-Simulated s steps in
      let (b, run_b, inv') = step-Simulated a inv step in
      (b, mutex-append none es fs run_a ∙ run_b, inv')

  at_held : (pc : Pc H) → is_held pc ≡ true → pc ≡ held
  at_held held h = refl
  at_held pc h = cc

  -- Over a file system in which OpenFile with O_EXCL succeeds only where there is no file, and then
  -- makes it, and in which only Remove of a file takes it away: however the processes that call Lock
  -- and Unlock of one key and the goroutines of keepLockfileFresh interleave, and whichever of their
  -- calls fail, as long as nobody takes the lock file for stale, and only who holds the lock calls
  -- Unlock, the returns of Lock without an error and the calls of Unlock are those of a mutex, which
  -- at the end is held by just the process that holds the lock.
  pub locks_are_mutex :
      (s : S) {w : World S H} {es : List Event}
      → Steps x file (no_locks s) es w
      → (holder : Option ℕ) × (mutex none es ≡ some holder)
        × ((i : ℕ) → (w.pcs i ≡ held) ↔ (holder ≡ some i))
  locks_are_mutex s {w} steps =
      let (holder, run_es, inv) = steps-Simulated s steps in
      (holder, run_es, λ i. (λ e. inv.known i (rw e refl), λ e. at_held (w.pcs i) (inv.holds i e)))
