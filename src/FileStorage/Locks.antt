-- ===== src/FileStorage/Locks.antt =====
-- filestorage.go: Lock, Unlock and the upkeep of a lock file, each call of the system a step, and the
-- processes that use one lock, interleaved.
use otomatik.Base.{
  ℕ, ◌-◌, ◌*◌, ◌≡◌, Bool, true, false, List, [], ◌∷◌, ◌++◌, Option, none, some, ltb, ◌==◌,
  if◌then◌else◌,
}
use otomatik.Base.Text.{Text, codes}
use otomatik.Base.Errors.{Error, message}
use otomatik.Base.Result.{Result, ok, err, stopped}
use otomatik.FileStorage.{Files, is_exist, is_not_exist}
use otomatik.Keys.{path_join}
use otomatik.Storage.{safe}
use otomatik.FileStorage.Freshness.{LockMeta, lock_freshness_interval, Keeper, resting, keep}

-- fileLockPollInterval, in nanoseconds
abbrev pub file_lock_poll_interval : ℕ
file_lock_poll_interval = 1000000000

-- lockFilename, with lockDir
unfoldable pub lock_filename : Text → Text → Text
unfolding path_join safe
lock_filename root key =
    path_join (path_join (root ∷ codes "locks" ∷ []) ∷ (safe key ++ codes ".lock") ∷ [])

abbrev pub unlock_filename : Text → Text
unlock_filename file = file ++ codes ".unlock"

-- fileLockIsStale at a time
unfoldable pub file_lock_is_stale : LockMeta → ℕ → Bool
file_lock_is_stale meta t =
    let ref : ℕ = if meta.updated == 0 then meta.created else meta.updated in
    ltb (lock_freshness_interval * 2) (t - ref)

-- Who calls removeLockfile: Lock, which then tries again, or Unlock.
pub data Remover : Type 0 where
  retry : Remover
  release : Remover

-- What a process does next with the lock file. In Lock: the parts of createLockfile, and what follows
-- a lock file that is there; then the parts of removeLockfile; `held` is after Lock without an error,
-- `returned` before and after all other calls.
pub data Pc (H : Type 0) : Type 0 where
  making_dir : Pc H
  creating : Pc H
  stamping : H → Pc H
  writing : H → ℕ → Pc H
  starting : Pc H
  clearing : Pc H
  held : Pc H
  opening : Pc H
  reading : H → Pc H
  judging : LockMeta → Pc H
  pausing : Pc H
  guarding_dir : Remover → Pc H
  guarding : Remover → Pc H
  removing : Remover → Pc H
  unguarding : Remover → Option Error → Pc H
  returned : Option Error → Pc H

-- The processes that use the lock file, and the goroutines that keep it fresh
pub record World (S H : Type 0) : Type 0 where
  pub outside : S
  pub pcs : ℕ → Pc H
  pub keepers : List (Keeper H)

-- A return of Lock without an error, and a call of Unlock
pub data Event : Type 0 where
  locks : ℕ → Event
  unlocks : ℕ → Event

-- Where removeLockfile returns to
unfoldable pub back_from : {H : Type 0} → Remover → Option Error → Pc H
back_from retry result = making_dir
back_from release result = returned result

abbrev pub update : {H : Type 0} → (ℕ → Pc H) → ℕ → Pc H → ℕ → Pc H
update pcs i pc j = if i == j then pc else pcs j

-- Whether a process is in a call
abbrev pub is_running : {H : Type 0} → Pc H → Bool
is_running held = false
is_running (returned result) = false
is_running _ = true

abbrev pub events_of : {H : Type 0} → ℕ → Pc H → List Event
events_of i held = locks i ∷ []
events_of i _ = []

abbrev pub begun_by : {H : Type 0} → Pc H → List (Keeper H) → List (Keeper H)
begun_by starting ks = resting ∷ ks
begun_by _ ks = ks

-- Whether a process takes the lock file for stale
abbrev pub finds_stale : {H : Type 0} → Pc H → Bool
finds_stale (guarding_dir retry) = true
finds_stale _ = false

-- Before the first call
abbrev pub no_locks : {S H : Type 0} → S → World S H
no_locks s = record { outside = s; pcs = λ i. returned none; keepers = [] }

module _ {S H : Type 0} (x : Files S H LockMeta) (file : Text) where
  -- Lock after the OpenFile of atomicallyCreateFile
  unfoldable pub created_by : Result H × S → Pc H × S
  unfolding is_exist
  created_by (ok f, s) = (stamping f, s)
  created_by (err e, s) =
      (if is_exist e then opening else returned (some (message "creating lock file")), s)
  created_by (stopped h, s) = (returned (some (message "creating lock file")), s)

  -- atomicallyCreateFile after Encode, and Close
  unfoldable pub written_by : H → Option Error × S → Pc H × S
  unfolding is_exist
  written_by f (none, s) = (starting, x.close f s)
  written_by f (some e, s) =
      (if is_exist e then opening else returned (some (message "creating lock file")), x.close f s)

  -- Lock after Open
  unfoldable pub opened_by : Result H × S → Pc H × S
  unfolding is_not_exist
  opened_by (ok f, s) = (reading f, s)
  opened_by (err e, s) =
      (if is_not_exist e then making_dir else returned (some (message "accessing lock file")), s)
  opened_by (stopped h, s) = (returned (some (message "accessing lock file")), s)

  -- Lock after Decode
  unfoldable pub decoded_by : Result LockMeta → Pc H
  decoded_by (ok meta) = judging meta
  decoded_by (err e) = returned (some e)
  decoded_by (stopped h) = returned (some (message "decoding lock file"))

  unfoldable pub read_by : H → (Text × Option Error) × S → Pc H × S
  unfolding decoded_by
  read_by f ((contents, none), s) = (decoded_by (x.decode_meta contents), x.close f s)
  read_by f ((contents, some e), s) = (returned (some e), x.close f s)

  -- The switch of Lock
  unfoldable pub judged_by : LockMeta → ℕ × S → Pc H × S
  unfolding file_lock_is_stale
  judged_by meta (t, s) = (if file_lock_is_stale meta t then guarding_dir retry else pausing, s)

  -- removeLockfile after atomicallyCreateFile
  unfoldable pub guarded_by : Remover → Result H × S → Pc H × S
  unfolding is_exist back_from
  guarded_by who (ok f, s) = (removing who, x.close f s)
  guarded_by who (err e, s) = (back_from who (if is_exist e then none else some e), s)
  guarded_by who (stopped h, s) = (back_from who (some (message "creating guard file")), s)

  abbrev pub at : {A : Type 0} → Pc H → A × S → Pc H × S
  at pc (a, s) = (pc, s)

  abbrev pub removed_by : Remover → Option Error × S → Pc H × S
  removed_by who (result, s) = (unguarding who result, s)

  abbrev pub stamped_by : H → ℕ × S → Pc H × S
  stamped_by f (t, s) = (writing f t, s)

  -- The next call of a process, in Lock or Unlock
  unfoldable pub turn : Pc H → S → Pc H × S
  unfolding created_by written_by opened_by read_by judged_by guarded_by back_from
  turn making_dir s = at creating (x.mkdir_all (x.dir_of file) s)
  turn creating s = created_by (x.create_new file s)
  turn (stamping f) s = stamped_by f (x.now s)
  turn (writing f t) s =
      written_by f (x.write f (x.encode_meta (record { created = t; updated = t })) s)
  turn starting s = (clearing, s)
  turn clearing s = at held (x.remove (unlock_filename file) s)
  turn held s = (held, s)
  turn opening s = opened_by (x.open_file file s)
  turn (reading f) s = read_by f (x.read_all f s)
  turn (judging meta) s = judged_by meta (x.now s)
  turn pausing s = (making_dir, x.sleep file_lock_poll_interval s)
  turn (guarding_dir who) s = at (guarding who) (x.mkdir_all (x.dir_of (unlock_filename file)) s)
  turn (guarding who) s = guarded_by who (x.create_new (unlock_filename file) s)
  turn (removing who) s = removed_by who (x.remove file s)
  turn (unguarding who result) s = at (back_from who result) (x.remove (unlock_filename file) s)
  turn (returned result) s = (returned result, s)

  unfoldable pub run : ℕ → World S H → World S H
  unfolding turn
  run i w =
      let (pc, s) = turn (w.pcs i) w.outside in
      record { outside = s; pcs = update w.pcs i pc; keepers = begun_by (w.pcs i) w.keepers }

  unfoldable pub run_keeper : List (Keeper H) → Keeper H → List (Keeper H) → World S H → World S H
  unfolding keep
  run_keeper ks k ls w =
      let (k', s) = keep x file k w.outside in record w { outside = s; keepers = ks ++ k' ∷ ls }

  -- The steps in which nobody takes the lock file for stale, and their events
  pub data Step : World S H → List Event → World S H → Type 0 where
    calls_lock :
        (w : World S H) (i : ℕ) (result : Option Error)
        → w.pcs i ≡ returned result
        → Step w [] (record w { pcs = update w.pcs i making_dir })
    calls_unlock :
        (w : World S H) (i : ℕ)
        → w.pcs i ≡ held
        → Step w (unlocks i ∷ []) (record w { pcs = update w.pcs i (guarding_dir release) })
    runs :
        (w : World S H) (i : ℕ)
        → is_running (w.pcs i) ≡ true
        → finds_stale ((run i w).pcs i) ≡ false
        → Step w (events_of i ((run i w).pcs i)) (run i w)
    keeps :
        (w : World S H) (ks : List (Keeper H)) (k : Keeper H) (ls : List (Keeper H))
        → w.keepers ≡ ks ++ k ∷ ls
        → Step w [] (run_keeper ks k ls w)

  -- A sequence of steps from a world, and its events
  pub data Steps (w : World S H) : List Event → World S H → Type 0 where
    here : Steps w [] w
    next :
        {v u : World S H} {es fs : List Event} → Steps w es v → Step v fs u → Steps w (es ++ fs) u
