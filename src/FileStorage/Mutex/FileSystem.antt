-- ===== src/FileStorage/Mutex/FileSystem.antt =====
-- filestorage.go: what the locks need of a file system, and who owns a lock file.
use otomatik.Base.{ℕ, ◌≡◌, Bool, true, false}
use otomatik.Base.Text.{Text, text_eq}
use otomatik.Base.Result.{ok}
use otomatik.FileStorage.{Files}
use otomatik.FileStorage.Freshness.{LockMeta}
use otomatik.FileStorage.Locks.{
  retry, release, Pc, stamping, writing, starting, clearing, held, guarding_dir, guarding, removing,
  unguarding,
}

-- What of the calls of the file system matters: `there` is whether a file exists. OpenFile with O_EXCL
-- succeeds only if it does not, and then it does; only its own Remove takes a file away.
pub record IsFileSystem {S H : Type 0} (x : Files S H LockMeta) : Type 0 where
  pub there : S → Text → Bool
  pub created :
      (f : Text) (s : S) (h : H)
      → (x.create_new f s).0 ≡ ok h
      → (there s f ≡ false) × (there (x.create_new f s).1 f ≡ true)
  pub create_keeps : (g f : Text) (s : S) → there s f ≡ true → there (x.create_new g s).1 f ≡ true
  pub remove_keeps :
      (g f : Text) (s : S)
      → text_eq g f ≡ false
      → there s f ≡ true
      → there (x.remove g s).1 f ≡ true
  pub mkdir_keeps : (d f : Text) (s : S) → there s f ≡ true → there (x.mkdir_all d s).1 f ≡ true
  pub open_keeps : (g f : Text) (s : S) → there s f ≡ true → there (x.open_file g s).1 f ≡ true
  pub open_rw_keeps : (g f : Text) (s : S) → there s f ≡ true → there (x.open_rw g s).1 f ≡ true
  pub read_keeps : (h : H) (f : Text) (s : S) → there s f ≡ true → there (x.read_all h s).1 f ≡ true
  pub truncate_keeps :
      (h : H) (f : Text) (s : S) → there s f ≡ true → there (x.truncate h s).1 f ≡ true
  pub seek_keeps :
      (h : H) (f : Text) (s : S) → there s f ≡ true → there (x.seek_start h s).1 f ≡ true
  pub write_keeps :
      (h : H) (t f : Text) (s : S) → there s f ≡ true → there (x.write h t s).1 f ≡ true
  pub close_keeps : (h : H) (f : Text) (s : S) → there s f ≡ true → there (x.close h s) f ≡ true
  pub now_keeps : (f : Text) (s : S) → there s f ≡ true → there (x.now s).1 f ≡ true
  pub sleep_keeps : (d : ℕ) (f : Text) (s : S) → there s f ≡ true → there (x.sleep d s) f ≡ true

-- From the creation of the lock file until its removal
abbrev pub owns : {H : Type 0} → Pc H → Bool
owns (stamping f) = true
owns (writing f t) = true
owns starting = true
owns clearing = true
owns held = true
owns (guarding_dir release) = true
owns (guarding release) = true
owns (removing release) = true
owns _ = false

-- In removeLockfile as Lock calls it, for a stale lock file
abbrev pub retries : {H : Type 0} → Pc H → Bool
retries (guarding_dir retry) = true
retries (guarding retry) = true
retries (removing retry) = true
retries (unguarding retry result) = true
retries _ = false

abbrev pub is_held : {H : Type 0} → Pc H → Bool
is_held held = true
is_held _ = false
