-- ===== src/FileStorage/Mutex/Turns.antt =====
-- filestorage.go: what a turn in Lock or Unlock, or of keepLockfileFresh, does to the lock file.
use otomatik.Base.{
  ℕ, ◌≡◌, ◌≢◌, refl, ap, subst, true, false, inl, inr, [], ◌∷◌, ◌++◌, Option, none, some, arith,
  Bool-cases,
}
use otomatik.Base.Text.{Text, text_eq, text_eq_iff}
use otomatik.Base.Errors.{Error}
use otomatik.Base.Result.{Result, ok, err, stopped}
use otomatik.FileStorage.{Files}
use otomatik.FileStorage.Freshness.{
  LockMeta, Keeper, resting, opening_rw, reading_meta, truncating, seeking, stamping_meta,
  writing_meta, over, keep, keep_by, open_by, meta_by, contents_by, refreshed_by,
}
use otomatik.FileStorage.Locks.{
  unlock_filename, retry, release, Pc, making_dir, creating, stamping, writing, starting, clearing,
  held, opening, reading, judging, pausing, guarding_dir, guarding, removing, unguarding, returned,
  back_from, created_by, written_by, opened_by, decoded_by, read_by, judged_by, guarded_by, turn,
  finds_stale,
}
use otomatik.FileStorage.Mutex.FileSystem.{IsFileSystem, owns, retries}

longer : (f t : Text) (c : ℕ) → f ++ c ∷ t ≢ f
longer [] t c h = cc
longer (b ∷ f) t c h = longer f t c (cc)

other_file : (f : Text) → text_eq (unlock_filename f) f ≡ false
other_file f = elim (Bool-cases (text_eq (unlock_filename f) f)) [
  | inl e ↦ absurd (longer f _ _ ((text_eq_iff (unlock_filename f) f).0 e))
  | inr e ↦ e
]

module _ {S H : Type 0} (x : Files S H LockMeta) (law : IsFileSystem x) (file : Text) where
  -- A turn leaves the file, or the process creates it, or the process that owns it lets it go.
  pub data Change (pc : Pc H) (s : S) (pc' : Pc H) (s' : S) : Type 0 where
    same :
        owns pc' ≡ owns pc
        → (law.there s file ≡ true → law.there s' file ≡ true)
        → Change pc s pc' s'
    gains :
        law.there s file ≡ false
        → owns pc ≡ false
        → owns pc' ≡ true
        → law.there s' file ≡ true
        → Change pc s pc' s'
    drops : owns pc ≡ true → owns pc' ≡ false → Change pc s pc' s'

  abbrev Changed : Pc H → S → Pc H × S → Type 0
  Changed pc s r = Change pc s r.0 r.1

  created_by-Changed :
      (s : S) (r : Result H × S)
      → x.create_new file s ≡ r
      → Changed creating s (created_by x file r)
  unfolding created_by
  created_by-Changed s (ok f, s') e =
      let (before, after) = law.created file s f (ap (λ r. r.0) e) in
      gains before refl refl (subst (λ t. law.there t file ≡ true) (ap (λ r. r.1) e) after)
  created_by-Changed s (err x', s') e =
      same (ground arith) (λ h.
        subst (λ t. law.there t file ≡ true) (ap (λ r. r.1) e) (law.create_keeps file file s h))
  created_by-Changed s (stopped x', s') e =
      same refl (λ h.
        subst (λ t. law.there t file ≡ true) (ap (λ r. r.1) e) (law.create_keeps file file s h))

  written_by-Changed :
      (f : H) (t : ℕ) (s : S) (r : Option Error × S)
      → (law.there s file ≡ true → law.there r.1 file ≡ true)
      → Changed (writing f t) s (written_by x file f r)
  unfolding written_by
  written_by-Changed f t s (none, s') e = same refl (λ h. law.close_keeps f file s' (e h))
  written_by-Changed f t s (some x', s') e = drops refl (ground arith)

  opened_by-Changed :
      (s : S) (r : Result H × S)
      → (law.there s file ≡ true → law.there r.1 file ≡ true)
      → Changed opening s (opened_by x file r)
  unfolding opened_by
  opened_by-Changed s (ok f, s') e = same refl e
  opened_by-Changed s (err x', s') e = same (ground arith) e
  opened_by-Changed s (stopped x', s') e = same refl e

  owns-decoded_by : (r : Result LockMeta) → owns (decoded_by {H = H} x file r) ≡ false
  unfolding decoded_by
  owns-decoded_by (ok m) = refl
  owns-decoded_by (err e) = refl
  owns-decoded_by (stopped h) = refl

  read_by-Changed :
      (f : H) (s : S) (r : (Text × Option Error) × S)
      → (law.there s file ≡ true → law.there r.1 file ≡ true)
      → Changed (reading f) s (read_by x file f r)
  unfolding read_by
  read_by-Changed f s ((c, none), s') e =
      same (owns-decoded_by (x.decode_meta c)) (λ h. law.close_keeps f file s' (e h))
  read_by-Changed f s ((c, some x'), s') e = same refl (λ h. law.close_keeps f file s' (e h))

  judged_by-Changed :
      (m : LockMeta) (s : S) (r : ℕ × S)
      → (law.there s file ≡ true → law.there r.1 file ≡ true)
      → Changed (judging m) s (judged_by x file m r)
  unfolding judged_by
  judged_by-Changed m s (t, s') e = same (ground arith) e

  guarded_by-Changed :
      (s : S) (r : Result H × S)
      → (law.there s file ≡ true → law.there r.1 file ≡ true)
      → Changed (guarding release) s (guarded_by x file release r)
  unfolding guarded_by back_from
  guarded_by-Changed s (ok f, s') e = same refl (λ h. law.close_keeps f file s' (e h))
  guarded_by-Changed s (err x', s') e = drops refl refl
  guarded_by-Changed s (stopped x', s') e = drops refl refl

  -- Each turn of a process that does not remove a stale lock file
  pub turn-Changed : (pc : Pc H) (s : S) → retries pc ≡ false → Changed pc s (turn x file pc s)
  unfolding turn back_from
  turn-Changed making_dir s calm = same refl (law.mkdir_keeps _ file s)
  turn-Changed creating s calm = created_by-Changed s (x.create_new file s) refl
  turn-Changed (stamping f) s calm = same refl (law.now_keeps file s)
  turn-Changed (writing f t) s calm = written_by-Changed f t s _ (law.write_keeps f _ file s)
  turn-Changed starting s calm = same refl (λ h. h)
  turn-Changed clearing s calm = same refl (law.remove_keeps _ file s (other_file file))
  turn-Changed held s calm = same refl (λ h. h)
  turn-Changed opening s calm = opened_by-Changed s _ (law.open_keeps file file s)
  turn-Changed (reading f) s calm = read_by-Changed f s _ (law.read_keeps f file s)
  turn-Changed (judging meta) s calm = judged_by-Changed meta s _ (law.now_keeps file s)
  turn-Changed pausing s calm = same refl (law.sleep_keeps _ file s)
  turn-Changed (guarding_dir retry) s calm = absurd (cc)
  turn-Changed (guarding_dir release) s calm = same refl (law.mkdir_keeps _ file s)
  turn-Changed (guarding retry) s calm = absurd (cc)
  turn-Changed (guarding release) s calm = guarded_by-Changed s _ (law.create_keeps _ file s)
  turn-Changed (removing retry) s calm = absurd (cc)
  turn-Changed (removing release) s calm = drops refl refl
  turn-Changed (unguarding retry result) s calm = absurd (cc)
  turn-Changed (unguarding release result) s calm =
      same refl (law.remove_keeps _ file s (other_file file))
  turn-Changed (returned result) s calm = same refl (λ h. h)

  keep_by-keeps :
      (f : H) (s : S) (k : Keeper H) (r : Option Error × S)
      → (law.there s file ≡ true → law.there r.1 file ≡ true)
      → law.there s file ≡ true
      → law.there (keep_by x file f r k).1 file ≡ true
  unfolding keep_by
  keep_by-keeps f s k (none, s') e h = e h
  keep_by-keeps f s k (some x', s') e h = law.close_keeps f file s' (e h)

  open_by-keeps :
      (r : Result H × S) → law.there r.1 file ≡ true → law.there (open_by x file r).1 file ≡ true
  unfolding open_by
  open_by-keeps (ok f, s') h = h
  open_by-keeps (err e, s') h = h
  open_by-keeps (stopped e, s') h = h

  meta_by-keeps :
      (f : H) (r : Result LockMeta) (s : S)
      → law.there s file ≡ true
      → law.there (meta_by x file f r s).1 file ≡ true
  unfolding meta_by
  meta_by-keeps f (ok m) s h = h
  meta_by-keeps f (err e) s h = law.close_keeps f file s h
  meta_by-keeps f (stopped e) s h = law.close_keeps f file s h

  contents_by-keeps :
      (f : H) (r : (Text × Option Error) × S)
      → law.there r.1 file ≡ true
      → law.there (contents_by x file f r).1 file ≡ true
  unfolding contents_by
  contents_by-keeps f ((c, none), s) h = meta_by-keeps f _ s h
  contents_by-keeps f ((c, some e), s) h = law.close_keeps f file s h

  refreshed_by-keeps :
      (f : H) (r : Option Error × S)
      → law.there r.1 file ≡ true
      → law.there (refreshed_by x file f r).1 file ≡ true
  unfolding refreshed_by
  refreshed_by-keeps f (none, s) h = law.close_keeps f file s h
  refreshed_by-keeps f (some e, s) h = law.close_keeps f file s h

  -- The upkeep leaves the file.
  pub keep-keeps :
      (k : Keeper H) (s : S) → law.there s file ≡ true → law.there (keep x file k s).1 file ≡ true
  unfolding keep
  keep-keeps resting s h = law.sleep_keeps _ file s h
  keep-keeps opening_rw s h = open_by-keeps _ (law.open_rw_keeps file file s h)
  keep-keeps (reading_meta f) s h = contents_by-keeps f _ (law.read_keeps f file s h)
  keep-keeps (truncating f meta) s h = keep_by-keeps f s _ _ (law.truncate_keeps f file s) h
  keep-keeps (seeking f meta) s h = keep_by-keeps f s _ _ (law.seek_keeps f file s) h
  keep-keeps (stamping_meta f meta) s h = law.now_keeps file s h
  keep-keeps (writing_meta f meta) s h = refreshed_by-keeps f _ (law.write_keeps f _ file s h)
  keep-keeps over s h = h

  -- A process comes to remove a stale lock file only by finding it stale.
  created_by-calm : (r : Result H × S) → retries (created_by x file r).0 ≡ false
  unfolding created_by
  created_by-calm (ok f, s) = refl
  created_by-calm (err e, s) = ground arith
  created_by-calm (stopped e, s) = refl

  written_by-calm : (f : H) (r : Option Error × S) → retries (written_by x file f r).0 ≡ false
  unfolding written_by
  written_by-calm f (none, s) = refl
  written_by-calm f (some e, s) = ground arith

  opened_by-calm : (r : Result H × S) → retries (opened_by x file r).0 ≡ false
  unfolding opened_by
  opened_by-calm (ok f, s) = refl
  opened_by-calm (err e, s) = ground arith
  opened_by-calm (stopped e, s) = refl

  decoded_by-calm : (r : Result LockMeta) → retries (decoded_by {H = H} x file r) ≡ false
  unfolding decoded_by
  decoded_by-calm (ok m) = refl
  decoded_by-calm (err e) = refl
  decoded_by-calm (stopped h) = refl

  read_by-calm : (f : H) (r : (Text × Option Error) × S) → retries (read_by x file f r).0 ≡ false
  unfolding read_by
  read_by-calm f ((c, none), s) = decoded_by-calm (x.decode_meta c)
  read_by-calm f ((c, some e), s) = refl

  judged_by-calm :
      (m : LockMeta) (r : ℕ × S)
      → finds_stale (judged_by x file m r).0 ≡ false
      → retries (judged_by x file m r).0 ≡ false
  unfolding judged_by
  judged_by-calm m (t, s) h = ground arith

  guarded_by-calm : (r : Result H × S) → retries (guarded_by x file release r).0 ≡ false
  unfolding guarded_by back_from
  guarded_by-calm (ok f, s) = refl
  guarded_by-calm (err e, s) = refl
  guarded_by-calm (stopped e, s) = refl

  pub turn-calm :
      (pc : Pc H) (s : S)
      → retries pc ≡ false
      → finds_stale (turn x file pc s).0 ≡ false
      → retries (turn x file pc s).0 ≡ false
  unfolding turn back_from
  turn-calm making_dir s calm found = refl
  turn-calm creating s calm found = created_by-calm (x.create_new file s)
  turn-calm (stamping f) s calm found = refl
  turn-calm (writing f t) s calm found = written_by-calm f _
  turn-calm starting s calm found = refl
  turn-calm clearing s calm found = refl
  turn-calm held s calm found = refl
  turn-calm opening s calm found = opened_by-calm _
  turn-calm (reading f) s calm found = read_by-calm f _
  turn-calm (judging meta) s calm found = judged_by-calm meta (x.now s) found
  turn-calm pausing s calm found = refl
  turn-calm (guarding_dir retry) s calm found = absurd (cc)
  turn-calm (guarding_dir release) s calm found = refl
  turn-calm (guarding retry) s calm found = absurd (cc)
  turn-calm (guarding release) s calm found = guarded_by-calm _
  turn-calm (removing retry) s calm found = absurd (cc)
  turn-calm (removing release) s calm found = refl
  turn-calm (unguarding retry result) s calm found = absurd (cc)
  turn-calm (unguarding release result) s calm found = refl
  turn-calm (returned result) s calm found = refl
