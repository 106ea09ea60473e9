-- ===== src/FileStorage/Freshness.antt =====
-- filestorage.go: keepLockfileFresh, each call of the system a step.
use otomatik.Base.{ℕ, Option, none, some, take}
use otomatik.Base.Text.{Text}
use otomatik.Base.Errors.{Error}
use otomatik.Base.Result.{Result, ok, err, stopped}
use otomatik.FileStorage.{Files}

-- lockMeta
pub record LockMeta : Type 0 where
  pub created : ℕ
  pub updated : ℕ

-- lockFreshnessInterval, in nanoseconds
abbrev pub lock_freshness_interval : ℕ
lock_freshness_interval = 5000000000

-- What the goroutine of keepLockfileFresh does next
pub data Keeper (H : Type 0) : Type 0 where
  resting : Keeper H
  opening_rw : Keeper H
  reading_meta : H → Keeper H
  truncating : H → LockMeta → Keeper H
  seeking : H → LockMeta → Keeper H
  stamping_meta : H → LockMeta → Keeper H
  writing_meta : H → LockMeta → Keeper H
  over : Keeper H

module _ {S H : Type 0} (x : Files S H LockMeta) (file : Text) where
  -- updateLockfileFreshness after a call that returns an error or none
  unfoldable pub keep_by : H → Option Error × S → Keeper H → Keeper H × S
  keep_by f (none, s) k = (k, s)
  keep_by f (some e, s) k = (over, x.close f s)

  unfoldable pub open_by : Result H × S → Keeper H × S
  open_by (ok f, s) = (reading_meta f, s)
  open_by (err e, s) = (over, s)
  open_by (stopped h, s) = (over, s)

  unfoldable pub meta_by : H → Result LockMeta → S → Keeper H × S
  meta_by f (ok meta) s = (truncating f meta, s)
  meta_by f (err e) s = (over, x.close f s)
  meta_by f (stopped h) s = (over, x.close f s)

  -- Of the contents updateLockfileFreshness reads 2,048 bytes.
  unfoldable pub contents_by : H → (Text × Option Error) × S → Keeper H × S
  unfolding meta_by
  contents_by f ((contents, none), s) = meta_by f (x.decode_meta (take 2048 contents)) s
  contents_by f ((contents, some e), s) = (over, x.close f s)

  abbrev pub updated_by : H → LockMeta → ℕ × S → Keeper H × S
  updated_by f meta (t, s) = (writing_meta f (record meta { updated = t }), s)

  -- updateLockfileFreshness after Encode, and the loop of keepLockfileFresh
  unfoldable pub refreshed_by : H → Option Error × S → Keeper H × S
  refreshed_by f (none, s) = (resting, x.close f s)
  refreshed_by f (some e, s) = (over, x.close f s)

  -- The next call of the goroutine of keepLockfileFresh, in updateLockfileFreshness
  unfoldable pub keep : Keeper H → S → Keeper H × S
  unfolding keep_by open_by contents_by refreshed_by
  keep resting s = (opening_rw, x.sleep lock_freshness_interval s)
  keep opening_rw s = open_by (x.open_rw file s)
  keep (reading_meta f) s = contents_by f (x.read_all f s)
  keep (truncating f meta) s = keep_by f (x.truncate f s) (seeking f meta)
  keep (seeking f meta) s = keep_by f (x.seek_start f s) (stamping_meta f meta)
  keep (stamping_meta f meta) s = updated_by f meta (x.now s)
  keep (writing_meta f meta) s = refreshed_by f (x.write f (x.encode_meta meta) s)
  keep over s = (over, s)
