-- ===== src/Tests/FileStorage.antt =====
-- A small disk, a lock on it, and the file storage over it.
use otomatik.Base.{
  ℕ, ◌+◌, ◌≡◌, ◌↔◌, zero, suc, refl, Bool, true, false, [], ◌∷◌, Option, none, some, arith,
  Option-cases, inl, inr,
}
use otomatik.Base.Text.{Text, codes, text_eq, text_eq_iff}
use otomatik.Base.Errors.{Error, message, not_exist, already_exists}
use otomatik.Base.Map.{Map, get, put, delete, get-put, get-delete}
use otomatik.Base.Result.{Result, ok, err}
use otomatik.FileStorage.{Files, filename, store, store_in, load}
use otomatik.FileStorage.Contents.{IsDisk, load-store}
use otomatik.FileStorage.Freshness.{LockMeta}
use otomatik.FileStorage.Locks.{
  World, locks, unlocks, held, guarding_dir, release, turn, run, file_lock_is_stale, no_locks,
  making_dir, Steps, here, next, calls_lock, calls_unlock, runs, update,
}
use otomatik.FileStorage.Mutex.{mutex, locks_are_mutex}
use otomatik.FileStorage.Mutex.FileSystem.{IsFileSystem}

-- The files and the time; open files are their names.
record Disk : Type 0 where
  files : Map Text
  time : ℕ

abbrev is_there : Option Text → Bool
is_there none = false
is_there (some t) = true

abbrev on_disk : Disk → Text → Bool
on_disk d f = is_there (get d.files f)

abbrev create_on : Option Text → Text → Disk → Result Text × Disk
create_on none f d = (ok f, record d { files = put d.files f [] })
create_on (some t) f d = (err already_exists, d)

abbrev remove_on : Option Text → Text → Disk → Option Error × Disk
remove_on none f d = (some not_exist, d)
remove_on (some t) f d = (none, record d { files = delete d.files f })

abbrev open_on : Option Text → Text → Disk → Result Text × Disk
open_on none f d = (err not_exist, d)
open_on (some t) f d = (ok f, d)

abbrev read_on : Option Text → (Text × Option Error)
read_on none = ([], some not_exist)
read_on (some t) = (t, none)

abbrev write_on : Option Text → Text → Text → Disk → Option Error × Disk
write_on none f t d = (some (message "gone"), d)
write_on (some u) f t d = (none, record d { files = put d.files f t })

abbrev decode_pair : Text → Result LockMeta
decode_pair (a ∷ b ∷ []) = ok (record { created = a; updated = b })
decode_pair t = err (message "EOF")

abbrev disk : Files Disk Text LockMeta
disk = record {
  mkdir_all = λ dir d. (none, d);
  write_file = λ f t d. (none, record d { files = put d.files f t });
  read_file = λ f d. (read_on (get d.files f), d);
  remove = λ f d. remove_on (get d.files f) f d;
  stat = λ f d. (err not_exist, d);
  rel = λ base f. ok f;
  walk = λ f visit d. (([], none), d);
  dir_of = λ f. [];
  create_new = λ f d. create_on (get d.files f) f d;
  open_file = λ f d. open_on (get d.files f) f d;
  open_rw = λ f d. open_on (get d.files f) f d;
  read_all = λ f d. (read_on (get d.files f), d);
  truncate = λ f d. write_on (get d.files f) f [] d;
  seek_start = λ f d. (none, d);
  write = λ f t d. write_on (get d.files f) f t d;
  close = λ f d. d;
  encode_meta = λ m. m.created ∷ m.updated ∷ [];
  decode_meta = decode_pair;
  now = λ d. (d.time, d);
  sleep = λ n d. record d { time = d.time + n };
}

create_on-keeps :
    (g f : Text) (d : Disk)
    → on_disk d f ≡ true
    → on_disk (create_on (get d.files g) g d).1 f ≡ true
create_on-keeps g f d h = elim (Option-cases (get d.files g)) [
  | inl e ↦ rw e (rw (get-put d.files g f []) (ground arith))
  | inr (t, e) ↦ rw e h
]

write_on-keeps :
    (g t f : Text) (d : Disk)
    → on_disk d f ≡ true
    → on_disk (write_on (get d.files g) g t d).1 f ≡ true
write_on-keeps g t f d h = elim (Option-cases (get d.files g)) [
  | inl e ↦ rw e h
  | inr (u, e) ↦ rw e (rw (get-put d.files g f t) (ground arith))
]

remove_on-keeps :
    (g f : Text) (d : Disk)
    → text_eq g f ≡ false
    → on_disk d f ≡ true
    → on_disk (remove_on (get d.files g) g d).1 f ≡ true
remove_on-keeps g f d other h = elim (Option-cases (get d.files g)) [
  | inl e ↦ rw e h
  | inr (u, e) ↦ rw e (rw (get-delete d.files g f, other) h)
]

open_on-keeps :
    (g f : Text) (d : Disk) → on_disk d f ≡ true → on_disk (open_on (get d.files g) g d).1 f ≡ true
open_on-keeps g f d h = elim (Option-cases (get d.files g)) [ inl e ↦ rw e h | inr (u, e) ↦ rw e h ]

create_on-created :
    (f : Text) (d : Disk) (h : Text)
    → (create_on (get d.files f) f d).0 ≡ ok h
    → (on_disk d f ≡ false) × (on_disk (create_on (get d.files f) f d).1 f ≡ true)
create_on-created f d h e = elim (Option-cases (get d.files f)) [
  | inl a ↦ (rw a refl, rw a (rw (get-put d.files f f []) (ground (arith, text_eq_iff f f))))
  | inr (u, a) ↦ absurd (let c : err already_exists ≡ ok h = rw a at e in cc)
]

disk-IsFileSystem : IsFileSystem disk
disk-IsFileSystem = record {
  there = on_disk;
  created = create_on-created;
  create_keeps = create_on-keeps;
  remove_keeps = remove_on-keeps;
  mkdir_keeps = λ d f s h. h;
  open_keeps = open_on-keeps;
  open_rw_keeps = open_on-keeps;
  read_keeps = λ g f s h. h;
  truncate_keeps = λ g f s h. write_on-keeps g [] f s h;
  seek_keeps = λ g f s h. h;
  write_keeps = write_on-keeps;
  close_keeps = λ g f s h. h;
  now_keeps = λ f s h. h;
  sleep_keeps = λ n f s h. h;
}

abbrev lock_file : Text
lock_file = codes "l"

abbrev started : World Disk Text
started = no_locks (record { files = []; time = 100 })

-- The first process locks: seven turns after the call.
abbrev first_locks : World Disk Text
first_locks = run disk lock_file 0 (
    run disk lock_file 0 (
      run disk lock_file 0 (
        run disk lock_file 0 (
          run disk lock_file 0
            (run disk lock_file 0 (record started { pcs = update started.pcs 0 making_dir }))))))

first_locks-steps : Steps disk lock_file started (locks 0 ∷ []) first_locks
unfolding run turn get put text_eq
first_locks-steps =
    next
      (next
        (next
          (next
            (next (next (next here (calls_lock started 0 none refl)) (runs _ 0 refl refl))
              (runs _ 0 refl refl))
            (runs _ 0 refl refl))
          (runs _ 0 refl refl))
        (runs _ 0 refl refl))
      (runs _ 0 refl refl)

-- Then it calls Unlock.
locks_are_mutex_example :
    (holder : Option ℕ) × (mutex none (locks 0 ∷ unlocks 0 ∷ []) ≡ some holder)
    × ((i : ℕ) → ((update first_locks.pcs 0 (guarding_dir release)) i ≡ held) ↔ (holder ≡ some i))
unfolding run turn get put text_eq
locks_are_mutex_example =
    locks_are_mutex disk disk-IsFileSystem lock_file (record { files = []; time = 100 })
      (next first_locks-steps (calls_unlock first_locks 0 refl))

abbrev turns : ℕ → ℕ → World Disk Text → World Disk Text
turns i zero w = w
turns i (suc n) w = turns i n (run disk lock_file i w)

-- A lock file that nobody keeps, and two processes that call Lock
abbrev abandoned : World Disk Text
abandoned = record {
  outside = record { files = (lock_file, 1 ∷ 1 ∷ []) ∷ []; time = 20000000000 };
  pcs = λ i. making_dir;
  keepers = [];
}

-- Both find it stale; the first removes it and locks, the second removes the new one and locks too.
abbrev raced : World Disk Text
raced = turns 1 10 (turns 0 10 (turns 1 5 (turns 0 5 abandoned)))

stale_race_test : (raced.pcs 0 ≡ held) × (raced.pcs 1 ≡ held)
unfolding run turn file_lock_is_stale get put delete text_eq
stale_race_test = (refl, refl)

abbrev disk-IsDisk : IsDisk disk
disk-IsDisk = record {
  contents = λ d f. get d.files f;
  written = λ f v s g h. get-put s.files f g v;
  mkdir_keeps = λ d s g. refl;
  reads = λ f v s h. rw h refl;
}

load-store_example :
    ((load disk
        (codes "/r")
        (codes "a/b")
        (store disk (codes "/r") (codes "a//b") (codes "v") abandoned.outside).1).0
      ≡ ok (codes "v"))
    × (get (store disk (codes "/r") (codes "a//b") (codes "v") abandoned.outside).1.files lock_file
        ≡ get abandoned.outside.files lock_file)
unfolding get
load-store_example =
    load-store disk disk-IsDisk (codes "/r") (codes "a//b") (codes "v") abandoned.outside
      (unfold store store_in in refl) (codes "a/b") (unfold filename in refl) lock_file
      (unfold filename text_eq in refl)

-- Two keys, one file.
filename_test : filename (codes "/r") (codes "a//b") ≡ filename (codes "/r") (codes "a/b")
unfolding filename
filename_test = refl
