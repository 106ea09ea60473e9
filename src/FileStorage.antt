-- ===== src/FileStorage.antt =====
-- filestorage.go: the keys of FileStorage as files; the locks are in FileStorage/Locks.antt.
pub mod Contents
pub mod Freshness
pub mod Locks
pub mod Mutex
use otomatik.Base.{
  ℕ, Bool, true, false, not, ◌||◌, List, [], ◌∷◌, ◌++◌, Option, none, some, if◌then◌else◌,
}
use otomatik.Base.Text.{Text, codes, text_eq, is_empty}
use otomatik.Base.Errors.{Error, message, not_exist, already_exists}
use otomatik.Base.Result.{Result, ok, err, stopped}
use otomatik.Keys.{path_join}
use otomatik.Storage.{KeyInfo}

-- What os.FileInfo says of a file.
pub record FileInfo : Type 0 where
  pub mod_time : ℕ
  pub size : ℕ
  pub is_dir : Bool

-- What filepath.Walk tells its function of a file; `dir` is IsDir of its info, if it has one.
pub record Visit : Type 0 where
  pub path : Text
  pub error : Option Error
  pub dir : Option Bool

-- What the function of filepath.Walk answers: nil, filepath.SkipDir or another error.
pub data Answer : Type 0 where
  go_on : Answer
  skip_dir : Answer
  fail : Error → Answer

-- Packages os, io/ioutil, path/filepath, time and encoding/json, on a state `S` of the file system and
-- the clock; `H` are open files. `create_new` is OpenFile with O_CREATE, O_WRONLY and O_EXCL, `open`
-- is Open, `open_rw` OpenFile with O_RDWR. ReadFile and ReadAll leave contents beside an error. `walk`
-- has the keys that its function collects; a lock's times are those of lockMeta.
pub record Files (S H Meta : Type 0) : Type 0 where
  pub mkdir_all : Text → S → Option Error × S
  pub write_file : Text → Text → S → Option Error × S
  pub read_file : Text → S → (Text × Option Error) × S
  pub remove : Text → S → Option Error × S
  pub stat : Text → S → Result FileInfo × S
  pub rel : Text → Text → Result Text
  pub walk : Text → (Visit → List Text → Answer × List Text) → S → (List Text × Option Error) × S
  pub dir_of : Text → Text
  pub create_new : Text → S → Result H × S
  pub open_file : Text → S → Result H × S
  pub open_rw : Text → S → Result H × S
  pub read_all : H → S → (Text × Option Error) × S
  pub truncate : H → S → Option Error × S
  pub seek_start : H → S → Option Error × S
  pub write : H → Text → S → Option Error × S
  pub close : H → S → S
  pub encode_meta : Meta → Text
  pub decode_meta : Text → Result Meta
  pub now : S → ℕ × S
  pub sleep : ℕ → S → S

-- os.IsNotExist, which does not look into wrapped errors
unfoldable pub is_not_exist : Error → Bool
is_not_exist not_exist = true
is_not_exist _ = false

-- os.IsExist
unfoldable pub is_exist : Error → Bool
is_exist already_exists = true
is_exist _ = false

-- Filename, where the separator is a slash
unfoldable pub filename : Text → Text → Text
unfolding path_join
filename root key = path_join (root ∷ key ∷ [])

-- The function that List gives to filepath.Walk, by what filepath.Rel returns
unfoldable pub collect : Text → Bool → Bool → Result Text → List Text → Answer × List Text
collect prefix recursive is_dir (ok suffix) keys = (
  if not recursive then (if is_dir then skip_dir else go_on) else go_on,
  keys ++ path_join (prefix ∷ suffix ∷ []) ∷ [],
)
collect prefix recursive is_dir (err e) keys = (fail (message "could not make path relative"), keys)
collect prefix recursive is_dir (stopped h) keys = (fail (message "stopped"), keys)

module _ {S H Meta : Type 0} (x : Files S H Meta) (root : Text) where
  unfoldable pub exists_by : Result FileInfo × S → Bool × S
  unfolding is_not_exist
  exists_by (ok info, s) = (true, s)
  exists_by (err e, s) = (not (is_not_exist e), s)
  exists_by (stopped h, s) = (true, s)

  -- Exists
  unfoldable pub exists : Text → S → Bool × S
  unfolding exists_by filename
  exists key s = exists_by (x.stat (filename root key) s)

  unfoldable pub store_in : Text → Text → Option Error × S → Option Error × S
  store_in file value (some e, s) = (some e, s)
  store_in file value (none, s) = x.write_file file value s

  -- Store
  unfoldable pub store : Text → Text → S → Option Error × S
  unfolding store_in filename
  store key value s =
      store_in (filename root key) value (x.mkdir_all (x.dir_of (filename root key)) s)

  -- Load after ReadFile
  unfoldable pub loaded_by : (Text × Option Error) × S → Result Text × S
  unfolding is_not_exist
  loaded_by ((contents, none), s) = (ok contents, s)
  loaded_by ((contents, some e), s) = (if is_not_exist e then err e else ok contents, s)

  -- Load
  unfoldable pub load : Text → S → Result Text × S
  unfolding loaded_by filename
  load key s = loaded_by (x.read_file (filename root key) s)

  -- Delete
  unfoldable pub delete : Text → S → Option Error × S
  unfolding filename
  delete key s = x.remove (filename root key) s

  -- The function that List gives to filepath.Walk
  unfoldable pub visit_key :
      Text → Bool → Option Error → Option Bool → Text → List Text → Answer × List Text
  unfolding collect filename
  visit_key prefix recursive (some e) dir path keys = (fail e, keys)
  visit_key prefix recursive none none path keys = (fail (message "file info is nil"), keys)
  visit_key prefix recursive none (some is_dir) path keys =
      if text_eq path (filename root prefix)
      then (go_on, keys)
      else collect prefix recursive is_dir (x.rel (filename root prefix) path) keys

  abbrev pub listed_by : (List Text × Option Error) × S → Result (List Text) × S
  listed_by ((keys, none), s) = (ok keys, s)
  listed_by ((keys, some e), s) = (err e, s)

  -- List; its callers do not use the keys beside an error.
  unfoldable pub list : Text → Bool → S → Result (List Text) × S
  unfolding visit_key filename
  list prefix recursive s = listed_by (
      x.walk (filename root prefix) (λ v keys. visit_key prefix recursive v.error v.dir v.path keys)
        s)

  abbrev pub info_by : Text → Result FileInfo × S → Result KeyInfo × S
  info_by key (ok fi, s) = (
    ok (record { key = key; modified = fi.mod_time; size = fi.size; is_terminal = not fi.is_dir }),
    s,
  )
  info_by key (err e, s) = (err e, s)
  info_by key (stopped h, s) = (stopped h, s)

  -- Stat
  unfoldable pub stat : Text → S → Result KeyInfo × S
  unfolding filename
  stat key s = info_by key (x.stat (filename root key) s)

-- os.Getenv, of the variables that homeDir and dataDir read
pub record Environment : Type 0 where
  pub home : Text
  pub home_drive : Text
  pub home_path : Text
  pub user_profile : Text
  pub xdg_data_home : Text
  pub is_windows : Bool

abbrev pub windows_home : Environment → Text
windows_home env =
    if is_empty env.home_drive || is_empty env.home_path
    then env.user_profile
    else env.home_drive ++ env.home_path

abbrev pub dot_if_empty : Text → Text
dot_if_empty home = if is_empty home then codes "." else home

-- homeDir
unfoldable pub home_dir : Environment → Text
home_dir env = dot_if_empty (
    if is_empty env.home then (if env.is_windows then windows_home env else env.home) else env.home)

-- dataDir
unfoldable pub data_dir : Environment → Text
unfolding home_dir
data_dir env =
    let base_dir : Text =
      if is_empty env.xdg_data_home
      then path_join (home_dir env ∷ codes ".local" ∷ codes "share" ∷ [])
      else env.xdg_data_home in
    path_join (base_dir ∷ codes "otomatik" ∷ [])
