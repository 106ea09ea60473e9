-- ===== src/FileStorage/Contents.antt =====
-- filestorage.go: what Load returns after Store.
use otomatik.Base.{◌≡◌, refl, ap, ◌∙◌, subst, Option, none, some, if◌then◌else◌, false}
use otomatik.Base.Text.{Text, text_eq, text_eq_refl}
use otomatik.Base.Errors.{Error}
use otomatik.Base.Result.{ok}
use otomatik.FileStorage.{Files, filename, store, store_in, load, loaded_by}

-- The file system keeps the contents of regular files: WriteFile without an error writes one file, and
-- MkdirAll none; ReadFile reads.
pub record IsDisk {S H Meta : Type 0} (x : Files S H Meta) : Type 0 where
  pub contents : S → Text → Option Text
  pub written :
      (f v : Text) (s : S) (g : Text)
      → (x.write_file f v s).0 ≡ none
      → contents (x.write_file f v s).1 g ≡ (if text_eq f g then some v else contents s g)
  pub mkdir_keeps : (d : Text) (s : S) (g : Text) → contents (x.mkdir_all d s).1 g ≡ contents s g
  pub reads : (f v : Text) (s : S) → contents s f ≡ some v → (x.read_file f s).0 ≡ (v, none)

module _ {S H Meta : Type 0} (x : Files S H Meta) (law : IsDisk x) (root : Text) where
  store_in_lem :
      (file v : Text) (r : Option Error × S)
      → (store_in x root file v r).0 ≡ none
      → (g : Text)
      → law.contents (store_in x root file v r).1 g
        ≡ (if text_eq file g then some v else law.contents r.1 g)
  unfolding store_in
  store_in_lem file v (none, s) h g = law.written file v s g h
  store_in_lem file v (some e, s) h g = cc

  loaded_by_lem :
      (r : (Text × Option Error) × S) (v : Text) → r.0 ≡ (v, none) → (loaded_by x root r).0 ≡ ok v
  unfolding loaded_by
  loaded_by_lem ((c, none), s) v h = ap (λ p. ok p.0) h
  loaded_by_lem ((c, some e), s) v h = cc

  -- Over a file system that keeps contents: when Store of a key returns no error, Load of any key
  -- with the same Filename returns the value, and the contents of every other file are as before.
  pub load-store :
      (key value : Text) (s : S)
      → (store x root key value s).0 ≡ none
      → (j : Text) → filename root key ≡ filename root j
      → (file : Text) → text_eq (filename root key) file ≡ false
      → ((load x root j (store x root key value s).1).0 ≡ ok value)
        × (law.contents (store x root key value s).1 file ≡ law.contents s file)
  unfolding store load
  load-store key value s h j same file other = (
    loaded_by_lem (x.read_file (filename root j) (store x root key value s).1) value (
        law.reads (filename root j) value (store x root key value s).1 (
          subst (λ f. law.contents (store x root key value s).1 f ≡ some value) same
            (in_store (filename root key) ∙ rw (text_eq_refl (filename root key)) refl))),
    in_store file ∙ rw other (law.mkdir_keeps (x.dir_of (filename root key)) s file),
  )
    where
      in_store :
          (file : Text)
          → law.contents (store x root key value s).1 file ≡ (
              if text_eq (filename root key) file
              then some value
              else law.contents (x.mkdir_all (x.dir_of (filename root key)) s).1 file)
      in_store file =
          store_in_lem (filename root key) value (x.mkdir_all (x.dir_of (filename root key)) s) h
            file
