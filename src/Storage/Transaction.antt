-- ===== src/Storage/Transaction.antt =====
-- storeTx against a storage that behaves like a map.
use otomatik.Base.{
  ◌≡◌, ◌≢◌, refl, sym, ap, ◌∙◌, subst, Bool, true, false, ◌||◌, List, [], ◌∷◌, ◌++◌, Option,
  Bool-cases, none, some, if◌then◌else◌, arith, Option-cases, inl, inr,
}
use otomatik.Base.Text.{Text, text_eq, text_eq_iff}
use otomatik.Base.Errors.{Error, not_exist}
use otomatik.Base.Result.{Result}
use otomatik.Storage.{Storage, KeyValue, roll_back, store_all, store_tx}

-- The storage is a map: Store without an error puts the value, Delete without an error takes the key
-- away, and neither, with an error or without, changes what is under another key. What they leave
-- under their own key with an error is open.
pub record MapLike {S : Type 0} (x : Storage S) : Type 0 where
  pub view : S → Text → Option Text
  pub stored :
      (k v : Text) (s : S) (j : Text)
      → (x.store k v s).0 ≡ none
      → view (x.store k v s).1 j ≡ (if text_eq k j then some v else view s j)
  pub store_others :
      (k v : Text) (s : S) (j : Text) → text_eq k j ≡ false → view (x.store k v s).1 j ≡ view s j
  pub deleted : (k : Text) (s : S) → (x.delete k s).0 ≡ none → view (x.delete k s).1 k ≡ none
  pub delete_others :
      (k : Text) (s : S) (j : Text) → text_eq k j ≡ false → view (x.delete k s).1 j ≡ view s j

-- No Delete leaves its key, as when none fails.
abbrev pub Deletes : {S : Type 0} (x : Storage S) → MapLike x → Type 0
Deletes {S} x law = (k : Text) (s : S) → law.view (x.delete k s).1 k ≡ none

-- Load and Exists read the map, and change nothing.
pub record IsReadable {S : Type 0} (x : Storage S) (law : MapLike x) : Type 0 where
  pub loaded :
      (k : Text) (s : S)
      → (x.load k s).0 ≡ elim (law.view s k) [ none ↦ Result.err not_exist | some v ↦ Result.ok v ]
  pub load_keeps : (k : Text) (s : S) (j : Text) → law.view (x.load k s).1 j ≡ law.view s j
  pub found :
      (k : Text) (s : S) → (x.exists k s).0 ≡ elim (law.view s k) [ none ↦ false | some v ↦ true ]
  pub exists_keeps : (k : Text) (s : S) (j : Text) → law.view (x.exists k s).1 j ≡ law.view s j

-- Whether a key is among those of the pairs.
abbrev pub has_key : List KeyValue → Text → Bool
has_key [] j = false
has_key (kv ∷ all) j = text_eq kv.key j || has_key all j

-- The value of the last pair with the key, or else what there was before.
abbrev pub written : List KeyValue → Text → Option Text → Option Text
written [] j old = old
written (kv ∷ all) j old = written all j (if text_eq kv.key j then some kv.value else old)

-- The storage after each of the pairs was given to Store
abbrev pub put_all : {S : Type 0} → Storage S → List KeyValue → S → S
put_all x [] s = s
put_all x (kv ∷ all) s = put_all x all (x.store kv.key kv.value s).1

-- The pairs that were stored, the last one first, after some more
abbrev onto : List KeyValue → List KeyValue → List KeyValue
onto [] stored = stored
onto (kv ∷ before) stored = onto before (kv ∷ stored)

has_key-onto :
    (before stored : List KeyValue) (j : Text)
    → has_key (onto before stored) j ≡ has_key before j || has_key stored j
has_key-onto [] stored j = refl
has_key-onto (kv ∷ before) stored j = has_key-onto before (kv ∷ stored) j ∙ ground arith

some-ne-none : (err : Error) → some err ≢ none
some-ne-none err e = cc

module _ {S : Type 0} (x : Storage S) (law : MapLike x) where
  roll_back_others :
      (stored : List KeyValue) (s : S) (j : Text)
      → has_key stored j ≡ false
      → law.view (roll_back x stored s) j ≡ law.view s j
  unfolding roll_back
  roll_back_others [] s j h = refl
  roll_back_others (kv ∷ stored) s j h =
      roll_back_others stored (x.delete kv.key s).1 j (ground (arith, h))
      ∙ law.delete_others kv.key s j (ground (arith, h))

  -- What Delete leaves where no Delete leaves its key
  deleted_at :
      Deletes x law
      → (k : Text) (s : S) (j : Text)
      → law.view (x.delete k s).1 j ≡ (if text_eq k j then none else law.view s j)
  deleted_at deletes k s j = elim (Bool-cases (text_eq k j)) [
    | inl e ↦
        subst (λ l. law.view (x.delete k s).1 l ≡ none) ((text_eq_iff k j).0 e) (deletes k s)
        ∙ rw e refl
    | inr e ↦ law.delete_others k s j e ∙ rw e refl
  ]

  roll_back_lem :
      Deletes x law
      → (stored : List KeyValue) (s : S) (j : Text)
      → law.view (roll_back x stored s) j ≡ (if has_key stored j then none else law.view s j)
  unfolding roll_back
  roll_back_lem deletes [] s j = refl
  roll_back_lem deletes (kv ∷ stored) s j =
      roll_back_lem deletes stored (x.delete kv.key s).1 j
      ∙ ground (arith, deleted_at deletes kv.key s j)

  put_all_others :
      (all : List KeyValue) (s : S) (j : Text)
      → has_key all j ≡ false
      → law.view (put_all x all s) j ≡ law.view s j
  put_all_others [] s j h = refl
  put_all_others (kv ∷ all) s j h =
      put_all_others all (x.store kv.key kv.value s).1 j (ground (arith, h))
      ∙ law.store_others kv.key kv.value s j (ground (arith, h))

  store_all-none :
      (stored : List KeyValue) (kv : KeyValue) (all : List KeyValue) (s : S)
      → (x.store kv.key kv.value s).0 ≡ none
      → store_all x stored (kv ∷ all) s
        ≡ store_all x (kv ∷ stored) all (x.store kv.key kv.value s).1
  unfolding store_all
  store_all-none stored kv all s h = rw (h, store_all) refl

  store_all-some :
      (stored : List KeyValue) (kv : KeyValue) (all : List KeyValue) (s : S) (err : Error)
      → (x.store kv.key kv.value s).0 ≡ some err
      → store_all x stored (kv ∷ all) s
        ≡ (some err, roll_back x stored (x.store kv.key kv.value s).1)
  unfolding store_all
  store_all-some stored kv all s err h = rw (h, store_all) refl

  store_all_success :
      (stored all : List KeyValue) (s : S) (j : Text)
      → (store_all x stored all s).0 ≡ none
      → law.view (store_all x stored all s).1 j ≡ written all j (law.view s j)
  store_all_success stored [] s j h = unfold store_all in refl
  store_all_success stored (kv ∷ all) s j h = elim (Option-cases (x.store kv.key kv.value s).0) [
    | inl e ↦
        let next = store_all-none stored kv all s e in
        ap (λ r. law.view r.1 j) next
        ∙ store_all_success (kv ∷ stored) all (x.store kv.key kv.value s).1 j
            (ap (λ r. r.0) (sym next) ∙ h)
        ∙ ap (written all j) (law.stored kv.key kv.value s j e)
    | inr (err, e) ↦
        absurd (some-ne-none err (ap (λ r. r.0) (sym (store_all-some stored kv all s err e)) ∙ h))
  ]

  -- The pairs from the first one that Store refuses with the error, and how storeTx ends there
  abbrev FailsAt : List KeyValue → List KeyValue → S → Error → Type 0
  FailsAt stored all s err =
      (before : List KeyValue) × (kv : KeyValue) × (after : List KeyValue) × (all
        ≡ before ++ kv ∷ after)
      × ((x.store kv.key kv.value (put_all x before s)).0 ≡ some err)
      × (store_all x stored all s ≡ (
        some err,
        roll_back x (onto before stored) (x.store kv.key kv.value (put_all x before s)).1,
      ))

  store_all-FailsAt :
      (stored all : List KeyValue) (s : S) (err : Error)
      → (store_all x stored all s).0 ≡ some err
      → FailsAt stored all s err
  store_all-FailsAt stored [] s err h = absurd (some-ne-none err (unfold store_all in sym h))
  store_all-FailsAt stored (kv ∷ all) s err h = elim (Option-cases (x.store kv.key kv.value s).0) [
    | inl e ↦
        let next = store_all-none stored kv all s e in
        let (before, bad, after, split, refused, ends) =
          store_all-FailsAt (kv ∷ stored) all (x.store kv.key kv.value s).1 err
            (ap (λ r. r.0) (sym next) ∙ h) in
        (kv ∷ before, bad, after, ap (λ l. kv ∷ l) split, refused, next ∙ ends)
    | inr (now, e) ↦
        let ended = store_all-some stored kv all s now e in
        let same : some now ≡ some err = ap (λ r. r.0) (sym ended) ∙ h in
        (
          [],
          kv,
          all,
          refl,
          e ∙ same,
          ended ∙ ap (λ o. (o, roll_back x stored (x.store kv.key kv.value s).1)) same,
        )
  ]

  -- For every storage that is a map, and in which no Delete leaves its key: when `store_tx` returns no
  -- error, each key has the value of the last pair with it, or what it had if no pair has it; when
  -- `store_tx` returns an error, that is of Store for one of the pairs, after those before it: nothing is
  -- left under the keys of the pairs before it, and every other key but its own has what it had.
  pub store_tx_lem :
      Deletes x law
      → (all : List KeyValue) (s : S)
      → ((store_tx x all s).0 ≡ none
          → (j : Text) → law.view (store_tx x all s).1 j ≡ written all j (law.view s j))
        × ((err : Error)
            → (store_tx x all s).0 ≡ some err
            → (before : List KeyValue) × (kv : KeyValue) × (after : List KeyValue) × (all
                ≡ before ++ kv ∷ after)
              × ((x.store kv.key kv.value (put_all x before s)).0 ≡ some err)
              × ((j : Text)
                  → (has_key before j ≡ true → law.view (store_tx x all s).1 j ≡ none)
                    × (has_key before j ≡ false
                        → text_eq kv.key j ≡ false
                        → law.view (store_tx x all s).1 j ≡ law.view s j)))
  unfolding store_tx
  store_tx_lem deletes all s = (
    λ h j. store_all_success [] all s j h,
    λ err h.
        let (before, kv, after, split, refused, ends) = store_all-FailsAt [] all s err h in
        let left = (x.store kv.key kv.value (put_all x before s)).1 in
        (
          before,
          kv,
          after,
          split,
          refused,
          λ j.
              let at : law.view (store_all x [] all s).1 j
                  ≡ law.view (roll_back x (onto before []) left) j =
                ap (λ r. law.view r.1 j) ends in
              let keys = has_key-onto before [] j in
              (
                λ own. at ∙ roll_back_lem deletes (onto before []) left j ∙ rw (keys, own) refl,
                λ other apart.
                    at
                    ∙ roll_back_others (onto before []) left j (ground (arith, keys, other))
                    ∙ law.store_others kv.key kv.value (put_all x before s) j apart
                    ∙ put_all_others before s j other,
              ),
        ),
  )

  -- What storeTx leaves when it returns no error
  pub store_tx_stores :
      (all : List KeyValue) (s : S)
      → (store_tx x all s).0 ≡ none
      → (j : Text) → law.view (store_tx x all s).1 j ≡ written all j (law.view s j)
  unfolding store_tx
  store_tx_stores all s h j = store_all_success [] all s j h
