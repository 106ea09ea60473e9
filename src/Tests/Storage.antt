-- ===== src/Tests/Storage.antt =====
-- Runs of storeTx and of the keys of storage.go, over a storage that is a map.
use otomatik.Base.{
  ◌≡◌, ◌≢◌, refl, sym, ◌∙◌, true, false, List, [], ◌∷◌, ◌++◌, none, some, if◌then◌else◌, All,
  Bool-cases, inl, inr,
}
use otomatik.Base.Text.{Text, codes, text_eq, text_eq_refl}
use otomatik.Base.Map.{Map, get, put, delete, get-put, get-delete}
use otomatik.Base.Errors.{Error, not_exist}
use otomatik.Base.Result.{ok, err}
use otomatik.Storage.{Storage, KeyValue, store_tx, safe}
use otomatik.Storage.Transaction.{MapLike, Deletes, put_all, has_key, written, store_tx_lem}
use otomatik.Storage.SafeKey.{IsSafeChar, has_dots, safe_lem, safe_lets_dots_through}

-- A disk that refuses the key `k2`.
abbrev pub disk : Storage (Map Text)
disk = record {
  store = λ k v m. if text_eq k (codes "k2") then (some not_exist, m) else (none, put m k v);
  load = λ k m. (elim (get m k) [ none ↦ err not_exist | some v ↦ ok v ], m);
  delete = λ k m. (none, delete m k);
  exists = λ k m. (elim (get m k) [ none ↦ false | some v ↦ true ], m);
  list = λ prefix recursive m. (ok [], m);
  stat = λ k m. (err not_exist, m);
  lock = λ k m. (none, m);
  unlock = λ k m. (none, m);
}

pub some-ne-none : (e : Error) → some e ≢ none
some-ne-none e h = cc

pub none-ne-some : (e : Error) → none ≢ some e
none-ne-some e h = cc

abbrev pub disk-MapLike : MapLike disk
disk-MapLike = record {
  view = λ m k. get m k;
  stored = λ k v m j h. elim (Bool-cases (text_eq k (codes "k2"))) [
    | inl e ↦ absurd (some-ne-none not_exist (sym (rw e refl) ∙ h))
    | inr e ↦ rw e (get-put m k j v)
  ];
  store_others = λ k v m j h. elim (Bool-cases (text_eq k (codes "k2"))) [
    | inl e ↦ rw e refl
    | inr e ↦ rw e (get-put m k j v ∙ rw h refl)
  ];
  deleted = λ k m h. get-delete m k k ∙ rw (text_eq_refl k) refl;
  delete_others = λ k m j h. get-delete m k j ∙ rw h refl;
}

pub disk-Deletes : Deletes disk disk-MapLike
disk-Deletes k m = get-delete m k k ∙ rw (text_eq_refl k) refl

abbrev two_pairs : List KeyValue
two_pairs =
    (record { key = codes "k1"; value = codes "v1" })
    ∷ (record { key = codes "k2"; value = codes "v2" })
    ∷ []

abbrev before : Map Text
before = (codes "k1", codes "old") ∷ []

store_tx_lem_example :
    ((store_tx disk two_pairs before).0 ≡ none
      → (j : Text) → get (store_tx disk two_pairs before).1 j ≡ written two_pairs j (get before j))
    × ((err : Error)
        → (store_tx disk two_pairs before).0 ≡ some err
        → (done : List KeyValue) × (kv : KeyValue) × (after : List KeyValue) × (two_pairs
            ≡ done ++ kv ∷ after)
          × ((disk.store kv.key kv.value (put_all disk done before)).0 ≡ some err)
          × ((j : Text)
              → (has_key done j ≡ true → get (store_tx disk two_pairs before).1 j ≡ none)
                × (has_key done j ≡ false
                    → text_eq kv.key j ≡ false
                    → get (store_tx disk two_pairs before).1 j ≡ get before j)))
store_tx_lem_example = store_tx_lem disk disk-MapLike disk-Deletes two_pairs before

safe_lem_example :
    All IsSafeChar (safe (codes " *.A.com:443"))
    × (has_dots (safe (codes " *.A.com:443")) ≡ false
        → safe (safe (codes " *.A.com:443")) ≡ safe (codes " *.A.com:443"))
safe_lem_example = safe_lem (codes " *.A.com:443")

safe_lets_dots_through_example :
    (safe (codes "a.!.b") ≡ codes "a..b") × (safe (safe (codes "a.!.b")) ≡ codes "ab")
safe_lets_dots_through_example =
    safe_lets_dots_through (codes "a") (codes "b") (refl, tt) (refl, tt) refl refl
