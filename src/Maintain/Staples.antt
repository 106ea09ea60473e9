-- ===== src/Maintain/Staples.antt =====
-- maintain.go: which staples deleteOldOCSPStaples deletes.
use otomatik.Base.{
  ◌≡◌, ◌≤◌, ◌<◌, refl, sym, ap, ◌∙◌, subst, ℕ, Bool, true, false, ◌||◌, List, [], ◌∷◌, Option, none,
  some, ltb, arith, Bool-cases, Option-cases, ◌⊎◌, inl, inr,
}
use otomatik.Base.Text.{Text, text_eq, text_eq_iff}
use otomatik.Base.Errors.{not_exist}
use otomatik.Base.Result.{Result, ok, err, stopped, err-ne-ok, stopped-ne-ok}
use otomatik.Certificate.{OcspResponse}
use otomatik.Keys.{prefix_ocsp}
use otomatik.Storage.Transaction.{MapLike, IsReadable, Deletes}
use otomatik.Maintain.{
  Cleaner, delete_if_old, staple_round, after_round, delete_staples, delete_listed,
  delete_old_ocsp_staples,
}

-- The clock reads times between two, and its readings change nothing in the storage, in which no Delete
-- leaves its key.
pub record IsCleaner {S : Type 0} (x : Cleaner S) (law : MapLike x.storage) (first last : ℕ)
    : Type 0 where
  pub from_first : (s : S) → first ≤ (x.now s).0
  pub to_last : (s : S) → (x.now s).0 ≤ last
  pub deletes : Deletes x.storage law
  pub now_keeps : (s : S) (j : Text) → law.view (x.now s).1 j ≡ law.view s j

-- A value that is not to be deleted until `last`: it parses to a response that is not over by then.
abbrev pub IsCurrent : {S : Type 0} → Cleaner S → ℕ → Text → Type 0
IsCurrent x last v =
    (resp : OcspResponse) × (x.parse_response v ≡ some resp) × (last ≤ resp.next_update)

module _ {S : Type 0} (x : Cleaner S) (law : MapLike x.storage) (reads : IsReadable x.storage law)
    (first last : ℕ) (clock : IsCleaner x law first last) where
  -- A key keeps its value in a round for another key.
  delete_if_old-other :
      (key j : Text) (r : Option OcspResponse) (s : S)
      → text_eq key j ≡ false
      → law.view (delete_if_old x key r s).1 j ≡ law.view s j
  unfolding delete_if_old
  delete_if_old-other key j (some resp) s other =
      elim (Bool-cases (ltb resp.next_update (x.now s).0)) [
        | inl e ↦ rw e (law.delete_others key (x.now s).1 j other ∙ clock.now_keeps s j)
        | inr e ↦ rw e (clock.now_keeps s j)
      ]
  delete_if_old-other key j none s other = law.delete_others key s j other

  delete_if_old-current :
      (key j : Text) (resp : OcspResponse) (s : S)
      → last ≤ resp.next_update
      → law.view (delete_if_old x key (some resp) s).1 j ≡ law.view s j
  unfolding delete_if_old
  delete_if_old-current key j resp s current =
      rw (in_time (ltb resp.next_update (x.now s).0) refl) (clock.now_keeps s j)
    where
      in_time :
          (b : Bool)
          → ltb resp.next_update (x.now s).0 ≡ b
          → ltb resp.next_update (x.now s).0 ≡ false
      in_time true e = absurd (ground (arith, e, current, clock.to_last s))
      in_time false e = e

  staple_round-other :
      (key j : Text) (r : Result Text × S)
      → text_eq key j ≡ false
      → law.view (staple_round x key r).1 j ≡ law.view r.1 j
  unfolding staple_round
  staple_round-other key j (ok v, s) other = delete_if_old-other key j (x.parse_response v) s other
  staple_round-other key j (err e, s) other = refl
  staple_round-other key j (stopped h, s) other = refl

  round-other :
      (key j : Text) (s : S)
      → text_eq key j ≡ false
      → law.view (staple_round x key (x.storage.load key s)).1 j ≡ law.view s j
  round-other key j s other =
      staple_round-other key j (x.storage.load key s) other ∙ reads.load_keeps key s j

  load_some : (j v : Text) (s : S) → law.view s j ≡ some v → (x.storage.load j s).0 ≡ ok v
  load_some j v s has = reads.loaded j s ∙ rw has refl

  load_none : (j : Text) (s : S) → law.view s j ≡ none → (x.storage.load j s).0 ≡ err not_exist
  load_none j s nothing = reads.loaded j s ∙ rw nothing refl

  -- The round of a key that has a value.
  round-found :
      (j v : Text) (s : S)
      → law.view s j ≡ some v
      → staple_round x j (x.storage.load j s)
        ≡ delete_if_old x j (x.parse_response v) (x.storage.load j s).1
  unfolding staple_round
  round-found j v s has =
      ap (λ r. staple_round x j (r, (x.storage.load j s).1)) (load_some j v s has)

  -- A round keeps a current value.
  round-current :
      (key j v : Text) (s : S)
      → law.view s j ≡ some v
      → IsCurrent x last v
      → law.view (staple_round x key (x.storage.load key s)).1 j ≡ some v
  round-current key j v s has (resp, parsed, current) = elim (Bool-cases (text_eq key j)) [
    | inr other ↦ round-other key j s other ∙ has
    | inl same ↦
        let s₁ = (x.storage.load j s).1 in
        subst (λ k. law.view (staple_round x k (x.storage.load k s)).1 j ≡ some v)
          (sym ((text_eq_iff key j).0 same))
          (ap (λ r. law.view r.1 j)
              (round-found j v s has ∙ ap (λ p. delete_if_old x j p s₁) parsed)
            ∙ delete_if_old-current j j resp s₁ current
            ∙ reads.load_keeps j s j
            ∙ has)
  ]

  -- A value that deleteOldOCSPStaples is to delete: it does not parse, or was over before `first`.
  abbrev pub IsOld : Text → Type 0
  IsOld v =
      (x.parse_response v ≡ none)
      ⊎ ((resp : OcspResponse) × (x.parse_response v ≡ some resp) × (resp.next_update < first))

  old-deleted :
      (j v : Text) (s : S)
      → IsOld v
      → law.view (delete_if_old x j (x.parse_response v) s).1 j ≡ none
  unfolding delete_if_old
  old-deleted j v s (inl refused) =
      ap (λ p. law.view (delete_if_old x j p s).1 j) refused ∙ clock.deletes j s
  old-deleted j v s (inr (resp, parsed, over)) =
      ap (λ p. law.view (delete_if_old x j p s).1 j) parsed
      ∙ rw (late (ltb resp.next_update (x.now s).0) refl) (clock.deletes j (x.now s).1)
    where
      late :
          (b : Bool)
          → ltb resp.next_update (x.now s).0 ≡ b
          → ltb resp.next_update (x.now s).0 ≡ true
      late true e = e
      late false e = absurd (ground (arith, e, over, clock.from_first s))

  -- A key that has nothing keeps nothing.
  round-none :
      (key j : Text) (s : S)
      → law.view s j ≡ none
      → law.view (staple_round x key (x.storage.load key s)).1 j ≡ none
  unfolding staple_round
  round-none key j s nothing = elim (Bool-cases (text_eq key j)) [
    | inr other ↦ round-other key j s other ∙ nothing
    | inl same ↦
        subst (λ k. law.view (staple_round x k (x.storage.load k s)).1 j ≡ none)
          (sym ((text_eq_iff key j).0 same))
          (ap (λ r. law.view (staple_round x j (r, (x.storage.load j s).1)).1 j)
              (load_none j s nothing)
            ∙ reads.load_keeps j s j
            ∙ nothing)
  ]

  -- Whether a key is listed.
  abbrev pub is_listed : List Text → Text → Bool
  is_listed [] j = false
  is_listed (key ∷ keys) j = text_eq key j || is_listed keys j

  after_round-view :
      (rest : S → Result (Unit {0}) × S) (r : Result (Unit {0}) × S) (P : S → Type 0)
      → P r.1
      → ((s : S) → P s → P (rest s).1)
      → P (after_round x rest r).1
  unfolding after_round
  after_round-view rest (ok u, s) P p later = later s p
  after_round-view rest (err e, s) P p later = p
  after_round-view rest (stopped h, s) P p later = p

  staples-current :
      (keys : List Text) (j v : Text) (s : S)
      → law.view s j ≡ some v
      → IsCurrent x last v
      → law.view (delete_staples x keys s).1 j ≡ some v
  unfolding delete_staples
  staples-current [] j v s has current = has
  staples-current (key ∷ keys) j v s has current =
      after_round-view (delete_staples x keys) (staple_round x key (x.storage.load key s))
        (λ t. law.view t j ≡ some v) (round-current key j v s has current)
        (λ t p. staples-current keys j v t p current)

  staples-none :
      (keys : List Text) (j : Text) (s : S)
      → law.view s j ≡ none
      → law.view (delete_staples x keys s).1 j ≡ none
  unfolding delete_staples
  staples-none [] j s nothing = nothing
  staples-none (key ∷ keys) j s nothing =
      after_round-view (delete_staples x keys) (staple_round x key (x.storage.load key s))
        (λ t. law.view t j ≡ none) (round-none key j s nothing) (λ t p. staples-none keys j t p)

  round-old :
      (key j v : Text) (s : S)
      → text_eq key j ≡ true
      → law.view s j ≡ some v
      → IsOld v
      → law.view (staple_round x key (x.storage.load key s)).1 j ≡ none
  round-old key j v s same has old =
      subst (λ k. law.view (staple_round x k (x.storage.load k s)).1 j ≡ none)
        (sym ((text_eq_iff key j).0 same))
        (ap (λ r. law.view r.1 j) (round-found j v s has)
          ∙ old-deleted j v (x.storage.load j s).1 old)

  delete_if_old-ok :
      (key : Text) (o : Option OcspResponse) (s : S) → (delete_if_old x key o s).0 ≡ ok tt
  unfolding delete_if_old
  delete_if_old-ok key (some resp) s = refl
  delete_if_old-ok key none s = refl

  round-ok : (key : Text) (s : S) → (staple_round x key (x.storage.load key s)).0 ≡ ok tt
  unfolding staple_round
  round-ok key s = elim (Option-cases (law.view s key)) [
    | inl nothing ↦
        ap (λ r. (staple_round x key (r, (x.storage.load key s).1)).0) (load_none key s nothing)
    | inr (v, has) ↦
        ap (λ r. r.0) (round-found key v s has)
        ∙ delete_if_old-ok key (x.parse_response v) (x.storage.load key s).1
  ]

  after_round-ok :
      (rest : S → Result (Unit {0}) × S) (r : Result (Unit {0}) × S)
      → r.0 ≡ ok tt
      → after_round x rest r ≡ rest r.1
  unfolding after_round
  after_round-ok rest (ok u, s) good = refl
  after_round-ok rest (err e, s) good = absurd (err-ne-ok good)
  after_round-ok rest (stopped h, s) good = absurd (stopped-ne-ok good)

  -- A round and then the others.
  staples-cons :
      (key : Text) (keys : List Text) (s : S)
      → delete_staples x (key ∷ keys) s
        ≡ delete_staples x keys (staple_round x key (x.storage.load key s)).1
  unfolding delete_staples
  staples-cons key keys s =
      after_round-ok (delete_staples x keys) (staple_round x key (x.storage.load key s))
        (round-ok key s)

  staples-ok : (keys : List Text) (s : S) → (delete_staples x keys s).0 ≡ ok tt
  staples-ok [] s = unfold delete_staples in refl
  staples-ok (key ∷ keys) s =
      ap (λ r. r.0) (staples-cons key keys s)
      ∙ staples-ok keys (staple_round x key (x.storage.load key s)).1

  staples-old :
      (keys : List Text) (j v : Text) (s : S)
      → is_listed keys j ≡ true
      → law.view s j ≡ some v
      → IsOld v
      → law.view (delete_staples x keys s).1 j ≡ none
  staples-old [] j v s listed has old = absurd (cc)
  staples-old (key ∷ keys) j v s listed has old =
      let s₁ = (staple_round x key (x.storage.load key s)).1 in
      ap (λ r. law.view r.1 j) (staples-cons key keys s) ∙ elim (Bool-cases (text_eq key j)) [
        | inl same ↦ staples-none keys j s₁ (round-old key j v s same has old)
        | inr other ↦
            staples-old keys j v s₁ (ground (arith, listed, other))
              (round-other key j s other ∙ has) old
      ]

  -- Over a storage that is a map, whose reads change nothing, and a clock between two times: when List
  -- finds the keys, changing nothing, deleteOldOCSPStaples returns no error; it keeps every value that
  -- parses to a response that is not over by the later time, wherever it is, and deletes every value
  -- under those keys that does not parse or whose response was over before the earlier time.
  pub delete_old_ocsp_staples_lem :
      (keys : List Text) (s s₀ : S)
      → x.storage.list prefix_ocsp false s ≡ (ok keys, s₀)
      → ((j : Text) → law.view s₀ j ≡ law.view s j)
      → (j v : Text) → law.view s j ≡ some v
      → ((delete_old_ocsp_staples x s).0 ≡ ok tt)
        × (IsCurrent x last v → law.view (delete_old_ocsp_staples x s).1 j ≡ some v)
        × (is_listed keys j ≡ true → IsOld v → law.view (delete_old_ocsp_staples x s).1 j ≡ none)
  unfolding delete_old_ocsp_staples delete_listed
  delete_old_ocsp_staples_lem keys s s₀ listing same j v has = (
    ap (λ r. (delete_listed x r).0) listing ∙ staples-ok keys s₀,
    λ current.
        ap (λ r. law.view (delete_listed x r).1 j) listing
        ∙ staples-current keys j v s₀ (same j ∙ has) current,
    λ listed old.
        ap (λ r. law.view (delete_listed x r).1 j) listing
        ∙ staples-old keys j v s₀ listed (same j ∙ has) old,
  )
