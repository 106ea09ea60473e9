-- ===== src/Maintain/Removed.antt =====
-- maintain.go: what the updates of updateOCSPStaples do to the cache.
use otomatik.Base.{
  ℕ, ◌≡◌, ◌≢◌, refl, sym, ap, ◌∙◌, subst, [], Option, none, some, if◌then◌else◌, Bool-cases,
  by_test, inl, inr,
}
use otomatik.Base.Map.{Map, get, get-put}
use otomatik.Base.Occurs.{occurs}
use otomatik.Base.Text.{Text, text_eq, text_eq_iff, text_eq_refl}
use otomatik.Cache.{Cache, certificate_at, entries}
use otomatik.Cache.Removal.{Compact}
use otomatik.Cache.Invariant.{Inv, names_at}
use otomatik.Certificate.{Certificate, zero_certificate}
use otomatik.Maintain.OcspUpdates.{OcspUpdate, apply_update}

abbrev pub with_staple : OcspUpdate → Certificate → Certificate
with_staple update cert = record cert { ocsp = update.parsed; ocsp_staple = update.raw_bytes }

cached_at :
    (m : Map Certificate) (key : Text) {cert : Certificate}
    → get m key ≡ some cert
    → certificate_at m key ≡ cert
cached_at m key e =
    ap (λ o. elim o as (λ _. Certificate) [ none ↦ zero_certificate | some y ↦ y ]) e

missing_at :
    (m : Map Certificate) (key : Text) → get m key ≡ none → certificate_at m key ≡ zero_certificate
missing_at m key e =
    ap (λ o. elim o as (λ _. Certificate) [ none ↦ zero_certificate | some y ↦ y ]) e

names_of : Text → Option Certificate → ℕ
names_of n o = elim o as (λ _. ℕ) [ none ↦ 0 | some cert ↦ occurs n cert.names ]

module _ (c : Cache) (inv : Inv c) (key : Text) (update : OcspUpdate) where
  found :
      (j : Text)
      → get (apply_update key update c).cache j ≡ (
          if text_eq key j
          then some (with_staple update (certificate_at c.cache key))
          else get c.cache j)
  unfolding apply_update
  found j = get-put c.cache key j (with_staple update (certificate_at c.cache key))

  module _ (cert : Certificate) (has : get c.cache key ≡ some cert) where
    found_cached :
        (j : Text)
        → get (apply_update key update c).cache j
          ≡ (if text_eq key j then some (with_staple update cert) else get c.cache j)
    found_cached j =
        found j
        ∙ ap (λ y. if text_eq key j then some (with_staple update y) else get c.cache j)
            (cached_at c.cache key has)

    hash_kept :
        (k : Text) (cert' : Certificate)
        → get (apply_update key update c).cache k ≡ some cert'
        → cert'.hash ≡ k
    hash_kept k cert' e =
        by_test (text_eq key k) (sym (found_cached k) ∙ e)
          (λ same h. sym (ap hash_of h) ∙ inv.keyed key cert has ∙ (text_eq_iff key k).0 same)
          (λ other h. inv.keyed k cert' h)
      where
        hash_of : Option Certificate → Text
        hash_of none = []
        hash_of (some y) = y.hash

    names_kept :
        (n h : Text) → names_at c.cache h n ≡ names_at (apply_update key update c).cache h n
    unfolding names_of
    names_kept n h = names_by (elim (Bool-cases (text_eq key h)) [
      | inl e ↦
          let same : key ≡ h = (text_eq_iff key h).0 e in
          let changed : get (apply_update key update c).cache h ≡ some (with_staple update cert) =
            found_cached h ∙ rw e refl in
          ap (names_of n) ((subst (λ k. get c.cache k ≡ some cert) same has))
          ∙ ap (names_of n) (sym changed)
      | inr e ↦
          let as_before : get (apply_update key update c).cache h ≡ get c.cache h =
            found_cached h ∙ rw e refl in
          ap (names_of n) (sym as_before)
    ])
      where
        names_by :
            names_of n (get c.cache h) ≡ names_of n (get (apply_update key update c).cache h)
            → names_at c.cache h n ≡ names_at (apply_update key update c).cache h n
        names_by e = e

    kept-Inv : Inv (apply_update key update c)
    kept-Inv = record {
      keyed = hash_kept;
      indexed = λ n h. same_index n h ∙ names_kept n h;
      compact = same_compact;
    }
      where
        same_index :
            (n h : Text)
            → occurs h (entries (apply_update key update c).cache_index n) ≡ names_at c.cache h n
        same_index n h = unfold apply_update in inv.indexed n h

        same_compact : Compact (apply_update key update c).cache_index
        same_compact = unfold apply_update in inv.compact

  -- In a consistent cache, an update of updateOCSPStaples for a key that is not empty, and not in the
  -- cache any more, puts a certificate without names and hash under the key, and the cache is no
  -- longer consistent.
  pub apply_update_removed :
      get c.cache key ≡ none
      → key ≢ []
      → (get (apply_update key update c).cache key ≡ some (with_staple update zero_certificate))
        × ¬ Inv (apply_update key update c)
  apply_update_removed gone named =
      let e : get (apply_update key update c).cache key
          ≡ some (with_staple update zero_certificate) =
        found key
        ∙ rw (text_eq_refl key)
            (ap (λ y. some (with_staple update y)) (missing_at c.cache key gone)) in
      (e, λ broken. named (sym (broken.keyed key _ e)))

  -- For a key that is in the cache it stays consistent, and the certificate has the new staple and all
  -- else as it was.
  pub apply_update-Inv :
      (cert : Certificate)
      → get c.cache key ≡ some cert
      → Inv (apply_update key update c)
        × (get (apply_update key update c).cache key ≡ some (with_staple update cert))
  apply_update-Inv cert has =
      (kept-Inv cert has, found_cached cert has key ∙ rw (text_eq_refl key) refl)
