-- ===== src/Cache/Invariant.antt =====
-- The cache and its index agree, and every operation of cache.go keeps that.
use otomatik.Base.{
  ℕ, ◌+◌, ◌≤◌, ◌≡◌, ◌≢◌, refl, sym, ◌∙◌, subst, List, [], ◌∷◌, ◌++◌, none, some, if◌then◌else◌,
  arith, Option-cases, inl, inr,
}
use otomatik.Base.Outcome.{Outcome, done, panic}
use otomatik.Base.Occurs.{occurs, without, without_absent, occurs-without, occurs-append}
use otomatik.Base.Text.{Text, text_eq, text_eq_iff, text_eq_refl}
use otomatik.Base.Map.{Map, get, put, delete, get-put, get-delete}
use otomatik.Certificate.{Certificate}
use otomatik.Cache.{
  Cache, empty_cache, entries, index_names, cache_certificate, remove_certificate,
  replace_certificate, unindex_names,
}
use otomatik.Cache.Removal.{Compact, unindex_names_lem, entries-put, remove_key_twice}

-- How often a name stands on the certificate of a hash, if that is in the cache.
abbrev pub names_at : Map Certificate → Text → Text → ℕ
names_at m h n = elim (get m h) [ none ↦ 0 | some cert ↦ occurs n cert.names ]

-- Certificates stand at their hashes, and under each name the index has the hash of each certificate
-- as often as the name is on it.
pub record Inv (c : Cache) : Type 0 where
  pub keyed : (k : Text) (cert : Certificate) → get c.cache k ≡ some cert → cert.hash ≡ k
  pub indexed : (n h : Text) → occurs h (entries c.cache_index n) ≡ names_at c.cache h n
  pub compact : Compact c.cache_index

-- No name twice.
abbrev pub Distinct : Certificate → Type 0
Distinct cert = (n : Text) → occurs n cert.names ≤ 1

index_names_lem :
    (hash h n : Text) (names : List Text) (m : Map (List Text))
    → occurs h (entries (index_names hash names m) n)
      ≡ occurs h (entries m n) + (if text_eq hash h then occurs n names else 0)
unfolding index_names
index_names_lem hash h n [] m = ground arith
index_names_lem hash h n (k ∷ names) m = ground (
  arith,
  index_names_lem hash h n names (put m k (entries m k ++ hash ∷ [])),
  entries-put m k n (entries m k ++ hash ∷ []),
  occurs-append h (entries m k) (hash ∷ []),
  text_eq_iff k n,
)

index_names-Compact :
    (hash : Text) (names : List Text) (m : Map (List Text))
    → Compact m
    → Compact (index_names hash names m)
unfolding index_names
index_names-Compact hash [] m h = h
index_names-Compact hash (k ∷ names) m h =
    index_names-Compact hash names (put m k (entries m k ++ hash ∷ []))
      λ n. ground (arith, get-put m k n (entries m k ++ hash ∷ []), h n, nonempty (entries m k))
  where
    nonempty : (l : List Text) → l ++ hash ∷ [] ≢ []
    nonempty [] e = cc
    nonempty (x ∷ l) e = cc

pub empty_cache-Inv : Inv empty_cache
unfolding get
empty_cache-Inv = record {
  keyed = λ k cert e. absurd (cc);
  indexed = λ n h. refl;
  compact = λ n e. cc;
}

-- cacheCertificate keeps the invariant, for any certificate.
pub cache_certificate-Inv :
    (c : Cache) (cert : Certificate) → Inv c → Inv (cache_certificate c cert)
unfolding cache_certificate
cache_certificate-Inv c cert v = elim (Option-cases (get c.cache cert.hash)) [
  | inr (old, there) ↦ rw (there, cache_certificate) v
  | inl new ↦
      rw (new, cache_certificate)
        (record {
          keyed = λ k x e.
              ground
                (arith, e, get-put c.cache cert.hash k cert, v.keyed k x, text_eq_iff cert.hash k);
          indexed = λ n h. ground (
            arith,
            index_names_lem cert.hash h n cert.names c.cache_index,
            v.indexed n h,
            get-put c.cache cert.hash h cert,
            text_eq_iff cert.hash h,
            new,
          );
          compact = index_names-Compact cert.hash cert.names c.cache_index v.compact;
        })
]

-- What removeCertificate leaves behind: neither the certificate nor a mention of it, and all else.
pub record Removed (c : Cache) (cert : Certificate) (c' : Cache) : Type 0 where
  pub inv : Inv c'
  pub kept : (k : Text) → get c'.cache k ≡ (if text_eq cert.hash k then none else get c.cache k)
  pub lists : (n : Text) → entries c'.cache_index n ≡ without cert.hash (entries c.cache_index n)

module _ (c : Cache) (cert : Certificate) (v : Inv c) (there : get c.cache cert.hash ≡ some cert)
    (distinct : Distinct cert) where
  once : (n : Text) → occurs cert.hash (entries c.cache_index n) ≤ 1
  once n = ground (arith, v.indexed n cert.hash, there, distinct n)

  -- In a cache that satisfies the invariant, removeCertificate of a certificate that is cached and has
  -- no name twice does not panic: it leaves a cache that satisfies the invariant, without the
  -- certificate and without its hash under any name, and with all else as it was.
  pub remove_certificate_lem :
      (c' : Cache) × (remove_certificate c cert ≡ done c') × Removed c cert c'
  unfolding remove_certificate
  remove_certificate_lem =
      let (m', found, u) = unindex_names_lem cert.hash cert.names c.cache_index once in
      let gone : (n : Text) → entries m' n ≡ without cert.hash (entries c.cache_index n) = λ n.
        u.lists n
        ∙ ground (
          arith,
          v.indexed n cert.hash,
          there,
          without_absent cert.hash (entries c.cache_index n),
        ) in
      (
        record { cache = delete c.cache cert.hash; cache_index = m' },
        rw found,
        record {
          inv = record {
            keyed = λ k x e. ground (arith, e, get-delete c.cache cert.hash k, v.keyed k x);
            indexed = λ n h. ground (
              arith,
              gone n,
              occurs-without h cert.hash (entries c.cache_index n),
              v.indexed n h,
              get-delete c.cache cert.hash h,
            );
            compact = u.compact v.compact;
          };
          kept = λ k. get-delete c.cache cert.hash k;
          lists = gone;
        },
      )

-- The operations as a caller runs them; a certificate is removed only while it is in the cache.
pub data Op : Cache → Cache → Type 0 where
  caches : (c : Cache) (cert : Certificate) → Distinct cert → Op c (cache_certificate c cert)
  removes :
      (c c' : Cache) (cert : Certificate)
      → get c.cache cert.hash ≡ some cert
      → remove_certificate c cert ≡ done c'
      → Op c c'
  replaces :
      (c c' : Cache) (old new : Certificate)
      → get c.cache old.hash ≡ some old
      → Distinct new
      → replace_certificate c old new ≡ done c'
      → Op c c'

pub data Ops (c : Cache) : Cache → Type 0 where
  here : Ops c c
  next : {d e : Cache} → Ops c d → Op d e → Ops c e

abbrev pub AllDistinct : Cache → Type 0
AllDistinct c = (k : Text) (cert : Certificate) → get c.cache k ≡ some cert → Distinct cert

cache_certificate-AllDistinct :
    (c : Cache) (cert : Certificate)
    → Distinct cert
    → AllDistinct c
    → AllDistinct (cache_certificate c cert)
unfolding cache_certificate
cache_certificate-AllDistinct c cert d all = elim (Option-cases (get c.cache cert.hash)) [
  | inr (old, there) ↦ rw (there, cache_certificate) all
  | inl new ↦
      rw (new, cache_certificate)
        (λ k x e n. ground (
          arith,
          e,
          get-put c.cache cert.hash k cert,
          λ (p : get c.cache k ≡ some x). all k x p n,
          d n,
        ))
]

Removed-AllDistinct :
    {c c' : Cache} (cert : Certificate) → Removed c cert c' → AllDistinct c → AllDistinct c'
Removed-AllDistinct {c} cert r all k x e n =
    ground (arith, e, r.kept k, λ (p : get c.cache k ≡ some x). all k x p n)

done-injective : (a b : Cache) → ◌≡◌ {A = Outcome Cache} (done a) (done b) → a ≡ b
done-injective a b e = cc

-- In a cache that satisfies the invariant, with an old certificate that is cached and has no name
-- twice, replaceCertificate does not panic: it removes the old certificate, as removeCertificate
-- does, and then caches the new one.
pub replace_certificate_lem :
    (c : Cache) (old new : Certificate)
    → Inv c
    → get c.cache old.hash ≡ some old
    → Distinct old
    → (c' : Cache) × Removed c old c'
      × (replace_certificate c old new ≡ done (cache_certificate c' new))
unfolding replace_certificate
replace_certificate_lem c old new v there d =
    let (c', removed, r) = remove_certificate_lem c old v there d in (c', r, rw removed)

Op-Sound : {c d : Cache} → Op c d → Inv c × AllDistinct c → Inv d × AllDistinct d
Op-Sound (caches c cert d) (v, all) =
    (cache_certificate-Inv c cert v, cache_certificate-AllDistinct c cert d all)
Op-Sound (removes c c' cert there e) (v, all) =
    let (c₁, found, r) = remove_certificate_lem c cert v there (all cert.hash cert there) in
    subst (λ x. Inv x × AllDistinct x) (done-injective c₁ c' (sym found ∙ e))
      (r.inv, Removed-AllDistinct cert r all)
Op-Sound (replaces c c' old new there d e) (v, all) =
    let (c₁, r, found) = replace_certificate_lem c old new v there (all old.hash old there) in
    subst (λ x. Inv x × AllDistinct x)
      (done-injective (cache_certificate c₁ new) c' (sym found ∙ e))
      (
        cache_certificate-Inv c₁ new r.inv,
        cache_certificate-AllDistinct c₁ new d (Removed-AllDistinct old r all),
      )

-- Through any sequence of operations from the empty cache - caching a certificate that has no name
-- twice, removing a cached one, replacing a cached one by one that has no name twice - the
-- certificates stand at their hashes, the index lists under each name the hashes of exactly the
-- certificates with that name, no list in it is empty, and no cached certificate has a name twice.
pub cache_stays_consistent : {c : Cache} → Ops empty_cache c → Inv c × AllDistinct c
cache_stays_consistent here = (empty_cache-Inv, unfold get in λ k cert e. absurd (cc))
cache_stays_consistent (next r op) = Op-Sound op (cache_stays_consistent r)

index_names_twice :
    (hash n : Text) (m : Map (List Text))
    → get m n ≡ none
    → entries (index_names hash (n ∷ n ∷ []) m) n ≡ hash ∷ hash ∷ []
unfolding index_names
index_names_twice hash n m free =
    let once = put m n (entries m n ++ hash ∷ []) in
    ground (
      arith,
      free,
      entries-put once n n (entries once n ++ hash ∷ []),
      entries-put m n n (entries m n ++ hash ∷ []),
      text_eq_refl n,
    )

unindex_names_twice :
    (hash n : Text) (names : List Text) (m : Map (List Text))
    → entries m n ≡ hash ∷ hash ∷ []
    → unindex_names hash (n ∷ names) m ≡ panic
unfolding unindex_names
unindex_names_twice hash n names m e = rw (e, remove_key_twice hash)

cached_new :
    (c : Cache) (cert : Certificate)
    → get c.cache cert.hash ≡ none
    → (cache_certificate c cert).cache_index ≡ index_names cert.hash cert.names c.cache_index
unfolding cache_certificate
cached_new c cert new = rw (new, cache_certificate)

-- A certificate whose names are one name twice, cached while neither its hash is in the cache nor its
-- name in the index, makes its own removal panic.
pub repeated_name_panics :
    (c : Cache) (cert : Certificate) (n : Text)
    → cert.names ≡ n ∷ n ∷ []
    → get c.cache cert.hash ≡ none
    → get c.cache_index n ≡ none
    → remove_certificate (cache_certificate c cert) cert ≡ panic
unfolding remove_certificate
repeated_name_panics c cert n e new free = rw (
  cached_new c cert new,
  e,
  unindex_names_twice cert.hash n (n ∷ []) _ (index_names_twice cert.hash n c.cache_index free),
)
