-- ===== src/Handshake/Selection.antt =====
-- DefaultCertificateSelector against its description, and what getCertificate finds in the cache.
use mathlib.Core.List.{append_assoc}
use otomatik.Base.{
  ℕ, ◌≡◌, refl, sym, ap, ◌∙◌, subst, Bool, true, false, ◌&&◌, List, [], ◌∷◌, ◌++◌, Option, none,
  some, ltb, if◌then◌else◌, Bool-cases, Option-cases, inl, inr, ◌⊎◌, All,
}
use otomatik.Base.Text.{Text, dot, star, split, join}
use otomatik.Base.Map.{get}
use otomatik.Base.Outcome.{done}
use otomatik.Certificate.{Leaf, Certificate, zero_certificate}
use otomatik.Cache.{Cache, get_all_matching_certs}
use otomatik.Names.Labels.{join-split}
use otomatik.Names.Patterns.{IsPattern, stars, stars-append}
use otomatik.Cache.Invariant.{Inv}
use otomatik.Cache.Matching.{Serves, get_all_matching_certs_lem, matches-ne-nil}
use otomatik.Handshake.{
  Config, Hello, Choice, select_best, default_certificate_selector, select_cert, try_wildcards,
  get_named,
}

abbrev pub HasLeaf : Certificate → Type 0
HasLeaf cert = (leaf : Leaf) × (cert.leaf ≡ some leaf)

-- Neither before its first moment nor at its end.
abbrev pub is_current : ℕ → Certificate → Bool
is_current now cert = elim cert.leaf [
  | none ↦ false
  | some leaf ↦ ltb leaf.not_before now && ltb now leaf.not_after
]

abbrev pub first_such : (Certificate → Bool) → List Certificate → Option Certificate
first_such f [] = none
first_such f (cert ∷ certs) = let rest = first_such f certs in if f cert then some cert else rest

abbrev pub or_else : Option Certificate → Certificate → Certificate
or_else none cert = cert
or_else (some found) cert = found

-- The last such certificate, or else the given one.
abbrev pub last_such : (Certificate → Bool) → Certificate → List Certificate → Certificate
last_such f best [] = best
last_such f best (cert ∷ certs) =
    let skipped = last_such f best certs in
    let taken = last_such f cert certs in if f cert then taken else skipped

-- The first certificate that is supported and current, or else the last one that is supported, or
-- else the given one.
abbrev pub preferred : (Certificate → Bool) → ℕ → Certificate → List Certificate → Certificate
preferred supports now best certs =
    or_else (first_such (λ c. supports c && is_current now c) certs) (last_such supports best certs)

is_current_lem :
    (now : ℕ) (cert : Certificate) (leaf : Leaf)
    → cert.leaf ≡ some leaf
    → is_current now cert ≡ ltb leaf.not_before now && ltb now leaf.not_after
is_current_lem now cert leaf h =
    ap (λ o. elim o [ none ↦ false | some l ↦ ltb l.not_before now && ltb now l.not_after ]) h

select_best_lem :
    (supports : Certificate → Bool) (now : ℕ) (best : Certificate) (certs : List Certificate)
    → All HasLeaf certs
    → select_best supports now best certs ≡ done (preferred supports now best certs)
unfolding select_best
select_best_lem supports now best [] a = refl
select_best_lem supports now best (cert ∷ certs) ((leaf, there), a) =
    elim (Bool-cases (supports cert)) [
      | inr e ↦ rw e (select_best_lem supports now best certs a)
      | inl e ↦ elim (Bool-cases (ltb leaf.not_before now && ltb now leaf.not_after)) [
        | inl f ↦ simp (e, there, is_current_lem now cert leaf there, f)
        | inr f ↦ simp (
          e,
          there,
          is_current_lem now cert leaf there,
          f,
          select_best_lem supports now cert certs a,
        )
      ]
    ]

-- For every client, time and non-empty list of certificates that all have their leaf:
-- DefaultCertificateSelector returns, without error, the first certificate that the client supports
-- and that is current, or else the last one that the client supports, or else the first one.
pub default_certificate_selector_lem :
    (supports : Certificate → Bool) (now : ℕ) (best : Certificate) (certs : List Certificate)
    → All HasLeaf (best ∷ certs)
    → default_certificate_selector supports now (best ∷ certs)
      ≡ done (some (preferred supports now best (best ∷ certs)))
unfolding default_certificate_selector
default_certificate_selector_lem supports now best certs a =
    rw (select_best_lem supports now best (best ∷ certs) a) refl

first_such-All :
    (P : Certificate → Type 0) (f : Certificate → Bool) (cert : Certificate)
    (certs : List Certificate)
    → P cert
    → All P certs
    → P (or_else (first_such f certs) cert)
first_such-All P f cert [] p a = p
first_such-All P f cert (c ∷ certs) p a = elim (Bool-cases (f c)) [
  | inl e ↦ rw e a.0
  | inr e ↦ rw e (first_such-All P f cert certs p a.1)
]

last_such-All :
    (P : Certificate → Type 0) (f : Certificate → Bool) (cert : Certificate)
    (certs : List Certificate)
    → P cert
    → All P certs
    → P (last_such f cert certs)
last_such-All P f cert [] p a = p
last_such-All P f cert (c ∷ certs) p a = elim (Bool-cases (f c)) [
  | inl e ↦ rw e (last_such-All P f c certs a.0 a.1)
  | inr e ↦ rw e (last_such-All P f cert certs p a.1)
]

-- Every cached certificate has its leaf.
abbrev pub AllLeaves : Cache → Type 0
AllLeaves c = (h : Text) (cert : Certificate) → get c.cache h ≡ some cert → HasLeaf cert

-- What getCertificate may return for a server name.
abbrev pub Found : Cache → Text → Choice → Type 0
Found c name r =
    ((p : Text) × IsPattern (split dot name) p × Serves c p r.cert)
    ⊎ (get c.cache name ≡ some r.cert)

-- What a selection by name returns: a certificate that bears the name, or false if there is none.
unfoldable pub Selected : Cache → Text → Certificate × Bool → Type 0
Selected c name r =
    ((r.1 ≡ true) × Serves c name r.0)
    ⊎ ((r.1 ≡ false) × ((cert : Certificate) → ¬ Serves c name cert))

module _ (cfg : Config) (hello : Hello) (now : ℕ) (plain : cfg.cert_selection ≡ none)
    (v : Inv cfg.cert_cache) (leaves : AllLeaves cfg.cert_cache) where
  Serves-HasLeaf :
      (name : Text) (certs : List Certificate)
      → All (Serves cfg.cert_cache name) certs
      → All HasLeaf certs
  Serves-HasLeaf name [] a = tt
  Serves-HasLeaf name (cert ∷ certs) a =
      (leaves cert.hash cert a.0.0, Serves-HasLeaf name certs a.1)

  select_cert-plain :
      (name : Text) (certs : List Certificate)
      → get_all_matching_certs cfg.cert_cache name ≡ certs
      → All (Serves cfg.cert_cache name) certs
      → (r : Certificate × Bool) × (select_cert cfg hello now name ≡ done r)
        × Selected cfg.cert_cache name r
  unfolding select_cert Selected
  select_cert-plain name [] e a = (
    (zero_certificate, false),
    rw (plain, e) refl,
    inr (refl, λ cert s. matches-ne-nil cfg.cert_cache v name cert s e),
  )
  select_cert-plain name (best ∷ certs) e a =
      let all = Serves-HasLeaf name (best ∷ certs) a in
      let good : Serves cfg.cert_cache name (preferred hello.supports now best (best ∷ certs)) =
        first_such-All (Serves cfg.cert_cache name) (λ x. hello.supports x && is_current now x)
          (last_such hello.supports best (best ∷ certs)) (best ∷ certs)
          (last_such-All (Serves cfg.cert_cache name) hello.supports best (best ∷ certs) a.0 a) a in
      (
        (preferred hello.supports now best (best ∷ certs), true),
        rw (plain, e, default_certificate_selector_lem hello.supports now best certs all) refl,
        inl (refl, good),
      )

  pub select_cert_lem :
      (name : Text)
      → (r : Certificate × Bool) × (select_cert cfg hello now name ≡ done r)
        × Selected cfg.cert_cache name r
  select_cert_lem name =
      select_cert-plain name (get_all_matching_certs cfg.cert_cache name) refl
        (get_all_matching_certs_lem cfg.cert_cache v name).0

  -- Every certificate that the loop over the labels finds bears a pattern for the name.
  try_wildcards_lem :
      (cert : Certificate) (before labels : List Text)
      → (r : Certificate × Bool) × (try_wildcards cfg hello now cert (stars before) labels ≡ done r)
        × (r.1 ≡ true → (p : Text) × IsPattern (before ++ labels) p × Serves cfg.cert_cache p r.0)
  unfolding try_wildcards Selected
  try_wildcards_lem cert before [] = ((cert, false), refl, λ h. absurd (cc))
  try_wildcards_lem cert before (l ∷ labels) =
      let candidate = join dot (stars before ++ (star ∷ []) ∷ labels) in
      let (r, selects, found) = select_cert_lem candidate in
      let parts = append_assoc before (l ∷ []) labels in
      elim found [
        | inl (hits, serves) ↦ (
          r,
          rw (selects, hits) refl,
          λ _. (
            candidate,
            (
              before ++ l ∷ [],
              labels,
              sym parts,
              ap (join dot) (
                  sym (append_assoc (stars before) ((star ∷ []) ∷ []) labels)
                  ∙ ap (λ x. x ++ labels) (stars-append before l)),
            ),
            serves,
          ),
        )
        | inr (misses, nobody) ↦
            let (q, ends, sound) = try_wildcards_lem r.0 (before ++ l ∷ []) labels in
            (
              q,
              rw (selects, misses, stars-append before l) ends,
              λ h.
                  let (p, pattern, serves) = sound h in
                  (p, subst (λ x. IsPattern x p) parts pattern, serves),
            )
      ]

  -- With the default selection, a consistent cache whose certificates have their leaf, and a server
  -- name: getCertificate returns without a panic; what it returns as matched is a cached certificate
  -- that bears the name with some labels from the left replaced by stars, perhaps none, or that has
  -- the name as its hash; and if some cached certificate bears the name itself, then what it returns
  -- is matched and bears the name itself.
  pub get_named_lem :
      (name : Text)
      → (r : Choice) × (get_named cfg hello now name ≡ done r)
        × (r.matched ≡ true → Found cfg.cert_cache name r)
        × ((cert : Certificate)
            → Serves cfg.cert_cache name cert
            → (r.matched ≡ true) × Serves cfg.cert_cache name r.cert)
  unfolding get_named Selected
  get_named_lem name =
      let (e, selects, found) = select_cert_lem name in
      let (q, tries, sound) = try_wildcards_lem e.0 [] (split dot name) in
      elim found [
        | inl (hits, serves) ↦ (
          record { cert = e.0; matched = true; defaulted = false },
          rw (selects, hits) (rw hits refl),
          λ _. inl (name, ([], split dot name, refl, sym (join-split dot name)), serves),
          λ _ _. (refl, serves),
        )
        | inr (misses, nobody) ↦ elim (Bool-cases q.1) [
          | inl hit ↦ (
            record { cert = q.0; matched = true; defaulted = false },
            rw (selects, misses, tries, hit) refl,
            λ _. inl (sound hit),
            λ cert s. absurd (nobody cert s),
          )
          | inr miss ↦ elim (Option-cases (get cfg.cert_cache.cache name)) [
            | inl none_there ↦ (
              record { cert = q.0; matched = false; defaulted = false },
              rw (selects, misses, tries, miss, none_there) refl,
              λ h. absurd (cc),
              λ cert s. absurd (nobody cert s),
            )
            | inr (direct, there) ↦ (
              record { cert = direct; matched = true; defaulted = false },
              rw (selects, misses, tries, miss, there) refl,
              λ _. inr there,
              λ cert s. absurd (nobody cert s),
            )
          ]
        ]
      ]
