-- ===== src/Cache/Wildcards.antt =====
-- AllMatchingCertificates finds what a pattern for the name serves.
use mathlib.Core.List.{append_assoc}
use otomatik.Base.{
  ℕ, ◌+◌, ◌<◌, ◌≡◌, refl, sym, ap, ◌∙◌, subst, List, [], ◌∷◌, ◌++◌, map, arith, All, All-append,
}
use otomatik.Base.Occurs.{occurs}
use otomatik.Base.Text.{Text, dot, star, split, join}
use otomatik.Certificate.{Certificate}
use otomatik.Cache.{Cache, get_all_matching_certs, wildcard_matches, all_matching_certificates}
use otomatik.Cache.Invariant.{Inv}
use otomatik.Cache.Matching.{Serves, get_all_matching_certs_lem}
use otomatik.Names.Labels.{join-split}
use otomatik.Names.Patterns.{IsPattern, stars, stars-append}

-- A certificate of the cache that bears a pattern for the name with these labels.
abbrev pub ServesPattern : Cache → List Text → Certificate → Type 0
ServesPattern c labels cert = (p : Text) × IsPattern labels p × Serves c p cert

-- How often a hash is among those of the certificates.
abbrev pub listed : Text → List Certificate → ℕ
listed h certs = occurs h (map (λ x. x.hash) certs)

listed-append :
    (h : Text) (xs ys : List Certificate) → listed h (xs ++ ys) ≡ listed h xs + listed h ys
listed-append h [] ys = omega arith
listed-append h (x ∷ xs) ys = omega (arith, listed-append h xs ys)

listed_later : (h : Text) (xs ys : List Certificate) → 0 < listed h ys → 0 < listed h (xs ++ ys)
listed_later h xs ys b = omega (arith, b, listed-append h xs ys)

All-ServesPattern :
    (c : Cache) (labels : List Text) (p : Text) (certs : List Certificate)
    → IsPattern labels p
    → All (Serves c p) certs
    → All (ServesPattern c labels) certs
All-ServesPattern c labels p [] i a = tt
All-ServesPattern c labels p (cert ∷ certs) i a =
    ((p, i, a.0), All-ServesPattern c labels p certs i a.1)

-- The pattern that the loop tries next.
next_pattern :
    (before : List Text) (l : Text) (labels : List Text)
    → join dot (stars before ++ (star ∷ []) ∷ labels)
      ≡ join dot (stars (before ++ l ∷ []) ++ labels)
next_pattern before l labels = ap (join dot) (
    sym (append_assoc (stars before) ((star ∷ []) ∷ []) labels)
    ∙ ap (λ x. x ++ labels) (stars-append before l))

module _ (c : Cache) (v : Inv c) where
  wildcard_matches_sound :
      (before labels : List Text)
      → All (ServesPattern c (before ++ labels)) (wildcard_matches c (stars before) labels)
  unfolding wildcard_matches
  wildcard_matches_sound before [] = tt
  wildcard_matches_sound before (l ∷ labels) =
      let p = join dot (stars before ++ (star ∷ []) ∷ labels) in
      let parts = append_assoc before (l ∷ []) labels in
      let rest = wildcard_matches_sound (before ++ l ∷ []) labels in
      All-append (ServesPattern c (before ++ l ∷ labels)) (get_all_matching_certs c p) _
        (All-ServesPattern c (before ++ l ∷ labels) p (get_all_matching_certs c p)
          (before ++ l ∷ [], labels, sym parts, next_pattern before l labels)
          (get_all_matching_certs_lem c v p).0)
        (subst (λ x. All (ServesPattern c (before ++ l ∷ labels)) (wildcard_matches c x labels))
          (sym (stars-append before l))
          (subst
            (λ x. All (ServesPattern c x) (wildcard_matches c (stars (before ++ l ∷ [])) labels))
            parts rest))

  Serves-listed :
      (p : Text) (cert : Certificate)
      → Serves c p cert
      → 0 < listed cert.hash (get_all_matching_certs c p)
  Serves-listed p cert s = ground (arith, (get_all_matching_certs_lem c v p).1 cert.hash, s.0, s.1)

  wildcard_matches_complete :
      (before : List Text) (l : Text) (more after : List Text) (cert : Certificate)
      → Serves c (join dot (stars (before ++ l ∷ more) ++ after)) cert
      → 0 < listed cert.hash (wildcard_matches c (stars before) (l ∷ more ++ after))
  unfolding wildcard_matches
  wildcard_matches_complete before l [] after cert s =
      let p = join dot (stars before ++ (star ∷ []) ∷ after) in
      let here =
        Serves-listed p cert (subst (λ q. Serves c q cert) (sym (next_pattern before l after)) s) in
      omega (
        arith,
        here,
        listed-append cert.hash (get_all_matching_certs c p)
            (wildcard_matches c (stars before ++ (star ∷ []) ∷ []) after),
      )
  wildcard_matches_complete before l (m ∷ more) after cert s =
      let s' : Serves c (join dot (stars ((before ++ l ∷ []) ++ m ∷ more) ++ after)) cert =
        subst (λ x. Serves c (join dot (stars x ++ after)) cert)
          (sym (append_assoc before (l ∷ []) (m ∷ more))) s in
      let later : 0
          < listed cert.hash
              (wildcard_matches c (stars before ++ (star ∷ []) ∷ []) (m ∷ more ++ after)) =
        subst (λ x. 0 < listed cert.hash (wildcard_matches c x (m ∷ more ++ after)))
          (sym (stars-append before l))
          (wildcard_matches_complete (before ++ l ∷ []) m more after cert s') in
      listed_later cert.hash
        (get_all_matching_certs c (join dot (stars before ++ (star ∷ []) ∷ (m ∷ more ++ after))))
        (wildcard_matches c (stars before ++ (star ∷ []) ∷ []) (m ∷ more ++ after)) later

  exact-IsPattern : (name : Text) → IsPattern (split dot name) name
  exact-IsPattern name = ([], split dot name, refl, sym (join-split dot name))

  matching_sound :
      (name : Text) → All (ServesPattern c (split dot name)) (all_matching_certificates c name)
  unfolding all_matching_certificates
  matching_sound name =
      All-append (ServesPattern c (split dot name)) (get_all_matching_certs c name) _
        (All-ServesPattern c (split dot name) name (get_all_matching_certs c name)
          (exact-IsPattern name) (get_all_matching_certs_lem c v name).0)
        (wildcard_matches_sound [] (split dot name))

  matching_complete :
      (name : Text) (cert : Certificate)
      → ServesPattern c (split dot name) cert
      → 0 < listed cert.hash (all_matching_certificates c name)
  unfolding all_matching_certificates
  matching_complete name cert (p, ([], after, parts, e), s) =
      let exact : p ≡ name = e ∙ ap (join dot) (sym parts) ∙ join-split dot name in
      let here = Serves-listed name cert (subst (λ q. Serves c q cert) exact s) in
      omega (
        arith,
        here,
        listed-append cert.hash (get_all_matching_certs c name)
            (wildcard_matches c [] (split dot name)),
      )
  matching_complete name cert (p, (l ∷ more, after, parts, e), s) =
      let later : 0 < listed cert.hash (wildcard_matches c [] (split dot name)) =
        subst (λ x. 0 < listed cert.hash (wildcard_matches c [] x)) (sym parts)
          (wildcard_matches_complete [] l more after cert (subst (λ q. Serves c q cert) e s)) in
      omega (
        arith,
        later,
        listed-append cert.hash (get_all_matching_certs c name)
            (wildcard_matches c [] (split dot name)),
      )

  -- In a consistent cache AllMatchingCertificates returns exactly the cached certificates that bear
  -- the name with some labels from the left replaced by stars, perhaps none: each that it returns
  -- does, and the hash of each that does is among those that it returns.
  pub all_matching_certificates_lem :
      (name : Text)
      → All (ServesPattern c (split dot name)) (all_matching_certificates c name)
        × ((cert : Certificate)
            → ServesPattern c (split dot name) cert
            → 0 < listed cert.hash (all_matching_certificates c name))
  all_matching_certificates_lem name = (matching_sound name, matching_complete name)
