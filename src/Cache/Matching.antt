-- ===== src/Cache/Matching.antt =====
-- What the lookups by name return.
use otomatik.Base.{
  ◌<◌, ◌≡◌, ◌≢◌, refl, sym, ap, ◌∙◌, subst, List, [], ◌∷◌, none, some, map, arith, Option-cases,
  inl, inr, All,
}
use otomatik.Base.Outcome.{done, panic}
use otomatik.Base.Occurs.{occurs}
use otomatik.Base.Text.{Text, text_eq_refl}
use otomatik.Base.Map.{get}
use otomatik.Certificate.{Certificate}
use otomatik.Cache.{Cache, entries, certificate_at, get_all_matching_certs, get_first_matching_cert}
use otomatik.Cache.Invariant.{Inv, names_at}

-- A certificate of the cache that bears the name.
abbrev pub Serves : Cache → Text → Certificate → Type 0
Serves c n cert = (get c.cache cert.hash ≡ some cert) × (0 < occurs n cert.names)

module _ (c : Cache) (v : Inv c) (n : Text) where
  certificate_at-Serves :
      (h : Text)
      → 0 < occurs h (entries c.cache_index n)
      → Serves c n (certificate_at c.cache h) × ((certificate_at c.cache h).hash ≡ h)
  certificate_at-Serves h listed = elim (Option-cases (get c.cache h)) [
    | inl gone ↦ absurd (ground (arith, gone, v.indexed n h, listed))
    | inr (cert, there) ↦
        let found : certificate_at c.cache h ≡ cert = rw (there, certificate_at) in
        let keyed : cert.hash ≡ h = v.keyed h cert there in
        subst (λ x. Serves c n x × (x.hash ≡ h)) (sym found)
          ((ap (get c.cache) keyed ∙ there, ground (arith, v.indexed n h, there, listed)), keyed)
  ]

  map-Serves :
      (l : List Text)
      → ((h : Text) → 0 < occurs h l → 0 < occurs h (entries c.cache_index n))
      → All (Serves c n) (map (certificate_at c.cache) l)
        × (map (λ x. x.hash) (map (certificate_at c.cache) l) ≡ l)
  map-Serves [] inside = (tt, refl)
  map-Serves (h ∷ l) inside =
      let (serves, keyed) = certificate_at-Serves h (inside h (ground (arith, text_eq_refl h))) in
      let (rest, same) = map-Serves l (λ k b. inside k (omega arith)) in
      ((serves, rest), λ i. keyed i ∷ same i)

  -- In a consistent cache every certificate that getAllMatchingCerts returns is cached and bears the
  -- name, and each cached certificate is returned exactly as often as the name stands on it.
  pub get_all_matching_certs_lem :
      All (Serves c n) (get_all_matching_certs c n)
      × ((h : Text)
          → occurs h (map (λ x. x.hash) (get_all_matching_certs c n)) ≡ names_at c.cache h n)
  unfolding get_all_matching_certs
  get_all_matching_certs_lem =
      let (serves, same) = map-Serves (entries c.cache_index n) (λ h b. b) in
      (serves, λ h. ap (occurs h) same ∙ v.indexed n h)

  pub matches-ne-nil : (cert : Certificate) → Serves c n cert → get_all_matching_certs c n ≢ []
  matches-ne-nil cert (there, named) e = ground (
    arith,
    ap (λ l. occurs cert.hash (map (λ x. x.hash) l)) e,
    get_all_matching_certs_lem.1 cert.hash,
    there,
    named,
  )

  matches-eq-nil : ((cert : Certificate) → ¬ Serves c n cert) → get_all_matching_certs c n ≡ []
  matches-eq-nil nobody = by_matches (get_all_matching_certs c n) get_all_matching_certs_lem.0
    where
      by_matches : (l : List Certificate) → All (Serves c n) l → l ≡ []
      by_matches [] serve = refl
      by_matches (cert ∷ l) serve = absurd (nobody cert serve.0)

  first_none : get_all_matching_certs c n ≢ [] → get_first_matching_cert c n ≡ done none
  unfolding get_first_matching_cert
  first_none h = ground (arith, h)

  first_panic : get_all_matching_certs c n ≡ [] → get_first_matching_cert c n ≡ panic
  unfolding get_first_matching_cert
  first_panic h = ground (arith, h)

  -- getFirstMatchingCert has its test the wrong way round: in a consistent cache it finds nothing
  -- where a cached certificate bears the name, and it panics where none does.
  pub get_first_matching_cert_fails :
      ((cert : Certificate) → Serves c n cert → get_first_matching_cert c n ≡ done none)
      × (((cert : Certificate) → ¬ Serves c n cert) → get_first_matching_cert c n ≡ panic)
  get_first_matching_cert_fails = (
    λ cert serves. first_none (matches-ne-nil cert serves),
    λ nobody. first_panic (matches-eq-nil nobody),
  )
