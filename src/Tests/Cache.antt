-- ===== src/Tests/Cache.antt =====
-- Runs of the certificate cache of cache.go.
use otomatik.Base.{
  ◌<◌, ◌≤◌, ◌≡◌, refl, List, [], ◌∷◌, some, arith, All, Bool-cases, inl, inr, subst,
}
use otomatik.Base.Text.{Text, codes, text_eq, text_eq_iff}
use otomatik.Base.Occurs.{occurs}
use otomatik.Base.Map.{get, put, delete}
use otomatik.Base.Outcome.{done}
use otomatik.Certificate.{Certificate, zero_certificate}
use otomatik.Cache.{
  Cache, empty_cache, index_names, cache_certificate, remove_certificate, all_matching_certificates,
}
use otomatik.Cache.Wildcards.{ServesPattern, listed, all_matching_certificates_lem}
use otomatik.Cache.Invariant.{
  Inv, Distinct, AllDistinct, Removed, Op, Ops, cache_certificate-Inv, empty_cache-Inv,
  remove_certificate_lem, cache_stays_consistent,
}

abbrev for_names : Text → List Text → Certificate
for_names hash names = record zero_certificate { hash = hash; names = names }

abbrev old_cert : Certificate
old_cert = for_names (codes "h1") (codes "a" ∷ codes "b" ∷ [])

abbrev new_cert : Certificate
new_cert = for_names (codes "h2") (codes "a" ∷ [])

old_cert-Distinct : Distinct old_cert
unfolding text_eq
old_cert-Distinct n = elim (Bool-cases (text_eq (codes "a") n)) [
  | inl e ↦ subst (λ m. occurs m old_cert.names ≤ 1) ((text_eq_iff (codes "a") n).0 e) (omega arith)
  | inr e ↦ ground (arith, e)
]

new_cert-Distinct : Distinct new_cert
new_cert-Distinct n = ground arith

-- Both certificates are cached, and then the old one is removed.
abbrev both : Cache
both = cache_certificate (cache_certificate empty_cache old_cert) new_cert

both-Inv : Inv both
both-Inv =
    cache_certificate-Inv (cache_certificate empty_cache old_cert) new_cert
      (cache_certificate-Inv empty_cache old_cert empty_cache-Inv)

old_cached : get both.cache old_cert.hash ≡ some old_cert
unfolding cache_certificate index_names get put delete text_eq
old_cached = refl

new_cached : get both.cache new_cert.hash ≡ some new_cert
unfolding cache_certificate index_names get put delete text_eq
new_cached = refl

remove_certificate_lem_example :
    (c : Cache) × (remove_certificate both old_cert ≡ done c) × Removed both old_cert c
remove_certificate_lem_example =
    remove_certificate_lem both old_cert both-Inv old_cached old_cert-Distinct

abbrev remaining : Cache
remaining = (remove_certificate_lem both old_cert both-Inv old_cached old_cert-Distinct).0

three_operations : Ops empty_cache remaining
three_operations =
    Ops.next
      (Ops.next (Ops.next Ops.here (Op.caches _ old_cert old_cert-Distinct))
        (Op.caches _ new_cert new_cert-Distinct))
      (Op.removes both remaining old_cert old_cached
        (remove_certificate_lem both old_cert both-Inv old_cached old_cert-Distinct).1)

cache_stays_consistent_example : Inv remaining × AllDistinct remaining
cache_stays_consistent_example = cache_stays_consistent three_operations

abbrev starred : Cache
starred = cache_certificate empty_cache (for_names (codes "h4") (codes "*.a" ∷ []))

starred-Inv : Inv starred
starred-Inv =
    cache_certificate-Inv empty_cache (for_names (codes "h4") (codes "*.a" ∷ [])) empty_cache-Inv

all_matching_certificates_lem_example :
    All
      (ServesPattern starred (codes "b" ∷ codes "a" ∷ []))
      (all_matching_certificates starred (codes "b.a"))
    × ((cert : Certificate)
        → ServesPattern starred (codes "b" ∷ codes "a" ∷ []) cert
        → 0 < listed cert.hash (all_matching_certificates starred (codes "b.a")))
all_matching_certificates_lem_example =
    all_matching_certificates_lem starred starred-Inv (codes "b.a")
