-- ===== src/Certificate/Subjects.antt =====
-- fillCertFromLeaf of certificates.go, and what a name that it repeats does to the cache.
use otomatik.Base.{◌≡◌, refl, ap, ◌∙◌, false, List, [], ◌∷◌, none, some}
use otomatik.Base.Text.{Text, is_empty, text_eq, to_lower}
use otomatik.Base.Map.{get}
use otomatik.Base.Outcome.{panic}
use otomatik.Base.Result.{ok}
use otomatik.Certificate.{Certificate, zero_certificate}
use otomatik.Certificate.Making.{
  X509, Pki, other_names, leaf_names, filled, fill_parsed, fill_cert_from_leaf,
}
use otomatik.Cache.{Cache, cache_certificate, remove_certificate}
use otomatik.Cache.Invariant.{repeated_name_panics}

names_twice :
    (leaf : X509) (domain : Text)
    → is_empty leaf.common_name ≡ false
    → leaf.dns_names ≡ domain ∷ []
    → leaf.ip_addresses ≡ []
    → leaf.email_addresses ≡ []
    → leaf.uris ≡ []
    → text_eq domain leaf.common_name ≡ false
    → to_lower domain ≡ to_lower leaf.common_name
    → leaf_names leaf ≡ to_lower leaf.common_name ∷ to_lower leaf.common_name ∷ []
unfolding leaf_names other_names
names_twice leaf domain named d i e u differs same = rw (named, d, i, e, u, differs, same) refl

-- The certificate that fillCertFromLeaf makes with these names.
abbrev made : Pki → List Text → X509 → Text → List Text → Certificate
made x chain leaf name names = record zero_certificate {
  chain = chain;
  leaf = some leaf.dates;
  names = name ∷ names;
  hash = x.hash_certificate_chain chain;
}

-- A certificate whose leaf has a common name and, as its only other subject, a DNS name that differs
-- from it only in the case of letters: fillCertFromLeaf succeeds, and when the certificate is cached
-- while neither its hash nor that name is known to the cache, its removal panics.
pub filled_twice_panics :
    (x : Pki) (c : Cache) (der : Text) (chain : List Text) (leaf : X509) (domain : Text)
    → x.parse_certificate der ≡ ok leaf
    → is_empty leaf.common_name ≡ false
    → leaf.dns_names ≡ domain ∷ []
    → leaf.ip_addresses ≡ []
    → leaf.email_addresses ≡ []
    → leaf.uris ≡ []
    → text_eq domain leaf.common_name ≡ false
    → to_lower domain ≡ to_lower leaf.common_name
    → get c.cache (x.hash_certificate_chain (der ∷ chain)) ≡ none
    → get c.cache_index (to_lower leaf.common_name) ≡ none
    → (cert : Certificate) × (fill_cert_from_leaf x (der ∷ chain) ≡ ok cert)
      × (remove_certificate (cache_certificate c cert) cert ≡ panic)
unfolding fill_cert_from_leaf fill_parsed
filled_twice_panics x c der chain leaf domain parsed named d i e u differs same new free =
    let n = to_lower leaf.common_name in
    let cert = made x (der ∷ chain) leaf n (n ∷ []) in
    (
      cert,
      ap (fill_parsed x (der ∷ chain)) parsed
          ∙ ap (filled x (der ∷ chain) leaf) (names_twice leaf domain named d i e u differs same),
      repeated_name_panics c cert n refl new free,
    )
