-- ===== src/Manage/Loaded.antt =====
-- certificates.go: what CacheManagedCertificate puts into the cache.
use otomatik.Base.{
  ◌≡◌, ◌≢◌, refl, sym, ap, ◌∙◌, subst, true, List, [], ◌∷◌, Option, none, some, inl, inr,
}
use otomatik.Base.Text.{Text, text_eq_refl}
use otomatik.Base.Map.{get, put, get-put}
use otomatik.Base.Result.{
  Result, ok, err, stopped, Action, give, err-ne-ok, stopped-ne-ok, ok-injective, >>=-eq-ok,
}
use otomatik.Cache.{Cache, index_names, cache_certificate}
use otomatik.Certificate.{Certificate, Leaf, OcspResponse}
use otomatik.Certificate.Making.{
  X509, Pki, leaf_names, filled, fill_parsed, fill_cert_from_leaf, fill_paired, make_certificate,
}
use otomatik.Config.{Config, out, back}
use otomatik.Ocsp.{Ocsp, staple_ocsp}
use otomatik.Ocsp.Staples.{IsStapled, staple_ocsp-IsStapled}
use otomatik.Resources.{load_cert_resource}
use otomatik.Manage.{
  Instance, back_in, inside, staple_or_not, with_ocsp, make_certificate_with_ocsp,
  load_managed_certificate, cached, cache_managed_certificate,
}

-- A certificate that has names and its leaf.
abbrev pub IsMade : Certificate → Type 0
IsMade cert = (cert.names ≢ []) × (leaf : Leaf) × (cert.leaf ≡ some leaf)

filled-IsMade :
    (x : Pki) (chain : List Text) (leaf : X509) (names : List Text) (cert : Certificate)
    → filled x chain leaf names ≡ ok cert
    → IsMade cert
filled-IsMade x chain leaf [] cert h = absurd (err-ne-ok h)
filled-IsMade x chain leaf (name ∷ names) cert h =
    subst IsMade (ok-injective h) ((λ e. cc), leaf.dates, refl)

parsed-IsMade :
    (x : Pki) (chain : List Text) (r : Result X509) (cert : Certificate)
    → fill_parsed x chain r ≡ ok cert
    → IsMade cert
unfolding fill_parsed
parsed-IsMade x chain (ok leaf) cert h = filled-IsMade x chain leaf (leaf_names leaf) cert h
parsed-IsMade x chain (err e) cert h = absurd (err-ne-ok h)
parsed-IsMade x chain (stopped k) cert h = absurd (stopped-ne-ok h)

paired-IsMade :
    (x : Pki) (r : Result (List Text)) (cert : Certificate)
    → fill_paired x r ≡ ok cert
    → IsMade cert
unfolding fill_paired fill_cert_from_leaf
paired-IsMade x (ok []) cert h = absurd (err-ne-ok h)
paired-IsMade x (ok (der ∷ chain)) cert h =
    parsed-IsMade x (der ∷ chain) (x.parse_certificate der) cert h
paired-IsMade x (err e) cert h = absurd (err-ne-ok h)
paired-IsMade x (stopped k) cert h = absurd (stopped-ne-ok h)

make_certificate-IsMade :
    (x : Pki) (c k : Text) (cert : Certificate) → make_certificate x c k ≡ ok cert → IsMade cert
unfolding make_certificate
make_certificate-IsMade x c k cert h = paired-IsMade x (x.x509_key_pair c k) cert h

IsStapled-IsMade :
    {X S : Type 0} (x : Ocsp X S) (cert cert' : Certificate)
    → IsStapled x cert cert'
    → IsMade cert
    → IsMade cert'
IsStapled-IsMade x cert cert' (inl same) made = subst IsMade (sym same) made
IsStapled-IsMade x cert cert' (inr (staple, same, good)) made = subst IsMade (sym same) made

kept-cert :
    {S : Type 0} (r : Certificate × Result OcspResponse × S) (cert : Certificate) (t : S)
    → staple_or_not r ≡ (ok cert, t)
    → r.0 ≡ cert
kept-cert (c, ok response, s) cert t h = ok-injective (ap (λ r. r.0) h)
kept-cert (c, err e, s) cert t h = ok-injective (ap (λ r. r.0) h)
kept-cert (c, stopped k, s) cert t h = absurd (stopped-ne-ok (ap (λ r. r.0) h))

pub inside-eq-ok :
    {S A : Type 0} (m : Action S A) (i i' : Instance S) {a : A}
    → inside (out m) i ≡ (ok a, i')
    → m i.world.outside ≡ (ok a, i'.world.outside)
inside-eq-ok m i i' {a} h = of_back (m i.world.outside) h
  where
    of_back :
        (r : Result _ × _) → back_in i (back i.world r) ≡ (ok a, i') → r ≡ (ok a, i'.world.outside)
    of_back (r, s) e = ap (λ x. (x.0, x.1.world.outside)) e

module _ {S : Type 0} (cfg : Config S) (stapler : Ocsp X509 S) where
  with_ocsp-IsMade :
      (bundle : Option Text) (cert cert' : Certificate) (s t : S)
      → with_ocsp cfg stapler bundle cert s ≡ (ok cert', t)
      → IsMade cert
      → IsMade cert'
  unfolding with_ocsp
  with_ocsp-IsMade bundle cert cert' s t h made =
      let r = staple_ocsp stapler bundle cert s in
      IsStapled-IsMade stapler cert cert'
        (subst (IsStapled stapler cert) (kept-cert r cert' t h)
          (staple_ocsp-IsStapled stapler bundle cert s))
        made

  load_managed_certificate-IsMade :
      (domain : Text) (s t : S) (cert : Certificate)
      → load_managed_certificate cfg stapler domain s ≡ (ok cert, t)
      → IsMade cert × (cert.managed ≡ true)
  unfolding load_managed_certificate make_certificate_with_ocsp
  load_managed_certificate-IsMade domain s t cert h =
      let (res, s₁, e₁, h₁) =
        >>=-eq-ok (load_cert_resource cfg.storage cfg.json cfg.issuer_key domain) _ s h in
      let (made, s₂, e₂, h₂) = >>=-eq-ok _ _ s₁ h₁ in
      let (plain, s₃, e₃, h₃) =
        >>=-eq-ok (give (make_certificate cfg.pki res.certificate_pem res.private_key_pem)) _ s₁
          e₂ in
      let is_made = with_ocsp-IsMade (some res.certificate_pem) plain made s₃ s₂ h₃ (
        make_certificate-IsMade cfg.pki res.certificate_pem res.private_key_pem plain
          (ap (λ r. r.0) e₃)) in
      let same = ok-injective (ap (λ r. r.0) h₂) in
      (subst IsMade same is_made, sym (ap (λ c. c.managed) same))

  cached-found :
      (c : Cache) (cert : Certificate)
      → (found : Certificate) × (get (cache_certificate c cert).cache cert.hash ≡ some found)
  unfolding cache_certificate
  cached-found c cert = by_entry (get c.cache cert.hash) refl
    where
      by_entry :
          (o : Option Certificate)
          → get c.cache cert.hash ≡ o
          → (found : Certificate) × (get
                (elim o as (λ _. Cache) [
                  | some _ ↦ c
                  | none ↦ record {
                    cache = put c.cache cert.hash cert;
                    cache_index = index_names cert.hash cert.names c.cache_index;
                  }
                ]).cache
                cert.hash
              ≡ some found)
      by_entry none new =
          (cert, get-put c.cache cert.hash cert.hash cert ∙ rw (text_eq_refl cert.hash) refl)
      by_entry (some old) there = (old, there)

  -- When CacheManagedCertificate returns a certificate without an error, that is managed, has its leaf
  -- and at least one name, and the cache has a certificate under its hash.
  pub cached_is_managed :
      (domain : Text) (i i' : Instance S) (cert : Certificate)
      → cache_managed_certificate cfg stapler domain i ≡ (ok cert, i')
      → IsMade cert
        × (cert.managed ≡ true)
        × ((found : Certificate) × (get i'.cert_cache.cache cert.hash ≡ some found))
  unfolding cache_managed_certificate cached
  cached_is_managed domain i i' cert h =
      let (c, i₁, e, g) =
        >>=-eq-ok (inside (out (load_managed_certificate cfg stapler domain))) _ i h in
      let same = ok-injective (ap (λ r. r.0) g) in
      let loaded = inside-eq-ok (load_managed_certificate cfg stapler domain) i i₁ e in
      let (made, managed) =
        load_managed_certificate-IsMade domain i.world.outside i₁.world.outside c loaded in
      (
        subst IsMade same made,
        sym (ap (λ x. x.managed) same) ∙ managed,
        subst (λ j. (found : Certificate) × (get j.cert_cache.cache cert.hash ≡ some found))
            (ap (λ r. r.1) g)
            (subst
              (λ x.
                (found : Certificate) × (get (cache_certificate i₁.cert_cache c).cache x.hash
                  ≡ some found))
              same (cached-found i₁.cert_cache c)),
      )
