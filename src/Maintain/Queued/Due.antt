-- ===== src/Maintain/Queued/Due.antt =====
-- maintain.go: the certificates that are due, and those that were renewed in the storage.
use otomatik.Base.{ℕ, ◌≡◌, refl, sym, ap, ◌∙◌, subst, Bool, true, false, List, [], ◌∷◌}
use otomatik.Base.Text.{Text}
use otomatik.Base.Result.{Result, ok, ok-injective, stopped-ne-ok, >>=-eq-ok, give}
use otomatik.Certificate.{Certificate}
use otomatik.Certificate.Making.{X509, needs_renewal, currently_in_renewal_window}
use otomatik.Resources.{CertificateResource, load_cert_resource}
use otomatik.Manage.{first_name, parse_first, managed_cert_in_storage_expires_soon}
use otomatik.Maintain.Renew.{Configs, get_config}

module _ {S C : Type 0} (x : Configs S C) (time : ℕ)
    (clock : (c : C) (s : S) → ((x.config c).now s).0 ≡ time) where
  -- A managed certificate with a name and a configuration of this cache, in its renewal window
  pub record IsDue (cert : Certificate) (c : C) : Type 0 where
    pub managed : cert.managed ≡ true
    pub name : Text
    pub names : List Text
    pub named : cert.names ≡ name ∷ names
    pub configured : get_config x cert ≡ ok c
    pub in_window : needs_renewal (x.config c).window cert.leaf time ≡ ok true

  -- After the reading of the clock in this state, the storage has a resource under the first name of the
  -- certificate, the leaf of which is not in its renewal window.
  pub record IsRenewed (cert : Certificate) (c : C) (s : S) : Type 0 where
    pub first : Text
    pub others : List Text
    pub names_are : cert.names ≡ first ∷ others
    pub resource : CertificateResource
    pub read : S
    pub loaded :
        load_cert_resource
          (x.config c).storage
          (x.config c).json
          (x.config c).issuer_key
          first
          ((x.config c).now s).1
        ≡ (ok resource, read)
    pub der : Text
    pub chain : List Text
    pub paired :
        (x.config c).pki.x509_key_pair resource.certificate_pem resource.private_key_pem
        ≡ ok (der ∷ chain)
    pub leaf : X509
    pub parsed : (x.config c).pki.parse_certificate der ≡ ok leaf
    pub early : currently_in_renewal_window (x.config c).window leaf.dates time ≡ false

  named_first :
      (names : List Text) {first : Text}
      → first_name names ≡ ok first
      → (others : List Text) × (names ≡ first ∷ others)
  named_first [] h = absurd (stopped-ne-ok h)
  named_first (name ∷ names) h = (names, ap (λ n. n ∷ names) (ok-injective h))

  parsed_first :
      (c : C) (ders : List Text) {leaf : X509}
      → parse_first (x.config c) (x.stapler c) ders ≡ ok leaf
      → (der : Text) × (chain : List Text) × (ders ≡ der ∷ chain)
        × ((x.config c).pki.parse_certificate der ≡ ok leaf)
  parsed_first c [] h = absurd (stopped-ne-ok h)
  parsed_first c (der ∷ ders) h = (der, ders, refl, h)

  -- What managedCertInStorageExpiresSoon has seen when it says no
  pub expires_later :
      (c : C) (cert : Certificate) (s : S) (r : Result Bool × S)
      → managed_cert_in_storage_expires_soon (x.config c) (x.stapler c) cert ((x.config c).now s).1
        ≡ r
      → r.0 ≡ ok false
      → IsRenewed cert c s
  unfolding managed_cert_in_storage_expires_soon
  expires_later c cert s (q, t) e h =
      let e' = e ∙ ap (λ o. (o, t)) h in
      let (first, s₁, e₁, h₁) =
        >>=-eq-ok (give (first_name cert.names)) _ ((x.config c).now s).1 e' in
      let (resource, s₂, e₂, h₂) = >>=-eq-ok _ _ s₁ h₁ in
      let (ders, s₃, e₃, h₃) = >>=-eq-ok _ _ s₂ h₂ in
      let (leaf, s₄, e₄, h₄) = >>=-eq-ok _ _ s₃ h₃ in
      let (others, names_are) = named_first cert.names (ap (λ o. o.0) e₁) in
      let (der, chain, is, parsed) = parsed_first c ders (ap (λ o. o.0) e₄) in
      record {
        first = first;
        others = others;
        names_are = names_are;
        resource = resource;
        read = s₂;
        loaded =
            subst
              (λ u.
                load_cert_resource (x.config c).storage (x.config c).json (x.config c).issuer_key
                  first u
                ≡ (ok resource, s₂))
              (sym (ap (λ o. o.1) e₁)) e₂;
        der = der;
        chain = chain;
        paired = ap (λ o. o.0) e₃ ∙ ap ok is;
        leaf = leaf;
        parsed = parsed;
        early =
            sym (ap (currently_in_renewal_window (x.config c).window leaf.dates) (clock c s₄))
            ∙ ok-injective (ap (λ o. o.0) h₄);
      }
