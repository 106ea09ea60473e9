-- ===== src/Resources/RoundTrip.antt =====
-- A certificate resource in the storage and back.
use otomatik.Base.{◌≡◌, refl, ap, ◌∙◌, subst, false, Option, none, some, arith}
use otomatik.Base.Text.{Text, text_eq, text_eq_iff, text_eq_refl}
use otomatik.Base.Errors.{Error}
use otomatik.Base.Result.{Result, ok, err, stopped, err-ne-ok, stopped-ne-ok, >>=-ok, as_result}
use otomatik.Storage.{Storage, store_tx}
use otomatik.Storage.Transaction.{MapLike, IsReadable, written, store_tx_stores}
use otomatik.Keys.{site_cert, site_private_key, site_meta, names_key}
use otomatik.Keys.Sites.{site_keys_differ}
use otomatik.Resources.{
  CertificateResource, Json, loaded_pems, decoding_failed, resource_pairs, store_resource,
  save_cert_resource, load_cert_resource,
}

-- What encoding/json documents of the resource: the metadata of a resource, read over one that has
-- only PEMs, gives the names back, and the issuer's data as a decoded value, and keeps the PEMs.
pub record IsJson (json : Json) : Type 0 where
  pub read :
      (cert : CertificateResource) (meta certificate key : Text)
      → json.marshal cert ≡ ok meta
      → json.unmarshal meta (loaded_pems certificate key)
        ≡ ok (record {
          sans = cert.sans;
          certificate_pem = certificate;
          private_key_pem = key;
          issuer_data = json.decoded cert.issuer_data;
        })

abbrev none_at : {S : Type 0} → S → Option Error × S
none_at s = (none, s)

text_eq_flip : (s t : Text) → text_eq s t ≡ false → text_eq t s ≡ false
text_eq_flip s t h = ground (arith, text_eq_iff s t, text_eq_iff t s, h)

module _ {S : Type 0} (x : Storage S) (law : MapLike x) (json : Json) where
  -- A save that succeeded stored the metadata and went through storeTx.
  stored :
      (issuer_key : Text) (cert : CertificateResource) (r : Result Text) (s t : S)
      → json.marshal cert ≡ r
      → store_resource x issuer_key cert r s ≡ (ok tt, t)
      → (meta : Text) × (json.marshal cert ≡ ok meta)
        × (store_tx x (resource_pairs issuer_key cert meta) s ≡ (none, t))
  unfolding store_resource
  stored issuer_key cert (ok meta) s t e h =
      (meta, e, went (store_tx x (resource_pairs issuer_key cert meta) s) h)
    where
      went : (r : Option Error × S) → as_result r ≡ (ok tt, t) → r ≡ (none, t)
      went (none, u) h = ap none_at (ap (λ r. r.1) h)
      went (some e, u) h = absurd (err-ne-ok (ap (λ r. r.0) h))
  stored issuer_key cert (err a) s t e h = absurd (err-ne-ok (ap (λ r. r.0) h))
  stored issuer_key cert (stopped k) s t e h = absurd (stopped-ne-ok (ap (λ r. r.0) h))

  written-at :
      (issuer_key : Text) (cert : CertificateResource) (meta : Text) (s t : S) (j : Text)
      → store_tx x (resource_pairs issuer_key cert meta) s ≡ (none, t)
      → law.view t j ≡ written (resource_pairs issuer_key cert meta) j (law.view s j)
  written-at issuer_key cert meta s t j h =
      subst (λ u. law.view u j ≡ written (resource_pairs issuer_key cert meta) j (law.view s j))
        (ap (λ r. r.1) h)
        (store_tx_stores x law (resource_pairs issuer_key cert meta) s (ap (λ r. r.0) h) j)

  has_pairs :
      (issuer_key : Text) (cert : CertificateResource) (meta : Text) (s t : S)
      → store_tx x (resource_pairs issuer_key cert meta) s ≡ (none, t)
      → (law.view t (site_cert issuer_key (names_key cert.sans)) ≡ some cert.certificate_pem)
        × (law.view t (site_private_key issuer_key (names_key cert.sans))
            ≡ some cert.private_key_pem)
        × (law.view t (site_meta issuer_key (names_key cert.sans)) ≡ some meta)
  unfolding resource_pairs
  has_pairs issuer_key cert meta s t h =
      let name = names_key cert.sans in
      let (ck, cm, km) = site_keys_differ issuer_key name in
      let kc = text_eq_flip (site_cert issuer_key name) (site_private_key issuer_key name) ck in
      let mc = text_eq_flip (site_cert issuer_key name) (site_meta issuer_key name) cm in
      let mk = text_eq_flip (site_private_key issuer_key name) (site_meta issuer_key name) km in
      (
        written-at issuer_key cert meta s t (site_cert issuer_key name) h
            ∙ rw (mc, kc, text_eq_refl (site_cert issuer_key name)) refl,
        written-at issuer_key cert meta s t (site_private_key issuer_key name) h
            ∙ rw (mk, text_eq_refl (site_private_key issuer_key name)) refl,
        written-at issuer_key cert meta s t (site_meta issuer_key name) h
            ∙ rw (text_eq_refl (site_meta issuer_key name)) refl,
      )

  -- After a save that succeeded the three keys have their values.
  pub saved :
      (issuer_key : Text) (cert : CertificateResource) (s t : S)
      → save_cert_resource x json issuer_key cert s ≡ (ok tt, t)
      → (meta : Text) × (json.marshal cert ≡ ok meta)
        × (law.view t (site_cert issuer_key (names_key cert.sans)) ≡ some cert.certificate_pem)
        × (law.view t (site_private_key issuer_key (names_key cert.sans))
            ≡ some cert.private_key_pem)
        × (law.view t (site_meta issuer_key (names_key cert.sans)) ≡ some meta)
  unfolding save_cert_resource
  saved issuer_key cert s t h =
      let (meta, e, went) = stored issuer_key cert (json.marshal cert) s t refl h in
      let (c, k, m) = has_pairs issuer_key cert meta s t went in (meta, e, c, k, m)

module _ {S : Type 0} (x : Storage S) (law : MapLike x) (reads : IsReadable x law) (json : Json)
    (laws : IsJson json) where
  load-found : (k v : Text) (s : S) → law.view s k ≡ some v → x.load k s ≡ (ok v, (x.load k s).1)
  load-found k v s h = ap (λ r. (r, (x.load k s).1)) (reads.loaded k s ∙ rw h refl)

  -- Three loads that find their keys.
  load_found :
      (issuer_key certs_key certificate key meta : Text) (s : S)
      → law.view s (site_cert issuer_key certs_key) ≡ some certificate
      → law.view s (site_private_key issuer_key certs_key) ≡ some key
      → law.view s (site_meta issuer_key certs_key) ≡ some meta
      → (load_cert_resource x json issuer_key certs_key s).0
        ≡ decoding_failed (json.unmarshal meta (loaded_pems certificate key))
  unfolding load_cert_resource
  load_found issuer_key certs_key certificate key meta s c k m =
      let s₁ = (x.load (site_cert issuer_key certs_key) s).1 in
      let s₂ = (x.load (site_private_key issuer_key certs_key) s₁).1 in
      let e₁ = load-found (site_cert issuer_key certs_key) certificate s c in
      let e₂ = load-found (site_private_key issuer_key certs_key) key s₁ (
        reads.load_keeps (site_cert issuer_key certs_key) s (site_private_key issuer_key certs_key)
        ∙ k) in
      let e₃ = load-found (site_meta issuer_key certs_key) meta s₂ (
        reads.load_keeps (site_private_key issuer_key certs_key) s₁ (site_meta issuer_key certs_key)
        ∙ reads.load_keeps (site_cert issuer_key certs_key) s (site_meta issuer_key certs_key)
        ∙ m) in
      ap (λ r. r.0)
        (>>=-ok (x.load (site_cert issuer_key certs_key)) _ s e₁
          ∙ >>=-ok (x.load (site_private_key issuer_key certs_key)) _ s₁ e₂
          ∙ >>=-ok (x.load (site_meta issuer_key certs_key)) _ s₂ e₃)

  -- Over a storage that is a map whose loads read it, with JSON that reads what it wrote: when
  -- saveCertResource returns no error, loadCertResource under the key of the names of the resource
  -- returns the same resource, but for the issuer's data, which are what decoding makes of them.
  pub load-save_cert_resource :
      (issuer_key : Text) (cert : CertificateResource) (s t : S)
      → save_cert_resource x json issuer_key cert s ≡ (ok tt, t)
      → (load_cert_resource x json issuer_key (names_key cert.sans) t).0
        ≡ ok (record cert { issuer_data = json.decoded cert.issuer_data })
  load-save_cert_resource issuer_key cert s t h =
      let (meta, e, c, k, m) = saved x law json issuer_key cert s t h in
      load_found issuer_key (names_key cert.sans) cert.certificate_pem cert.private_key_pem meta t c
        k m
      ∙ ap decoding_failed (laws.read cert meta cert.certificate_pem cert.private_key_pem e)
