-- ===== src/Maintain/Expired.antt =====
-- maintain.go: deleteExpiredCerts and CleanStorage.
use otomatik.Base.{
  ℕ, ◌+◌, Bool, false, not, ◌&&◌, List, [], ◌∷◌, ◌++◌, Option, none, some, leb, ◌==◌, if◌then◌else◌,
}
use otomatik.Base.Text.{Text, codes, dot, slash, text_eq, contains_char}
use otomatik.Base.Errors.{Error, message}
use otomatik.Base.Result.{Result, ok, err, stopped, Action, next, ◌>>◌, pure}
use otomatik.Certificate.Making.{X509}
use otomatik.Crypto.{PemBlock}
use otomatik.Keys.{prefix_certs}
use otomatik.Maintain.{Cleaner, delete_old_ocsp_staples}
use otomatik.Storage.{Storage}

abbrev pub later_or : Text → Bool → Text → Text
later_or [] here t = if here then t else []
later_or (c ∷ later) here t = c ∷ later

-- path.Ext: from the last dot of the last part of a path
unfoldable pub ext : Text → Text
ext [] = []
ext (c ∷ t) = later_or (ext t) (c == dot && not (contains_char slash t)) (c ∷ t)

-- strings.TrimSuffix
unfoldable pub trim_suffix : Text → Text → Text
trim_suffix [] suffix = []
trim_suffix (c ∷ t) suffix =
    let rest = trim_suffix t suffix in if text_eq (c ∷ t) suffix then [] else c ∷ rest

-- One call after another for the elements of a list, until one returns an error
unfoldable pub each : {S A : Type 0} → (A → Action S (Unit {0})) → List A → Action S (Unit {0})
unfolding next
each f [] = pure tt
each f (a ∷ as_) = f a >> each f as_

-- The storage, encoding/pem and crypto/x509, and the clock.
pub record Sweeper (S : Type 0) : Type 0 where
  pub storage : Storage S
  pub pem_decode : Text → Option PemBlock
  pub parse_certificate : Text → Result X509
  pub now : S → ℕ × S

-- CleanStorageOptions
pub record CleanStorageOptions : Type 0 where
  pub ocsp_staples : Bool
  pub expired_certs : Bool
  pub expired_cert_grace_period : ℕ

abbrev pub crt : Text
crt = codes ".crt"

abbrev pub key_ext : Text
key_ext = codes ".key"

abbrev pub json_ext : Text
json_ext = codes ".json"

module _ {S : Type 0} (x : Sweeper S) (grace : ℕ) where
  -- The loop over the related assets, which logs errors
  unfoldable pub delete_keys : List Text → S → S
  delete_keys [] s = s
  delete_keys (k ∷ ks) s = delete_keys ks (x.storage.delete k s).1

  -- What becomes of a certificate by its end
  unfoldable pub delete_if_expired : Text → ℕ → Action S (Unit {0})
  unfolding delete_keys trim_suffix
  delete_if_expired asset_key not_after s =
      let (t, s') = x.now s in
      let base_name = trim_suffix asset_key crt in
      let deleted =
        delete_keys (asset_key ∷ (base_name ++ key_ext) ∷ (base_name ++ json_ext) ∷ []) s' in
      (ok tt, if leb (not_after + grace) t then deleted else s')

  unfoldable pub judge_cert : Text → Result X509 → Action S (Unit {0})
  unfolding delete_if_expired
  judge_cert asset_key (ok cert) s = delete_if_expired asset_key cert.dates.not_after s
  judge_cert asset_key (err e) s = (err (message "certificate file is malformed"), s)
  judge_cert asset_key (stopped h) s = (stopped h, s)

  unfoldable pub judge_block : Text → Option PemBlock → Action S (Unit {0})
  unfolding judge_cert
  judge_block asset_key none s =
      (err (message "certificate file does not contain PEM-encoded certificate"), s)
  judge_block asset_key (some block) s =
      let judged = judge_cert asset_key (x.parse_certificate block.bytes) s in
      if text_eq block.kind (codes "CERTIFICATE")
      then judged
      else (err (message "certificate file does not contain PEM-encoded certificate"), s)

  unfoldable pub judge_file : Text → Result Text × S → Result (Unit {0}) × S
  unfolding judge_block
  judge_file asset_key (ok cert_file, s) = judge_block asset_key (x.pem_decode cert_file) s
  judge_file asset_key (err e, s) = (err (message "loading certificate file"), s)
  judge_file asset_key (stopped h, s) = (stopped h, s)

  -- A round over the assets of a site
  unfoldable pub sweep_asset : Text → Action S (Unit {0})
  unfolding judge_file ext
  sweep_asset asset_key s =
      let judged = judge_file asset_key (x.storage.load asset_key s) in
      if text_eq (ext asset_key) crt then judged else (ok tt, s)

  abbrev pub site_deleted : Option Error × S → Result (Unit {0}) × S
  site_deleted (none, s) = (ok tt, s)
  site_deleted (some e, s) = (err (message "deleting empty site folder"), s)

  -- After the second listing of a site
  unfoldable pub sweep_empty : Text → Result (List Text) × S → Result (Unit {0}) × S
  sweep_empty site_key (ok [], s) = site_deleted (x.storage.delete site_key s)
  sweep_empty site_key (ok (a ∷ assets), s) = (ok tt, s)
  sweep_empty site_key (err e, s) = (ok tt, s)
  sweep_empty site_key (stopped h, s) = (stopped h, s)

  unfoldable pub sweep_assets : Text → Result (List Text) × S → Result (Unit {0}) × S
  unfolding each sweep_asset sweep_empty next
  sweep_assets site_key (ok assets, s) =
      (each sweep_asset assets >> λ t. sweep_empty site_key (x.storage.list site_key false t)) s
  sweep_assets site_key (err e, s) = (ok tt, s)
  sweep_assets site_key (stopped h, s) = (stopped h, s)

  -- A round over the sites of an issuer
  unfoldable pub sweep_site : Text → Action S (Unit {0})
  unfolding sweep_assets
  sweep_site site_key s = sweep_assets site_key (x.storage.list site_key false s)

  unfoldable pub sweep_sites : Result (List Text) × S → Result (Unit {0}) × S
  unfolding each sweep_site
  sweep_sites (ok sites, s) = each sweep_site sites s
  sweep_sites (err e, s) = (ok tt, s)
  sweep_sites (stopped h, s) = (stopped h, s)

  -- A round over the issuers
  unfoldable pub sweep_issuer : Text → Action S (Unit {0})
  unfolding sweep_sites
  sweep_issuer issuer_key s = sweep_sites (x.storage.list issuer_key false s)

  unfoldable pub sweep_issuers : Result (List Text) × S → Result (Unit {0}) × S
  unfolding each sweep_issuer
  sweep_issuers (ok issuers, s) = each sweep_issuer issuers s
  sweep_issuers (err e, s) = (ok tt, s)
  sweep_issuers (stopped h, s) = (stopped h, s)

  -- deleteExpiredCerts
  unfoldable pub delete_expired_certs : Action S (Unit {0})
  unfolding sweep_issuers
  delete_expired_certs s = sweep_issuers (x.storage.list prefix_certs false s)

-- What CleanStorage does with a result: it logs an error.
abbrev pub logged : {S : Type 0} → Result (Unit {0}) × S → Result (Unit {0}) × S
logged (ok u, s) = (ok tt, s)
logged (err e, s) = (ok tt, s)
logged (stopped h, s) = (stopped h, s)

-- CleanStorage, of one storage that both have
unfoldable pub clean_storage :
    {S : Type 0} → Cleaner S → Sweeper S → CleanStorageOptions → Action S (Unit {0})
unfolding delete_old_ocsp_staples delete_expired_certs next
clean_storage x y opts =
    (λ s.
      let cleaned = logged (delete_old_ocsp_staples x s) in
      if opts.ocsp_staples then cleaned else (ok tt, s))
    >> λ s.
        let swept = logged (delete_expired_certs y opts.expired_cert_grace_period s) in
        if opts.expired_certs then swept else (ok tt, s)
