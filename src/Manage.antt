-- ===== src/Manage.antt =====
-- certificates.go: certificates from the storage into the cache; config.go: manageAll and manageOne.
pub mod Loaded
pub mod Whitelist
use otomatik.Base.{
  ℕ, Bool, true, false, not, ◌&&◌, List, [], ◌∷◌, ◌++◌, Option, none, some, if◌then◌else◌,
}
use otomatik.Base.Text.{Text, codes}
use otomatik.Base.Errors.{Error, message, wrapped}
use otomatik.Base.Outcome.{Outcome, done, panic}
use otomatik.Base.Result.{
  Result, ok, err, stopped, panicked, Action, next, ◌>>=◌, ◌>>◌, pure, raise, give, with_error,
}
use otomatik.Cache.{Cache, cache_certificate, replace_certificate}
use otomatik.Certificate.{Certificate, OcspResponse}
use otomatik.Certificate.Making.{
  X509, make_certificate, fill_cert_from_leaf, currently_in_renewal_window, needs_renewal,
}
use otomatik.Config.{Config, World, out, emit}
use otomatik.Config.Issuance.{obtain_cert, renew_cert}
use otomatik.Ocsp.{Ocsp, staple_ocsp}
use otomatik.OnDemand.{OnDemandConfig, whitelist_contains}
use otomatik.Resources.{CertificateResource, load_cert_resource}

-- A job that manageOne submits: obtaining and then caching, without a name, or renewing and then
-- reloading the certificate, under the name `renew_` and the domain; and one that queueRenewalTask
-- submits, under such a name too.
pub data Job : Type 0 where
  obtain_job : Text → Job
  renew_job : Text → Certificate → Job
  renewal_task : Text → Certificate → Job

-- The state of a configuration: the world, its cache, its OnDemand, and the submitted jobs, the last
-- one first.
pub record Instance (S : Type 0) : Type 0 where
  pub world : World S
  pub cert_cache : Cache
  pub on_demand : Option OnDemandConfig
  pub submitted : List Job

abbrev pub back_in : {S A : Type 0} → Instance S → Result A × World S → Result A × Instance S
back_in i (r, w) = (r, record i { world = w })

-- A call that changes the world only.
abbrev pub inside : {S A : Type 0} → Action (World S) A → Action (Instance S) A
inside m i = back_in i (m i.world)

-- The callers of stapleOCSP go on with the certificate when it returns an error.
abbrev pub staple_or_not :
    {S : Type 0} → Certificate × Result OcspResponse × S → Result Certificate × S
staple_or_not (cert, ok response, s) = (ok cert, s)
staple_or_not (cert, err e, s) = (ok cert, s)
staple_or_not (cert, stopped h, s) = (stopped h, s)

-- Names[0]
abbrev pub first_name : List Text → Result Text
first_name [] = stopped panicked
first_name (name ∷ names) = ok name

-- What manageAll does with a name where OnDemand is set
abbrev pub allow_host : Text → OnDemandConfig → OnDemandConfig
allow_host domain od =
    if whitelist_contains od.host_whitelist domain
    then od
    else record od { host_whitelist = od.host_whitelist ++ domain ∷ [] }

-- `stapler` has the storage of the configuration.
module _ {S : Type 0} (cfg : Config S) (stapler : Ocsp X509 S) where
  unfoldable pub with_ocsp : Option Text → Certificate → Action S Certificate
  with_ocsp bundle cert s = staple_or_not (staple_ocsp stapler bundle cert s)

  -- makeCertificateWithOCSP
  unfoldable pub make_certificate_with_ocsp : Text → Text → Action S Certificate
  unfolding with_ocsp
  make_certificate_with_ocsp cert_pem_block key_pem_block =
      give (make_certificate cfg.pki cert_pem_block key_pem_block) >>= λ cert.
      with_ocsp (some cert_pem_block) cert

  -- loadManagedCertificate
  unfoldable pub load_managed_certificate : Text → Action S Certificate
  unfolding make_certificate_with_ocsp
  load_managed_certificate domain =
      load_cert_resource cfg.storage cfg.json cfg.issuer_key domain >>= λ cert_res.
      make_certificate_with_ocsp cert_res.certificate_pem cert_res.private_key_pem >>= λ cert.
      pure (record cert { managed = true })

  abbrev pub cache_in : Certificate → Instance S → Instance S
  cache_in cert i = record i { cert_cache = cache_certificate i.cert_cache cert }

  abbrev pub emit_in : Text → List Text → Instance S → Instance S
  emit_in event_name subjects i = record i { world = emit cfg event_name subjects i.world }

  -- The end of CacheManagedCertificate and of CacheUnmanagedCertificatePEMBytes
  unfoldable pub cached : Text → Certificate → Action (Instance S) Certificate
  cached event_name cert i = (ok cert, emit_in event_name cert.names (cache_in cert i))

  -- CacheManagedCertificate
  unfoldable pub cache_managed_certificate : Text → Action (Instance S) Certificate
  unfolding load_managed_certificate cached
  cache_managed_certificate domain = inside (out (load_managed_certificate domain)) >>= λ cert.
      cached (codes "cached_managed_cert") cert

  -- CacheUnmanagedCertificatePEMBytes
  unfoldable pub cache_unmanaged_certificate_pem_bytes :
      Text → Text → List Text → Action (Instance S) Certificate
  unfolding make_certificate_with_ocsp cached
  cache_unmanaged_certificate_pem_bytes cert_bytes key_bytes tags =
      inside (out (make_certificate_with_ocsp cert_bytes key_bytes)) >>= λ cert.
      cached (codes "cached_unmanaged_cert") (record cert { tags = tags })

  -- CacheUnmanagedCertificatePEMFile, by the contents of the files or the error of reading them
  unfoldable pub cache_unmanaged_certificate_pem_file :
      Result Text → Result Text → List Text → Action (Instance S) Certificate
  unfolding cache_unmanaged_certificate_pem_bytes
  cache_unmanaged_certificate_pem_file cert_file key_file tags = give cert_file >>= λ cert_bytes.
      give key_file >>= λ key_bytes. cache_unmanaged_certificate_pem_bytes cert_bytes key_bytes tags

  -- CacheUnmanagedTLSCertificate of a chain
  unfoldable pub cache_unmanaged_tls_certificate :
      List Text → List Text → Action (Instance S) Certificate
  unfolding with_ocsp
  cache_unmanaged_tls_certificate chain tags =
      give (fill_cert_from_leaf cfg.pki chain) >>= λ filled_cert.
      inside (out (with_ocsp none filled_cert)) >>= λ cert. λ i.
        let tagged_cert : Certificate = record cert { tags = tags } in
        (
          ok tagged_cert,
          cache_in tagged_cert (emit_in (codes "cached_unmanaged_cert") cert.names i),
        )

  abbrev pub parse_first : List Text → Result X509
  parse_first [] = stopped panicked
  parse_first (der ∷ chain) = cfg.pki.parse_certificate der

  -- managedCertInStorageExpiresSoon
  unfoldable pub managed_cert_in_storage_expires_soon : Certificate → Action S Bool
  managed_cert_in_storage_expires_soon cert = give (first_name cert.names) >>= λ name.
      load_cert_resource cfg.storage cfg.json cfg.issuer_key name >>= λ cert_res.
      give (cfg.pki.x509_key_pair cert_res.certificate_pem cert_res.private_key_pem) >>= λ chain.
      give (parse_first chain) >>= λ leaf.
      λ s. let (t, s') = cfg.now s in (ok (currently_in_renewal_window cfg.window leaf.dates t), s')

  abbrev pub replaced : Instance S → Outcome Cache → Result (Unit {0}) × Instance S
  replaced i (done c) = (ok tt, record i { cert_cache = c })
  replaced i panic = (stopped panicked, i)

  -- reloadManagedCertificate
  unfoldable pub reload_managed_certificate : Certificate → Action (Instance S) (Unit {0})
  unfolding load_managed_certificate
  reload_managed_certificate old_cert = give (first_name old_cert.names) >>= λ name.
      with_error (λ e. message "loading managed certificate from storage")
        (inside (out (load_managed_certificate name)))
      >>= λ new_cert. λ i. replaced i (replace_certificate i.cert_cache old_cert new_cert)

  -- The function `obtain` of manageOne
  unfoldable pub obtain_then_cache : ℕ → Bool → Text → Action (Instance S) (Unit {0})
  unfolding cache_managed_certificate
  obtain_then_cache fuel interactive domain =
      with_error (wrapped "obtaining certificate")
        (inside (obtain_cert cfg fuel domain interactive))
      >> with_error (λ e. message "caching certificate after obtaining it")
          (cache_managed_certificate domain)
      >>= λ cert. pure tt

  -- The function `renew` of manageOne
  unfoldable pub renew_then_reload : ℕ → Bool → Text → Certificate → Action (Instance S) (Unit {0})
  unfolding reload_managed_certificate
  renew_then_reload fuel interactive domain cert =
      with_error (wrapped "renewing certificate") (inside (renew_cert cfg fuel domain interactive))
      >> with_error (λ e. message "reloading renewed certificate into memory")
          (reload_managed_certificate cert)

  abbrev pub submit_job : Job → Action (Instance S) (Unit {0})
  submit_job job i = (ok tt, record i { submitted = job ∷ i.submitted })

  unfoldable pub cert_is_due : Certificate → Action S Bool
  cert_is_due cert s = let (t, s') = cfg.now s in (needs_renewal cfg.window cert.leaf t, s')

  abbrev pub renew_if : ℕ → Bool → Text → Certificate → Bool → Action (Instance S) (Unit {0})
  unfolding renew_then_reload
  renew_if fuel async domain cert due =
      if due
      then (if async
          then submit_job (renew_job domain cert)
          else renew_then_reload fuel true domain cert)
      else pure tt

  -- manageOne after CacheManagedCertificate. Every error is an ErrNotExist, which has no method of its
  -- own.
  unfoldable pub after_loading :
      ℕ → Bool → Text → Result Certificate × Instance S → Result (Unit {0}) × Instance S
  unfolding obtain_then_cache cert_is_due
  after_loading fuel async domain (ok cert, i) =
      (inside (out (cert_is_due cert)) >>= renew_if fuel async domain cert) i
  after_loading fuel true domain (err e, i) = submit_job (obtain_job domain) i
  after_loading fuel false domain (err e, i) = obtain_then_cache fuel true domain i
  after_loading fuel async domain (stopped h, i) = (stopped h, i)

  -- manageOne
  unfoldable pub manage_one : ℕ → Bool → Text → Action (Instance S) (Unit {0})
  unfolding after_loading
  manage_one fuel async domain i =
      after_loading fuel async domain (cache_managed_certificate domain i)

  -- One round of the loop of manageAll
  unfoldable pub manage_name :
      ℕ → Bool → Text → Option OnDemandConfig → Action (Instance S) (Unit {0})
  unfolding manage_one
  manage_name fuel async domain none i = manage_one fuel async domain i
  manage_name fuel async domain (some od) i =
      (ok tt, record i { on_demand = some (allow_host domain od) })

  -- manageAll
  unfoldable pub manage_all : ℕ → Bool → List Text → Action (Instance S) (Unit {0})
  unfolding manage_name
  manage_all fuel async [] = pure tt
  manage_all fuel async (domain ∷ domains) =
      (λ i. manage_name fuel async domain i.on_demand i) >> manage_all fuel async domains
