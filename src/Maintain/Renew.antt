-- ===== src/Maintain/Renew.antt =====
-- maintain.go: RenewManagedCertificates and queueRenewalTask; cache.go: getConfig.
use otomatik.Base.{ℕ, Bool, true, false, List, [], ◌∷◌, ◌++◌, Option, none, some, if◌then◌else◌}
use otomatik.Base.Text.{Text}
use otomatik.Base.Errors.{message, no_retry}
use otomatik.Base.Map.{Map, get, put}
use otomatik.Base.Outcome.{Outcome, done, panic}
use otomatik.Base.Result.{
  Result, ok, err, stopped, panicked, Action, next, ◌>>=◌, ◌>>◌, pure, give, with_error,
}
use otomatik.Cache.{Cache, remove_certificate}
use otomatik.Certificate.{Certificate}
use otomatik.Certificate.Making.{X509}
use otomatik.Config.{Config, out}
use otomatik.Config.Issuance.{renew_cert}
use otomatik.Manage.{
  Instance, renewal_task, inside, first_name, cert_is_due, managed_cert_in_storage_expires_soon,
  reload_managed_certificate,
}
use otomatik.Ocsp.{Ocsp}

-- GetConfigForCert of the options of the cache, and of a configuration that it returns, which is not
-- nil: whether its certCache is nil or this cache, what it calls, and whether OnDemand is set.
pub record Configs (S C : Type 0) : Type 0 where
  pub get_config_for_cert : Certificate → Result C
  pub is_own : C → Bool
  pub config : C → Config S
  pub stapler : C → Ocsp X509 S
  pub is_on_demand : C → Bool

-- The local variables of RenewManagedCertificates
pub record Queues (C : Type 0) : Type 0 where
  pub configs : Map C
  pub renew_queue : List Certificate
  pub reload_queue : List Certificate
  pub delete_queue : List Certificate

abbrev pub no_queues : {C : Type 0} → Queues C
no_queues = record { configs = []; renew_queue = []; reload_queue = []; delete_queue = [] }

abbrev pub logged : {S : Type 0} → Result (Unit {0}) × S → Result (Unit {0}) × S
logged (ok u, s) = (ok tt, s)
logged (err e, s) = (ok tt, s)
logged (stopped h, s) = (stopped h, s)

-- configs[name], which is used as a configuration that is not nil
abbrev pub config_of : {C : Type 0} → Option C → Result C
config_of none = stopped panicked
config_of (some c) = ok c

abbrev pub removed_from : {S : Type 0} → Instance S → Outcome Cache → Result (Unit {0}) × Instance S
removed_from i (done c) = (ok tt, record i { cert_cache = c })
removed_from i panic = (stopped panicked, i)

module _ {S C : Type 0} (x : Configs S C) where
  unfoldable pub own_config : Result C → Result C
  own_config (ok c) =
      if x.is_own c
      then ok c
      else err (message "config returned for certificate points to different cache")
  own_config (err e) = err e
  own_config (stopped h) = stopped h

  -- getConfig
  unfoldable pub get_config : Certificate → Result C
  unfolding own_config
  get_config cert = own_config (x.get_config_for_cert cert)

  -- A due certificate, by what managedCertInStorageExpiresSoon returns
  unfoldable pub queue_due : Certificate → Queues C → Result Bool × S → Result (Queues C) × S
  queue_due cert q (ok true, s) = (ok (record q { renew_queue = q.renew_queue ++ cert ∷ [] }), s)
  queue_due cert q (ok false, s) = (ok (record q { reload_queue = q.reload_queue ++ cert ∷ [] }), s)
  queue_due cert q (err e, s) = (ok (record q { renew_queue = q.renew_queue ++ cert ∷ [] }), s)
  queue_due cert q (stopped h, s) = (stopped h, s)

  -- By what NeedsRenewal returns
  unfoldable pub scan_due :
      C → Certificate → Text → Queues C → Result Bool × S → Result (Queues C) × S
  unfolding queue_due
  scan_due c cert name q (ok true, s) =
      queue_due cert (record q { configs = put q.configs name c })
        (managed_cert_in_storage_expires_soon (x.config c) (x.stapler c) cert s)
  scan_due c cert name q (ok false, s) = (ok q, s)
  scan_due c cert name q (err e, s) = (ok q, s)
  scan_due c cert name q (stopped h, s) = (stopped h, s)

  -- By what getConfig returns
  unfoldable pub scan_configured : Certificate → Text → Queues C → Result C → Action S (Queues C)
  unfolding scan_due
  scan_configured cert name q (ok c) s =
      scan_due c cert name q (cert_is_due (x.config c) (x.stapler c) cert s)
  scan_configured cert name q (err e) s = (ok q, s)
  scan_configured cert name q (stopped h) s = (stopped h, s)

  unfoldable pub scan_named : Certificate → List Text → Queues C → Action S (Queues C)
  unfolding scan_configured
  scan_named cert [] q s = (ok (record q { delete_queue = q.delete_queue ++ cert ∷ [] }), s)
  scan_named cert (name ∷ names) q s = scan_configured cert name q (get_config cert) s

  -- A round of the first loop of RenewManagedCertificates
  unfoldable pub scan_cert : Certificate → Queues C → Action S (Queues C)
  unfolding scan_named
  scan_cert cert q s =
      let scanned = scan_named cert cert.names q s in if cert.managed then scanned else (ok q, s)

  unfoldable pub scan : List Certificate → Queues C → Action S (Queues C)
  unfolding scan_cert next
  scan [] q s = (ok q, s)
  scan (cert ∷ certs) q s = next (scan certs) (scan_cert cert q s)

  -- A round over the reload queue
  unfoldable pub reload_one : Map C → Certificate → Action (Instance S) (Unit {0})
  reload_one configs old_cert = give (first_name old_cert.names) >>= λ name.
      give (config_of (get configs name)) >>= λ c.
      λ i. logged (reload_managed_certificate (x.config c) (x.stapler c) old_cert i)

  unfoldable pub reload_all : Map C → List Certificate → Action (Instance S) (Unit {0})
  unfolding reload_one
  reload_all configs [] = pure tt
  reload_all configs (cert ∷ certs) = reload_one configs cert >> reload_all configs certs

  -- What the function that queueRenewalTask submits does after RenewCert
  unfoldable pub after_renewal :
      C → Certificate → Result (Unit {0}) × Instance S → Result (Unit {0}) × Instance S
  after_renewal c old_cert (ok u, i) =
      with_error (λ e. no_retry (message "reloading"))
        (reload_managed_certificate (x.config c) (x.stapler c) old_cert) i
  after_renewal c old_cert (err e, i) =
      let (r, i') = removed_from i (remove_certificate i.cert_cache old_cert) in
      let failed =
        next {A = Unit {0}} {B = Unit {0}} (λ u t. (err (message "renewing"), t)) (r, i') in
      if x.is_on_demand c then failed else (err (message "renewing"), i)
  after_renewal c old_cert (stopped h, i) = (stopped h, i)

  -- That function
  unfoldable pub run_renewal_task : ℕ → C → Text → Certificate → Action (Instance S) (Unit {0})
  unfolding after_renewal
  run_renewal_task fuel c renew_name old_cert i =
      after_renewal c old_cert (inside (renew_cert (x.config c) fuel renew_name false) i)

  -- queueRenewalTask. The job is noted without the configuration that its closure captures; the log reads
  -- the leaf, which a certificate has for which NeedsRenewal did not panic.
  unfoldable pub queue_renewal_task : Certificate → Action (Instance S) (Unit {0})
  queue_renewal_task old_cert = give (first_name old_cert.names) >>= λ renew_name.
      λ i. (ok tt, record i { submitted = renewal_task renew_name old_cert ∷ i.submitted })

  unfoldable pub queue_all : List Certificate → Action (Instance S) (Unit {0})
  unfolding queue_renewal_task
  queue_all [] = pure tt
  queue_all (cert ∷ certs) = queue_renewal_task cert >> queue_all certs

  unfoldable pub delete_all : List Certificate → Action (Instance S) (Unit {0})
  delete_all [] = pure tt
  delete_all (cert ∷ certs) =
      (λ i. removed_from i (remove_certificate i.cert_cache cert)) >> delete_all certs

  -- RenewManagedCertificates; `visited` are the certificates in the order in which the map is walked.
  unfoldable pub renew_managed_certificates : List Certificate → Action (Instance S) (Unit {0})
  unfolding scan reload_all queue_all delete_all
  renew_managed_certificates visited = inside (out (scan visited no_queues)) >>= λ q.
      reload_all q.configs q.reload_queue >> queue_all q.renew_queue >> delete_all q.delete_queue
