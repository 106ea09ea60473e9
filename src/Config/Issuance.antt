-- ===== src/Config/Issuance.antt =====
-- config.go: ObtainCert, RenewCert and RevokeCert.
use otomatik.Base.{ℕ, Bool, true, false, [], ◌∷◌, Option, none, some, if◌then◌else◌}
use otomatik.Base.Text.{Text, codes}
use otomatik.Base.Errors.{Error, message, wrapped}
use otomatik.Base.Result.{
  Result, ok, err, Stop, stopped, out_of_fuel, Action, ◌>>=◌, ◌>>◌, pure, call, with_error,
}
use otomatik.Crypto.{names_from_csr, encode_private_key, decode_private_key}
use otomatik.Keys.{site_cert, site_private_key, site_meta}
use otomatik.Resources.{CertificateResource, save_cert_resource, load_cert_resource}
use otomatik.Retry.{Effects, do_with_retry}
use otomatik.Config.{
  Config, World, out, obtain_lock, release_lock, generate_csr, emit, lock_key,
  storage_has_cert_resources, get_prechecked_issuer, managed_cert_needs_renewal,
}

-- The state of doWithRetry when an attempt did not return; such an attempt ends the loop as one that
-- succeeded does, and `ended` tells them apart.
pub record Attempted (S : Type 0) : Type 0 where
  pub state : S
  pub halted : Option Stop

abbrev pub attempted : {S : Type 0} → Result (Unit {0}) × S → Option Error × Attempted S
attempted (ok u, s) = (none, record { state = s; halted = none })
attempted (err e, s) = (some e, record { state = s; halted = none })
attempted (stopped h, s) = (none, record { state = s; halted = some h })

abbrev pub outcome : Option Stop → Option Error → Result (Unit {0})
outcome none none = ok tt
outcome none (some e) = err e
outcome (some h) e = stopped h

abbrev pub ended : {S : Type 0} → S → Option (Option Error × Attempted S) → Result (Unit {0}) × S
ended s none = (stopped out_of_fuel, s)
ended s (some (e, a)) = (outcome a.halted e, a.state)

abbrev pub keeping : {S A : Type 0} → Attempted S → A × S → A × Attempted S
keeping a (b, s) = (b, record a { state = s })

module _ {S : Type 0} (cfg : Config S) where
  -- The function `f` of obtainWithIssuer once the certificate is known not to be there, with the
  -- number of attempts in the context
  unfoldable pub issue_new : Text → Option ℕ → Action S (Unit {0})
  unfolding generate_csr
  issue_new name attempts = cfg.generate_key >>= λ private_key.
      (λ s. (encode_private_key cfg.codec private_key, s)) >>= λ priv_key_pem.
      generate_csr cfg private_key (name ∷ []) >>= λ csr.
      with_error (wrapped "Obtain") (cfg.issue attempts csr) >>= λ issued_cert.
      with_error (λ e. message "Obtain: saving assets")
        (save_cert_resource cfg.storage cfg.json cfg.issuer_key (record {
          sans = names_from_csr csr;
          certificate_pem = issued_cert.certificate;
          private_key_pem = priv_key_pem;
          issuer_data = issued_cert.metadata;
        }))

  -- `f` of obtainWithIssuer
  unfoldable pub obtain_attempt : Text → Option ℕ → Action S (Unit {0})
  unfolding issue_new storage_has_cert_resources
  obtain_attempt name attempts s =
      let (there, s') = storage_has_cert_resources cfg name s in
      let rest = issue_new name attempts s' in if there then (ok tt, s') else rest

  -- The function `f` of renewWithIssuer once the renewal is known to be needed
  unfoldable pub issue_again : Text → Option ℕ → CertificateResource → Action S (Unit {0})
  unfolding generate_csr
  issue_again name attempts cert_res =
      (λ s. (decode_private_key cfg.codec cert_res.private_key_pem, s)) >>= λ private_key.
      generate_csr cfg private_key (name ∷ []) >>= λ csr.
      with_error (wrapped "Renew") (cfg.issue attempts csr) >>= λ issued_cert.
      with_error (λ e. message "Renew: saving assets")
        (save_cert_resource cfg.storage cfg.json cfg.issuer_key (record {
          sans = names_from_csr csr;
          certificate_pem = issued_cert.certificate;
          private_key_pem = cert_res.private_key_pem;
          issuer_data = issued_cert.metadata;
        }))

  -- `f` of renewWithIssuer
  unfoldable pub renew_attempt : Text → Option ℕ → Action S (Unit {0})
  unfolding issue_again managed_cert_needs_renewal
  renew_attempt name attempts =
      load_cert_resource cfg.storage cfg.json cfg.issuer_key name >>= λ cert_res.
      managed_cert_needs_renewal cfg cert_res >>= λ needs_renew.
      if needs_renew then issue_again name attempts cert_res else pure tt

  -- doWithRetry in an attempt's state
  abbrev pub effects : (Option ℕ → Action S (Unit {0})) → Effects (Attempted S)
  effects f = record {
    attempt = λ n a. attempted (f (some n) a.state);
    wait = λ d a. keeping a (cfg.wait d a.state);
    clock = λ a. keeping a (cfg.now a.state);
  }

  -- One call of `f`, or its calls by doWithRetry with fuel
  unfoldable pub run : ℕ → Bool → (Option ℕ → Action S (Unit {0})) → Action S (Unit {0})
  run fuel true f s = f none s
  run fuel false f s =
      ended s (do_with_retry (effects f) fuel (record { state = s; halted = none }))

  -- The deferred releaseLock
  abbrev pub released : Text → Result (Unit {0}) × World S → Result (Unit {0}) × World S
  released key (r, w) = (r, (release_lock cfg.storage key w).1)

  -- obtainWithIssuer and renewWithIssuer under the lock: `f` and, if it succeeds, the event. A panic
  -- runs the deferred function too.
  abbrev pub announced : Text → Text → Result (Unit {0}) × World S → Result (Unit {0}) × World S
  announced event_name name (ok u, w) = (ok u, emit cfg event_name (name ∷ []) w)
  announced event_name name (err e, w) = (err e, w)
  announced event_name name (stopped h, w) = (stopped h, w)

  unfoldable pub when_locked :
      Text
      → (World S → Result (Unit {0}) × World S)
      → Option Error × World S
      → Result (Unit {0}) × World S
  unfolding release_lock
  when_locked key body (none, w) = released key (body w)
  when_locked key body (some e, w) = (err e, w)

  -- obtainWithIssuer, renewWithIssuer: they differ in `f` and in the event.
  unfoldable pub with_issuer :
      Text → (Option ℕ → Action S (Unit {0})) → ℕ → Bool → Text → Action (World S) (Unit {0})
  unfolding run obtain_lock when_locked
  with_issuer event_name f fuel interactive name w =
      let key = lock_key cfg (codes "cert_acme") name in
      when_locked key (λ w'. announced event_name name (out (run fuel interactive f) w'))
        (obtain_lock cfg.storage key w)

  unfoldable pub obtain_with_issuer : ℕ → Text → Bool → Action (World S) (Unit {0})
  unfolding with_issuer obtain_attempt
  obtain_with_issuer fuel name interactive =
      with_issuer (codes "cert_obtained") (obtain_attempt name) fuel interactive name

  unfoldable pub renew_with_issuer : ℕ → Text → Bool → Action (World S) (Unit {0})
  unfolding with_issuer renew_attempt
  renew_with_issuer fuel name interactive =
      with_issuer (codes "cert_renewed") (renew_attempt name) fuel interactive name

  -- ObtainCert. The issuer of a configuration is never nil.
  unfoldable pub obtain_cert : ℕ → Text → Bool → Action (World S) (Unit {0})
  unfolding obtain_with_issuer get_prechecked_issuer
  obtain_cert fuel name interactive w =
      let (there, s) = storage_has_cert_resources cfg name w.outside in
      let w' = record w { outside = s } in
      let rest =
        (out (get_prechecked_issuer cfg (name ∷ []) interactive)
            >> obtain_with_issuer fuel name interactive)
          w' in
      if there then (ok tt, w') else rest

  -- RenewCert
  unfoldable pub renew_cert : ℕ → Text → Bool → Action (World S) (Unit {0})
  unfolding renew_with_issuer get_prechecked_issuer
  renew_cert fuel name interactive =
      out (get_prechecked_issuer cfg (name ∷ []) interactive)
      >> renew_with_issuer fuel name interactive

  abbrev pub required : Bool × S → Result (Unit {0}) × S
  required (true, s) = (ok tt, s)
  required (false, s) = (err (message "private key not found"), s)

  -- The test of RevokeCert that the private key exists
  unfoldable pub require_key : Text → Action S (Unit {0})
  require_key domain s = required (cfg.storage.exists (site_private_key cfg.issuer_key domain) s)

  -- RevokeCert's deletions
  unfoldable pub delete_resources : Text → Action S (Unit {0})
  delete_resources domain =
      with_error (λ e. message "certificate revoked, but unable to delete certificate file")
        (call (cfg.storage.delete (site_cert cfg.issuer_key domain)))
      >> with_error (λ e. message "certificate revoked, but unable to delete private key")
          (call (cfg.storage.delete (site_private_key cfg.issuer_key domain)))
      >> with_error (λ e. message "certificate revoked, but unable to delete certificate metadata")
          (call (cfg.storage.delete (site_meta cfg.issuer_key domain)))

  abbrev pub emitted : Text → Text → Action (World S) (Unit {0})
  emitted event_name domain w = (ok tt, emit cfg event_name (domain ∷ []) w)

  -- RevokeCert; `revoke` is that of the configuration's Revoker, or else the default's.
  unfoldable pub revoke_cert : Text → Action (World S) (Unit {0})
  unfolding delete_resources require_key
  revoke_cert domain =
      out (load_cert_resource cfg.storage cfg.json cfg.issuer_key domain) >>= λ cert_res.
      out (require_key domain)
      >> out (call (cfg.revoke cert_res))
      >> emitted (codes "cert_revoked") domain
      >> out (delete_resources domain)
