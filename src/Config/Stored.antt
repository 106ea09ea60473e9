-- ===== src/Config/Stored.antt =====
-- config.go: what an obtained certificate leaves in the storage.
use otomatik.Base.{
  by_test, ℕ, ◌≡◌, ◌≤◌, refl, sym, ap, ◌∙◌, subst, true, List, [], ◌∷◌, Option, none, some, arith,
  length, Bool-cases, inl, inr,
}
use otomatik.Base.Text.{Text, codes}
use otomatik.Base.Errors.{Error}
use otomatik.Base.Occurs.{without}
use otomatik.Base.Result.{
  Result, ok, err, stopped, Action, err-ne-ok, stopped-ne-ok, >>=-eq-ok, renamed-eq-ok,
}
use otomatik.Crypto.{PrivateKey, Csr, names_from_csr, encode_private_key}
use otomatik.Keys.{site_cert, site_private_key, site_meta, names_key}
use otomatik.Resources.RoundTrip.{saved}
use otomatik.Storage.Transaction.{MapLike, IsReadable}
use otomatik.Config.{
  Config, World, out, back, locked, unlocked, obtain_lock, release_lock, emit, lock_key,
  storage_has_cert_resources, generate_csr, add_subject, add_subjects, empty_template,
  get_prechecked_issuer,
}
use otomatik.Config.Issuance.{
  issue_new, obtain_attempt, run, announced, released, when_locked, with_issuer, obtain_with_issuer,
  obtain_cert,
}
use otomatik.Config.Present.{HasAll, Present-keeps, still_there, placed_names}

module _ {S : Type 0} (cfg : Config S) (law : MapLike cfg.storage)
    (reads : IsReadable cfg.storage law) where
  -- What holds of the name: it is short enough for its key, and crypto/x509 keeps the names of a
  -- template, which are the name itself.
  pub record IsNamed (name : Text) : Type 0 where
    pub short : length name ≤ 1024
    pub same_ip : (ip : Text) → cfg.parse_ip name ≡ some ip → ip ≡ name
    pub same_url : (u : Text) → cfg.parse_url name ≡ some u → u ≡ name
    pub names_kept :
        (template csr : Csr) (key : PrivateKey) (s t : S)
        → cfg.create_request template key s ≡ (ok csr, t)
        → names_from_csr csr ≡ names_from_csr template

  template_names :
      (name : Text)
      → IsNamed name
      → names_from_csr
          (add_subjects cfg.parse_ip cfg.parse_url (name ∷ []) (empty_template cfg.must_staple))
        ≡ name ∷ []
  unfolding add_subjects add_subject
  template_names name n =
      placed_names (cfg.parse_ip name) (cfg.parse_url name) name cfg.must_staple n.same_ip
        n.same_url

  key_of_name : (name : Text) → length name ≤ 1024 → names_key (name ∷ []) ≡ name
  unfolding names_key
  key_of_name name h = ground (arith, h)

  issue_new-HasAll :
      (name : Text) (attempts : Option ℕ) (s t : S)
      → IsNamed name
      → issue_new cfg name attempts s ≡ (ok tt, t)
      → HasAll cfg law reads name t
  unfolding issue_new generate_csr
  issue_new-HasAll name attempts s t n h =
      let (key, s₁, e₁, h₁) = >>=-eq-ok cfg.generate_key _ s h in
      let (pem, s₂, e₂, h₂) = >>=-eq-ok (λ s. (encode_private_key cfg.codec key, s)) _ s₁ h₁ in
      let (csr, s₃, e₃, h₃) = >>=-eq-ok (generate_csr cfg key (name ∷ [])) _ s₂ h₂ in
      let (issued, s₄, e₄, h₄) = >>=-eq-ok _ _ s₃ h₃ in
      let (meta, m, cert, private, metadata) =
        saved cfg.storage law cfg.json cfg.issuer_key _ s₄ t (renamed-eq-ok _ _ h₄) in
      let keyed : names_key (names_from_csr csr) ≡ name =
        ap names_key (n.names_kept _ csr key s₂ s₃ e₃ ∙ template_names name n)
        ∙ key_of_name name n.short in
      subst (λ k. HasAll cfg law reads k t) keyed ((_, cert), ((_, private), ((_, metadata), tt)))

  obtain_attempt-HasAll :
      (name : Text) (attempts : Option ℕ) (s t : S)
      → IsNamed name
      → obtain_attempt cfg name attempts s ≡ (ok tt, t)
      → HasAll cfg law reads name t
  unfolding obtain_attempt
  obtain_attempt-HasAll name attempts s t n h =
      let r = storage_has_cert_resources cfg name s in
      by_test r.0 h
        (λ there e.
          subst (HasAll cfg law reads name) (ap (λ x. x.1) e)
            (still_there cfg law reads name s there))
        (λ _ e. issue_new-HasAll name attempts r.1 t n e)

  -- Obtaining keeps the resources over what comes after it.
  module _
      (unlock_keeps : (k : Text) (s : S) (j : Text)
        → law.view (cfg.storage.unlock k s).1 j ≡ law.view s j) where
    released-outside :
        (key : Text) (r : Result (Unit {0}) × World S) (name : Text)
        → HasAll cfg law reads name r.1.outside
        → HasAll cfg law reads name (released cfg key r).1.outside
    unfolding release_lock
    released-outside key (r, w) name a = by_unlock (cfg.storage.unlock key w.outside) refl
      where
        kept : (s : S) → (cfg.storage.unlock key w.outside).1 ≡ s → HasAll cfg law reads name s
        kept s e =
            Present-keeps cfg law reads w.outside s
              (λ j.
                subst (λ x. law.view x j ≡ law.view w.outside j) e (unlock_keeps key w.outside j))
              (site_cert cfg.issuer_key name
                ∷ site_private_key cfg.issuer_key name
                ∷ site_meta cfg.issuer_key name
                ∷ [])
              a

        by_unlock :
            (u : Option Error × S)
            → cfg.storage.unlock key w.outside ≡ u
            → HasAll cfg law reads name (unlocked key u w).1.outside
        by_unlock (none, s) e = kept s (ap (λ x. x.1) e)
        by_unlock (some x, s) e = kept s (ap (λ x. x.1) e)

    emit-outside :
        (event_name : Text) (subjects : List Text) (w : World S)
        → (emit cfg event_name subjects w).outside ≡ w.outside
    unfolding emit
    emit-outside event_name subjects w = elim (Bool-cases cfg.listens) [
      | inl e ↦ rw e refl
      | inr e ↦ rw e refl
    ]

    announced-HasAll :
        (event_name name : Text) (r : Result (Unit {0}) × S) (w : World S)
        → ((t : S) → r ≡ (ok tt, t) → HasAll cfg law reads name t)
        → (announced cfg event_name name (back w r)).0 ≡ ok tt
        → HasAll cfg law reads name (announced cfg event_name name (back w r)).1.outside
    announced-HasAll event_name name (ok u, s) w has h =
        subst (HasAll cfg law reads name)
          (sym (emit-outside event_name (name ∷ []) (record w { outside = s }))) (has s refl)
    announced-HasAll event_name name (err e, s) w has h = absurd (err-ne-ok h)
    announced-HasAll event_name name (stopped k, s) w has h = absurd (stopped-ne-ok h)

    locked-HasAll :
        (event_name name key : Text) (f : Action S (Unit {0})) (w : World S) (r : Option Error × S)
        → ((s t : S) → f s ≡ (ok tt, t) → HasAll cfg law reads name t)
        → (when_locked cfg key (λ w'. announced cfg event_name name (out f w')) (locked key r w)).0
          ≡ ok tt
        → HasAll cfg law reads name
            (when_locked cfg key
              (λ w'. announced cfg event_name name (out f w'))
              (locked key r w)).1.outside
    unfolding when_locked
    locked-HasAll event_name name key f w (none, s) has h =
        let w' : World S = record w { outside = s; own_locks = key ∷ without key w.own_locks } in
        released-outside key (announced cfg event_name name (back w' (f s))) name
          (announced-HasAll event_name name (f s) w' (has s) h)
    locked-HasAll event_name name key f w (some e, s) has h = absurd (err-ne-ok h)

    obtain_with_issuer-HasAll :
        (fuel : ℕ) (name : Text) (w w' : World S)
        → IsNamed name
        → obtain_with_issuer cfg fuel name true w ≡ (ok tt, w')
        → HasAll cfg law reads name w'.outside
    unfolding obtain_with_issuer with_issuer obtain_lock run
    obtain_with_issuer-HasAll fuel name w w' n h =
        let key = lock_key cfg (codes "cert_acme") name in
        subst (λ x. HasAll cfg law reads name x.1.outside) h
          (locked-HasAll (codes "cert_obtained") name key
            (run cfg fuel true (obtain_attempt cfg name)) w (cfg.storage.lock key w.outside)
            (λ s t e. obtain_attempt-HasAll name none s t n e) (ap (λ x. x.0) h))

    -- Over a storage that is a map, whose reads and Unlock change nothing, for a name of at most 1,024
    -- characters that net.ParseIP and url.Parse, if they accept it, print as it is, and with requests that
    -- have the names of their template: when ObtainCert, interactive, returns no error, the
    -- storage has a value under each of the keys of the certificate, the private key and the metadata.
    pub obtained_is_stored :
        (fuel : ℕ) (name : Text) (w w' : World S)
        → IsNamed name
        → obtain_cert cfg fuel name true w ≡ (ok tt, w')
        → ((v : Text) × (law.view w'.outside (site_cert cfg.issuer_key name) ≡ some v))
          × ((v : Text) × (law.view w'.outside (site_private_key cfg.issuer_key name) ≡ some v))
          × ((v : Text) × (law.view w'.outside (site_meta cfg.issuer_key name) ≡ some v))
    unfolding obtain_cert
    obtained_is_stored fuel name w w' n h =
        let r = storage_has_cert_resources cfg name w.outside in
        let (cert, (key, (meta, _))) : HasAll cfg law reads name w'.outside =
          (by_test r.0 h
            (λ there e.
              subst (HasAll cfg law reads name) (ap (λ x. x.1.outside) e)
                (still_there cfg law reads name w.outside there))
            (λ _ e.
              let (u, v, _, last) =
                >>=-eq-ok (out (get_prechecked_issuer cfg (name ∷ []) true)) _
                  (record w { outside = r.1 }) e in
              obtain_with_issuer-HasAll fuel name v w' n last)) in
        (cert, key, meta)
