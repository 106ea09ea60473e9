-- ===== src/Config/Revoked.antt =====
-- config.go: what RevokeCert and checkStorage do to the storage.
use otomatik.Base.{
  ◌≡◌, refl, sym, ap, ◌∙◌, subst, [], ◌∷◌, Option, none, some, Bool-cases, inl, inr,
}
use otomatik.Base.Text.{Text, codes, text_eq, text_eq_iff}
use otomatik.Base.Errors.{Error, message}
use otomatik.Base.Result.{
  Result, ok, err, stopped, Action, next, ◌>>◌, as_result, call, with_error, err-ne-ok, >>=-eq-ok,
  renamed-eq-ok,
}
use otomatik.Keys.{site_cert, site_private_key, site_meta}
use otomatik.Resources.{load_cert_resource}
use otomatik.Storage.{Storage}
use otomatik.Storage.Transaction.{MapLike}
use otomatik.Config.{Config, World, out, back, check_storage, check_loaded}
use otomatik.Config.Locks.{events_after, emit-events}
use otomatik.Config.Issuance.{delete_resources, require_key, emitted, revoke_cert}

-- The storage has nothing under the key.
abbrev pub Gone : {S : Type 0} {x : Storage S} → MapLike x → S → Text → Type 0
Gone law s k = law.view s k ≡ none

as_result-state :
    {S : Type 0} (r : Option Error × S) (t : S)
    → as_result r ≡ (ok tt, t)
    → (r.0 ≡ none) × (r.1 ≡ t)
as_result-state (none, s) t h = (refl, ap (λ r. r.1) h)
as_result-state (some e, s) t h = absurd (err-ne-ok (ap (λ r. r.0) h))

out-eq-ok :
    {S A : Type 0} (m : Action S A) (w w' : World S) {a : A}
    → out m w ≡ (ok a, w')
    → (m w.outside ≡ (ok a, w'.outside)) × (w'.events ≡ w.events)
out-eq-ok m w w' {a} h = (of_back (m w.outside) h, sym (kept (m w.outside) h))
  where
    of_back : (r : Result _ × _) → back w r ≡ (ok a, w') → r ≡ (ok a, w'.outside)
    of_back (r, s) e = ap (λ x. (x.0, x.1.outside)) e

    kept : (r : Result _ × _) → back w r ≡ (ok a, w') → w.events ≡ w'.events
    kept (r, s) e = ap (λ x. x.1.events) e

emitted-events :
    {S : Type 0} (cfg : Config S) (event_name domain : Text) (w w' : World S) {u : Unit {0}}
    → emitted cfg event_name domain w ≡ (ok u, w')
    → w'.events ≡ events_after cfg event_name domain (ok tt) w.events
emitted-events cfg event_name domain w w' h =
    sym (ap (λ x. x.1.events) h) ∙ emit-events cfg event_name (domain ∷ []) w

module _ {S : Type 0} (cfg : Config S) (law : MapLike cfg.storage) where
  delete-Gone :
      (k j : Text) (f : Error → Error) (s t : S)
      → with_error f (call (cfg.storage.delete k)) s ≡ (ok tt, t)
      → (Gone law t k) × (Gone law s j → Gone law t j)
  delete-Gone k j f s t h =
      let (no_error, went) =
        as_result-state (cfg.storage.delete k s) t
          (renamed-eq-ok f (as_result (cfg.storage.delete k s)) h) in
      (
        subst (λ u. Gone law u k) went (law.deleted k s no_error),
        λ g.
            subst (λ u. Gone law u j) went
              (elim (Bool-cases (text_eq k j)) [
                | inl e ↦
                    subst (Gone law (cfg.storage.delete k s).1) ((text_eq_iff k j).0 e)
                      (law.deleted k s no_error)
                | inr e ↦ law.delete_others k s j e ∙ g
              ]),
      )

  deleted-Gone :
      (domain : Text) (s t : S)
      → delete_resources cfg domain s ≡ (ok tt, t)
      → Gone law t (site_cert cfg.issuer_key domain)
        × Gone law t (site_private_key cfg.issuer_key domain)
        × Gone law t (site_meta cfg.issuer_key domain)
  unfolding delete_resources
  deleted-Gone domain s t h =
      let c = site_cert cfg.issuer_key domain in
      let k = site_private_key cfg.issuer_key domain in
      let m = site_meta cfg.issuer_key domain in
      let (_, s₂, e₂, e₃) =
        >>=-eq-ok
          (with_error (λ e. message "certificate revoked, but unable to delete certificate file")
              (call (cfg.storage.delete c))
            >> with_error (λ e. message "certificate revoked, but unable to delete private key")
                (call (cfg.storage.delete k)))
          _ s h in
      let (_, s₁, e₁, e₂') =
        >>=-eq-ok
          (with_error (λ e. message "certificate revoked, but unable to delete certificate file")
            (call (cfg.storage.delete c)))
          _ s e₂ in
      let gone = delete-Gone c c _ s s₁ e₁ in
      let gone' = delete-Gone k c _ s₁ s₂ e₂' in
      let gone'' = delete-Gone m c _ s₂ t e₃ in
      (gone''.1 (gone'.1 gone.0), (delete-Gone m k _ s₂ t e₃).1 gone'.0, gone''.0)

  -- Over a storage that is a map: when RevokeCert returns no error, the storage has neither the
  -- certificate nor the private key nor the metadata of the name, and OnEvent, if it is set, was
  -- called once, with `cert_revoked` and the name.
  pub revoke_cert-Gone :
      (domain : Text) (w w' : World S)
      → revoke_cert cfg domain w ≡ (ok tt, w')
      → (Gone law w'.outside (site_cert cfg.issuer_key domain)
          × Gone law w'.outside (site_private_key cfg.issuer_key domain)
          × Gone law w'.outside (site_meta cfg.issuer_key domain))
        × (w'.events ≡ events_after cfg (codes "cert_revoked") domain (ok tt) w.events)
  unfolding revoke_cert
  revoke_cert-Gone domain w w' h =
      let (cert_res, w₁, e₁, h₁) =
        >>=-eq-ok (out (load_cert_resource cfg.storage cfg.json cfg.issuer_key domain)) _ w h in
      let (_, w₄, e₄, h₄) =
        >>=-eq-ok
          (out (require_key cfg domain)
            >> out (call (cfg.revoke cert_res))
            >> emitted cfg (codes "cert_revoked") domain)
          _ w₁ h₁ in
      let (_, w₃, e₃, h₃) =
        >>=-eq-ok (out (require_key cfg domain) >> out (call (cfg.revoke cert_res))) _ w₁ e₄ in
      let (_, w₂, e₂, h₂) = >>=-eq-ok (out (require_key cfg domain)) _ w₁ e₃ in
      (
        deleted-Gone domain w₄.outside w'.outside
            (out-eq-ok (delete_resources cfg domain) w₄ w' h₄).0,
        (out-eq-ok (delete_resources cfg domain) w₄ w' h₄).1
            ∙ emitted-events cfg (codes "cert_revoked") domain w₃ w₄ h₃
            ∙ ap (events_after cfg (codes "cert_revoked") domain (ok tt)) (
                (out-eq-ok (call (cfg.revoke cert_res)) w₂ w₃ h₂).1
                ∙ (out-eq-ok (require_key cfg domain) w₁ w₂ e₂).1
                ∙ (out-eq-ok (load_cert_resource cfg.storage cfg.json cfg.issuer_key domain) w w₁
                    e₁).1),
      )

-- The configuration with another Delete of its storage.
abbrev pub deleting_by : {S : Type 0} → Config S → (Text → S → Option Error × S) → Config S
deleting_by cfg delete = record cfg { storage = record cfg.storage { delete = delete } }

next-result :
    {S A B : Type 0} (f g : A → Action S B) (r : Result A × S)
    → ((a : A) (s : S) → (f a s).0 ≡ (g a s).0)
    → (next f r).0 ≡ (next g r).0
unfolding next
next-result f g (ok a, s) same = same a s
next-result f g (err e, s) same = refl
next-result f g (stopped h, s) same = refl

-- For every storage, Delete and state: checkStorage returns the same with another Delete, so that it
-- returns no error of Delete.
pub check_storage_ignores_delete :
    {S : Type 0} (cfg : Config S) (delete : Text → S → Option Error × S) (s : S)
    → (check_storage (deleting_by cfg delete) s).0 ≡ (check_storage cfg s).0
unfolding check_storage check_loaded next
check_storage_ignores_delete cfg delete s =
    let (key, s') = cfg.test_key s in
    next-result _ _ (cfg.test_contents s')
      (λ contents t. next-result _ _ (call (cfg.storage.store key contents) t) (λ _ u. refl))
