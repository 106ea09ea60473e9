-- ===== src/Acme/Production.antt =====
-- Issue of acmemanager.go: which authority a certificate comes from.
use otomatik.Base.{
  by_test, ℕ, zero, suc, ◌≡◌, refl, sym, ap, ◌∙◌, subst, Bool, true, false, not, ◌&&◌, List, arith,
  Option, length,
}
use otomatik.Base.Text.{Text, codes, is_empty, text_eq, text_eq_iff, text_eq_refl, contains_text}
use otomatik.Base.Errors.{Error}
use otomatik.Base.Result.{
  Result, ok, err, stopped, err-ne-ok, stopped-ne-ok, ok-injective, >>=-eq-ok, renamed-eq-ok,
}
use otomatik.Config.{IssuedCertificate}
use otomatik.Crypto.{Csr}
use otomatik.Acme.{
  AcmeManager, Ports, Challenge, Authority, client_url, chosen_ca, with_scheme, using_test_ca,
  initial_challenges, provider_for, is_too_many_requests, is_plain_too_many,
}
use otomatik.Acme.Issue.{
  two_seconds, new_acme_client, attempt_client, new_acme_client_with_retry, next_challenge, or_next,
  try_challenges, try_all_enabled_challenges, do_issue, is_retry, from_production, after_first,
  issue,
}

module _ {S : Type 0} (x : Authority S) (default manager : AcmeManager) (ports : Ports)
    (From : Text → IssuedCertificate → Type 0)
    (obtained : (ca_url : Text) (challenge : Challenge) (csr : Csr) (s t : S)
        (cert : IssuedCertificate)
      → x.obtain_for_csr ca_url (provider_for manager ports challenge) csr s ≡ (ok cert, t)
      → From ca_url cert) where
  or_next-From :
      (ca_url : Text) (rest : Error → S → Result IssuedCertificate × S)
      (r : Result IssuedCertificate × S) (cert : IssuedCertificate) (t : S)
      → ((c : IssuedCertificate) (u : S) → r ≡ (ok c, u) → From ca_url c)
      → ((e : Error) (u : S) → rest e u ≡ (ok cert, t) → From ca_url cert)
      → or_next x default manager ports rest r ≡ (ok cert, t)
      → From ca_url cert
  unfolding or_next
  or_next-From ca_url rest (ok c, s) cert t now later h = now cert t h
  or_next-From ca_url rest (err e, s) cert t now later h = later e (x.sleep two_seconds s) h
  or_next-From ca_url rest (stopped k, s) cert t now later h =
      absurd (stopped-ne-ok (ap (λ r. r.0) h))

  try_challenges-From :
      (rounds : ℕ) (ca_url : Text) (csr : Csr) (challenges : List Challenge) (last : Error)
      (s t : S) (cert : IssuedCertificate)
      → try_challenges x default manager ports rounds ca_url csr challenges last s ≡ (ok cert, t)
      → From ca_url cert
  unfolding try_challenges
  try_challenges-From zero ca_url csr challenges last s t cert h =
      absurd (err-ne-ok (ap (λ r. r.0) h))
  try_challenges-From (suc rounds) ca_url csr challenges last s t cert h =
      let ((chosen, others), s') = next_challenge x default manager ports challenges s in
      or_next-From ca_url _ (x.obtain_for_csr ca_url (provider_for manager ports chosen) csr s')
        cert t (λ c u e. obtained ca_url chosen csr s' u c e)
        (λ e u g. try_challenges-From rounds ca_url csr others e u t cert g) h

  client-url :
      (use_test_ca : Bool) (s t : S) (ca_url : Text)
      → new_acme_client x default manager ports use_test_ca s ≡ (ok ca_url, t)
      → ca_url ≡ client_url default manager use_test_ca
  unfolding new_acme_client
  client-url use_test_ca s t ca_url h =
      let (u, s', e, g) = >>=-eq-ok _ _ s h in sym (ok-injective (ap (λ r. r.0) g))

  attempt-url :
      (again : Error → S → Result Text × S) (r : Result Text × S) (ca_url url : Text) (t : S)
      → ((u : S) → r ≡ (ok ca_url, u) → ca_url ≡ url)
      → ((e : Error) (u : S) → again e u ≡ (ok ca_url, t) → ca_url ≡ url)
      → attempt_client x default manager ports again r ≡ (ok ca_url, t)
      → ca_url ≡ url
  unfolding attempt_client
  attempt-url again (ok c, s) ca_url url t now later h = now t h
  attempt-url again (err e, s) ca_url url t now later h =
      by_test (is_plain_too_many e) h (λ _ g. absurd (err-ne-ok (ap (λ r. r.0) g)))
        (λ _ g. later e s g)
  attempt-url again (stopped k, s) ca_url url t now later h =
      absurd (stopped-ne-ok (ap (λ r. r.0) h))

  retried-url :
      (use_test_ca : Bool) (s t : S) (ca_url : Text)
      → new_acme_client_with_retry x default manager ports use_test_ca s ≡ (ok ca_url, t)
      → ca_url ≡ client_url default manager use_test_ca
  unfolding new_acme_client_with_retry
  retried-url use_test_ca s t ca_url h =
      attempt-url _ _ ca_url (client_url default manager use_test_ca) t
        (λ u e. client-url use_test_ca s u ca_url e)
        (λ _ u g.
          attempt-url _ _ ca_url (client_url default manager use_test_ca) t
            (λ v e. client-url use_test_ca (x.sleep two_seconds u) v ca_url e)
            (λ e v i. absurd (err-ne-ok (ap (λ r. r.0) i))) g)
        h

  abbrev IssuedAt : IssuedCertificate × Bool → Text → Type 0
  IssuedAt r ca_url = From ca_url r.0 × (r.1 ≡ using_test_ca manager ca_url)

  IsIssued : Bool → IssuedCertificate × Bool → Type 0
  IsIssued use_test_ca r = IssuedAt r (client_url default manager use_test_ca)

  do_issue-IsIssued :
      (csr : Csr) (use_test_ca : Bool) (s t : S) (r : IssuedCertificate × Bool)
      → do_issue x default manager ports csr use_test_ca s ≡ (ok r, t)
      → IsIssued use_test_ca r
  unfolding do_issue IsIssued try_all_enabled_challenges
  do_issue-IsIssued csr use_test_ca s t r h =
      let (ca_url, s₁, e₁, h₁) =
        >>=-eq-ok (new_acme_client_with_retry x default manager ports use_test_ca) _ s h in
      let (cert, s₃, e₃, h₃) = >>=-eq-ok _ _ s₁ h₁ in
      let (_, s₂, e₂, h₂) = >>=-eq-ok _ _ s₁ e₃ in
      let url = retried-url use_test_ca s s₁ ca_url e₁ in
      let from : From ca_url cert =
        try_challenges-From (length (initial_challenges manager)) ca_url csr
          (initial_challenges manager) _ s₂ s₃ cert (renamed-eq-ok _ _ h₂) in
      subst (IssuedAt r) url
        (subst (λ p. IssuedAt p ca_url) (ok-injective (ap (λ u. u.0) h₃)) (from, refl))

  by_second :
      (r : Result (IssuedCertificate × Bool) × S) (cert : IssuedCertificate) (t : S)
      → ((p : IssuedCertificate × Bool) (u : S) → r ≡ (ok p, u) → IsIssued false p)
      → from_production x default manager ports r ≡ (ok cert, t)
      → From (client_url default manager false) cert
  unfolding from_production IsIssued
  by_second (ok p, s) cert t now h =
      subst (From (client_url default manager false)) (ok-injective (ap (λ u. u.0) h))
        (now p s refl).0
  by_second (err e, s) cert t now h =
      by_test (is_too_many_requests e) h (λ _ g. absurd (err-ne-ok (ap (λ r. r.0) g)))
        (λ _ g. absurd (err-ne-ok (ap (λ r. r.0) g)))
  by_second (stopped k, s) cert t now h = absurd (stopped-ne-ok (ap (λ r. r.0) h))

  module _ (has_test : is_empty manager.test_ca ≡ false) (has_ca : is_empty manager.ca ≡ false)
      (full_test : contains_text manager.test_ca (codes "://") ≡ true) where
    test-url : client_url default manager true ≡ manager.test_ca
    unfolding client_url chosen_ca
    test-url = rw (has_test, has_test, has_test, full_test) refl

    production-url : client_url default manager false ≡ with_scheme manager.ca
    unfolding client_url chosen_ca
    production-url = rw has_ca refl

    test-used : using_test_ca manager (client_url default manager true) ≡ true
    unfolding using_test_ca
    test-used = rw (test-url, has_test, text_eq_refl manager.test_ca) refl

    full_same : with_scheme manager.test_ca ≡ manager.test_ca
    full_same = rw full_test refl

    same-url :
        text_eq manager.ca manager.test_ca ≡ true
        → client_url default manager true ≡ client_url default manager false
    same-url h =
        let same = (text_eq_iff manager.ca manager.test_ca).0 h in
        test-url ∙ sym (ap with_scheme same ∙ full_same) ∙ sym production-url

    kept :
        (retry : Bool) (p : IssuedCertificate × Bool)
        → IsIssued retry p
        → retry && p.1 && not (text_eq manager.ca manager.test_ca) ≡ false
        → From (client_url default manager false) p.0
    unfolding IsIssued
    kept false p i stay = i.0
    kept true p i stay =
        let used : p.1 ≡ true = i.1 ∙ test-used in
        subst (λ u. From u p.0) (same-url (ground (arith, used, stay))) i.0

    by_first :
        (csr : Csr) (retry : Bool) (r : Result (IssuedCertificate × Bool) × S)
        (cert : IssuedCertificate) (t : S)
        → ((p : IssuedCertificate × Bool) (u : S) → r ≡ (ok p, u) → IsIssued retry p)
        → after_first x default manager ports csr retry r ≡ (ok cert, t)
        → From (client_url default manager false) cert
    unfolding after_first
    by_first csr retry (ok p, s) cert t now h =
        by_test (retry && p.1 && not (text_eq manager.ca manager.test_ca)) h
          (λ _ g.
            by_second (do_issue x default manager ports csr false s) cert t
              (λ q u e. do_issue-IsIssued csr false s u q e) g)
          (λ stay g.
            subst (From (client_url default manager false)) (ok-injective (ap (λ u. u.0) g))
              (kept retry p (now p s refl) stay))
    by_first csr retry (err e, s) cert t now h = absurd (err-ne-ok (ap (λ r. r.0) h))
    by_first csr retry (stopped k, s) cert t now h = absurd (stopped-ne-ok (ap (λ r. r.0) h))

    -- For a manager with an authority and a testing endpoint, the address of which has its scheme, and
    -- for any relation between an address and the certificates that ObtainForCSR returns from there:
    -- a certificate that Issue returns without an error, on the first attempt or on a retry, comes
    -- from the address CA of the manager, which `https://` is put before if it has no scheme.
    pub issue-From :
        (attempts : Option ℕ) (csr : Csr) (s t : S) (cert : IssuedCertificate)
        → issue x default manager ports attempts csr s ≡ (ok cert, t)
        → From (with_scheme manager.ca) cert
    unfolding issue
    issue-From attempts csr s t cert h =
        subst (λ u. From u cert) production-url
          (by_first csr (is_retry x default manager ports attempts)
            (do_issue x default manager ports csr (is_retry x default manager ports attempts) s)
            cert t
            (λ p u e. do_issue-IsIssued csr (is_retry x default manager ports attempts) s u p e) h)
