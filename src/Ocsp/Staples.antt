-- ===== src/Ocsp/Staples.antt =====
-- ocsp.go: which staples a certificate may get.
use otomatik.Base.{
  ℕ, ◌≡◌, ◌≤◌, ◌<◌, refl, sym, ap, ◌∙◌, subst, by_test, not, ◌&&◌, List, [], ◌∷◌, some-injective,
  none-ne-some, Bool, true, false, Option, none, some, ltb, if◌then◌else◌, ◌==◌, ◌⊎◌, inl, inr,
  arith,
}
use otomatik.Base.Text.{Text, is_empty}
use otomatik.Base.Result.{
  Result, ok, err, stopped, ok-injective, err-ne-ok, stopped-ne-ok, >>=-eq-ok, renamed-eq-ok,
}
use otomatik.Certificate.{Certificate, Leaf, OcspResponse}
use otomatik.Keys.{ocsp_staple_key}
use otomatik.Ocsp.{
  Ocsp, Staple, middle, valid_until, fresh_ocsp, with_staple, Stapled, stapled, saved_staple,
  apply_good, apply_staple, apply_fetched, apply_loaded, stored_staple, load_staple, ask_responder,
  ask_for, servers_of, bundle_or, staple_ocsp, get_ocsp_for_cert,
}

-- A staple whose response ParseResponse reads from its bytes, with the certificate of an issuer or not.
abbrev pub IsParsed : {X S : Type 0} → Ocsp X S → Staple → Type 0
IsParsed {X} x staple =
    (issuer : Option X) × (x.parse_response staple.raw issuer ≡ ok staple.response)

-- A staple that says Good in the bytes of it and does not outlive the leaf of the certificate.
abbrev pub IsGood : {X S : Type 0} → Ocsp X S → Certificate → Staple → Type 0
IsGood x cert staple =
    IsParsed x staple
    × (staple.response.status ≡ 0)
    × (leaf : Leaf) × (cert.leaf ≡ some leaf)
    × (staple.response.next_update ≤ leaf.not_after)

-- The certificate as before, or with a good staple in place of its own.
abbrev pub IsStapled : {X S : Type 0} → Ocsp X S → Certificate → Certificate → Type 0
IsStapled x cert cert' =
    (cert' ≡ cert)
    ⊎ ((staple : Staple) × (cert'
          ≡ record cert { ocsp_staple = staple.raw; ocsp = some staple.response })
        × IsGood x cert staple)

by_flag :
    {A : Type 0} (P : A → Type 0) (b : Bool) (x y : A)
    → (b ≡ true → P x)
    → (b ≡ false → P y)
    → P (if b then x else y)
by_flag P true x y p q = p refl
by_flag P false x y p q = q refl

module _ {X S : Type 0} (x : Ocsp X S) where
  stapled-cert :
      (cert : Certificate) (r : OcspResponse) (w : Result (Unit {0}) × S)
      → (stapled x cert r w).0 ≡ cert
  stapled-cert cert r (ok u, s) = refl
  stapled-cert cert r (err e, s) = refl
  stapled-cert cert r (stopped h, s) = refl

  apply_good-IsStapled :
      (got_new : Bool) (key : Text) (cert : Certificate) (staple : Staple) (o : Option Leaf) (s : S)
      → cert.leaf ≡ o
      → IsParsed x staple
      → staple.response.status ≡ 0
      → IsStapled x cert (apply_good x got_new key cert staple o s).0
  unfolding apply_good
  apply_good-IsStapled got_new key cert staple none s e parsed good = inl refl
  apply_good-IsStapled got_new key cert staple (some leaf) s e parsed good =
      by_flag (λ (r : Stapled x). IsStapled x cert r.0)
        (ltb leaf.not_after staple.response.next_update) _ _ (λ late. inl refl)
        (λ in_time. inr (
          staple,
          stapled-cert (with_staple x cert staple) staple.response
              (saved_staple x got_new key staple s),
          (parsed, good, leaf, e, ground (arith, in_time)),
        ))

  apply_staple-IsStapled :
      (got_new : Bool) (key : Text) (cert : Certificate) (staple : Staple) (s : S)
      → IsParsed x staple
      → IsStapled x cert (apply_staple x got_new key cert staple s).0
  unfolding apply_staple
  apply_staple-IsStapled got_new key cert staple s parsed =
      by_flag (λ (r : Stapled x). IsStapled x cert r.0) (staple.response.status == 0) _ _
        (λ good.
          apply_good-IsStapled got_new key cert staple cert.leaf s refl parsed
            (ground (arith, good)))
        (λ other. inl refl)

  stored_staple-IsParsed :
      (key cached : Text) (r : Result OcspResponse) (s : S) (staple : Staple)
      → x.parse_response cached none ≡ r
      → (stored_staple x key cached r s).0 ≡ some staple
      → IsParsed x staple
  unfolding stored_staple
  stored_staple-IsParsed key cached (ok resp) s staple e h =
      by_test (fresh_ocsp resp (x.now s).0 && not (is_empty cached)) h
        (λ _ g. subst (IsParsed x) (some-injective g) (none, e)) (λ _ g. absurd (none-ne-some g))
  stored_staple-IsParsed key cached (err y) s staple e h = absurd (none-ne-some h)
  stored_staple-IsParsed key cached (stopped y) s staple e h = absurd (none-ne-some h)

  load_staple-IsParsed :
      (key : Text) (r : Result Text × S) (staple : Staple)
      → (load_staple x key r).0 ≡ some staple
      → IsParsed x staple
  unfolding load_staple
  load_staple-IsParsed key (ok cached, s) staple h =
      stored_staple-IsParsed key cached (x.parse_response cached none) s staple refl h
  load_staple-IsParsed key (err e, s) staple h = absurd (none-ne-some h)
  load_staple-IsParsed key (stopped y, s) staple h = absurd (none-ne-some h)

  ask_responder-IsParsed :
      (issued_cert issuer_cert : X) (server : Text) (s t : S) (staple : Staple)
      → ask_responder x issued_cert issuer_cert server s ≡ (ok staple, t)
      → IsParsed x staple
  unfolding ask_responder
  ask_responder-IsParsed issued_cert issuer_cert server s t staple h =
      let (_, s₁, _, h₁) = >>=-eq-ok _ _ s h in
      let (_, s₂, _, h₂) = >>=-eq-ok _ _ s₁ h₁ in
      let (bytes, s₃, _, h₃) = >>=-eq-ok _ _ s₂ h₂ in
      let (response, s₄, e₄, h₄) = >>=-eq-ok _ _ s₃ h₃ in
      subst (IsParsed x) (ok-injective (ap (λ r. r.0) h₄))
        (some issuer_cert, ap (λ r. r.0) (renamed-eq-ok _ _ e₄))

  ask_for-IsParsed :
      (certs : List X) (servers : List Text) (s t : S) (staple : Staple)
      → ask_for x certs servers s ≡ (ok staple, t)
      → IsParsed x staple
  unfolding ask_for
  ask_for-IsParsed [] servers s t staple h = absurd (stopped-ne-ok (ap (λ r. r.0) h))
  ask_for-IsParsed (issued_cert ∷ certs) [] s t staple h = absurd (err-ne-ok (ap (λ r. r.0) h))
  ask_for-IsParsed (issued_cert ∷ []) (server ∷ servers) s t staple h =
      let (issuer_cert, s₁, _, h₁) = >>=-eq-ok _ _ s h in
      ask_responder-IsParsed issued_cert issuer_cert server s₁ t staple h₁
  ask_for-IsParsed (issued_cert ∷ issuer_cert ∷ certs) (server ∷ servers) s t staple h =
      ask_responder-IsParsed issued_cert issuer_cert server s t staple h

  get_ocsp_for_cert-IsParsed :
      (bundle : Text) (s t : S) (staple : Staple)
      → get_ocsp_for_cert x bundle s ≡ (ok staple, t)
      → IsParsed x staple
  unfolding get_ocsp_for_cert
  get_ocsp_for_cert-IsParsed bundle s t staple h =
      let (certs, s₁, _, h₁) = >>=-eq-ok _ _ s h in
      ask_for-IsParsed certs (servers_of x certs) s₁ t staple h₁

  apply_fetched-IsStapled :
      (key : Text) (cert : Certificate) (r : Result Staple × S)
      → ((staple : Staple) (t : S) → r ≡ (ok staple, t) → IsParsed x staple)
      → IsStapled x cert (apply_fetched x key cert r).0
  unfolding apply_fetched
  apply_fetched-IsStapled key cert (ok staple, s) parsed =
      apply_staple-IsStapled true key cert staple s (parsed staple s refl)
  apply_fetched-IsStapled key cert (err e, s) parsed = inl refl
  apply_fetched-IsStapled key cert (stopped h, s) parsed = inl refl

  apply_loaded-IsStapled :
      (key bundle : Text) (cert : Certificate) (r : Option Staple × S)
      → ((staple : Staple) → r.0 ≡ some staple → IsParsed x staple)
      → IsStapled x cert (apply_loaded x key bundle cert r).0
  unfolding apply_loaded
  apply_loaded-IsStapled key bundle cert (some staple, s) parsed =
      apply_staple-IsStapled false key cert staple s (parsed staple refl)
  apply_loaded-IsStapled key bundle cert (none, s) parsed =
      apply_fetched-IsStapled key cert (get_ocsp_for_cert x bundle s)
        (λ staple t e. get_ocsp_for_cert-IsParsed bundle s t staple e)

  -- Whatever the storage and the responder answer, and whether stapleOCSP returns an error or not: the
  -- certificate is as before, or it differs only by a staple, the bytes of which ParseResponse reads as
  -- the response beside them, which has the status Good and is not valid beyond the end of the leaf.
  pub staple_ocsp-IsStapled :
      (bundle : Option Text) (cert : Certificate) (s : S)
      → IsStapled x cert (staple_ocsp x bundle cert s).0
  unfolding staple_ocsp
  staple_ocsp-IsStapled bundle cert s =
      let pem_bundle = bundle_or x bundle cert in
      let key = ocsp_staple_key cert.names (x.fast_hash pem_bundle) in
      apply_loaded-IsStapled key pem_bundle cert (load_staple x key (x.storage.load key s))
        (λ staple e. load_staple-IsParsed key (x.storage.load key s) staple e)

-- freshOCSP at a time says that the response is fresh only before its end and that of the responder's
-- certificate, if it has one, in case the response begins before both.
pub fresh_ocsp-valid :
    (resp : OcspResponse) (now : ℕ)
    → resp.this_update ≤ resp.next_update
    → ((end : ℕ) → resp.responder_not_after ≡ some end → resp.this_update ≤ end)
    → fresh_ocsp resp now ≡ true
    → (now < resp.next_update) × ((end : ℕ) → resp.responder_not_after ≡ some end → now < end)
unfolding fresh_ocsp middle valid_until
fresh_ocsp-valid resp now begins responder fresh = by_responder resp.responder_not_after refl fresh
  where
    by_responder :
        (o : Option ℕ)
        → resp.responder_not_after ≡ o
        → ltb now (middle resp.this_update (valid_until o resp.next_update)) ≡ true
        → (now < resp.next_update) × ((end : ℕ) → resp.responder_not_after ≡ some end → now < end)
    by_responder none e f = (ground (arith, begins, f), λ end h. absurd (cc))
    by_responder (some n) e f =
        let begins' : resp.this_update ≤ n = responder n e in
        let both : (now < resp.next_update) × (now < n) =
          (ground (arith, begins, begins', f), ground (arith, begins, begins', f)) in
        (both.0, λ end h. subst (λ m. now < m) (some-injective (sym e ∙ h)) both.1)
