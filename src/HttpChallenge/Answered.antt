-- ===== src/HttpChallenge/Answered.antt =====
-- solvers.go with httphandler.go: a challenge that was presented is answered.
use otomatik.Base.{
  ◌≡◌, refl, ap, ◌∙◌, subst, true, false, not, ◌||◌, Option, none, some, if◌then◌else◌,
}
use otomatik.Base.Text.{Text, codes, text_eq, text_eq_refl, to_lower, has_prefix}
use otomatik.Base.Errors.{Error}
use otomatik.Base.Result.{ok, give, call, as_result, err-ne-ok, >>=-eq-ok, renamed-eq-ok}
use otomatik.Acme.{AcmeManager}
use otomatik.Storage.Transaction.{MapLike, IsReadable}
use otomatik.HttpChallenge.{
  ChallengeInfo, Request, Solver, challenge_base_path, looks_like_http_challenge, host_only,
  challenge_tokens_key, present, answer_http_challenge, answer_loaded,
  distributed_http_challenge_solver, handle_http_challenge,
}

-- JSON reads what it wrote, a path of a challenge is under the base path, and presenting a challenge
-- with the embedded solver does not change the storage.
pub record IsSolver {S : Type 0} (x : Solver S) (law : MapLike x.storage) : Type 0 where
  pub read : (info : ChallengeInfo) (t : Text) → x.marshal info ≡ ok t → x.unmarshal t ≡ some info
  pub under_base : (token : Text) → has_prefix (x.challenge_path token) challenge_base_path ≡ true
  pub keeps :
      (info : ChallengeInfo) (s : S) (j : Text)
      → law.view (x.provider_present info s).1 j ≡ law.view s j

as_result-eq-ok :
    {S : Type 0} (r : Option Error × S) (t : S)
    → as_result r ≡ (ok tt, t)
    → (r.0 ≡ none) × (r.1 ≡ t)
as_result-eq-ok (none, s) t h = (refl, ap (λ r. r.1) h)
as_result-eq-ok (some e, s) t h = absurd (err-ne-ok (ap (λ r. r.0) h))

module _ {S : Type 0} (x : Solver S) (law : MapLike x.storage) (reads : IsReadable x.storage law)
    (laws : IsSolver x law) where
  presented :
      (ca_url : Text) (info : ChallengeInfo) (s t : S)
      → present x ca_url info s ≡ (ok tt, t)
      → (bytes : Text) × (x.unmarshal bytes ≡ some info)
        × (law.view t (challenge_tokens_key x ca_url info.domain) ≡ some bytes)
  unfolding present
  presented ca_url info s t h =
      let key = challenge_tokens_key x ca_url info.domain in
      let (bytes, s₁, e₁, h₁) = >>=-eq-ok (give (x.marshal info)) _ s h in
      let (_, s₂, e₂, h₂) = >>=-eq-ok (call (x.storage.store key bytes)) _ s₁ h₁ in
      let (stored, there) = as_result-eq-ok (x.storage.store key bytes s₁) s₂ e₂ in
      let (_, last) =
        as_result-eq-ok (x.provider_present info s₂) t
          (renamed-eq-ok _ (as_result (x.provider_present info s₂)) h₂) in
      (
        bytes,
        laws.read info bytes (ap (λ r. r.0) e₁),
        subst (λ u. law.view u key ≡ some bytes) last
            (laws.keeps info s₂ key
              ∙ subst (λ u. law.view u key ≡ some bytes) there
                  (law.stored key bytes s₁ key stored ∙ rw (text_eq_refl key) refl)),
      )

  module _ (info : ChallengeInfo) (r : Request) (get : r.method ≡ codes "GET")
      (on_domain : host_only x r.host ≡ info.domain)
      (on_path : r.path ≡ x.challenge_path info.token) where
    looks : looks_like_http_challenge r ≡ true
    unfolding looks_like_http_challenge
    looks = rw (get, on_path, laws.under_base info.token) (unfold text_eq in refl)

    answered : answer_http_challenge x r (some info) ≡ some info.key_auth
    unfolding answer_http_challenge
    answered =
        rw
          (
            on_path,
            text_eq_refl (x.challenge_path info.token),
            on_domain,
            text_eq_refl (to_lower info.domain),
            get,
          )
          (unfold text_eq in refl)

    solved :
        (ca bytes : Text) (manager : AcmeManager) (t : S)
        → manager.ca ≡ ca
        → x.unmarshal bytes ≡ some info
        → law.view t (challenge_tokens_key x ca info.domain) ≡ some bytes
        → (distributed_http_challenge_solver x manager r t).0 ≡ some info.key_auth
    unfolding distributed_http_challenge_solver answer_loaded
    solved ca bytes manager t same parsed found =
        let key = challenge_tokens_key x ca info.domain in
        let loaded : (x.storage.load key t).0 ≡ ok bytes = reads.loaded key t ∙ rw found refl in
        ap (λ d. (answer_loaded x r (x.storage.load (challenge_tokens_key x manager.ca d) t)).0)
          on_domain
        ∙ ap (λ c. (answer_loaded x r (x.storage.load (challenge_tokens_key x c info.domain) t)).0)
            same
        ∙ ap (λ b. (answer_loaded x r (b, (x.storage.load key t).1)).0) loaded
        ∙ ap (answer_http_challenge x r) parsed
        ∙ answered

  -- Over a storage that is a map whose loads read it: when Present of a manager's authority returns no
  -- error, and HTTP challenges are not disabled, a GET of the path of the token on the domain, with a
  -- port or without, is answered by HandleHTTPChallenge with the key authorization.
  pub handle-present :
      (manager : AcmeManager) (info : ChallengeInfo) (r : Request) (s t : S)
      → manager.disable_http_challenge ≡ false
      → present x manager.ca info s ≡ (ok tt, t)
      → r.method ≡ codes "GET"
      → host_only x r.host ≡ info.domain
      → r.path ≡ x.challenge_path info.token
      → (handle_http_challenge x manager r t).0 ≡ some info.key_auth
  unfolding handle_http_challenge
  handle-present manager info r s t enabled h get on_domain on_path =
      let (bytes, parsed, found) = presented manager.ca info s t h in
      let shown : manager.disable_http_challenge || not (looks_like_http_challenge r) ≡ false =
        rw (enabled, looks info r get on_domain on_path) refl in
      ap (λ b. (if b then (none, t) else distributed_http_challenge_solver x manager r t).0) shown
      ∙ solved info r get on_domain on_path manager.ca bytes manager t refl parsed found
