-- ===== src/Acme/Issue.antt =====
-- acmemanager.go, acmeclient.go: Issue, down to the attempts with each challenge.
use otomatik.Base.{
  ℕ, zero, suc, Bool, false, not, ◌&&◌, List, ◌∷◌, ◌++◌, Option, none, some, ltb, if◌then◌else◌,
  length, get_or, take, drop,
}
use otomatik.Base.Text.{Text, codes, text_eq}
use otomatik.Base.Errors.{Error, message, wrapped, no_retry}
use otomatik.Base.Result.{
  Result, ok, err, stopped, Action, ◌>>=◌, ◌>>◌, pure, raise, call, with_error,
}
use otomatik.Config.{IssuedCertificate}
use otomatik.Crypto.{Csr}
use otomatik.Acme.{
  AcmeManager, Ports, Challenge, http01, Url, Authority, client_url, using_test_ca,
  initial_challenges, provider_for, is_too_many_requests, is_plain_too_many,
}

-- A duration of two seconds
abbrev pub two_seconds : ℕ
two_seconds = 2_000_000_000

module _ {S : Type 0} (x : Authority S) (default manager : AcmeManager) (ports : Ports) where
  abbrev pub checked_url : Text → Option Url → Action S (Unit {0})
  checked_url ca_url none = raise (message "malformed CA URL")
  checked_url ca_url (some u) =
      if not (text_eq u.scheme (codes "https")) && not (x.is_local u.host)
      then raise (message "insecure CA URL (HTTPS required)")
      else pure tt

  -- newACMEClient: the address of the client
  unfoldable pub new_acme_client : Bool → Action S Text
  new_acme_client use_test_ca =
      let ca_url = client_url default manager use_test_ca in
      checked_url ca_url (x.parse_url ca_url) >> x.connect ca_url >>= λ _. pure ca_url

  -- The end of an attempt of newACMEClientWithRetry, where `again` is what follows a failure
  unfoldable pub attempt_client : (Error → S → Result Text × S) → Result Text × S → Result Text × S
  attempt_client again (ok ca_url, s) = (ok ca_url, s)
  attempt_client again (err e, s) =
      if is_plain_too_many e
      then (err (message "too many requests making new ACME client - aborting"), s)
      else again e s
  attempt_client again (stopped h, s) = (stopped h, s)

  -- newACMEClientWithRetry
  unfoldable pub new_acme_client_with_retry : Bool → Action S Text
  unfolding new_acme_client attempt_client
  new_acme_client_with_retry use_test_ca s =
      attempt_client
        (λ _ s'. attempt_client raise (new_acme_client use_test_ca (x.sleep two_seconds s')))
        (new_acme_client use_test_ca s)

  -- throttle
  unfoldable pub throttle : Text → Action S (Unit {0})
  throttle ca_url = call (x.rate_wait (ca_url ++ b',' ∷ manager.email))

  -- nextChallenge: the challenge at the random index, and the others
  unfoldable pub next_challenge : List Challenge → S → (Challenge × List Challenge) × S
  next_challenge available s =
      let (rand_idx, s') = x.intn (length available) s in
      (
        (
          get_or available rand_idx http01,
          take rand_idx available ++ drop (suc rand_idx) available,
        ),
        s',
      )

  -- After an attempt, where `rest` are the attempts that follow
  unfoldable pub or_next :
      (Error → S → Result IssuedCertificate × S)
      → Result IssuedCertificate × S
      → Result IssuedCertificate × S
  or_next rest (ok cert, s) = (ok cert, s)
  or_next rest (err e, s) = rest e (x.sleep two_seconds s)
  or_next rest (stopped h, s) = (stopped h, s)

  -- The loop of tryAllEnabledChallenges, with a round for each challenge
  unfoldable pub try_challenges :
      ℕ → Text → Csr → List Challenge → Error → Action S IssuedCertificate
  unfolding next_challenge or_next
  try_challenges zero ca_url csr challenges last s = raise last s
  try_challenges (suc rounds) ca_url csr challenges last s =
      let ((chosen, others), s') = next_challenge challenges s in
      or_next (λ e. try_challenges rounds ca_url csr others e)
        (x.obtain_for_csr ca_url (provider_for manager ports chosen) csr s')

  -- tryAllEnabledChallenges
  unfoldable pub try_all_enabled_challenges : Text → Csr → Action S IssuedCertificate
  unfolding try_challenges
  try_all_enabled_challenges ca_url csr =
      let challenges = initial_challenges manager in
      try_challenges (length challenges) ca_url csr challenges
        (message "no challenge types enabled")

  -- doIssue: the certificate, and whether it is the testing endpoint's
  unfoldable pub do_issue : Csr → Bool → Action S (IssuedCertificate × Bool)
  unfolding new_acme_client_with_retry throttle try_all_enabled_challenges
  do_issue csr use_test_ca = new_acme_client_with_retry use_test_ca >>= λ ca_url.
      (if use_test_ca then pure tt else throttle ca_url)
      >> with_error (wrapped "names") (try_all_enabled_challenges ca_url csr)
      >>= λ cert. pure (cert, using_test_ca manager ca_url)

  abbrev pub is_retry : Option ℕ → Bool
  is_retry none = false
  is_retry (some attempts) = ltb 0 attempts

  -- The second doIssue of Issue
  unfoldable pub from_production :
      Result (IssuedCertificate × Bool) × S → Result IssuedCertificate × S
  from_production (ok (cert, used_test_ca), s) = (ok cert, s)
  from_production (err e, s) = if is_too_many_requests e then (err e, s) else (err (no_retry e), s)
  from_production (stopped h, s) = (stopped h, s)

  unfoldable pub after_first :
      Csr → Bool → Result (IssuedCertificate × Bool) × S → Result IssuedCertificate × S
  unfolding from_production do_issue
  after_first csr retry (ok (cert, used_test_ca), s) =
      let production = from_production (do_issue csr false s) in
      if retry && used_test_ca && not (text_eq manager.ca manager.test_ca)
      then production
      else (ok cert, s)
  after_first csr retry (err e, s) = (err e, s)
  after_first csr retry (stopped h, s) = (stopped h, s)

  -- Issue, with the attempts that the context counts
  unfoldable pub issue : Option ℕ → Csr → Action S IssuedCertificate
  unfolding after_first
  issue attempts csr s = after_first csr (is_retry attempts) (do_issue csr (is_retry attempts) s)
