-- ===== src/HttpChallenge.antt =====
-- httphandler.go, and the distributedSolver of solvers.go: challenges through the storage.
pub mod Answered
use otomatik.Base.{
  Bool, true, false, not, ◌&&◌, ◌||◌, List, [], ◌∷◌, ◌++◌, Option, none, some, if◌then◌else◌,
}
use otomatik.Base.Text.{Text, codes, text_eq, to_lower, has_prefix}
use otomatik.Base.Errors.{Error, message}
use otomatik.Base.Result.{Result, ok, err, stopped, Action, ◌>>=◌, ◌>>◌, give, call, with_error}
use otomatik.Acme.{AcmeManager, Url, issuer_key}
use otomatik.Keys.{path_join}
use otomatik.Storage.{Storage, safe}

-- challengeInfo
pub record ChallengeInfo : Type 0 where
  pub domain : Text
  pub token : Text
  pub key_auth : Text

-- What the handler reads of a request.
pub record Request : Type 0 where
  pub method : Text
  pub host : Text
  pub path : Text

-- The storage, encoding/json for the challenges, url.Parse, the host of net.SplitHostPort, ChallengePath
-- of lego, and the solver that is embedded.
pub record Solver (S : Type 0) : Type 0 where
  pub storage : Storage S
  pub marshal : ChallengeInfo → Result Text
  pub unmarshal : Text → Option ChallengeInfo
  pub parse_url : Text → Option Url
  pub split_host : Text → Option Text
  pub challenge_path : Text → Text
  pub provider_present : ChallengeInfo → S → Option Error × S
  pub provider_clean_up : ChallengeInfo → S → Option Error × S

abbrev pub challenge_base_path : Text
challenge_base_path = codes "/.well-known/acme-challenge"

-- looksLikeHTTPChallenge
unfoldable pub looks_like_http_challenge : Request → Bool
looks_like_http_challenge r =
    text_eq r.method (codes "GET") && has_prefix r.path challenge_base_path

-- strings.EqualFold, for ASCII
abbrev pub equal_fold : Text → Text → Bool
equal_fold s t = text_eq (to_lower s) (to_lower t)

abbrev pub host_or : Text → Option Text → Text
host_or host_port none = host_port
host_or host_port (some host) = host

module _ {S : Type 0} (x : Solver S) where
  -- hostOnly
  unfoldable pub host_only : Text → Text
  host_only host_port = host_or host_port (x.split_host host_port)

  -- storageKeyCAPrefix
  unfoldable pub storage_key_ca_prefix : Text → Text
  storage_key_ca_prefix ca_url =
      path_join (codes "acme" ∷ safe (issuer_key x.parse_url ca_url) ∷ [])

  -- challengeTokensPrefix
  unfoldable pub challenge_tokens_prefix : Text → Text
  unfolding storage_key_ca_prefix
  challenge_tokens_prefix ca_url =
      path_join (storage_key_ca_prefix ca_url ∷ codes "challenge_tokens" ∷ [])

  -- challengeTokensKey
  unfoldable pub challenge_tokens_key : Text → Text → Text
  unfolding challenge_tokens_prefix
  challenge_tokens_key ca_url domain =
      path_join (challenge_tokens_prefix ca_url ∷ (safe domain ++ codes ".json") ∷ [])

  -- distributedSolver.Present
  unfoldable pub present : Text → ChallengeInfo → Action S (Unit {0})
  unfolding challenge_tokens_key
  present ca_url info = give (x.marshal info) >>= λ info_bytes.
      call (x.storage.store (challenge_tokens_key ca_url info.domain) info_bytes)
      >> with_error (λ e. message "presenting with embedded provider")
          (call (x.provider_present info))

  -- distributedSolver.CleanUp
  unfoldable pub clean_up : Text → ChallengeInfo → Action S (Unit {0})
  unfolding challenge_tokens_key
  clean_up ca_url info =
      call (x.storage.delete (challenge_tokens_key ca_url info.domain))
      >> with_error (λ e. message "cleaning up embedded provider") (call (x.provider_clean_up info))

  -- answerHTTPChallenge: the body that it writes, if it handles the request
  unfoldable pub answer_http_challenge : Request → Option ChallengeInfo → Option Text
  unfolding host_only
  answer_http_challenge r none = none
  answer_http_challenge r (some info) =
      if text_eq r.path (x.challenge_path info.token)
        && equal_fold (host_only r.host) info.domain
        && text_eq r.method (codes "GET")
      then some info.key_auth
      else none

  unfoldable pub answer_loaded : Request → Result Text × S → Option Text × S
  unfolding answer_http_challenge
  answer_loaded r (ok info_bytes, s) = (answer_http_challenge r (x.unmarshal info_bytes), s)
  answer_loaded r (err e, s) = (none, s)
  answer_loaded r (stopped h, s) = (none, s)

  -- distributedHTTPChallengeSolver
  unfoldable pub distributed_http_challenge_solver : AcmeManager → Request → S → Option Text × S
  unfolding answer_loaded challenge_tokens_key
  distributed_http_challenge_solver manager r s =
      answer_loaded r (x.storage.load (challenge_tokens_key manager.ca (host_only r.host)) s)

  -- HandleHTTPChallenge
  unfoldable pub handle_http_challenge : AcmeManager → Request → S → Option Text × S
  unfolding distributed_http_challenge_solver looks_like_http_challenge
  handle_http_challenge manager r s =
      let answer = distributed_http_challenge_solver manager r s in
      if manager.disable_http_challenge || not (looks_like_http_challenge r)
      then (none, s)
      else answer
