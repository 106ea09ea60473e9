-- ===== src/Acme.antt =====
-- acmemanager.go, acmeclient.go: a certificate from an ACME authority, with the choice between the
-- authority and its testing endpoint and between the challenges.
pub mod Issue
pub mod Production
use otomatik.Base.{
  ℕ, zero, suc, ◌-◌, Bool, true, false, not, ◌&&◌, ◌||◌, List, [], ◌∷◌, ◌++◌, map, Option, none,
  some, ltb, ◌==◌, if◌then◌else◌, length, get_or, take, drop,
}
use otomatik.Base.Text.{Text, codes, slash, is_empty, text_eq, contains_text, trim_char}
use otomatik.Base.Errors.{Error, message, wrapped, no_retry, problem}
use otomatik.Base.Result.{
  Result, ok, err, stopped, Action, ◌>>=◌, ◌>>◌, pure, raise, give, call, as_result, with_error,
}
use otomatik.Crypto.{Csr}
use otomatik.Config.{IssuedCertificate}
use otomatik.Names.{subject_qualifies_for_public_cert}

-- The constants of Let's Encrypt, and DefaultACME
abbrev pub lets_encrypt_staging_ca : Text
lets_encrypt_staging_ca = codes "https://acme-staging-v02.api.letsencrypt.org/directory"

abbrev pub lets_encrypt_production_ca : Text
lets_encrypt_production_ca = codes "https://acme-v02.api.letsencrypt.org/directory"

-- The types of challenges of lego.
pub data Challenge : Type 0 where
  dns01 : Challenge
  http01 : Challenge
  tls_alpn01 : Challenge

-- ACMEManager, without the account to bind and its Config. Of the DNS provider, its option and the
-- trusted roots there is only whether they are set.
pub record AcmeManager : Type 0 where
  pub ca : Text
  pub test_ca : Text
  pub email : Text
  pub disable_http_challenge : Bool
  pub disable_tls_alpn_challenge : Bool
  pub listen_host : Text
  pub alt_http_port : ℕ
  pub alt_tls_alpn_port : ℕ
  pub agreed : Bool
  pub dns_provider : Bool
  pub dns_challenge_option : Bool
  pub trusted_roots : Bool
  pub cert_obtain_timeout : ℕ

-- The ports of the package, which its users may change.
pub record Ports : Type 0 where
  pub http_port : ℕ
  pub https_port : ℕ

-- The provider that nextChallenge sets: at an address for http01 and tls_alpn01, with the option or
-- without it for dns01.
pub record Provider : Type 0 where
  pub challenge : Challenge
  pub host : Text
  pub port : ℕ
  pub with_option : Bool

-- The parts of a URL that the program reads.
pub record Url : Type 0 where
  pub scheme : Text
  pub host : Text
  pub path : Text

-- What issuing calls, on a state `S`: url.Parse, isLoopback or isInternal of a host, the rest of a not
-- interactive newACMEClient (the account, the client of lego and the registration), the rate limiter
-- of a key, ObtainForCSR with the one provider that is set, math/rand and time.Sleep.
pub record Authority (S : Type 0) : Type 0 where
  pub parse_url : Text → Option Url
  pub is_local : Text → Bool
  pub connect : Text → S → Result (Unit {0}) × S
  pub rate_wait : Text → S → Option Error × S
  pub obtain_for_csr : Text → Provider → Csr → S → Result IssuedCertificate × S
  pub intn : ℕ → S → ℕ × S
  pub sleep : ℕ → S → S

abbrev pub or_default : Text → Text → Text
or_default t d = if is_empty t then d else t

abbrev pub number_or_default : ℕ → ℕ → ℕ
number_or_default n d = if n == 0 then d else n

-- NewACMEManager, where `default` is DefaultACME
unfoldable pub new_acme_manager : AcmeManager → AcmeManager → AcmeManager
new_acme_manager default template = record {
  ca = or_default template.ca default.ca;
  test_ca = or_default template.test_ca default.test_ca;
  email = or_default template.email default.email;
  disable_http_challenge = template.disable_http_challenge || default.disable_http_challenge;
  disable_tls_alpn_challenge =
      template.disable_tls_alpn_challenge || default.disable_tls_alpn_challenge;
  listen_host = or_default template.listen_host default.listen_host;
  alt_http_port = number_or_default template.alt_http_port default.alt_http_port;
  alt_tls_alpn_port = number_or_default template.alt_tls_alpn_port default.alt_tls_alpn_port;
  agreed = template.agreed || default.agreed;
  dns_provider = template.dns_provider || default.dns_provider;
  dns_challenge_option = template.dns_challenge_option || default.dns_challenge_option;
  trusted_roots = template.trusted_roots || default.trusted_roots;
  cert_obtain_timeout = number_or_default template.cert_obtain_timeout default.cert_obtain_timeout;
}

abbrev pub hyphen : ℕ
hyphen = b'-'

-- The path of an issuer's key as one component
abbrev pub flat_path : Text → Text
flat_path path = trim_char hyphen (map (λ c. if c == slash || c == b'\\' then hyphen else c) path)

abbrev pub key_of_url : Text → Option Url → Text
key_of_url ca none = ca
key_of_url ca (some u) =
    if is_empty u.path || is_empty (flat_path u.path)
    then u.host
    else u.host ++ hyphen ∷ flat_path u.path

-- issuerKey
unfoldable pub issuer_key : (Text → Option Url) → Text → Text
issuer_key parse_url ca = key_of_url ca (parse_url ca)

-- Whether all names qualify for a public certificate, by net.ParseIP
unfoldable pub all_qualify : (Text → Bool) → List Text → Bool
all_qualify is_ip [] = true
all_qualify is_ip (name ∷ names) =
    subject_qualifies_for_public_cert is_ip name && all_qualify is_ip names

-- PreCheck; `get_email` is that of user.go.
unfoldable pub pre_check :
    {S : Type 0}
    → (Text → Bool)
    → AcmeManager
    → (Bool → Action S (Unit {0}))
    → List Text
    → Bool
    → Action S (Unit {0})
unfolding all_qualify
pre_check is_ip manager get_email names interactive s =
    if contains_text manager.ca (codes "api.letsencrypt.org") && not (all_qualify is_ip names)
    then (err (message "subject does not qualify for a Let's Encrypt certificate"), s)
    else get_email interactive s

-- The address of the authority in newACMEClient
unfoldable pub chosen_ca : AcmeManager → AcmeManager → Bool → Text
chosen_ca default manager use_test_ca =
    let test =
      if is_empty manager.test_ca && text_eq manager.ca default.ca
      then default.test_ca
      else manager.test_ca in
    let first = if use_test_ca then test else [] in
    or_default (or_default first manager.ca) default.ca

abbrev pub with_scheme : Text → Text
with_scheme ca_url =
    if contains_text ca_url (codes "://") then ca_url else codes "https://" ++ ca_url

unfoldable pub client_url : AcmeManager → AcmeManager → Bool → Text
unfolding chosen_ca
client_url default manager use_test_ca = with_scheme (chosen_ca default manager use_test_ca)

-- usingTestCA of a client
unfoldable pub using_test_ca : AcmeManager → Text → Bool
using_test_ca manager ca_url = not (is_empty manager.test_ca) && text_eq ca_url manager.test_ca

-- initialChallenges
unfoldable pub initial_challenges : AcmeManager → List Challenge
initial_challenges manager =
    let http = if manager.disable_http_challenge then [] else http01 ∷ [] in
    let alpn = if manager.disable_tls_alpn_challenge then [] else tls_alpn01 ∷ [] in
    if manager.dns_provider then dns01 ∷ [] else http ++ alpn

-- The port of a challenge: its official one, that of the package, or that of the manager.
abbrev pub use_port : ℕ → ℕ → ℕ → ℕ
use_port official current alternative =
    if not (alternative == 0) then alternative else if not (current == 0) then current else official

-- The provider that nextChallenge sets for a challenge
unfoldable pub provider_for : AcmeManager → Ports → Challenge → Provider
provider_for manager ports http01 = record {
  challenge = http01;
  host = manager.listen_host;
  port = use_port 80 ports.http_port manager.alt_http_port;
  with_option = false;
}
provider_for manager ports tls_alpn01 = record {
  challenge = tls_alpn01;
  host = manager.listen_host;
  port = use_port 443 ports.https_port manager.alt_tls_alpn_port;
  with_option = false;
}
provider_for manager ports dns01 = record {
  challenge = dns01;
  host = [];
  port = 0;
  with_option = manager.dns_challenge_option;
}

-- errors.As(err, &acmeErr) and the status 429
unfoldable pub is_too_many_requests : Error → Bool
is_too_many_requests (problem status) = status == 429
is_too_many_requests (no_retry e) = is_too_many_requests e
is_too_many_requests (wrapped s e) = is_too_many_requests e
is_too_many_requests _ = false

-- err.(acme.ProblemDetails) and the status 429
unfoldable pub is_plain_too_many : Error → Bool
is_plain_too_many (problem status) = status == 429
is_plain_too_many _ = false
