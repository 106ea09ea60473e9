-- ===== src/Tests/Acme.antt =====
-- Runs of Issue.
use otomatik.Base.{◌≡◌, refl, sym, ap, ℕ, true, false, [], ◌∷◌, none, some}
use otomatik.Base.Text.{Text, codes, text_eq}
use otomatik.Base.Result.{ok, next, ok-injective}
use otomatik.Config.{IssuedCertificate}
use otomatik.Crypto.{Csr}
use otomatik.Acme.{
  AcmeManager, Ports, Authority, client_url, chosen_ca, using_test_ca, initial_challenges,
  lets_encrypt_staging_ca, lets_encrypt_production_ca,
}
use otomatik.Acme.Issue.{
  new_acme_client, attempt_client, new_acme_client_with_retry, throttle, next_challenge, or_next,
  try_challenges, try_all_enabled_challenges, do_issue, from_production, after_first, issue,
}
use otomatik.Acme.Production.{issue-From}

abbrev pub manager : AcmeManager
manager = record {
  ca = lets_encrypt_production_ca;
  test_ca = lets_encrypt_staging_ca;
  email = [];
  disable_http_challenge = false;
  disable_tls_alpn_challenge = true;
  listen_host = [];
  alt_http_port = 0;
  alt_tls_alpn_port = 0;
  agreed = true;
  dns_provider = false;
  dns_challenge_option = false;
  trusted_roots = false;
  cert_obtain_timeout = 0;
}

abbrev ports : Ports
ports = record { http_port = 80; https_port = 443 }

-- An authority whose certificates are the address that they come from.
abbrev naming : Authority ℕ
naming = record {
  parse_url = λ t. some (record { scheme = codes "https"; host = codes "ca"; path = [] });
  is_local = λ host. false;
  connect = λ ca_url s. (ok tt, s);
  rate_wait = λ key s. (none, s);
  obtain_for_csr =
      λ ca_url provider csr s. (ok (record { certificate = ca_url; metadata = [] }), s);
  intn = λ n s. (0, s);
  sleep = λ d s. s;
}

abbrev csr : Csr
csr = record {
  dns_names = codes "a" ∷ [];
  email_addresses = [];
  ip_addresses = [];
  uris = [];
  must_staple = false;
}

abbrev From : Text → IssuedCertificate → Type 0
From ca_url cert = cert.certificate ≡ ca_url

abbrev of_production : IssuedCertificate
of_production = record { certificate = lets_encrypt_production_ca; metadata = [] }

-- On a retry, the testing endpoint is asked first, and then the authority.
issue_test : issue naming manager manager ports (some 1) csr 0 ≡ (ok of_production, 0)
unfolding next issue after_first from_production do_issue new_acme_client_with_retry attempt_client
    new_acme_client throttle try_all_enabled_challenges try_challenges next_challenge or_next
    initial_challenges client_url chosen_ca using_test_ca text_eq
issue_test = refl

issue-From_example : From lets_encrypt_production_ca of_production
issue-From_example =
    issue-From naming manager manager ports From
      (λ ca_url challenge request s t cert h.
        sym (ap (λ c. c.certificate) (ok-injective (ap (λ r. r.0) h))))
      refl refl refl (some 1) csr 0 0 of_production issue_test
