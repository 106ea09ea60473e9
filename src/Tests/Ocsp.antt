-- ===== src/Tests/Ocsp.antt =====
-- Runs of ocsp.go.
use otomatik.Base.{◌<◌, refl, [], ◌∷◌, none, some, arith}
use otomatik.Base.Text.{Text, codes}
use otomatik.Base.Map.{Map}
use otomatik.Base.Result.{ok}
use otomatik.Certificate.{Certificate, OcspResponse, zero_certificate}
use otomatik.Certificate.Making.{X509}
use otomatik.Ocsp.{Ocsp, fresh_ocsp, valid_until, middle, staple_ocsp}
use otomatik.Ocsp.Staples.{IsStapled, staple_ocsp-IsStapled, fresh_ocsp-valid}
use otomatik.Base.{ℕ, ◌≡◌, some-injective, subst, ◌≤◌, ◌<◌}
use otomatik.Tests.Storage.{disk}
use otomatik.Tests.Crypto.{small_codec}

abbrev pub good : OcspResponse
good = record { status = 0; this_update = 10; next_update = 30; responder_not_after = some 20 }

-- A responder that answers everything with a good response.
abbrev pub answering : Ocsp X509 (Map Text)
answering = record {
  storage = disk;
  codec = small_codec;
  fast_hash = λ t. codes "5";
  ocsp_server = λ c. codes "http://ca" ∷ [];
  issuing_certificate_url = λ c. codes "http://ca" ∷ [];
  create_request = λ c i. ok (1 ∷ []);
  parse_response = λ t i. ok good;
  http_get = λ url s. (ok (ok (1 ∷ [])), s);
  http_post = λ url body s. (ok (ok (2 ∷ [])), s);
  now = λ s. (12, s);
}

abbrev leafed : Certificate
leafed = record zero_certificate {
  leaf = some (record { not_before = 1; not_after = 40 });
  chain = (5 ∷ []) ∷ [];
  names = codes "a" ∷ [];
}

staple_ocsp-IsStapled_example : IsStapled answering leafed (staple_ocsp answering none leafed []).0
staple_ocsp-IsStapled_example = staple_ocsp-IsStapled answering none leafed []

fresh_ocsp-valid_example :
    (14 < good.next_update) × ((end : ℕ) → good.responder_not_after ≡ some end → 14 < end)
fresh_ocsp-valid_example =
    fresh_ocsp-valid good 14 (omega arith)
      (λ end h. subst (λ n. 10 ≤ n) (some-injective h) (omega arith))
      (unfold fresh_ocsp middle valid_until in refl)
