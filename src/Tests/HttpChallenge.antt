-- ===== src/Tests/HttpChallenge.antt =====
-- A run of presenting and answering a challenge.
use otomatik.Base.{◌≡◌, refl, ap, ◌∙◌, subst, ◌++◌, Option, [], ◌∷◌, none, some}
use otomatik.Base.Text.{Text, codes, text_eq}
use otomatik.Base.Map.{Map, get, put, delete}
use otomatik.Base.Result.{ok, next, ok-injective}
use otomatik.Acme.{issuer_key}
use otomatik.Crypto.{PemBlock}
use otomatik.Keys.{path_join, clean_path, push_part, push_parts}
use otomatik.Storage.{safe, replace_special, keep_key_chars}
use otomatik.HttpChallenge.{
  challenge_tokens_key, challenge_tokens_prefix, storage_key_ca_prefix, ChallengeInfo, Request,
  Solver, host_only, present, handle_http_challenge, challenge_base_path,
}
use otomatik.HttpChallenge.Answered.{IsSolver, handle-present}
use otomatik.Tests.Acme.{manager}
use otomatik.Tests.Crypto.{disk-IsReadable, pem_text, read_pem, pem_read}
use otomatik.Tests.Storage.{disk, disk-MapLike}

abbrev info : ChallengeInfo
info = record { domain = codes "a"; token = codes "t"; key_auth = codes "auth" }

-- JSON of challenges: a block in a block.
abbrev write : ChallengeInfo → Text
write i = pem_text i.domain (pem_text i.token i.key_auth)

abbrev with_rest : Text → Option PemBlock → Option ChallengeInfo
with_rest domain none = none
with_rest domain (some b) = some (record { domain = domain; token = b.kind; key_auth = b.bytes })

abbrev read_block : Option PemBlock → Option ChallengeInfo
read_block none = none
read_block (some b) = with_rest b.kind (read_pem b.bytes)

abbrev small_solver : Solver (Map Text)
small_solver = record {
  storage = disk;
  marshal = λ i. ok (write i);
  unmarshal = λ t. read_block (read_pem t);
  parse_url = λ t. none;
  split_host = λ t. none;
  challenge_path = λ token. challenge_base_path ++ b'/' ∷ token;
  provider_present = λ i s. (none, s);
  provider_clean_up = λ i s. (none, s);
}

written_read : (i : ChallengeInfo) → read_block (read_pem (write i)) ≡ some i
written_read i =
    ap read_block (pem_read i.domain (pem_text i.token i.key_auth))
    ∙ ap (with_rest i.domain) (pem_read i.token i.key_auth)

small_solver-IsSolver : IsSolver small_solver disk-MapLike
small_solver-IsSolver = record {
  read = λ i t h. subst (λ u. read_block (read_pem u) ≡ some i) (ok-injective h) (written_read i);
  under_base = λ token. refl;
  keeps = λ i s j. refl;
}

abbrev request : Request
request = record {
  method = codes "GET";
  host = codes "a";
  path = challenge_base_path ++ b'/' ∷ codes "t";
}

present_test : (present small_solver manager.ca info []).0 ≡ ok tt
unfolding next present text_eq get put delete challenge_tokens_key challenge_tokens_prefix
    storage_key_ca_prefix issuer_key path_join clean_path push_part push_parts safe replace_special
    keep_key_chars
present_test = refl

handle-present_example :
    (handle_http_challenge small_solver manager request
      (present small_solver manager.ca info []).1).0
    ≡ some (codes "auth")
unfolding host_only
handle-present_example =
    handle-present small_solver disk-MapLike disk-IsReadable small_solver-IsSolver manager info
      request [] (present small_solver manager.ca info []).1 refl
      (ap (λ r. (r, (present small_solver manager.ca info []).1)) present_test) refl refl refl
