-- ===== src/Tests/Config.antt =====
-- Runs of obtaining, renewing and revoking.
use otomatik.Base.{
  ◌≡◌, ◌≤◌, ◌+◌, refl, sym, ap, subst, ℕ, true, false, [], ◌∷◌, Option, none, some, arith,
}
use otomatik.Base.Text.{Text, codes, text_eq}
use otomatik.Base.Errors.{message, is_canceled, is_no_retry}
use otomatik.Base.Map.{Map, get, put, delete}
use otomatik.Base.Result.{next, ok, err, ok-injective}
use otomatik.Storage.{Storage, store_tx, store_all, safe, replace_special, keep_key_chars}
use otomatik.Crypto.{ecdsa, names_from_csr, encode_private_key, encode_block}
use otomatik.Keys.{
  names_key, site_cert, site_private_key, site_meta, certs_prefix, certs_site_prefix, path_join,
  clean_path, push_part, push_parts,
}
use otomatik.Resources.{
  CertificateResource, save_cert_resource, load_cert_resource, store_resource, resource_pairs,
}
use otomatik.Retry.Termination.{Timed}
use otomatik.Retry.Outcomes.{NeverSucceeds}
use otomatik.Config.{
  Config, World, obtain_lock, release_lock, all_exist, storage_has_cert_resources, emit,
  check_storage, check_loaded, get_prechecked_issuer, generate_csr, add_subjects, add_subject,
  place_subject, place_name,
}
use otomatik.Config.Issuance.{
  issue_new, obtain_attempt, run, when_locked, with_issuer, obtain_with_issuer, renew_with_issuer,
  obtain_cert, revoke_cert, require_key, delete_resources, attempted, effects,
}
use otomatik.Config.Locks.{Balanced, events_after, with_issuer-Balanced}
use otomatik.Config.Stored.{IsNamed, obtained_is_stored}
use otomatik.Config.Failing.{obtain_hides_failure}
use otomatik.Config.Revoked.{Gone, revoke_cert-Gone}
use otomatik.Tests.Storage.{disk, disk-MapLike}
use otomatik.Tests.Crypto.{small_codec, small_pki, small_json, disk-IsReadable, site}

-- An authority that issues everything, over the disk.
abbrev pub all_granting : Config (Map Text)
all_granting = record {
  storage = disk;
  json = small_json;
  pki = small_pki;
  codec = small_codec;
  window = λ d. d;
  issuer_key = codes "c";
  issue = λ attempts csr s. (ok (record { certificate = codes "cert"; metadata = codes "{}" }), s);
  pre_check = none;
  revoke = λ cert s. (none, s);
  generate_key = λ s. (ok (ecdsa (7 ∷ [])), s);
  parse_ip = λ t. none;
  parse_url = λ t. none;
  create_request = λ template key s. (ok template, s);
  must_staple = false;
  listens = true;
  now = λ s. (5, s);
  wait = λ d s. (false, s);
  test_key = λ s. (codes "rw_test_1", s);
  test_contents = λ s. (ok (codes "x"), s);
}

abbrev pub blank : World (Map Text)
blank = record { outside = []; own_locks = []; events = [] }

with_issuer-Balanced_example :
    Balanced all_granting
      (codes "cert_obtained")
      (codes "a")
      blank
      (obtain_with_issuer all_granting 3 (codes "a") true blank)
    × Balanced all_granting
        (codes "cert_renewed")
        (codes "a")
        blank
        (renew_with_issuer all_granting 3 (codes "a") true blank)
with_issuer-Balanced_example =
    with_issuer-Balanced all_granting (λ key s. refl) 3 (codes "a") true blank refl

a-IsNamed : IsNamed all_granting disk-MapLike disk-IsReadable (codes "a")
a-IsNamed = record {
  short = omega arith;
  same_ip = λ ip h. absurd (cc);
  same_url = λ u h. absurd (cc);
  names_kept = λ template csr key s t h. sym (ap names_from_csr (ok-injective (ap (λ r. r.0) h)));
}

abbrev obtained : World (Map Text)
obtained = (obtain_cert all_granting 3 (codes "a") true blank).1

obtain_cert_test : (obtain_cert all_granting 3 (codes "a") true blank).0 ≡ ok tt
unfolding next obtain_cert storage_has_cert_resources all_exist get_prechecked_issuer check_storage
    check_loaded obtain_with_issuer with_issuer when_locked obtain_lock release_lock run
    obtain_attempt issue_new encode_private_key encode_block generate_csr add_subjects add_subject
    place_subject place_name save_cert_resource store_resource resource_pairs store_tx store_all get
    put delete text_eq safe replace_special keep_key_chars site_cert site_private_key site_meta
    names_key certs_site_prefix certs_prefix path_join clean_path push_part push_parts emit
    names_from_csr
obtain_cert_test = refl

obtained_is_stored_example :
    ((v : Text) × (get obtained.outside (site_cert (codes "c") (codes "a")) ≡ some v))
    × ((v : Text) × (get obtained.outside (site_private_key (codes "c") (codes "a")) ≡ some v))
    × ((v : Text) × (get obtained.outside (site_meta (codes "c") (codes "a")) ≡ some v))
obtained_is_stored_example =
    obtained_is_stored all_granting disk-MapLike disk-IsReadable (λ k s j. refl) 3 (codes "a") blank
      obtained a-IsNamed (ap (λ r. (r, obtained)) obtain_cert_test)

abbrev pub a_site : CertificateResource
a_site = record site { sans = codes "a" ∷ [] }

abbrev pub with_a : World (Map Text)
with_a = record {
  outside = (save_cert_resource disk small_json (codes "c") a_site []).1;
  own_locks = [];
  events = [];
}

revoke_cert_test : (revoke_cert all_granting (codes "a") with_a).0 ≡ ok tt
unfolding next revoke_cert require_key delete_resources load_cert_resource save_cert_resource
    store_resource resource_pairs store_tx store_all get put delete text_eq safe replace_special
    keep_key_chars site_cert site_private_key site_meta names_key certs_site_prefix certs_prefix
    path_join clean_path push_part push_parts emit
revoke_cert_test = refl

abbrev revoked : World (Map Text)
revoked = (revoke_cert all_granting (codes "a") with_a).1

revoke_cert-Gone_example :
    (Gone disk-MapLike revoked.outside (site_cert (codes "c") (codes "a"))
      × Gone disk-MapLike revoked.outside (site_private_key (codes "c") (codes "a"))
      × Gone disk-MapLike revoked.outside (site_meta (codes "c") (codes "a")))
    × (revoked.events
        ≡ events_after all_granting (codes "cert_revoked") (codes "a") (ok tt) with_a.events)
revoke_cert-Gone_example =
    revoke_cert-Gone all_granting disk-MapLike (codes "a") with_a revoked
      (ap (λ r. (r, revoked)) revoke_cert_test)

-- A storage that has nothing, over a clock that only waits advance.
abbrev nothing : Storage ℕ
nothing = record {
  store = λ k v t. (none, t);
  load = λ k t. (err (message "none"), t);
  delete = λ k t. (none, t);
  exists = λ k t. (false, t);
  list = λ prefix recursive t. (ok [], t);
  stat = λ k t. (err (message "none"), t);
  lock = λ k t. (none, t);
  unlock = λ k t. (none, t);
}

-- A key source that always fails.
abbrev broken : Config ℕ
broken = record {
  storage = nothing;
  json = small_json;
  pki = small_pki;
  codec = small_codec;
  window = λ d. d;
  issuer_key = codes "c";
  issue = λ attempts csr s. (err (message "no"), s);
  pre_check = none;
  revoke = λ cert s. (none, s);
  generate_key = λ s. (err (message "no entropy"), s);
  parse_ip = λ t. none;
  parse_url = λ t. none;
  create_request = λ template key s. (ok template, s);
  must_staple = false;
  listens = true;
  now = λ t. (t, t);
  wait = λ d t. (false, t + d);
  test_key = λ s. (codes "rw_test_1", s);
  test_contents = λ s. (ok (codes "x"), s);
}

attempt_fails :
    (n : Option ℕ) (t : ℕ) → obtain_attempt broken (codes "a") n t ≡ (err (message "no entropy"), t)
unfolding obtain_attempt storage_has_cert_resources all_exist issue_new next
attempt_fails n t = refl

abbrev broken-Timed : Timed (effects broken (obtain_attempt broken (codes "a")))
broken-Timed = record {
  time = λ a. a.state;
  clock_reads = λ a. (omega arith, omega arith);
  wait_lasts = λ d a. (omega arith, λ _. omega arith);
  attempt_lasts = λ n a.
      subst (λ r. a.state ≤ (attempted r).1.state) (sym (attempt_fails (some n) a.state))
        (omega arith);
}

broken-NeverSucceeds :
    NeverSucceeds (effects broken (obtain_attempt broken (codes "a"))) broken-Timed
unfolding is_canceled is_no_retry
broken-NeverSucceeds = record {
  fails = λ n a. (
    message "no entropy",
    ap (λ r. (attempted r).0) (attempt_fails (some n) a.state),
    refl,
    refl,
  );
  fires = λ d a. refl;
  instant = λ a. refl;
}

abbrev at_start : World ℕ
at_start = record { outside = 0; own_locks = []; events = [] }

obtain_hides_failure_example :
    ((obtain_with_issuer broken 43202 (codes "a") false at_start).0 ≡ ok tt)
    × ((obtain_with_issuer broken 43202 (codes "a") false at_start).1.events
        ≡ events_after broken (codes "cert_obtained") (codes "a") (ok tt) at_start.events)
obtain_hides_failure_example =
    obtain_hides_failure broken (codes "a") at_start 43202 broken-Timed broken-NeverSucceeds
      (λ key s. refl) refl refl (omega arith)
