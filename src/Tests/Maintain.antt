-- ===== src/Tests/Maintain.antt =====
-- A run of deleteOldOCSPStaples.
use otomatik.Base.{
  ◌≡◌, ℕ, ◌+◌, refl, sym, ap, ◌∙◌, subst, true, List, [], ◌∷◌, ◌++◌, Option, none, some, arith, All,
  by_test, if◌then◌else◌,
}
use otomatik.Base.Errors.{not_exist}
use otomatik.Base.Text.{Text, codes, text_eq, text_eq_iff, slash, count_char}
use otomatik.Base.Map.{Map, get, put, delete}
use otomatik.Base.Result.{Result, ok, err, stopped, ok-injective, err-ne-ok}
use otomatik.Certificate.{Certificate, zero_certificate, OcspResponse}
use otomatik.Maintain.{
  Cleaner, delete_old_ocsp_staples, delete_listed, delete_staples, after_round, staple_round,
  delete_if_old,
}
use otomatik.Crypto.{PemBlock}
use otomatik.Maintain.Expired.{
  Sweeper, crt, key_ext, json_ext, delete_expired_certs, sweep_issuers, ext, trim_suffix,
}
use otomatik.Maintain.Current.Asset.{IsSweeper, IsCurrent as IsCurrentCert}
use otomatik.Maintain.Current.{delete_expired_certs-current}
use otomatik.Cache.{Cache, index_names, cache_certificate, empty_cache}
use otomatik.Cache.Invariant.{Inv, cache_certificate-Inv, empty_cache-Inv}
use otomatik.Maintain.OcspUpdates.{OcspUpdate, apply_update}
use otomatik.Maintain.Removed.{with_staple, apply_update_removed}
use otomatik.Certificate.Making.{X509}
use otomatik.Maintain.Staples.{IsCleaner, IsCurrent, IsOld, is_listed, delete_old_ocsp_staples_lem}
use otomatik.Storage.{Storage}
use otomatik.Storage.Transaction.{MapLike, IsReadable}
use otomatik.Tests.Ocsp.{good}
use otomatik.Tests.Storage.{disk, disk-MapLike, disk-Deletes}

abbrev parse_small : Text → Option OcspResponse
parse_small [] = none
parse_small (c ∷ t) = some good

-- The disk with two keys listed, at the time 25; the response `good` ends at 30.
abbrev listing_disk : Storage (Map Text)
listing_disk = record disk {
  list = λ prefix recursive s. (ok (codes "ocsp/a" ∷ codes "ocsp/b" ∷ []), s);
}

abbrev cleaner : Cleaner (Map Text)
cleaner = record { storage = listing_disk; parse_response = parse_small; now = λ s. (25, s) }

abbrev listing-MapLike : MapLike listing_disk
listing-MapLike = record {
  view = disk-MapLike.view;
  stored = disk-MapLike.stored;
  store_others = disk-MapLike.store_others;
  deleted = disk-MapLike.deleted;
  delete_others = disk-MapLike.delete_others;
}

abbrev listing-IsReadable : IsReadable listing_disk listing-MapLike
listing-IsReadable = record {
  loaded = λ k s. refl;
  load_keeps = λ k s j. refl;
  found = λ k s. refl;
  exists_keeps = λ k s j. refl;
}

abbrev cleaner-IsCleaner : IsCleaner cleaner listing-MapLike 25 25
cleaner-IsCleaner = record {
  from_first = λ s. omega arith;
  to_last = λ s. omega arith;
  deletes = disk-Deletes;
  now_keeps = λ s j. refl;
}

abbrev staples : Map Text
staples = (codes "ocsp/a", 1 ∷ []) ∷ (codes "ocsp/b", []) ∷ []

-- The key whose value does not parse is gone.
delete_old_ocsp_staples_test :
    delete_old_ocsp_staples cleaner staples ≡ (ok tt, (codes "ocsp/a", 1 ∷ []) ∷ [])
unfolding delete_old_ocsp_staples delete_listed delete_staples after_round staple_round
    delete_if_old get delete text_eq
delete_old_ocsp_staples_test = refl

delete_old_ocsp_staples_lem_example :
    ((delete_old_ocsp_staples cleaner staples).0 ≡ ok tt)
    × (IsCurrent cleaner 25 (1 ∷ [])
        → get (delete_old_ocsp_staples cleaner staples).1 (codes "ocsp/a") ≡ some (1 ∷ []))
    × (is_listed cleaner listing-MapLike listing-IsReadable 25 25 cleaner-IsCleaner
            (codes "ocsp/a" ∷ codes "ocsp/b" ∷ [])
            (codes "ocsp/a")
          ≡ true
        → IsOld cleaner listing-MapLike listing-IsReadable 25 25 cleaner-IsCleaner (1 ∷ [])
        → get (delete_old_ocsp_staples cleaner staples).1 (codes "ocsp/a") ≡ none)
unfolding get text_eq
delete_old_ocsp_staples_lem_example =
    delete_old_ocsp_staples_lem cleaner listing-MapLike listing-IsReadable 25 25 cleaner-IsCleaner
      (codes "ocsp/a" ∷ codes "ocsp/b" ∷ []) staples staples refl (λ j. refl) (codes "ocsp/a")
      (1 ∷ []) refl

abbrev listing_tree : Text → Result (List Text)
listing_tree key =
    if text_eq key (codes "certificates")
    then ok (codes "certificates/i" ∷ [])
    else if text_eq key (codes "certificates/i")
    then ok (codes "certificates/i/s" ∷ [])
    else if text_eq key (codes "certificates/i/s")
    then ok (codes "certificates/i/s/s.crt" ∷ codes "certificates/i/s/s.key" ∷ [])
    else err not_exist

abbrev tree_disk : Storage (Map Text)
tree_disk = record disk { list = λ prefix recursive s. (listing_tree prefix, s) }

-- A certificate that ends at its first byte
abbrev parse_end : Text → Result X509
parse_end [] = err not_exist
parse_end (c ∷ t) = ok (record {
  common_name = [];
  dns_names = [];
  ip_addresses = [];
  email_addresses = [];
  uris = [];
  dates = record { not_before = 0; not_after = c };
})

abbrev sweeper : Sweeper (Map Text)
sweeper = record {
  storage = tree_disk;
  pem_decode = λ t. some (record { kind = codes "CERTIFICATE"; bytes = t });
  parse_certificate = parse_end;
  now = λ s. (25, s);
}

abbrev tree-MapLike : MapLike tree_disk
tree-MapLike = record {
  view = disk-MapLike.view;
  stored = disk-MapLike.stored;
  store_others = disk-MapLike.store_others;
  deleted = disk-MapLike.deleted;
  delete_others = disk-MapLike.delete_others;
}

abbrev tree-IsReadable : IsReadable tree_disk tree-MapLike
tree-IsReadable = record {
  loaded = λ k s. refl;
  load_keeps = λ k s j. refl;
  found = λ k s. refl;
  exists_keeps = λ k s j. refl;
}

abbrev OneBelow : Text → List Text → Type 0
OneBelow key keys = All (λ k. count_char slash k ≡ count_char slash key + 1) keys

below_at :
    (key at : Text) (keys found : List Text)
    → text_eq key at ≡ true
    → ok found ≡ ok keys
    → OneBelow at found
    → OneBelow key keys
below_at key at keys found e h b =
    subst (OneBelow key) (ok-injective h)
      (subst (λ k. OneBelow k found) (sym ((text_eq_iff key at).0 e)) b)

tree_below : (key : Text) (keys : List Text) → listing_tree key ≡ ok keys → OneBelow key keys
tree_below key keys h =
    by_test (text_eq key (codes "certificates")) h (λ e i. below_at key _ keys _ e i (refl, tt))
      (λ _ i.
        by_test (text_eq key (codes "certificates/i")) i
          (λ e j. below_at key _ keys _ e j (refl, tt))
          (λ _ j.
            by_test (text_eq key (codes "certificates/i/s")) j
              (λ e k. below_at key _ keys _ e k (refl, (refl, tt))) (λ _ k. absurd (err-ne-ok k))))

abbrev sweeper-IsSweeper : IsSweeper sweeper tree-MapLike 25
sweeper-IsSweeper = record {
  to_last = λ s. omega arith;
  now_keeps = λ s j. refl;
  list_keeps = λ key j s. refl;
  one_below = λ key s keys h. tree_below key keys h;
}

abbrev site_base : Text
site_base = codes "certificates/i/s/s"

abbrev sites : Map Text
sites = (site_base ++ crt, 20 ∷ []) ∷ (site_base ++ key_ext, 7 ∷ []) ∷ []

-- The certificate that ended at 20 goes after 5, with its key.
delete_expired_certs_test : (delete_expired_certs sweeper 5 sites).1 ≡ []
unfolding delete_expired_certs sweep_issuers get delete text_eq ext trim_suffix
delete_expired_certs_test = refl

abbrev end_of : Result X509 → ℕ
end_of (ok cert) = cert.dates.not_after
end_of (err e) = 0
end_of (stopped h) = 0

ends_later : IsCurrentCert sweeper 6 25 (20 ∷ [])
ends_later block cert p q =
    let same : block ≡ record { kind = codes "CERTIFICATE"; bytes = 20 ∷ [] } = cc in
    let ends : 20 ≡ cert.dates.not_after =
      sym (ap (λ (b : PemBlock). end_of (parse_end b.bytes)) same) ∙ ap end_of q in
    omega (arith, ends)

delete_expired_certs-current_example :
    (get (delete_expired_certs sweeper 6 sites).1 (site_base ++ crt) ≡ some (20 ∷ []))
    × (get (delete_expired_certs sweeper 6 sites).1 (site_base ++ key_ext)
        ≡ get sites (site_base ++ key_ext))
    × (get (delete_expired_certs sweeper 6 sites).1 (site_base ++ json_ext)
        ≡ get sites (site_base ++ json_ext))
unfolding get text_eq
delete_expired_certs-current_example =
    delete_expired_certs-current sweeper 6 tree-MapLike tree-IsReadable 25 sweeper-IsSweeper
      site_base (20 ∷ []) sites refl refl ends_later

abbrev cached_cert : Certificate
cached_cert = record zero_certificate { hash = codes "h"; names = codes "a" ∷ [] }

abbrev one_cached : Cache
one_cached = cache_certificate empty_cache cached_cert

abbrev good_update : OcspUpdate
good_update = record { raw_bytes = 1 ∷ []; parsed = some good }

apply_update_removed_example :
    (get (apply_update (codes "gone") good_update one_cached).cache (codes "gone")
      ≡ some (with_staple good_update zero_certificate))
    × ¬ Inv (apply_update (codes "gone") good_update one_cached)
apply_update_removed_example =
    apply_update_removed one_cached (cache_certificate-Inv empty_cache cached_cert empty_cache-Inv)
      (codes "gone") good_update
      (unfold cache_certificate index_names get put delete text_eq in refl) (λ e. cc)
