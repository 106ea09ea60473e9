-- ===== src/Tests/Manage.antt =====
-- Runs of loading certificates and of manageAll.
use otomatik.Base.{◌≡◌, refl, ap, true, [], ◌∷◌, none, some}
use otomatik.Base.Text.{Text, codes, text_eq}
use otomatik.Base.Map.{Map, get, put, delete}
use otomatik.Base.Result.{ok, next}
use otomatik.Cache.{empty_cache}
use otomatik.Certificate.{Certificate}
use otomatik.Certificate.Making.{
  other_names, leaf_names, fill_parsed, fill_cert_from_leaf, fill_paired, make_certificate,
}
use otomatik.Config.{emit}
use otomatik.Crypto.{
  parse_certs_from_pem_bundle, parse_certs_loop, parse_round, found_certs, block_certs, add_certs,
}
use otomatik.Keys.{
  ocsp_staple_key, names_key, site_cert, site_private_key, site_meta, certs_prefix,
  certs_site_prefix, path_join, clean_path, push_part, push_parts,
}
use otomatik.Manage.{
  Instance, with_ocsp, make_certificate_with_ocsp, load_managed_certificate, cached,
  cache_managed_certificate,
}
use otomatik.Manage.Loaded.{IsMade, cached_is_managed}
use otomatik.Ocsp.{
  staple_ocsp, load_staple, stored_staple, apply_loaded, apply_staple, apply_good, apply_fetched,
  get_ocsp_for_cert, ask_for, ask_responder, get_issuer, fresh_ocsp, middle, valid_until,
}
use otomatik.OnDemand.{OnDemandConfig}
use otomatik.Resources.{save_cert_resource, load_cert_resource, store_resource, resource_pairs}
use otomatik.Storage.{store_tx, store_all, safe, replace_special, keep_key_chars}
use otomatik.Tests.Config.{all_granting, with_a}
use otomatik.Tests.Ocsp.{answering}

abbrev pub allowing : OnDemandConfig
allowing = record { decision_func = none; host_whitelist = codes "A" ∷ [] }

abbrev pub at_rest : Instance (Map Text)
at_rest = record {
  world = with_a;
  cert_cache = empty_cache;
  on_demand = some allowing;
  submitted = [];
}

abbrev pub loaded : Certificate
loaded = record {
  chain = (5 ∷ []) ∷ [];
  leaf = some (record { not_before = 1; not_after = 9 });
  ocsp_staple = [];
  names = codes "a.com" ∷ codes "a.com" ∷ [];
  tags = [];
  ocsp = none;
  hash = codes "hash";
  managed = true;
}

load_test : (cache_managed_certificate all_granting answering (codes "a") at_rest).0 ≡ ok loaded
unfolding next cache_managed_certificate load_managed_certificate make_certificate_with_ocsp
    with_ocsp cached other_names leaf_names fill_parsed fill_cert_from_leaf fill_paired
    make_certificate ocsp_staple_key staple_ocsp load_staple stored_staple apply_loaded apply_staple
    apply_good apply_fetched get_ocsp_for_cert ask_for ask_responder get_issuer fresh_ocsp middle
    valid_until parse_certs_from_pem_bundle parse_certs_loop parse_round found_certs block_certs
    add_certs load_cert_resource save_cert_resource store_resource resource_pairs store_tx store_all
    get put delete text_eq safe replace_special keep_key_chars site_cert site_private_key site_meta
    names_key certs_site_prefix certs_prefix path_join clean_path push_part push_parts emit
load_test = refl

cached_is_managed_example :
    IsMade loaded
    × (loaded.managed ≡ true)
    × ((found : Certificate) × (get
            (cache_managed_certificate all_granting answering
              (codes "a")
              at_rest).1.cert_cache.cache
            loaded.hash
          ≡ some found))
cached_is_managed_example =
    cached_is_managed all_granting answering (codes "a") at_rest
      (cache_managed_certificate all_granting answering (codes "a") at_rest).1 loaded
      (ap (λ r. (r, (cache_managed_certificate all_granting answering (codes "a") at_rest).1))
        load_test)
