-- ===== src/Tests/Renew.antt =====
-- A run of RenewManagedCertificates.
use otomatik.Base.{◌≡◌, refl, ap, List, [], ◌∷◌, ◌++◌, true, false}
use otomatik.Base.Map.{Map, get, put, delete}
use otomatik.Base.Text.{Text, text_eq}
use otomatik.Base.Result.{ok, next}
use otomatik.Certificate.{Certificate, zero_certificate}
use otomatik.Manage.{cert_is_due, managed_cert_in_storage_expires_soon}
use otomatik.Maintain.Renew.{
  Configs, Queues, no_queues, renew_managed_certificates, scan, scan_cert, scan_named,
  scan_configured, scan_due, queue_due, get_config, own_config, reload_all, queue_all,
  queue_renewal_task, delete_all,
}
use otomatik.Maintain.Queued.Scan.{AllDue, IsSeen}
use otomatik.Maintain.Queued.{tasks, renew_managed_certificates-queues}
use otomatik.Resources.{load_cert_resource, save_cert_resource}
use otomatik.Storage.{store_tx}
use otomatik.Keys.{site_cert, names_key, site_private_key, site_meta}
use otomatik.Certificate.Making.{needs_renewal}
use otomatik.Tests.Config.{all_granting}
use otomatik.Tests.Manage.{at_rest, loaded}
use otomatik.Tests.Ocsp.{answering}

-- One configuration for every certificate
abbrev one_config : Configs (Map Text) (Unit {0})
one_config = record {
  get_config_for_cert = λ cert. ok tt;
  is_own = λ c. true;
  config = λ c. all_granting;
  stapler = λ c. answering;
  is_on_demand = λ c. false;
}

abbrev visited : List Certificate
visited = zero_certificate ∷ loaded ∷ []

renew_test : (renew_managed_certificates one_config visited at_rest).0 ≡ ok tt
unfolding renew_managed_certificates scan scan_cert scan_named scan_configured scan_due queue_due
    get_config own_config reload_all queue_all queue_renewal_task delete_all next cert_is_due
    managed_cert_in_storage_expires_soon load_cert_resource needs_renewal get save_cert_resource
    store_tx text_eq site_cert names_key site_private_key site_meta put delete
renew_test = refl

renew_managed_certificates-queues_example :
    (queue : List Certificate) × ((renew_managed_certificates one_config visited
        at_rest).1.submitted
      ≡ tasks queue [])
    × AllDue one_config 5 (λ c s. refl) queue
    × ((before : List Certificate) (cert : Certificate) (after : List Certificate)
        → visited ≡ before ++ cert ∷ after
        → (q : Queues (Unit {0})) × (s : Map Text) × (scan one_config before no_queues
              at_rest.world.outside
            ≡ (ok q, s))
          × IsSeen one_config 5 (λ c s. refl) queue cert s)
renew_managed_certificates-queues_example =
    renew_managed_certificates-queues one_config 5 (λ c s. refl) visited at_rest
      {i' = (renew_managed_certificates one_config visited at_rest).1}
      (ap (λ r. (r, (renew_managed_certificates one_config visited at_rest).1)) renew_test)
