-- ===== src/Config.antt =====
-- config.go: obtaining, renewing and revoking certificates, and its checks of the storage; storage.go:
-- the list of own locks.
pub mod Issuance
pub mod Locks
pub mod Present
pub mod Stored
pub mod Failing
pub mod Revoked
use otomatik.Base.{
  ℕ, Bool, true, false, not, ◌&&◌, ◌||◌, List, [], ◌∷◌, ◌++◌, Option, none, some, if◌then◌else◌,
}
use otomatik.Base.Text.{Text, codes, text_eq, contains_char, slash}
use otomatik.Base.Errors.{Error, message, wrapped}
use otomatik.Base.Occurs.{without}
use otomatik.Base.Result.{
  Result, ok, err, stopped, out_of_fuel, Action, next, ◌>>=◌, ◌>>◌, pure, raise, give, call,
  as_result, ignore, with_error, renamed,
}
use otomatik.Certificate.{Certificate}
use otomatik.Certificate.Making.{X509, Pki, make_certificate, needs_renewal}
use otomatik.Crypto.{PrivateKey, Codec, Csr, names_from_csr, encode_private_key, decode_private_key}
use otomatik.Keys.{site_cert, site_private_key, site_meta}
use otomatik.Resources.{CertificateResource, Json, save_cert_resource, load_cert_resource}
use otomatik.Retry.{Effects, do_with_retry}
use otomatik.Storage.{Storage}

-- IssuedCertificate; `metadata` is its JSON.
pub record IssuedCertificate : Type 0 where
  pub certificate : Text
  pub metadata : Text

-- A Config with the libraries that it calls, on a state `S` of the storage, the authority, the clock
-- and the source of randomness. `issue` takes the number of attempts that the context has, if it has
-- one; `pre_check` is there if the issuer is a PreChecker; `listens` is whether OnEvent is set;
-- `parse_ip` and `parse_url` give the texts of what they parsed; `create_request` is
-- x509.CreateCertificateRequest and then x509.ParseCertificateRequest.
pub record Config (S : Type 0) : Type 0 where
  pub storage : Storage S
  pub json : Json
  pub pki : Pki
  pub codec : Codec X509
  pub window : ℕ → ℕ
  pub issuer_key : Text
  pub issue : Option ℕ → Csr → S → Result IssuedCertificate × S
  pub pre_check : Option (List Text → Bool → S → Option Error × S)
  pub revoke : CertificateResource → S → Option Error × S
  pub generate_key : S → Result PrivateKey × S
  pub parse_ip : Text → Option Text
  pub parse_url : Text → Option Text
  pub create_request : Csr → PrivateKey → S → Result Csr × S
  pub must_staple : Bool
  pub listens : Bool
  pub now : S → ℕ × S
  pub wait : ℕ → S → Bool × S
  pub test_key : S → Text × S
  pub test_contents : S → Result Text × S

-- A call of OnEvent.
pub record Event : Type 0 where
  pub name : Text
  pub subjects : List Text

-- The state, with the keys of the variable `locks` and the calls of OnEvent so far, the last one
-- first. All configurations have the same storage.
pub record World (S : Type 0) : Type 0 where
  pub outside : S
  pub own_locks : List Text
  pub events : List Event

abbrev pub back : {S A : Type 0} → World S → Result A × S → Result A × World S
back w (r, s) = (r, record w { outside = s })

-- A call of what is outside.
abbrev pub out : {S A : Type 0} → Action S A → Action (World S) A
out m w = back w (m w.outside)

-- obtainLock after Lock
abbrev pub locked : {S : Type 0} → Text → Option Error × S → World S → Option Error × World S
locked key (none, s) w = (none, record w { outside = s; own_locks = key ∷ without key w.own_locks })
locked key (some e, s) w = (some e, record w { outside = s })

-- releaseLock after Unlock
abbrev pub unlocked : {S : Type 0} → Text → Option Error × S → World S → Option Error × World S
unlocked key (none, s) w = (none, record w { outside = s; own_locks = without key w.own_locks })
unlocked key (some e, s) w = (some e, record w { outside = s })

-- obtainLock
unfoldable pub obtain_lock : {S : Type 0} → Storage S → Text → World S → Option Error × World S
obtain_lock x key w = locked key (x.lock key w.outside) w

-- releaseLock
unfoldable pub release_lock : {S : Type 0} → Storage S → Text → World S → Option Error × World S
release_lock x key w = unlocked key (x.unlock key w.outside) w

-- The loop of CleanUpOwnLocks over the keys of `locks`
unfoldable pub clean_up_locks : {S : Type 0} → Storage S → List Text → World S → World S
unfolding release_lock
clean_up_locks x [] w = w
clean_up_locks x (key ∷ keys) w = clean_up_locks x keys (release_lock x key w).1

-- CleanUpOwnLocks
unfoldable pub clean_up_own_locks : {S : Type 0} → Storage S → World S → World S
unfolding clean_up_locks
clean_up_own_locks x w = clean_up_locks x w.own_locks w

-- Where generateCSR puts a name in its template that is no address, by the URL that it parses to
unfoldable pub place_name : Option Text → Text → Csr → Csr
place_name none name csr = record csr { dns_names = csr.dns_names ++ name ∷ [] }
place_name (some u) name csr =
    if contains_char slash name
    then record csr { uris = csr.uris ++ u ∷ [] }
    else record csr { dns_names = csr.dns_names ++ name ∷ [] }

-- And by the IP address that it parses to
unfoldable pub place_subject : Option Text → Option Text → Text → Csr → Csr
unfolding place_name
place_subject (some ip) u name csr = record csr { ip_addresses = csr.ip_addresses ++ ip ∷ [] }
place_subject none u name csr =
    if contains_char b'@' name
    then record csr { email_addresses = csr.email_addresses ++ name ∷ [] }
    else place_name u name csr

unfoldable pub add_subject : (Text → Option Text) → (Text → Option Text) → Text → Csr → Csr
unfolding place_subject
add_subject parse_ip parse_url name csr = place_subject (parse_ip name) (parse_url name) name csr

unfoldable pub add_subjects : (Text → Option Text) → (Text → Option Text) → List Text → Csr → Csr
unfolding add_subject
add_subjects parse_ip parse_url [] csr = csr
add_subjects parse_ip parse_url (name ∷ sans) csr =
    add_subjects parse_ip parse_url sans (add_subject parse_ip parse_url name csr)

abbrev pub empty_template : Bool → Csr
empty_template must_staple = record {
  dns_names = [];
  email_addresses = [];
  ip_addresses = [];
  uris = [];
  must_staple = must_staple;
}

module _ {S : Type 0} (cfg : Config S) where
  -- generateCSR
  unfoldable pub generate_csr : PrivateKey → List Text → Action S Csr
  unfolding add_subjects
  generate_csr private_key sans =
      cfg.create_request
        (add_subjects cfg.parse_ip cfg.parse_url sans (empty_template cfg.must_staple)) private_key

  -- emit
  unfoldable pub emit : Text → List Text → World S → World S
  emit event_name subjects w =
      if cfg.listens
      then record w { events = record { name = event_name; subjects = subjects } ∷ w.events }
      else w

  -- lockKey of an operation
  unfoldable pub lock_key : Text → Text → Text
  lock_key op domain_name = op ++ b'_' ∷ (domain_name ++ b'_' ∷ cfg.issuer_key)

  -- Exists of one key after another, until one is not there
  unfoldable pub all_exist : List Text → S → Bool × S
  all_exist [] s = (true, s)
  all_exist (key ∷ keys) s =
      let (found, s') = cfg.storage.exists key s in
      let rest = all_exist keys s' in if found then rest else (false, s')

  -- storageHasCertResources
  unfoldable pub storage_has_cert_resources : Text → S → Bool × S
  unfolding all_exist
  storage_has_cert_resources domain = all_exist (
      site_cert cfg.issuer_key domain
      ∷ site_private_key cfg.issuer_key domain
      ∷ site_meta cfg.issuer_key domain
      ∷ [])

  -- checkStorage after Store: the error of Delete, which the deferred function assigns to a variable
  -- that is no result, is lost.
  unfoldable pub check_loaded : Text → Text → Action S (Unit {0})
  check_loaded key contents s =
      let (r, s') = cfg.storage.load key s in
      let result : Result (Unit {0}) = elim r [
        | ok loaded ↦
            if text_eq contents loaded
            then ok tt
            else err (message "load yielded different value than was stored")
        | err e ↦ err e
        | stopped h ↦ stopped h
      ] in
      (result, (cfg.storage.delete key s').1)

  -- checkStorage
  unfoldable pub check_storage : Action S (Unit {0})
  unfolding check_loaded
  check_storage s =
      let (key, s') = cfg.test_key s in
      (cfg.test_contents >>= λ contents.
      call (cfg.storage.store key contents) >> check_loaded key contents)
        s'

  abbrev pub pre_checked :
      Option (List Text → Bool → S → Option Error × S) → List Text → Bool → Action S (Unit {0})
  pre_checked none names interactive = pure tt
  pre_checked (some pre_check) names interactive = call (pre_check names interactive)

  -- getPrecheckedIssuer; the issuer that it returns is the configuration's.
  unfoldable pub get_prechecked_issuer : List Text → Bool → Action S (Unit {0})
  unfolding check_storage
  get_prechecked_issuer names interactive =
      with_error (λ e. message "failed storage check: storage is probably misconfigured")
        check_storage
      >> pre_checked cfg.pre_check names interactive

  -- managedCertNeedsRenewal
  unfoldable pub cert_needs_renewal : Result Certificate → S → Result Bool × S
  cert_needs_renewal (ok cert) s =
      let (t, s') = cfg.now s in
      let (t', s'') = cfg.now s' in (needs_renewal cfg.window cert.leaf t', s'')
  cert_needs_renewal (err e) s = (ok true, s)
  cert_needs_renewal (stopped h) s = (stopped h, s)

  unfoldable pub managed_cert_needs_renewal : CertificateResource → Action S Bool
  unfolding cert_needs_renewal
  managed_cert_needs_renewal cert_res =
      cert_needs_renewal
        (make_certificate cfg.pki cert_res.certificate_pem cert_res.private_key_pem)
