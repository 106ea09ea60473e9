-- ===== src/Users.antt =====
-- user.go: the accounts at an authority, in the storage; the address of one is in Users/Email.antt.
pub mod Email
pub mod Saved
pub mod Recent
use otomatik.Base.{
  ℕ, zero, suc, ◌+◌, ◌-◌, Bool, true, false, not, ◌&&◌, List, [], ◌∷◌, ◌++◌, Option, none, some,
  ltb, leb, ◌==◌, if◌then◌else◌, length, get_or, take,
}
use otomatik.Base.Text.{Text, codes, slash, is_empty, to_lower, trim_space, split}
use otomatik.Base.Errors.{Error, message}
use otomatik.Base.Map.{Map, get, put}
use otomatik.Base.Result.{
  Result, ok, err, stopped, panicked, Action, next, ◌>>=◌, ◌>>◌, pure, raise, give, call,
  with_error,
}
use otomatik.Acme.{AcmeManager, Url, issuer_key}
use otomatik.Cache.{shift}
use otomatik.Certificate.Making.{X509}
use otomatik.Crypto.{PrivateKey, Codec, encode_private_key, decode_private_key}
use otomatik.Keys.{path_join}
use otomatik.Storage.{Storage, KeyInfo, KeyValue, store_tx, safe}

-- user; `registration` is the resource as JSON has it, and no key is nil.
pub record User : Type 0 where
  pub email : Text
  pub registration : Text
  pub key : Option PrivateKey

-- What accounts need: the storage, crypto/x509, encoding/json of a user without its key, where a user
-- that is read may be null, ecdsa.GenerateKey, url.Parse, sort.Slice by a test, and, of the prompt, what
-- getAgreementURL and reading a line give.
pub record Accounts (S : Type 0) : Type 0 where
  pub storage : Storage S
  pub codec : Codec X509
  pub marshal : User → Result Text
  pub unmarshal : Text → Result (Option User)
  pub generate_key : S → Result PrivateKey × S
  pub parse_url : Text → Option Url
  pub sort_slice : (Text → Text → Bool) → List Text → List Text
  pub get_agreement_url : Text → S → Result Text × S
  pub read_line : S → Result Text × S

abbrev pub prefix_acme : Text
prefix_acme = codes "acme"

-- emptyEmail
abbrev pub empty_email : Text
empty_email = codes "default"

-- The part before the first `@`, if there is one
unfoldable pub before_at : Text → Option Text
before_at [] = none
before_at (c ∷ t) =
    let rest = before_at t in
    if c == b'@'
    then some []
    else elim rest as (λ _. Option Text) [ none ↦ none | some u ↦ some (c ∷ u) ]

-- The username of an address with one
abbrev pub username_of : Text → Option Text → Text
username_of email none = email
username_of [] (some u) = u
username_of (c ∷ t) (some []) = t
username_of (c ∷ t) (some (d ∷ u)) = d ∷ u

-- emailUsername
unfoldable pub email_username : Text → Text
unfolding before_at
email_username email = username_of email (before_at email)

abbrev pub or_text : Text → Text → Text
or_text t d = if is_empty t then d else t

module _ {S : Type 0} (x : Accounts S) where
  -- storageKeyCAPrefix
  unfoldable pub storage_key_ca_prefix : Text → Text
  storage_key_ca_prefix ca_url = path_join (prefix_acme ∷ safe (issuer_key x.parse_url ca_url) ∷ [])

  -- storageKeyUsersPrefix
  unfoldable pub storage_key_users_prefix : Text → Text
  storage_key_users_prefix ca_url = path_join (storage_key_ca_prefix ca_url ∷ codes "users" ∷ [])

  -- storageKeyUserPrefix
  unfoldable pub storage_key_user_prefix : Text → Text → Text
  storage_key_user_prefix ca_url email =
      path_join (storage_key_users_prefix ca_url ∷ safe (or_text email empty_email) ∷ [])

  -- storageSafeUserKey
  unfoldable pub storage_safe_user_key : Text → Text → Text → Text → Text
  storage_safe_user_key ca email default_filename extension =
      let email' = to_lower (or_text email empty_email) in
      let filename = safe (or_text (email_username email') default_filename) in
      path_join (storage_key_user_prefix ca email' ∷ (filename ++ extension) ∷ [])

  -- storageKeyUserReg
  unfoldable pub storage_key_user_reg : Text → Text → Text
  unfolding storage_safe_user_key
  storage_key_user_reg ca_url email =
      storage_safe_user_key ca_url email (codes "registration") (codes ".json")

  -- storageKeyUserPrivateKey
  unfoldable pub storage_key_user_private_key : Text → Text → Text
  unfolding storage_safe_user_key
  storage_key_user_private_key ca_url email =
      storage_safe_user_key ca_url email (codes "private") (codes ".key")

  -- newUser
  unfoldable pub new_user : Text → Action S User
  new_user email = with_error (λ e. message "generating private key") x.generate_key >>= λ key.
      pure (record { email = email; registration = codes "null"; key = some key })

  abbrev pub with_key : Option User → Result PrivateKey → Result User
  with_key none key = stopped panicked
  with_key (some u) (ok key) = ok (record u { key = some key })
  with_key (some u) (err e) = err e
  with_key (some u) (stopped h) = stopped h

  abbrev pub read_user : Text → Result (Option User) → Result User
  read_user key_bytes (ok u) = with_key u (decode_private_key x.codec key_bytes)
  read_user key_bytes (err e) = err e
  read_user key_bytes (stopped h) = stopped h

  -- getUser after the second Load, and after the first. Every error is an ErrNotExist, which has no
  -- method of its own.
  unfoldable pub user_by_key : Text → Text → Result Text × S → Result User × S
  unfolding new_user
  user_by_key email reg_bytes (ok key_bytes, s) = (read_user key_bytes (x.unmarshal reg_bytes), s)
  user_by_key email reg_bytes (err e, s) = new_user email s
  user_by_key email reg_bytes (stopped h, s) = (stopped h, s)

  unfoldable pub user_by_reg : Text → Text → Result Text × S → Result User × S
  unfolding user_by_key
  user_by_reg ca email (ok reg_bytes, s) =
      user_by_key email reg_bytes (x.storage.load (storage_key_user_private_key ca email) s)
  user_by_reg ca email (err e, s) = new_user email s
  user_by_reg ca email (stopped h, s) = (stopped h, s)

  -- getUser
  unfoldable pub get_user : Text → Text → Action S User
  unfolding user_by_reg
  get_user ca email s = user_by_reg ca email (x.storage.load (storage_key_user_reg ca email) s)

  abbrev pub encode_user_key : Option PrivateKey → Result Text
  encode_user_key none = err (message "unsupported key type")
  encode_user_key (some key) = encode_private_key x.codec key

  unfoldable pub user_pairs : Text → User → Text → Text → List KeyValue
  user_pairs ca user reg_bytes key_bytes =
      record { key = storage_key_user_reg ca user.email; value = reg_bytes }
      ∷ record { key = storage_key_user_private_key ca user.email; value = key_bytes }
      ∷ []

  -- saveUser
  unfoldable pub save_user : Text → User → Action S (Unit {0})
  unfolding user_pairs
  save_user ca user = give (x.marshal user) >>= λ reg_bytes.
      give (encode_user_key user.key) >>= λ key_bytes.
      call (store_tx x.storage (user_pairs ca user reg_bytes key_bytes))
