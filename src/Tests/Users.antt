-- ===== src/Tests/Users.antt =====
-- Runs of the accounts of user.go.
use otomatik.Base.{
  ◌≡◌, refl, ap, true, false, if◌then◌else◌, [], ◌∷◌, ◌++◌, Option, none, some, length, take, drop,
  sym, ◌∙◌,
}
use otomatik.Base.Text.{Text, codes, text_eq}
use otomatik.Base.Map.{Map}
use otomatik.Base.Errors.{not_exist}
use otomatik.Base.Result.{Result, ok, err, stopped, panicked, next, ok-injective}
use otomatik.Acme.{issuer_key}
use otomatik.Crypto.{ecdsa, encode_private_key, encode_block}
use otomatik.Keys.{path_join}
use otomatik.Storage.{store_tx, store_all, safe}
use otomatik.Users.{
  User, Accounts, storage_key_users_prefix, save_user, get_user, user_pairs, storage_key_user_reg,
  storage_key_user_private_key, storage_key_user_prefix, storage_key_ca_prefix, email_username,
}
use otomatik.Users.Email.{Managed, get_email}
use otomatik.Users.Recent.{get_email_panics}
use otomatik.Users.Saved.{IsUserJson, get-save_user}
use otomatik.Tests.Crypto.{small_codec, small_codec-IsCodec, disk-IsReadable}
use otomatik.Tests.Acme.{manager}
use otomatik.Tests.Storage.{disk, disk-MapLike}

-- The JSON of a user: how long its address is, the address and the registration
abbrev read_json : Text → Result (Option User)
read_json [] = err not_exist
read_json (n ∷ t) = ok (some (record { email = take n t; registration = drop n t; key = none }))

take-append : (a b : Text) → take (length a) (a ++ b) ≡ a
take-append [] b = refl
take-append (c ∷ a) b = ap (λ t. c ∷ t) (take-append a b)

drop-append : (a b : Text) → drop (length a) (a ++ b) ≡ b
drop-append [] b = refl
drop-append (c ∷ a) b = drop-append a b

abbrev me : User
me = record { email = codes "me@x"; registration = codes "null"; key = some (ecdsa (7 ∷ [])) }

abbrev accounts : Accounts (Map Text)
accounts = record {
  storage = disk;
  codec = small_codec;
  marshal = λ u. ok (length u.email ∷ u.email ++ u.registration);
  unmarshal = read_json;
  generate_key = λ s. (ok (ecdsa (9 ∷ [])), s);
  parse_url = λ t. none;
  sort_slice = λ f l. l;
  get_agreement_url = λ ca s. (err not_exist, s);
  read_line = λ s. (err not_exist, s);
}

accounts-IsUserJson : IsUserJson accounts
accounts-IsUserJson = record {
  read =
      λ user t h. ap read_json (sym (ok-injective h)) ∙ ap (λ (u : User). ok (some u)) (same user);
}
  where
    same :
        (user : User)
        → record {
          email = take (length user.email) (user.email ++ user.registration);
          registration = drop (length user.email) (user.email ++ user.registration);
          key = none;
        }
          ≡ record user { key = none }
    same user =
        rw (take-append user.email user.registration, drop-append user.email user.registration) refl

saves_test : (save_user accounts (codes "ca") me []).0 ≡ ok tt
unfolding save_user user_pairs next encode_private_key encode_block store_tx store_all text_eq
    storage_key_user_reg storage_key_user_private_key path_join storage_key_user_prefix
    storage_key_users_prefix storage_key_ca_prefix safe issuer_key email_username
saves_test = refl

get-save_user_example :
    (get_user accounts (codes "ca") (codes "me@x") (save_user accounts (codes "ca") me []).1).0
    ≡ ok me
get-save_user_example =
    get-save_user accounts disk-MapLike disk-IsReadable small_codec-IsCodec accounts-IsUserJson
      (codes "ca") me [] (save_user accounts (codes "ca") me []).1
      (ap (λ r. (r, (save_user accounts (codes "ca") me []).1)) saves_test)

-- A folder of users with a file in it
abbrev with_file : Accounts (Map Text)
with_file = record accounts {
  storage = record disk {
    list = λ prefix recursive s. (ok (codes ".DS_Store" ∷ []), s);
    stat = λ key s. (
      if text_eq key (codes ".DS_Store")
          then ok (record { key = key; modified = 1; size = 1; is_terminal = true })
          else err not_exist,
      s,
    );
  };
}

abbrev no_email : Managed with_file
no_email = record {
  outside = [];
  manager = record manager { email = [] };
  default = record manager { email = [] };
}

get_email_panics_example : (get_email with_file false no_email).0 ≡ stopped panicked
get_email_panics_example =
    get_email_panics with_file (λ s. Unit {0}) (λ f. refl) false no_email (codes ".DS_Store") []
      refl refl refl
      (
        λ s h. (
          record { key = codes ".DS_Store"; modified = 1; size = 1; is_terminal = true },
          unfold text_eq in refl,
          refl,
          tt,
        ),
        tt,
      )
      tt
