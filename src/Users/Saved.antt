-- ===== src/Users/Saved.antt =====
-- user.go: an account saved and read back.
use otomatik.Base.{◌≡◌, refl, sym, ap, ◌∙◌, subst, false, [], ◌∷◌, ◌++◌, Option, none, some, arith}
use otomatik.Base.Text.{Text, codes, dot, text_eq, text_eq_refl, to_lower}
use otomatik.Base.Errors.{Error}
use otomatik.Base.Result.{
  Result, ok, err, stopped, give, err-ne-ok, stopped-ne-ok, ok-injective, >>=-eq-ok, as_result,
}
use otomatik.Crypto.{PrivateKey, decode_private_key}
use otomatik.Crypto.KeyPem.{IsCodec, decode-encode_private_key}
use otomatik.Keys.Paths.{last, last-append, last-path_join}
use otomatik.Keys.Sites.{differ, file-IsPart}
use otomatik.Storage.{safe, store_tx}
use otomatik.Storage.Transaction.{MapLike, IsReadable, written, store_tx_stores}
use otomatik.Users.{
  User, Accounts, or_text, empty_email, email_username, storage_key_user_prefix,
  storage_safe_user_key, storage_key_user_reg, storage_key_user_private_key, user_pairs,
  encode_user_key, save_user, get_user, user_by_reg, user_by_key, read_user, with_key,
}

-- What encoding/json documents: a user that was written is read back, without its key, which is not
-- exported.
pub record IsUserJson {S : Type 0} (x : Accounts S) : Type 0 where
  pub read :
      (user : User) (t : Text)
      → x.marshal user ≡ ok t
      → x.unmarshal t ≡ ok (some (record user { key = none }))

module _ {S : Type 0} (x : Accounts S) where
  last-user_reg : (ca email : Text) → last (storage_key_user_reg x ca email) ≡ b'n'
  unfolding storage_key_user_reg storage_safe_user_key
  last-user_reg ca email =
      let name =
        or_text (email_username (to_lower (or_text email empty_email))) (codes "registration") in
      last-path_join (storage_key_user_prefix x ca (to_lower (or_text email empty_email)))
        (safe name ++ codes ".json")
        (file-IsPart name b'j' b's' (codes "on") (refl, (refl, (refl, (refl, (refl, tt))))))
      ∙ last-append (safe name) dot (codes "json")

  last-user_key : (ca email : Text) → last (storage_key_user_private_key x ca email) ≡ b'y'
  unfolding storage_key_user_private_key storage_safe_user_key
  last-user_key ca email =
      let name =
        or_text (email_username (to_lower (or_text email empty_email))) (codes "private") in
      last-path_join (storage_key_user_prefix x ca (to_lower (or_text email empty_email)))
        (safe name ++ codes ".key")
        (file-IsPart name b'k' b'e' (b'y' ∷ []) (refl, (refl, (refl, (refl, tt)))))
      ∙ last-append (safe name) dot (codes "key")

  keys_differ :
      (ca email : Text)
      → text_eq (storage_key_user_private_key x ca email) (storage_key_user_reg x ca email) ≡ false
  keys_differ ca email =
      differ (storage_key_user_private_key x ca email) (storage_key_user_reg x ca email)
        (rw (last-user_reg ca email, last-user_key ca email) (λ h. omega (arith, h)))

module _ {S : Type 0} (x : Accounts S) (law : MapLike x.storage) (reads : IsReadable x.storage law)
    (codec : IsCodec x.codec) (json : IsUserJson x) where
  load_some : (k v : Text) (s : S) → law.view s k ≡ some v → (x.storage.load k s).0 ≡ ok v
  load_some k v s has = reads.loaded k s ∙ rw has refl

  user_by_key-ok :
      (email reg_bytes key_bytes : Text) (r : Result Text × S)
      → r.0 ≡ ok key_bytes
      → (user_by_key x email reg_bytes r).0 ≡ read_user x key_bytes (x.unmarshal reg_bytes)
  unfolding user_by_key
  user_by_key-ok email reg_bytes key_bytes (ok k, s) e =
      ap (λ k. read_user x k (x.unmarshal reg_bytes)) (ok-injective e)
  user_by_key-ok email reg_bytes key_bytes (err y, s) e = absurd (err-ne-ok e)
  user_by_key-ok email reg_bytes key_bytes (stopped y, s) e = absurd (stopped-ne-ok e)

  user_by_reg-ok :
      (ca email reg_bytes key_bytes : Text) (r : Result Text × S)
      → r.0 ≡ ok reg_bytes
      → law.view r.1 (storage_key_user_private_key x ca email) ≡ some key_bytes
      → (user_by_reg x ca email r).0 ≡ read_user x key_bytes (x.unmarshal reg_bytes)
  unfolding user_by_reg
  user_by_reg-ok ca email reg_bytes key_bytes (ok b, s) e has =
      user_by_key-ok email b key_bytes (x.storage.load (storage_key_user_private_key x ca email) s)
        (load_some _ key_bytes s has)
      ∙ ap (λ b. read_user x key_bytes (x.unmarshal b)) (ok-injective e)
  user_by_reg-ok ca email reg_bytes key_bytes (err y, s) e has = absurd (err-ne-ok e)
  user_by_reg-ok ca email reg_bytes key_bytes (stopped y, s) e has = absurd (stopped-ne-ok e)

  -- Two loads that find their keys
  get_user-found :
      (ca email reg_bytes key_bytes : Text) (s : S)
      → law.view s (storage_key_user_reg x ca email) ≡ some reg_bytes
      → law.view s (storage_key_user_private_key x ca email) ≡ some key_bytes
      → (get_user x ca email s).0 ≡ read_user x key_bytes (x.unmarshal reg_bytes)
  unfolding get_user
  get_user-found ca email reg_bytes key_bytes s reg key =
      user_by_reg-ok ca email reg_bytes key_bytes
        (x.storage.load (storage_key_user_reg x ca email) s) (load_some _ reg_bytes s reg)
        (reads.load_keeps (storage_key_user_reg x ca email) s
            (storage_key_user_private_key x ca email)
          ∙ key)

  stored_none : (r : Option Error × S) (t : S) → as_result r ≡ (ok tt, t) → (r.0 ≡ none) × (r.1 ≡ t)
  stored_none (none, u) t h = (refl, ap (λ r. r.1) h)
  stored_none (some e, u) t h = absurd (err-ne-ok (ap (λ r. r.0) h))

  pairs_stored :
      (ca : Text) (user : User) (reg_bytes key_bytes : Text) (s t : S)
      → as_result (store_tx x.storage (user_pairs x ca user reg_bytes key_bytes) s) ≡ (ok tt, t)
      → (law.view t (storage_key_user_reg x ca user.email) ≡ some reg_bytes)
        × (law.view t (storage_key_user_private_key x ca user.email) ≡ some key_bytes)
  unfolding user_pairs
  pairs_stored ca user reg_bytes key_bytes s t h =
      let pairs = user_pairs x ca user reg_bytes key_bytes in
      let (no_error, after) = stored_none (store_tx x.storage pairs s) t h in
      let at : (j : Text) → law.view t j ≡ written pairs j (law.view s j) = λ j.
        subst (λ u. law.view u j ≡ written pairs j (law.view s j)) after
          (store_tx_stores x.storage law pairs s no_error j) in
      (
        at (storage_key_user_reg x ca user.email)
            ∙ rw (keys_differ x ca user.email, text_eq_refl (storage_key_user_reg x ca user.email))
                refl,
        at (storage_key_user_private_key x ca user.email)
            ∙ rw (text_eq_refl (storage_key_user_private_key x ca user.email)) refl,
      )

  encoded :
      (key : Option PrivateKey) (t : Text)
      → encode_user_key x key ≡ ok t
      → (k : PrivateKey) × (key ≡ some k) × (decode_private_key x.codec t ≡ ok k)
  encoded none t h = absurd (err-ne-ok h)
  encoded (some k) t h = (k, refl, decode-encode_private_key x.codec codec k t h)

  -- Over a storage that is a map whose loads read it, with JSON that reads what it wrote but for the
  -- key, and the documented behaviour of crypto/x509 and encoding/pem: when saveUser returns no
  -- error, getUser for the same authority and the address of the user returns the same user, with
  -- its key.
  pub get-save_user :
      (ca : Text) (user : User) (s t : S)
      → save_user x ca user s ≡ (ok tt, t)
      → (get_user x ca user.email t).0 ≡ ok user
  unfolding save_user
  get-save_user ca user s t h =
      let (reg_bytes, s1, marshalled, h1) = >>=-eq-ok (give (x.marshal user)) _ s h in
      let (key_bytes, s2, encoded_as, h2) = >>=-eq-ok (give (encode_user_key x user.key)) _ s1 h1 in
      let (k, is_k, decodes) = encoded user.key key_bytes (ap (λ r. r.0) encoded_as) in
      let (reg, key) = pairs_stored ca user reg_bytes key_bytes s2 t h2 in
      get_user-found ca user.email reg_bytes key_bytes t reg key
      ∙ ap (read_user x key_bytes) (json.read user reg_bytes (ap (λ r. r.0) marshalled))
      ∙ ap (with_key x (some (record user { key = none }))) decodes
      ∙ ap (λ o. ok (record user { key = o })) (sym is_k)
