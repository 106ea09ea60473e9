-- ===== src/Crypto/KeyPem.antt =====
-- Private keys of crypto.go through PEM and back.
use otomatik.Base.{◌≡◌, refl, sym, ap, ◌∙◌, false, not, ◌&&◌, none, some, subst}
use otomatik.Base.Text.{Text, codes, text_eq, has_suffix}
use otomatik.Base.Errors.{Error, message}
use otomatik.Base.Result.{Result, ok, err, stopped, ok-injective, err-ne-ok}
use otomatik.Crypto.{
  PrivateKey, ecdsa, rsa, ed25519, ed25519_pointer, other, Codec, PemBlock, encode_block,
  encode_private_key, parse_private_key, decode_private_key, decode_found, first_key, Generators,
  as_key, generate_key,
}

abbrev pub IsErr : {A : Type 0} → Result A → Type 0
IsErr r = (e : Error) × (r ≡ err e)

-- What crypto/x509 and encoding/pem document: a block that was encoded is found again, each parser
-- reads what its marshaller wrote and refuses the other formats, and a pointer to an Ed25519 key is
-- not a key that MarshalPKCS8PrivateKey supports.
pub record IsCodec {X : Type 0} (x : Codec X) : Type 0 where
  pub pem_found : (b : PemBlock) → (x.pem_decode (x.pem_encode b)).0 ≡ some b
  pub pkcs1_read : (key : Text) → x.parse_pkcs1 (x.marshal_pkcs1 key) ≡ some key
  pub ec_read : (key der : Text) → x.marshal_ec key ≡ ok der → x.parse_ec der ≡ some key
  pub ec_not_pkcs1 : (key der : Text) → x.marshal_ec key ≡ ok der → x.parse_pkcs1 der ≡ none
  pub ec_not_pkcs8 : (key der : Text) → x.marshal_ec key ≡ ok der → x.parse_pkcs8 der ≡ none
  pub pointer_unsupported : (key : Text) → IsErr (x.marshal_pkcs8 (ed25519_pointer key))

module _ {X : Type 0} (x : Codec X) (law : IsCodec x) where
  decode_block :
      (pem_type : Text) (der : Text)
      → not (text_eq pem_type (codes "PRIVATE KEY"))
          && not (has_suffix pem_type (codes " PRIVATE KEY"))
        ≡ false
      → decode_private_key x (x.pem_encode (record { kind = pem_type; bytes = der }))
        ≡ parse_private_key x der
  unfolding decode_private_key decode_found
  decode_block pem_type der h =
      ap (decode_found x) (law.pem_found (record { kind = pem_type; bytes = der })) ∙ rw h refl

  decode_rsa : (key : Text) → parse_private_key x (x.marshal_pkcs1 key) ≡ ok (rsa key)
  unfolding parse_private_key first_key
  decode_rsa key = rw (law.pkcs1_read key) refl

  decode_ec :
      (key der : Text) → x.marshal_ec key ≡ ok der → parse_private_key x der ≡ ok (ecdsa key)
  unfolding parse_private_key first_key
  decode_ec key der h =
      rw (law.ec_not_pkcs1 key der h, law.ec_not_pkcs8 key der h, law.ec_read key der h) refl

  by_marshalled :
      (key t : Text) (r : Result Text)
      → x.marshal_ec key ≡ r
      → encode_block x "EC" r ≡ ok t
      → decode_private_key x t ≡ ok (ecdsa key)
  unfolding encode_block
  by_marshalled key t (ok der) e h =
      subst (λ u. decode_private_key x u ≡ ok (ecdsa key)) (ok-injective h)
        (decode_block (codes "EC PRIVATE KEY") der (unfold text_eq in refl) ∙ decode_ec key der e)
  by_marshalled key t (err a) e h = absurd (cc)
  by_marshalled key t (stopped k) e h = absurd (cc)

  -- A private key that encodePrivateKey encodes is decoded by decodePrivateKey as the same key.
  pub decode-encode_private_key :
      (key : PrivateKey) (t : Text)
      → encode_private_key x key ≡ ok t
      → decode_private_key x t ≡ ok key
  unfolding encode_private_key encode_block
  decode-encode_private_key (ecdsa key) t h = by_marshalled key t (x.marshal_ec key) refl h
  decode-encode_private_key (rsa key) t h =
      subst (λ u. decode_private_key x u ≡ ok (rsa key)) (ok-injective h)
        (decode_block (codes "RSA PRIVATE KEY") (x.marshal_pkcs1 key) (unfold text_eq in refl)
          ∙ decode_rsa key)
  decode-encode_private_key (ed25519 key) t h = absurd (cc)
  decode-encode_private_key (ed25519_pointer key) t h =
      absurd (err-ne-ok (sym (ap (encode_block x "ED25519") (law.pointer_unsupported key).1) ∙ h))
  decode-encode_private_key (other key) t h = absurd (cc)

-- The standard key source of type `ed25519`, whatever the generators do, makes no key that
-- encodePrivateKey encodes: a key that it makes is refused as of an unsupported type.
pub ed25519_never_encodes :
    {X S : Type 0} (x : Codec X) (g : Generators S) (s t : S) (key : PrivateKey)
    → generate_key g (codes "ed25519") s ≡ (ok key, t)
    → encode_private_key x key ≡ err (message "unsupported key type")
unfolding generate_key encode_private_key text_eq
ed25519_never_encodes x g s t key h = made (g.generate_ed25519 s) h
  where
    made :
        (r : Result Text × _)
        → as_key ed25519 r ≡ (ok key, t)
        → encode_private_key x key ≡ err (message "unsupported key type")
    made (ok k, u) e =
        subst (λ a. encode_private_key x a ≡ err (message "unsupported key type"))
          (ok-injective (ap (λ r. r.0) e)) refl
    made (err a, u) e = absurd (cc)
    made (stopped k, u) e = absurd (cc)
