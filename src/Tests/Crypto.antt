-- ===== src/Tests/Crypto.antt =====
-- Runs of crypto.go, of filling a certificate and of the resources, over small libraries.
use otomatik.Base.{
  ◌≡◌, refl, ap, ℕ, zero, suc, ◌==◌, subst, List, [], ◌∷◌, Option, none, some, if◌then◌else◌,
}
use otomatik.Base.Text.{Text, codes, text_eq}
use otomatik.Base.Errors.{message}
use otomatik.Base.Map.{Map, get, put, delete}
use otomatik.Base.Outcome.{panic}
use otomatik.Base.Result.{Result, ok, err, ok-injective, err-ne-ok}
use otomatik.Storage.{store_tx, store_all, roll_back, safe, replace_special, keep_key_chars}
use otomatik.Storage.Transaction.{IsReadable}
use otomatik.Certificate.{Certificate}
use otomatik.Certificate.Making.{X509, Pki, fill_cert_from_leaf}
use otomatik.Certificate.Subjects.{filled_twice_panics}
use otomatik.Cache.{empty_cache, cache_certificate, remove_certificate}
use otomatik.Crypto.{ecdsa, PemBlock, Codec, encode_block, encode_private_key, decode_private_key}
use otomatik.Crypto.KeyPem.{IsCodec, decode-encode_private_key}
use otomatik.Keys.{
  names_key, site_cert, site_private_key, site_meta, certs_prefix, certs_site_prefix, path_join,
  clean_path, push_part, push_parts,
}
use otomatik.Tests.Storage.{disk, disk-MapLike}
use otomatik.Resources.{
  CertificateResource, Json, loaded_pems, save_cert_resource, load_cert_resource, store_resource,
  resource_pairs,
}
use otomatik.Resources.RoundTrip.{IsJson, load-save_cert_resource}

-- A block is its type with a 1 before each character, a 0, and the bytes.
abbrev pub pem_text : Text → Text → Text
pem_text [] bytes = 0 ∷ bytes
pem_text (c ∷ kind) bytes = 1 ∷ c ∷ pem_text kind bytes

abbrev pub cons_kind : ℕ → Option PemBlock → Option PemBlock
cons_kind c none = none
cons_kind c (some b) = some (record { kind = c ∷ b.kind; bytes = b.bytes })

abbrev pub read_pem : Text → Option PemBlock
read_pem (zero ∷ bytes) = some (record { kind = []; bytes = bytes })
read_pem (suc n ∷ c ∷ t) = cons_kind c (read_pem t)
read_pem _ = none

pub pem_read :
    (kind bytes : Text)
    → read_pem (pem_text kind bytes) ≡ some (record { kind = kind; bytes = bytes })
pem_read [] bytes = refl
pem_read (c ∷ kind) bytes = ap (cons_kind c) (pem_read kind bytes)

abbrev tagged : ℕ → Text → Option Text
tagged n [] = none
tagged n (m ∷ t) = if m == n then some t else none

abbrev pub small_leaf : X509
small_leaf = record {
  common_name = codes "A.com";
  dns_names = codes "a.com" ∷ [];
  ip_addresses = [];
  email_addresses = [];
  uris = [];
  dates = record { not_before = 1; not_after = 9 };
}

abbrev pub small_codec : Codec X509
small_codec = record {
  marshal_ec = λ key. ok (1 ∷ key);
  marshal_pkcs1 = λ key. 2 ∷ key;
  marshal_pkcs8 = λ key. err (message "unsupported");
  parse_ec = tagged 1;
  parse_pkcs1 = tagged 2;
  parse_pkcs8 = λ der. none;
  parse_certificate = λ der. ok small_leaf;
  pem_encode = λ b. pem_text b.kind b.bytes;
  pem_decode = λ t. (read_pem t, []);
}

pub ok_cons : {a b : Text} → ok (1 ∷ a) ≡ ok b → b ≡ 1 ∷ a
ok_cons h = cc

abbrev pub small_codec-IsCodec : IsCodec small_codec
small_codec-IsCodec = record {
  pem_found = λ b. pem_read b.kind b.bytes;
  pkcs1_read = λ key. refl;
  ec_read = λ key der h. rw (ok_cons h) refl;
  ec_not_pkcs1 = λ key der h. rw (ok_cons h) refl;
  ec_not_pkcs8 = λ key der h. refl;
  pointer_unsupported = λ key. (message "unsupported", refl);
}

decode-encode_private_key_example :
    decode_private_key small_codec (pem_text (codes "EC PRIVATE KEY") (1 ∷ 7 ∷ []))
    ≡ ok (ecdsa (7 ∷ []))
decode-encode_private_key_example =
    decode-encode_private_key small_codec small_codec-IsCodec (ecdsa (7 ∷ []))
      (pem_text (codes "EC PRIVATE KEY") (1 ∷ 7 ∷ [])) encoded
  where
    encoded :
        encode_private_key small_codec (ecdsa (7 ∷ []))
        ≡ ok (pem_text (codes "EC PRIVATE KEY") (1 ∷ 7 ∷ []))
    encoded = unfold encode_private_key encode_block in refl

abbrev pub small_pki : Pki
small_pki = record {
  x509_key_pair = λ c k. ok ((5 ∷ []) ∷ []);
  parse_certificate = λ der. ok small_leaf;
  hash_certificate_chain = λ chain. codes "hash";
}

filled_twice_panics_example :
    (cert : Certificate) × (fill_cert_from_leaf small_pki ((5 ∷ []) ∷ []) ≡ ok cert)
    × (remove_certificate (cache_certificate empty_cache cert) cert ≡ panic)
unfolding text_eq get
filled_twice_panics_example =
    filled_twice_panics small_pki empty_cache (5 ∷ []) [] small_leaf (codes "a.com") refl refl refl
      refl refl refl refl refl refl refl

abbrev pub disk-IsReadable : IsReadable disk disk-MapLike
disk-IsReadable = record {
  loaded = λ k s. refl;
  load_keeps = λ k s j. refl;
  found = λ k s. refl;
  exists_keeps = λ k s j. refl;
}

-- JSON of resources with one name.
abbrev marshal_names : List Text → Text → Result Text
marshal_names [] issuer_data = err (message "no name")
marshal_names (name ∷ []) issuer_data = ok (pem_text name issuer_data)
marshal_names (name ∷ other ∷ names) issuer_data = err (message "more than one name")

-- A pointer to a struct comes back as what it points to.
abbrev pub untyped : Text → Text
untyped [] = []
untyped (c ∷ t) = if c == b'&' then t else c ∷ t

abbrev read_names : Option PemBlock → CertificateResource → Result CertificateResource
read_names none cert = err (message "no JSON")
read_names (some b) cert = ok (record cert { sans = b.kind ∷ []; issuer_data = untyped b.bytes })

abbrev pub small_json : Json
small_json = record {
  marshal = λ cert. marshal_names cert.sans cert.issuer_data;
  unmarshal = λ t cert. read_names (read_pem t) cert;
  decoded = untyped;
}

pub names_read :
    (sans : List Text) (issuer_data meta certificate key : Text)
    → marshal_names sans issuer_data ≡ ok meta
    → read_names (read_pem meta) (loaded_pems certificate key)
      ≡ ok (record {
        sans = sans;
        certificate_pem = certificate;
        private_key_pem = key;
        issuer_data = untyped issuer_data;
      })
names_read [] d meta c k h = absurd (err-ne-ok h)
names_read (name ∷ []) d meta c k h =
    subst
      (λ t.
        read_names (read_pem t) (loaded_pems c k)
        ≡ ok (record {
          sans = name ∷ [];
          certificate_pem = c;
          private_key_pem = k;
          issuer_data = untyped d;
        }))
      (ok-injective h) (ap (λ b. read_names b (loaded_pems c k)) (pem_read name d))
names_read (name ∷ other ∷ names) d meta c k h = absurd (err-ne-ok h)

abbrev pub small_json-IsJson : IsJson small_json
small_json-IsJson = record {
  read = λ cert meta c k h. names_read cert.sans cert.issuer_data meta c k h;
}

abbrev pub site : CertificateResource
site = record {
  sans = codes "a.com" ∷ [];
  certificate_pem = codes "cert";
  private_key_pem = codes "key";
  issuer_data = codes "&{}";
}

abbrev pub site_saved : Map Text
site_saved = (save_cert_resource disk small_json (codes "ca") site []).1

save_test : save_cert_resource disk small_json (codes "ca") site [] ≡ (ok tt, site_saved)
unfolding save_cert_resource store_resource resource_pairs store_tx store_all roll_back get put
    delete text_eq safe replace_special keep_key_chars site_cert site_private_key site_meta
    names_key certs_site_prefix certs_prefix path_join clean_path push_part push_parts
save_test = refl

load-save_cert_resource_example :
    (load_cert_resource disk small_json (codes "ca") (names_key site.sans) site_saved).0
    ≡ ok (record site { issuer_data = codes "{}" })
load-save_cert_resource_example =
    load-save_cert_resource disk disk-MapLike disk-IsReadable small_json small_json-IsJson
      (codes "ca") site [] site_saved save_test
