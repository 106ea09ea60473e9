-- ===== src/Crypto.antt =====
-- crypto.go: private keys to and from PEM, bundles of certificates, the names of a CSR, and the
-- standard key source. What crypto/x509, encoding/pem and the key generators do is `Codec` and
-- `Generators`; a key is its type and its material.
pub mod KeyPem
pub mod Bundles
use Prim.Native.String.{String}
use otomatik.Base.{
  ℕ, zero, suc, Bool, true, false, not, ◌&&◌, ◌||◌, List, [], ◌∷◌, ◌++◌, map, Option, none, some,
  if◌then◌else◌,
}
use otomatik.Base.Text.{Text, codes, is_empty, text_eq, has_suffix}
use otomatik.Base.Errors.{Error, message}
use otomatik.Base.Result.{Result, ok, err, stopped, panicked}

-- crypto.PrivateKey with the types that the switches name. `ed25519` is an ed25519.PrivateKey, which
-- ed25519.GenerateKey and x509.ParsePKCS8PrivateKey give, and `ed25519_pointer` a pointer to one.
pub data PrivateKey : Type 0 where
  ecdsa : Text → PrivateKey
  rsa : Text → PrivateKey
  ed25519 : Text → PrivateKey
  ed25519_pointer : Text → PrivateKey
  other : Text → PrivateKey

-- pem.Block, without its headers
pub record PemBlock : Type 0 where
  pub kind : Text
  pub bytes : Text

-- The functions of crypto/x509 and encoding/pem; `X` is x509.Certificate. Of the parsers of keys
-- the program only asks whether there is an error.
pub record Codec (X : Type 0) : Type 0 where
  pub marshal_ec : Text → Result Text
  pub marshal_pkcs1 : Text → Text
  pub marshal_pkcs8 : PrivateKey → Result Text
  pub parse_ec : Text → Option Text
  pub parse_pkcs1 : Text → Option Text
  pub parse_pkcs8 : Text → Option PrivateKey
  pub parse_certificate : Text → Result X
  pub pem_encode : PemBlock → Text
  pub pem_decode : Text → Option PemBlock × Text

-- The last statements of encodePrivateKey
unfoldable pub encode_block : {X : Type 0} → Codec X → String → Result Text → Result Text
encode_block x pem_type (ok key_bytes) =
    ok (x.pem_encode (record { kind = codes pem_type ++ codes " PRIVATE KEY"; bytes = key_bytes }))
encode_block x pem_type (err e) = err e
encode_block x pem_type (stopped h) = stopped h

-- encodePrivateKey
unfoldable pub encode_private_key : {X : Type 0} → Codec X → PrivateKey → Result Text
unfolding encode_block
encode_private_key x (ecdsa key) = encode_block x "EC" (x.marshal_ec key)
encode_private_key x (rsa key) = encode_block x "RSA" (ok (x.marshal_pkcs1 key))
encode_private_key x (ed25519_pointer key) =
    encode_block x "ED25519" (x.marshal_pkcs8 (ed25519_pointer key))
encode_private_key x _ = err (message "unsupported key type")

-- The switch on the type of a key from PKCS #8
unfoldable pub known_key : PrivateKey → Result PrivateKey
known_key (rsa key) = ok (rsa key)
known_key (ecdsa key) = ok (ecdsa key)
known_key (ed25519 key) = ok (ed25519 key)
known_key _ = err (message "found unknown private key type in PKCS#8 wrapping")

-- The key by the first parser that succeeds
unfoldable pub first_key : Option Text → Option PrivateKey → Option Text → Result PrivateKey
unfolding known_key
first_key (some key) p8 ec = ok (rsa key)
first_key none (some key) ec = known_key key
first_key none none (some key) = ok (ecdsa key)
first_key none none none = err (message "unknown private key type")

unfoldable pub parse_private_key : {X : Type 0} → Codec X → Text → Result PrivateKey
unfolding first_key
parse_private_key x der = first_key (x.parse_pkcs1 der) (x.parse_pkcs8 der) (x.parse_ec der)

-- What decodePrivateKey does with the block that pem.Decode found; without one it reads the type of
-- a nil block.
unfoldable pub decode_found : {X : Type 0} → Codec X → Option PemBlock → Result PrivateKey
unfolding parse_private_key
decode_found x none = stopped panicked
decode_found x (some key_block_der) =
    if not (text_eq key_block_der.kind (codes "PRIVATE KEY"))
      && not (has_suffix key_block_der.kind (codes " PRIVATE KEY"))
    then err (message "unknown PEM header")
    else parse_private_key x key_block_der.bytes

-- decodePrivateKey
unfoldable pub decode_private_key : {X : Type 0} → Codec X → Text → Result PrivateKey
unfolding decode_found
decode_private_key x key_pem_bytes = decode_found x (x.pem_decode key_pem_bytes).0

-- The end of parseCertsFromPEMBundle
unfoldable pub found_certs : {X : Type 0} → List X → Result (List X)
found_certs [] = err (message "no certificates found in bundle")
found_certs (c ∷ cs) = ok (c ∷ cs)

-- A block of the bundle: whether it adds a certificate, and which.
unfoldable pub block_certs : {X : Type 0} → Codec X → PemBlock → Result (List X)
block_certs x block =
    if text_eq block.kind (codes "CERTIFICATE")
    then elim (x.parse_certificate block.bytes) [
      | ok c ↦ ok (c ∷ [])
      | err e ↦ err e
      | stopped h ↦ stopped h
    ]
    else ok []

-- The round of that loop for a block, where `rest` are the rounds after it
unfoldable pub add_certs :
    {X : Type 0}
    → (List X → Option (Result (List X)))
    → List X
    → Result (List X)
    → Option (Result (List X))
add_certs rest certificates (ok cs) = rest (certificates ++ cs)
add_certs rest certificates (err e) = some (err e)
add_certs rest certificates (stopped h) = some (stopped h)

unfoldable pub parse_round :
    {X : Type 0}
    → Codec X
    → (List X → Option (Result (List X)))
    → List X
    → Option PemBlock
    → Option (Result (List X))
unfolding found_certs block_certs add_certs
parse_round x rest certificates none = some (found_certs certificates)
parse_round x rest certificates (some block) = add_certs rest certificates (block_certs x block)

-- The loop of parseCertsFromPEMBundle on fuel, `none` when it is out
unfoldable pub parse_certs_loop :
    {X : Type 0} → Codec X → ℕ → List X → Text → Option (Result (List X))
unfolding parse_round
parse_certs_loop x zero certificates bundle = none
parse_certs_loop x (suc fuel) certificates bundle =
    let (block, bundle') = x.pem_decode bundle in
    parse_round x (λ cs. parse_certs_loop x fuel cs bundle') certificates block

-- parseCertsFromPEMBundle
unfoldable pub parse_certs_from_pem_bundle :
    {X : Type 0} → Codec X → ℕ → Text → Option (Result (List X))
unfolding parse_certs_loop
parse_certs_from_pem_bundle x fuel bundle = parse_certs_loop x fuel [] bundle

-- The subjects of x509.CertificateRequest, and of the template that generateCSR makes: an address and
-- a URL are their texts, which String gives.
pub record Csr : Type 0 where
  pub dns_names : List Text
  pub email_addresses : List Text
  pub ip_addresses : List Text
  pub uris : List Text
  pub must_staple : Bool

-- namesFromCSR
unfoldable pub names_from_csr : Csr → List Text
names_from_csr csr = csr.dns_names ++ csr.email_addresses ++ csr.ip_addresses ++ csr.uris

-- The generators of crypto/ed25519, crypto/ecdsa and crypto/rsa, with the source of randomness
pub record Generators (S : Type 0) : Type 0 where
  pub generate_ed25519 : S → Result Text × S
  pub generate_ecdsa : Text → S → Result Text × S
  pub generate_rsa : ℕ → S → Result Text × S

abbrev pub as_key : {S : Type 0} → (Text → PrivateKey) → Result Text × S → Result PrivateKey × S
as_key f (ok key, s) = (ok (f key), s)
as_key f (err e, s) = (err e, s)
as_key f (stopped h, s) = (stopped h, s)

-- StandardKeyGenerator.GenerateKey by its KeyType
unfoldable pub generate_key : {S : Type 0} → Generators S → Text → S → Result PrivateKey × S
generate_key g key_type s =
    if text_eq key_type (codes "ed25519")
    then as_key ed25519 (g.generate_ed25519 s)
    else if is_empty key_type || text_eq key_type (codes "p256")
    then as_key ecdsa (g.generate_ecdsa (codes "P-256") s)
    else if text_eq key_type (codes "p384")
    then as_key ecdsa (g.generate_ecdsa (codes "P-384") s)
    else if text_eq key_type (codes "rsa2048")
    then as_key rsa (g.generate_rsa 2048 s)
    else if text_eq key_type (codes "rsa4096")
    then as_key rsa (g.generate_rsa 4096 s)
    else if text_eq key_type (codes "rsa8192")
    then as_key rsa (g.generate_rsa 8192 s)
    else (err (message "unrecognized or unsupported key type"), s)
