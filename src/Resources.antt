-- ===== src/Resources.antt =====
-- crypto.go: certificate resources in the storage; otomatik.go: CertificateResource.
pub mod RoundTrip
use otomatik.Base.{List, [], ◌∷◌}
use otomatik.Base.Text.{Text, codes}
use otomatik.Base.Errors.{Error, message}
use otomatik.Base.Result.{Result, ok, err, stopped, Action, ◌>>=◌, give, as_result}
use otomatik.Storage.{Storage, KeyValue, store_tx}
use otomatik.Keys.{site_cert, site_private_key, site_meta, names_key, sort_texts}

-- CertificateResource; `issuer_data`, an interface{}, is a text that stands for what the issuer left
-- there.
pub record CertificateResource : Type 0 where
  pub sans : List Text
  pub certificate_pem : Text
  pub private_key_pem : Text
  pub issuer_data : Text

-- encoding/json on the resource: its texts have the names and the issuer's data, since the fields of
-- the PEMs are tagged "-". Unmarshal writes over the fields of the resource that it is given. `decoded`
-- is what a value of type interface{} is after it was encoded and decoded: a map for a struct.
pub record Json : Type 0 where
  pub marshal : CertificateResource → Result Text
  pub unmarshal : Text → CertificateResource → Result CertificateResource
  pub decoded : Text → Text

-- The resource that loadCertResource has before it reads the metadata
abbrev pub loaded_pems : Text → Text → CertificateResource
loaded_pems cert_bytes key_bytes = record {
  sans = [];
  certificate_pem = cert_bytes;
  private_key_pem = key_bytes;
  issuer_data = [];
}

abbrev pub pair : Text → Text → KeyValue
pair k v = record { key = k; value = v }

-- The pairs that saveCertResource stores
unfoldable pub resource_pairs : Text → CertificateResource → Text → List KeyValue
resource_pairs issuer_key cert meta_bytes =
    let cert_key = names_key cert.sans in
    pair (site_cert issuer_key cert_key) cert.certificate_pem
    ∷ pair (site_private_key issuer_key cert_key) cert.private_key_pem
    ∷ pair (site_meta issuer_key cert_key) meta_bytes
    ∷ []

unfoldable pub store_resource :
    {S : Type 0} → Storage S → Text → CertificateResource → Result Text → Action S (Unit {0})
unfolding resource_pairs
store_resource x issuer_key cert (ok meta_bytes) s =
    as_result (store_tx x (resource_pairs issuer_key cert meta_bytes) s)
store_resource x issuer_key cert (err e) s = (err (message "encoding certificate metadata"), s)
store_resource x issuer_key cert (stopped h) s = (stopped h, s)

-- saveCertResource of a configuration whose issuer has this key. NamesKey sorts the names of the
-- caller's resource, which the caller drops.
unfoldable pub save_cert_resource :
    {S : Type 0} → Storage S → Json → Text → CertificateResource → Action S (Unit {0})
unfolding store_resource
save_cert_resource x json issuer_key cert = store_resource x issuer_key cert (json.marshal cert)

abbrev pub decoding_failed : Result CertificateResource → Result CertificateResource
decoding_failed (err e) = err (message "decoding certificate metadata")
decoding_failed r = r

-- loadCertResource
unfoldable pub load_cert_resource :
    {S : Type 0} → Storage S → Json → Text → Text → Action S CertificateResource
load_cert_resource x json issuer_key certs_key =
    x.load (site_cert issuer_key certs_key) >>= λ cert_bytes.
    x.load (site_private_key issuer_key certs_key) >>= λ key_bytes.
    x.load (site_meta issuer_key certs_key) >>= λ meta_bytes.
    give (decoding_failed (json.unmarshal meta_bytes (loaded_pems cert_bytes key_bytes)))
