-- ===== src/Ocsp.antt =====
-- ocsp.go: the staple of a certificate, from the storage or from the responder.
pub mod Staples
use otomatik.Base.{
  ℕ, suc, ◌+◌, ◌-◌, ◌/◌, Bool, true, false, not, ◌&&◌, ◌||◌, List, [], ◌∷◌, ◌++◌, Option, none,
  some, ltb, leb, if◌then◌else◌, length, ◌==◌,
}
use otomatik.Base.Text.{Text, codes, is_empty}
use otomatik.Base.Errors.{Error, message}
use otomatik.Base.Result.{
  Result, ok, err, Stop, stopped, panicked, out_of_fuel, Action, next, ◌>>=◌, ◌>>◌, pure, raise,
  give, call, as_result, ignore, with_error,
}
use otomatik.Certificate.{Certificate, Leaf, OcspResponse}
use otomatik.Crypto.{Codec, PemBlock, parse_certs_from_pem_bundle}
use otomatik.Keys.{ocsp_staple_key}
use otomatik.Storage.{Storage}

-- x/crypto/ocsp, net/http and the hash of the keys, for certificates of a type `X`: the bodies of
-- responses, of which the program reads a mebibyte, come with the error of the request or of the
-- reading. ParseResponse takes the certificate of the issuer, or nil. It and
-- Load return: a staple of a call that did not would count as none.
pub record Ocsp (X S : Type 0) : Type 0 where
  pub storage : Storage S
  pub codec : Codec X
  pub fast_hash : Text → Text
  pub ocsp_server : X → List Text
  pub issuing_certificate_url : X → List Text
  pub create_request : X → X → Result Text
  pub parse_response : Text → Option X → Result OcspResponse
  pub http_get : Text → S → Result (Result Text) × S
  pub http_post : Text → Text → S → Result (Result Text) × S
  pub now : S → ℕ × S

-- The time in the middle between two, as Go adds half of a difference that may be negative.
-- Differences are below the 292 years of a Duration.
unfoldable pub middle : ℕ → ℕ → ℕ
middle this_update next_update =
    if leb this_update next_update
    then this_update + (next_update - this_update) / 2
    else this_update - (this_update - next_update) / 2

-- The end of the validity of a response
unfoldable pub valid_until : Option ℕ → ℕ → ℕ
valid_until none next_update = next_update
valid_until (some not_after) next_update =
    if ltb not_after next_update then not_after else next_update

-- freshOCSP at a time
unfoldable pub fresh_ocsp : OcspResponse → ℕ → Bool
unfolding middle valid_until
fresh_ocsp resp now =
    ltb now (middle resp.this_update (valid_until resp.responder_not_after resp.next_update))

-- A staple with the response that it parses to
pub record Staple : Type 0 where
  pub raw : Text
  pub response : OcspResponse

module _ {X S : Type 0} (x : Ocsp X S) where
  -- getOCSPForCert from the certificates of the issued certificate and of its issuer
  unfoldable pub ask_responder : X → X → Text → Action S Staple
  ask_responder issued_cert issuer_cert server =
      with_error (λ e. message "creating OCSP request")
        (give (x.create_request issued_cert issuer_cert))
      >>= λ ocsp_req.
          with_error (λ e. message "making OCSP request") (x.http_post server ocsp_req) >>= λ body.
          with_error (λ e. message "reading OCSP response") (give body) >>= λ ocsp_res_bytes.
          with_error (λ e. message "parsing OCSP response")
            (give (x.parse_response ocsp_res_bytes (some issuer_cert)))
          >>= λ ocsp_res. pure (record { raw = ocsp_res_bytes; response = ocsp_res })

  -- The certificate of the issuer, from the first of its addresses
  unfoldable pub get_issuer : List Text → Action S X
  get_issuer [] = raise (message "no URL to issuing certificate")
  get_issuer (url ∷ urls) =
      with_error (λ e. message "getting issuer certificate") (x.http_get url) >>= λ body.
      with_error (λ e. message "reading issuer certificate") (give body) >>= λ issuer_bytes.
      with_error (λ e. message "parsing issuer certificate")
        (give (x.codec.parse_certificate issuer_bytes))

  unfoldable pub ask_for : List X → List Text → Action S Staple
  unfolding ask_responder get_issuer
  ask_for [] servers = give (stopped panicked)
  ask_for (issued_cert ∷ certs) [] = raise (message "no OCSP server specified in certificate")
  ask_for (issued_cert ∷ []) (server ∷ servers) =
      get_issuer (x.issuing_certificate_url issued_cert) >>= λ issuer_cert.
      ask_responder issued_cert issuer_cert server
  ask_for (issued_cert ∷ issuer_cert ∷ certs) (server ∷ servers) =
      ask_responder issued_cert issuer_cert server

  abbrev pub servers_of : List X → List Text
  servers_of [] = []
  servers_of (issued_cert ∷ certs) = x.ocsp_server issued_cert

  abbrev pub finished : Option (Result (List X)) → Result (List X)
  finished none = stopped out_of_fuel
  finished (some r) = r

  -- getOCSPForCert, with fuel for each byte of the bundle
  unfoldable pub get_ocsp_for_cert : Text → Action S Staple
  unfolding ask_for
  get_ocsp_for_cert bundle =
      give (finished (parse_certs_from_pem_bundle x.codec (suc (length bundle)) bundle))
      >>= λ certificates. ask_for certificates (servers_of certificates)

  -- The bundle that stapleOCSP makes of a chain
  unfoldable pub bundle_of : List Text → Text
  bundle_of [] = []
  bundle_of (der ∷ chain) =
      x.codec.pem_encode (record { kind = codes "CERTIFICATE"; bytes = der }) ++ bundle_of chain

  -- The staple in the storage, if it is fresh; one that does not parse is deleted.
  unfoldable pub stored_staple : Text → Text → Result OcspResponse → S → Option Staple × S
  unfolding fresh_ocsp
  stored_staple key cached (ok resp) s =
      let (t, s') = x.now s in
      (
        if fresh_ocsp resp t && not (is_empty cached)
            then some (record { raw = cached; response = resp })
            else none,
        s',
      )
  stored_staple key cached (err e) s = (none, (x.storage.delete key s).1)
  stored_staple key cached (stopped h) s = (none, s)

  unfoldable pub load_staple : Text → Result Text × S → Option Staple × S
  unfolding stored_staple
  load_staple key (ok cached, s) = stored_staple key cached (x.parse_response cached none) s
  load_staple key (err e, s) = (none, s)
  load_staple key (stopped h, s) = (none, s)

  abbrev pub stored_error : Option Error × S → Result (Unit {0}) × S
  stored_error (none, s) = (ok tt, s)
  stored_error (some e, s) = (err (message "unable to write OCSP staple file"), s)

  abbrev pub with_staple : Certificate → Staple → Certificate
  with_staple cert staple = record cert { ocsp_staple = staple.raw; ocsp = some staple.response }

  abbrev pub saved_staple : Bool → Text → Staple → S → Result (Unit {0}) × S
  saved_staple true key staple s = stored_error (x.storage.store key staple.raw s)
  saved_staple false key staple s = (ok tt, s)

  -- What stapleOCSP leaves: the certificate, its response or error, and the state. Its callers do not
  -- look at a response that comes with an error.
  abbrev pub Stapled : Type 0
  Stapled = Certificate × Result OcspResponse × S

  abbrev pub stapled : Certificate → OcspResponse → Result (Unit {0}) × S → Stapled
  stapled cert response (ok u, s) = (cert, ok response, s)
  stapled cert response (err e, s) = (cert, err e, s)
  stapled cert response (stopped h, s) = (cert, stopped h, s)

  -- A good response, by the leaf, which is nil if nothing made it.
  unfoldable pub apply_good : Bool → Text → Certificate → Staple → Option Leaf → S → Stapled
  apply_good got_new key cert staple none s = (cert, stopped panicked, s)
  apply_good got_new key cert staple (some leaf) s =
      if ltb leaf.not_after staple.response.next_update
      then (cert, err (message "invalid: OCSP response valid after certificate expiration"), s)
      else stapled (with_staple cert staple) staple.response (saved_staple got_new key staple s)

  -- The last part of stapleOCSP
  unfoldable pub apply_staple : Bool → Text → Certificate → Staple → S → Stapled
  unfolding apply_good
  apply_staple got_new key cert staple s =
      if staple.response.status == 0
      then apply_good got_new key cert staple cert.leaf s
      else (cert, ok staple.response, s)

  unfoldable pub apply_fetched : Text → Certificate → Result Staple × S → Stapled
  unfolding apply_staple
  apply_fetched key cert (ok staple, s) = apply_staple true key cert staple s
  apply_fetched key cert (err e, s) = (cert, err (message "no OCSP stapling"), s)
  apply_fetched key cert (stopped h, s) = (cert, stopped h, s)

  unfoldable pub apply_loaded : Text → Text → Certificate → Option Staple × S → Stapled
  unfolding apply_staple apply_fetched get_ocsp_for_cert
  apply_loaded key pem_bundle cert (some staple, s) = apply_staple false key cert staple s
  apply_loaded key pem_bundle cert (none, s) =
      apply_fetched key cert (get_ocsp_for_cert pem_bundle s)

  abbrev pub bundle_or : Option Text → Certificate → Text
  unfolding bundle_of
  bundle_or none cert = bundle_of cert.chain
  bundle_or (some pem_bundle) cert = pem_bundle

  -- stapleOCSP; the bundle is nil for `none`.
  unfoldable pub staple_ocsp : Option Text → Certificate → S → Stapled
  unfolding apply_loaded load_staple bundle_or
  staple_ocsp bundle cert s =
      let pem_bundle = bundle_or bundle cert in
      let key = ocsp_staple_key cert.names (x.fast_hash pem_bundle) in
      apply_loaded key pem_bundle cert (load_staple key (x.storage.load key s))
