-- ===== src/Handshake.antt =====
-- handshake.go: the choice of a certificate from the cache for a ClientHello.
pub mod Selection
pub mod Unnamed
use otomatik.Base.{
  ℕ, Bool, true, false, not, ◌&&◌, List, [], ◌∷◌, ◌++◌, Option, none, some, ltb, if◌then◌else◌,
}
use otomatik.Base.Text.{Text, dot, star, is_empty, split, join}
use otomatik.Base.Map.{get}
use otomatik.Base.Errors.{Error}
use otomatik.Base.Outcome.{Outcome, done, panic, ◌>>=◌}
use otomatik.Certificate.{Certificate, zero_certificate}
use otomatik.Cache.{Cache, get_all_matching_certs, get_all_certs}
use otomatik.Names.{normalized_name}

-- The fields of Config that the choice reads; `cert_selection` is SelectCertificate of
-- CertSelection, for the hello at hand.
pub record Config : Type 0 where
  pub cert_cache : Cache
  pub default_server_name : Text
  pub cert_selection : Option (List Certificate → Certificate × Option Error)

-- What the choice reads of the hello: `supports cert` is `SupportsCertificate(cert) == nil`,
-- `local_addr` the local address of Conn, if there is a Conn, and `split_host` the host that
-- net.SplitHostPort finds, if there is no error.
pub record Hello : Type 0 where
  pub server_name : Text
  pub supports : Certificate → Bool
  pub local_addr : Option Text
  pub split_host : Text → Option Text

-- The loop of DefaultCertificateSelector; a certificate without Leaf is a nil dereference.
unfoldable pub select_best :
    (Certificate → Bool) → ℕ → Certificate → List Certificate → Outcome Certificate
select_best supports now best [] = done best
select_best supports now best (choice ∷ choices) =
    let skipped = select_best supports now best choices in
    let expired = select_best supports now choice choices in
    if not (supports choice) then skipped else elim choice.leaf [
      | none ↦ panic
      | some leaf ↦
          if ltb leaf.not_before now && ltb now leaf.not_after then done choice else expired
    ]

-- DefaultCertificateSelector; `none` is its error.
unfoldable pub default_certificate_selector :
    (Certificate → Bool) → ℕ → List Certificate → Outcome (Option Certificate)
unfolding select_best
default_certificate_selector supports now [] = done none
default_certificate_selector supports now (best ∷ choices) = do
  cert ← select_best supports now best (best ∷ choices)
  done (some cert)

-- What selectCert makes of the answer of DefaultCertificateSelector.
abbrev pub or_zero : Option Certificate → Certificate × Bool
or_zero none = (zero_certificate, false)
or_zero (some cert) = (cert, true)

abbrev pub no_certs : List Certificate → Bool
no_certs [] = true
no_certs (cert ∷ certs) = false

abbrev pub no_error : Option Error → Bool
no_error none = true
no_error (some err) = false

-- selectCert
unfoldable pub select_cert : Config → Hello → ℕ → Text → Outcome (Certificate × Bool)
unfolding default_certificate_selector get_all_matching_certs get_all_certs
select_cert cfg hello now name =
    let choices = get_all_matching_certs cfg.cert_cache name in
    elim cfg.cert_selection [
      | none ↦
          if no_certs choices
          then done (zero_certificate, false)
          else default_certificate_selector hello.supports now choices >>= λ r. done (or_zero r)
      | some select ↦
          let r = select (if no_certs choices then get_all_certs cfg.cert_cache else choices) in
          done (r.0, no_error r.1)
    ]

-- The results of getCertificate
pub record Choice : Type 0 where
  pub cert : Certificate
  pub matched : Bool
  pub defaulted : Bool

-- The loop over the labels: `before` are the labels that are stars already, `cert` the certificate
-- of the last call of selectCert.
unfoldable pub try_wildcards :
    Config → Hello → ℕ → Certificate → List Text → List Text → Outcome (Certificate × Bool)
unfolding select_cert
try_wildcards cfg hello now cert before [] = done (cert, false)
try_wildcards cfg hello now cert before (l ∷ labels) = do
  r ← select_cert cfg hello now (join dot (before ++ (star ∷ []) ∷ labels))
  let rest = try_wildcards cfg hello now r.0 (before ++ (star ∷ []) ∷ []) labels
  if r.1 then done r else rest

-- The match of the local address, when there is a Conn
unfoldable pub by_address : Config → Hello → ℕ → Outcome (Certificate × Bool)
unfolding select_cert
by_address cfg hello now = elim hello.local_addr [
  | none ↦ done (zero_certificate, false)
  | some addr ↦
      select_cert cfg hello now (elim (hello.split_host addr) [ none ↦ addr | some ip ↦ ip ])
]

-- getCertificate, when the hello has no server name
unfoldable pub get_unnamed : Config → Hello → ℕ → Outcome Choice
unfolding select_cert by_address normalized_name
get_unnamed cfg hello now = do
  r ← by_address cfg hello now
  if r.1
      then done (record { cert = r.0; matched = true; defaulted = false })
      else if is_empty cfg.default_server_name
      then done (record { cert = r.0; matched = false; defaulted = false })
      else select_cert cfg hello now (normalized_name cfg.default_server_name) >>= λ d.
          done (record { cert = d.0; matched = false; defaulted = d.1 })

-- getCertificate, for a server name
unfoldable pub get_named : Config → Hello → ℕ → Text → Outcome Choice
unfolding select_cert try_wildcards
get_named cfg hello now name = do
  exact ← select_cert cfg hello now name
  r ← if exact.1 then done exact else try_wildcards cfg hello now exact.0 [] (split dot name)
  if r.1
      then done (record { cert = r.0; matched = true; defaulted = false })
      else done (elim (get cfg.cert_cache.cache name) [
        | none ↦ record { cert = r.0; matched = false; defaulted = false }
        | some direct ↦ record { cert = direct; matched = true; defaulted = false }
      ])

-- getCertificate
unfoldable pub get_certificate : Config → Hello → ℕ → Outcome Choice
unfolding get_unnamed get_named normalized_name
get_certificate cfg hello now =
    let name = normalized_name hello.server_name in
    if is_empty name then get_unnamed cfg hello now else get_named cfg hello now name
