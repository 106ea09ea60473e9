-- ===== src/Certificate/Making.antt =====
-- certificates.go: a certificate from a key pair, with its names from the leaf, and its renewal
-- window.
use otomatik.Base.{
  ℕ, ◌-◌, Bool, false, List, [], ◌∷◌, ◌++◌, Option, none, some, ltb, ◌==◌, if◌then◌else◌,
}
use otomatik.Base.Text.{Text, is_empty, text_eq, to_lower}
use otomatik.Base.Errors.{message}
use otomatik.Base.Result.{Result, ok, err, stopped, panicked}
use otomatik.Certificate.{Certificate, Leaf, zero_certificate}

-- The fields of x509.Certificate that fillCertFromLeaf reads: addresses and URIs are what String gives.
pub record X509 : Type 0 where
  pub common_name : Text
  pub dns_names : List Text
  pub ip_addresses : List Text
  pub email_addresses : List Text
  pub uris : List Text
  pub dates : Leaf

-- tls.X509KeyPair, as the chain of the certificate, x509.ParseCertificate, and SHA-256 of a chain in
-- hexadecimal
pub record Pki : Type 0 where
  pub x509_key_pair : Text → Text → Result (List Text)
  pub parse_certificate : Text → Result X509
  pub hash_certificate_chain : List Text → Text

-- The subjects that are not the common name, by one of the loops of fillCertFromLeaf
unfoldable pub other_names : (Text → Text) → Text → List Text → List Text
other_names f common_name [] = []
other_names f common_name (name ∷ names) =
    let rest = other_names f common_name names in
    if text_eq name common_name then rest else f name ∷ rest

-- The names that fillCertFromLeaf assembles
unfoldable pub leaf_names : X509 → List Text
unfolding other_names
leaf_names leaf =
    let first = if is_empty leaf.common_name then [] else to_lower leaf.common_name ∷ [] in
    first
    ++ (other_names to_lower leaf.common_name leaf.dns_names
        ++ (other_names to_lower leaf.common_name leaf.ip_addresses
            ++ (other_names to_lower leaf.common_name leaf.email_addresses
                ++ other_names (λ u. u) leaf.common_name leaf.uris)))

-- What fillCertFromLeaf leaves in a zero Certificate with these names
abbrev pub filled : Pki → List Text → X509 → List Text → Result Certificate
filled x chain leaf [] = err (message "certificate has no names")
filled x chain leaf (name ∷ names) = ok (record zero_certificate {
  chain = chain;
  leaf = some leaf.dates;
  names = name ∷ names;
  hash = x.hash_certificate_chain chain;
})

unfoldable pub fill_parsed : Pki → List Text → Result X509 → Result Certificate
unfolding leaf_names
fill_parsed x chain (ok leaf) = filled x chain leaf (leaf_names leaf)
fill_parsed x chain (err e) = err e
fill_parsed x chain (stopped h) = stopped h

-- fillCertFromLeaf of a zero Certificate; the callers drop what an error leaves there.
unfoldable pub fill_cert_from_leaf : Pki → List Text → Result Certificate
unfolding fill_parsed
fill_cert_from_leaf x [] = err (message "certificate is empty")
fill_cert_from_leaf x (der ∷ chain) = fill_parsed x (der ∷ chain) (x.parse_certificate der)

unfoldable pub fill_paired : Pki → Result (List Text) → Result Certificate
unfolding fill_cert_from_leaf
fill_paired x (ok chain) = fill_cert_from_leaf x chain
fill_paired x (err e) = err e
fill_paired x (stopped h) = stopped h

-- makeCertificate
unfoldable pub make_certificate : Pki → Text → Text → Result Certificate
unfolding fill_paired
make_certificate x cert_pem_block key_pem_block =
    fill_paired x (x.x509_key_pair cert_pem_block key_pem_block)

-- currentlyInRenewalWindow at a time, for a leaf that does not end before it begins; `window` is the product of a lifetime and the ratio, in floating
-- point.
unfoldable pub currently_in_renewal_window : (ℕ → ℕ) → Leaf → ℕ → Bool
currently_in_renewal_window window leaf now =
    if leaf.not_after == 0
    then false
    else ltb (leaf.not_after - window (leaf.not_after - leaf.not_before)) now

-- Certificate.NeedsRenewal; without a leaf it panics.
unfoldable pub needs_renewal : (ℕ → ℕ) → Option Leaf → ℕ → Result Bool
unfolding currently_in_renewal_window
needs_renewal window none now = stopped panicked
needs_renewal window (some leaf) now = ok (currently_in_renewal_window window leaf now)
