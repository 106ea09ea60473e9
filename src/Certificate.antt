-- ===== src/Certificate.antt =====
-- certificates.go and x/crypto's ocsp.Response: a certificate with the metadata of the package. Times
-- are nanoseconds since Go's zero time, which is 0.
pub mod Making
pub mod Subjects
use otomatik.Base.{ℕ, Bool, false, List, [], Option, none}
use otomatik.Base.Text.{Text}

-- The fields of x509.Certificate that the program reads for its schedule.
pub record Leaf : Type 0 where
  pub not_before : ℕ
  pub not_after : ℕ

-- The fields of ocsp.Response that the program reads; `responder_not_after` is the end of the
-- responder's own certificate, if the response has one.
pub record OcspResponse : Type 0 where
  pub status : ℕ
  pub this_update : ℕ
  pub next_update : ℕ
  pub responder_not_after : Option ℕ

-- Certificate, with the embedded tls.Certificate's chain, leaf and staple.
pub record Certificate : Type 0 where
  pub chain : List Text
  pub leaf : Option Leaf
  pub ocsp_staple : Text
  pub names : List Text
  pub tags : List Text
  pub ocsp : Option OcspResponse
  pub hash : Text
  pub managed : Bool

-- Certificate{}
abbrev pub zero_certificate : Certificate
zero_certificate = record {
  chain = [];
  leaf = none;
  ocsp_staple = [];
  names = [];
  tags = [];
  ocsp = none;
  hash = [];
  managed = false;
}
