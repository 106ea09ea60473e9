-- ===== src/Keys/Sites.antt =====
-- The keys of a site differ.
use otomatik.Base.{
  ℕ, ◌≡◌, ◌≢◌, refl, ap, ◌∙◌, false, [], ◌∷◌, ◌++◌, arith, All, All-append, Bool-cases, inl, inr,
}
use otomatik.Base.Text.{Text, codes, slash, dot, is_empty, text_eq, text_eq_iff}
use otomatik.Names.Labels.{IsLabel}
use otomatik.Storage.{safe}
use otomatik.Storage.SafeKey.{IsSafeChar, safe_lem}
use otomatik.Keys.{certs_site_prefix, site_cert, site_private_key, site_meta}
use otomatik.Keys.Paths.{IsPart, last, last-path_join, last-append}

IsSafeChar-IsLabel : (t : Text) → All IsSafeChar t → IsLabel slash t
IsSafeChar-IsLabel [] a = refl
IsSafeChar-IsLabel (c ∷ t) a = ground (arith, a.0, IsSafeChar-IsLabel t a.1)

IsLong : Text → Type 0
IsLong t =
    (is_empty t ≡ false) × (text_eq t (dot ∷ []) ≡ false) × (text_eq t (dot ∷ dot ∷ []) ≡ false)

append-IsLong : (t : Text) (b c : ℕ) (e : Text) → IsLong (t ++ dot ∷ b ∷ c ∷ e)
unfolding IsLong text_eq
append-IsLong [] b c e = (refl, refl, ground arith)
append-IsLong (a ∷ []) b c e = (refl, ground arith, ground arith)
append-IsLong (a ∷ d ∷ []) b c e = (refl, ground arith, ground arith)
append-IsLong (a ∷ d ∷ f ∷ t) b c e = (refl, ground arith, ground arith)

-- A safe text with an extension is a part of a path.
pub file-IsPart :
    (t : Text) (b c : ℕ) (e : Text)
    → All IsSafeChar (dot ∷ b ∷ c ∷ e)
    → IsPart (safe t ++ dot ∷ b ∷ c ∷ e)
unfolding IsLong
file-IsPart t b c e x =
    let (full, not_dot, not_dots) = append-IsLong (safe t) b c e in
    (
      full,
      not_dot,
      not_dots,
      IsSafeChar-IsLabel (safe t ++ dot ∷ b ∷ c ∷ e)
          (All-append IsSafeChar (safe t) (dot ∷ b ∷ c ∷ e) (safe_lem t).0 x),
    )

last-site_cert : (issuer domain : Text) → last (site_cert issuer domain) ≡ b't'
unfolding site_cert
last-site_cert issuer domain =
    last-path_join (certs_site_prefix issuer domain) (safe domain ++ codes ".crt")
      (file-IsPart domain b'c' b'r' (b't' ∷ []) (refl, (refl, (refl, (refl, tt)))))
    ∙ last-append (safe domain) dot (codes "crt")

last-site_private_key : (issuer domain : Text) → last (site_private_key issuer domain) ≡ b'y'
unfolding site_private_key
last-site_private_key issuer domain =
    last-path_join (certs_site_prefix issuer domain) (safe domain ++ codes ".key")
      (file-IsPart domain b'k' b'e' (b'y' ∷ []) (refl, (refl, (refl, (refl, tt)))))
    ∙ last-append (safe domain) dot (codes "key")

last-site_meta : (issuer domain : Text) → last (site_meta issuer domain) ≡ b'n'
unfolding site_meta
last-site_meta issuer domain =
    last-path_join (certs_site_prefix issuer domain) (safe domain ++ codes ".json")
      (file-IsPart domain b'j' b's' (codes "on") (refl, (refl, (refl, (refl, (refl, tt))))))
    ∙ last-append (safe domain) dot (codes "json")

pub differ : (s t : Text) → last s ≢ last t → text_eq s t ≡ false
differ s t h = elim (Bool-cases (text_eq s t)) [
  | inl e ↦ absurd (h (ap last ((text_eq_iff s t).0 e)))
  | inr e ↦ e
]

-- For every issuer and every name, the keys of the certificate, of the private key and of the
-- metadata are three different keys.
pub site_keys_differ :
    (issuer domain : Text)
    → (text_eq (site_cert issuer domain) (site_private_key issuer domain) ≡ false)
      × (text_eq (site_cert issuer domain) (site_meta issuer domain) ≡ false)
      × (text_eq (site_private_key issuer domain) (site_meta issuer domain) ≡ false)
site_keys_differ issuer domain = (
  differ (site_cert issuer domain) (site_private_key issuer domain) (
      rw (last-site_cert issuer domain, last-site_private_key issuer domain)
        (λ h. omega (arith, h))),
  differ (site_cert issuer domain) (site_meta issuer domain)
      (rw (last-site_cert issuer domain, last-site_meta issuer domain) (λ h. omega (arith, h))),
  differ (site_private_key issuer domain) (site_meta issuer domain) (
      rw (last-site_private_key issuer domain, last-site_meta issuer domain)
        (λ h. omega (arith, h))),
)
