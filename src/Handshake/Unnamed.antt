-- ===== src/Handshake/Unnamed.antt =====
-- getCertificate for a hello without a server name.
use otomatik.Base.{
  ℕ, ◌≡◌, refl, ap, ◌∙◌, Bool, true, false, Option, none, some, arith, Bool-cases, Option-cases,
  inl, inr,
}
use otomatik.Base.Text.{Text, is_empty}
use otomatik.Base.Outcome.{done}
use otomatik.Certificate.{Certificate, zero_certificate}
use otomatik.Cache.Invariant.{Inv}
use otomatik.Cache.Matching.{Serves}
use otomatik.Names.{normalized_name}
use otomatik.Handshake.{Config, Hello, Choice, by_address, get_unnamed, select_cert}
use otomatik.Handshake.Selection.{AllLeaves, Selected, select_cert_lem}

-- The name that stands for a local address: its host, or all of it.
abbrev pub host_of : Hello → Text → Text
host_of hello addr = elim (hello.split_host addr) [ none ↦ addr | some ip ↦ ip ]

-- What is known of a match: the certificate bears the host of the local address.
abbrev pub ServesAddress : Config → Hello → Certificate → Type 0
ServesAddress cfg hello cert =
    (addr : Text) × (hello.local_addr ≡ some addr) × Serves cfg.cert_cache (host_of hello addr) cert

by_address_at :
    (cfg : Config) (hello : Hello) (now : ℕ) (o : Option Text)
    → hello.local_addr ≡ o
    → by_address cfg hello now ≡ elim o [
      | none ↦ done (zero_certificate, false)
      | some addr ↦ select_cert cfg hello now (host_of hello addr)
    ]
unfolding by_address
by_address_at cfg hello now o e =
    ap
      (λ a. elim a [
        | none ↦ done (zero_certificate, false)
        | some addr ↦ select_cert cfg hello now (host_of hello addr)
      ])
      e

module _ (cfg : Config) (hello : Hello) (now : ℕ) (plain : cfg.cert_selection ≡ none)
    (v : Inv cfg.cert_cache) (leaves : AllLeaves cfg.cert_cache) where
  by_address_lem :
      (r : Certificate × Bool) × (by_address cfg hello now ≡ done r)
      × (r.1 ≡ true → ServesAddress cfg hello r.0)
  unfolding Selected
  by_address_lem = elim (Option-cases hello.local_addr) [
    | inl alone ↦
        ((zero_certificate, false), by_address_at cfg hello now none alone, λ h. absurd (cc))
    | inr (addr, there) ↦
        let (r, selects, found) =
          select_cert_lem cfg hello now plain v leaves (host_of hello addr) in
        (
          r,
          by_address_at cfg hello now (some addr) there ∙ selects,
          λ h. elim found [
            | inl (hits, serves) ↦ (addr, there, serves)
            | inr (misses, nobody) ↦ absurd (ground (arith, h, misses))
          ],
        )
  ]

  -- With the default selection, and a consistent cache whose certificates have their leaf: for a hello
  -- without a server name getCertificate returns without a panic; what it returns as matched bears the
  -- host of the connection's local address, and what it returns as the default, which is then not
  -- matched, bears the normalized default name of the configuration, which is not empty.
  pub get_unnamed_lem :
      (r : Choice) × (get_unnamed cfg hello now ≡ done r)
      × (r.matched ≡ true → ServesAddress cfg hello r.cert)
      × (r.defaulted ≡ true
          → (r.matched ≡ false)
            × (is_empty cfg.default_server_name ≡ false)
            × Serves cfg.cert_cache (normalized_name cfg.default_server_name) r.cert)
  unfolding get_unnamed Selected
  get_unnamed_lem =
      let (r, addressed, sound) = by_address_lem in
      let (d, selects, found) =
        select_cert_lem cfg hello now plain v leaves (normalized_name cfg.default_server_name) in
      elim (Bool-cases r.1) [
        | inl hit ↦ (
          record { cert = r.0; matched = true; defaulted = false },
          rw (addressed, hit) refl,
          λ _. sound hit,
          λ h. absurd (cc),
        )
        | inr miss ↦ elim (Bool-cases (is_empty cfg.default_server_name)) [
          | inl unset ↦ (
            record { cert = r.0; matched = false; defaulted = false },
            rw (addressed, miss, unset) refl,
            λ h. absurd (cc),
            λ h. absurd (cc),
          )
          | inr set ↦ (
            record { cert = d.0; matched = false; defaulted = d.1 },
            rw (addressed, miss, set, selects) refl,
            λ h. absurd (cc),
            λ h. elim found [
              | inl (hits, serves) ↦ (refl, set, serves)
              | inr (misses, nobody) ↦ absurd (ground (arith, h, misses))
            ],
          )
        ]
      ]
