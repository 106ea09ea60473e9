-- ===== src/Tests/Handshake.antt =====
-- Runs of the choice of a certificate of handshake.go.
use otomatik.Base.{
  false, ℕ, ◌≡◌, refl, true, [], ◌∷◌, none, some, Bool-cases, subst, sym, ◌∙◌, ◌≢◌, inl, inr,
}
use otomatik.Base.Text.{is_empty, Text, codes, text_eq}
use otomatik.Base.Map.{get, put, delete}
use otomatik.Base.Outcome.{done}
use otomatik.Certificate.{Certificate, zero_certificate}
use otomatik.Cache.{empty_cache, cache_certificate}
use otomatik.Cache.Invariant.{Inv, cache_certificate-Inv, empty_cache-Inv}
use otomatik.Cache.Matching.{Serves}
use otomatik.Handshake.{Config, Hello, Choice, default_certificate_selector, get_named, get_unnamed}
use otomatik.Names.{normalized_name}
use otomatik.Handshake.Unnamed.{ServesAddress, get_unnamed_lem}
use otomatik.Handshake.Selection.{
  HasLeaf, AllLeaves, Found, default_certificate_selector_lem, get_named_lem,
}

abbrev valid : ℕ → ℕ → Text → Certificate
valid from until hash = record zero_certificate {
  hash = hash;
  names = codes "*.a" ∷ [];
  leaf = some (record { not_before = from; not_after = until });
}

abbrev expired : Certificate
expired = valid 10 20 (codes "h1")

abbrev current : Certificate
current = valid 30 90 (codes "h2")

default_certificate_selector_lem_example :
    default_certificate_selector (λ _. true) 50 (expired ∷ current ∷ []) ≡ done (some current)
default_certificate_selector_lem_example =
    default_certificate_selector_lem (λ _. true) 50 expired (current ∷ [])
      ((_, refl), ((_, refl), tt))

abbrev config : Config
config = record {
  cert_cache = cache_certificate empty_cache current;
  default_server_name = codes "*.A";
  cert_selection = none;
}

abbrev hello : Hello
hello = record {
  server_name = codes "x.a";
  supports = λ _. true;
  local_addr = none;
  split_host = λ _. none;
}

config-Inv : Inv config.cert_cache
config-Inv = cache_certificate-Inv empty_cache current empty_cache-Inv

some-injective : (a b : Certificate) → some a ≡ some b → a ≡ b
some-injective a b e = cc

none-ne-some : (a : Certificate) → none ≢ some a
none-ne-some a e = cc

config-AllLeaves : AllLeaves config.cert_cache
unfolding cache_certificate get put delete
config-AllLeaves h cert e = elim (Bool-cases (text_eq current.hash h)) [
  | inl hit ↦ subst HasLeaf (some-injective current cert (sym (rw hit refl) ∙ e)) (_, refl)
  | inr miss ↦ absurd (none-ne-some cert (sym (rw miss refl) ∙ e))
]

get_named_lem_example :
    (r : Choice) × (get_named config hello 50 (codes "x.a") ≡ done r)
    × (r.matched ≡ true → Found config.cert_cache (codes "x.a") r)
    × ((cert : Certificate)
        → Serves config.cert_cache (codes "x.a") cert
        → (r.matched ≡ true) × Serves config.cert_cache (codes "x.a") r.cert)
get_named_lem_example = get_named_lem config hello 50 refl config-Inv config-AllLeaves (codes "x.a")

-- No server name: the host of the local address is looked up, then the default name.
abbrev unnamed : Hello
unnamed = record hello {
  server_name = [];
  local_addr = some (codes "1.2.3.4:443");
  split_host = λ _. some (codes "1.2.3.4");
}

get_unnamed_lem_example :
    (r : Choice) × (get_unnamed config unnamed 50 ≡ done r)
    × (r.matched ≡ true → ServesAddress config unnamed r.cert)
    × (r.defaulted ≡ true
        → (r.matched ≡ false)
          × (is_empty config.default_server_name ≡ false)
          × Serves config.cert_cache (normalized_name config.default_server_name) r.cert)
get_unnamed_lem_example = get_unnamed_lem config unnamed 50 refl config-Inv config-AllLeaves
