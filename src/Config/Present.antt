-- ===== src/Config/Present.antt =====
-- config.go: what storageHasCertResources finds, and the names of a request for one name.
use otomatik.Base.{
  ◌≡◌, ◌≢◌, refl, sym, ◌∙◌, Bool, true, false, List, [], ◌∷◌, Option, none, some, All, Bool-cases,
  Option-cases, inl, inr,
}
use otomatik.Base.Text.{Text, contains_char, slash}
use otomatik.Crypto.{names_from_csr}
use otomatik.Keys.{site_cert, site_private_key, site_meta}
use otomatik.Storage.Transaction.{MapLike, IsReadable}
use otomatik.Config.{
  Config, all_exist, storage_has_cert_resources, place_name, place_subject, empty_template,
}

false-ne-true : false ≢ true
false-ne-true h = cc

placed_name :
    (u : Option Text) (name : Text) (b : Bool)
    → ((v : Text) → u ≡ some v → v ≡ name)
    → names_from_csr (place_name u name (empty_template b)) ≡ name ∷ []
unfolding names_from_csr place_name
placed_name none name b same = refl
placed_name (some u) name b same = elim (Bool-cases (contains_char slash name)) [
  | inl e ↦ rw (e, same u refl) refl
  | inr e ↦ rw e refl
]

pub placed_names :
    (o u : Option Text) (name : Text) (b : Bool)
    → ((v : Text) → o ≡ some v → v ≡ name)
    → ((v : Text) → u ≡ some v → v ≡ name)
    → names_from_csr (place_subject o u name (empty_template b)) ≡ name ∷ []
unfolding names_from_csr place_subject
placed_names (some ip) u name b same_ip same_url = rw (same_ip ip refl) refl
placed_names none u name b same_ip same_url = elim (Bool-cases (contains_char b'@' name)) [
  | inl e ↦ rw e refl
  | inr e ↦ rw e (placed_name u name b same_url)
]

module _ {S : Type 0} (cfg : Config S) (law : MapLike cfg.storage)
    (reads : IsReadable cfg.storage law) where
  abbrev pub Present : S → Text → Type 0
  Present s k = (v : Text) × (law.view s k ≡ some v)

  abbrev pub HasAll : Text → S → Type 0
  HasAll name s = All (Present s) (
      site_cert cfg.issuer_key name
      ∷ site_private_key cfg.issuer_key name
      ∷ site_meta cfg.issuer_key name
      ∷ [])

  all_exist-keeps :
      (keys : List Text) (s : S) (j : Text) → law.view (all_exist cfg keys s).1 j ≡ law.view s j
  unfolding all_exist
  all_exist-keeps [] s j = refl
  all_exist-keeps (k ∷ keys) s j = elim (Bool-cases (cfg.storage.exists k s).0) [
    | inl e ↦ rw e (all_exist-keeps keys (cfg.storage.exists k s).1 j ∙ reads.exists_keeps k s j)
    | inr e ↦ rw e (reads.exists_keeps k s j)
  ]

  found-Present : (s : S) (k : Text) → (cfg.storage.exists k s).0 ≡ true → Present s k
  found-Present s k h = elim (Option-cases (law.view s k)) [
    | inl e ↦ absurd (false-ne-true (sym (reads.found k s ∙ rw e refl) ∙ h))
    | inr found ↦ found
  ]

  pub Present-keeps :
      (s t : S)
      → ((j : Text) → law.view t j ≡ law.view s j)
      → (keys : List Text) → All (Present s) keys
      → All (Present t) keys
  Present-keeps s t same [] a = tt
  Present-keeps s t same (k ∷ keys) ((v, e), a) = ((v, same k ∙ e), Present-keeps s t same keys a)

  all_exist-Present :
      (keys : List Text) (s : S) → (all_exist cfg keys s).0 ≡ true → All (Present s) keys
  unfolding all_exist
  all_exist-Present [] s h = tt
  all_exist-Present (k ∷ keys) s h = elim (Bool-cases (cfg.storage.exists k s).0) [
    | inl e ↦
        let s' = (cfg.storage.exists k s).1 in
        (
          found-Present s k e,
          Present-keeps s' s (λ j. sym (reads.exists_keeps k s j)) keys
              (all_exist-Present keys s' (sym (rw e refl) ∙ h)),
        )
    | inr e ↦ absurd (false-ne-true (sym (rw e refl) ∙ h))
  ]

  pub still_there :
      (name : Text) (s : S)
      → (storage_has_cert_resources cfg name s).0 ≡ true
      → HasAll name (storage_has_cert_resources cfg name s).1
  unfolding storage_has_cert_resources
  still_there name s there =
      let keys =
        site_cert cfg.issuer_key name
        ∷ site_private_key cfg.issuer_key name
        ∷ site_meta cfg.issuer_key name
        ∷ [] in
      Present-keeps s (all_exist cfg keys s).1 (all_exist-keeps keys s) keys
        (all_exist-Present keys s there)
