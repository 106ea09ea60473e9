-- ===== src/OnDemand/Decision.antt =====
-- Which names checkIfCertShouldBeObtained lets through.
use otomatik.Base.{
  ◌<◌, ◌≡◌, refl, sym, ◌∙◌, true, List, [], ◌∷◌, map, Option, none, some, arith, Bool-cases, inl,
  inr, ◌⊎◌, ◌↔◌, ◌≢◌,
}
use otomatik.Base.Text.{Text, to_lower}
use otomatik.Base.Errors.{Error}
use otomatik.Base.Occurs.{occurs}
use otomatik.Names.{subject_qualifies_for_cert}
use otomatik.OnDemand.{OnDemandConfig, whitelist_contains, check_if_cert_should_be_obtained}

whitelist_contains_lem :
    (names : List Text) (name : Text)
    → (whitelist_contains names name ≡ true) ↔ (0 < occurs (to_lower name) (map to_lower names))
whitelist_contains_lem [] name = (λ h. absurd (cc), λ h. absurd (omega (arith, h)))
whitelist_contains_lem (n ∷ names) name =
    let rest = whitelist_contains_lem names name in
    (λ h. ground (arith, h, rest), λ h. ground (arith, h, rest))

-- What the decision function or, without one, the whitelist says: an empty whitelist has no say, and
-- another has the name on it, in any case of its letters.
abbrev pub Approves : Option (Text → Option Error) → List Text → Text → Type 0
Approves (some decide) hosts name = decide name ≡ none
Approves none hosts name = (hosts ≡ []) ⊎ (0 < occurs (to_lower name) (map to_lower hosts))

abbrev pub Allowed : OnDemandConfig → Text → Type 0
Allowed cfg name =
    (subject_qualifies_for_cert name ≡ true) × Approves cfg.decision_func cfg.host_whitelist name

check_allows :
    (decide : Option (Text → Option Error)) (hosts : List Text) (name : Text)
    → (check_if_cert_should_be_obtained
          (some (record { decision_func = decide; host_whitelist = hosts }))
          name
        ≡ none)
      ↔ ((subject_qualifies_for_cert name ≡ true) × Approves decide hosts name)
unfolding check_if_cert_should_be_obtained
check_allows (some decide) hosts name = elim (Bool-cases (subject_qualifies_for_cert name)) [
  | inl e ↦ (λ h. (e, sym (rw e refl) ∙ h), λ a. rw e a.1)
  | inr e ↦ (λ h. absurd (ground (arith, h, e)), λ a. absurd (ground (arith, a.0, e)))
]
check_allows none [] name = (λ h. (ground (arith, h), inl refl), λ a. ground (arith, a.0))
check_allows none (n ∷ hosts) name =
    let listed = whitelist_contains_lem (n ∷ hosts) name in
    (
      λ h. (ground (arith, h), inr (listed.0 (ground (arith, h)))),
      λ a. elim a.1 [
        | inl e ↦ absurd (cc)
        | inr b ↦ let on = listed.1 b in ground (arith, a.0, on)
      ],
    )

-- For every configuration and name: without an on-demand configuration no name is allowed; with one,
-- a name is allowed exactly if it qualifies for a certificate and the decision function approves it
-- or, where there is none, the whitelist is empty or has the name on it, in any case of its letters.
pub check_if_cert_should_be_obtained_lem :
    (name : Text)
    → (check_if_cert_should_be_obtained none name ≢ none)
      × ((cfg : OnDemandConfig)
          → (check_if_cert_should_be_obtained (some cfg) name ≡ none) ↔ Allowed cfg name)
unfolding check_if_cert_should_be_obtained
check_if_cert_should_be_obtained_lem name =
    (λ h. cc, λ cfg. check_allows cfg.decision_func cfg.host_whitelist name)
