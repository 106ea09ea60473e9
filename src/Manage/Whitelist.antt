-- ===== src/Manage/Whitelist.antt =====
-- config.go: manageAll with on-demand management.
use otomatik.Base.{
  ◌≡◌, refl, sym, ap, ◌∙◌, ℕ, Bool, true, false, ◌||◌, List, [], ◌∷◌, ◌++◌, some, arith, Bool-cases,
  inl, inr,
}
use otomatik.Base.Text.{Text, text_eq, text_eq_iff, to_lower}
use otomatik.Base.Result.{ok, next}
use otomatik.Certificate.Making.{X509}
use otomatik.Config.{Config}
use otomatik.Ocsp.{Ocsp}
use otomatik.OnDemand.{OnDemandConfig, whitelist_contains}
use otomatik.Manage.{Instance, allow_host, manage_name, manage_all}

-- The configuration with the names on its whitelist, those that are not there appended in order.
abbrev pub allow_hosts : List Text → OnDemandConfig → OnDemandConfig
allow_hosts [] od = od
allow_hosts (domain ∷ domains) od = allow_hosts domains (allow_host domain od)

Allowed : OnDemandConfig → Text → Type 0
Allowed od domain = whitelist_contains od.host_whitelist domain ≡ true

contains-append :
    (l : List Text) (domain name : Text)
    → whitelist_contains (l ++ domain ∷ []) name
      ≡ (whitelist_contains l name || text_eq (to_lower domain) (to_lower name))
contains-append [] domain name = ground arith
contains-append (n ∷ l) domain name = ground (arith, contains-append l domain name)

contains_same :
    (l : List Text) (m n : Text)
    → to_lower m ≡ to_lower n
    → whitelist_contains l m ≡ whitelist_contains l n
contains_same [] m n e = refl
contains_same (x ∷ l) m n e = rw (e, contains_same l m n e) refl

either : {a : Bool} (b : Bool) → (b ≡ true → a ≡ true) → a ≡ (a || b)
either {a} true h = ground (arith, h refl)
either {a} false h = ground arith

-- Whether a name is on the whitelist once another was allowed.
allow_host_lem :
    (domain name : Text) (od : OnDemandConfig)
    → whitelist_contains (allow_host domain od).host_whitelist name
      ≡ (whitelist_contains od.host_whitelist name || text_eq (to_lower domain) (to_lower name))
allow_host_lem domain name od = elim (Bool-cases (whitelist_contains od.host_whitelist domain)) [
  | inl e ↦ rw e (
      either (text_eq (to_lower domain) (to_lower name)) (λ same.
        sym (
          contains_same od.host_whitelist domain name
            ((text_eq_iff (to_lower domain) (to_lower name)).0 same))
        ∙ e))
  | inr e ↦ rw e (contains-append od.host_whitelist domain name)
]

-- Whether a name is among names, in any case of its letters.
abbrev pub is_among : List Text → Text → Bool
is_among [] name = false
is_among (domain ∷ domains) name =
    text_eq (to_lower domain) (to_lower name) || is_among domains name

allow_hosts_lem :
    (domains : List Text) (name : Text) (od : OnDemandConfig)
    → whitelist_contains (allow_hosts domains od).host_whitelist name
      ≡ (whitelist_contains od.host_whitelist name || is_among domains name)
allow_hosts_lem [] name od = ground arith
allow_hosts_lem (domain ∷ domains) name od =
    ground
      (arith, allow_hosts_lem domains name (allow_host domain od), allow_host_lem domain name od)

module _ {S : Type 0} (cfg : Config S) (stapler : Ocsp X509 S) (fuel : ℕ) (async : Bool) where
  manage_all-allow :
      (domains : List Text) (od : OnDemandConfig) (i : Instance S)
      → i.on_demand ≡ some od
      → manage_all cfg stapler fuel async domains i
        ≡ (ok tt, record i { on_demand = some (allow_hosts domains od) })
  unfolding manage_all manage_name next
  manage_all-allow [] od i e = ap (λ o. (ok tt, record i { on_demand = o })) e
  manage_all-allow (domain ∷ domains) od i e =
      ap
        (λ o.
          next (λ _. manage_all cfg stapler fuel async domains)
            (manage_name cfg stapler fuel async domain o i))
        e
      ∙ manage_all-allow domains (allow_host domain od)
          (record i { on_demand = some (allow_host domain od) }) refl

  -- With an on-demand configuration, manageAll returns no error and changes nothing but the whitelist.
  -- Afterwards the names that the whitelist allows, in any case of their letters, are those that it
  -- allowed before and the names that manageAll was given, and no other.
  pub manage_all-whitelist :
      (domains : List Text) (od : OnDemandConfig) (i : Instance S)
      → i.on_demand ≡ some od
      → (after : OnDemandConfig) × (manage_all cfg stapler fuel async domains i
          ≡ (ok tt, record i { on_demand = some after }))
        × ((name : Text)
            → whitelist_contains after.host_whitelist name
              ≡ (whitelist_contains od.host_whitelist name || is_among domains name))
  manage_all-whitelist domains od i e = (
    allow_hosts domains od,
    manage_all-allow domains od i e,
    λ name. allow_hosts_lem domains name od,
  )
