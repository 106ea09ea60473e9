-- ===== src/Maintain/Current.antt =====
-- maintain.go: what deleteExpiredCerts leaves alone.
pub mod Asset
use otomatik.Base.{
  ℕ, ◌+◌, ◌≤◌, ◌<◌, ◌≡◌, ◌⊎◌, refl, sym, ap, ◌∙◌, subst, true, false, List, [], ◌∷◌, ◌++◌, Option,
  none, some, leb, arith, Bool-cases, inl, inr, if_elim, All,
}
use otomatik.Base.Text.{Text, codes, slash, text_eq, text_eq_iff, count_char}
use otomatik.Base.Errors.{Error}
use otomatik.Base.Result.{
  Result, ok, err, stopped, Action, next, ok-injective, err-ne-ok, stopped-ne-ok,
}
use otomatik.Certificate.Making.{X509}
use otomatik.Crypto.{PemBlock}
use otomatik.Keys.{prefix_certs}
use otomatik.Maintain.Expired.{
  ext, trim_suffix, each, Sweeper, crt, key_ext, json_ext, delete_keys, delete_if_expired,
  judge_cert, judge_block, judge_file, sweep_asset, site_deleted, sweep_empty, sweep_assets,
  sweep_site, sweep_sites, sweep_issuer, sweep_issuers, delete_expired_certs,
}
use otomatik.Storage.Transaction.{MapLike, IsReadable}
use otomatik.Maintain.Assets.{
  Kind, certificate, private_key, metadata, ext_of, ext-trim_suffix, other_asset, slashes_ext,
}
use otomatik.Maintain.Current.Asset.{IsSweeper, IsCurrent, Intact, sweep_asset-Intact}

module _ {S : Type 0} (x : Sweeper S) (grace : ℕ) (law : MapLike x.storage)
    (reads : IsReadable x.storage law) (last_time : ℕ) (clock : IsSweeper x law last_time)
    (base v : Text) (deep : count_char slash base ≡ 3) (old : Kind → Option Text)
    (was : old certificate ≡ some v) (current : IsCurrent x grace last_time v) where
  list-Intact :
      (key : Text) (s : S)
      → Intact law base old s
      → Intact law base old (x.storage.list key false s).1
  list-Intact key s h k = clock.list_keeps key (base ++ ext_of k) s ∙ h k

  next-Intact :
      (g : Unit {0} → Action S (Unit {0})) (r : Result (Unit {0}) × S)
      → ((s : S) → Intact law base old s → Intact law base old (g tt s).1)
      → Intact law base old r.1
      → Intact law base old (next g r).1
  unfolding next
  next-Intact g (ok tt, s) step h = step s h
  next-Intact g (err e, s) step h = h
  next-Intact g (stopped y, s) step h = h

  -- A loop whose rounds leave the assets alone
  each-Intact :
      (P : Text → Type 0) (f : Text → Action S (Unit {0}))
      → ((a : Text) (s : S) → P a → Intact law base old s → Intact law base old (f a s).1)
      → (keys : List Text) (s : S) → All P keys
      → Intact law base old s
      → Intact law base old (each f keys s).1
  unfolding each
  each-Intact P f step [] s p h = h
  each-Intact P f step (a ∷ keys) s p h =
      next-Intact (λ _. each f keys) (f a s) (λ t i. each-Intact P f step keys t p.1 i)
        (step a s p.0 h)

  abbrev At : ℕ → Text → Type 0
  At n k = count_char slash k ≡ n

  site-Intact :
      (site : Text) (s : S)
      → At 2 site
      → Intact law base old s
      → Intact law base old (site_deleted x grace (x.storage.delete site s)).1
  site-Intact site s two h k =
      outcome (x.storage.delete site s)
        (law.delete_others site s (base ++ ext_of k) (apart (Bool-cases _)) ∙ h k)
    where
      apart :
          (text_eq site (base ++ ext_of k) ≡ true) ⊎ (text_eq site (base ++ ext_of k) ≡ false)
          → text_eq site (base ++ ext_of k) ≡ false
      apart (inl e) = absurd (
          omega (
            arith,
            two,
            deep,
            slashes_ext base k,
            ap (count_char slash) ((text_eq_iff site (base ++ ext_of k)).0 e),
          ))
      apart (inr e) = e

      outcome :
          (r : Option Error × S)
          → law.view r.1 (base ++ ext_of k) ≡ old k
          → law.view (site_deleted x grace r).1 (base ++ ext_of k) ≡ old k
      outcome (none, t) e = e
      outcome (some y, t) e = e

  sweep_empty-Intact :
      (site : Text) (r : Result (List Text) × S)
      → At 2 site
      → Intact law base old r.1
      → Intact law base old (sweep_empty x grace site r).1
  unfolding sweep_empty
  sweep_empty-Intact site (ok [], s) two h = site-Intact site s two h
  sweep_empty-Intact site (ok (a ∷ as'), s) two h = h
  sweep_empty-Intact site (err e, s) two h = h
  sweep_empty-Intact site (stopped y, s) two h = h

  any_key : (keys : List Text) → All (λ _. Unit {0}) keys
  any_key [] = tt
  any_key (k ∷ keys) = (tt, any_key keys)

  sweep_assets-Intact :
      (site : Text) (r : Result (List Text) × S)
      → At 2 site
      → Intact law base old r.1
      → Intact law base old (sweep_assets x grace site r).1
  unfolding sweep_assets
  sweep_assets-Intact site (ok assets, s) two h =
      next-Intact _ (each (sweep_asset x grace) assets s)
        (λ t i. sweep_empty-Intact site (x.storage.list site false t) two (list-Intact site t i))
        (each-Intact (λ _. Unit {0}) (sweep_asset x grace)
          (λ a t _ i.
            sweep_asset-Intact x grace law reads last_time clock base v deep old was current a t i)
          assets s (any_key assets) h)
  sweep_assets-Intact site (err e, s) two h = h
  sweep_assets-Intact site (stopped y, s) two h = h

  sweep_site-Intact :
      (site : Text) (s : S)
      → At 2 site
      → Intact law base old s
      → Intact law base old (sweep_site x grace site s).1
  unfolding sweep_site
  sweep_site-Intact site s two h =
      sweep_assets-Intact site (x.storage.list site false s) two (list-Intact site s h)

  sweep_sites-Intact :
      (r : Result (List Text) × S)
      → ((keys : List Text) → r.0 ≡ ok keys → All (At 2) keys)
      → Intact law base old r.1
      → Intact law base old (sweep_sites x grace r).1
  unfolding sweep_sites
  sweep_sites-Intact (ok sites, s) at h =
      each-Intact (At 2) (sweep_site x grace) sweep_site-Intact sites s (at sites refl) h
  sweep_sites-Intact (err e, s) at h = h
  sweep_sites-Intact (stopped y, s) at h = h

  sweep_issuer-Intact :
      (issuer : Text) (s : S)
      → At 1 issuer
      → Intact law base old s
      → Intact law base old (sweep_issuer x grace issuer s).1
  unfolding sweep_issuer
  sweep_issuer-Intact issuer s one h =
      sweep_sites-Intact (x.storage.list issuer false s)
        (λ keys e.
          subst (λ n. All (At n) keys) (omega (arith, one)) (clock.one_below issuer s keys e))
        (list-Intact issuer s h)

  sweep_issuers-Intact :
      (r : Result (List Text) × S)
      → ((keys : List Text) → r.0 ≡ ok keys → All (At 1) keys)
      → Intact law base old r.1
      → Intact law base old (sweep_issuers x grace r).1
  unfolding sweep_issuers
  sweep_issuers-Intact (ok issuers, s) at h =
      each-Intact (At 1) (sweep_issuer x grace) sweep_issuer-Intact issuers s (at issuers refl) h
  sweep_issuers-Intact (err e, s) at h = h
  sweep_issuers-Intact (stopped y, s) at h = h

  expired_certs-Intact :
      (s : S) → Intact law base old s → Intact law base old (delete_expired_certs x grace s).1
  unfolding delete_expired_certs
  expired_certs-Intact s h =
      sweep_issuers-Intact (x.storage.list prefix_certs false s)
        (λ keys e. clock.one_below prefix_certs s keys e) (list-Intact prefix_certs s h)

module _ {S : Type 0} (x : Sweeper S) (grace : ℕ) (law : MapLike x.storage)
    (reads : IsReadable x.storage law) (last_time : ℕ) (clock : IsSweeper x law last_time) where
  -- Over a storage that is a map whose loads read it and whose List without recursion returns keys one
  -- level down, changing nothing, and a clock that does not pass a time: whatever deleteExpiredCerts
  -- returns, a key three levels down to which `.crt` is put keeps its value, and with `.key` and
  -- `.json` too, if that value is no certificate or one whose end and grace period lie after that time.
  pub delete_expired_certs-current :
      (base v : Text) (s : S)
      → count_char slash base ≡ 3
      → law.view s (base ++ crt) ≡ some v
      → IsCurrent x grace last_time v
      → (law.view (delete_expired_certs x grace s).1 (base ++ crt) ≡ some v)
        × (law.view (delete_expired_certs x grace s).1 (base ++ key_ext)
            ≡ law.view s (base ++ key_ext))
        × (law.view (delete_expired_certs x grace s).1 (base ++ json_ext)
            ≡ law.view s (base ++ json_ext))
  delete_expired_certs-current base v s deep has current =
      let kept : (k : Kind)
          → law.view (delete_expired_certs x grace s).1 (base ++ ext_of k)
            ≡ law.view s (base ++ ext_of k) =
        expired_certs-Intact x grace law reads last_time clock base v deep
          (λ k. law.view s (base ++ ext_of k)) has current s (λ k. refl) in
      (kept certificate ∙ has, kept private_key, kept metadata)
