-- ===== src/Maintain/Current/Asset.antt =====
-- maintain.go: what deleteExpiredCerts does with one asset.
use otomatik.Base.{
  ℕ, ◌+◌, ◌≤◌, ◌<◌, ◌≡◌, refl, sym, ap, ◌∙◌, subst, false, List, ◌++◌, Option, none, some, leb,
  arith, Bool-cases, inl, inr, if_elim, All,
}
use otomatik.Base.Text.{Text, codes, slash, text_eq, text_eq_iff, count_char}
use otomatik.Base.Result.{Result, ok, err, stopped, ok-injective, err-ne-ok, stopped-ne-ok}
use otomatik.Certificate.Making.{X509}
use otomatik.Crypto.{PemBlock}
use otomatik.Maintain.Expired.{
  ext, trim_suffix, Sweeper, crt, key_ext, json_ext, delete_keys, delete_if_expired, judge_cert,
  judge_block, judge_file, sweep_asset,
}
use otomatik.Storage.Transaction.{MapLike, IsReadable}
use otomatik.Maintain.Assets.{
  Kind, certificate, private_key, metadata, ext_of, ext-trim_suffix, other_asset,
}
use otomatik.Storage.{Storage}

-- The clock does not pass `last_time`, and neither it nor List changes a value; List without recursion
-- returns keys one level below its own.
pub record IsSweeper {S : Type 0} (x : Sweeper S) (law : MapLike x.storage) (last_time : ℕ)
    : Type 0 where
  pub to_last : (s : S) → (x.now s).0 ≤ last_time
  pub now_keeps : (s : S) (j : Text) → law.view (x.now s).1 j ≡ law.view s j
  pub list_keeps : (key j : Text) (s : S) → law.view (x.storage.list key false s).1 j ≡ law.view s j
  pub one_below :
      (key : Text) (s : S) (keys : List Text)
      → (x.storage.list key false s).0 ≡ ok keys
      → All (λ k. count_char slash k ≡ count_char slash key + 1) keys

-- If the value is a certificate, that is, with the grace period, not over by `last_time`.
abbrev pub IsCurrent : {S : Type 0} → Sweeper S → ℕ → ℕ → Text → Type 0
IsCurrent x grace last_time v =
    (block : PemBlock) (cert : X509)
    → x.pem_decode v ≡ some block
    → x.parse_certificate block.bytes ≡ ok cert
    → last_time < cert.dates.not_after + grace

module _ {S : Type 0} {y : Storage S} (law : MapLike y) (base : Text)
    (old : Kind → Option Text) where
  -- The assets with this base are as they were.
  abbrev pub Intact : S → Type 0
  Intact s = (k : Kind) → law.view s (base ++ ext_of k) ≡ old k

module _ {S : Type 0} (x : Sweeper S) (grace : ℕ) (law : MapLike x.storage)
    (reads : IsReadable x.storage law) (last_time : ℕ) (clock : IsSweeper x law last_time)
    (base v : Text) (deep : count_char slash base ≡ 3) (old : Kind → Option Text)
    (was : old certificate ≡ some v) (current : IsCurrent x grace last_time v) where
  delete-Intact :
      (a : Text) (l : Kind) (s : S)
      → text_eq a base ≡ false
      → Intact law base old s
      → Intact law base old (x.storage.delete (a ++ ext_of l) s).1
  delete-Intact a l s other h k =
      law.delete_others (a ++ ext_of l) s (base ++ ext_of k) (other_asset a base l k other) ∙ h k

  expired-Intact :
      (a : Text) (n : ℕ) (s : S)
      → a ≡ trim_suffix a crt ++ crt
      → text_eq (trim_suffix a crt) base ≡ false
      → Intact law base old s
      → Intact law base old (delete_if_expired x grace a n s).1
  unfolding delete_if_expired delete_keys
  expired-Intact a n s e other h k =
      if_elim (λ t. law.view t (base ++ ext_of k) ≡ old k) (leb (n + grace) (x.now s).0) _ _
        (λ due. all_three k) (λ early. after_now k)
    where
      after_now : Intact law base old (x.now s).1
      after_now l = clock.now_keeps s (base ++ ext_of l) ∙ h l

      first_gone : Intact law base old (x.storage.delete a (x.now s).1).1
      first_gone =
          subst (λ f. Intact law base old (x.storage.delete f (x.now s).1).1) (sym e)
            (delete-Intact (trim_suffix a crt) certificate (x.now s).1 other after_now)

      all_three :
          Intact law base old
            (x.storage.delete
              (trim_suffix a crt ++ json_ext)
              (x.storage.delete
                (trim_suffix a crt ++ key_ext)
                (x.storage.delete a (x.now s).1).1).1).1
      all_three =
          delete-Intact (trim_suffix a crt) metadata _ other
            (delete-Intact (trim_suffix a crt) private_key _ other first_gone)

  judge_cert-other :
      (a : Text) (r : Result X509) (s : S)
      → a ≡ trim_suffix a crt ++ crt
      → text_eq (trim_suffix a crt) base ≡ false
      → Intact law base old s
      → Intact law base old (judge_cert x grace a r s).1
  unfolding judge_cert
  judge_cert-other a (ok cert) s e other h = expired-Intact a cert.dates.not_after s e other h
  judge_cert-other a (err y) s e other h = h
  judge_cert-other a (stopped y) s e other h = h

  judge_block-other :
      (a : Text) (o : Option PemBlock) (s : S)
      → a ≡ trim_suffix a crt ++ crt
      → text_eq (trim_suffix a crt) base ≡ false
      → Intact law base old s
      → Intact law base old (judge_block x grace a o s).1
  unfolding judge_block
  judge_block-other a none s e other h = h
  judge_block-other a (some block) s e other h =
      if_elim (λ (r : Result (Unit {0}) × S). Intact law base old r.1)
        (text_eq block.kind (codes "CERTIFICATE")) _ _
        (λ is. judge_cert-other a (x.parse_certificate block.bytes) s e other h) (λ is. h)

  judge_file-other :
      (a : Text) (r : Result Text × S)
      → a ≡ trim_suffix a crt ++ crt
      → text_eq (trim_suffix a crt) base ≡ false
      → Intact law base old r.1
      → Intact law base old (judge_file x grace a r).1
  unfolding judge_file
  judge_file-other a (ok f, s) e other h = judge_block-other a (x.pem_decode f) s e other h
  judge_file-other a (err y, s) e other h = h
  judge_file-other a (stopped y, s) e other h = h

  expired-current :
      (a : Text) (n : ℕ) (s : S)
      → last_time < n + grace
      → Intact law base old s
      → Intact law base old (delete_if_expired x grace a n s).1
  unfolding delete_if_expired
  expired-current a n s later h k =
      if_elim (λ t. law.view t (base ++ ext_of k) ≡ old k) (leb (n + grace) (x.now s).0) _ _
        (λ due. absurd (ground (arith, clock.to_last s)))
        (λ early. clock.now_keeps s (base ++ ext_of k) ∙ h k)

  judge_cert-current :
      (a : Text) (r : Result X509) (s : S)
      → ((cert : X509) → r ≡ ok cert → last_time < cert.dates.not_after + grace)
      → Intact law base old s
      → Intact law base old (judge_cert x grace a r s).1
  unfolding judge_cert
  judge_cert-current a (ok cert) s c h = expired-current a cert.dates.not_after s (c cert refl) h
  judge_cert-current a (err y) s c h = h
  judge_cert-current a (stopped y) s c h = h

  judge_block-current :
      (a : Text) (o : Option PemBlock) (s : S)
      → x.pem_decode v ≡ o
      → Intact law base old s
      → Intact law base old (judge_block x grace a o s).1
  unfolding judge_block
  judge_block-current a none s e h = h
  judge_block-current a (some block) s e h =
      if_elim (λ (r : Result (Unit {0}) × S). Intact law base old r.1)
        (text_eq block.kind (codes "CERTIFICATE")) _ _
        (λ is.
          judge_cert-current a (x.parse_certificate block.bytes) s
            (λ cert p. current block cert e p) h)
        (λ is. h)

  judge_file-current :
      (a : Text) (r : Result Text × S)
      → r.0 ≡ ok v
      → Intact law base old r.1
      → Intact law base old (judge_file x grace a r).1
  unfolding judge_file
  judge_file-current a (ok f, s) e h =
      judge_block-current a (x.pem_decode f) s (ap x.pem_decode (sym (ok-injective e))) h
  judge_file-current a (err y, s) e h = absurd (err-ne-ok e)
  judge_file-current a (stopped y, s) e h = absurd (stopped-ne-ok e)

  load-Intact :
      (a : Text) (s : S) → Intact law base old s → Intact law base old (x.storage.load a s).1
  load-Intact a s h k = reads.load_keeps a s (base ++ ext_of k) ∙ h k

  loads_v : (s : S) → Intact law base old s → (x.storage.load (base ++ crt) s).0 ≡ ok v
  loads_v s h = reads.loaded (base ++ crt) s ∙ rw (h certificate ∙ was) refl

  pub sweep_asset-Intact :
      (a : Text) (s : S) → Intact law base old s → Intact law base old (sweep_asset x grace a s).1
  unfolding sweep_asset
  sweep_asset-Intact a s h =
      if_elim (λ (r : Result (Unit {0}) × S). Intact law base old r.1) (text_eq (ext a) crt) _ _
        (λ is. by_base (ext-trim_suffix a ((text_eq_iff (ext a) crt).0 is))) (λ is. h)
    where
      by_base :
          a ≡ trim_suffix a crt ++ crt
          → Intact law base old (judge_file x grace a (x.storage.load a s)).1
      by_base e = elim (Bool-cases (text_eq (trim_suffix a crt) base)) [
        | inl same ↦
            let asset : base ++ crt ≡ a =
              ap (λ t. t ++ crt) (sym ((text_eq_iff (trim_suffix a crt) base).0 same)) ∙ sym e in
            judge_file-current a (x.storage.load a s)
              (subst (λ f. (x.storage.load f s).0 ≡ ok v) asset (loads_v s h)) (load-Intact a s h)
        | inr other ↦ judge_file-other a (x.storage.load a s) e other (load-Intact a s h)
      ]
