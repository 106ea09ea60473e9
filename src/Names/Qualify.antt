-- ===== src/Names/Qualify.antt =====
-- SubjectQualifiesForPublicCert: what a name that qualifies looks like.
use otomatik.Base.{
  ℕ, ◌≡◌, ◌≢◌, refl, Bool, true, false, not, ◌&&◌, ◌||◌, [], ◌∷◌, ltb, ◌==◌, arith, Bool-cases, inl,
  inr, ◌⊎◌, length,
}
use otomatik.Base.Text.{
  Text, dot, star, contains_char, count_char, contains_any, has_prefix, is_empty, trim_space,
}
use otomatik.Names.{
  special_characters, subject_qualifies_for_cert, subject_qualifies_for_public_cert,
}

uncounted : (c : ℕ) (t : Text) → count_char c t ≡ 0 → contains_char c t ≡ false
uncounted c [] h = refl
uncounted c (d ∷ t) h = ground (arith, h, uncounted c t)

-- A star and a dot, then at least one character and no other star.
abbrev pub IsWildcard : Text → Type 0
IsWildcard t =
    (rest : Text) × (t ≡ star ∷ dot ∷ rest) × (rest ≢ []) × (contains_char star rest ≡ false)

counted-IsWildcard :
    (t : Text)
    → count_char star t == 1 && ltb 2 (length t) && has_prefix t (star ∷ dot ∷ []) ≡ true
    → IsWildcard t
counted-IsWildcard [] h = absurd (ground (arith, h))
counted-IsWildcard (c ∷ []) h = absurd (ground (arith, h))
counted-IsWildcard (c ∷ d ∷ rest) h =
    let first : c ≡ star = ground (arith, h) in
    let second : d ≡ dot = ground (arith, h) in
    (
      rest,
      rw (first, second) refl,
      λ e. ground (arith, h, e),
      uncounted star rest (ground (arith, h, second)),
    )

conjuncts :
    (a b c d e f : Bool) → a && b && c && d && e && f ≡ true → (a ≡ true) × (e ≡ true) × (f ≡ true)
conjuncts a b c d e f h = ground (arith, h)

ends : (a b c d e : Bool) → a && b && c && d && e ≡ true → (a ≡ true) × (e ≡ true)
ends a b c d e h = ground (arith, h)

not-true : {a : Bool} → not a ≡ true → a ≡ false
not-true h = ground (arith, h)

or_right : {a b : Bool} → a ≡ true → not a || b ≡ true → b ≡ true
or_right e h = ground (arith, h, e)

-- What is known of a name that qualifies.
abbrev pub Qualifies : (Text → Bool) → Text → Type 0
Qualifies is_ip subj =
    (is_empty (trim_space subj) ≡ false)
    × (contains_any subj special_characters ≡ false)
    × (is_ip subj ≡ false)
    × ((contains_char star subj ≡ false) ⊎ IsWildcard subj)

-- For every subject and every test for IP addresses: a subject that qualifies for a public
-- certificate is not blank, has none of the special characters, is no IP address, and either has no
-- star or is a star and a dot before a rest, not empty, without a star.
pub subject_qualifies_for_public_cert_lem :
    (is_ip : Text → Bool) (subj : Text)
    → subject_qualifies_for_public_cert is_ip subj ≡ true
    → Qualifies is_ip subj
unfolding subject_qualifies_for_public_cert subject_qualifies_for_cert
subject_qualifies_for_public_cert_lem is_ip subj h =
    let (cert, starry, ip) =
      conjuncts (subject_qualifies_for_cert subj) _ _ _ _ (not (is_ip subj)) h in
    let (blank, special) =
      ends (not (is_empty (trim_space subj))) _ _ _ (not (contains_any subj special_characters))
        cert in
    (
      not-true blank,
      not-true special,
      not-true ip,
      elim (Bool-cases (contains_char star subj)) [
        | inl e ↦ inr (counted-IsWildcard subj (or_right e starry))
        | inr e ↦ inl e
      ],
    )
