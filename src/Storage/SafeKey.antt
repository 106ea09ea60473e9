-- ===== src/Storage/SafeKey.antt =====
-- KeyBuilder.Safe: what a safe key part looks like.
use otomatik.Base.{
  ℕ, ◌≡◌, refl, ap, ◌∙◌, Bool, true, false, ◌&&◌, ◌||◌, [], ◌∷◌, ◌++◌, ◌==◌, leb, arith, Bool-cases,
  inl, inr, All, All-append,
}
use otomatik.Base.Text.{
  Text, dot, codes, to_lower, is_upper, is_space, trim_left, trim_right, trim_space, is_empty,
  contains_char,
}
use otomatik.Storage.{is_key_char, replace_one, replace_special, keep_key_chars, safe}

-- A character of a safe key part: a small letter, a digit, or one of _ @ . and -.
abbrev pub IsSafeChar : ℕ → Type 0
IsSafeChar c =
    (leb b'a' c && leb c b'z')
      || (leb b'0' c && leb c b'9')
      || c == b'_'
      || c == b'@'
      || c == b'.'
      || c == b'-'
    ≡ true

abbrev pub NotUpper : ℕ → Type 0
NotUpper c = is_upper c ≡ false

-- No two dots in a row.
abbrev pub has_dots : Text → Bool
has_dots [] = false
has_dots (c ∷ []) = false
has_dots (c ∷ d ∷ t) = (c == dot && d == dot) || has_dots (d ∷ t)

to_lower-NotUpper : (t : Text) → All NotUpper (to_lower t)
to_lower-NotUpper [] = tt
to_lower-NotUpper (c ∷ t) = (ground arith, to_lower-NotUpper t)

trim_left-NotUpper : (t : Text) → All NotUpper t → All NotUpper (trim_left t)
trim_left-NotUpper [] a = tt
trim_left-NotUpper (c ∷ t) a = elim (Bool-cases (is_space c)) [
  | inl e ↦ rw e (trim_left-NotUpper t a.1)
  | inr e ↦ rw e a
]

trim_right-NotUpper : (t : Text) → All NotUpper t → All NotUpper (trim_right t)
trim_right-NotUpper [] a = tt
trim_right-NotUpper (c ∷ t) a = elim (Bool-cases (is_space c && is_empty (trim_right t))) [
  | inl e ↦ rw e tt
  | inr e ↦ rw e (a.0, trim_right-NotUpper t a.1)
]

replace_one-NotUpper : (c : ℕ) → NotUpper c → All NotUpper (replace_one c)
replace_one-NotUpper c h = elim (Bool-cases (c == b' ')) [
  | inl e ↦ rw e (refl, tt)
  | inr e1 ↦ elim (Bool-cases (c == b'+')) [
    | inl e ↦ rw (e1, e) (refl, (refl, (refl, (refl, (refl, (refl, tt))))))
    | inr e2 ↦ elim (Bool-cases (c == b'*')) [
      | inl e ↦
          rw (e1, e2, e) (refl, (refl, (refl, (refl, (refl, (refl, (refl, (refl, (refl, tt)))))))))
      | inr e3 ↦ elim (Bool-cases (c == b':')) [
        | inl e ↦ rw (e1, e2, e3, e) (refl, tt)
        | inr e ↦ rw (e1, e2, e3, e) (h, tt)
      ]
    ]
  ]
]

replace_special-NotUpper : (t : Text) → All NotUpper t → All NotUpper (replace_special t)
unfolding replace_special
replace_special-NotUpper [] a = tt
replace_special-NotUpper (c ∷ []) a = replace_one-NotUpper c a.0
replace_special-NotUpper (c ∷ d ∷ t) a = elim (Bool-cases (c == dot && d == dot)) [
  | inl e ↦ rw e (replace_special-NotUpper t a.1.1)
  | inr e ↦ rw e (
      All-append NotUpper (replace_one c) (replace_special (d ∷ t)) (replace_one-NotUpper c a.0)
        (replace_special-NotUpper (d ∷ t) a.1))
]

keep_key_chars-IsSafeChar : (t : Text) → All NotUpper t → All IsSafeChar (keep_key_chars t)
unfolding keep_key_chars
keep_key_chars-IsSafeChar [] a = tt
keep_key_chars-IsSafeChar (c ∷ t) a = elim (Bool-cases (is_key_char c)) [
  | inl e ↦ rw e (ground (arith, e, a.0), keep_key_chars-IsSafeChar t a.1)
  | inr e ↦ rw e (keep_key_chars-IsSafeChar t a.1)
]

safe-IsSafeChar : (t : Text) → All IsSafeChar (safe t)
unfolding safe
safe-IsSafeChar t =
    let lowered = to_lower-NotUpper t in
    let left = trim_left-NotUpper (to_lower t) lowered in
    let trimmed = trim_right-NotUpper (trim_left (to_lower t)) left in
    keep_key_chars-IsSafeChar (replace_special (trim_space (to_lower t)))
      (replace_special-NotUpper (trim_space (to_lower t)) trimmed)

-- A character that neither the lowering nor the trimming nor the replacer changes.
abbrev IsPlain : ℕ → Type 0
IsPlain c = is_upper c || is_space c || c == b'+' || c == b'*' || c == b':' ≡ false

to_lower_same : (t : Text) → All IsPlain t → to_lower t ≡ t
to_lower_same [] a = refl
to_lower_same (c ∷ t) a = ground (arith, a.0, to_lower_same t a.1)

trim_left_same : (t : Text) → All IsPlain t → trim_left t ≡ t
trim_left_same [] a = refl
trim_left_same (c ∷ t) a = ground (arith, a.0)

trim_right_same : (t : Text) → All IsPlain t → trim_right t ≡ t
trim_right_same [] a = refl
trim_right_same (c ∷ t) a = ground (arith, a.0, trim_right_same t a.1)

trim_space_same : (t : Text) → All IsPlain t → trim_space t ≡ t
trim_space_same t a = ap trim_right (trim_left_same t a) ∙ trim_right_same t a

replace_one_same : (c : ℕ) → IsPlain c → replace_one c ≡ c ∷ []
replace_one_same c h = ground (arith, h)

replace_special_same : (t : Text) → All IsPlain t → has_dots t ≡ false → replace_special t ≡ t
unfolding replace_special
replace_special_same [] a h = refl
replace_special_same (c ∷ []) a h = replace_one_same c a.0
replace_special_same (c ∷ d ∷ t) a h =
    ground (arith, h, replace_one_same c a.0, replace_special_same (d ∷ t) a.1)

keep_key_chars_same : (t : Text) → All IsSafeChar t → keep_key_chars t ≡ t
unfolding keep_key_chars
keep_key_chars_same [] a = refl
keep_key_chars_same (c ∷ t) a = ground (arith, a.0, keep_key_chars_same t a.1)

safe-IsPlain : (t : Text) → All IsSafeChar t → All IsPlain t
safe-IsPlain [] a = tt
safe-IsPlain (c ∷ t) a = (ground (arith, a.0), safe-IsPlain t a.1)

-- On plain characters Safe is the replacer and the regular expression alone.
safe_plain : (t : Text) → All IsPlain t → safe t ≡ keep_key_chars (replace_special t)
unfolding safe
safe_plain t a =
    ap (λ x. keep_key_chars (replace_special (trim_space x))) (to_lower_same t a)
    ∙ ap (λ x. keep_key_chars (replace_special x)) (trim_space_same t a)

safe_same : (t : Text) → All IsSafeChar t → has_dots t ≡ false → safe t ≡ t
safe_same t a h =
    safe_plain t (safe-IsPlain t a)
    ∙ ap keep_key_chars (replace_special_same t (safe-IsPlain t a) h)
    ∙ keep_key_chars_same t a

-- For every text: its safe form has only small letters, digits, _, @, . and -, and when the safe
-- form has no two dots in a row, making it safe again changes nothing.
pub safe_lem :
    (t : Text) → All IsSafeChar (safe t) × (has_dots (safe t) ≡ false → safe (safe t) ≡ safe t)
safe_lem t = (safe-IsSafeChar t, λ h. safe_same (safe t) (safe-IsSafeChar t) h)

keep_key_chars-append :
    (s t : Text) → keep_key_chars (s ++ t) ≡ keep_key_chars s ++ keep_key_chars t
unfolding keep_key_chars
keep_key_chars-append [] t = refl
keep_key_chars-append (c ∷ s) t = ground (arith, keep_key_chars-append s t)

has_dots-append : (s t : Text) → contains_char dot s ≡ false → has_dots (s ++ t) ≡ has_dots t
has_dots-append [] t h = refl
has_dots-append (c ∷ []) [] h = refl
has_dots-append (c ∷ []) (d ∷ t) h = ground (arith, h)
has_dots-append (c ∷ d ∷ s) t h = ground (arith, h, has_dots-append (d ∷ s) t)

replace_special_dots :
    (s t : Text)
    → contains_char dot s ≡ false
    → All IsPlain s
    → replace_special (s ++ dot ∷ dot ∷ t) ≡ s ++ replace_special t
unfolding replace_special
replace_special_dots [] t h a = refl
replace_special_dots (c ∷ []) t h a = ground (arith, h, replace_one_same c a.0)
replace_special_dots (c ∷ d ∷ s) t h a =
    ground (arith, h, replace_one_same c a.0, replace_special_dots (d ∷ s) t)

module _ (before after : Text) (a : All IsSafeChar before) (b : All IsSafeChar after)
    (no_dot : contains_char dot before ≡ false) (no_dots : has_dots (dot ∷ after) ≡ false) where
  dotted-IsSafeChar : All IsSafeChar (before ++ (codes ".." ++ after))
  dotted-IsSafeChar = All-append IsSafeChar before (codes ".." ++ after) a (refl, (refl, b))

  junk-IsPlain : All IsPlain (before ++ (codes ".!." ++ after))
  junk-IsPlain =
      All-append IsPlain before (codes ".!." ++ after) (safe-IsPlain before a)
        (refl, (refl, (refl, safe-IsPlain after b)))

  safe_junk : safe (before ++ (codes ".!." ++ after)) ≡ before ++ (codes ".." ++ after)
  unfolding keep_key_chars
  safe_junk =
      safe_plain (before ++ (codes ".!." ++ after)) junk-IsPlain
      ∙ ap keep_key_chars (
          replace_special_same (before ++ (codes ".!." ++ after)) junk-IsPlain
            (has_dots-append before (codes ".!." ++ after) no_dot ∙ no_dots))
      ∙ keep_key_chars-append before (codes ".!." ++ after)
      ∙ rw (keep_key_chars_same before a, keep_key_chars_same after b) refl

  safe_dotted : safe (before ++ (codes ".." ++ after)) ≡ before ++ after
  safe_dotted =
      let dotted = before ++ (codes ".." ++ after) in
      safe_plain dotted (safe-IsPlain dotted dotted-IsSafeChar)
      ∙ ap keep_key_chars (
          replace_special_dots before after no_dot (safe-IsPlain before a)
          ∙ ap (◌++◌ before)
              (replace_special_same after (safe-IsPlain after b) (ground (arith, no_dots))))
      ∙ keep_key_chars_same (before ++ after) (All-append IsSafeChar before after a b)

  -- For safe texts, the first without a dot and the second with no two dots in a row and none at its
  -- start: the text that has `.!.` between them gets the safe form with `..` between them, which two
  -- dots then disappear from when it is made safe again.
  pub safe_lets_dots_through :
      (safe (before ++ (codes ".!." ++ after)) ≡ before ++ (codes ".." ++ after))
      × (safe (safe (before ++ (codes ".!." ++ after))) ≡ before ++ after)
  safe_lets_dots_through = (safe_junk, ap safe safe_junk ∙ safe_dotted)
