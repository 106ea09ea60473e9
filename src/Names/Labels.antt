-- ===== src/Names/Labels.antt =====
-- Splitting a name into its labels, and joining them again.
use otomatik.Base.{
  ℕ, ◌≡◌, refl, ap, ◌∙◌, false, List, [], ◌∷◌, ◌++◌, arith, ◌==◌, All, Bool-cases, inl, inr, ◌≢◌,
}
use otomatik.Base.Text.{Text, split, join, cons_head, contains_char}

pub split-ne-nil : (sep : ℕ) (t : Text) → split sep t ≢ []
split-ne-nil sep [] e = cc
split-ne-nil sep (c ∷ t) e = ground (arith, split-ne-nil sep t)

join-cons_head : (sep c : ℕ) (ls : List Text) → join sep (cons_head c ls) ≡ c ∷ join sep ls
join-cons_head sep c [] = refl
join-cons_head sep c (l ∷ []) = refl
join-cons_head sep c (l ∷ m ∷ ls) = refl

join-nil_cons : (sep : ℕ) (ls : List Text) → ls ≢ [] → join sep ([] ∷ ls) ≡ sep ∷ join sep ls
join-nil_cons sep [] h = absurd (h refl)
join-nil_cons sep (l ∷ ls) h = refl

-- A text is the join of its parts.
pub join-split : (sep : ℕ) (t : Text) → join sep (split sep t) ≡ t
join-split sep [] = refl
join-split sep (c ∷ t) = elim (Bool-cases (c == sep)) [
  | inl at ↦
      rw at (
        join-nil_cons sep (split sep t) (split-ne-nil sep t) ∙ ground (arith, at, join-split sep t))
  | inr off ↦ rw off (join-cons_head sep c (split sep t) ∙ ap (◌∷◌ c) (join-split sep t))
]

-- A label holds no separator.
abbrev pub IsLabel : ℕ → Text → Type 0
IsLabel sep l = contains_char sep l ≡ false

cons_head-IsLabel :
    (sep c : ℕ) (ls : List Text)
    → (c == sep) ≡ false
    → All (IsLabel sep) ls
    → All (IsLabel sep) (cons_head c ls)
cons_head-IsLabel sep c [] h a = (rw h, tt)
cons_head-IsLabel sep c (l ∷ ls) h a = (rw (h, a.0), a.1)

pub split-IsLabel : (sep : ℕ) (t : Text) → All (IsLabel sep) (split sep t)
split-IsLabel sep [] = (refl, tt)
split-IsLabel sep (c ∷ t) = elim (Bool-cases (c == sep)) [
  | inl at ↦ rw at (refl, split-IsLabel sep t)
  | inr off ↦ rw off (cons_head-IsLabel sep c (split sep t) off (split-IsLabel sep t))
]

pub split_label : (sep : ℕ) (l : Text) → IsLabel sep l → split sep l ≡ l ∷ []
split_label sep [] h = refl
split_label sep (c ∷ l) h = ground (arith, split_label sep l)

split_first : (sep : ℕ) (l t : Text) → IsLabel sep l → split sep (l ++ sep ∷ t) ≡ l ∷ split sep t
split_first sep [] t h = ground arith
split_first sep (c ∷ l) t h = ground (arith, split_first sep l t)

-- Labels come back from their join.
pub split-join :
    (sep : ℕ) (ls : List Text) → ls ≢ [] → All (IsLabel sep) ls → split sep (join sep ls) ≡ ls
split-join sep [] h a = absurd (h refl)
split-join sep (l ∷ []) h a = split_label sep l a.0
split-join sep (l ∷ m ∷ ls) h a =
    split_first sep l (join sep (m ∷ ls)) a.0 ∙ ap (◌∷◌ l) (split-join sep (m ∷ ls) (λ e. cc) a.1)
