-- ===== src/Keys/Paths.antt =====
-- The end of a path that path.Join makes.
use otomatik.Base.{
  ℕ, ◌≡◌, ◌≢◌, refl, ap, ◌∙◌, Bool, true, false, List, [], ◌∷◌, ◌++◌, if◌then◌else◌, ◌==◌,
  Bool-cases, inl, inr,
}
use otomatik.Base.Text.{Text, slash, dot, is_empty, split, join, text_eq}
use otomatik.Keys.{push_part, push_parts, reversed, clean_path, or_dot, is_rooted, path_join}
use otomatik.Names.Labels.{IsLabel, split_label, split-ne-nil}

-- The last character, 0 if there is none.
abbrev pub last : Text → ℕ
last [] = 0
last (c ∷ []) = c
last (c ∷ d ∷ t) = last (d ∷ t)

abbrev pub last_part : List Text → Text
last_part [] = []
last_part (p ∷ []) = p
last_part (p ∷ q ∷ ps) = last_part (q ∷ ps)

-- A part of a path that path.Clean neither drops nor reads as the parent.
abbrev pub IsPart : Text → Type 0
IsPart p =
    (is_empty p ≡ false)
    × (text_eq p (dot ∷ []) ≡ false)
    × (text_eq p (dot ∷ dot ∷ []) ≡ false)
    × IsLabel slash p

pub last-append : (s : Text) (c : ℕ) (t : Text) → last (s ++ c ∷ t) ≡ last (c ∷ t)
last-append [] c t = refl
last-append (b ∷ []) c t = refl
last-append (b ∷ a ∷ s) c t = last-append (a ∷ s) c t

last-slash : (t : Text) → is_empty t ≡ false → last (slash ∷ t) ≡ last t
last-slash [] e = absurd (cc)
last-slash (c ∷ t) e = refl

is_empty-join :
    (ps : List Text) → is_empty (last_part ps) ≡ false → is_empty (join slash ps) ≡ false
is_empty-join [] e = e
is_empty-join (p ∷ []) e = e
is_empty-join ([] ∷ q ∷ ps) e = refl
is_empty-join ((c ∷ p) ∷ q ∷ ps) e = refl

-- The last character of a join is that of its last part, unless that is empty.
last-join :
    (ps : List Text) → is_empty (last_part ps) ≡ false → last (join slash ps) ≡ last (last_part ps)
last-join [] h = refl
last-join (p ∷ []) h = refl
last-join (p ∷ q ∷ ps) h =
    last-append p slash (join slash (q ∷ ps))
    ∙ last-slash (join slash (q ∷ ps)) (is_empty-join (q ∷ ps) h)
    ∙ last-join (q ∷ ps) h

-- What follows the last slash of a text is the last part of its split.
EndsIn : List Text → Text → Type 0
EndsIn ps p = (q r : Text) × (rs : List Text) × (ps ≡ q ∷ r ∷ rs) × (last_part (r ∷ rs) ≡ p)

split-EndsIn : (s p : Text) → IsLabel slash p → EndsIn (split slash (s ++ slash ∷ p)) p
unfolding EndsIn
split-EndsIn [] p h = ([], p, [], ap (◌∷◌ []) (split_label slash p h), refl)
split-EndsIn (c ∷ s) p h =
    let (q, r, rs, e, l) = split-EndsIn s p h in
    elim (Bool-cases (c == slash)) [
      | inl at ↦ ([], q, r ∷ rs, rw (at, e) refl, l)
      | inr off ↦ (c ∷ q, r, rs, rw (off, e) refl, l)
    ]

last_part-split : (s p : Text) → IsLabel slash p → last_part (split slash (s ++ slash ∷ p)) ≡ p
unfolding EndsIn
last_part-split s p h = let (q, r, rs, e, l) = split-EndsIn s p h in ap last_part e ∙ l

push_part-IsPart :
    (rooted : Bool) (stack : List Text) (p : Text) → IsPart p → push_part rooted stack p ≡ p ∷ stack
unfolding push_part
push_part-IsPart rooted stack p (a, b, c, d) = rw (a, b, c) refl

push_parts-last :
    (rooted : Bool) (stack ps : List Text) (p : Text)
    → IsPart p
    → last_part ps ≡ p
    → ps ≢ []
    → (below : List Text) × (push_parts rooted stack ps ≡ p ∷ below)
unfolding push_parts
push_parts-last rooted stack [] p i e ne = absurd (ne refl)
push_parts-last rooted stack (q ∷ []) p i e ne =
    (stack, ap (push_part rooted stack) e ∙ push_part-IsPart rooted stack p i)
push_parts-last rooted stack (q ∷ r ∷ ps) p i e ne =
    push_parts-last rooted (push_part rooted stack q) (r ∷ ps) p i e (λ h. cc)

last_part-reversed :
    (p : Text) (done ps : List Text) → last_part (reversed (p ∷ done) ps) ≡ last_part (p ∷ done)
last_part-reversed p done [] = refl
last_part-reversed p done (q ∷ ps) = last_part-reversed q (p ∷ done) ps

last-or_dot :
    (ps : List Text) (p : Text) → is_empty p ≡ false → last_part ps ≡ p → last (or_dot ps) ≡ last p
last-or_dot [] p h e = absurd (cc (ap is_empty e, h))
last-or_dot (q ∷ ps) p h e = last-join (q ∷ ps) (ap is_empty e ∙ h) ∙ ap last e

last-clean_parts :
    (rooted : Bool) (ps : List Text) (p : Text)
    → is_empty p ≡ false
    → last_part ps ≡ p
    → last (if rooted then slash ∷ join slash ps else or_dot ps) ≡ last p
last-clean_parts true ps p h e =
    let filled = ap is_empty e ∙ h in
    last-slash (join slash ps) (is_empty-join ps filled) ∙ last-join ps filled ∙ ap last e
last-clean_parts false ps p h e = last-or_dot ps p h e

last-clean_path :
    (t p : Text) → IsPart p → last_part (split slash t) ≡ p → last (clean_path t) ≡ last p
unfolding clean_path
last-clean_path t p i e =
    let rooted = is_rooted t in
    let (below, stack) = push_parts-last rooted [] (split slash t) p i e (split-ne-nil slash t) in
    last-clean_parts rooted (reversed [] (push_parts rooted [] (split slash t))) p i.0
      (ap (λ ps. last_part (reversed [] ps)) stack ∙ last_part-reversed p [] below)

-- A joined path ends as its last part does.
pub last-path_join : (a p : Text) → IsPart p → last (path_join (a ∷ p ∷ [])) ≡ last p
unfolding path_join
last-path_join [] [] i = absurd (cc (i.0))
last-path_join [] (d ∷ p) i =
    last-clean_path (d ∷ p) (d ∷ p) i (ap last_part (split_label slash (d ∷ p) i.3))
last-path_join (c ∷ a) [] i = absurd (cc (i.0))
last-path_join (c ∷ a) (d ∷ p) i =
    last-clean_path (c ∷ a ++ slash ∷ d ∷ p) (d ∷ p) i (last_part-split (c ∷ a) (d ∷ p) i.3)
