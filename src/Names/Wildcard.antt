-- ===== src/Names/Wildcard.antt =====
-- MatchWildcard decides a relation between the labels of the two names.
use mathlib.Core.List.{append_assoc}
use otomatik.Base.{
  ◌≡◌, refl, sym, ap, ◌∙◌, subst, true, false, List, [], ◌∷◌, ◌++◌, arith, if◌then◌else◌, All,
  All-append, Bool-cases, ◌⊎◌, inl, inr, ◌≢◌, ◌↔◌, ap,
}
use otomatik.Base.Text.{Text, dot, star, is_empty, split, join, contains_char, text_eq, text_eq_iff}
use otomatik.Names.{match_labels, match_wildcard}
use otomatik.Names.Labels.{IsLabel, join-split, split-join, split-IsLabel}

abbrev starred : Text → Text
starred l = if is_empty l then l else star ∷ []

-- The labels of a pattern: those of the name with the labels up to some non-empty one replaced by
-- stars, empty labels left alone.
abbrev pub Stars : List Text → List Text → Type 0
Stars (l ∷ ls) (w ∷ ws) = (w ≡ starred l) × (((is_empty l ≡ false) × (ws ≡ ls)) ⊎ Stars ls ws)
Stars _ _ = ⊥

-- A star pattern after some labels that both share.
StarsAfter : List Text → List Text → List Text → Type 0
StarsAfter before ls w = (ws : List Text) × (w ≡ before ++ ws) × Stars ls ws

-- A candidate of the loop is the pattern exactly if its labels are those of the pattern.
join_eq :
    (ms : List Text) (wildcard : Text)
    → ms ≢ []
    → All (IsLabel dot) ms
    → (text_eq (join dot ms) wildcard ≡ true) ↔ (split dot wildcard ≡ ms)
join_eq ms wildcard ne a = (
  λ h. sym (ap (split dot) ((text_eq_iff (join dot ms) wildcard).0 h)) ∙ split-join dot ms ne a,
  λ e. (text_eq_iff (join dot ms) wildcard).1 (ap (join dot) (sym e) ∙ join-split dot wildcard),
)

append-ne-nil : {A : Type 0} (xs : List A) (y : A) (ys : List A) → xs ++ y ∷ ys ≢ []
append-ne-nil [] y ys e = cc
append-ne-nil (x ∷ xs) y ys e = cc

starred-IsLabel : (l : Text) → IsLabel dot l → IsLabel dot (starred l)
starred-IsLabel [] h = refl
starred-IsLabel (c ∷ l) h = refl

match_labels_sound :
    (before ls : List Text) (wildcard : Text)
    → All (IsLabel dot) before
    → All (IsLabel dot) ls
    → match_labels before ls wildcard ≡ true
    → StarsAfter before ls (split dot wildcard)
unfolding match_labels StarsAfter
match_labels_sound before [] wildcard b a h = absurd (cc)
match_labels_sound before ([] ∷ ls) wildcard b a h =
    let rest =
      match_labels_sound (before ++ [] ∷ []) ls wildcard
        (All-append (IsLabel dot) before ([] ∷ []) b (refl, tt)) a.1 h in
    ([] ∷ rest.0, rest.1 ∙ append_assoc before ([] ∷ []) rest.0, (refl, inr rest.2))
match_labels_sound before ((c ∷ l) ∷ ls) wildcard b a h =
    let candidate = before ++ (star ∷ []) ∷ ls in
    elim (Bool-cases (text_eq (join dot candidate) wildcard)) [
      | inl e ↦ (
        (star ∷ []) ∷ ls,
        (join_eq candidate wildcard (append-ne-nil before (star ∷ []) ls)
              (All-append (IsLabel dot) before ((star ∷ []) ∷ ls) b (refl, a.1))).0
            e,
        (refl, inl (refl, refl)),
      )
      | inr e ↦
          let again : match_labels (before ++ (star ∷ []) ∷ []) ls wildcard ≡ true =
            sym (rw e refl) ∙ h in
          let rest =
            match_labels_sound (before ++ (star ∷ []) ∷ []) ls wildcard
              (All-append (IsLabel dot) before ((star ∷ []) ∷ []) b (refl, tt)) a.1 again in
          (
            (star ∷ []) ∷ rest.0,
            rest.1 ∙ append_assoc before ((star ∷ []) ∷ []) rest.0,
            (refl, inr rest.2),
          )
    ]

match_labels_complete :
    (before ls ws : List Text) (wildcard : Text)
    → All (IsLabel dot) before
    → All (IsLabel dot) ls
    → split dot wildcard ≡ before ++ ws
    → Stars ls ws
    → match_labels before ls wildcard ≡ true
unfolding match_labels
match_labels_complete before [] ws wildcard b a e s = absurd s
match_labels_complete before (l ∷ ls) [] wildcard b a e s = absurd s
match_labels_complete before ([] ∷ ls) (w ∷ ws) wildcard b a e (at, inl last) = absurd (cc)
match_labels_complete before ([] ∷ ls) (w ∷ ws) wildcard b a e (at, inr later) =
    let parts : split dot wildcard ≡ (before ++ [] ∷ []) ++ ws =
      e ∙ ap (λ x. before ++ x ∷ ws) at ∙ sym (append_assoc before ([] ∷ []) ws) in
    match_labels_complete (before ++ [] ∷ []) ls ws wildcard
      (All-append (IsLabel dot) before ([] ∷ []) b (refl, tt)) a.1 parts later
match_labels_complete before ((c ∷ l) ∷ ls) (w ∷ ws) wildcard b a e (at, inl last) =
    let candidate = before ++ (star ∷ []) ∷ ls in
    let hit : text_eq (join dot candidate) wildcard ≡ true =
      (join_eq candidate wildcard (append-ne-nil before (star ∷ []) ls)
          (All-append (IsLabel dot) before ((star ∷ []) ∷ ls) b (refl, a.1))).1
        (e ∙ rw (at, last.1) refl) in
    rw hit refl
match_labels_complete before ((c ∷ l) ∷ ls) (w ∷ ws) wildcard b a e (at, inr later) =
    let parts : split dot wildcard ≡ (before ++ (star ∷ []) ∷ []) ++ ws =
      e ∙ ap (λ x. before ++ x ∷ ws) at ∙ sym (append_assoc before ((star ∷ []) ∷ []) ws) in
    let rest =
      match_labels_complete (before ++ (star ∷ []) ∷ []) ls ws wildcard
        (All-append (IsLabel dot) before ((star ∷ []) ∷ []) b (refl, tt)) a.1 parts later in
    ground (arith, rest)

-- What the pattern `wildcard` matches.
abbrev pub Matches : Text → Text → Type 0
Matches subject wildcard =
    (subject ≡ wildcard)
    ⊎ ((contains_char star wildcard ≡ true) × Stars (split dot subject) (split dot wildcard))

-- For every name and every pattern: `match_wildcard` answers true exactly if the two are equal, or
-- the pattern has a star and its labels are those of the name with every label up to and with some
-- non-empty one replaced by a star, empty labels left alone. So stars stand for whole labels and
-- only from the left.
pub match_wildcard_lem :
    (subject wildcard : Text) → (match_wildcard subject wildcard ≡ true) ↔ Matches subject wildcard
unfolding match_wildcard
match_wildcard_lem subject wildcard = (
  λ h. elim (Bool-cases (text_eq subject wildcard)) [
    | inl e ↦ inl ((text_eq_iff subject wildcard).0 e)
    | inr e ↦ elim (Bool-cases (contains_char star wildcard)) [
      | inr f ↦ absurd (ground (arith, e, f, h))
      | inl f ↦
          let found : match_labels [] (split dot subject) wildcard ≡ true =
            sym (rw (e, f) refl) ∙ h in
          let got =
            match_labels_sound [] (split dot subject) wildcard tt (split-IsLabel dot subject)
              found in
          unfold StarsAfter in inr (f, subst (Stars (split dot subject)) (sym got.1) got.2)
    ]
  ],
  λ m. elim m [
    | inl e ↦ rw ((text_eq_iff subject wildcard).1 e) refl
    | inr p ↦
        let found =
          match_labels_complete [] (split dot subject) (split dot wildcard) wildcard tt
            (split-IsLabel dot subject) refl p.1 in
        ground (arith, found, p.0)
  ],
)
