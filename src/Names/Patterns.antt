-- ===== src/Names/Patterns.antt =====
-- The patterns for a name that the loops over its labels try.
use otomatik.Base.{◌≡◌, refl, ap, List, [], ◌∷◌, ◌++◌, map}
use otomatik.Base.Text.{Text, dot, star, join}

-- A pattern for the name with these labels: some labels from the left are stars, perhaps none.
abbrev pub IsPattern : List Text → Text → Type 0
IsPattern labels p =
    (before : List Text) × (after : List Text) × (labels ≡ before ++ after)
    × (p ≡ join dot (map (λ _. star ∷ []) before ++ after))

abbrev pub stars : List Text → List Text
stars = map (λ _. star ∷ [])

pub stars-append :
    (before : List Text) (l : Text) → stars before ++ (star ∷ []) ∷ [] ≡ stars (before ++ l ∷ [])
stars-append [] l = refl
stars-append (b ∷ before) l = ap (◌∷◌ (star ∷ [])) (stars-append before l)
