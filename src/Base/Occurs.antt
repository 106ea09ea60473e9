-- ===== src/Base/Occurs.antt =====
-- How often a text stands in a list of texts.
use mathlib.Core.Path.{◌≡◌, refl}
use mathlib.Core.List.{List, [], ◌∷◌, ◌++◌}
use mathlib.Core.Bool.{Bool}
use Prim.Native.Nat.{ℕ, ◌+◌}
use native.Mathlib.Omega.{arith}
use otomatik.Base.Tests.{if◌then◌else◌}
use otomatik.Base.Text.{Text, text_eq, text_eq_iff}

abbrev pub one_if : Bool → ℕ
one_if b = if b then 1 else 0

abbrev pub occurs : Text → List Text → ℕ
occurs t [] = 0
occurs t (s ∷ l) = one_if (text_eq s t) + occurs t l

-- The list without a text.
abbrev pub without : Text → List Text → List Text
without t [] = []
without t (s ∷ l) = let rest = without t l in if text_eq s t then rest else s ∷ rest

pub occurs-append : (t : Text) (k l : List Text) → occurs t (k ++ l) ≡ occurs t k + occurs t l
occurs-append t [] l = omega arith
occurs-append t (s ∷ k) l = omega (arith, occurs-append t k l)

pub occurs-without :
    (t u : Text) (l : List Text) → occurs t (without u l) ≡ (if text_eq u t then 0 else occurs t l)
occurs-without t u [] = ground arith
occurs-without t u (s ∷ l) =
    ground (arith, occurs-without t u l, text_eq_iff s u, text_eq_iff s t, text_eq_iff u t)

pub without_absent : (t : Text) (l : List Text) → occurs t l ≡ 0 → without t l ≡ l
without_absent t [] h = refl
without_absent t (s ∷ l) h = ground (arith, without_absent t l)
