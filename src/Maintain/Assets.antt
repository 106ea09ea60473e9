-- ===== src/Maintain/Assets.antt =====
-- maintain.go: the keys of the assets of a site.
use otomatik.Base.{
  ℕ, ◌+◌, ◌≡◌, ◌⊎◌, refl, sym, ap, ◌∙◌, Bool, true, false, [], ◌∷◌, ◌++◌, arith, Bool-cases, inl,
  inr,
}
use mathlib.Core.List.{append_cancel_right}
use otomatik.Base.Text.{Text, slash, text_eq, text_eq_iff, count_char}
use otomatik.Keys.Paths.{last, last-append}
use otomatik.Maintain.Expired.{later_or, ext, trim_suffix, crt, key_ext, json_ext}

later_or-eq :
    (later t : Text) (here : Bool) (e : ℕ) (es : Text)
    → later_or later here t ≡ e ∷ es
    → (later ≡ e ∷ es) ⊎ (t ≡ e ∷ es)
later_or-eq [] t true e es h = inr h
later_or-eq [] t false e es h = cc
later_or-eq (c ∷ l) t here e es h = inl h

-- A key with the extension is what stays when it is trimmed, and the extension.
pub ext-trim_suffix : (k : Text) → ext k ≡ crt → k ≡ trim_suffix k crt ++ crt
unfolding ext trim_suffix
ext-trim_suffix [] h = cc
ext-trim_suffix (c ∷ t) h = elim (Bool-cases (text_eq (c ∷ t) crt)) [
  | inl e ↦ rw e ((text_eq_iff (c ∷ t) crt).0 e)
  | inr e ↦
      rw e
        (ap (λ r. c ∷ r) (later e (later_or-eq (ext t) (c ∷ t) _ _ _ h) (λ i. ext-trim_suffix t i)))
]
  where
    later :
        text_eq (c ∷ t) crt ≡ false
        → (ext t ≡ crt) ⊎ ((c ∷ t) ≡ crt)
        → (ext t ≡ crt → t ≡ trim_suffix t crt ++ crt)
        → t ≡ trim_suffix t crt ++ crt
    later e (inl i) ih = ih i
    later e (inr i) ih = cc ((text_eq_iff (c ∷ t) crt).1 i)

-- The assets of a site by their extension
pub data Kind : Type 0 where
  certificate : Kind
  private_key : Kind
  metadata : Kind

abbrev pub ext_of : Kind → Text
ext_of certificate = crt
ext_of private_key = key_ext
ext_of metadata = json_ext

last_ext : (b : Text) (k : Kind) → last (b ++ ext_of k) ≡ last (ext_of k)
last_ext b certificate = last-append b _ _
last_ext b private_key = last-append b _ _
last_ext b metadata = last-append b _ _

ext_of-injective : (k l : Kind) → last (ext_of k) ≡ last (ext_of l) → ext_of k ≡ ext_of l
ext_of-injective certificate certificate h = refl
ext_of-injective certificate private_key h = absurd (omega arith)
ext_of-injective certificate metadata h = absurd (omega arith)
ext_of-injective private_key certificate h = absurd (omega arith)
ext_of-injective private_key private_key h = refl
ext_of-injective private_key metadata h = absurd (omega arith)
ext_of-injective metadata certificate h = absurd (omega arith)
ext_of-injective metadata private_key h = absurd (omega arith)
ext_of-injective metadata metadata h = refl

base_of : (a b : Text) (k l : Kind) → a ++ ext_of k ≡ b ++ ext_of l → a ≡ b
base_of a b k l h = append_cancel_right a b (ext_of k) (
    h
    ∙ ap (λ e. b ++ e) (sym (ext_of-injective k l (sym (last_ext a k) ∙ ap last h ∙ last_ext b l))))

pub other_asset :
    (a b : Text) (k l : Kind)
    → text_eq a b ≡ false
    → text_eq (a ++ ext_of k) (b ++ ext_of l) ≡ false
other_asset a b k l h = elim (Bool-cases (text_eq (a ++ ext_of k) (b ++ ext_of l))) [
  | inl e ↦ absurd (
      let c : text_eq a b ≡ true =
        (text_eq_iff a b).1 (base_of a b k l ((text_eq_iff (a ++ ext_of k) (b ++ ext_of l)).0 e)) in
      cc)
  | inr e ↦ e
]

slashes-append : (a b : Text) → count_char slash (a ++ b) ≡ count_char slash a + count_char slash b
slashes-append [] b = omega arith
slashes-append (c ∷ a) b = omega (arith, slashes-append a b)

pub slashes_ext : (b : Text) (k : Kind) → count_char slash (b ++ ext_of k) ≡ count_char slash b
slashes_ext b certificate = omega (arith, slashes-append b crt)
slashes_ext b private_key = omega (arith, slashes-append b key_ext)
slashes_ext b metadata = omega (arith, slashes-append b json_ext)
