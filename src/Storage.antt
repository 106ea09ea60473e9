-- ===== src/Storage.antt =====
-- storage.go: the storage interface as the program uses it, storeTx, and the keys of KeyBuilder.
pub mod Transaction
pub mod SafeKey
use otomatik.Base.{
  ℕ, Bool, true, false, ◌&&◌, ◌||◌, not, List, [], ◌∷◌, ◌++◌, Option, none, some, leb, ◌==◌,
  if◌then◌else◌,
}
use otomatik.Base.Text.{Text, codes, dot, to_lower, trim_space}
use otomatik.Base.Errors.{Error}
use otomatik.Base.Result.{Result}

-- KeyInfo; the times are nanoseconds.
pub record KeyInfo : Type 0 where
  pub key : Text
  pub modified : ℕ
  pub size : ℕ
  pub is_terminal : Bool

-- Storage, with the Locker: each call leaves an error or none, or a result, and the state after.
pub record Storage (S : Type 0) : Type 0 where
  pub store : Text → Text → S → Option Error × S
  pub load : Text → S → Result Text × S
  pub delete : Text → S → Option Error × S
  pub exists : Text → S → Bool × S
  pub list : Text → Bool → S → Result (List Text) × S
  pub stat : Text → S → Result KeyInfo × S
  pub lock : Text → S → Option Error × S
  pub unlock : Text → S → Option Error × S

pub record KeyValue : Type 0 where
  pub key : Text
  pub value : Text

-- The inner loop of storeTx: `stored` are the pairs that were stored, the last one first.
unfoldable pub roll_back : {S : Type 0} → Storage S → List KeyValue → S → S
roll_back x [] s = s
roll_back x (kv ∷ stored) s = roll_back x stored (x.delete kv.key s).1

unfoldable pub store_all :
    {S : Type 0} → Storage S → List KeyValue → List KeyValue → S → Option Error × S
unfolding roll_back
store_all x stored [] s = (none, s)
store_all x stored (kv ∷ all) s =
    let r = x.store kv.key kv.value s in
    elim r.0 [
      | none ↦ store_all x (kv ∷ stored) all r.1
      | some err ↦ (some err, roll_back x stored r.1)
    ]

unfoldable pub store_tx : {S : Type 0} → Storage S → List KeyValue → S → Option Error × S
unfolding store_all
store_tx x all s = store_all x [] all s

-- What the replacer of Safe puts for a single character.
abbrev pub replace_one : ℕ → Text
replace_one c =
    if c == b' '
    then codes "_"
    else if c == b'+'
    then codes "_plus_"
    else if c == b'*'
    then codes "wildcard_"
    else if c == b':'
    then codes "-"
    else c ∷ []

-- The replacer of Safe: at each position the first of its pairs that fits.
unfoldable pub replace_special : Text → Text
replace_special [] = []
replace_special (c ∷ []) = replace_one c
replace_special (c ∷ d ∷ t) =
    let rest = replace_special (d ∷ t) in
    let past = replace_special t in if c == dot && d == dot then past else replace_one c ++ rest

-- The characters that safeKeyRE keeps.
abbrev pub is_key_char : ℕ → Bool
is_key_char c =
    (leb b'0' c && leb c b'9')
    || (leb b'A' c && leb c b'Z')
    || (leb b'a' c && leb c b'z')
    || c == b'_'
    || c == b'@'
    || c == b'.'
    || c == b'-'

unfoldable pub keep_key_chars : Text → Text
keep_key_chars [] = []
keep_key_chars (c ∷ t) = let rest = keep_key_chars t in if is_key_char c then c ∷ rest else rest

-- KeyBuilder.Safe
unfoldable pub safe : Text → Text
unfolding replace_special keep_key_chars
safe str = keep_key_chars (replace_special (trim_space (to_lower str)))
