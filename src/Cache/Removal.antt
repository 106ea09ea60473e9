-- ===== src/Cache/Removal.antt =====
-- What the loops of removeCertificate do to the lists of the index.
use mathlib.Core.List.{append_assoc}
use otomatik.Base.{
  ℕ, zero, suc, ◌+◌, ◌-◌, ◌≤◌, ◌≡◌, ◌≢◌, refl, sym, ap, ◌∙◌, true, false, List, [], ◌∷◌, ◌++◌, some,
  leb, if◌then◌else◌, length, get_or, take, arith, length-append, Bool-cases, ◌==◌, inl, inr,
}
use otomatik.Base.Outcome.{done, panic}
use otomatik.Base.Occurs.{occurs, without, without_absent, occurs-without}
use otomatik.Base.Text.{Text, text_eq, text_eq_iff, text_eq_refl}
use otomatik.Base.Map.{Map, get, put, get-put, get-delete}
use otomatik.Cache.{entries, slide, shift, remove_key, store_keys, unindex_names}

take-length : (l : List Text) → take (length l) l ≡ l
take-length [] = refl
take-length (x ∷ l) = ap (◌∷◌ x) (take-length l)

get_or-append : (p : List Text) (x : Text) (r : List Text) → get_or (p ++ x ∷ r) (length p) [] ≡ x
get_or-append [] x r = refl
get_or-append (y ∷ p) x r = get_or-append p x r

-- The slide moves what stands in the list, and the cell that it frees is the last one.
pub length-slide : (a : List Text) (n : ℕ) → length (slide a n) ≡ length a
unfolding slide
length-slide [] n = refl
length-slide (x ∷ []) n = refl
length-slide (x ∷ y ∷ a) zero = refl
length-slide (x ∷ y ∷ a) (suc n) = ap suc (length-slide (y ∷ a) n)

occurs-slide : (t : Text) (a : List Text) (n : ℕ) → occurs t a ≡ 0 → occurs t (slide a n) ≡ 0
unfolding slide
occurs-slide t [] n h = refl
occurs-slide t (x ∷ []) n h = h
occurs-slide t (x ∷ y ∷ a) zero h = h
occurs-slide t (x ∷ y ∷ a) (suc n) h = omega (arith, occurs-slide t (y ∷ a) n (omega arith))

take-slide : (x : Text) (a : List Text) → take (length a) (slide (x ∷ a) (length a)) ≡ a
unfolding slide
take-slide x [] = refl
take-slide x (y ∷ a) = ap (◌∷◌ y) (take-slide y a)

shift-append :
    (p : List Text) (a : List Text) (n : ℕ) → shift (p ++ a) (length p) n ≡ p ++ slide a n
unfolding shift
shift-append [] a n = refl
shift-append (x ∷ p) a n = ap (◌∷◌ x) (shift-append p a n)

take-append : (p : List Text) (a : List Text) (n : ℕ) → take (length p + n) (p ++ a) ≡ p ++ take n a
take-append [] a n = ap (λ k. take k a) (omega arith)
take-append (x ∷ p) a n =
    let more : suc (length p) + n ≡ suc (length p + n) = omega arith in
    ap (λ k. take k (x ∷ (p ++ a))) more ∙ ap (◌∷◌ x) (take-append p a n)

-- One round over a key that is another's.
remove_key_miss :
    (hash : Text) (k : ℕ) (p : List Text) (x : Text) (r : List Text) (l : ℕ)
    → text_eq x hash ≡ false
    → remove_key (suc k) (length p) hash (p ++ x ∷ r) l
      ≡ remove_key k (length (p ++ x ∷ [])) hash ((p ++ x ∷ []) ++ r) l
unfolding remove_key
remove_key_miss hash k p x r l e =
    rw (get_or-append p x r, e, length-append p (x ∷ []), append_assoc p (x ∷ []) r)

-- Past the key the loop changes nothing more.
remove_key_rest :
    (hash : Text) (p r : List Text) (l : ℕ)
    → occurs hash r ≡ 0
    → remove_key (length r) (length p) hash (p ++ r) l ≡ done (take l (p ++ r))
remove_key_rest hash p [] l h = unfold remove_key in refl
remove_key_rest hash p (x ∷ r) l h =
    remove_key_miss hash (length r) p x r l (ground (arith, h))
    ∙ remove_key_rest hash (p ++ x ∷ []) r l (ground (arith, h))
    ∙ ap (λ a. done (take l a)) (append_assoc p (x ∷ []) r)

-- One round over the key itself.
remove_key_hit :
    (hash : Text) (k : ℕ) (p : List Text) (x : Text) (r : List Text)
    → text_eq x hash ≡ true
    → remove_key (suc k) (length p) hash (p ++ x ∷ r) (length (p ++ x ∷ r))
      ≡ remove_key k (length p + 1) hash (p ++ slide (x ∷ r) (length r)) (length p + length r)
unfolding remove_key
remove_key_hit hash k p x r e =
    let size = length-append p (x ∷ r) in
    let cells : length (p ++ x ∷ r) - 1 - length p ≡ length r = omega (arith, size) in
    let left : length (p ++ x ∷ r) - 1 ≡ length p + length r = omega (arith, size) in
    let fits : leb (length p + 1) (length (p ++ x ∷ r)) ≡ true = ground (arith, size) in
    rw (get_or-append p x r, e, fits, cells, left, shift-append p (x ∷ r) (length r))

remove_key_tail :
    (hash : Text) (p : List Text) (y : Text) (r : List Text) (k l : ℕ)
    → k ≡ length r
    → occurs hash r ≡ 0
    → remove_key k (length p + 1) hash (p ++ y ∷ r) l ≡ done (take l (p ++ y ∷ r))
remove_key_tail hash p y r k l e h = rw e (
    rw (length-append p (y ∷ []), append_assoc p (y ∷ []) r) at
      (remove_key_rest hash (p ++ y ∷ []) r l h))

-- The rounds that are left after the hit.
remove_key_after_hit :
    (hash : Text) (p : List Text) (x : Text) (r : List Text)
    → occurs hash r ≡ 0
    → remove_key
        (length r)
        (length p + 1)
        hash
        (p ++ slide (x ∷ r) (length r))
        (length p + length r)
      ≡ done (take (length p + length r) (p ++ slide (x ∷ r) (length r)))
remove_key_after_hit hash p x [] h = unfold remove_key in refl
remove_key_after_hit hash p x (y ∷ r) h =
    unfold slide in
    remove_key_tail hash p y (slide (y ∷ r) (length r)) (suc (length r)) _
      (sym (length-slide (y ∷ r) (length r))) (occurs-slide hash (y ∷ r) (length r) h)

-- From index `length p` on, the first `length p` keys being others'.
remove_key_from :
    (hash : Text) (p r : List Text)
    → occurs hash r ≤ 1
    → remove_key (length r) (length p) hash (p ++ r) (length (p ++ r)) ≡ done (p ++ without hash r)
remove_key_from hash p [] h = unfold remove_key in ap done (take-length (p ++ []))
remove_key_from hash p (x ∷ r) h = elim (Bool-cases (text_eq x hash)) [
  | inl hit ↦
      let gone : occurs hash r ≡ 0 = ground (arith, h, hit) in
      rw hit (
        remove_key_hit hash (length r) p x r hit
        ∙ remove_key_after_hit hash p x r gone
        ∙ ap done
            (take-append p (slide (x ∷ r) (length r)) (length r) ∙ ap (◌++◌ p) (take-slide x r))
        ∙ ap (λ q. done (p ++ q)) (sym (without_absent hash r gone)))
  | inr miss ↦ rw miss (
      ap (remove_key (suc (length r)) (length p) hash (p ++ x ∷ r))
        (ap length (sym (append_assoc p (x ∷ []) r)))
      ∙ remove_key_miss hash (length r) p x r _ miss
      ∙ remove_key_from hash (p ++ x ∷ []) r (ground (arith, h, miss))
      ∙ ap done (append_assoc p (x ∷ []) (without hash r)))
]

-- A list that holds the hash at most once loses it, and nothing else.
pub remove_key_lem :
    (hash : Text) (l : List Text)
    → occurs hash l ≤ 1
    → remove_key (length l) 0 hash l (length l) ≡ done (without hash l)
remove_key_lem hash l h = remove_key_from hash [] l h

-- A key that stands last a second time makes the loop slice beyond the shortened list.
pub remove_key_twice : (hash : Text) → remove_key 2 0 hash (hash ∷ hash ∷ []) 2 ≡ panic
unfolding remove_key
remove_key_twice hash = simp text_eq_refl

pub entries-put :
    (m : Map (List Text)) (k n : Text) (l : List Text)
    → entries (put m k l) n ≡ (if text_eq k n then l else entries m n)
entries-put m k n l = ground (arith, get-put m k n l)

pub entries-store_keys :
    (m : Map (List Text)) (k n : Text) (l : List Text)
    → entries (store_keys m k l) n ≡ (if text_eq k n then l else entries m n)
unfolding store_keys
entries-store_keys m k n [] = ground (arith, get-delete m k n)
entries-store_keys m k n (x ∷ l) = entries-put m k n (x ∷ l)

-- No name has an empty list.
abbrev pub Compact : Map (List Text) → Type 0
Compact m = (n : Text) → get m n ≢ some []

store_keys-Compact :
    (m : Map (List Text)) (k : Text) (l : List Text) → Compact m → Compact (store_keys m k l)
unfolding store_keys
store_keys-Compact m k [] h n = ground (arith, get-delete m k n, h n)
store_keys-Compact m k (x ∷ l) h n = ground (arith, get-put m k n (x ∷ l), h n)

without_twice : (t : Text) (l : List Text) → without t (without t l) ≡ without t l
without_twice t l = without_absent t (without t l) (occurs-without t t l ∙ rw (text_eq_refl t))

-- What the loop over the names leaves of an index in which no list has the hash twice.
pub record Unindexed (hash : Text) (names : List Text) (m m' : Map (List Text)) : Type 0 where
  pub lists :
      (n : Text)
      → entries m' n ≡ (if 0 == occurs n names then entries m n else without hash (entries m n))
  pub compact : Compact m → Compact m'

pub unindex_names_lem :
    (hash : Text) (names : List Text) (m : Map (List Text))
    → ((n : Text) → occurs hash (entries m n) ≤ 1)
    → (m' : Map (List Text)) × (unindex_names hash names m ≡ done m') × Unindexed hash names m m'
unfolding unindex_names
unindex_names_lem hash [] m once = (m, refl, record { lists = λ n. refl; compact = λ h. h })
unindex_names_lem hash (k ∷ names) m once =
    let m₁ = store_keys m k (without hash (entries m k)) in
    let stored = λ (n : Text). entries-store_keys m k n (without hash (entries m k)) in
    let (m', found, u) = unindex_names_lem hash names m₁ (λ n. ground (
      arith,
      stored n,
      once n,
      once k,
      occurs-without hash hash (entries m k),
      text_eq_refl hash,
    )) in
    (
      m',
      rw (remove_key_lem hash (entries m k) (once k)) found,
      record {
        lists = λ n.
            u.lists n ∙ ground (arith, stored n, text_eq_iff k n, without_twice hash (entries m k));
        compact = λ h. u.compact (store_keys-Compact m k _ h);
      },
    )
