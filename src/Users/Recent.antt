-- ===== src/Users/Recent.antt =====
-- user.go: mostRecentUserEmail in a folder that has files only.
use otomatik.Base.{
  ℕ, zero, suc, ◌+◌, ◌-◌, ◌≡◌, refl, sym, ap, ◌∙◌, ◌⊎◌, inl, inr, Bool, true, false, List, [], ◌∷◌,
  Option, ◌<◌, All, leb, arith, Bool-cases, length, get_or, ltb, subst,
}
use otomatik.Base.Map.{Map}
use otomatik.Base.Text.{Text, is_empty}
use otomatik.Base.Result.{
  Result, ok, err, stopped, panicked, Action, next, ◌>>=◌, err-ne-ok, stopped-ne-ok, ok-injective,
}
use otomatik.Cache.{shift, slide}
use otomatik.Cache.Removal.{length-slide}
use otomatik.Storage.{KeyInfo}
use otomatik.Users.{Accounts, storage_key_users_prefix, or_text}
use otomatik.Users.Email.{
  Managed, modified_of, stat_user, stat_users, newest_user, recent_of, most_recent_user_email,
  get_email, find_email, beyond, recent_or_prompt, set_email,
}

stop_of : {A B : Type 0} → Result A → Result B
stop_of (stopped h) = stopped h
stop_of r = stopped panicked

empty_text : (t : Text) → is_empty t ≡ true → t ≡ []
empty_text [] e = refl
empty_text (c ∷ t) e = cc

next-panics :
    {S A B : Type 0} (f : A → Action S B) (r : Result A × S)
    → r.0 ≡ stopped panicked
    → (next f r).0 ≡ stopped panicked
unfolding next stop_of
next-panics f (ok a, s) e = cc
next-panics f (err y, s) e = cc
next-panics f (stopped y, s) e = ap stop_of e

All-slide : (P : Text → Type 0) (a : List Text) (n : ℕ) → All P a → All P (slide a n)
unfolding slide
All-slide P [] n h = tt
All-slide P (t ∷ []) n h = h
All-slide P (t ∷ u ∷ a) zero h = h
All-slide P (t ∷ u ∷ a) (suc n) h = (h.1.0, All-slide P (u ∷ a) n h.1)

All-shift : (P : Text → Type 0) (a : List Text) (i n : ℕ) → All P a → All P (shift a i n)
unfolding shift
All-shift P [] zero n h = All-slide P [] n h
All-shift P (t ∷ a) zero n h = All-slide P (t ∷ a) n h
All-shift P [] (suc i) n h = tt
All-shift P (t ∷ a) (suc i) n h = (h.0, All-shift P a i n h.1)

length-shift : (a : List Text) (i n : ℕ) → length (shift a i n) ≡ length a
unfolding shift
length-shift [] zero n = length-slide [] n
length-shift (t ∷ a) zero n = length-slide (t ∷ a) n
length-shift [] (suc i) n = refl
length-shift (t ∷ a) (suc i) n = ap suc (length-shift a i n)

All-get_or :
    (P : Text → Type 0) (a : List Text) (i : ℕ) (d : Text)
    → i < length a
    → All P a
    → P (get_or a i d)
All-get_or P [] i d e h = absurd (omega arith)
All-get_or P (t ∷ a) zero d e h = h.0
All-get_or P (t ∷ a) (suc i) d e h = All-get_or P a i d (omega arith) h.1

module _ {S : Type 0} (x : Accounts S) (Holds : S → Type 0) where
  -- While something holds of the state, Stat says of the key that it is terminal, as of a file, and keeps
  -- that.
  abbrev pub IsFile : Text → Type 0
  IsFile u =
      (s : S)
      → Holds s
      → (info : KeyInfo) × ((x.storage.stat u s).0 ≡ ok info)
        × (info.is_terminal ≡ true)
        × Holds (x.storage.stat u s).1

  -- The loop panics or empties the list.
  IsEmptied : Result (List Text × Map KeyInfo) × S → Type 0
  IsEmptied r = (r.0 ≡ stopped panicked) ⊎ ((stats : Map KeyInfo) × (r.0 ≡ ok ([], stats)))

  stat_user-IsEmptied :
      (rest : List Text → ℕ → Map KeyInfo → Action S (List Text × Map KeyInfo)) (i l : ℕ)
      (a : List Text) (stats : Map KeyInfo) (u : Text) (r : Result KeyInfo × S) (info : KeyInfo)
      → r.0 ≡ ok info
      → info.is_terminal ≡ true
      → IsEmptied (rest (shift a i (l - 1 - i)) (l - 1) stats r.1)
      → IsEmptied (stat_user x rest i a l stats u r)
  unfolding stat_user IsEmptied
  stat_user-IsEmptied rest i l a stats u (ok info', s) info e terminal h =
      elim (Bool-cases (leb (i + 1) l)) [
        | inl f ↦ rw (ap (λ (k : KeyInfo). k.is_terminal) (ok-injective e) ∙ terminal, f) h
        | inr f ↦ rw (ap (λ (k : KeyInfo). k.is_terminal) (ok-injective e) ∙ terminal, f) (inl refl)
      ]
  stat_user-IsEmptied rest i l a stats u (err y, s) info e terminal h = absurd (err-ne-ok e)
  stat_user-IsEmptied rest i l a stats u (stopped y, s) info e terminal h = absurd (stopped-ne-ok e)

  stat_users-IsEmptied :
      (k i : ℕ) (a : List Text) (stats : Map KeyInfo) (s : S)
      → i + k ≡ length a
      → All IsFile a
      → Holds s
      → IsEmptied (stat_users x k i a k stats s)
  unfolding stat_users IsEmptied
  stat_users-IsEmptied zero i a stats s size files at = inr (stats, refl)
  stat_users-IsEmptied (suc k) i a stats s size files at =
      let (info, e, terminal, at') = All-get_or IsFile a i [] (omega (arith, size)) files s at in
      let b = shift a i (suc k - 1 - i) in
      stat_user-IsEmptied (stat_users x k (i + 1)) i (suc k) a stats (get_or a i []) _ info e
        terminal
        (subst
          (λ l. IsEmptied (stat_users x k (i + 1) b l stats (x.storage.stat (get_or a i []) s).1))
          (omega arith)
          (stat_users-IsEmptied k (i + 1) b stats (x.storage.stat (get_or a i []) s).1
            (omega (arith, size, length-shift a i (suc k - 1 - i)))
            (All-shift IsFile a i (suc k - 1 - i) files) at'))

  -- What follows a loop that panicked or emptied the list
  after_loop :
      (f : List Text × Map KeyInfo → Action S (Option Text))
      (r : Result (List Text × Map KeyInfo) × S)
      → IsEmptied r
      → ((stats : Map KeyInfo) (t : S) → (f ([], stats) t).0 ≡ stopped panicked)
      → (next f r).0 ≡ stopped panicked
  unfolding next IsEmptied stop_of
  after_loop f (ok l, s) (inl e) h = cc
  after_loop f (ok l, s) (inr (stats, e)) h = ap (λ m. (f m s).0) (ok-injective e) ∙ h stats s
  after_loop f (err y, s) (inl e) h = cc
  after_loop f (err y, s) (inr (stats, e)) h = absurd (err-ne-ok e)
  after_loop f (stopped y, s) (inl e) h = ap stop_of e
  after_loop f (stopped y, s) (inr (stats, e)) h = absurd (stopped-ne-ok e)

  recent_of-panics :
      (sorts : (f : Text → Text → Bool) → x.sort_slice f [] ≡ []) (ca_url : Text)
      (r : Result (List Text) × S) (u : Text) (users : List Text)
      → r.0 ≡ ok (u ∷ users)
      → All IsFile (u ∷ users)
      → Holds r.1
      → (recent_of x ca_url r).0 ≡ stopped panicked
  unfolding recent_of newest_user next
  recent_of-panics sorts ca_url (ok [], s) u users e files at = cc
  recent_of-panics sorts ca_url (ok (v ∷ l), s) u users e files at =
      after_loop _ (stat_users x (length (v ∷ l)) 0 (v ∷ l) (length (v ∷ l)) [] s)
        (stat_users-IsEmptied (length (v ∷ l)) 0 (v ∷ l) [] s (omega arith)
          (subst (All IsFile) (sym (ok-injective e)) files) at)
        (λ stats t.
          ap (λ m. (newest_user x ca_url m t).0)
            (sorts (λ v w. ltb (modified_of stats w) (modified_of stats v))))
  recent_of-panics sorts ca_url (err y, s) u users e files at = absurd (err-ne-ok e)
  recent_of-panics sorts ca_url (stopped y, s) u users e files at = absurd (stopped-ne-ok e)

  -- Where a sort of nothing is nothing: when neither the manager nor DefaultACME has an email address, and
  -- the folder of the users is listed with one entry or more, each of which Stat says then to be
  -- terminal, as of a file, while it leaves the others so, getEmail panics, with prompts or without.
  pub get_email_panics :
      ((f : Text → Text → Bool) → x.sort_slice f [] ≡ [])
      → (allow_prompts : Bool) (g : Managed x) (u : Text) (users : List Text) → g.manager.email ≡ []
      → g.default.email ≡ []
      → (x.storage.list (storage_key_users_prefix x g.manager.ca) false g.outside).0
        ≡ ok (u ∷ users)
      → All IsFile (u ∷ users)
      → Holds (x.storage.list (storage_key_users_prefix x g.manager.ca) false g.outside).1
      → (get_email x allow_prompts g).0 ≡ stopped panicked
  unfolding next get_email find_email most_recent_user_email
  get_email_panics sorts allow_prompts g u users mine theirs listed files at =
      subst (λ e. ((find_email x allow_prompts e >>= set_email x) g).0 ≡ stopped panicked)
        (sym (ap (λ e. or_text e g.default.email) mine ∙ theirs))
        (next-panics (set_email x) (find_email x allow_prompts [] g) (
          next-panics (recent_or_prompt x allow_prompts)
            (beyond x (most_recent_user_email x g.manager.ca) g)
            (recent_of-panics sorts g.manager.ca
              (x.storage.list (storage_key_users_prefix x g.manager.ca) false g.outside) u users
              listed files at)))
