-- ===== src/Solvers/Counted.antt =====
-- solvers.go: the counts of the listeners.
use otomatik.Base.{
  ℕ, zero, suc, ◌<◌, ◌≡◌, refl, sym, ap, ◌∙◌, subst, false, Option, none, some, arith, Bool-cases,
  if_elim, inl, inr,
}
use otomatik.Base.Errors.{Error}
use otomatik.Base.Int.{pos}
use otomatik.Base.Map.{Map, get, put, delete, get-put, get-delete}
use otomatik.Base.Text.{Text, text_eq, text_eq_iff, text_eq_refl}
use otomatik.Solvers.{
  SolverInfo, Network, Servers, incr, decr, is_zero, info_or_new, get_solver_info, served,
  serve_if_new, http_present, http_clean_up, Calls, start, presents, cleans_up, robust_try_listen,
}

-- No entry, or one that counts the challenges
abbrev pub Counts : {L : Type 0} → ℕ → Option (SolverInfo L) → Type 0
Counts n none = n ≡ 0
Counts n (some si) = (si.count ≡ pos n) × (0 < n)

info-count :
    {L : Type 0} (n : ℕ) (o : Option (SolverInfo L)) → Counts n o → (info_or_new o).count ≡ pos n
info-count n none h = ap pos (sym h)
info-count n (some si) h = h.0

module _ {S L : Type 0} (x : Network S L) where
  -- What Present does to the map: the entry of the address has one more.
  Raised : Text → ℕ → Map (SolverInfo L) → Map (SolverInfo L) → Type 0
  Raised a n m m' = (si : SolverInfo L) × (si.count ≡ pos (suc n)) × (m' ≡ put m a si)

  served-Raised :
      (a : Text) (n : ℕ) (si : SolverInfo L) (m : Map (SolverInfo L))
      (r : (Option L × Option Error) × S)
      → si.count ≡ pos (suc n)
      → Raised a n m (served x a si m r).1.solvers
  unfolding served Raised
  served-Raised a n si m ((none, e), s) h = (si, h, refl)
  served-Raised a n si m ((some ln, e), s) h = (record si { listener = some ln }, h, refl)

  serve_if_new-Raised :
      (a : Text) (n : ℕ) (si : SolverInfo L) (o : Option L) (w : Servers S L)
      → si.count ≡ pos (suc n)
      → Raised a n w.solvers (serve_if_new x a si o w).1.solvers
  unfolding serve_if_new
  serve_if_new-Raised a n si (some ln) w h = unfold Raised in (si, h, refl)
  serve_if_new-Raised a n si none w h =
      served-Raised a n si w.solvers (robust_try_listen x a w.outside) h

  present-Raised :
      (a : Text) (n : ℕ) (w : Servers S L)
      → Counts n (get w.solvers a)
      → Raised a n w.solvers (http_present x a w).1.solvers
  unfolding http_present get_solver_info incr
  present-Raised a n w h =
      serve_if_new-Raised a n _ _ w (ap incr (info-count n (get w.solvers a) h))

  at_put : (a : Text) (si : SolverInfo L) (m : Map (SolverInfo L)) → get (put m a si) a ≡ some si
  at_put a si m = get-put m a a si ∙ rw (text_eq_refl a) refl

  at_delete : (a : Text) (m : Map (SolverInfo L)) → get (delete m a) a ≡ none
  at_delete a m = get-delete m a a ∙ rw (text_eq_refl a) refl

  put-Counts :
      (a : Text) (n : ℕ) (si : SolverInfo L) (m : Map (SolverInfo L))
      → si.count ≡ pos (suc n)
      → Counts (suc n) (get (put m a si) a)
  put-Counts a n si m h = subst (Counts (suc n)) (sym (at_put a si m)) (h, omega arith)

  put_other :
      (a b : Text) (si : SolverInfo L) (m : Map (SolverInfo L))
      → text_eq a b ≡ false
      → get (put m a si) b ≡ get m b
  put_other a b si m h = get-put m a b si ∙ rw h refl

  Raised-Counts :
      (a b : Text) (n k : ℕ) (m m' : Map (SolverInfo L))
      → Raised a n m m'
      → Counts k (get m b)
      → (text_eq a b ≡ false → Counts k (get m' b)) × Counts (suc n) (get m' a)
  unfolding Raised
  Raised-Counts a b n k m m' (si, h, e) c = (
    λ other.
        subst (λ p. Counts k (get p b)) (sym e)
          (subst (Counts k) (sym (put_other a b si m other)) c),
    subst (λ p. Counts (suc n) (get p a)) (sym e) (put-Counts a n si m h),
  )

  -- What CleanUp leaves under its address, by the count that is left
  cleaned-Counts :
      (a : Text) (w : Servers S L) (n : ℕ)
      → (get_solver_info w.solvers a).count ≡ pos (suc n)
      → Counts n (get (http_clean_up x a w).solvers a)
  unfolding http_clean_up decr
  cleaned-Counts a w zero h =
      rw (ap decr h) (subst (Counts zero) (sym (at_delete a w.solvers)) refl)
  cleaned-Counts a w (suc n) h = rw (ap decr h) (put-Counts a n _ w.solvers refl)

  cleaned_other :
      (a b : Text) (w : Servers S L)
      → text_eq a b ≡ false
      → get (http_clean_up x a w).solvers b ≡ get w.solvers b
  unfolding http_clean_up
  cleaned_other a b w other =
      if_elim (λ (v : Servers S L). get v.solvers b ≡ get w.solvers b)
        (is_zero (decr (get_solver_info w.solvers a).count)) _ _
        (λ e. get-delete w.solvers a b ∙ rw other refl) (λ e. put_other a b _ w.solvers other)

  -- At each address, whatever Listen and Dial answer, and where CleanUp is called only for a challenge
  -- that was presented: after any calls of Present and CleanUp, the count of the entry is the number
  -- of challenges presented and not cleaned up, and there is no entry where there is none of these.
  pub Calls-Counts :
      (s : S) {active : Text → ℕ} {w : Servers S L}
      → Calls x s active w
      → (a : Text) → Counts (active a) (get w.solvers a)
  Calls-Counts s start a = unfold get in refl
  Calls-Counts s (presents {active} {after} {w} b calls e others) a =
      let (other, same) =
        Raised-Counts b a (active b) (active a) w.solvers (http_present x b w).1.solvers
          (present-Raised b (active b) w (Calls-Counts s calls b)) (Calls-Counts s calls a) in
      elim (Bool-cases (text_eq b a)) [
        | inl is ↦
            let at : b ≡ a = (text_eq_iff b a).0 is in
            subst (λ c. Counts (after c) (get (http_present x b w).1.solvers c)) at
              (subst (λ n. Counts n (get (http_present x b w).1.solvers b)) (sym e) same)
        | inr not ↦
            subst (λ n. Counts n (get (http_present x b w).1.solvers a))
              (sym (others a (λ p. cc ((text_eq_iff b a).1 p)))) (other not)
      ]
  Calls-Counts s (cleans_up {active} {after} {w} b calls e others) a =
      elim (Bool-cases (text_eq b a)) [
        | inl is ↦
            let at : b ≡ a = (text_eq_iff b a).0 is in
            subst (λ c. Counts (after c) (get (http_clean_up x b w).solvers c)) at
              (cleaned-Counts b w (after b) (counted b (Calls-Counts s calls b) ∙ ap pos e))
        | inr not ↦
            subst (λ n. Counts n (get (http_clean_up x b w).solvers a))
              (sym (others a (λ p. cc ((text_eq_iff b a).1 p))))
              (subst (Counts (active a)) (sym (cleaned_other b a w not)) (Calls-Counts s calls a))
      ]
    where
      counted :
          (b : Text)
          → Counts (active b) (get w.solvers b)
          → (get_solver_info w.solvers b).count ≡ pos (active b)
      counted b c = unfold get_solver_info in info-count (active b) (get w.solvers b) c
