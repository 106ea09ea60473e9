-- ===== src/FileStorage/Mutex/Owner.antt =====
-- filestorage.go: the owner of a lock file.
use otomatik.Base.{
  ℕ, ◌≡◌, refl, sym, ap, ◌∙◌, subst, true, false, ◌⊎◌, inl, inr, List, Option, none, some, ◌==◌,
  if◌then◌else◌, arith, Bool-cases, Option-cases, ==_iff,
}
use otomatik.Base.Text.{Text}
use otomatik.FileStorage.{Files}
use otomatik.FileStorage.Freshness.{LockMeta, Keeper}
use otomatik.FileStorage.Locks.{Pc, held, World}
use otomatik.FileStorage.Mutex.FileSystem.{IsFileSystem, owns, retries, is_held}
use otomatik.FileStorage.Mutex.Turns.{Change, same, gains, drops}

module _ {S H : Type 0} (x : Files S H LockMeta) (law : IsFileSystem x) (file : Text) where
  -- One process at most owns the lock file, which is there; `holder` is where Lock has returned.
  pub record Inv (holder : Option ℕ) (w : World S H) : Type 0 where
    pub kept : (i : ℕ) → owns (w.pcs i) ≡ true → law.there w.outside file ≡ true
    pub one : (i j : ℕ) → owns (w.pcs i) ≡ true → owns (w.pcs j) ≡ true → i ≡ j
    pub calm : (i : ℕ) → retries (w.pcs i) ≡ false
    pub known : (i : ℕ) → is_held (w.pcs i) ≡ true → holder ≡ some i
    pub holds : (i : ℕ) → holder ≡ some i → is_held (w.pcs i) ≡ true

  held-owns : (pc : Pc H) → is_held pc ≡ true → owns pc ≡ true
  held-owns held h = refl
  held-owns pc h = ground arith

  module _ (holder : Option ℕ) (w : World S H) (inv : Inv holder w) (i : ℕ) (pc' : Pc H)
      (s' : S) where
    abbrev moved : ℕ → Pc H
    moved j = if i == j then pc' else w.pcs j

    moved-kept :
        Change x law file (w.pcs i) w.outside pc' s'
        → (j : ℕ) → owns (moved j) ≡ true
        → law.there s' file ≡ true
    moved-kept (same e k) j h = ground (arith, inv.kept j, inv.kept i)
    moved-kept (gains a b c d) j h = d
    moved-kept (drops a b) j h = ground (arith, inv.one i j)

    -- Who owns the file after a turn in which it was there owned it before.
    moved-owner :
        Change x law file (w.pcs i) w.outside pc' s'
        → (j : ℕ) → owns (moved j) ≡ true
        → (owns (w.pcs j) ≡ true) ⊎ ((i ≡ j) × (law.there w.outside file ≡ false))
    moved-owner (same e k) j h = inl (ground arith)
    moved-owner (gains a b c d) j h = elim (Bool-cases (i == j)) [
      | inl e ↦ inr ((==_iff i j).0 e, a)
      | inr e ↦ inl (ground (arith, e))
    ]
    moved-owner (drops a b) j h = inl (ground arith)

    both_own :
        (j k : ℕ)
        → (owns (w.pcs j) ≡ true) ⊎ ((i ≡ j) × (law.there w.outside file ≡ false))
        → (owns (w.pcs k) ≡ true) ⊎ ((i ≡ k) × (law.there w.outside file ≡ false))
        → j ≡ k
    both_own j k (inl a) (inl b) = inv.one j k a b
    both_own j k (inl a) (inr (e, b)) = cc (inv.kept j a)
    both_own j k (inr (e, a)) (inl b) = cc (inv.kept k b)
    both_own j k (inr (e, a)) (inr (f, b)) = sym e ∙ f

    moved-one :
        Change x law file (w.pcs i) w.outside pc' s'
        → (j k : ℕ) → owns (moved j) ≡ true
        → owns (moved k) ≡ true
        → j ≡ k
    moved-one c j k h h' = both_own j k (moved-owner c j h) (moved-owner c k h')

    -- After a turn that does not come to hold the lock, and from none of its calls
    pub moved-Inv :
        Change x law file (w.pcs i) w.outside pc' s'
        → retries pc' ≡ false
        → is_held pc' ≡ false
        → is_held (w.pcs i) ≡ false
        → (ks : List (Keeper H)) → Inv holder (record { outside = s'; pcs = moved; keepers = ks })
    moved-Inv c r new old ks = record {
      kept = moved-kept c;
      one = moved-one c;
      calm = λ j. ground (arith, inv.calm j);
      known = λ j h. ground (arith, inv.known j);
      holds = λ j h. ground (arith, inv.holds j h);
    }

    -- And after one that does
    pub moved-Held :
        Change x law file (w.pcs i) w.outside pc' s'
        → retries pc' ≡ false
        → is_held pc' ≡ true
        → (ks : List (Keeper H)) → Inv (some i) (record { outside = s'; pcs = moved; keepers = ks })
    moved-Held c r new ks = record {
      kept = moved-kept c;
      one = moved-one c;
      calm = λ j. ground (arith, inv.calm j);
      known = λ j h.
          ap some (moved-one c i j (ground (arith, held-owns pc' new)) (held-owns (moved j) h));
      holds = λ j h. ground (arith);
    }

    -- And after the call of Unlock by the holder
    pub moved-Freed :
        Change x law file (w.pcs i) w.outside pc' s'
        → retries pc' ≡ false
        → is_held pc' ≡ false
        → is_held (w.pcs i) ≡ true
        → (ks : List (Keeper H)) → Inv none (record { outside = s'; pcs = moved; keepers = ks })
    moved-Freed c r new old ks = record {
      kept = moved-kept c;
      one = moved-one c;
      calm = λ j. ground (arith, inv.calm j);
      known = λ j h. ground (arith, inv.known j, inv.known i);
      holds = λ j h. cc;
    }

    -- The holder is none while a process that does not hold the lock comes to hold it.
    pub no_holder :
        Change x law file (w.pcs i) w.outside pc' s'
        → is_held pc' ≡ true
        → is_held (w.pcs i) ≡ false
        → holder ≡ none
    no_holder c new old = elim (Option-cases holder) [
      | inl e ↦ e
      | inr (j, e) ↦
          let at_j : is_held (w.pcs j) ≡ true = inv.holds j e in
          absurd (other j at_j (moved-owner c i (ground (arith, held-owns pc' new))))
    ]
      where
        other :
            (j : ℕ)
            → is_held (w.pcs j) ≡ true
            → (owns (w.pcs i) ≡ true) ⊎ ((i ≡ i) × (law.there w.outside file ≡ false))
            → ⊥
        other j at_j (inl a) =
            let e : i ≡ j = inv.one i j a (held-owns (w.pcs j) at_j) in
            cc (subst (λ k. is_held (w.pcs k) ≡ true) (sym e) at_j)
        other j at_j (inr (e, a)) = cc (inv.kept j (held-owns (w.pcs j) at_j))
