-- ===== src/RateLimiter/Window.antt =====
-- The limit holds: `maxEvents` events apart means at least a window apart.
use otomatik.Base.{
  subst, Bool, ◌⊎◌, Bool-cases, inl, inr, ==_iff, replicate, get_or-replicate, length-replicate, ℕ,
  zero, suc, ◌+◌, ◌-◌, ◌≤◌, ◌<◌, ◌≡◌, refl, sym, ap, ◌∙◌, List, [], ◌∷◌, true, false, length,
  get_or, set, get_or-set, length-set, arith, leb, ◌==◌, if◌then◌else◌,
}
use otomatik.Base.Int.{pos}
use otomatik.Base.Outcome.{Outcome, done}
use otomatik.RateLimiter.{new_rate_limiter, Limiter, Pc, loop_head, permit, stop, allow}
use otomatik.RateLimiter.Resize.{wrap, nth_oldest}
use otomatik.RateLimiter.Machine.{
  World, at, go_to, Step, tick, head, fire, take, close, halt, Reach, here, next,
}

-- Two events that are `n` apart are at least `w` apart in time.
abbrev pub Spaced : ℕ → ℕ → List ℕ → Type 0
Spaced n w history =
    (i : ℕ) → i + n < length history → get_or history (i + n) 0 + w ≤ get_or history i 0

-- What the program counter promises: the timer is set to the end of the oldest event's window,
-- and a ticket is on offer only after it.
abbrev Promise : World → Pc → Type 0
Promise x (Pc.waiting t) = nth_oldest x.limiter 0 + x.limiter.window ≡ t
Promise x Pc.offering = nth_oldest x.limiter 0 + x.limiter.window ≤ x.now
Promise x Pc.top = Unit
Promise x Pc.returned = Unit

record Inv (n w : ℕ) (x : World) : Type 0 where
  size : length x.limiter.ring ≡ n
  window : x.limiter.window ≡ w
  inside : x.limiter.cursor < length x.limiter.ring
  mirror : (j : ℕ) → j < n → nth_oldest x.limiter j ≡ get_or x.history (n - 1 - j) 0
  spaced : Spaced n w x.history
  promise : Promise x x.limiter.pc

-- The place that index `j` reads after the cursor has moved on.
next_place :
    (n c j : ℕ)
    → c < n
    → j < n
    → wrap n ((if leb n (c + 1) then 0 else c + 1) + j)
      ≡ (if suc j == n then c else wrap n (c + suc j))
unfolding wrap
next_place n c j h b = ground arith

other_place : (n c j : ℕ) → c < n → suc j < n → (c == wrap n (c + suc j)) ≡ false
unfolding wrap
other_place n c j h b = ground arith

module _ (r : Limiter) (now : ℕ) (inside : r.cursor < length r.ring) where
  ring-permit : (permit r now).ring ≡ set r.ring r.cursor now
  unfolding permit
  ring-permit = ground arith

  cursor-permit :
      (permit r now).cursor ≡ (if leb (length r.ring) (r.cursor + 1) then 0 else r.cursor + 1)
  unfolding permit
  cursor-permit = ground (arith, length-set r.ring r.cursor now)

  pub cursor-permit-lt : (permit r now).cursor < length (permit r now).ring
  cursor-permit-lt = rw (ring-permit, cursor-permit, length-set) (ground arith)

  pub window-permit : (permit r now).window ≡ r.window
  unfolding permit
  window-permit = ground arith

  pub length-permit : length (permit r now).ring ≡ length r.ring
  length-permit = rw ring-permit (length-set r.ring r.cursor now)

  pub pc-permit : (permit r now).pc ≡ Pc.top
  unfolding permit
  pc-permit = ground arith

  -- The ring after an event: the oldest time is gone and the new one is last.
  pub nth_oldest-permit :
      (j : ℕ)
      → j < length r.ring
      → nth_oldest (permit r now) j ≡ (if suc j == length r.ring then now else nth_oldest r (suc j))
  unfolding nth_oldest
  nth_oldest-permit j b =
      rw (ring-permit, cursor-permit, length-set, next_place (length r.ring) r.cursor j inside b)
        (rw
          (get_or-set r.ring r.cursor
            (if suc j == length r.ring then r.cursor else wrap (length r.ring) (r.cursor + suc j))
            now 0 inside)
          (ground (arith, other_place (length r.ring) r.cursor j inside)))

offered :
    (x : World)
    → allow x.limiter ≡ true
    → Promise x x.limiter.pc
    → nth_oldest x.limiter 0 + x.limiter.window ≤ x.now
unfolding allow
offered x = by_pc x.limiter.pc
  where
    by_pc :
        (pc : Pc)
        → (elim pc [ Pc.offering ↦ true | _ ↦ false ]) ≡ true
        → Promise x pc
        → nth_oldest x.limiter 0 + x.limiter.window ≤ x.now
    by_pc Pc.offering h p = p
    by_pc Pc.top h p = cc
    by_pc (Pc.waiting t) h p = cc
    by_pc Pc.returned h p = cc

get_or-cons : (a : ℕ) (h : List ℕ) (k : ℕ) → 0 < k → get_or (a ∷ h) k 0 ≡ get_or h (k - 1) 0
get_or-cons a h zero b = absurd (omega arith)
get_or-cons a h (suc k) b = ap (λ i. get_or h i 0) (omega arith)

module _ {n w : ℕ} (x : World) (v : Inv n w x) where
  mirror-take :
      (j : ℕ)
      → j < n
      → nth_oldest (permit x.limiter x.now) j ≡ get_or (x.now ∷ x.history) (n - 1 - j) 0
  mirror-take j b =
      nth_oldest-permit x.limiter x.now v.inside j (omega (arith, v.size))
      ∙ elim (Bool-cases (suc j == length x.limiter.ring)) [
        | inl last ↦
            let first : 0 ≡ n - 1 - j =
              omega (arith, v.size, (==_iff (suc j) (length x.limiter.ring)).0 last) in
            rw last (ap (λ k. get_or (x.now ∷ x.history) k 0) first)
        | inr more ↦
            let fits : suc j < n = ground (arith, v.size, more) in
            rw more (
              v.mirror (suc j) fits
              ∙ ap (λ k. get_or x.history k 0) (omega arith)
              ∙ sym (get_or-cons x.now x.history (n - 1 - j) (omega arith)))
      ]

  Spaced-take : nth_oldest x.limiter 0 + x.limiter.window ≤ x.now → Spaced n w (x.now ∷ x.history)
  Spaced-take due zero b =
      let oldest : get_or (x.now ∷ x.history) (0 + n) 0 ≡ nth_oldest x.limiter 0 =
        get_or-cons x.now x.history (0 + n) (omega (arith, v.inside, v.size))
        ∙ ap (λ k. get_or x.history k 0) (omega arith)
        ∙ sym (v.mirror 0 (omega (arith, v.inside, v.size))) in
      omega (arith, oldest, due, v.window)
  Spaced-take due (suc i) b =
      let shifted : get_or (x.now ∷ x.history) (suc i + n) 0 ≡ get_or x.history (i + n) 0 =
        get_or-cons x.now x.history (suc i + n) (omega arith)
        ∙ ap (λ k. get_or x.history k 0) (omega arith) in
      omega (arith, shifted, v.spaced i (omega arith))

pub nth_oldest-zero :
    (r : Limiter) → r.cursor < length r.ring → nth_oldest r 0 ≡ get_or r.ring r.cursor 0
unfolding nth_oldest wrap
nth_oldest-zero r h = ap (λ p. get_or r.ring p 0) (ground arith)

-- On a ring with places the head of the loop ends, or waits for the oldest event to leave the window.
pub loop_head_lem :
    (r : Limiter)
    → r.cursor < length r.ring
    → loop_head r
      ≡ done (go_to r (if r.stopped then Pc.returned else Pc.waiting (nth_oldest r 0 + r.window)))
unfolding loop_head
loop_head_lem r h = rw (nth_oldest-zero r h) (ground arith)

done-injective : (a b : Limiter) → ◌≡◌ {A = Outcome Limiter} (done a) (done b) → a ≡ b
done-injective a b e = cc

loop_head-cases :
    (r l : Limiter)
    → r.cursor < length r.ring
    → loop_head r ≡ done l
    → (l ≡ go_to r Pc.returned) ⊎ (l ≡ go_to r (Pc.waiting (nth_oldest r 0 + r.window)))
loop_head-cases r l h e =
    let same = done-injective l _ (sym e ∙ loop_head_lem r h) in
    elim (Bool-cases r.stopped) [
      | inl yes_stopped ↦ inl (same ∙ rw yes_stopped)
      | inr running ↦ inr (same ∙ rw running)
    ]

stop_lem : (r l : Limiter) → stop r ≡ done l → l ≡ record r { stopped = true }
unfolding stop
stop_lem r l h = ground arith

due :
    (x : World) (t : ℕ)
    → x.limiter.pc ≡ Pc.waiting t
    → t ≤ x.now
    → Promise x x.limiter.pc
    → nth_oldest x.limiter 0 + x.limiter.window ≤ x.now
due x t e b p = let q : Promise x (Pc.waiting t) = subst (Promise x) e p in omega arith

module _ (n w : ℕ) where
  tick-Inv : {x : World} (t : ℕ) → x.now ≤ t → Inv n w x → Inv n w (record x { now = t })
  tick-Inv {x} t h v = record {
    size = v.size;
    window = v.window;
    inside = v.inside;
    mirror = v.mirror;
    spaced = v.spaced;
    promise = later x.limiter.pc v.promise;
  }
    where
      later : (pc : Pc) → Promise x pc → Promise (record x { now = t }) pc
      later Pc.top p = p
      later (Pc.waiting u) p = p
      later Pc.offering p = omega arith
      later Pc.returned p = p

  take-Inv :
      {x : World}
      → allow x.limiter ≡ true
      → Inv n w x
      → Inv n w (record x { limiter = permit x.limiter x.now; history = x.now ∷ x.history })
  take-Inv {x} h v = record {
    size = length-permit x.limiter x.now v.inside ∙ v.size;
    window = window-permit x.limiter x.now v.inside ∙ v.window;
    inside = cursor-permit-lt x.limiter x.now v.inside;
    mirror = λ j b. mirror-take x v j b;
    spaced = λ i b. Spaced-take x v (offered x h v.promise) i b;
    promise = rw (pc-permit x.limiter x.now v.inside) tt;
  }

  -- A step that only moves the goroutine, or closes a channel.
  go_to-Inv :
      {x : World} (pc : Pc) (stopped : Bool)
      → Promise x pc
      → Inv n w x
      → Inv n w (at x (record x.limiter { pc = pc; stopped = stopped }))
  unfolding nth_oldest
  go_to-Inv {x} pc stopped p v = record {
    size = v.size;
    window = v.window;
    inside = v.inside;
    mirror = v.mirror;
    spaced = v.spaced;
    promise = kept pc p;
  }
    where
      kept :
          (pc' : Pc)
          → Promise x pc'
          → Promise (at x (record x.limiter { pc = pc; stopped = stopped })) pc'
      kept Pc.top q = q
      kept (Pc.waiting u) q = q
      kept Pc.offering q = q
      kept Pc.returned q = q

  head-Inv : {x : World} (l : Limiter) → loop_head x.limiter ≡ done l → Inv n w x → Inv n w (at x l)
  head-Inv {x} l h v = elim (loop_head-cases x.limiter l v.inside h) [
    | inl e ↦ subst (λ k. Inv n w (at x k)) (sym e) (go_to-Inv Pc.returned x.limiter.stopped tt v)
    | inr e ↦
        subst (λ k. Inv n w (at x k)) (sym e)
          (go_to-Inv (Pc.waiting (nth_oldest x.limiter 0 + x.limiter.window)) x.limiter.stopped refl
            v)
  ]

  Step-Inv : {x y : World} → Step x y → Inv n w x → Inv n w y
  Step-Inv (tick x t h) v = tick-Inv t h v
  Step-Inv (head x l h e) v = head-Inv l e v
  Step-Inv (fire x t h b) v = go_to-Inv Pc.offering x.limiter.stopped (due x t h b v.promise) v
  Step-Inv (take x h) v = take-Inv h v
  Step-Inv (close x l h) v =
      subst (λ k. Inv n w (at x k)) (sym (stop_lem x.limiter l h))
        (go_to-Inv x.limiter.pc true v.promise v)
  Step-Inv (halt x h) v = go_to-Inv Pc.returned x.limiter.stopped tt v

  Reach-Inv : {x y : World} → Inv n w x → Reach Step x y → Inv n w y
  Reach-Inv v here = v
  Reach-Inv v (next r s) = Step-Inv s (Reach-Inv v r)

start-Inv :
    (n w t : ℕ) (l : Limiter)
    → 0 < n
    → new_rate_limiter (pos n) w ≡ done l
    → Inv n w (record { limiter = l; now = t; history = [] })
unfolding new_rate_limiter nth_oldest
start-Inv n w t l h e =
    subst (λ k. Inv n w (record { limiter = k; now = t; history = [] }))
      (done-injective _ l (sym built ∙ e))
      (record {
        size = length-replicate n 0;
        window = refl;
        inside = rw (length-replicate {A = ℕ} n 0) h;
        mirror = λ j b. get_or-replicate n (wrap (length (replicate n 0)) (0 + j)) 0;
        spaced = λ i b. absurd (omega arith);
        promise = tt;
      })
  where
    fresh : Limiter
    fresh = record { window = w; ring = replicate n 0; cursor = 0; stopped = false; pc = Pc.top }

    built : new_rate_limiter (pos n) w ≡ done fresh
    built = ground arith

-- However the goroutine, its callers and the clock interleave from a new limiter of n > 0 events in a
-- window of w, any two events that are let through n places apart are at least w apart in time.
pub limit_holds :
    (n w t : ℕ) (l : Limiter) {x : World}
    → 0 < n
    → new_rate_limiter (pos n) w ≡ done l
    → Reach Step (record { limiter = l; now = t; history = [] }) x
    → Spaced n w x.history
limit_holds n w t l h e r = (Reach-Inv n w (start-Inv n w t l h e) r).spaced
