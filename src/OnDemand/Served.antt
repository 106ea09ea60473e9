-- ===== src/OnDemand/Served.antt =====
-- Whom a waiting goroutine waits for.
use otomatik.Base.{
  ℕ, ◌+◌, ◌<◌, ◌≡◌, sym, ap, subst, true, List, [], ◌∷◌, ◌++◌, none, some, ◌==◌, arith, Bool-cases,
  Option-cases, inl, inr, ◌⊎◌,
}
use otomatik.Base.Text.{Text, text_eq, text_eq_iff}
use otomatik.Base.Map.{get}
use otomatik.Base.Occurs.{one_if}
use otomatik.OnDemand.{
  Task, Goroutine, Waiters, is_closed, complete, Step, come, enters, completes, wakes, Reach, here,
  next, no_waiters,
}
use otomatik.OnDemand.Waiting.{
  holds, busy, busy-append, Inv, holds-put, holds-delete, enter_known, enter_new, entered,
  working_holds, holds_one, complete-Inv, Step-Inv, no_waiters-Inv,
}
use otomatik.OnDemand.Denied.{new_other, held_get}

abbrev waits : ℕ → Goroutine → ℕ
waits ch (Goroutine.waiting c) = one_if (c == ch)
waits ch _ = 0

-- How many goroutines wait on the channel.
abbrev pub waits_on : ℕ → List Goroutine → ℕ
waits_on ch [] = 0
waits_on ch (g ∷ gs) = waits ch g + waits_on ch gs

waits_on-append :
    (ch : ℕ) (p q : List Goroutine) → waits_on ch (p ++ q) ≡ waits_on ch p + waits_on ch q
waits_on-append ch [] q = omega arith
waits_on-append ch (g ∷ p) q = omega (arith, waits_on-append ch p q)

record Served (x : Waiters) : Type 0 where
  inv : Inv x
  worked : (n : Text) (ch : ℕ) → holds x.chans n ch ≡ true → 0 < busy n ch x.goroutines
  awaited :
      (ch : ℕ)
      → 0 < waits_on ch x.goroutines
      → (is_closed ch x.closed ≡ true) ⊎ ((n : Text) × (holds x.chans n ch ≡ true))

known-Served :
    (x : Waiters) (ws us : List Goroutine) (task : Task) (name : Text) (wait : ℕ)
    → x.goroutines ≡ ws ++ Goroutine.entering task name ∷ us
    → get x.chans name ≡ some wait
    → Inv (record x { goroutines = ws ++ Goroutine.waiting wait ∷ us })
    → Served x
    → Served (record x { goroutines = ws ++ Goroutine.waiting wait ∷ us })
known-Served x ws us task name wait e there v s = record {
  inv = v;
  worked = λ n ch p. omega (
    arith,
    s.worked n ch p,
    ap (busy n ch) e,
    busy-append n ch ws (Goroutine.entering task name ∷ us),
    busy-append n ch ws (Goroutine.waiting wait ∷ us),
  );
  awaited = λ ch w. elim (Bool-cases (wait == ch)) [
    | inl same ↦ inr (name, ground (arith, same, there))
    | inr other ↦ s.awaited ch (
        ground (
          arith,
          w,
          other,
          ap (waits_on ch) e,
          waits_on-append ch ws (Goroutine.entering task name ∷ us),
          waits_on-append ch ws (Goroutine.waiting wait ∷ us),
        ))
  ];
}

new-Served :
    (x : Waiters) (ws us : List Goroutine) (task : Task) (name : Text)
    → x.goroutines ≡ ws ++ Goroutine.entering task name ∷ us
    → get x.chans name ≡ none
    → Inv (entered ws us task name x)
    → Served x
    → Served (entered ws us task name x)
new-Served x ws us task name e new v s = record {
  inv = v;
  worked = λ n ch p. ground (
    arith,
    p,
    λ (q : holds x.chans n ch ≡ true). s.worked n ch q,
    holds-put x.chans name n x.made ch,
    ap (busy n ch) e,
    busy-append n ch ws (Goroutine.entering task name ∷ us),
    busy-append n ch ws (Goroutine.working task name x.made ∷ us),
  );
  awaited = λ ch w.
      elim (s.awaited ch (
        omega (
          arith,
          w,
          ap (waits_on ch) e,
          waits_on-append ch ws (Goroutine.entering task name ∷ us),
          waits_on-append ch ws (Goroutine.working task name x.made ∷ us),
        ))) [
          | inl c ↦ inl c
          | inr (n, p) ↦ inr (
            n,
            ground (arith, p, new_other x name n ch new p, holds-put x.chans name n x.made ch),
          )
        ];
}

complete-Served :
    (x : Waiters) (ws us : List Goroutine) (task : Task) (name : Text) (wait : ℕ)
    → x.goroutines ≡ ws ++ Goroutine.working task name wait ∷ us
    → Served x
    → Served (complete ws us name wait x)
unfolding complete
complete-Served x ws us task name wait e s = record {
  inv = unfold complete in complete-Inv x ws us task name wait e s.inv;
  worked = λ n ch p. ground (
    arith,
    p,
    λ (q : holds x.chans n ch ≡ true). s.worked n ch q,
    holds-delete x.chans name n ch,
    ap (busy n ch) e,
    busy-append n ch ws (Goroutine.working task name wait ∷ us),
    busy-append n ch ws (Goroutine.returned ∷ us),
  );
  awaited = λ ch w.
      elim (s.awaited ch (
        omega (
          arith,
          w,
          ap (waits_on ch) e,
          waits_on-append ch ws (Goroutine.working task name wait ∷ us),
          waits_on-append ch ws (Goroutine.returned ∷ us),
        ))) [
          | inl c ↦ inl (ground (arith, c))
          | inr (n, p) ↦ elim (Bool-cases (text_eq name n)) [
            | inr other ↦ inr (n, ground (arith, other, p, holds-delete x.chans name n ch))
            | inl same ↦
                let held : holds x.chans n wait ≡ true =
                  subst (λ m. holds x.chans m wait ≡ true) ((text_eq_iff name n).0 same)
                    (working_holds x ws us task name wait e s.inv) in
                inl (ground (arith, holds_one x.chans n wait ch held p))
          ]
        ];
}

woken-Served :
    (x : Waiters) (ws us : List Goroutine) (wait : ℕ)
    → x.goroutines ≡ ws ++ Goroutine.waiting wait ∷ us
    → Inv (record x { goroutines = ws ++ Goroutine.returned ∷ us })
    → Served x
    → Served (record x { goroutines = ws ++ Goroutine.returned ∷ us })
woken-Served x ws us wait e v s = record {
  inv = v;
  worked = λ n ch p. omega (
    arith,
    s.worked n ch p,
    ap (busy n ch) e,
    busy-append n ch ws (Goroutine.waiting wait ∷ us),
    busy-append n ch ws (Goroutine.returned ∷ us),
  );
  awaited = λ ch w. s.awaited ch (
      omega (
        arith,
        w,
        ap (waits_on ch) e,
        waits_on-append ch ws (Goroutine.waiting wait ∷ us),
        waits_on-append ch ws (Goroutine.returned ∷ us),
      ));
}

Step-Served : {x y : Waiters} → Step x y → Served x → Served y
Step-Served (come x task name) s = record {
  inv = Step-Inv (come x task name) s.inv;
  worked = λ n ch p. omega (arith, s.worked n ch p);
  awaited = λ ch w. s.awaited ch (omega (arith, w));
}
Step-Served (enters x ws us task name e) s =
    let v = Step-Inv (enters x ws us task name e) s.inv in
    elim (Option-cases (get x.chans name)) [
      | inl new ↦
          let now = enter_new ws us task name x new in
          subst Served (sym now) (new-Served x ws us task name e new (subst Inv now v) s)
      | inr (wait, there) ↦
          let now = enter_known ws us task name x wait there in
          subst Served (sym now) (known-Served x ws us task name wait e there (subst Inv now v) s)
    ]
Step-Served (completes x ws us task name wait e) s = complete-Served x ws us task name wait e s
Step-Served (wakes x ws us wait e c) s =
    woken-Served x ws us wait e (Step-Inv (wakes x ws us wait e c) s.inv) s

Reach-Served : {x : Waiters} → Reach Step no_waiters x → Served x
unfolding get
Reach-Served here = record {
  inv = no_waiters-Inv;
  worked = λ n ch p. absurd (cc);
  awaited = λ ch w. absurd (omega (arith, w));
}
Reach-Served (next r st) = Step-Served st (Reach-Served r)

-- While no renewal is denied, in every interleaving: a channel on which a goroutine waits is closed, or
-- there is exactly one goroutine at work that has it in the map under its name, and which closes it
-- when it completes.
pub waiters_are_served :
    {x : Waiters} (ch : ℕ)
    → Reach Step no_waiters x
    → 0 < waits_on ch x.goroutines
    → (is_closed ch x.closed ≡ true)
      ⊎ ((n : Text) × (get x.chans n ≡ some ch) × (busy n ch x.goroutines ≡ 1))
waiters_are_served {x} ch r w =
    let s = Reach-Served r in
    elim (s.awaited ch w) [
      | inl c ↦ inl c
      | inr (n, p) ↦
          inr (n, held_get x.chans n ch p, ground (arith, p, s.worked n ch p, s.inv.single n ch))
    ]
