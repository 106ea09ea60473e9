-- ===== src/OnDemand/Denied.antt =====
-- What a denied renewal leaves behind.
use otomatik.Base.{
  ℕ, ◌≡◌, refl, sym, ap, subst, true, false, List, ◌∷◌, ◌++◌, none, some, arith, Bool-cases,
  Option-cases, inl, inr,
}
use otomatik.Base.Text.{Text, text_eq, text_eq_iff, text_eq_refl}
use otomatik.Base.Map.{Map, get}
use otomatik.OnDemand.{
  Task, Goroutine, Waiters, is_closed, enter, complete, deny, Step, come, enters, completes, wakes,
  AnyStep, run, denies, Reach, here, next, no_waiters,
}
use otomatik.OnDemand.Waiting.{
  holds, works, busy, busy-append, Inv, holds-put, holds-delete, enter_known, enter_new,
  working_holds, holds_one, complete-Inv, Step-Inv, AnyStep-Inv, Reach-Inv,
}

-- The channel is in the map under the name, and nobody works for it.
abbrev Abandoned : Text → ℕ → Waiters → Type 0
Abandoned n ch x = Inv x × (holds x.chans n ch ≡ true) × (busy n ch x.goroutines ≡ 0)

moved-busy :
    (n : Text) (ch : ℕ) (x : Waiters) (ws us : List Goroutine) (g h : Goroutine)
    → x.goroutines ≡ ws ++ g ∷ us
    → works n ch h ≡ 0
    → busy n ch x.goroutines ≡ 0
    → busy n ch (ws ++ h ∷ us) ≡ 0
moved-busy n ch x ws us g h e idle z =
    omega
      (arith, ap (busy n ch) e, busy-append n ch ws (g ∷ us), busy-append n ch ws (h ∷ us), idle, z)

pub new_other :
    (x : Waiters) (name n : Text) (ch : ℕ)
    → get x.chans name ≡ none
    → holds x.chans n ch ≡ true
    → text_eq name n ≡ false
new_other x name n ch new p = elim (Bool-cases (text_eq name n)) [
  | inr other ↦ other
  | inl same ↦ absurd (
      ground
        (arith, new, subst (λ m. holds x.chans m ch ≡ true) (sym ((text_eq_iff name n).0 same)) p))
]

complete_other :
    (n : Text) (ch : ℕ) (x : Waiters) (ws us : List Goroutine) (task : Task) (name : Text)
    (wait : ℕ)
    → x.goroutines ≡ ws ++ Goroutine.working task name wait ∷ us
    → Inv x
    → holds x.chans n ch ≡ true
    → busy n ch x.goroutines ≡ 0
    → text_eq name n ≡ false
complete_other n ch x ws us task name wait e v p z = elim (Bool-cases (text_eq name n)) [
  | inr other ↦ other
  | inl same ↦
      let held : holds x.chans n wait ≡ true =
        subst (λ m. holds x.chans m wait ≡ true) ((text_eq_iff name n).0 same)
          (working_holds x ws us task name wait e v) in
      absurd (
        ground (
          arith,
          same,
          z,
          ap (busy n ch) e,
          busy-append n ch ws (Goroutine.working task name wait ∷ us),
          holds_one x.chans n wait ch held p,
        ))
]

Step-Abandoned :
    (n : Text) (ch : ℕ) {x y : Waiters} → Step x y → Abandoned n ch x → Abandoned n ch y
Step-Abandoned n ch (come x task name) (v, p, z) =
    (Step-Inv (come x task name) v, p, omega (arith, z))
Step-Abandoned n ch (enters x ws us task name e) (v, p, z) =
    elim (Option-cases (get x.chans name)) [
      | inl new ↦
          let now = sym (enter_new ws us task name x new) in
          let other = new_other x name n ch new p in
          (
            Step-Inv (enters x ws us task name e) v,
            subst (λ y. holds y.chans n ch ≡ true) now
                (ground (arith, other, p, holds-put x.chans name n x.made ch)),
            subst (λ y. busy n ch y.goroutines ≡ 0) now
                (moved-busy n ch x ws us (Goroutine.entering task name)
                  (Goroutine.working task name x.made) e (ground (arith, other)) z),
          )
      | inr (wait, there) ↦
          let now = sym (enter_known ws us task name x wait there) in
          (
            Step-Inv (enters x ws us task name e) v,
            subst (λ y. holds y.chans n ch ≡ true) now p,
            subst (λ y. busy n ch y.goroutines ≡ 0) now
                (moved-busy n ch x ws us (Goroutine.entering task name) (Goroutine.waiting wait) e
                  refl z),
          )
    ]
Step-Abandoned n ch (completes x ws us task name wait e) (v, p, z) = (
  complete-Inv x ws us task name wait e v,
  unfold complete in
      ground (
        arith,
        p,
        holds-delete x.chans name n ch,
        complete_other n ch x ws us task name wait e v p z,
      ),
  unfold complete in
      moved-busy n ch x ws us (Goroutine.working task name wait) Goroutine.returned e refl z,
)
Step-Abandoned n ch (wakes x ws us wait e c) (v, p, z) = (
  Step-Inv (wakes x ws us wait e c) v,
  p,
  moved-busy n ch x ws us (Goroutine.waiting wait) Goroutine.returned e refl z,
)

AnyStep-Abandoned :
    (n : Text) (ch : ℕ) {x y : Waiters} → AnyStep x y → Abandoned n ch x → Abandoned n ch y
unfolding deny
AnyStep-Abandoned n ch (run s) a = Step-Abandoned n ch s a
AnyStep-Abandoned n ch (denies x ws us name wait e) (v, p, z) = (
  AnyStep-Inv (denies x ws us name wait e) v,
  p,
  moved-busy n ch x ws us (Goroutine.working Task.renew name wait) Goroutine.returned e refl z,
)

Reach-Abandoned :
    (n : Text) (ch : ℕ) {x y : Waiters} → Reach AnyStep x y → Abandoned n ch x → Abandoned n ch y
Reach-Abandoned n ch here a = a
Reach-Abandoned n ch (next r s) a = AnyStep-Abandoned n ch s (Reach-Abandoned n ch r a)

deny-Abandoned :
    (n : Text) (ch : ℕ) (x : Waiters) (ws us : List Goroutine)
    → x.goroutines ≡ ws ++ Goroutine.working Task.renew n ch ∷ us
    → Inv x
    → Abandoned n ch (deny ws us x)
unfolding deny
deny-Abandoned n ch x ws us e v = (
  AnyStep-Inv (denies x ws us n ch e) v,
  working_holds x ws us Task.renew n ch e v,
  ground (
    arith,
    v.single n ch,
    ap (busy n ch) e,
    text_eq_refl n,
    busy-append n ch ws (Goroutine.working Task.renew n ch ∷ us),
    busy-append n ch ws (Goroutine.returned ∷ us),
  ),
)

pub held_get : (m : Map ℕ) (n : Text) (ch : ℕ) → holds m n ch ≡ true → get m n ≡ some ch
held_get m n ch p = ground (arith, p)

-- When a renewal for a name is denied, its channel stays in the map: in every later state the channel
-- is there under the name and not closed, so that every goroutine that then enters for the name comes
-- to wait on a channel that is never closed.
pub denied_renewal_blocks :
    (n : Text) (ch : ℕ) (ws us : List Goroutine) {x y : Waiters}
    → Reach AnyStep no_waiters x
    → x.goroutines ≡ ws ++ Goroutine.working Task.renew n ch ∷ us
    → Reach AnyStep (deny ws us x) y
    → (is_closed ch y.closed ≡ false)
      × ((task : Task) (vs ts : List Goroutine)
          → enter vs ts task n y ≡ record y { goroutines = vs ++ Goroutine.waiting ch ∷ ts })
denied_renewal_blocks n ch ws us {x} {y} r e later =
    let (v, p, z) = Reach-Abandoned n ch later (deny-Abandoned n ch x ws us e (Reach-Inv r)) in
    (v.open_chan n ch p, λ task vs ts. enter_known vs ts task n y ch (held_get y.chans n ch p))
