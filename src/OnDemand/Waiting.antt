-- ===== src/OnDemand/Waiting.antt =====
-- Who serves whom among the goroutines that wait for a certificate.
use otomatik.Base.{
  ℕ, ◌+◌, ◌≤◌, ◌<◌, ◌≡◌, refl, sym, ap, subst, Bool, true, false, ◌&&◌, List, [], ◌∷◌, ◌++◌, none,
  some, ◌==◌, if◌then◌else◌, arith, Bool-cases, Option-cases, inl, inr,
}
use otomatik.Base.Text.{Text, text_eq, text_eq_iff, text_eq_refl}
use otomatik.Base.Map.{Map, get, put, delete, get-put, get-delete}
use otomatik.Base.Occurs.{one_if}
use otomatik.OnDemand.{
  Task, Goroutine, Waiters, is_closed, enter, complete, deny, Step, come, enters, completes, wakes,
  AnyStep, run, denies, Reach, here, next, no_waiters,
}

-- Whether the channel is in the map under the name.
abbrev pub holds : Map ℕ → Text → ℕ → Bool
holds m n ch = elim (get m n) [ none ↦ false | some c ↦ c == ch ]

abbrev pub works : Text → ℕ → Goroutine → ℕ
works n ch (Goroutine.working task m c) = one_if (text_eq m n && c == ch)
works n ch _ = 0

-- How many goroutines work for the name with the channel.
abbrev pub busy : Text → ℕ → List Goroutine → ℕ
busy n ch [] = 0
busy n ch (g ∷ gs) = works n ch g + busy n ch gs

pub busy-append :
    (n : Text) (ch : ℕ) (p q : List Goroutine) → busy n ch (p ++ q) ≡ busy n ch p + busy n ch q
busy-append n ch [] q = omega arith
busy-append n ch (g ∷ p) q = omega (arith, busy-append n ch p q)

pub record Inv (x : Waiters) : Type 0 where
  pub single : (n : Text) (ch : ℕ) → busy n ch x.goroutines ≤ one_if (holds x.chans n ch)
  pub known : (n : Text) (ch : ℕ) → holds x.chans n ch ≡ true → ch < x.made
  pub open_chan : (n : Text) (ch : ℕ) → holds x.chans n ch ≡ true → is_closed ch x.closed ≡ false
  pub unmade : (ch : ℕ) → x.made ≤ ch → is_closed ch x.closed ≡ false
  pub apart : (n m : Text) (ch : ℕ) → holds x.chans n ch ≡ true → holds x.chans m ch ≡ true → n ≡ m

pub holds-put :
    (m : Map ℕ) (k n : Text) (v ch : ℕ)
    → holds (put m k v) n ch ≡ (if text_eq k n then v == ch else holds m n ch)
holds-put m k n v ch = ground (arith, get-put m k n v)

pub holds-delete :
    (m : Map ℕ) (k n : Text) (ch : ℕ)
    → holds (delete m k) n ch ≡ (if text_eq k n then false else holds m n ch)
holds-delete m k n ch = ground (arith, get-delete m k n)

-- A goroutine moves on to where it does not work.
moved-Inv :
    (x : Waiters) (ws us : List Goroutine) (g h : Goroutine)
    → x.goroutines ≡ ws ++ g ∷ us
    → ((n : Text) (ch : ℕ) → works n ch h ≡ 0)
    → Inv x
    → Inv (record x { goroutines = ws ++ h ∷ us })
moved-Inv x ws us g h e idle v = record {
  single = λ n ch. ground (
    arith,
    v.single n ch,
    ap (busy n ch) e,
    busy-append n ch ws (g ∷ us),
    busy-append n ch ws (h ∷ us),
    idle n ch,
  );
  known = v.known;
  open_chan = v.open_chan;
  unmade = v.unmade;
  apart = v.apart;
}

pub enter_known :
    (ws us : List Goroutine) (task : Task) (name : Text) (x : Waiters) (wait : ℕ)
    → get x.chans name ≡ some wait
    → enter ws us task name x ≡ record x { goroutines = ws ++ Goroutine.waiting wait ∷ us }
unfolding enter
enter_known ws us task name x wait h = rw (h, enter) refl

abbrev pub entered : List Goroutine → List Goroutine → Task → Text → Waiters → Waiters
entered ws us task name x = record x {
  chans = put x.chans name x.made;
  made = x.made + 1;
  goroutines = ws ++ Goroutine.working task name x.made ∷ us;
}

pub enter_new :
    (ws us : List Goroutine) (task : Task) (name : Text) (x : Waiters)
    → get x.chans name ≡ none
    → enter ws us task name x ≡ entered ws us task name x
unfolding enter
enter_new ws us task name x h = rw (h, enter) refl

entered-Inv :
    (x : Waiters) (ws us : List Goroutine) (task : Task) (name : Text)
    → x.goroutines ≡ ws ++ Goroutine.entering task name ∷ us
    → get x.chans name ≡ none
    → Inv x
    → Inv (entered ws us task name x)
entered-Inv x ws us task name e h v = record {
  single = λ n ch. ground (
    arith,
    v.single n ch,
    h,
    ap (busy n ch) e,
    text_eq_iff name n,
    holds-put x.chans name n x.made ch,
    busy-append n ch ws (Goroutine.entering task name ∷ us),
    busy-append n ch ws (Goroutine.working task name x.made ∷ us),
  );
  known = λ n ch p. ground (arith, p, holds-put x.chans name n x.made ch, v.known n ch);
  open_chan = λ n ch p.
      ground (arith, p, holds-put x.chans name n x.made ch, v.open_chan n ch, v.unmade ch);
  unmade = λ ch p. v.unmade ch (omega (arith, p));
  apart = λ n m ch p q. ground (
    arith,
    p,
    q,
    holds-put x.chans name n x.made ch,
    holds-put x.chans name m x.made ch,
    v.known n ch,
    v.known m ch,
    text_eq_iff name n,
    text_eq_iff name m,
    v.apart n m ch,
  );
}

-- The channel of a working goroutine is in the map under its name.
pub working_holds :
    (x : Waiters) (ws us : List Goroutine) (task : Task) (name : Text) (wait : ℕ)
    → x.goroutines ≡ ws ++ Goroutine.working task name wait ∷ us
    → Inv x
    → holds x.chans name wait ≡ true
working_holds x ws us task name wait e v = ground (
  arith,
  v.single name wait,
  ap (busy name wait) e,
  busy-append name wait ws (Goroutine.working task name wait ∷ us),
  text_eq_refl name,
)

-- A channel is held under one name, and a name holds one channel.
pub holds_one : (m : Map ℕ) (n : Text) (c d : ℕ) → holds m n c ≡ true → holds m n d ≡ true → c ≡ d
holds_one m n c d p q = ground (arith, p, q)

-- The other channels are held under other names.
other_chan :
    (x : Waiters) (name n : Text) (wait ch : ℕ)
    → Inv x
    → holds x.chans name wait ≡ true
    → holds x.chans n ch ≡ true
    → text_eq name n ≡ false
    → (wait == ch) ≡ false
other_chan x name n wait ch v held p other = elim (Bool-cases (wait == ch)) [
  | inr e ↦ e
  | inl e ↦
      let same : wait ≡ ch = ground (arith, e) in
      let one = v.apart name n ch (subst (λ c. holds x.chans name c ≡ true) same held) p in
      ground (arith, other, (text_eq_iff name n).1 one)
]

complete-single :
    (x : Waiters) (ws us : List Goroutine) (task : Task) (name n : Text) (wait ch : ℕ)
    → x.goroutines ≡ ws ++ Goroutine.working task name wait ∷ us
    → Inv x
    → busy n ch (ws ++ Goroutine.returned ∷ us) ≤ one_if (holds (delete x.chans name) n ch)
complete-single x ws us task name n wait ch e v =
    let counts = ap (busy n ch) e in
    let before = busy-append n ch ws (Goroutine.working task name wait ∷ us) in
    let after = busy-append n ch ws (Goroutine.returned ∷ us) in
    let held = working_holds x ws us task name wait e v in
    elim (Bool-cases (text_eq name n)) [
      | inr other ↦
          ground
            (arith, other, v.single n ch, counts, before, after, holds-delete x.chans name n ch)
      | inl same ↦
          let held' : holds x.chans n wait ≡ true =
            subst (λ m. holds x.chans m wait ≡ true) ((text_eq_iff name n).0 same) held in
          ground
            (arith, same, v.single n ch, counts, before, after, holds_one x.chans n wait ch held')
    ]

pub complete-Inv :
    (x : Waiters) (ws us : List Goroutine) (task : Task) (name : Text) (wait : ℕ)
    → x.goroutines ≡ ws ++ Goroutine.working task name wait ∷ us
    → Inv x
    → Inv (complete ws us name wait x)
unfolding complete
complete-Inv x ws us task name wait e v =
    let held = working_holds x ws us task name wait e v in
    record {
      single = λ n ch. complete-single x ws us task name n wait ch e v;
      known = λ n ch p. ground (arith, p, holds-delete x.chans name n ch, v.known n ch);
      open_chan = λ n ch p. ground (
        arith,
        p,
        holds-delete x.chans name n ch,
        v.open_chan n ch,
        other_chan x name n wait ch v held,
      );
      unmade = λ ch p. ground (arith, p, v.unmade ch, v.known name wait held);
      apart = λ n m ch p q. ground (
        arith,
        p,
        q,
        holds-delete x.chans name n ch,
        holds-delete x.chans name m ch,
        v.apart n m ch,
      );
    }

pub Step-Inv : {x y : Waiters} → Step x y → Inv x → Inv y
Step-Inv (come x task name) v = record {
  single = λ n ch. omega (arith, v.single n ch);
  known = v.known;
  open_chan = v.open_chan;
  unmade = v.unmade;
  apart = v.apart;
}
Step-Inv (enters x ws us task name e) v = elim (Option-cases (get x.chans name)) [
  | inl new ↦
      subst Inv (sym (enter_new ws us task name x new)) (entered-Inv x ws us task name e new v)
  | inr (wait, there) ↦
      subst Inv (sym (enter_known ws us task name x wait there)) (
        moved-Inv x ws us (Goroutine.entering task name) (Goroutine.waiting wait) e (λ n ch. refl)
          v)
]
Step-Inv (completes x ws us task name wait e) v = complete-Inv x ws us task name wait e v
Step-Inv (wakes x ws us wait e c) v =
    moved-Inv x ws us (Goroutine.waiting wait) Goroutine.returned e (λ n ch. refl) v

pub AnyStep-Inv : {x y : Waiters} → AnyStep x y → Inv x → Inv y
unfolding deny
AnyStep-Inv (run s) v = Step-Inv s v
AnyStep-Inv (denies x ws us name wait e) v =
    moved-Inv x ws us (Goroutine.working Task.renew name wait) Goroutine.returned e (λ n ch. refl) v

pub no_waiters-Inv : Inv no_waiters
unfolding get
no_waiters-Inv = record {
  single = λ n ch. omega arith;
  known = λ n ch p. absurd (cc);
  open_chan = λ n ch p. refl;
  unmade = λ ch p. refl;
  apart = λ n m ch p q. absurd (cc);
}

pub Reach-Inv : {x : Waiters} → Reach AnyStep no_waiters x → Inv x
Reach-Inv here = no_waiters-Inv
Reach-Inv (next r s) = AnyStep-Inv s (Reach-Inv r)
