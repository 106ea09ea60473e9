-- ===== src/Base/Result.antt =====
-- What a Go call that returns an error beside a value leaves: the value, the error, or neither, and
-- the state after it.
use mathlib.Core.Path.{◌≡◌, refl, ap}
use mathlib.Core.Logic.{◌≢◌}
use mathlib.Core.Option.{Option, none, some}
use otomatik.Base.Errors.{Error}

-- How a call ends that does not return: in a panic, or, in the model of a loop, without the fuel for
-- its next round.
pub data Stop : Type 0 where
  panicked : Stop
  out_of_fuel : Stop

pub data Result (A : Type 0) : Type 0 where
  ok : A → Result A
  err : Error → Result A
  stopped : Stop → Result A

abbrev pub Action : Type 0 → Type 0 → Type 0
Action S A = S → Result A × S

module _ {S A : Type 0} where
  abbrev pub pure : A → Action S A
  pure a s = (ok a, s)

  abbrev pub raise : Error → Action S A
  raise e s = (err e, s)

  abbrev pub give : Result A → Action S A
  give r s = (r, s)

-- What follows a call, by what the call left.
unfoldable pub next : {S A B : Type 0} → (A → Action S B) → Result A × S → Result B × S
next f (ok a, s) = f a s
next f (err e, s) = (err e, s)
next f (stopped h, s) = (stopped h, s)

infixl 5 ◌>>=◌ ◌>>◌
abbrev pub ◌>>=◌ : {S A B : Type 0} → Action S A → (A → Action S B) → Action S B
unfolding next
◌>>=◌ m f s = next f (m s)

abbrev pub ◌>>◌ : {S B : Type 0} → Action S (Unit {0}) → Action S B → Action S B
m >> k = m >>= λ _. k

-- A call that returns an error only.
abbrev pub of_error : Option Error → Result (Unit {0})
of_error none = ok tt
of_error (some e) = err e

abbrev pub as_result : {S : Type 0} → Option Error × S → Result (Unit {0}) × S
as_result (e, s) = (of_error e, s)

abbrev pub call : {S : Type 0} → (S → Option Error × S) → Action S (Unit {0})
call m s = as_result (m s)

abbrev pub dropped : {S A : Type 0} → Result A × S → Result (Unit {0}) × S
dropped (ok a, s) = (ok tt, s)
dropped (err e, s) = (ok tt, s)
dropped (stopped h, s) = (stopped h, s)

-- A call whose value and error the caller drops.
abbrev pub ignore : {S A : Type 0} → Action S A → Action S (Unit {0})
ignore m s = dropped (m s)

abbrev pub renamed : {S A : Type 0} → (Error → Error) → Result A × S → Result A × S
renamed f (ok a, s) = (ok a, s)
renamed f (err e, s) = (err (f e), s)
renamed f (stopped h, s) = (stopped h, s)

-- Another error in place of the one that came, as fmt.Errorf makes it.
abbrev pub with_error : {S A : Type 0} → (Error → Error) → Action S A → Action S A
with_error f m s = renamed f (m s)

pub ok-injective : {A : Type 0} {a b : A} → ok a ≡ ok b → a ≡ b
ok-injective h = cc

pub err-ne-ok : {A : Type 0} {a : A} {e : Error} → err e ≢ ok a
err-ne-ok h = cc

pub stopped-ne-ok : {A : Type 0} {a : A} {h : Stop} → stopped h ≢ ok a
stopped-ne-ok h = cc

-- A chain whose first call ended well.
pub >>=-ok :
    {S A B : Type 0} (m : Action S A) (f : A → Action S B) (s : S) {a : A} {t : S}
    → m s ≡ (ok a, t)
    → (m >>= f) s ≡ f a t
unfolding next
>>=-ok m f s h = ap (next f) h

-- A chain that ended well went through its first call.
pub >>=-eq-ok :
    {S A B : Type 0} (m : Action S A) (f : A → Action S B) (s : S) {b : B} {t : S}
    → (m >>= f) s ≡ (ok b, t)
    → (a : A) × (s' : S) × (m s ≡ (ok a, s')) × (f a s' ≡ (ok b, t))
unfolding next
>>=-eq-ok {S} {A} {B} m f s {b} {t} h = split (m s) refl h
  where
    split :
        (r : Result A × S)
        → m s ≡ r
        → next f r ≡ (ok b, t)
        → (a : A) × (s' : S) × (m s ≡ (ok a, s')) × (f a s' ≡ (ok b, t))
    split (ok a, s') e h = (a, s', e, h)
    split (err x, s') e h = absurd (err-ne-ok (ap (λ r. r.0) h))
    split (stopped k, s') e h = absurd (stopped-ne-ok (ap (λ r. r.0) h))

pub renamed-eq-ok :
    {S A : Type 0} (f : Error → Error) (r : Result A × S) {a : A} {t : S}
    → renamed f r ≡ (ok a, t)
    → r ≡ (ok a, t)
renamed-eq-ok f (ok b, s) h = h
renamed-eq-ok f (err e, s) h = absurd (err-ne-ok (ap (λ r. r.0) h))
renamed-eq-ok f (stopped k, s) h = absurd (stopped-ne-ok (ap (λ r. r.0) h))
