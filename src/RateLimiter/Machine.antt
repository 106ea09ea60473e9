-- ===== src/RateLimiter/Machine.antt =====
-- The scheduling goroutine among its callers, as steps of one world: the limiter, the clock, and the
-- times at which events were let through, the latest first.
use otomatik.Base.{ℕ, ◌≤◌, ◌≡◌, List, ◌∷◌, true}
use otomatik.Base.Outcome.{done}
use otomatik.RateLimiter.{Limiter, Pc, loop_head, permit, stop, allow}

pub record World : Type 0 where
  pub limiter : Limiter
  pub now : ℕ
  pub history : List ℕ

abbrev pub at : World → Limiter → World
at x l = record x { limiter = l }

abbrev pub go_to : Limiter → Pc → Limiter
go_to l pc = record l { pc = pc }

-- What the goroutine does, what its callers make it do, and time, while nobody changes the limit or the
-- window.
pub data Step : World → World → Type 0 where
  tick : (x : World) (t : ℕ) → x.now ≤ t → Step x (record x { now = t })
  head :
      (x : World) (l : Limiter)
      → x.limiter.pc ≡ Pc.top
      → loop_head x.limiter ≡ done l
      → Step x (at x l)
  fire :
      (x : World) (t : ℕ)
      → x.limiter.pc ≡ Pc.waiting t
      → t ≤ x.now
      → Step x (at x (go_to x.limiter Pc.offering))
  take :
      (x : World)
      → allow x.limiter ≡ true
      → Step x (record x { limiter = permit x.limiter x.now; history = x.now ∷ x.history })
  close : (x : World) (l : Limiter) → stop x.limiter ≡ done l → Step x (at x l)
  halt : (x : World) → x.limiter.stopped ≡ true → Step x (at x (go_to x.limiter Pc.returned))

-- Any number of steps of a relation.
pub data Reach (R : World → World → Type 0) (x : World) : World → Type 0 where
  here : Reach R x x
  next : {y z : World} → Reach R x y → R y z → Reach R x z
