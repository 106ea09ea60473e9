-- ===== src/RateLimiter.antt =====
-- ratelimiter.go: the ring-buffer rate limiter. The scheduling goroutine is a small machine with a
-- program counter; what it does between two waits is one function. Times are nanoseconds since Go's
-- zero time, and windows are not negative.
mod Resize
pub mod Machine
pub mod Window
pub mod Reconfigure
pub mod Reads
use otomatik.Base.{
  ℕ, zero, suc, ◌+◌, ◌-◌, Bool, true, false, not, ◌&&◌, List, [], ◌∷◌, Option, none, some, ltb, leb,
  ◌==◌, if◌then◌else◌, length, get_or, set, replicate,
}
use otomatik.Base.Int.{ℤ, pos, negsuc}
use otomatik.Base.Outcome.{Outcome, done, panic}

-- Where the goroutine of `loop` stands.
pub data Pc : Type 0 where
  top : Pc  -- at the head of the loop
  waiting : ℕ → Pc  -- in the select on the timer that fires at this time
  offering : Pc  -- in `permit`
  returned : Pc

pub record Limiter : Type 0 where
  pub window : ℕ
  pub ring : List ℕ
  pub cursor : ℕ
  pub stopped : Bool
  pub pc : Pc

-- NewRateLimiter: the loop is at its head when the constructor returns.
unfoldable pub new_rate_limiter : ℤ → ℕ → Outcome Limiter
new_rate_limiter (negsuc n) window = panic
new_rate_limiter (pos max_events) window =
    if max_events == 0 && not (window == 0)
    then panic
    else done (record {
      window = window;
      ring = replicate max_events 0;
      cursor = 0;
      stopped = false;
      pc = top;
    })

-- advance
unfoldable pub advance : Limiter → Limiter
advance r =
    let next = r.cursor + 1 in
    if leb (length r.ring) next then record r { cursor = 0 } else record r { cursor = next }

-- One pass through the head of `loop`, up to the wait or the call of `permit`, where nobody changes the
-- limit or the window between its reads; Reads.antt has them one by one.
unfoldable pub loop_head : Limiter → Outcome Limiter
loop_head r =
    if r.stopped
    then done (record r { pc = returned })
    else if length r.ring == 0
    then if r.window == 0 then done (record r { pc = offering }) else panic
    else done (record r { pc = waiting (get_or r.ring r.cursor 0 + r.window) })

-- `permit` when a goroutine takes the ticket at time `now`; then `loop` goes on.
unfoldable pub permit : Limiter → ℕ → Limiter
unfolding advance
permit r now =
    if ltb 0 (length r.ring)
    then record (advance (record r { ring = set r.ring r.cursor now })) { pc = top }
    else record r { pc = top }

-- Allow: whether a ticket is on offer. The ticket that it takes is a `permit` step.
unfoldable pub allow : Limiter → Bool
allow r = elim r.pc [ offering ↦ true | _ ↦ false ]

-- Stop; a second call closes a closed channel.
unfoldable pub stop : Limiter → Outcome Limiter
stop r = if r.stopped then panic else done (record r { stopped = true })

-- MaxEvents and Window
unfoldable pub max_events : Limiter → ℕ
max_events r = length r.ring

unfoldable pub get_window : Limiter → ℕ
get_window r = r.window

-- SetWindow
unfoldable pub set_window : Limiter → ℕ → Outcome Limiter
set_window r window =
    if not (window == 0) && length r.ring == 0 then panic else done (record r { window = window })

-- `for i := 0; i < sizeDiff; i++ { r.advance() }`
unfoldable pub fast_forward : ℕ → Limiter → Limiter
unfolding advance
fast_forward zero r = r
fast_forward (suc n) r = fast_forward n (advance r)

-- The copying loop: `n` rounds are left, `i` is the index and `start` the cursor at the beginning.
unfoldable pub copy_ring : ℕ → ℕ → List ℕ → ℕ → Limiter → List ℕ × Limiter
unfolding advance
copy_ring zero i new start r = (new, r)
copy_ring (suc n) i new start r =
    let new' = set new i (get_or r.ring r.cursor 0) in
    let r' = advance r in
    elim (r'.cursor == start) [ true ↦ (new', r') | false ↦ copy_ring n (i + 1) new' start r' ]

-- SetMaxEvents after its guards: forget the oldest, copy the rest, start at index 0.
unfoldable pub resize : Limiter → ℕ → Limiter
unfolding fast_forward copy_ring
resize r m =
    let ahead = fast_forward (length r.ring - m) r in
    let (new, r') = copy_ring m 0 (replicate m 0) ahead.cursor ahead in
    if ltb 0 (length ahead.ring)
    then record r' { ring = new; cursor = 0 }
    else record ahead { ring = replicate m 0; cursor = 0 }

-- SetMaxEvents; `make` panics on a negative length.
unfoldable pub set_max_events : Limiter → ℤ → Outcome Limiter
unfolding resize
set_max_events r (negsuc n) = panic
set_max_events r (pos m) =
    if not (r.window == 0) && m == 0
    then panic
    else if m == length r.ring
    then done r
    else done (resize r m)
