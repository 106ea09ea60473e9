-- ===== src/RateLimiter/Reads.antt =====
-- ratelimiter.go: the head of loop read by read. It reads the length of the ring and the window without
-- the lock, and then the slot under it, so that SetMaxEvents and SetWindow may come in between.
use otomatik.Base.{
  ℕ, ◌+◌, ◌<◌, ◌≡◌, ◌≢◌, refl, length, get_or, arith, ltb, ◌==◌, if◌then◌else◌, inl, inr, ◌⊎◌,
}
use otomatik.Base.Int.{pos}
use otomatik.Base.Outcome.{Outcome, done, panic}
use otomatik.RateLimiter.{Limiter, Pc, loop_head, set_window, set_max_events}
use otomatik.RateLimiter.Reconfigure.{
  IsValid, set_max_events_lem, set_window-IsValid, set_max_events-IsValid,
}

-- What `len(r.ring) == 0` has told the goroutine
pub data Reading : Type 0 where
  without_places : Reading
  with_places : Reading

unfoldable pub read_size : Limiter → Reading
read_size r = if length r.ring == 0 then without_places else with_places

-- What follows: the test of the window, or the slot under the lock, the index of which is checked
unfoldable pub read_rest : Reading → Limiter → Outcome Limiter
read_rest without_places r = if r.window == 0 then done (record r { pc = Pc.offering }) else panic
read_rest with_places r =
    if ltb r.cursor (length r.ring)
    then done (record r { pc = Pc.waiting (get_or r.ring r.cursor 0 + r.window) })
    else panic

-- The reads with nothing between them
unfoldable pub read_all : Limiter → Outcome Limiter
unfolding read_size read_rest
read_all r = if r.stopped then done (record r { pc = Pc.returned }) else read_rest (read_size r) r

read_all-loop_head : (r : Limiter) → IsValid r → read_all r ≡ loop_head r
unfolding read_all read_size read_rest loop_head
read_all-loop_head r v = elim v.inside [ inl c ↦ ground (arith, c) | inr z ↦ ground (arith, z) ]

valid_never_panics : (r : Limiter) → IsValid r → read_all r ≢ panic
unfolding read_all read_size read_rest
valid_never_panics r v = elim v.inside [
  | inl c ↦ ground (arith, c)
  | inr z ↦ ground (arith, z, v.open_ring)
]

set_window-done :
    (r : Limiter) (w : ℕ)
    → (w ≡ 0) ⊎ (0 < length r.ring)
    → set_window r w ≡ done (record r { window = w })
unfolding set_window
set_window-done r w h = ground (arith, h)

-- For a limiter whose cursor stands in its ring, or whose ring is empty, and that has a window only over a
-- ring with places: with nothing between its reads the goroutine does not panic at the head of its
-- loop. But between its first read and the rest, calls that are accepted and leave such a limiter make
-- it panic: where the ring is empty, SetMaxEvents with more than 0 and then SetWindow with more than 0,
-- and where the ring has places, SetWindow with 0 and then SetMaxEvents with 0.
pub reconfigured_between_reads :
    (r : Limiter)
    → IsValid r
    → (read_all r ≢ panic)
      × ((n w : ℕ)
          → length r.ring ≡ 0
          → 0 < n
          → 0 < w
          → (r₁ : Limiter) × (r₂ : Limiter) × (set_max_events r (pos n) ≡ done r₁)
            × (set_window r₁ w ≡ done r₂)
            × IsValid r₂
            × (read_rest (read_size r) r₂ ≡ panic))
      × (0 < length r.ring
          → (r₁ : Limiter) × (r₂ : Limiter) × (set_window r 0 ≡ done r₁)
            × (set_max_events r₁ (pos 0) ≡ done r₂)
            × IsValid r₂
            × (read_rest (read_size r) r₂ ≡ panic))
unfolding read_size read_rest
reconfigured_between_reads r v = (
  valid_never_panics r v,
  λ n w empty more window.
      let (_, _, taken) = set_max_events_lem r v in
      let (r₁, grown, resized) = taken n (inr more) in
      let v₁ = set_max_events-IsValid r r₁ n grown v in
      let opened = set_window-done r₁ w (inr (ground (arith, resized.size, more))) in
      (
        r₁,
        record r₁ { window = w },
        grown,
        opened,
        set_window-IsValid r₁ _ w opened v₁,
        ground (arith, empty, window),
      ),
  λ places.
      let r₁ : Limiter = record r { window = 0 } in
      let closed = set_window-done r 0 (inl refl) in
      let v₁ = set_window-IsValid r r₁ 0 closed v in
      let (_, _, taken) = set_max_events_lem r₁ v₁ in
      let (r₂, shrunk, resized) = taken 0 (inl refl) in
      (
        r₁,
        r₂,
        closed,
        shrunk,
        set_max_events-IsValid r₁ r₂ 0 shrunk v₁,
        ground (arith, places, resized.size),
      ),
)
