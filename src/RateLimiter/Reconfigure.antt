-- ===== src/RateLimiter/Reconfigure.antt =====
-- What the calls that change the limit and the window do.
use otomatik.Base.{
  length-replicate, ℕ, ◌+◌, ◌-◌, ◌<◌, ◌≡◌, ◌≢◌, refl, sym, ap, ◌∙◌, false, length, arith, ltb, ◌==◌,
  if◌then◌else◌, ◌⊎◌, inl, inr, Bool-cases, ==_iff,
}
use otomatik.Base.Int.{ℤ, pos, negsuc}
use otomatik.Base.Outcome.{done, panic}
use otomatik.RateLimiter.{
  Limiter, Pc, new_rate_limiter, loop_head, set_window, set_max_events, resize,
}
use otomatik.RateLimiter.Resize.{
  nth_oldest, nth_oldest-resize, nth_oldest-resize_empty, length-resize, window-resize,
  cursor-resize, stopped-resize,
}
use otomatik.RateLimiter.Window.{loop_head_lem}
use otomatik.RateLimiter.Machine.{go_to}

-- What a change of the limit to `m` leaves behind.
pub record Resized (r : Limiter) (m : ℕ) (r' : Limiter) : Type 0 where
  pub size : length r'.ring ≡ m
  pub window : r'.window ≡ r.window
  pub kept :
      (j : ℕ)
      → j < m
      → nth_oldest r' j
        ≡ (if ltb j (length r.ring) then nth_oldest r (length r.ring - m + j) else 0)

-- A cursor that stands in the ring, and a window only over a ring with places.
pub record IsValid (r : Limiter) : Type 0 where
  pub inside : r.cursor < length r.ring ⊎ (length r.ring ≡ 0)
  pub open_ring : r.window ≢ 0 → 0 < length r.ring

resize-Resized : (r : Limiter) (m : ℕ) → IsValid r → Resized r m (resize r m)
resize-Resized r m v = record {
  size = length-resize r m;
  window = window-resize r m;
  kept = λ j b. elim v.inside [
    | inl c ↦ nth_oldest-resize r m j c b
    | inr z ↦ rw (nth_oldest-resize_empty r m j z) (ground (arith, z))
  ];
}

module _ (r : Limiter) (v : IsValid r) where
  set_max_events-done :
      (m : ℕ)
      → (r.window ≡ 0) ⊎ (0 < m)
      → (r' : Limiter) × (set_max_events r (pos m) ≡ done r') × Resized r m r'
  unfolding set_max_events
  set_max_events-done m allowed = elim (Bool-cases (m == length r.ring)) [
    | inl same ↦ (
      r,
      ground (arith, same),
      record {
        size = sym ((==_iff m (length r.ring)).0 same);
        window = refl;
        kept = λ j b. ground (arith, same);
      },
    )
    | inr other ↦ (resize r m, ground (arith, other), resize-Resized r m v)
  ]

  -- For a limiter whose cursor stands in its ring, or whose ring is empty, and that has a window only
  -- over a ring with places: a negative limit panics, and so does a limit of 0 while there is a window. Any other limit is
  -- taken: the ring gets that many places, the newest of the old times are kept in order, and the
  -- places beyond them hold Go's zero time.
  pub set_max_events_lem :
      ((k : ℕ) → set_max_events r (negsuc k) ≡ panic)
      × (r.window ≢ 0 → set_max_events r (pos 0) ≡ panic)
      × ((m : ℕ)
          → (r.window ≡ 0) ⊎ (0 < m)
          → (r' : Limiter) × (set_max_events r (pos m) ≡ done r') × Resized r m r')
  set_max_events_lem = (
    λ k. unfold set_max_events in refl,
    λ h. unfold set_max_events in ground (arith, h),
    set_max_events-done,
  )

running_waits :
    (r : Limiter) (t : ℕ)
    → r.stopped ≡ false
    → r.cursor < length r.ring
    → nth_oldest r 0 + r.window ≡ t
    → loop_head r ≡ done (go_to r (Pc.waiting t))
running_waits r t s c e =
    loop_head_lem r c
    ∙ ap (λ pc. done (go_to r pc))
        (ap (λ b. if b then Pc.returned else Pc.waiting (nth_oldest r 0 + r.window)) s
          ∙ ap Pc.waiting e)

-- Raising the limit of a limiter that is not stopped, and whose cursor stands in its ring, gives no
-- capacity at once: at the head of its loop the goroutine then waits until the same time as it would
-- have waited before.
pub raised_limit_waits :
    (r : Limiter) (m : ℕ)
    → r.stopped ≡ false
    → r.cursor < length r.ring
    → length r.ring < m
    → (r' : Limiter) × (t : ℕ) × (set_max_events r (pos m) ≡ done r')
      × (loop_head r ≡ done (go_to r (Pc.waiting t)))
      × (loop_head r' ≡ done (go_to r' (Pc.waiting t)))
unfolding set_max_events
raised_limit_waits r m s c b = (
  resize r m,
  nth_oldest r 0 + r.window,
  ground arith,
  running_waits r _ s c refl,
  running_waits (resize r m) _ (stopped-resize r m ∙ s)
      (omega (arith, cursor-resize r m, length-resize r m))
      (ground (arith, nth_oldest-resize r m 0 c, window-resize r m, same_place)),
)
  where
    same_place : nth_oldest r (length r.ring - m + 0) ≡ nth_oldest r 0
    same_place = ap (nth_oldest r) (omega arith)

resize-IsValid : (r : Limiter) (m : ℕ) → (r.window ≡ 0) ⊎ (0 < m) → IsValid (resize r m)
resize-IsValid r m a = record {
  inside = ground (arith, cursor-resize r m, length-resize r m);
  open_ring = λ h. ground (arith, window-resize r m, length-resize r m);
}

pub set_window-IsValid : (r l : Limiter) (w : ℕ) → set_window r w ≡ done l → IsValid r → IsValid l
unfolding set_window
set_window-IsValid r l w e v = ground arith

pub set_max_events-IsValid :
    (r l : Limiter) (m : ℕ) → set_max_events r (pos m) ≡ done l → IsValid r → IsValid l
unfolding set_max_events
set_max_events-IsValid r l m e v = ground (arith, resize-IsValid r m)

-- What the constructor accepts
new-IsValid : (m : ℤ) (w : ℕ) (l : Limiter) → new_rate_limiter m w ≡ done l → IsValid l
unfolding new_rate_limiter
new-IsValid (pos m) w l e = ground (arith, length-replicate {A = ℕ} m 0)
new-IsValid (negsuc m) w l e = cc
