-- ===== src/Tests/RateLimiter.antt =====
-- Runs of the rate limiter of ratelimiter.go.
use otomatik.Base.{ℕ, ◌<◌, ◌≡◌, ◌≢◌, refl, [], ◌∷◌, false, arith, inl, inr, ◌⊎◌, length}
use otomatik.Base.Int.{pos, negsuc}
use otomatik.Base.Outcome.{done, panic}
use otomatik.RateLimiter.{
  Limiter, Pc, new_rate_limiter, advance, loop_head, permit, allow, set_max_events, resize,
  set_window,
}
use otomatik.RateLimiter.Machine.{World, Step, Reach}
use otomatik.RateLimiter.Window.{Spaced, limit_holds}
use otomatik.RateLimiter.Reconfigure.{Resized, IsValid, set_max_events_lem}
use otomatik.RateLimiter.Reads.{read_all, read_rest, read_size, reconfigured_between_reads}

-- One event in a window of 5.
abbrev one_in_five : Limiter
one_in_five = record { window = 5; ring = 0 ∷ []; cursor = 0; stopped = false; pc = Pc.top }

abbrev after_two : World
after_two = record {
  limiter = record { window = 5; ring = 105 ∷ []; cursor = 0; stopped = false; pc = Pc.top };
  now = 105;
  history = 105 ∷ 100 ∷ [];
}

-- An event at 100, and the next at 105.
two_events : Reach Step (record { limiter = one_in_five; now = 100; history = [] }) after_two
unfolding loop_head permit advance allow
two_events =
    Reach.next
      (Reach.next
        (Reach.next
          (Reach.next
            (Reach.next
              (Reach.next (Reach.next Reach.here (Step.head _ _ refl refl))
                (Step.fire _ 5 refl (omega arith)))
              (Step.take _ refl))
            (Step.head _ _ refl refl))
          (Step.tick _ 105 (omega arith)))
        (Step.fire _ 105 refl (omega arith)))
      (Step.take _ refl)

limit_holds_example : Spaced 1 5 (105 ∷ 100 ∷ [])
unfolding new_rate_limiter
limit_holds_example = limit_holds 1 5 100 one_in_five (omega arith) refl two_events

-- The last event of three was at 30.
abbrev three_events : Limiter
three_events = record {
  window = 60;
  ring = 10 ∷ 20 ∷ 30 ∷ [];
  cursor = 0;
  stopped = false;
  pc = Pc.top;
}

three_events-IsValid : IsValid three_events
three_events-IsValid = record { inside = inl (omega arith); open_ring = λ _. omega arith }

abbrev Settings : Limiter → Type 0
Settings r =
    ((k : ℕ) → set_max_events r (negsuc k) ≡ panic)
    × (r.window ≢ 0 → set_max_events r (pos 0) ≡ panic)
    × ((m : ℕ)
        → (r.window ≡ 0) ⊎ (0 < m)
        → (r' : Limiter) × (set_max_events r (pos m) ≡ done r') × Resized r m r')

set_max_events_lem_example : Settings three_events
set_max_events_lem_example = set_max_events_lem three_events three_events-IsValid

-- Two of the three events are kept.
set_max_events_test :
    set_max_events three_events (pos 2)
    ≡ done (record { window = 60; ring = 20 ∷ 30 ∷ []; cursor = 0; stopped = false; pc = Pc.top })
unfolding set_max_events resize advance
set_max_events_test = refl

-- A limiter without a limit
abbrev unlimited : Limiter
unlimited = record { window = 0; ring = []; cursor = 0; stopped = false; pc = Pc.top }

unlimited-IsValid : IsValid unlimited
unlimited-IsValid = record { inside = inr refl; open_ring = λ h. absurd (h refl) }

abbrev Torn : Limiter → Type 0
Torn r =
    (read_all r ≢ panic)
    × ((n w : ℕ)
        → length r.ring ≡ 0
        → 0 < n
        → 0 < w
        → (r₁ : Limiter) × (r₂ : Limiter) × (set_max_events r (pos n) ≡ done r₁)
          × (set_window r₁ w ≡ done r₂)
          × IsValid r₂
          × (read_rest (read_size r) r₂ ≡ panic))
    × (0 < length r.ring
        → (r₁ : Limiter) × (r₂ : Limiter) × (set_window r 0 ≡ done r₁)
          × (set_max_events r₁ (pos 0) ≡ done r₂)
          × IsValid r₂
          × (read_rest (read_size r) r₂ ≡ panic))

reconfigured_between_reads_example : Torn unlimited
reconfigured_between_reads_example = reconfigured_between_reads unlimited unlimited-IsValid
