-- ===== src/RateLimiter/Resize.antt =====
-- The ring as a queue: `nth_oldest` reads it from the cursor on, and `resize` in those terms.
use otomatik.Base.{
  ap, ◌∙◌, sym, ◌≢◌, Bool-cases, inl, inr, ==_iff, ℕ, zero, suc, ◌+◌, ◌-◌, ◌≤◌, ◌<◌, ◌≡◌, refl,
  List, length, get_or, set, replicate, get_or-set, get_or-replicate, length-set, length-replicate,
  arith, ltb, leb, ◌==◌, ◌&&◌, if◌then◌else◌, true, false,
}
use native.Mathlib.Nat.{zero-add}
use otomatik.RateLimiter.{Limiter, advance, fast_forward, copy_ring, resize}

-- `p` is at most one round past the end of a ring of `n`.
unfoldable pub wrap : ℕ → ℕ → ℕ
wrap n p = if leb n p then p - n else p

-- The time in the `j`-th place from the cursor, which is the oldest for `j = 0`.
unfoldable pub nth_oldest : Limiter → ℕ → ℕ
unfolding wrap
nth_oldest r j = get_or r.ring (wrap (length r.ring) (r.cursor + j)) 0

pub ring-advance : (r : Limiter) → (advance r).ring ≡ r.ring
unfolding advance
ring-advance r = ground arith

pub window-advance : (r : Limiter) → (advance r).window ≡ r.window
unfolding advance
window-advance r = ground arith

pub cursor-advance :
    (r : Limiter)
    → (advance r).cursor ≡ (if leb (length r.ring) (r.cursor + 1) then 0 else r.cursor + 1)
unfolding advance
cursor-advance r = ground arith

wrap-wrap :
    (n c j : ℕ)
    → c < n
    → suc j < n
    → wrap n ((if leb n (c + 1) then 0 else c + 1) + j) ≡ wrap n (c + suc j)
unfolding wrap
wrap-wrap n c j h k = ground arith

pub nth_oldest-advance :
    (r : Limiter) (j : ℕ)
    → r.cursor < length r.ring
    → suc j < length r.ring
    → nth_oldest (advance r) j ≡ nth_oldest r (suc j)
unfolding nth_oldest
nth_oldest-advance r j h k =
    rw (ring-advance r, cursor-advance r)
      (ap (λ p. get_or r.ring p 0) (wrap-wrap (length r.ring) r.cursor j h k))

-- What `fast_forward` leaves: the same ring, read from a later place.
pub ring-fast_forward : (k : ℕ) (r : Limiter) → (fast_forward k r).ring ≡ r.ring
unfolding fast_forward
ring-fast_forward zero r = refl
ring-fast_forward (suc k) r = ring-fast_forward k (advance r) ∙ ring-advance r

pub window-fast_forward : (k : ℕ) (r : Limiter) → (fast_forward k r).window ≡ r.window
unfolding fast_forward
window-fast_forward zero r = refl
window-fast_forward (suc k) r = window-fast_forward k (advance r) ∙ window-advance r

cursor-advance-lt :
    (r : Limiter) → r.cursor < length r.ring → (advance r).cursor < length (advance r).ring
unfolding advance
cursor-advance-lt r h = ground arith

pub cursor-fast_forward :
    (k : ℕ) (r : Limiter)
    → r.cursor < length r.ring
    → (fast_forward k r).cursor < length (fast_forward k r).ring
unfolding fast_forward
cursor-fast_forward zero r h = h
cursor-fast_forward (suc k) r h = cursor-fast_forward k (advance r) (cursor-advance-lt r h)

pub nth_oldest-fast_forward :
    (k : ℕ) (r : Limiter) (j : ℕ)
    → r.cursor < length r.ring
    → k + j < length r.ring
    → nth_oldest (fast_forward k r) j ≡ nth_oldest r (k + j)
unfolding fast_forward
nth_oldest-fast_forward zero r j h b = rw zero-add
nth_oldest-fast_forward (suc k) r j h b =
    nth_oldest-fast_forward k (advance r) j (cursor-advance-lt r h)
      (rw (ring-advance r) (omega arith))
    ∙ nth_oldest-advance r (k + j) h (omega arith)
    ∙ ap (nth_oldest r) (omega arith)

-- The cursor after `i` rounds that began at `start`.
wrap-lt : (n s i : ℕ) → s < n → i < n → wrap n (s + i) < n
unfolding wrap
wrap-lt n s i h k = ground arith

wrap-suc :
    (n s i : ℕ)
    → s < n
    → i < n
    → suc i ≢ n
    → (if leb n (wrap n (s + i) + 1) then 0 else wrap n (s + i) + 1) ≡ wrap n (s + suc i)
unfolding wrap
wrap-suc n s i h k l = ground arith

-- "we've come full circle" after exactly as many rounds as the old ring has places
full_circle_iff :
    (n s i : ℕ)
    → s < n
    → i < n
    → (if leb n (wrap n (s + i) + 1) then 0 else wrap n (s + i) + 1) ≡ s
    → suc i ≡ n
unfolding wrap
full_circle_iff n s i h k e = ground arith

full_circle :
    (n s i : ℕ)
    → s < n
    → suc i ≡ n
    → (if leb n (wrap n (s + i) + 1) then 0 else wrap n (s + i) + 1) ≡ s
unfolding wrap
full_circle n s i h e = ground arith

-- One round of the copying loop.
copy_ring-circled :
    (n i : ℕ) (new : List ℕ) (start : ℕ) (r : Limiter)
    → ((advance r).cursor == start) ≡ true
    → copy_ring (suc n) i new start r ≡ (set new i (get_or r.ring r.cursor 0), advance r)
unfolding copy_ring
copy_ring-circled n i new start r h = rw (h, copy_ring)

copy_ring-further :
    (n i : ℕ) (new : List ℕ) (start : ℕ) (r : Limiter)
    → ((advance r).cursor == start) ≡ false
    → copy_ring (suc n) i new start r
      ≡ copy_ring n (i + 1) (set new i (get_or r.ring r.cursor 0)) start (advance r)
unfolding copy_ring
copy_ring-further n i new start r h = rw (h, copy_ring)

module _ (ring : List ℕ) (start : ℕ) (inside : start < length ring) where
  -- The place that round `i` copies.
  abbrev source : ℕ → ℕ
  source i = get_or ring (wrap (length ring) (start + i)) 0

  pub get_or-copy_ring :
      (n i : ℕ) (new : List ℕ) (r : Limiter) (j : ℕ)
      → r.ring ≡ ring
      → r.cursor ≡ wrap (length ring) (start + i)
      → i < length ring
      → i + n ≤ length new
      → get_or (copy_ring n i new start r).0 j 0
        ≡ (if leb i j && ltb j (i + n) && ltb j (length ring) then source j else get_or new j 0)
  unfolding copy_ring
  get_or-copy_ring zero i new r j er ec h b = ground arith
  get_or-copy_ring (suc n) i new r j er ec h b = elim (Bool-cases ((advance r).cursor == start)) [
    | inl circled ↦
        let last : suc i ≡ length ring =
          full_circle_iff (length ring) start i inside h (sym moved ∙ (==_iff _ _).0 circled) in
        rw (copy_ring-circled n i new start r circled)
          (rw (get_or-set new i j v 0 (omega arith), v-source) (ground (arith, last)))
    | inr further ↦
        let more : suc i ≢ length ring =
          λ e. cc (further, (==_iff _ _).1 (moved ∙ full_circle (length ring) start i inside e)) in
        rw (copy_ring-further n i new start r further) (
          get_or-copy_ring n (i + 1) (set new i v) (advance r) j (ring-advance r ∙ er)
            (moved
              ∙ wrap-suc (length ring) start i inside h more
              ∙ ap (λ k. wrap (length ring) (start + k)) (omega arith))
            (omega arith) (rw (length-set new i v) (omega arith))
          ∙ rw (get_or-set new i j v 0 (omega arith), v-source) (ground arith))
  ]
    where
      v : ℕ
      v = get_or r.ring r.cursor 0

      v-source : v ≡ source i
      v-source = rw (er, ec)

      moved : (advance r).cursor ≡ (
          if leb (length ring) (wrap (length ring) (start + i) + 1)
          then 0
          else wrap (length ring) (start + i) + 1)
      moved = cursor-advance r ∙ rw (er, ec)

pub length-copy_ring :
    (n i : ℕ) (new : List ℕ) (start : ℕ) (r : Limiter)
    → length (copy_ring n i new start r).0 ≡ length new
unfolding copy_ring
length-copy_ring zero i new start r = refl
length-copy_ring (suc n) i new start r = ground (
  arith,
  length-set new i (get_or r.ring r.cursor 0),
  length-copy_ring n (i + 1) (set new i (get_or r.ring r.cursor 0)) start (advance r),
)

pub window-copy_ring :
    (n i : ℕ) (new : List ℕ) (start : ℕ) (r : Limiter)
    → (copy_ring n i new start r).1.window ≡ r.window
unfolding copy_ring
window-copy_ring zero i new start r = refl
window-copy_ring (suc n) i new start r = ground (
  arith,
  window-advance r,
  window-copy_ring n (i + 1) (set new i (get_or r.ring r.cursor 0)) start (advance r),
)

pub length-resize : (r : Limiter) (m : ℕ) → length (resize r m).ring ≡ m
unfolding resize
length-resize r m = ground (
  arith,
  length-replicate {A = ℕ} m 0,
  length-copy_ring m 0 (replicate m 0) (fast_forward (length r.ring - m) r).cursor
      (fast_forward (length r.ring - m) r),
)

pub window-resize : (r : Limiter) (m : ℕ) → (resize r m).window ≡ r.window
unfolding resize
window-resize r m = ground (
  arith,
  window-fast_forward (length r.ring - m) r,
  window-copy_ring m 0 (replicate m 0) (fast_forward (length r.ring - m) r).cursor
      (fast_forward (length r.ring - m) r),
)

pub cursor-resize : (r : Limiter) (m : ℕ) → (resize r m).cursor ≡ 0
unfolding resize
cursor-resize r m = ground arith

wrap_below : (n p : ℕ) → p < n → wrap n p ≡ p
unfolding wrap
wrap_below n p h = ground arith

ring-resize :
    (r : Limiter) (m : ℕ)
    → 0 < length r.ring
    → (resize r m).ring
      ≡ (copy_ring m 0
          (replicate m 0)
          (fast_forward (length r.ring - m) r).cursor
          (fast_forward (length r.ring - m) r)).0
unfolding resize
ring-resize r m h = ground (arith, ring-fast_forward (length r.ring - m) r)

module _ (r : Limiter) (m j : ℕ) (h : r.cursor < length r.ring) (b : j < m) where
  ahead : Limiter
  ahead = fast_forward (length r.ring - m) r

  length-ahead : length ahead.ring ≡ length r.ring
  unfolding ahead
  length-ahead = ap length (ring-fast_forward (length r.ring - m) r)

  cursor-ahead : ahead.cursor < length ahead.ring
  unfolding ahead
  cursor-ahead = cursor-fast_forward (length r.ring - m) r h

  nth_oldest-ahead : j < length r.ring → nth_oldest ahead j ≡ nth_oldest r (length r.ring - m + j)
  unfolding ahead
  nth_oldest-ahead k = nth_oldest-fast_forward (length r.ring - m) r j h (omega arith)

  place-resize : nth_oldest (resize r m) j ≡ get_or (resize r m).ring j 0
  unfolding nth_oldest
  place-resize =
      rw (length-resize r m, cursor-resize r m)
        (ap (λ p. get_or (resize r m).ring p 0) (wrap_below m (0 + j) (omega arith) ∙ omega arith))

  copied : get_or (resize r m).ring j 0 ≡ (if ltb j (length r.ring) then nth_oldest ahead j else 0)
  unfolding ahead nth_oldest
  copied = rw (ring-resize r m (omega arith)) (
      get_or-copy_ring ahead.ring ahead.cursor cursor-ahead m 0 (replicate m 0) ahead j refl
        (sym (
          wrap_below (length ahead.ring) (ahead.cursor + 0) (omega (arith, cursor-ahead))
          ∙ omega arith))
        (omega (arith, cursor-ahead)) (omega (arith, length-replicate {A = ℕ} m 0))
      ∙ ground (arith, length-ahead, get_or-replicate {A = ℕ} m j 0))

  -- The newest of the old times are kept in their order, from the oldest on; the rest is Go's zero
  -- time.
  pub nth_oldest-resize :
      nth_oldest (resize r m) j
      ≡ (if ltb j (length r.ring) then nth_oldest r (length r.ring - m + j) else 0)
  nth_oldest-resize = place-resize ∙ copied ∙ ground (arith, nth_oldest-ahead)

-- From an empty ring every place holds Go's zero time.
pub nth_oldest-resize_empty :
    (r : Limiter) (m j : ℕ) → length r.ring ≡ 0 → nth_oldest (resize r m) j ≡ 0
unfolding nth_oldest
nth_oldest-resize_empty r m j z =
    rw (zeros r m z)
      (get_or-replicate m (wrap (length (replicate m 0)) ((resize r m).cursor + j)) 0)
  where
    zeros : (r : Limiter) (m : ℕ) → length r.ring ≡ 0 → (resize r m).ring ≡ replicate m 0
    zeros r m z = unfold resize in ground (arith, ring-fast_forward (length r.ring - m) r)

-- None of this stops the limiter.
stopped-advance : (r : Limiter) → (advance r).stopped ≡ r.stopped
unfolding advance
stopped-advance r = ground arith

stopped-fast_forward : (k : ℕ) (r : Limiter) → (fast_forward k r).stopped ≡ r.stopped
unfolding fast_forward
stopped-fast_forward zero r = refl
stopped-fast_forward (suc k) r = stopped-fast_forward k (advance r) ∙ stopped-advance r

stopped-copy_ring :
    (n i : ℕ) (new : List ℕ) (start : ℕ) (r : Limiter)
    → (copy_ring n i new start r).1.stopped ≡ r.stopped
unfolding copy_ring
stopped-copy_ring zero i new start r = refl
stopped-copy_ring (suc n) i new start r = ground (
  arith,
  stopped-advance r,
  stopped-copy_ring n (i + 1) (set new i (get_or r.ring r.cursor 0)) start (advance r),
)

pub stopped-resize : (r : Limiter) (m : ℕ) → (resize r m).stopped ≡ r.stopped
unfolding resize
stopped-resize r m = ground (
  arith,
  stopped-fast_forward (length r.ring - m) r,
  stopped-copy_ring m 0 (replicate m 0) (fast_forward (length r.ring - m) r).cursor
      (fast_forward (length r.ring - m) r),
)
