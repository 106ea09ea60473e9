-- ===== src/Config/Locks.antt =====
-- config.go, storage.go: the lock that obtaining and renewing a certificate hold, and the event that
-- they emit.
use otomatik.Base.{
  ℕ, ◌≡◌, refl, sym, ap, ◌∙◌, Bool, List, [], ◌∷◌, Option, none, some, if◌then◌else◌, Bool-cases,
  inl, inr,
}
use otomatik.Base.Text.{Text, codes, text_eq_refl}
use otomatik.Base.Errors.{Error}
use otomatik.Base.Occurs.{occurs, without, without_absent}
use otomatik.Base.Result.{Result, ok, err, stopped, Action}
use otomatik.Config.{
  Config, World, Event, out, back, obtain_lock, release_lock, locked, unlocked, emit, lock_key,
}
use otomatik.Config.Issuance.{
  run, released, announced, when_locked, with_issuer, obtain_attempt, renew_attempt,
  obtain_with_issuer, renew_with_issuer,
}

-- The events after a call that emits one if it succeeds.
abbrev pub events_after :
    {S : Type 0} → Config S → Text → Text → Result (Unit {0}) → List Event → List Event
events_after cfg event_name name (ok u) before =
    if cfg.listens then record { name = event_name; subjects = name ∷ [] } ∷ before else before
events_after cfg event_name name (err e) before = before
events_after cfg event_name name (stopped h) before = before

-- What a call leaves of the list of own locks and of the events.
abbrev pub Balanced :
    {S : Type 0} → Config S → Text → Text → World S → Result (Unit {0}) × World S → Type 0
Balanced cfg event_name name w r =
    (r.1.own_locks ≡ w.own_locks) × (r.1.events ≡ events_after cfg event_name name r.0 w.events)

module _ {S : Type 0} (cfg : Config S) where
  emit-own_locks :
      (event_name : Text) (subjects : List Text) (w : World S)
      → (emit cfg event_name subjects w).own_locks ≡ w.own_locks
  unfolding emit
  emit-own_locks event_name subjects w = elim (Bool-cases cfg.listens) [
    | inl e ↦ rw e refl
    | inr e ↦ rw e refl
  ]

  pub emit-events :
      (event_name : Text) (subjects : List Text) (w : World S)
      → (emit cfg event_name subjects w).events ≡ (
          if cfg.listens
          then record { name = event_name; subjects = subjects } ∷ w.events
          else w.events)
  unfolding emit
  emit-events event_name subjects w = elim (Bool-cases cfg.listens) [
    | inl e ↦ rw e refl
    | inr e ↦ rw e refl
  ]

module _ {S : Type 0} (cfg : Config S)
    (unlocks : (key : Text) (s : S) → (cfg.storage.unlock key s).0 ≡ none) where
  release_lock-ok :
      (key : Text) (w : World S)
      → release_lock cfg.storage key w ≡ (
        none,
        record w {
          outside = (cfg.storage.unlock key w.outside).1;
          own_locks = without key w.own_locks;
        },
      )
  unfolding release_lock
  release_lock-ok key w =
      ap (λ e. unlocked key (e, (cfg.storage.unlock key w.outside).1) w) (unlocks key w.outside)

  announced-same :
      (event_name name : Text) (r : Result (Unit {0})) (s : S) (w : World S)
      → ((announced cfg event_name name (back w (r, s))).0 ≡ r)
        × ((announced cfg event_name name (back w (r, s))).1.own_locks ≡ w.own_locks)
        × ((announced cfg event_name name (back w (r, s))).1.events
            ≡ events_after cfg event_name name r w.events)
  announced-same event_name name (ok u) s w = (
    refl,
    emit-own_locks cfg event_name (name ∷ []) (record w { outside = s }),
    emit-events cfg event_name (name ∷ []) (record w { outside = s }),
  )
  announced-same event_name name (err e) s w = (refl, refl, refl)
  announced-same event_name name (stopped h) s w = (refl, refl, refl)

  relocked : (key : Text) (l : List Text) → occurs key l ≡ 0 → without key (key ∷ without key l) ≡ l
  relocked key l absent =
      ap (without key) (ap (◌∷◌ key) (without_absent key l absent))
      ∙ rw (text_eq_refl key) (without_absent key l absent)

  released-Balanced :
      (event_name name key : Text) (r : Result (Unit {0})) (s t : S) (w : World S)
      → occurs key w.own_locks ≡ 0
      → Balanced cfg event_name name w (
          released cfg key (
            announced cfg event_name name
              (back (record w { outside = t; own_locks = key ∷ without key w.own_locks }) (r, s))))
  released-Balanced event_name name key r s t w absent =
      let w' : World S = record w { outside = t; own_locks = key ∷ without key w.own_locks } in
      let after = announced cfg event_name name (back w' (r, s)) in
      let (same, locks, events) = announced-same event_name name r s w' in
      let freed = release_lock-ok key after.1 in
      (
        ap (λ x. x.1.own_locks) freed ∙ ap (without key) locks ∙ relocked key w.own_locks absent,
        ap (λ x. x.1.events) freed
            ∙ events
            ∙ ap (λ x. events_after cfg event_name name x w.events) (sym same),
      )

  by_lock :
      (event_name name key : Text) (f : Action S (Unit {0})) (w : World S) (r : Option Error × S)
      → occurs key w.own_locks ≡ 0
      → Balanced cfg event_name name w
          (when_locked cfg key (λ w'. announced cfg event_name name (out f w')) (locked key r w))
  unfolding when_locked
  by_lock event_name name key f w (none, s) absent =
      released-Balanced event_name name key (f s).0 (f s).1 s w absent
  by_lock event_name name key f w (some e, s) absent = (refl, refl)

  -- Over a storage whose Unlock returns no error, when the lock of the name is not among the own
  -- locks: whatever obtainWithIssuer and renewWithIssuer return, with any fuel and interactive or
  -- not, the own locks are the same as before, and OnEvent, if it is set, was called once for the
  -- name if the call returned no error and not at all if not.
  pub with_issuer-Balanced :
      (fuel : ℕ) (name : Text) (interactive : Bool) (w : World S)
      → occurs (lock_key cfg (codes "cert_acme") name) w.own_locks ≡ 0
      → Balanced cfg (codes "cert_obtained") name w (obtain_with_issuer cfg fuel name interactive w)
        × Balanced cfg (codes "cert_renewed") name w (renew_with_issuer cfg fuel name interactive w)
  unfolding obtain_with_issuer renew_with_issuer with_issuer obtain_lock
  with_issuer-Balanced fuel name interactive w absent =
      let key = lock_key cfg (codes "cert_acme") name in
      let r = cfg.storage.lock key w.outside in
      (
        by_lock (codes "cert_obtained") name key
            (run cfg fuel interactive (obtain_attempt cfg name)) w r absent,
        by_lock (codes "cert_renewed") name key (run cfg fuel interactive (renew_attempt cfg name))
            w r absent,
      )
