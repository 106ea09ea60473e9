-- ===== src/Config/Failing.antt =====
-- config.go with async.go: obtaining a certificate in the background while every attempt fails.
use otomatik.Base.{ℕ, ◌≡◌, ◌≤◌, refl, ap, ◌∙◌, subst, false, Option, none, some, ◌∷◌}
use otomatik.Base.Text.{Text, codes}
use otomatik.Base.Errors.{Error}
use otomatik.Base.Result.{Result, ok, err, stopped, Action}
use otomatik.Base.Occurs.{occurs, without}
use otomatik.Retry.Termination.{Timed}
use otomatik.Retry.Outcomes.{NeverSucceeds, retry_hides_failure}
use otomatik.Retry.Preserved.{AtEnd, do_with_retry-AtEnd}
use otomatik.Config.{Config, World, out, back, locked, obtain_lock, lock_key}
use otomatik.Config.Issuance.{
  Attempted, attempted, outcome, ended, effects, run, announced, when_locked, with_issuer,
  obtain_attempt, obtain_with_issuer,
}
use otomatik.Config.Locks.{events_after, with_issuer-Balanced}

-- An attempt that fails did not stop.
abbrev Returned : {S : Type 0} → Attempted S → Type 0
Returned a = a.halted ≡ none

failed-Returned :
    {S : Type 0} (r : Result (Unit {0}) × S) (e : Error)
    → (attempted r).0 ≡ some e
    → Returned (attempted r).1
failed-Returned (ok u, s) e h = refl
failed-Returned (err x, s) e h = refl
failed-Returned (stopped k, s) e h = absurd (cc)

module _ {S : Type 0} (cfg : Config S) (f : Option ℕ → Action S (Unit {0}))
    (law : Timed (effects cfg f)) (bad : NeverSucceeds (effects cfg f) law) where
  run-ok : (fuel : ℕ) (s : S) → 43202 ≤ fuel → (run cfg fuel false f s).0 ≡ ok tt
  unfolding run
  run-ok fuel s h =
      let start : Attempted S = record { state = s; halted = none } in
      let (t, found) = retry_hides_failure (effects cfg f) law bad fuel start h in
      let returned : Returned t = subst (AtEnd Returned) found (
        do_with_retry-AtEnd (effects cfg f) Returned
          (λ n a p. failed-Returned (f (some n) a.state) (bad.fails n a).0 (bad.fails n a).1)
          (λ d a p. p) (λ a p. p) fuel start refl) in
      ap (λ r. (ended s r).0) found ∙ ap (λ k. outcome k none) returned

announced-result :
    {S : Type 0} (cfg : Config S) (event_name name : Text) (r : Result (Unit {0}) × S) (w : World S)
    → (announced cfg event_name name (back w r)).0 ≡ r.0
announced-result cfg event_name name (ok u, s) w = refl
announced-result cfg event_name name (err e, s) w = refl
announced-result cfg event_name name (stopped k, s) w = refl

locked-result :
    {S : Type 0} (cfg : Config S) (event_name name key : Text) (f : Action S (Unit {0}))
    (w : World S) (r : Option Error × S)
    → r.0 ≡ none
    → ((s : S) → (f s).0 ≡ ok tt)
    → (when_locked cfg key (λ w'. announced cfg event_name name (out f w')) (locked key r w)).0
      ≡ ok tt
unfolding when_locked
locked-result cfg event_name name key f w (none, s) granted good =
    announced-result cfg event_name name (f s)
      (record w { outside = s; own_locks = key ∷ without key w.own_locks })
    ∙ good s
locked-result cfg event_name name key f w (some e, s) granted good = absurd (cc)

-- Over a storage that grants the lock and whose Unlock returns no error, when every attempt to obtain
-- the certificate fails with an error that may be retried, the context is not cancelled and only
-- waits and attempts take time: with fuel for 43,202 rounds obtainWithIssuer, not interactive,
-- returns no error, and emits `cert_obtained` for the name as if it had the certificate.
pub obtain_hides_failure :
    {S : Type 0} (cfg : Config S) (name : Text) (w : World S) (fuel : ℕ)
    (law : Timed (effects cfg (obtain_attempt cfg name)))
    → NeverSucceeds (effects cfg (obtain_attempt cfg name)) law
    → ((key : Text) (s : S) → (cfg.storage.unlock key s).0 ≡ none)
    → (cfg.storage.lock (lock_key cfg (codes "cert_acme") name) w.outside).0 ≡ none
    → occurs (lock_key cfg (codes "cert_acme") name) w.own_locks ≡ 0
    → 43202 ≤ fuel
    → ((obtain_with_issuer cfg fuel name false w).0 ≡ ok tt)
      × ((obtain_with_issuer cfg fuel name false w).1.events
          ≡ events_after cfg (codes "cert_obtained") name (ok tt) w.events)
unfolding obtain_with_issuer with_issuer obtain_lock
obtain_hides_failure cfg name w fuel law bad unlocks granted absent h =
    let key = lock_key cfg (codes "cert_acme") name in
    let good =
      locked-result cfg (codes "cert_obtained") name key
        (run cfg fuel false (obtain_attempt cfg name)) w (cfg.storage.lock key w.outside) granted
        (λ s. run-ok cfg (obtain_attempt cfg name) law bad fuel s h) in
    (
      good,
      (with_issuer-Balanced cfg unlocks fuel name false w absent).0.1
          ∙ ap (λ r. events_after cfg (codes "cert_obtained") name r w.events) good,
    )
