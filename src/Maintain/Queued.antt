-- ===== src/Maintain/Queued.antt =====
-- maintain.go: which certificates RenewManagedCertificates renews.
pub mod Due
pub mod Scan
mod NoJobs
use otomatik.Base.{
  ℕ, ◌≡◌, ◌⊎◌, refl, sym, ap, ◌∙◌, subst, Bool, true, false, List, [], ◌∷◌, ◌++◌, if◌then◌else◌,
  inl, inr, All, All-append,
}
use otomatik.Base.Text.{Text}
use otomatik.Base.Errors.{Error}
use otomatik.Base.Map.{Map, get, put}
use otomatik.Base.Outcome.{Outcome, done, panic}
use otomatik.Base.Result.{
  Result, ok, err, stopped, Action, next, give, renamed, ◌>>=◌, ok-injective, err-ne-ok,
  stopped-ne-ok, >>=-eq-ok,
}
use otomatik.Cache.{Cache, remove_certificate, replace_certificate}
use otomatik.Certificate.{Certificate}
use otomatik.Certificate.Making.{needs_renewal}
use otomatik.Config.{out}
use otomatik.Manage.{
  Instance, Job, renewal_task, first_name, load_managed_certificate, reload_managed_certificate,
  replaced, inside, cert_is_due, managed_cert_in_storage_expires_soon,
}
use otomatik.Manage.Loaded.{inside-eq-ok}
use otomatik.Maintain.Renew.{
  Configs, Queues, no_queues, logged, config_of, removed_from, reload_one, queue_renewal_task,
  get_config, queue_due, scan_due, scan_configured, scan_named, scan_cert, scan, reload_all,
  queue_all, delete_all, renew_managed_certificates,
}
use otomatik.Maintain.Queued.Scan.{AllDue, AllSeen, IsSeen, scan-Scanned, IsSeen-at}
use otomatik.Maintain.Queued.NoJobs.{Silent, reload_all-Silent, delete_all-Silent}

abbrev pub task_of : Certificate → List Text → List Job → List Job
task_of cert [] jobs = jobs
task_of cert (name ∷ names) jobs = renewal_task name cert ∷ jobs

-- The jobs after one more was submitted for each certificate, the last one first
abbrev pub tasks : List Certificate → List Job → List Job
tasks [] jobs = jobs
tasks (cert ∷ certs) jobs = tasks certs (task_of cert cert.names jobs)

module _ {S C : Type 0} (x : Configs S C) where
  queue_all-tasks :
      (certs : List Certificate) (i : Instance S) {i' : Instance S}
      → queue_all x certs i ≡ (ok tt, i')
      → i'.submitted ≡ tasks certs i.submitted
  unfolding queue_all next queue_renewal_task
  queue_all-tasks [] i h = ap (λ (r : Result (Unit {0}) × Instance S). r.1.submitted) (sym h)
  queue_all-tasks (cert ∷ certs) i h =
      let (u, i1, first, rest) =
        >>=-eq-ok (queue_renewal_task x cert) (λ _. queue_all x certs) i h in
      queue_all-tasks certs i1 rest ∙ ap (tasks certs) (one cert.names first)
    where
      one :
          {u : Unit {0}} {i1 : Instance S} (names : List Text)
          → (give (first_name names) >>= λ renew_name. λ (i : Instance S).
                (ok tt, record i { submitted = renewal_task renew_name cert ∷ i.submitted }))
              i
            ≡ (ok u, i1)
          → i1.submitted ≡ task_of cert names i.submitted
      one [] e = absurd (stopped-ne-ok (ap (λ r. r.0) e))
      one (name ∷ names) e = ap (λ (r : Result (Unit {0}) × Instance S). r.1.submitted) (sym e)

module _ {S C : Type 0} (x : Configs S C) (time : ℕ)
    (clock : (c : C) (s : S) → ((x.config c).now s).0 ≡ time) where
  -- With the clock at one time: when RenewManagedCertificates ends without a panic, it has submitted
  -- renewal tasks for a list of certificates, in order, each of them managed, with a name, with a
  -- configuration of this cache, and in its renewal window; and every such certificate that it
  -- visited is in the list, unless in the state in which those visited before it left the world, and
  -- after one reading of the clock, the storage had a resource under the first of its names the leaf
  -- of which is not in its renewal window.
  pub renew_managed_certificates-queues :
      (visited : List Certificate) (i : Instance S) {i' : Instance S}
      → renew_managed_certificates x visited i ≡ (ok tt, i')
      → (queue : List Certificate) × (i'.submitted ≡ tasks queue i.submitted)
        × AllDue x time clock queue
        × ((before : List Certificate) (cert : Certificate) (after : List Certificate)
            → visited ≡ before ++ cert ∷ after
            → (q : Queues C) × (s : S) × (scan x before no_queues i.world.outside ≡ (ok q, s))
              × IsSeen x time clock queue cert s)
  unfolding renew_managed_certificates Silent
  renew_managed_certificates-queues visited i h =
      let (q, i1, scanned, h1) = >>=-eq-ok (inside (out (scan x visited no_queues))) _ i h in
      let (_, i3, added_all, h3) =
        >>=-eq-ok (reload_all x q.configs q.reload_queue >>= λ _. queue_all x q.renew_queue)
          (λ _. delete_all x q.delete_queue) i1 h1 in
      let (_, i2, reloaded, added) =
        >>=-eq-ok (reload_all x q.configs q.reload_queue) (λ _. queue_all x q.renew_queue) i1
          added_all in
      let done_scan =
        scan-Scanned x time clock visited no_queues i.world.outside
          (inside-eq-ok (scan x visited no_queues) i i1 scanned) in
      (
        q.renew_queue,
        (sym (ap (λ (r : Result (Unit {0}) × Instance S). r.1.submitted) h3)
              ∙ delete_all-Silent x q.delete_queue i3)
            ∙ queue_all-tasks x q.renew_queue i2 added
            ∙ ap (tasks q.renew_queue) (
                (sym (ap (λ (r : Result (Unit {0}) × Instance S). r.1.submitted) reloaded)
                  ∙ reload_all-Silent x q.configs q.reload_queue i1)
                ∙ sym (ap (λ (r : Result (Queues C) × Instance S). r.1.submitted) scanned)),
        done_scan.keeps_due tt,
        λ before cert after split.
            IsSeen-at x time clock q.renew_queue before cert after no_queues i.world.outside (
              subst (λ l. AllSeen x time clock q.renew_queue l no_queues i.world.outside) split
                done_scan.seen),
      )
