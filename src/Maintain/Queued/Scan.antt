-- ===== src/Maintain/Queued/Scan.antt =====
-- maintain.go: the renewal queue of the first loop of RenewManagedCertificates.
use otomatik.Base.{
  ℕ, ◌≡◌, ◌⊎◌, refl, sym, ap, ◌∙◌, subst, Bool, true, false, List, [], ◌∷◌, ◌++◌, if◌then◌else◌,
  inl, inr, All, All-append,
}
use otomatik.Base.Text.{Text}
use otomatik.Base.Map.{put}
use otomatik.Base.Result.{
  Result, ok, err, stopped, ok-injective, err-ne-ok, stopped-ne-ok, >>=-eq-ok, >>=-ok,
}
use otomatik.Certificate.{Certificate}
use otomatik.Certificate.Making.{needs_renewal}
use otomatik.Manage.{cert_is_due, managed_cert_in_storage_expires_soon}
use otomatik.Maintain.Renew.{
  Configs, Queues, get_config, queue_due, scan_due, scan_configured, scan_named, scan_cert, scan,
}
use otomatik.Maintain.Queued.Due.{IsDue, IsRenewed, expires_later}

abbrev In : Certificate → List Certificate → Type 0
In c [] = ⊥
In c (d ∷ l) = (d ≡ c) ⊎ In c l

In-left : (c : Certificate) (k l : List Certificate) → In c k → In c (k ++ l)
In-left c [] l h = absurd h
In-left c (d ∷ k) l (inl e) = inl e
In-left c (d ∷ k) l (inr h) = inr (In-left c k l h)

In-last : (c : Certificate) (k : List Certificate) → In c (k ++ c ∷ [])
In-last c [] = inl refl
In-last c (d ∷ k) = inr (In-last c k)

module _ {S C : Type 0} (x : Configs S C) (time : ℕ)
    (clock : (c : C) (s : S) → ((x.config c).now s).0 ≡ time) where
  -- What a round does to the renewal queue
  data Moved (cert : Certificate) (s : S) (l l' : List Certificate) : Type 0 where
    left_out :
        l' ≡ l
        → ((c : C) → IsDue x time clock cert c → IsRenewed x time clock cert c s)
        → Moved cert s l l'
    queued : l' ≡ l ++ cert ∷ [] → (c : C) → IsDue x time clock cert c → Moved cert s l l'

  by_result :
      {q q' : Queues C} (r : Result (Queues C))
      → r ≡ ok q'
      → r ≡ ok q
      → q'.renew_queue ≡ q.renew_queue
  by_result r h e = ap (λ (p : Queues C). p.renew_queue) (ok-injective (sym h ∙ e))

  same_config :
      (cert : Certificate) (c d : C) → IsDue x time clock cert c → IsDue x time clock cert d → c ≡ d
  same_config cert c d due other = ok-injective (sym due.configured ∙ other.configured)

  queue_due-Moved :
      (c : C) (cert : Certificate) (q : Queues C) (s : S) (r : Result Bool × S) (q' : Queues C)
      → IsDue x time clock cert c
      → managed_cert_in_storage_expires_soon (x.config c) (x.stapler c) cert ((x.config c).now s).1
        ≡ r
      → (queue_due x cert q r).0 ≡ ok q'
      → Moved cert s q.renew_queue q'.renew_queue
  unfolding queue_due
  queue_due-Moved c cert q s (ok true, t) q' due e h = queued (by_result _ h refl) c due
  queue_due-Moved c cert q s (ok false, t) q' due e h = left_out (by_result _ h refl) (λ d other.
      subst (λ d. IsRenewed x time clock cert d s) (same_config cert c d due other)
        (expires_later x time clock c cert s (ok false, t) e refl))
  queue_due-Moved c cert q s (err y, t) q' due e h = queued (by_result _ h refl) c due
  queue_due-Moved c cert q s (stopped y, t) q' due e h = absurd (stopped-ne-ok h)

  scan_due-Moved :
      (c : C) (cert : Certificate) (name : Text) (names : List Text) (q : Queues C) (s : S)
      (r : Result Bool × S) (q' : Queues C)
      → cert.managed ≡ true
      → cert.names ≡ name ∷ names
      → get_config x cert ≡ ok c
      → r.1 ≡ ((x.config c).now s).1
      → r.0 ≡ needs_renewal (x.config c).window cert.leaf time
      → (scan_due x c cert name q r).0 ≡ ok q'
      → Moved cert s q.renew_queue q'.renew_queue
  unfolding scan_due
  scan_due-Moved c cert name names q s (ok true, t) q' m n g u e h =
      queue_due-Moved c cert (record q { configs = put q.configs name c }) s
        (managed_cert_in_storage_expires_soon (x.config c) (x.stapler c) cert t) q'
        (record {
          managed = m;
          name = name;
          names = names;
          named = n;
          configured = g;
          in_window = sym e;
        })
        (ap (managed_cert_in_storage_expires_soon (x.config c) (x.stapler c) cert) (sym u)) h
  scan_due-Moved c cert name names q s (ok false, t) q' m n g u e h =
      left_out (by_result _ h refl) (λ d other. absurd (
        not_due (
          e
          ∙ subst (λ d. needs_renewal (x.config d).window cert.leaf time ≡ ok true)
              (ok-injective (sym other.configured ∙ g)) other.in_window)))
    where
      not_due : ok false ≡ ok true → ⊥
      not_due p = cc
  scan_due-Moved c cert name names q s (err y, t) q' m n g u e h =
      left_out (by_result _ h refl) (λ d other. absurd (
        err-ne-ok (
          e
          ∙ subst (λ d. needs_renewal (x.config d).window cert.leaf time ≡ ok true)
              (ok-injective (sym other.configured ∙ g)) other.in_window)))
  scan_due-Moved c cert name names q s (stopped y, t) q' m n g u e h = absurd (stopped-ne-ok h)

  is_due_lem :
      (c : C) (cert : Certificate) (s : S)
      → (cert_is_due (x.config c) (x.stapler c) cert s).0
        ≡ needs_renewal (x.config c).window cert.leaf time
  unfolding cert_is_due
  is_due_lem c cert s = ap (λ t. needs_renewal (x.config c).window cert.leaf t) (clock c s)

  scan_configured-Moved :
      (cert : Certificate) (name : Text) (names : List Text) (q : Queues C) (r : Result C) (s : S)
      (q' : Queues C)
      → cert.managed ≡ true
      → cert.names ≡ name ∷ names
      → get_config x cert ≡ r
      → (scan_configured x cert name q r s).0 ≡ ok q'
      → Moved cert s q.renew_queue q'.renew_queue
  unfolding scan_configured
  scan_configured-Moved cert name names q (ok c) s q' m n g h =
      scan_due-Moved c cert name names q s (cert_is_due (x.config c) (x.stapler c) cert s) q' m n g
        (unfold cert_is_due in refl) (is_due_lem c cert s) h
  scan_configured-Moved cert name names q (err e) s q' m n g h =
      left_out (by_result _ h refl) (λ d other. absurd (err-ne-ok (sym g ∙ other.configured)))
  scan_configured-Moved cert name names q (stopped y) s q' m n g h = absurd (stopped-ne-ok h)

  scan_named-Moved :
      (cert : Certificate) (names : List Text) (q : Queues C) (s : S) (q' : Queues C)
      → cert.managed ≡ true
      → cert.names ≡ names
      → (scan_named x cert names q s).0 ≡ ok q'
      → Moved cert s q.renew_queue q'.renew_queue
  unfolding scan_named
  scan_named-Moved cert [] q s q' m n h =
      left_out (by_result _ h refl) (λ d other. absurd (nameless (sym n ∙ other.named)))
    where
      nameless : {name : Text} {names : List Text} → [] ≡ name ∷ names → ⊥
      nameless p = cc
  scan_named-Moved cert (name ∷ names) q s q' m n h =
      scan_configured-Moved cert name names q (get_config x cert) s q' m n refl h

  scan_cert-Moved :
      (cert : Certificate) (q : Queues C) (s : S) (q' : Queues C)
      → (scan_cert x cert q s).0 ≡ ok q'
      → Moved cert s q.renew_queue q'.renew_queue
  unfolding scan_cert
  scan_cert-Moved cert q s q' h = by_managed cert.managed refl h
    where
      by_managed :
          (b : Bool)
          → cert.managed ≡ b
          → (if b then scan_named x cert cert.names q s else (ok q, s)).0 ≡ ok q'
          → Moved cert s q.renew_queue q'.renew_queue
      by_managed true e h = scan_named-Moved cert cert.names q s q' e refl h
      by_managed false e h = left_out (by_result _ h refl) (λ d other. cc (other.managed))

  -- Every certificate of the list is due.
  abbrev pub AllDue : List Certificate → Type 0
  AllDue = All (λ cert. (c : C) × IsDue x time clock cert c)

  -- What holds of a certificate that was visited in a state, by the renewal queue
  abbrev pub IsSeen : List Certificate → Certificate → S → Type 0
  IsSeen l cert s =
      (c : C) → IsDue x time clock cert c → In cert l ⊎ IsRenewed x time clock cert c s

  -- The same of all that are visited from a state on
  abbrev pub AllSeen : List Certificate → List Certificate → Queues C → S → Type 0
  AllSeen l [] q s = Unit {0}
  AllSeen l (cert ∷ visited) q s =
      IsSeen l cert s
      × ((q' : Queues C) × (s' : S) × (scan_cert x cert q s ≡ (ok q', s'))
          × AllSeen l visited q' s')

  pub record Scanned (visited : List Certificate) (q : Queues C) (s : S) (l' : List Certificate)
      : Type 0 where
    pub keeps_due : AllDue q.renew_queue → AllDue l'
    pub keeps_in : (cert : Certificate) → In cert q.renew_queue → In cert l'
    pub seen : AllSeen l' visited q s

  Moved-due :
      {cert : Certificate} {s : S} {l l' : List Certificate}
      → Moved cert s l l'
      → AllDue l
      → AllDue l'
  Moved-due (left_out e f) h = subst AllDue (sym e) h
  Moved-due {cert} {s} {l} (queued e c due) h =
      subst AllDue (sym e)
        (All-append (λ cert. (c : C) × IsDue x time clock cert c) l (cert ∷ []) h ((c, due), tt))

  Moved-In :
      {cert : Certificate} {s : S} {l l' : List Certificate}
      → Moved cert s l l'
      → (d : Certificate) → In d l
      → In d l'
  Moved-In (left_out e f) d h = subst (In d) (sym e) h
  Moved-In {cert} {s} {l} (queued e c due) d h = subst (In d) (sym e) (In-left d l (cert ∷ []) h)

  Moved-IsSeen :
      {cert : Certificate} {s : S} {l l' : List Certificate} → Moved cert s l l' → IsSeen l' cert s
  Moved-IsSeen (left_out e f) c due = inr (f c due)
  Moved-IsSeen {cert} {s} {l} (queued e d known) c due =
      inl (subst (In cert) (sym e) (In-last cert l))

  pub scan-Scanned :
      (visited : List Certificate) (q : Queues C) (s : S) {q' : Queues C} {s' : S}
      → scan x visited q s ≡ (ok q', s')
      → Scanned visited q s q'.renew_queue
  unfolding scan
  scan-Scanned [] q s {q'} h =
      let e : q.renew_queue ≡ q'.renew_queue =
        ap (λ (p : Queues C). p.renew_queue) (ok-injective (ap (λ p. p.0) h)) in
      record {
        keeps_due = λ d. subst AllDue e d;
        keeps_in = λ cert i. subst (In cert) e i;
        seen = tt;
      }
  scan-Scanned (cert ∷ visited) q s {q'} h =
      let (q1, s1, first, rest) = >>=-eq-ok (scan_cert x cert q) (scan x visited) s h in
      let moved = scan_cert-Moved cert q s q1 (ap (λ p. p.0) first) in
      let ih = scan-Scanned visited q1 s1 rest in
      record {
        keeps_due = λ d. ih.keeps_due (Moved-due moved d);
        keeps_in = λ c i. ih.keeps_in c (Moved-In moved c i);
        seen = (
          λ c due. elim (Moved-IsSeen moved c due) [
            | inl i ↦ inl (ih.keeps_in cert i)
            | inr r ↦ inr r
          ],
          (q1, s1, first, ih.seen),
        );
      }

  -- What was seen of one that is visited, in the state that those before it leave
  pub IsSeen-at :
      (l before : List Certificate) (cert : Certificate) (after : List Certificate) (q : Queues C)
      (s : S)
      → AllSeen l (before ++ cert ∷ after) q s
      → (q' : Queues C) × (s' : S) × (scan x before q s ≡ (ok q', s')) × IsSeen l cert s'
  unfolding scan
  IsSeen-at l [] cert after q s (here, _) = (q, s, refl, here)
  IsSeen-at l (d ∷ before) cert after q s (_, (q1, s1, first, rest)) =
      let (q', s', scanned, here) = IsSeen-at l before cert after q1 s1 rest in
      (q', s', >>=-ok (scan_cert x d q) (scan x before) s first ∙ scanned, here)
