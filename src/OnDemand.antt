-- ===== src/OnDemand.antt =====
-- handshake.go: the goroutines of handshakes that obtain or renew a certificate on demand. They share
-- the map obtainCertWaitChans; channels are numbers in the order in which they are made. What happens
-- between two uses of the map is one step. A goroutine that comes back after its turn counts as a new
-- one.
pub mod Waiting
pub mod Decision
pub mod Denied
pub mod Served
use otomatik.Base.{
  ℕ, ◌+◌, ◌≡◌, Bool, true, false, not, ◌&&◌, ◌||◌, List, [], ◌∷◌, ◌++◌, Option, none, some, ◌==◌,
  if◌then◌else◌,
}
use otomatik.Base.Text.{Text, text_eq, to_lower}
use otomatik.Base.Map.{Map, get, put, delete}
use otomatik.Base.Errors.{Error, message}
use otomatik.Names.{subject_qualifies_for_cert}

-- OnDemandConfig
pub record OnDemandConfig : Type 0 where
  pub decision_func : Option (Text → Option Error)
  pub host_whitelist : List Text

-- whitelistContains; strings.EqualFold folds the case of ASCII letters.
abbrev pub whitelist_contains : List Text → Text → Bool
whitelist_contains [] name = false
whitelist_contains (n ∷ names) name =
    text_eq (to_lower n) (to_lower name) || whitelist_contains names name

abbrev pub no_hosts : List Text → Bool
no_hosts [] = true
no_hosts (n ∷ names) = false

-- checkIfCertShouldBeObtained
unfoldable pub check_if_cert_should_be_obtained : Option OnDemandConfig → Text → Option Error
unfolding subject_qualifies_for_cert
check_if_cert_should_be_obtained none name =
    some (message "not configured for on-demand certificate issuance")
check_if_cert_should_be_obtained (some cfg) name =
    if not (subject_qualifies_for_cert name)
    then some (message "subject name does not qualify for certificate")
    else elim cfg.decision_func [
      | some decide ↦ decide name
      | none ↦
          if not (no_hosts cfg.host_whitelist) && not (whitelist_contains cfg.host_whitelist name)
          then some (message "certificate is not managed")
          else none
    ]

-- Which function a goroutine is in: obtainOnDemandCertificate or renewDynamicCertificate.
pub data Task : Type 0 where
  obtain : Task
  renew : Task

pub data Goroutine : Type 0 where
  entering : Task → Text → Goroutine  -- at the head of the function
  waiting : ℕ → Goroutine  -- at the receive from the channel
  working : Task → Text → ℕ → Goroutine  -- it has put the channel into the map
  returned : Goroutine

-- obtainCertWaitChans, the number of channels made, the closed channels, the goroutines
pub record Waiters : Type 0 where
  pub chans : Map ℕ
  pub made : ℕ
  pub closed : List ℕ
  pub goroutines : List Goroutine

abbrev pub is_closed : ℕ → List ℕ → Bool
is_closed ch [] = false
is_closed ch (c ∷ cs) = c == ch || is_closed ch cs

-- From the lock at the head to the unlock: wait on the channel that is there, or make one.
unfoldable pub enter : List Goroutine → List Goroutine → Task → Text → Waiters → Waiters
enter ws us task name x = elim (get x.chans name) [
  | some wait ↦ record x { goroutines = ws ++ Goroutine.waiting wait ∷ us }
  | none ↦ record x {
    chans = put x.chans name x.made;
    made = x.made + 1;
    goroutines = ws ++ Goroutine.working task name x.made ∷ us;
  }
]

-- The work is done, with or without an error: close the channel, delete the entry, go on.
unfoldable pub complete : List Goroutine → List Goroutine → Text → ℕ → Waiters → Waiters
complete ws us name wait x = record x {
  chans = delete x.chans name;
  closed = wait ∷ x.closed;
  goroutines = ws ++ Goroutine.returned ∷ us;
}

-- The return of renewDynamicCertificate when checkIfCertShouldBeObtained gives an error.
unfoldable pub deny : List Goroutine → List Goroutine → Waiters → Waiters
deny ws us x = record x { goroutines = ws ++ Goroutine.returned ∷ us }

-- The steps, but for the denial of a renewal.
pub data Step : Waiters → Waiters → Type 0 where
  come :
      (x : Waiters) (task : Task) (name : Text)
      → Step x (record x { goroutines = Goroutine.entering task name ∷ x.goroutines })
  enters :
      (x : Waiters) (ws us : List Goroutine) (task : Task) (name : Text)
      → x.goroutines ≡ ws ++ Goroutine.entering task name ∷ us
      → Step x (enter ws us task name x)
  completes :
      (x : Waiters) (ws us : List Goroutine) (task : Task) (name : Text) (wait : ℕ)
      → x.goroutines ≡ ws ++ Goroutine.working task name wait ∷ us
      → Step x (complete ws us name wait x)
  wakes :
      (x : Waiters) (ws us : List Goroutine) (wait : ℕ)
      → x.goroutines ≡ ws ++ Goroutine.waiting wait ∷ us
      → is_closed wait x.closed ≡ true
      → Step x (record x { goroutines = ws ++ Goroutine.returned ∷ us })

pub data AnyStep : Waiters → Waiters → Type 0 where
  run : {x y : Waiters} → Step x y → AnyStep x y
  denies :
      (x : Waiters) (ws us : List Goroutine) (name : Text) (wait : ℕ)
      → x.goroutines ≡ ws ++ Goroutine.working Task.renew name wait ∷ us
      → AnyStep x (deny ws us x)

pub data Reach (R : Waiters → Waiters → Type 0) (x : Waiters) : Waiters → Type 0 where
  here : Reach R x x
  next : {y z : Waiters} → Reach R x y → R y z → Reach R x z

-- Before the first handshake.
abbrev pub no_waiters : Waiters
no_waiters = record { chans = []; made = 0; closed = []; goroutines = [] }
