-- ===== src/Solvers.antt =====
-- solvers.go: httpSolver and tlsALPNSolver, which share the listeners of their addresses. What they
-- serve is in HttpChallenge.antt.
pub mod Counted
use otomatik.Base.{
  ℕ, zero, suc, ◌≡◌, ◌≢◌, Bool, true, false, List, [], ◌∷◌, ◌++◌, Option, none, some, if◌then◌else◌,
}
use otomatik.Base.Errors.{Error, message}
use otomatik.Base.Int.{ℤ, pos, negsuc}
use otomatik.Base.Map.{Map, get, put, delete}
use otomatik.Base.Result.{Result, ok, err, stopped}
use otomatik.Base.Text.{Text, codes}
use otomatik.Cache.{Cache}
use otomatik.Certificate.{Certificate, zero_certificate}

-- solverInfo, without the channel on which CleanUp waits for the server to end
pub record SolverInfo (L : Type 0) : Type 0 where
  pub closed : Bool
  pub count : ℤ
  pub listener : Option L

-- Package net: Listen, and dialTCPSocket with its Dial and Close; whether the text of an error says that
-- the address is in use; closing a listener and then the end of its server; time.Sleep.
pub record Network (S L : Type 0) : Type 0 where
  pub listen : Text → S → Result L × S
  pub dial_tcp_socket : Text → S → Option Error × S
  pub is_in_use : Error → Bool
  pub close : L → S → S
  pub sleep : S → S

-- The state, with the variable `solvers`
pub record Servers (S L : Type 0) : Type 0 where
  pub outside : S
  pub solvers : Map (SolverInfo L)

-- count++ and count--
unfoldable pub incr : ℤ → ℤ
incr (pos n) = pos (suc n)
incr (negsuc zero) = pos 0
incr (negsuc (suc n)) = negsuc n

unfoldable pub decr : ℤ → ℤ
decr (pos zero) = negsuc 0
decr (pos (suc n)) = pos n
decr (negsuc n) = negsuc (suc n)

abbrev pub is_zero : ℤ → Bool
is_zero (pos zero) = true
is_zero _ = false

abbrev pub info_or_new : {L : Type 0} → Option (SolverInfo L) → SolverInfo L
info_or_new none = record { closed = false; count = pos 0; listener = none }
info_or_new (some si) = si

-- getSolverInfo; a new entry is put into the map by those that call it.
unfoldable pub get_solver_info : {L : Type 0} → Map (SolverInfo L) → Text → SolverInfo L
get_solver_info solvers address = info_or_new (get solvers address)

-- tlsALPNCertKeyName
unfoldable pub tls_alpn_cert_key_name : Text → Text
tls_alpn_cert_key_name sni_name = sni_name ++ codes ":acme-tls-alpn"

module _ {S L : Type 0} (x : Network S L) where
  -- A round of robustTryListen, by what Listen returns; `rest` are the rounds that follow.
  unfoldable pub tried :
      (Error → S → (Option L × Option Error) × S)
      → Error
      → Option Error × S
      → (Option L × Option Error) × S
  tried rest listen_err (none, s) = ((none, none), s)
  tried rest listen_err (some e, s) =
      let again = rest listen_err s in if x.is_in_use listen_err then ((none, none), s) else again

  unfoldable pub listened :
      (Error → S → (Option L × Option Error) × S)
      → Text
      → Result L × S
      → (Option L × Option Error) × S
  unfolding tried
  listened rest addr (ok ln, s) = ((some ln, none), s)
  listened rest addr (err listen_err, s) = tried rest listen_err (x.dial_tcp_socket addr s)
  listened rest addr (stopped h, s) = ((none, some (message "stopped")), s)

  abbrev pub gives_up : Error → S → (Option L × Option Error) × S
  gives_up listen_err s =
      ((none, some (message "could not start listener for challenge server")), s)

  -- robustTryListen: two rounds, with a sleep before the second
  unfoldable pub robust_try_listen : Text → S → (Option L × Option Error) × S
  unfolding listened
  robust_try_listen addr s =
      listened (λ e t. let t' = x.sleep t in listened gives_up addr (x.listen addr t')) addr
        (x.listen addr s)

  -- Present once its listener is there or not
  unfoldable pub served :
      Text
      → SolverInfo L
      → Map (SolverInfo L)
      → (Option L × Option Error) × S
      → Option Error × Servers S L
  served address si solvers ((none, e), s) =
      (e, record { outside = s; solvers = put solvers address si })
  served address si solvers ((some ln, e), s) = (
    none,
    record { outside = s; solvers = put solvers address (record si { listener = some ln }) },
  )

  unfoldable pub serve_if_new :
      Text → SolverInfo L → Option L → Servers S L → Option Error × Servers S L
  unfolding served robust_try_listen
  serve_if_new address si (some ln) w = (none, record w { solvers = put w.solvers address si })
  serve_if_new address si none w = served address si w.solvers (robust_try_listen address w.outside)

  -- Present of httpSolver at an address
  unfoldable pub http_present : Text → Servers S L → Option Error × Servers S L
  unfolding get_solver_info serve_if_new
  http_present address w =
      let si = get_solver_info w.solvers address in
      let counted = record si { count = incr si.count } in
      serve_if_new address counted counted.listener w

  abbrev pub closed_listener : Option L → S → S
  closed_listener none s = s
  closed_listener (some ln) s = x.close ln s

  -- CleanUp of httpSolver; the flag `closed`, there of the solver and here of the entry, is only for
  -- what the server logs.
  unfoldable pub http_clean_up : Text → Servers S L → Servers S L
  unfolding get_solver_info
  http_clean_up address w =
      let si = get_solver_info w.solvers address in
      let counted = record si { count = decr si.count } in
      if is_zero counted.count
      then record {
        outside = closed_listener si.listener w.outside;
        solvers = delete w.solvers address;
      }
      else record w { solvers = put w.solvers address counted }

  -- Present of tlsALPNSolver, with ChallengeCert of lego and the hash of its chain
  unfoldable pub tls_alpn_present :
      Text
      → Text
      → Result (List Text × Text)
      → Cache
      → Servers S L
      → (Option Error × Servers S L) × Cache
  unfolding http_present tls_alpn_cert_key_name
  tls_alpn_present address domain (ok (chain, cert_hash)) c w = (
    http_present address w,
    record c {
      cache =
          put c.cache (tls_alpn_cert_key_name domain)
            (record zero_certificate { chain = chain; names = domain ∷ []; hash = cert_hash });
    },
  )
  tls_alpn_present address domain (err e) c w = ((some e, w), c)
  tls_alpn_present address domain (stopped h) c w = ((some (message "stopped"), w), c)

  -- CleanUp of tlsALPNSolver
  unfoldable pub tls_alpn_clean_up : Text → Text → Cache → Servers S L → Servers S L × Cache
  unfolding http_clean_up tls_alpn_cert_key_name
  tls_alpn_clean_up address domain c w =
      (http_clean_up address w, record c { cache = delete c.cache (tls_alpn_cert_key_name domain) })

  -- Calls of Present and of CleanUp, with the number of challenges of each address that were presented,
  -- with an error or without, and not cleaned up: CleanUp is only called for one of those.
  pub data Calls (s : S) : (Text → ℕ) → Servers S L → Type 0 where
    start : Calls s (λ a. 0) (record { outside = s; solvers = [] })
    presents :
        {active after : Text → ℕ} {w : Servers S L} (a : Text)
        → Calls s active w
        → after a ≡ suc (active a)
        → ((b : Text) → a ≢ b → after b ≡ active b)
        → Calls s after (http_present a w).1
    cleans_up :
        {active after : Text → ℕ} {w : Servers S L} (a : Text)
        → Calls s active w
        → active a ≡ suc (after a)
        → ((b : Text) → a ≢ b → after b ≡ active b)
        → Calls s after (http_clean_up a w)
