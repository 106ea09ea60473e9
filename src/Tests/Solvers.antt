-- ===== src/Tests/Solvers.antt =====
-- A server for two challenges.
use otomatik.Base.{ℕ, refl, [], some, false, if◌then◌else◌, arith}
use otomatik.Base.Errors.{message}
use otomatik.Base.Map.{get}
use otomatik.Base.Result.{ok}
use otomatik.Base.Text.{Text, codes, text_eq, text_eq_iff, text_eq_refl}
use otomatik.Solvers.{Network, Servers, http_present, Calls, start, presents}
use otomatik.Solvers.Counted.{Counts, Calls-Counts}

-- Open listeners are counted.
abbrev network : Network ℕ ℕ
network = record {
  listen = λ addr s. (ok s, s);
  dial_tcp_socket = λ addr s. (some (message "refused"), s);
  is_in_use = λ e. false;
  close = λ ln s. s;
  sleep = λ s. s;
}

abbrev none_served : Servers ℕ ℕ
none_served = record { outside = 0; solvers = [] }

abbrev address : Text
address = codes ":80"

abbrev at_address : ℕ → Text → ℕ
at_address n a = if text_eq address a then n else 0

abbrev one_served : Servers ℕ ℕ
one_served = (http_present network address none_served).1

one_call : Calls network 0 (at_address 1) one_served
one_call =
    presents address start (rw (text_eq_refl address) refl)
      (λ b other. ground (arith, text_eq_iff address b))

Calls-Counts_example : Counts 1 (get one_served.solvers address)
unfolding text_eq
Calls-Counts_example = Calls-Counts network 0 one_call address
