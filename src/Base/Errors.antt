-- ===== src/Base/Errors.antt =====
-- Go errors as values, and the results of functions that return an error beside a value.
use Prim.Native.Nat.{ℕ}
use Prim.Native.String.{String}
use mathlib.Core.Bool.{Bool, true, false}

-- What the program can tell of an error: `context.Canceled`, `ErrNoRetry`, an ACME problem with its
-- HTTP status, a missing file, one that is already there, and any other by its text. `wrapped` is
-- `fmt.Errorf` with `%w`; with `%v` the cause is only part of the text.
pub data Error : Type 0 where
  canceled : Error
  no_retry : Error → Error
  problem : ℕ → Error
  not_exist : Error
  already_exists : Error
  message : String → Error
  wrapped : String → Error → Error

-- errors.Is(err, context.Canceled)
unfoldable pub is_canceled : Error → Bool
is_canceled canceled = true
is_canceled (no_retry e) = is_canceled e
is_canceled (wrapped s e) = is_canceled e
is_canceled _ = false

-- errors.As(err, &errNoRetry)
unfoldable pub is_no_retry : Error → Bool
is_no_retry (no_retry e) = true
is_no_retry (wrapped s e) = is_no_retry e
is_no_retry _ = false
