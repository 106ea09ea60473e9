-- ===== src/Maintain.antt =====
-- maintain.go: cleaning the storage of old OCSP staples.
pub mod Staples
pub mod Expired
mod Assets
pub mod Current
pub mod Renew
pub mod Queued
pub mod OcspUpdates
pub mod Removed
use otomatik.Base.{ℕ, Bool, true, false, List, [], ◌∷◌, Option, none, some, ltb, if◌then◌else◌}
use otomatik.Base.Text.{Text}
use otomatik.Base.Result.{Result, ok, err, stopped, Action}
use otomatik.Certificate.{OcspResponse}
use otomatik.Keys.{prefix_ocsp}
use otomatik.Storage.{Storage}

-- The storage, ParseResponse of x/crypto/ocsp without the certificate of the issuer, and the clock. Of
-- the parser the program only asks whether there is an error.
pub record Cleaner (S : Type 0) : Type 0 where
  pub storage : Storage S
  pub parse_response : Text → Option OcspResponse
  pub now : S → ℕ × S

module _ {S : Type 0} (x : Cleaner S) where
  -- What the loop of deleteOldOCSPStaples does with the response of a key; it logs an error of Delete
  -- and goes on.
  unfoldable pub delete_if_old : Text → Option OcspResponse → S → Result (Unit {0}) × S
  delete_if_old key (some resp) s =
      let (t, s') = x.now s in
      let deleted = (x.storage.delete key s').1 in
      (ok tt, if ltb resp.next_update t then deleted else s')
  delete_if_old key none s = (ok tt, (x.storage.delete key s).1)

  -- A round of the loop of deleteOldOCSPStaples, by what Load returned
  unfoldable pub staple_round : Text → Result Text × S → Result (Unit {0}) × S
  unfolding delete_if_old
  staple_round key (ok ocsp_bytes, s) = delete_if_old key (x.parse_response ocsp_bytes) s
  staple_round key (err e, s) = (ok tt, s)
  staple_round key (stopped h, s) = (stopped h, s)

  -- After a round, where `rest` are the rounds that follow
  unfoldable pub after_round :
      (S → Result (Unit {0}) × S) → Result (Unit {0}) × S → Result (Unit {0}) × S
  after_round rest (ok u, s) = rest s
  after_round rest (err e, s) = (err e, s)
  after_round rest (stopped h, s) = (stopped h, s)

  unfoldable pub delete_staples : List Text → Action S (Unit {0})
  unfolding staple_round after_round
  delete_staples [] s = (ok tt, s)
  delete_staples (key ∷ keys) s =
      after_round (delete_staples keys) (staple_round key (x.storage.load key s))

  unfoldable pub delete_listed : Result (List Text) × S → Result (Unit {0}) × S
  unfolding delete_staples
  delete_listed (ok keys, s) = delete_staples keys s
  delete_listed (err e, s) = (ok tt, s)
  delete_listed (stopped h, s) = (stopped h, s)

  -- deleteOldOCSPStaples
  unfoldable pub delete_old_ocsp_staples : Action S (Unit {0})
  unfolding delete_listed
  delete_old_ocsp_staples s = delete_listed (x.storage.list prefix_ocsp false s)
