-- ===== src/Maintain/OcspUpdates.antt =====
-- maintain.go: updateOCSPStaples.
use otomatik.Base.{
  ℕ, Bool, true, false, not, ◌&&◌, ◌||◌, List, [], ◌∷◌, ◌++◌, Option, none, some, ltb, ◌==◌,
  if◌then◌else◌,
}
use otomatik.Base.Text.{Text}
use otomatik.Base.Map.{Map, get, put}
use otomatik.Base.Result.{Result, ok, err, stopped, panicked, Action, next, ◌>>=◌, ◌>>◌, pure, give}
use otomatik.Cache.{Cache, certificate_at, remove_certificate}
use otomatik.Certificate.{Certificate, OcspResponse, Leaf}
use otomatik.Config.{out}
use otomatik.Config.Issuance.{renew_cert}
use otomatik.Maintain.Renew.{Configs, get_config, config_of, logged, removed_from}
use otomatik.Manage.{Instance, inside, first_name, reload_managed_certificate}
use otomatik.Ocsp.{fresh_ocsp, staple_ocsp}

-- ocspUpdate and updateQueueEntry; a time that is zero is 0.
pub record OcspUpdate : Type 0 where
  pub raw_bytes : Text
  pub parsed : Option OcspResponse

pub record UpdateQueueEntry : Type 0 where
  pub cert : Certificate
  pub cert_hash : Text
  pub last_next_update : ℕ

-- The local variables of the second loop of updateOCSPStaples
pub record Updates (C : Type 0) : Type 0 where
  pub updated : Map OcspUpdate
  pub renew_queue : List Certificate
  pub configs : Map C

abbrev pub no_updates : {C : Type 0} → Updates C
no_updates = record { updated = []; renew_queue = []; configs = [] }

-- ocsp.Revoked
abbrev pub status_revoked : ℕ
status_revoked = 1

abbrev pub named : List Text → Bool
named [] = false
named (name ∷ names) = true

-- Whether a new response is an update of the staple that was there
abbrev pub is_update : ℕ → Option OcspResponse → Bool
is_update last_next_update none = false
is_update last_next_update (some response) =
    last_next_update == 0 || not (last_next_update == response.next_update)

abbrev pub note_update : Text → Certificate → Map OcspUpdate → Map OcspUpdate
note_update cert_hash cert updated =
    put updated cert_hash (record { raw_bytes = cert.ocsp_staple; parsed = cert.ocsp })

abbrev pub note_revoked : {C : Type 0} → C → Certificate → List Text → Updates C → Updates C
note_revoked c cert [] u = u
note_revoked c cert (name ∷ names) u = record u {
  renew_queue = u.renew_queue ++ cert ∷ [];
  configs = put u.configs name c;
}

-- A round of the loop over `updated`, under the lock: `certCache.cache[certKey]` is the zero certificate
-- where the key is no longer there.
unfoldable pub apply_update : Text → OcspUpdate → Cache → Cache
apply_update cert_key update c =
    let cert = certificate_at c.cache cert_key in
    record c {
      cache =
          put c.cache cert_key
            (record cert { ocsp = update.parsed; ocsp_staple = update.raw_bytes });
    }

-- The loop, in the order in which the map is walked
unfoldable pub apply_updates : Map OcspUpdate → Cache → Cache
unfolding apply_update
apply_updates [] c = c
apply_updates ((cert_key, update) ∷ updated) c =
    apply_updates updated (apply_update cert_key update c)

module _ {S C : Type 0} (x : Configs S C) (now : S → ℕ × S) where
  abbrev pub queue_entry : Text → Certificate → ℕ → List UpdateQueueEntry → List UpdateQueueEntry
  queue_entry cert_hash cert t queue =
      queue ++ record { cert = cert; cert_hash = cert_hash; last_next_update = t } ∷ []

  -- By the staple that is there
  unfoldable pub scan_staple :
      Text
      → Certificate
      → Option OcspResponse
      → List UpdateQueueEntry
      → Action S (List UpdateQueueEntry)
  unfolding fresh_ocsp
  scan_staple cert_hash cert none queue s = (ok (queue_entry cert_hash cert 0 queue), s)
  scan_staple cert_hash cert (some response) queue s =
      let (t, s') = now s in
      (
        ok (
            if fresh_ocsp response t
            then queue
            else queue_entry cert_hash cert response.next_update queue),
        s',
      )

  -- By the leaf, which must be there
  unfoldable pub scan_leaf :
      Text → Certificate → Option Leaf → List UpdateQueueEntry → Action S (List UpdateQueueEntry)
  unfolding scan_staple
  scan_leaf cert_hash cert none queue s = (stopped panicked, (now s).1)
  scan_leaf cert_hash cert (some leaf) queue s =
      let (t, s') = now s in
      let scanned = scan_staple cert_hash cert cert.ocsp queue s' in
      if ltb leaf.not_after t then (ok queue, s') else scanned

  -- The first loop of updateOCSPStaples
  unfoldable pub scan_staples :
      List (Text × Certificate) → List UpdateQueueEntry → Action S (List UpdateQueueEntry)
  unfolding scan_leaf next
  scan_staples [] queue s = (ok queue, s)
  scan_staples ((cert_hash, cert) ∷ visited) queue s =
      next (scan_staples visited) (scan_leaf cert_hash cert cert.leaf queue s)

  -- By what stapleOCSP leaves
  unfoldable pub stapled_entry :
      C
      → UpdateQueueEntry
      → Updates C
      → Certificate × Result OcspResponse × S
      → Result (Updates C) × S
  stapled_entry c qe u (cert, ok ocsp_resp, s) =
      let noted : Updates C =
        if is_update qe.last_next_update cert.ocsp
        then record u { updated = note_update qe.cert_hash cert u.updated }
        else u in
      (
        ok (
            if cert.managed && ocsp_resp.status == status_revoked
            then note_revoked c cert cert.names noted
            else noted),
        s,
      )
  stapled_entry c qe u (cert, err e, s) = (ok u, s)
  stapled_entry c qe u (cert, stopped h, s) = (stopped h, s)

  unfoldable pub update_entry : UpdateQueueEntry → Updates C → Result C → Action S (Updates C)
  unfolding stapled_entry
  update_entry qe u (ok c) s = stapled_entry c qe u (staple_ocsp (x.stapler c) none qe.cert s)
  update_entry qe u (err e) s = (ok u, s)
  update_entry qe u (stopped h) s = (stopped h, s)

  -- The second loop of updateOCSPStaples
  unfoldable pub update_entries : List UpdateQueueEntry → Updates C → Action S (Updates C)
  unfolding update_entry next
  update_entries [] u s = (ok u, s)
  update_entries (qe ∷ queue) u s =
      next (update_entries queue) (update_entry qe u (get_config x qe.cert) s)

  -- A round over the revoked certificates, by what RenewCert returns
  unfoldable pub replace_revoked :
      C → Certificate → Result (Unit {0}) × Instance S → Result (Unit {0}) × Instance S
  replace_revoked c old_cert (ok u, i) =
      logged (reload_managed_certificate (x.config c) (x.stapler c) old_cert i)
  replace_revoked c old_cert (err e, i) = removed_from i (remove_certificate i.cert_cache old_cert)
  replace_revoked c old_cert (stopped h, i) = (stopped h, i)

  unfoldable pub renew_revoked : ℕ → Map C → List Certificate → Action (Instance S) (Unit {0})
  unfolding replace_revoked
  renew_revoked fuel configs [] = pure tt
  renew_revoked fuel configs (old_cert ∷ certs) =
      (give (first_name old_cert.names) >>= λ renew_name.
      give (config_of (get configs renew_name)) >>= λ c.
      λ i. replace_revoked c old_cert (inside (renew_cert (x.config c) fuel renew_name false) i))
      >> renew_revoked fuel configs certs

  abbrev pub apply_in : Map OcspUpdate → Action (Instance S) (Unit {0})
  apply_in updated i = (ok tt, record i { cert_cache = apply_updates updated i.cert_cache })

  -- updateOCSPStaples; `visited` is the cache in the order in which the map is walked.
  unfoldable pub update_ocsp_staples :
      ℕ → List (Text × Certificate) → Action (Instance S) (Unit {0})
  unfolding scan_staples update_entries apply_updates renew_revoked
  update_ocsp_staples fuel visited = inside (out (scan_staples visited [])) >>= λ queue.
      inside (out (update_entries queue no_updates)) >>= λ u.
      apply_in u.updated >> renew_revoked fuel u.configs u.renew_queue
