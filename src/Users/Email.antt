-- ===== src/Users/Email.antt =====
-- user.go: the most recent account, and getEmail.
use otomatik.Base.{
  ℕ, zero, suc, ◌+◌, ◌-◌, Bool, true, false, ◌&&◌, List, [], ◌∷◌, Option, none, some, ltb, leb,
  ◌==◌, if◌then◌else◌, length, get_or, take,
}
use otomatik.Base.Text.{Text, codes, slash, is_empty, to_lower, trim_space, split}
use otomatik.Base.Errors.{message}
use otomatik.Base.Map.{Map, get, put}
use otomatik.Base.Result.{Result, ok, err, stopped, panicked, Action, ◌>>=◌, with_error}
use otomatik.Acme.{AcmeManager}
use otomatik.Cache.{shift}
use otomatik.Storage.{KeyInfo}
use otomatik.Users.{User, Accounts, or_text, storage_key_users_prefix, get_user}

abbrev pub trim_slashes : Text → Text
trim_slashes [] = []
trim_slashes (c ∷ t) =
    let rest = trim_slashes t in if c == slash && is_empty rest then [] else c ∷ rest

abbrev pub last_of : List Text → Text
last_of [] = []
last_of (t ∷ []) = t
last_of (t ∷ u ∷ ts) = last_of (u ∷ ts)

-- path.Base
abbrev pub path_base : Text → Text
path_base [] = codes "."
path_base (c ∷ t) = or_text (last_of (split slash (trim_slashes (c ∷ t)))) (codes "/")

abbrev pub modified_of : Map KeyInfo → Text → ℕ
modified_of stats u = elim (get stats u) [ none ↦ 0 | some info ↦ info.modified ]

module _ {S : Type 0} (x : Accounts S) where
  abbrev pub Listing : Type 0
  Listing = List Text × Map KeyInfo

  -- A round of the loop of mostRecentUserEmail over `u`, which is at index `i`, by what Stat returns:
  -- `a` is the array and `l` the length of userList now, and `rest` the rounds that follow.
  unfoldable pub stat_user :
      (List Text → ℕ → Map KeyInfo → Action S Listing)
      → ℕ
      → List Text
      → ℕ
      → Map KeyInfo
      → Text
      → Result KeyInfo × S
      → Result Listing × S
  stat_user rest i a l stats u (ok info, s) =
      let gone = rest (shift a i (l - 1 - i)) (l - 1) stats s in
      let kept = rest a l (put stats u info) s in
      if info.is_terminal then (if leb (i + 1) l then gone else (stopped panicked, s)) else kept
  stat_user rest i a l stats u (err e, s) = rest a l stats s
  stat_user rest i a l stats u (stopped h, s) = (stopped h, s)

  -- The loop, for `k` rounds from index `i` on
  unfoldable pub stat_users : ℕ → ℕ → List Text → ℕ → Map KeyInfo → Action S Listing
  unfolding stat_user
  stat_users zero i a l stats s = (ok (take l a, stats), s)
  stat_users (suc k) i a l stats s =
      stat_user (stat_users k (i + 1)) i a l stats (get_or a i [])
        (x.storage.stat (get_or a i []) s)

  -- The end of mostRecentUserEmail, which drops the error of getUser
  unfoldable pub email_by : Result User × S → Result (Option Text) × S
  email_by (ok user, s) = (ok (some user.email), s)
  email_by (err e, s) = (ok none, s)
  email_by (stopped h, s) = (stopped h, s)

  unfoldable pub newest_user : Text → List Text → Action S (Option Text)
  unfolding email_by
  newest_user ca_url [] s = (stopped panicked, s)
  newest_user ca_url (u ∷ users) s = email_by (get_user x ca_url (path_base u) s)

  unfoldable pub recent_of : Text → Result (List Text) × S → Result (Option Text) × S
  unfolding stat_users newest_user
  recent_of ca_url (ok [], s) = (ok none, s)
  recent_of ca_url (ok (u ∷ users), s) =
      (stat_users (length (u ∷ users)) 0 (u ∷ users) (length (u ∷ users)) [] >>= λ listing.
      newest_user ca_url
        (x.sort_slice (λ v w. ltb (modified_of listing.1 w) (modified_of listing.1 v)) listing.0))
        s
  recent_of ca_url (err e, s) = (ok none, s)
  recent_of ca_url (stopped h, s) = (stopped h, s)

  -- mostRecentUserEmail; `none` for false
  unfoldable pub most_recent_user_email : Text → Action S (Option Text)
  unfolding recent_of
  most_recent_user_email ca_url s =
      recent_of ca_url (x.storage.list (storage_key_users_prefix x ca_url) false s)

  -- The manager and DefaultACME, which getEmail changes
  pub record Managed : Type 0 where
    pub outside : S
    pub manager : AcmeManager
    pub default : AcmeManager

  abbrev pub beyond : {A : Type 0} → Action S A → Action Managed A
  beyond m g = let (r, s) = m g.outside in (r, record g { outside = s })

  -- promptUserForEmail
  unfoldable pub prompt_user_for_email : Action Managed Text
  prompt_user_for_email g =
      (with_error (λ e. message "get Agreement URL")
            (beyond (x.get_agreement_url (or_text g.manager.ca g.default.ca)))
          >>= λ url.
              with_error (λ e. message "reading email address") (beyond x.read_line) >>= λ le_email.
              λ h. (
                ok (trim_space le_email),
                record h { default = record h.default { agreed = true } },
              ))
        g

  -- The end of getEmail
  unfoldable pub set_email : Text → Action Managed (Unit {0})
  set_email le_email g =
      let email = trim_space (to_lower le_email) in
      (
        ok tt,
        record g {
          default = record g.default { email = email };
          manager = record g.manager { email = email };
        },
      )

  abbrev pub agree : Text → Action Managed Text
  agree le_email g =
      (ok le_email, record g { manager = record g.manager { agreed = g.default.agreed } })

  -- After mostRecentUserEmail
  unfoldable pub recent_or_prompt : Bool → Option Text → Action Managed Text
  unfolding prompt_user_for_email
  recent_or_prompt allow_prompts (some email) g = (ok email, g)
  recent_or_prompt true none g = (prompt_user_for_email >>= agree) g
  recent_or_prompt false none g = (ok [], g)

  unfoldable pub find_email : Bool → Text → Action Managed Text
  unfolding recent_or_prompt
  find_email allow_prompts [] g =
      (beyond (most_recent_user_email g.manager.ca) >>= recent_or_prompt allow_prompts) g
  find_email allow_prompts (c ∷ email) g = (ok (c ∷ email), g)

  -- getEmail
  unfoldable pub get_email : Bool → Action Managed (Unit {0})
  unfolding find_email set_email
  get_email allow_prompts g =
      (find_email allow_prompts (or_text g.manager.email g.default.email) >>= set_email) g
