-- ===== src/Maintain/Queued/NoJobs.antt =====
-- maintain.go: the parts of RenewManagedCertificates that submit no job.
use otomatik.Base.{◌≡◌, refl, ◌∙◌, List, [], ◌∷◌}
use otomatik.Base.Errors.{Error}
use otomatik.Base.Map.{Map, get}
use otomatik.Base.Outcome.{Outcome, done, panic}
use otomatik.Base.Result.{Result, ok, err, stopped, Action, next, give, renamed, ◌>>=◌}
use otomatik.Cache.{Cache, remove_certificate, replace_certificate}
use otomatik.Certificate.{Certificate}
use otomatik.Config.{out}
use otomatik.Manage.{
  Instance, first_name, load_managed_certificate, reload_managed_certificate, replaced, inside,
}
use otomatik.Maintain.Renew.{
  Configs, logged, config_of, removed_from, reload_one, reload_all, delete_all,
}

module _ {S C : Type 0} (x : Configs S C) where
  -- Calls that submit no job
  unfoldable pub Silent : {A : Type 0} → Action (Instance S) A → Type 0
  Silent m = (i : Instance S) → (m i).1.submitted ≡ i.submitted

  next-Silent :
      {A B : Type 0} (f : A → Action (Instance S) B) (r : Result A × Instance S)
      → ((a : A) → Silent (f a))
      → (next f r).1.submitted ≡ r.1.submitted
  unfolding next Silent
  next-Silent f (ok a, i) h = h a i
  next-Silent f (err e, i) h = refl
  next-Silent f (stopped y, i) h = refl

  bind-Silent :
      {A B : Type 0} (m : Action (Instance S) A) (f : A → Action (Instance S) B)
      → Silent m
      → ((a : A) → Silent (f a))
      → Silent (m >>= f)
  unfolding Silent next
  bind-Silent m f h k i = next-Silent f (m i) k ∙ h i

  removed-Silent :
      (i : Instance S) (o : Outcome Cache) → (removed_from i o).1.submitted ≡ i.submitted
  removed-Silent i (done c) = refl
  removed-Silent i panic = refl

  logged-Silent : (r : Result (Unit {0}) × Instance S) → (logged r).1.submitted ≡ r.1.submitted
  logged-Silent (ok u, i) = refl
  logged-Silent (err e, i) = refl
  logged-Silent (stopped h, i) = refl

  renamed-Silent :
      {A : Type 0} (f : Error → Error) (r : Result A × Instance S)
      → (renamed f r).1.submitted ≡ r.1.submitted
  renamed-Silent f (ok u, i) = refl
  renamed-Silent f (err e, i) = refl
  renamed-Silent f (stopped h, i) = refl

  replaced-Silent :
      (c : C) (i : Instance S) (o : Outcome Cache)
      → (replaced (x.config c) (x.stapler c) i o).1.submitted ≡ i.submitted
  replaced-Silent c i (done y) = refl
  replaced-Silent c i panic = refl

  reload-Silent :
      (c : C) (cert : Certificate)
      → Silent (reload_managed_certificate (x.config c) (x.stapler c) cert)
  unfolding reload_managed_certificate Silent
  reload-Silent c cert =
      bind-Silent (give (first_name cert.names)) _ (λ i. refl)
        (λ name.
          bind-Silent _ _
            (λ i.
              renamed-Silent _
                (inside (out (load_managed_certificate (x.config c) (x.stapler c) name)) i))
            (λ new_cert i. replaced-Silent c i (replace_certificate i.cert_cache cert new_cert)))

  pub reload_all-Silent :
      (configs : Map C) (certs : List Certificate) → Silent (reload_all x configs certs)
  unfolding reload_all reload_one Silent
  reload_all-Silent configs [] = λ i. refl
  reload_all-Silent configs (cert ∷ certs) =
      bind-Silent (reload_one x configs cert) (λ _. reload_all x configs certs)
        (bind-Silent (give (first_name cert.names)) _ (λ i. refl)
          (λ name.
            bind-Silent (give (config_of (get configs name))) _ (λ i. refl)
              (λ c i.
                logged-Silent (reload_managed_certificate (x.config c) (x.stapler c) cert i)
                ∙ reload-Silent c cert i)))
        (λ _. reload_all-Silent configs certs)

  pub delete_all-Silent : (certs : List Certificate) → Silent (delete_all x certs)
  unfolding delete_all Silent
  delete_all-Silent [] = λ i. refl
  delete_all-Silent (cert ∷ certs) =
      bind-Silent (λ i. removed_from i (remove_certificate i.cert_cache cert))
        (λ _. delete_all x certs) (λ i. removed-Silent i (remove_certificate i.cert_cache cert))
        (λ _. delete_all-Silent certs)
