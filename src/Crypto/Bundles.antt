-- ===== src/Crypto/Bundles.antt =====
-- parseCertsFromPEMBundle of crypto.go: its loop ends, and what it returns.
use otomatik.Base.{
  ℕ, zero, suc, ◌≡◌, ◌≢◌, ◌<◌, refl, List, [], ◌∷◌, ◌++◌, Option, none, some, length, length-append,
  arith, subst,
}
use otomatik.Base.Text.{Text}
use otomatik.Base.Result.{Result, ok, err, stopped, ok-injective}
use otomatik.Crypto.{
  Codec, PemBlock, block_certs, found_certs, add_certs, parse_round, parse_certs_loop,
  parse_certs_from_pem_bundle,
}

-- What a call of the loop returned: an error, or certificates, at least one and no fewer than before.
abbrev AtLeast : {X : Type 0} → ℕ → Result (List X) → Type 0
AtLeast n (ok cs) = n < suc (length cs) × (cs ≢ [])
AtLeast n _ = Unit

abbrev IsBounded : {X : Type 0} → ℕ → Option (Result (List X)) → Type 0
IsBounded n none = ⊥
IsBounded n (some r) = AtLeast n r

IsBounded-mono :
    {X : Type 0} (m n : ℕ) (o : Option (Result (List X)))
    → n < suc m
    → IsBounded m o
    → IsBounded n o
IsBounded-mono m n none h a = a
IsBounded-mono m n (some (ok cs)) h a = (omega (arith, h, a.0), a.1)
IsBounded-mono m n (some (err e)) h a = tt
IsBounded-mono m n (some (stopped k)) h a = tt

module _ {X : Type 0} (x : Codec X) where
  found-AtLeast : (cs : List X) → AtLeast (length cs) (found_certs cs)
  unfolding found_certs
  found-AtLeast [] = tt
  found-AtLeast (c ∷ cs) = (omega arith, λ h. cc)

  add_certs-IsBounded :
      (rest : List X → Option (Result (List X))) (cs : List X) (r : Result (List X))
      → ((ds : List X) → IsBounded (length ds) (rest ds))
      → IsBounded (length cs) (add_certs rest cs r)
  unfolding add_certs
  add_certs-IsBounded rest cs (ok ds) h =
      IsBounded-mono (length (cs ++ ds)) (length cs) (rest (cs ++ ds))
        (omega (arith, length-append cs ds)) (h (cs ++ ds))
  add_certs-IsBounded rest cs (err e) h = tt
  add_certs-IsBounded rest cs (stopped k) h = tt

  module _
      (consumes : (bundle : Text) (b : PemBlock)
        → (x.pem_decode bundle).0 ≡ some b
        → length (x.pem_decode bundle).1 < length bundle) where
    loop-IsBounded :
        (fuel : ℕ) (cs : List X) (bundle : Text)
        → length bundle < fuel
        → IsBounded (length cs) (parse_certs_loop x fuel cs bundle)
    unfolding parse_certs_loop parse_round
    loop-IsBounded zero cs bundle h = absurd (omega (arith, h))
    loop-IsBounded (suc fuel) cs bundle h =
        round (x.pem_decode bundle).0 refl
          (λ ds less. loop-IsBounded fuel ds (x.pem_decode bundle).1 less)
      where
        rest : List X → Option (Result (List X))
        rest ds = parse_certs_loop x fuel ds (x.pem_decode bundle).1

        round :
            (o : Option PemBlock)
            → (x.pem_decode bundle).0 ≡ o
            → ((ds : List X)
                → length (x.pem_decode bundle).1 < fuel
                → IsBounded (length ds) (rest ds))
            → IsBounded (length cs) (parse_round x rest cs o)
        round none e later = found-AtLeast cs
        round (some b) e later =
            add_certs-IsBounded rest cs (block_certs x b)
              (λ ds. later ds (omega (arith, h, consumes bundle b e)))

    -- Where pem.Decode leaves less of the bundle than it was given whenever it finds a block: with
    -- more fuel than the bundle is long the loop returns, and certificates that it returns without
    -- an error are at least one.
    pub parse_certs_terminates :
        (fuel : ℕ) (bundle : Text)
        → length bundle < fuel
        → (r : Result (List X)) × (parse_certs_from_pem_bundle x fuel bundle ≡ some r)
          × ((cs : List X) → r ≡ ok cs → cs ≢ [])
    unfolding parse_certs_from_pem_bundle
    parse_certs_terminates fuel bundle h =
        returned (parse_certs_loop x fuel [] bundle) (loop-IsBounded fuel [] bundle h)
      where
        returned :
            (o : Option (Result (List X)))
            → IsBounded 0 o
            → (r : Result (List X)) × (o ≡ some r) × ((cs : List X) → r ≡ ok cs → cs ≢ [])
        returned none a = absurd a
        returned (some (ok ds)) a = (ok ds, refl, λ cs e. subst (λ u. u ≢ []) (ok-injective e) a.1)
        returned (some (err e)) a = (err e, refl, λ cs h. absurd (cc))
        returned (some (stopped k)) a = (stopped k, refl, λ cs h. absurd (cc))
