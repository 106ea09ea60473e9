-- ===== src/Cache.antt =====
-- cache.go: the certificates in memory by the hash of their chain, and the index from a name to the
-- hashes. The lock serialises the operations, so each is a function from cache to cache.
pub mod Removal
pub mod Invariant
pub mod Matching
pub mod Wildcards
use otomatik.Base.{
  ℕ, zero, suc, ◌+◌, ◌-◌, Bool, true, false, not, ◌&&◌, List, [], ◌∷◌, ◌++◌, map, Option, none,
  some, leb, if◌then◌else◌, length, get_or, take,
}
use otomatik.Base.Outcome.{Outcome, done, panic, ◌>>=◌}
use otomatik.Base.Text.{Text, text_eq, dot, star, split, join}
use otomatik.Base.Map.{Map, get, put, delete}
use otomatik.Certificate.{Certificate, zero_certificate}

pub record Cache : Type 0 where
  pub cache : Map Certificate
  pub cache_index : Map (List Text)

-- What NewCache makes.
abbrev pub empty_cache : Cache
empty_cache = record { cache = []; cache_index = [] }

-- m[k] for a map to slices or to certificates: the zero value on a missing key.
abbrev pub entries : Map (List Text) → Text → List Text
entries m name = elim (get m name) [ none ↦ [] | some l ↦ l ]

abbrev pub certificate_at : Map Certificate → Text → Certificate
certificate_at m key = elim (get m key) [ none ↦ zero_certificate | some c ↦ c ]

-- The loop over `cert.Names` of unsyncedCacheCertificate.
unfoldable pub index_names : Text → List Text → Map (List Text) → Map (List Text)
index_names hash [] m = m
index_names hash (name ∷ names) m =
    index_names hash names (put m name (entries m name ++ hash ∷ []))

-- unsyncedCacheCertificate, which cacheCertificate calls under the lock
unfoldable pub cache_certificate : Cache → Certificate → Cache
unfolding index_names
cache_certificate c cert = elim (get c.cache cert.hash) [
  | some _ ↦ c
  | none ↦ record {
    cache = put c.cache cert.hash cert;
    cache_index = index_names cert.hash cert.names c.cache_index;
  }
]

-- The array after `append(s[:i], s[i+1:]...)`: `n` cells from index `i` on take the values of their
-- right neighbours, in place.
unfoldable pub slide : List Text → ℕ → List Text
slide [] n = []
slide (x ∷ []) n = x ∷ []
slide (x ∷ y ∷ a) zero = x ∷ y ∷ a
slide (x ∷ y ∷ a) (suc n) = y ∷ slide (y ∷ a) n

unfoldable pub shift : List Text → ℕ → ℕ → List Text
unfolding slide
shift a zero n = slide a n
shift [] (suc i) n = []
shift (x ∷ a) (suc i) n = x ∷ shift a i n

-- `for i, cacheKey := range keyList { if cacheKey == cert.hash { keyList = append(…) } }`. The range
-- goes over the array that keyList had at the start, `k` rounds from index `i`, and the appends write
-- to that array; `l` is the length of keyList now. Slicing from beyond the length panics.
unfoldable pub remove_key : ℕ → ℕ → Text → List Text → ℕ → Outcome (List Text)
unfolding shift
remove_key zero i hash a l = done (take l a)
remove_key (suc k) i hash a l =
    let hit = text_eq (get_or a i []) hash in
    let next =
      remove_key k (i + 1) hash (if hit then shift a i (l - 1 - i) else a)
        (if hit then l - 1 else l) in
    if hit && not (leb (i + 1) l) then panic else next

-- `delete` or the assignment, by the length of the new list.
unfoldable pub store_keys : Map (List Text) → Text → List Text → Map (List Text)
store_keys m name [] = delete m name
store_keys m name (k ∷ l) = put m name (k ∷ l)

-- The loop over `cert.Names` of removeCertificate.
unfoldable pub unindex_names : Text → List Text → Map (List Text) → Outcome (Map (List Text))
unfolding remove_key store_keys
unindex_names hash [] m = done m
unindex_names hash (name ∷ names) m =
    remove_key (length (entries m name)) 0 hash (entries m name) (length (entries m name)) >>= λ l.
    unindex_names hash names (store_keys m name l)

-- removeCertificate
unfoldable pub remove_certificate : Cache → Certificate → Outcome Cache
unfolding unindex_names
remove_certificate c cert = do
  index ← unindex_names cert.hash cert.names c.cache_index
  done (record { cache = delete c.cache cert.hash; cache_index = index })

-- replaceCertificate; the log then reads the leaf of the new certificate, which one that was made has.
unfoldable pub replace_certificate : Cache → Certificate → Certificate → Outcome Cache
unfolding remove_certificate cache_certificate
replace_certificate c old_cert new_cert = do
  c' ← remove_certificate c old_cert
  done (cache_certificate c' new_cert)

-- getAllMatchingCerts
unfoldable pub get_all_matching_certs : Cache → Text → List Certificate
get_all_matching_certs c name = map (certificate_at c.cache) (entries c.cache_index name)

-- getFirstMatchingCert: the certificate that it returns with true, `none` for false
unfoldable pub get_first_matching_cert : Cache → Text → Outcome (Option Certificate)
unfolding get_all_matching_certs
get_first_matching_cert c name = elim (get_all_matching_certs c name) [
  | [] ↦ panic
  | _ ∷ _ ↦ done none
]

-- getAllCerts, in the order in which the map is walked
unfoldable pub get_all_certs : Cache → List Certificate
get_all_certs c = map (λ e. e.1) c.cache

-- The loop of AllMatchingCertificates: `before` are the labels that are stars already.
unfoldable pub wildcard_matches : Cache → List Text → List Text → List Certificate
unfolding get_all_matching_certs
wildcard_matches c before [] = []
wildcard_matches c before (l ∷ labels) =
    get_all_matching_certs c (join dot (before ++ (star ∷ []) ∷ labels))
    ++ wildcard_matches c (before ++ (star ∷ []) ∷ []) labels

-- AllMatchingCertificates
unfoldable pub all_matching_certificates : Cache → Text → List Certificate
unfolding get_all_matching_certs wildcard_matches
all_matching_certificates c name =
    get_all_matching_certs c name ++ wildcard_matches c [] (split dot name)
