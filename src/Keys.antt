-- ===== src/Keys.antt =====
-- storage.go: the keys that KeyBuilder makes, with path.Join of the standard library, and
-- otomatik.go: CertificateResource.NamesKey.
pub mod Paths
pub mod Sites
use otomatik.Base.{
  ℕ, ◌-◌, Bool, true, false, not, ◌&&◌, ◌||◌, List, [], ◌∷◌, ◌++◌, ltb, if◌then◌else◌, length, take,
  ◌==◌,
}
use otomatik.Base.Text.{Text, codes, slash, dot, is_empty, split, join, text_eq}
use otomatik.Storage.{safe}

-- path.Clean reads the parts of a path from the left; `stack` are those that stand, the last one
-- first.
unfoldable pub push_part : Bool → List Text → Text → List Text
push_part rooted stack p =
    if is_empty p || text_eq p (dot ∷ [])
    then stack
    else if text_eq p (dot ∷ dot ∷ [])
    then elim stack [
      | [] ↦ if rooted then [] else p ∷ []
      | q ∷ below ↦ if text_eq q (dot ∷ dot ∷ []) then p ∷ q ∷ below else below
    ]
    else p ∷ stack

unfoldable pub push_parts : Bool → List Text → List Text → List Text
push_parts rooted stack [] = stack
push_parts rooted stack (p ∷ ps) = push_parts rooted (push_part rooted stack p) ps

abbrev pub is_rooted : Text → Bool
is_rooted [] = false
is_rooted (c ∷ t) = c == slash

abbrev pub reversed : List Text → List Text → List Text
reversed done [] = done
reversed done (p ∷ ps) = reversed (p ∷ done) ps

abbrev pub or_dot : List Text → Text
or_dot [] = dot ∷ []
or_dot (p ∷ ps) = join slash (p ∷ ps)

-- path.Clean
unfoldable pub clean_path : Text → Text
unfolding push_parts push_part
clean_path t =
    let rooted = is_rooted t in
    let parts = reversed [] (push_parts rooted [] (split slash t)) in
    if rooted then slash ∷ join slash parts else or_dot parts

abbrev pub drop_empty : List Text → List Text
drop_empty [] = []
drop_empty (t ∷ ts) = let rest = drop_empty ts in if is_empty t then rest else t ∷ rest

-- path.Join
unfoldable pub path_join : List Text → Text
unfolding clean_path
path_join elems = elim (drop_empty elems) [ [] ↦ [] | t ∷ ts ↦ clean_path (join slash (t ∷ ts)) ]

abbrev pub prefix_certs : Text
prefix_certs = codes "certificates"

abbrev pub prefix_ocsp : Text
prefix_ocsp = codes "ocsp"

-- CertsPrefix
unfoldable pub certs_prefix : Text → Text
unfolding path_join safe
certs_prefix issuer_key = path_join (prefix_certs ∷ safe issuer_key ∷ [])

-- CertsSitePrefix
unfoldable pub certs_site_prefix : Text → Text → Text
unfolding certs_prefix
certs_site_prefix issuer_key domain = path_join (certs_prefix issuer_key ∷ safe domain ∷ [])

-- SiteCert
unfoldable pub site_cert : Text → Text → Text
unfolding certs_site_prefix
site_cert issuer_key domain =
    path_join (certs_site_prefix issuer_key domain ∷ (safe domain ++ codes ".crt") ∷ [])

-- SitePrivateKey
unfoldable pub site_private_key : Text → Text → Text
unfolding certs_site_prefix
site_private_key issuer_key domain =
    path_join (certs_site_prefix issuer_key domain ∷ (safe domain ++ codes ".key") ∷ [])

-- SiteMeta
unfoldable pub site_meta : Text → Text → Text
unfolding certs_site_prefix
site_meta issuer_key domain =
    path_join (certs_site_prefix issuer_key domain ∷ (safe domain ++ codes ".json") ∷ [])

-- OCSPStaple; `fast_hash` is the hash of the bundle in hexadecimal.
unfoldable pub ocsp_staple_key : List Text → Text → Text
unfolding path_join safe
ocsp_staple_key [] fast_hash = path_join (prefix_ocsp ∷ fast_hash ∷ [])
ocsp_staple_key (name ∷ names) fast_hash =
    path_join (prefix_ocsp ∷ (safe name ++ b'-' ∷ fast_hash) ∷ [])

-- The order of strings, by their code points.
abbrev pub text_le : Text → Text → Bool
text_le [] t = true
text_le (b ∷ s) [] = false
text_le (b ∷ s) (c ∷ t) = ltb b c || (b == c && text_le s t)

abbrev pub insert_text : Text → List Text → List Text
insert_text t [] = t ∷ []
insert_text t (u ∷ us) = if text_le t u then t ∷ u ∷ us else u ∷ insert_text t us

-- sort.Strings
abbrev pub sort_texts : List Text → List Text
sort_texts [] = []
sort_texts (t ∷ ts) = insert_text t (sort_texts ts)

-- NamesKey of a resource with these names, whose bytes are its characters, as in ASCII
unfoldable pub names_key : List Text → Text
names_key sans =
    let result = join b',' (sort_texts sans) in
    if ltb 1024 (length result) then take (1024 - 6) result ++ codes "_trunc" else result
