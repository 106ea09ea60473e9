-- ===== src/Names.antt =====
-- certificates.go and handshake.go: what the program asks of subject names.
pub mod Labels
pub mod Wildcard
pub mod Qualify
pub mod Patterns
use otomatik.Base.{
  ℕ, ◌<◌, Bool, true, false, not, ◌&&◌, ◌||◌, List, [], ◌∷◌, ◌++◌, ltb, ◌==◌, if◌then◌else◌, length,
}
use otomatik.Base.Text.{
  Text, codes, text_eq, dot, star, to_lower, trim_space, has_prefix, has_suffix, count_char,
  contains_char, contains_any, is_empty, split, join,
}

-- The characters of the last test: ()[]{}<> , space, tab, newline, quotes and !@#$%^&|;'+=
abbrev pub special_characters : Text
special_characters =
    b'(' ∷ b')' ∷ b'[' ∷ b']' ∷ b'{' ∷ b'}' ∷ b'<' ∷ b'>' ∷ b' ' ∷ 9 ∷ 10 ∷ 34 ∷ 92 ∷ b'!' ∷ b'@'
    ∷ b'#' ∷ b'$' ∷ b'%' ∷ b'^' ∷ b'&' ∷ b'|' ∷ b';' ∷ 39 ∷ b'+' ∷ b'=' ∷ []

-- SubjectQualifiesForCert
unfoldable pub subject_qualifies_for_cert : Text → Bool
subject_qualifies_for_cert subj =
    not (is_empty (trim_space subj))
    && not (has_prefix subj (dot ∷ []))
    && not (has_suffix subj (dot ∷ []))
    && (not (contains_char star subj) || has_prefix subj (star ∷ dot ∷ []))
    && not (contains_any subj special_characters)

-- SubjectQualifiesForPublicCert; `is_ip` is `net.ParseIP(subj) != nil`.
unfoldable pub subject_qualifies_for_public_cert : (Text → Bool) → Text → Bool
unfolding subject_qualifies_for_cert
subject_qualifies_for_public_cert is_ip subj =
    subject_qualifies_for_cert subj
    && not (text_eq subj (codes "localhost"))
    && not (has_suffix subj (codes ".localhost"))
    && not (has_suffix subj (codes ".local"))
    && (not (contains_char star subj)
        || (count_char star subj == 1 && ltb 2 (length subj) && has_prefix subj (star ∷ dot ∷ [])))
    && not (is_ip subj)

-- NormalizedName
unfoldable pub normalized_name : Text → Text
normalized_name server_name = to_lower (trim_space server_name)

-- The loop of MatchWildcard: `before` are the labels that are done, those that were not empty as
-- stars.
unfoldable pub match_labels : List Text → List Text → Text → Bool
match_labels before [] wildcard = false
match_labels before (l ∷ labels) wildcard =
    let label = if is_empty l then l else star ∷ [] in
    let rest = match_labels (before ++ label ∷ []) labels wildcard in
    if is_empty l
    then rest
    else if text_eq (join dot (before ++ (star ∷ []) ∷ labels)) wildcard
    then true
    else rest

-- MatchWildcard
unfoldable pub match_wildcard : Text → Text → Bool
unfolding match_labels
match_wildcard subject wildcard =
    if text_eq subject wildcard
    then true
    else if not (contains_char star wildcard)
    then false
    else match_labels [] (split dot subject) wildcard
