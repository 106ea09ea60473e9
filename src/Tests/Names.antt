-- ===== src/Tests/Names.antt =====
-- Runs of the name tests of certificates.go.
use otomatik.Base.{◌≡◌, ◌↔◌, true}
use otomatik.Base.Text.{codes}
use otomatik.Names.{match_wildcard}
use otomatik.Names.Wildcard.{Matches, match_wildcard_lem}

match_wildcard_lem_example :
    (match_wildcard (codes "www.a.com") (codes "*.a.com") ≡ true)
    ↔ Matches (codes "www.a.com") (codes "*.a.com")
match_wildcard_lem_example = match_wildcard_lem (codes "www.a.com") (codes "*.a.com")
