-- ===== src/Urls/Tests.antt =====
-- Runs with URLs.
use survol.Base.{Text, codes, [], none, ◌≡◌, refl, arith}
use survol.Urls.{
  match_mode, any_uri_moded, get_mode_from_url, replace_mode, remove_mode, before_amp, from_amp,
  first_line, is_delim, without_first_mode,
}
use survol.Base.{starts_with}
use survol.Urls.Modes.{IsLine, IsMode, get_mode_from_url-moded, any_uri_moded-removed}

abbrev page : Text
page = codes "e?xid=a"

abbrev with_mode : Text
with_mode = codes "e?mode=rdf&xid=a"

-- The mode is the first argument here, and what follows it is kept.
test-replaced : any_uri_moded with_mode (codes "svg") ≡ codes "e?mode=svg&xid=a"
unfolding any_uri_moded match_mode replace_mode before_amp from_amp first_line is_delim starts_with
test-replaced = refl

test-removed : any_uri_moded with_mode [] ≡ page
unfolding any_uri_moded match_mode remove_mode without_first_mode before_amp from_amp first_line
    is_delim starts_with
test-removed = refl

page-IsLine : IsLine page
page-IsLine = (
  ground arith,
  (
    ground arith,
    (ground arith, (ground arith, (ground arith, (ground arith, (ground arith, tt))))),
  ),
)

page-match : match_mode page ≡ none
unfolding match_mode is_delim starts_with
page-match = refl

svg-IsMode : IsMode (codes "svg")
svg-IsMode = (
  (ground arith, ground arith, ground arith),
  ((ground arith, ground arith, ground arith), ((ground arith, ground arith, ground arith), tt)),
)

get_mode_from_url-moded_example : get_mode_from_url (any_uri_moded page (codes "svg")) ≡ codes "svg"
get_mode_from_url-moded_example =
    get_mode_from_url-moded page b's' (codes "vg") page-IsLine svg-IsMode

any_uri_moded-removed_example : any_uri_moded (any_uri_moded page (codes "svg")) [] ≡ page
any_uri_moded-removed_example =
    any_uri_moded-removed page b's' (codes "vg") page-IsLine svg-IsMode page-match
