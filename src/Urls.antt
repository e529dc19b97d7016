-- ===== src/Urls.antt =====
-- survol/lib_util.py: the display mode in a URL, `AnyUriModed`, `ConcatenateCgi` and
-- `GetModeFromUrl`. A URL is a text of code points.
pub mod Modes
mod Tests
use survol.Base.{
  ℕ, ◌==◌, Text, codes, text_eq, starts_with, List, [], ◌∷◌, ◌++◌, Option, none, some, Bool, true,
  false, ◌&&◌, ◌||◌, if◌then◌else◌, drop,
}
use survol.Symbols.{rfind_in}

-- What the pattern "." matches of a text: the first line.
unfoldable pub first_line : Text → Text
first_line [] = []
first_line (c ∷ t) = let rest = first_line t in if c == 10 then [] else c ∷ rest

-- The pattern "[^\&]*", and what follows it.
unfoldable pub before_amp : Text → Text
before_amp [] = []
before_amp (c ∷ t) = let rest = before_amp t in if c == b'&' then [] else c ∷ rest

unfoldable pub from_amp : Text → Text
from_amp [] = []
from_amp (c ∷ t) = let rest = from_amp t in if c == b'&' then c ∷ t else rest

-- The groups of a match, with the mode as one more.
pub record ModeMatch : Type 0 where
  pub before : Text
  pub delim : ℕ
  pub mode : Text
  pub behind : Text

unfoldable pub is_delim : ℕ → Bool
is_delim c = c == b'?' || c == b'&'

-- `re.match("(.*)([\?\&])mode=[^\&]*(.*)", script)`. The first group takes as much as it can.
unfoldable pub match_mode : Text → Option ModeMatch
match_mode [] = none
match_mode (c ∷ t) =
    let later = match_mode t in
    let here : Option ModeMatch =
      if is_delim c && starts_with t (codes "mode=")
      then some (record {
        before = [];
        delim = c;
        mode = before_amp (drop 5 t);
        behind = first_line (from_amp (drop 5 t));
      })
      else none in
    if c == 10
    then none
    else elim later [ none ↦ here | some m ↦ some (record m { before = c ∷ m.before }) ]

unfoldable pub concatenate_cgi : Text → Text → Text
concatenate_cgi url keyvalpair = elim (rfind_in b'?' url 0) [
  | none ↦ url ++ b'?' ∷ keyvalpair
  | some i ↦ url ++ b'&' ∷ keyvalpair
]

-- `mtch_url.group(3)[1:]` behind "?", if there is a third group.
unfoldable pub without_first_mode : Text → Text → Text
without_first_mode before [] = before
without_first_mode before (c ∷ behind) = before ++ b'?' ∷ behind

unfoldable pub remove_mode : Option ModeMatch → Text → Text
remove_mode none script = script
remove_mode (some m) script =
    if m.delim == b'?' then without_first_mode m.before m.behind else m.before ++ m.behind

unfoldable pub replace_mode : Option ModeMatch → Text → Text → Text
replace_mode none script other_mode = concatenate_cgi script (codes "mode=" ++ other_mode)
replace_mode (some m) script other_mode =
    m.before ++ m.delim ∷ (codes "mode=" ++ (other_mode ++ m.behind))

-- `AnyUriModed`
unfoldable pub any_uri_moded : Text → Text → Text
any_uri_moded script [] = remove_mode (match_mode script) script
any_uri_moded script (c ∷ other_mode) = replace_mode (match_mode script) script (c ∷ other_mode)

-- `GetModeFromUrl`, whose pattern finds the same place.
unfoldable pub get_mode_from_url : Text → Text
get_mode_from_url url = elim (match_mode url) [ none ↦ [] | some m ↦ m.mode ]
