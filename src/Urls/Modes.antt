-- ===== src/Urls/Modes.antt =====
-- A mode that is put into a URL is the mode of the URL, and it can be taken away.
use survol.Base.{
  ℕ, zero, suc, ◌==◌, ==_iff, Text, codes, starts_with, [], ◌∷◌, ◌++◌, append-nil, Option, none,
  some, Option-cases, true, false, Bool-cases, ◌&&◌, drop, All, ◌≡◌, ◌≢◌, ◌∙◌, refl, ap, inl, inr,
  arith,
}
use survol.Symbols.{rfind_in}
use survol.Urls.{
  first_line, before_amp, from_amp, ModeMatch, is_delim, match_mode, concatenate_cgi,
  without_first_mode, remove_mode, replace_mode, any_uri_moded, get_mode_from_url,
}

-- A text of one line.
abbrev pub IsLine : Text → Type 0
IsLine = All (λ c. c ≢ 10)

-- A mode has no character that ends it or begins another one.
abbrev pub IsMode : Text → Type 0
IsMode = All (λ c. (c ≢ 10) × (c ≢ b'?') × (c ≢ b'&'))

-- Behind a mode there is nothing, or the next argument.
abbrev IsBehind : Text → Type 0
IsBehind [] = Unit
IsBehind (c ∷ t) = c ≡ b'&'

first_line_all : (t : Text) → IsLine t → first_line t ≡ t
unfolding first_line
first_line_all [] h = refl
first_line_all (c ∷ t) (h, hs) =
    let n : (c == 10) ≡ false = ground (arith, h) in rw (n, first_line_all t hs) refl

IsBehind-first_line_from : (t : Text) → IsBehind (first_line (from_amp t))
unfolding first_line from_amp
IsBehind-first_line_from [] = tt
IsBehind-first_line_from (c ∷ t) = elim (Bool-cases (c == b'&')) [
  | inl e ↦ let n : (c == 10) ≡ false = ground (arith, e) in rw (e, n) ((==_iff c b'&').0 e)
  | inr n ↦ rw n (IsBehind-first_line_from t)
]

before_amp-mode : (m g : Text) → IsMode m → IsBehind g → before_amp (m ++ g) ≡ m
unfolding before_amp
before_amp-mode [] [] h b = refl
before_amp-mode [] (c ∷ g) h b = let e : (c == b'&') ≡ true = ground (arith, b) in rw e refl
before_amp-mode (c ∷ m) g (h, hs) b =
    let n : (c == b'&') ≡ false = ground (arith, h.2) in rw (n, before_amp-mode m g hs b) refl

from_amp-mode : (m g : Text) → IsMode m → IsBehind g → from_amp (m ++ g) ≡ g
unfolding from_amp
from_amp-mode [] [] h b = refl
from_amp-mode [] (c ∷ g) h b = let e : (c == b'&') ≡ true = ground (arith, b) in rw e refl
from_amp-mode (c ∷ m) g (h, hs) b =
    let n : (c == b'&') ≡ false = ground (arith, h.2) in rw (n, from_amp-mode m g hs b) refl

-- There is no other mode in a mode.
match_mode-mode : (m g : Text) → IsMode m → match_mode g ≡ none → match_mode (m ++ g) ≡ none
unfolding match_mode is_delim
match_mode-mode [] g h e = e
match_mode-mode (c ∷ m) g (h, hs) e =
    let n : (c == 10) ≡ false = ground (arith, h.0) in
    let d : is_delim c ≡ false = ground (arith, h.1, h.2) in
    rw (n, match_mode-mode m g hs e, d) refl

match_mode-tail : (c : ℕ) (t : Text) → c ≢ 10 → match_mode (c ∷ t) ≡ none → match_mode t ≡ none
unfolding match_mode
match_mode-tail c t h e = elim (Option-cases (match_mode t)) [
  | inl q ↦ q
  | inr (m, q) ↦ let n : (c == 10) ≡ false = ground (arith, h) in ground (arith, n, q, e)
]

match_mode-from_amp : (t : Text) → IsLine t → match_mode t ≡ none → match_mode (from_amp t) ≡ none
unfolding from_amp
match_mode-from_amp [] h e = e
match_mode-from_amp (c ∷ t) (h, hs) e = elim (Bool-cases (c == b'&')) [
  | inl y ↦ rw y e
  | inr n ↦ rw n (match_mode-from_amp t hs (match_mode-tail c t h e))
]

IsLine-from_amp : (t : Text) → IsLine t → IsLine (from_amp t)
unfolding from_amp
IsLine-from_amp [] h = tt
IsLine-from_amp (c ∷ t) h = elim (Bool-cases (c == b'&')) [
  | inl y ↦ rw y h
  | inr n ↦ rw n (IsLine-from_amp t h.1)
]

IsLine-drop : (n : ℕ) (t : Text) → IsLine t → IsLine (drop n t)
IsLine-drop zero t h = h
IsLine-drop (suc n) [] h = tt
IsLine-drop (suc n) (c ∷ t) h = IsLine-drop n t h.1

match_mode-drop : (n : ℕ) (t : Text) → IsLine t → match_mode t ≡ none → match_mode (drop n t) ≡ none
match_mode-drop zero t h e = e
match_mode-drop (suc n) [] h e = e
match_mode-drop (suc n) (c ∷ t) (h, hs) e = match_mode-drop n t hs (match_mode-tail c t h e)

-- What a match is in a text of one line.
abbrev IsMatch : Option ModeMatch → Type 0
IsMatch none = Unit
IsMatch (some x) =
    IsLine x.before
    × (is_delim x.delim ≡ true)
    × IsLine x.behind
    × IsBehind x.behind
    × (match_mode x.behind ≡ none)

codes-IsMode : IsMode (codes "mode=")
codes-IsMode = (
  (ground arith, ground arith, ground arith),
  (
    (ground arith, ground arith, ground arith),
    (
      (ground arith, ground arith, ground arith),
      (
        (ground arith, ground arith, ground arith),
        ((ground arith, ground arith, ground arith), tt),
      ),
    ),
  ),
)

-- The last mode of a text that is built.
match_mode-built :
    (before : Text) (delim : ℕ) (m behind : Text)
    → IsLine before
    → is_delim delim ≡ true
    → IsMode m
    → IsLine behind
    → IsBehind behind
    → match_mode behind ≡ none
    → match_mode (before ++ delim ∷ (codes "mode=" ++ (m ++ behind)))
      ≡ some (record { before = before; delim = delim; mode = m; behind = behind })
unfolding match_mode starts_with
match_mode-built [] delim m behind hb hd hm hl ha e =
    let n : (delim == 10) ≡ false = unfold is_delim in ground (arith, hd) in
    rw
      (
        n,
        match_mode-mode (codes "mode=") (m ++ behind) (codes-IsMode)
            (match_mode-mode m behind hm e),
        hd,
        before_amp-mode m behind hm ha,
        from_amp-mode m behind hm ha,
        first_line_all behind hl,
      )
      refl
match_mode-built (c ∷ before) delim m behind (h, hb) hd hm hl ha e =
    let n : (c == 10) ≡ false = ground (arith, h) in
    rw (n, match_mode-built before delim m behind hb hd hm hl ha e) refl

match_mode-IsMatch : (url : Text) → IsLine url → IsMatch (match_mode url)
unfolding match_mode
match_mode-IsMatch [] h = tt
match_mode-IsMatch (c ∷ t) (h, hs) =
    let n : (c == 10) ≡ false = ground (arith, h) in
    elim (Option-cases (match_mode t)) [
      | inr (m, q) ↦
          let found = match_mode-IsMatch t hs in
          let (b, d, l, a, e) = rw q at found in rw (n, q) ((h, b), d, l, a, e)
      | inl q ↦ elim (Bool-cases (is_delim c && starts_with t (codes "mode="))) [
        | inl y ↦
            let l = IsLine-from_amp (drop 5 t) (IsLine-drop 5 t hs) in
            let e =
              match_mode-from_amp (drop 5 t) (IsLine-drop 5 t hs) (match_mode-drop 5 t hs q) in
            let f = first_line_all (from_amp (drop 5 t)) l in
            let d : is_delim c ≡ true = ground (arith, y) in
            rw (n, q, y) (tt, d, rw f l, IsBehind-first_line_from (drop 5 t), rw f e)
        | inr y ↦ rw (n, q, y) tt
      ]
    ]

match_mode-appended :
    (url : Text) (delim : ℕ) (m : Text)
    → IsLine url
    → is_delim delim ≡ true
    → IsMode m
    → match_mode (url ++ delim ∷ (codes "mode=" ++ m))
      ≡ some (record { before = url; delim = delim; mode = m; behind = [] })
unfolding match_mode
match_mode-appended url delim m h d hm =
    let built = match_mode-built url delim m [] h d hm tt tt refl in rw (append-nil m) at built

concatenate_cgi-delim :
    (url m : Text) → (d : ℕ) × (is_delim d ≡ true) × (concatenate_cgi url m ≡ url ++ d ∷ m)
unfolding is_delim concatenate_cgi
concatenate_cgi-delim url m = elim (Option-cases (rfind_in b'?' url 0)) [
  | inl e ↦ (b'?', refl, rw (concatenate_cgi, e) refl)
  | inr (i, e) ↦ (b'&', refl, rw (concatenate_cgi, e) refl)
]

-- The place where a mode is put, and what is around it.
match_mode-replaced :
    (o : Option ModeMatch) (url m : Text)
    → IsLine url
    → IsMode m
    → IsMatch o
    → (x : ModeMatch) × (match_mode (replace_mode o url m) ≡ some x) × (x.mode ≡ m)
unfolding replace_mode
match_mode-replaced none url m h hm k =
    let (d, is, e) = concatenate_cgi-delim url (codes "mode=" ++ m) in
    (
      record { before = url; delim = d; mode = m; behind = [] },
      ap match_mode e ∙ match_mode-appended url d m h is hm,
      refl,
    )
match_mode-replaced (some x) url m h hm (b, d, l, a, e) =
    (record x { mode = m }, match_mode-built x.before x.delim m x.behind b d hm l a e, refl)

-- A mode that is put into a URL is what the URL's mode is then, whatever mode it had before. The URL has
-- one line, and the mode is not empty and has no line end, question mark or ampersand.
pub get_mode_from_url-moded :
    (url : Text) (c : ℕ) (m : Text)
    → IsLine url
    → IsMode (c ∷ m)
    → get_mode_from_url (any_uri_moded url (c ∷ m)) ≡ c ∷ m
unfolding any_uri_moded get_mode_from_url
get_mode_from_url-moded url c m h hm =
    let (x, e, is) =
      match_mode-replaced (match_mode url) url (c ∷ m) h hm (match_mode-IsMatch url h) in
    rw (get_mode_from_url, e) is

remove_mode-end :
    (url m : Text) (d : ℕ) (script : Text)
    → remove_mode (some (record { before = url; delim = d; mode = m; behind = [] })) script ≡ url
unfolding remove_mode without_first_mode
remove_mode-end url m d script = elim (Bool-cases (d == b'?')) [
  | inl e ↦ rw e refl
  | inr n ↦ rw n (append-nil url)
]

-- When a mode is put into a URL that has none, and is taken away again, the URL is what it was. The URL
-- has one line, and the mode is not empty and has no line end, question mark or ampersand.
pub any_uri_moded-removed :
    (url : Text) (c : ℕ) (m : Text)
    → IsLine url
    → IsMode (c ∷ m)
    → match_mode url ≡ none
    → any_uri_moded (any_uri_moded url (c ∷ m)) [] ≡ url
unfolding any_uri_moded replace_mode
any_uri_moded-removed url c m h hm none_before =
    let (d, is, e) = concatenate_cgi-delim url (codes "mode=" ++ c ∷ m) in
    let put : any_uri_moded url (c ∷ m) ≡ url ++ d ∷ (codes "mode=" ++ c ∷ m) = rw none_before e in
    let found = ap match_mode put ∙ match_mode-appended url d (c ∷ m) h is hm in
    rw found (remove_mode-end url (c ∷ m) d (any_uri_moded url (c ∷ m)))
