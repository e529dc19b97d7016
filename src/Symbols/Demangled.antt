-- ===== src/Symbols/Demangled.antt =====
-- `FindArgumentsStart` and `SymToArgs` on a symbol `name(arguments) suffix`.
use survol.Base.{
  ℕ, ◌+◌, ◌-◌, ◌==◌, ==_refl, Text, codes, starts_with, List, [], ◌∷◌, ◌++◌, append_assoc, map,
  Option, none, some, false, length, length-append, take, drop, take-append, drop-append,
  Option-cases, inl, inr, ◌≡◌, ◌≢◌, refl, sym, ap, ◌∙◌, arith, All,
}
use survol.Batch.Calls.{join}
use survol.CallArguments.{find, find_in}
use survol.Symbols.{
  is_zero, level_by_char, closing_loop, find_closing_delimiter, find_arguments_start, rfind_in,
  split_args, strip, sym_to_args,
}
use survol.Symbols.Splitting.{IsPart, top_level_split-join}

abbrev pub IsPlain : ℕ → Type 0
IsPlain c = (c ≢ b'(') × (c ≢ b')')

pub find_in-first :
    (name rest : Text) (i : ℕ)
    → All IsPlain name
    → find_in (name ++ b'(' ∷ rest) (codes "(") i ≡ some (i + length name)
unfolding find_in starts_with
find_in-first [] rest i h = ap some (omega arith)
find_in-first (c ∷ name) rest i (h, hs) =
    let e : (c == b'(') ≡ false = ground (arith, h.0) in
    rw (e, find_in-first name rest (i + 1) hs) (ap some (omega arith))

pub rfind_in-none : (p : ℕ) (s : Text) (i : ℕ) → All (λ c. c ≢ p) s → rfind_in p s i ≡ none
unfolding rfind_in
rfind_in-none p [] i h = refl
rfind_in-none p (c ∷ s) i (h, hs) =
    let e : (p == c) ≡ false = ground (arith, h) in rw (rfind_in-none p s (i + 1) hs, e)

-- The last place of a character.
pub rfind_in-last :
    (p : ℕ) (pre suffix : Text) (i : ℕ)
    → All (λ c. c ≢ p) suffix
    → rfind_in p (pre ++ p ∷ suffix) i ≡ some (i + length pre)
unfolding rfind_in
rfind_in-last p [] suffix i h =
    rw (rfind_in-none p suffix (i + 1) h, ==_refl p) (ap some (omega arith))
rfind_in-last p (c ∷ pre) suffix i h =
    rw (rfind_in-last p pre suffix (i + 1) h) (ap some (omega arith))

not_closing : (s : Text) → All IsPlain s → All (λ c. c ≢ b')') s
not_closing [] h = tt
not_closing (c ∷ s) h = (h.0.1, not_closing s h.1)

closing_at_once :
    (c : ℕ) (s : Text) (from : Option ℕ)
    → IsPlain c
    → find_closing_delimiter (c ∷ s) from b'(' b')' ≡ some 0
unfolding find_closing_delimiter closing_loop level_by_char is_zero
closing_at_once c s from h = ground (arith, h.0, h.1)

arguments-first :
    (c : ℕ) (s : Text) → IsPlain c → find_arguments_start (c ∷ s) ≡ find (c ∷ s) (codes "(") 0
unfolding find_arguments_start
arguments-first c s h = elim (Option-cases (find (c ∷ s) (codes "(") 0)) [
  | inl e ↦ rw (find_arguments_start, closing_at_once c s (find (c ∷ s) (codes "(") 0) h, e) e
  | inr (i, e) ↦ rw (find_arguments_start, closing_at_once c s (find (c ∷ s) (codes "(") 0) h, e)
]

-- On a text that does not start with a parenthesis, the search for the closing parenthesis stops at the
-- first character, whatever its start is, and the arguments start at the first opening parenthesis.
pub find_arguments_start-first :
    (c : ℕ) (s : Text)
    → IsPlain c
    → ((from : Option ℕ) → find_closing_delimiter (c ∷ s) from b'(' b')' ≡ some 0)
      × (find_arguments_start (c ∷ s) ≡ find (c ∷ s) (codes "(") 0)
find_arguments_start-first c s h = (λ from. closing_at_once c s from h, arguments-first c s h)

map-strip : (args : List Text) → All (λ a. strip a ≡ a) args → map strip args ≡ args
map-strip [] h = refl
map-strip (a ∷ args) h = rw (h.0, map-strip args h.1)

split_args-join :
    (t : Text) (ts : List Text)
    → All (IsPart b',' (codes "<") (codes ">")) (t ∷ ts)
    → All (λ a. strip a ≡ a) (t ∷ ts)
    → split_args (join (codes ",") (t ∷ ts)) ≡ t ∷ ts
unfolding split_args join
split_args-join [] ts h k = absurd (h.0.0 refl)
split_args-join (c ∷ t) [] h k =
    rw (top_level_split-join b',' (codes "<") (codes ">") (c ∷ t) [] h) (map-strip ((c ∷ t) ∷ []) k)
split_args-join (c ∷ t) (u ∷ us) h k =
    rw (top_level_split-join b',' (codes "<") (codes ">") (c ∷ t) (u ∷ us) h)
      (map-strip ((c ∷ t) ∷ u ∷ us) k)

-- The name and the arguments of a symbol `name(argument,…)suffix` are found again, if no parenthesis
-- stands in the name, which is not empty, nor in the suffix, and each argument is not empty, has no
-- white space around it, has balanced angle brackets, and holds commas between them only.
pub sym_to_args-printed :
    (c : ℕ) (name : Text) (t : Text) (ts : List Text) (suffix : Text)
    → All IsPlain (c ∷ name)
    → All (IsPart b',' (codes "<") (codes ">")) (t ∷ ts)
    → All (λ a. strip a ≡ a) (t ∷ ts)
    → All IsPlain suffix
    → sym_to_args ((c ∷ name) ++ b'(' ∷ (join (codes ",") (t ∷ ts) ++ b')' ∷ suffix))
      ≡ (c ∷ name, some (t ∷ ts))
unfolding sym_to_args find
sym_to_args-printed c name t ts suffix hn hp hs hx =
    let args = join (codes ",") (t ∷ ts) in
    let whole = c ∷ (name ++ b'(' ∷ (args ++ b')' ∷ suffix)) in
    let start : find_arguments_start whole ≡ some (length (c ∷ name)) =
      arguments-first c (name ++ b'(' ∷ (args ++ b')' ∷ suffix)) hn.0
      ∙ (find_in-first (c ∷ name) (args ++ b')' ∷ suffix) 0 hn
          ∙ (let z : 0 + length (c ∷ name) ≡ length (c ∷ name) = omega arith in rw z)) in
    let pre = (c ∷ name) ++ b'(' ∷ args in
    let split : whole ≡ pre ++ b')' ∷ suffix =
      sym (append_assoc (c ∷ name) (b'(' ∷ args) (b')' ∷ suffix)) in
    let last : rfind_in b')' whole 0 ≡ some (length pre) = rw split (
      rfind_in-last b')' pre suffix 0 (not_closing suffix hx)
      ∙ (let z : 0 + length pre ≡ length pre = omega arith in rw z)) in
    let size : length pre - (length (c ∷ name) + 1) ≡ length args =
      omega (arith, length-append (c ∷ name) (b'(' ∷ args)) in
    let behind : drop (length (c ∷ name) + 1) whole ≡ args ++ b')' ∷ suffix =
      drop-append (c ∷ name) (b'(' ∷ (args ++ b')' ∷ suffix)) 1 in
    let named : take (length (c ∷ name)) whole ≡ c ∷ name =
      take-append (c ∷ name) (b'(' ∷ (args ++ b')' ∷ suffix)) in
    rw (
      sym_to_args,
      start,
      last,
      size,
      behind,
      take-append args (b')' ∷ suffix),
      split_args-join t ts hp hs,
      named,
    )
