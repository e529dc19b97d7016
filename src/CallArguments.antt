-- ===== src/CallArguments.antt =====
-- survol/scripts/dockit.py: `ParseCallArguments`, the parser of the arguments that strace and ltrace
-- print. Positions count from the start of the text; the end of an argument is the position behind
-- its last character (`ixEnd + 1` of the source).
pub mod Tests
pub mod Plain
pub mod Ends
pub mod Separators
pub mod RoundTrip
use survol.Base.{
  ℕ, zero, suc, ◌+◌, ◌-◌, ◌==◌, ltb, Text, codes, starts_with, ends_with, List, [], ◌∷◌, ◌++◌,
  Option, none, some, Bool, true, false, ◌&&◌, ◌||◌, not, if◌then◌else◌, length, take, drop, slice,
}
use survol.Batch.Values.{Arg, to_args}

-- `s[i]`; every read of the source is in range.
abbrev pub char_at : Text → ℕ → ℕ
char_at [] i = 0
char_at (c ∷ s) zero = c
char_at (c ∷ s) (suc i) = char_at s i

-- `s.find(p, i)`
unfoldable pub find_in : Text → Text → ℕ → Option ℕ
find_in [] p i = if starts_with [] p then some i else none
find_in (c ∷ s) p i =
    let rest = find_in s p (i + 1) in if starts_with (c ∷ s) p then some i else rest

unfoldable pub find : Text → Text → ℕ → Option ℕ
unfolding find_in
find s p i = find_in (drop i s) p i

-- `while i < len and s[i] in chars: i += 1`; the first argument is the number of rounds left, which
-- is `len - i`.
unfoldable pub skip_rounds : ℕ → (ℕ → Bool) → Text → ℕ → ℕ
skip_rounds zero p s i = i
skip_rounds (suc n) p s i =
    let next = skip_rounds n p s (i + 1) in if p (char_at s i) then next else i

unfoldable pub skip : (ℕ → Bool) → Text → ℕ → ℕ → ℕ
unfolding skip_rounds
skip p s len i = skip_rounds (len - i) p s i

-- `while s[ixEnd] in chars and ixStart <= ixEnd: ixEnd -= 1`, with the end behind `ixEnd`.
unfoldable pub trim_end : (ℕ → Bool) → Text → ℕ → ℕ → ℕ
trim_end p s start zero = zero
trim_end p s start (suc e) =
    let shorter = trim_end p s start e in
    if ltb start (suc e) && p (char_at s e) then shorter else suc e

abbrev pub is_space : ℕ → Bool
is_space c = c == b' '

abbrev pub is_quote : ℕ → Bool
is_quote c = c == b'"'

abbrev pub is_space_or_comma : ℕ → Bool
is_space_or_comma c = c == b' ' || c == b','

abbrev pub is_space_or_quote : ℕ → Bool
is_space_or_quote c = c == b' ' || c == b'"'

abbrev pub is_tail : ℕ → Bool
is_tail c = c == b',' || c == b')' || c == b']' || c == b'}' || c == b' ' || c == b'"'

-- A truncated text: `"...` at the end becomes `...`.
unfoldable pub clean : Text → Text
clean arg = if ends_with arg (codes "\"...") then take (length arg - 4) arg ++ codes "..." else arg

-- The variables of the loop; `levelParent` is -1 where `finished` is set.
pub record Scan : Type 0 where
  pub ix_start : ℕ
  pub ix_curr : ℕ
  pub the_result : List Arg
  pub finished : Bool
  pub in_quotes : Bool
  pub level_parent : ℕ
  pub is_escaped : Bool

-- The argument that ends before the separator, and the start of the next one.
unfoldable pub end_argument : Text → ℕ → Scan → Scan
unfolding skip trim_end clean
end_argument s len st =
    let start = skip is_space_or_quote s len st.ix_start in
    let stop = trim_end is_quote s start (st.ix_curr - 1) in
    let next = skip is_space s len st.ix_curr in
    record st {
      the_result = st.the_result ++ Arg.text (clean (slice s start stop)) ∷ [];
      ix_curr = next;
      ix_start = next;
    }

-- A bracket or a brace that opens: a list if it is the first character of the argument.
unfoldable pub open_bracket : (ℕ → List Arg × ℕ) → Text → ℕ → Scan → Scan
unfolding skip
open_bracket nested s len st =
    if st.ix_curr == st.ix_start + 1
    then (let (obj, ix) = nested st.ix_curr in
        let next = skip is_space_or_comma s len ix in
        record st {
          the_result = st.the_result ++ Arg.list (to_args obj) ∷ [];
          ix_start = next;
          ix_curr = next;
        })
    else record st { level_parent = st.level_parent + 1 }

unfoldable pub close_bracket : Text → ℕ → Scan → Scan
unfolding end_argument
close_bracket s len st =
    if st.level_parent == 0
    then (if st.ix_curr == st.ix_start + 1
        then record st { finished = true }
        else end_argument s len (record st { finished = true }))
    else record st { level_parent = st.level_parent - 1 }

-- The body of the loop, for the character `c` that was just read.
unfoldable pub read_char : (ℕ → List Arg × ℕ) → Text → ℕ → ℕ → Scan → Scan
unfolding open_bracket close_bracket end_argument
read_char nested s len c st =
    if st.is_escaped
    then record st { is_escaped = false }
    else if c == b'\\'
    then record st { is_escaped = true }
    else if c == b'"'
    then record st { in_quotes = not st.in_quotes }
    else if st.in_quotes
    then st
    else if c == b'[' || c == b'{'
    then open_bracket nested s len st
    else if c == b'('
    then record st { level_parent = st.level_parent + 1 }
    else if c == b')' || c == b']' || c == b'}'
    then close_bracket s len st
    else if c == b',' && st.level_parent == 0
    then end_argument s len st
    else st

-- `while (ixCurr < lenStr) and not finished`
unfoldable pub scan_loop : (ℕ → List Arg × ℕ) → Text → ℕ → ℕ → Scan → Scan
scan_loop nested s len zero st = st
scan_loop nested s len (suc fuel) st =
    let next =
      scan_loop nested s len fuel
        (read_char nested s len (char_at s st.ix_curr) (record st { ix_curr = st.ix_curr + 1 })) in
    if ltb st.ix_curr len && not st.finished then next else st

-- What is left behind the last separator, where no bracket has closed the list.
unfoldable pub last_argument : Text → ℕ → Scan → List Arg
unfolding skip trim_end clean
last_argument s len st =
    let start = skip is_space_or_quote s len st.ix_start in
    let stop = trim_end is_tail s start len in
    if ltb st.ix_start len && not st.finished
    then st.the_result ++ Arg.text (clean (slice s start stop)) ∷ []
    else st.the_result

-- `lenStr`: the text counts up to the mark of an unfinished call.
unfoldable pub end_of_call : Text → ℕ → ℕ
unfolding find
end_of_call s ix = elim (find s (codes "<unfinished ...>") ix) [ none ↦ length s | some i ↦ i ]

-- `ParseCallArguments(strArgs, ixStart)`. The first argument bounds the depth of nested lists; each
-- round of the loop reads a character, so the length of the text is enough rounds.
unfoldable pub parse_call_arguments : ℕ → Text → ℕ → List Arg × ℕ
unfolding skip end_of_call scan_loop last_argument
parse_call_arguments zero s ix = ([], ix)
parse_call_arguments (suc depth) s ix =
    let start = skip is_space s (length s) ix in
    let len = end_of_call s start in
    let st = scan_loop (parse_call_arguments depth s) s len (length s) (record {
      ix_start = start;
      ix_curr = start;
      the_result = [];
      finished = false;
      in_quotes = false;
      level_parent = 0;
      is_escaped = false;
    }) in
    (last_argument s len st, st.ix_curr)
