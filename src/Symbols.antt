-- ===== src/Symbols.antt =====
-- survol/lib_symbol.py: the arguments of a demangled C++ symbol. `find` and `rfind` return `none`
-- where Python returns -1.
pub mod Splitting
pub mod Demangled
mod Tests
use survol.Base.{
  ℕ, zero, suc, ◌+◌, ◌-◌, ◌==◌, leb, Text, codes, starts_with, List, [], ◌∷◌, ◌++◌, map, Option,
  none, some, Bool, true, false, ◌&&◌, ◌||◌, not, if◌then◌else◌, length, take, drop, slice, ℤ, pos,
  negsuc,
}
use survol.CallArguments.{find}

-- The level of brackets, which a closing bracket takes below zero.
unfoldable pub incr : ℤ → ℤ
incr (pos n) = pos (suc n)
incr (negsuc zero) = pos zero
incr (negsuc (suc n)) = negsuc n

unfoldable pub decr : ℤ → ℤ
decr (pos zero) = negsuc zero
decr (pos (suc n)) = pos n
decr (negsuc n) = negsuc (suc n)

unfoldable pub is_zero : ℤ → Bool
is_zero (pos zero) = true
is_zero (pos (suc n)) = false
is_zero (negsuc n) = false

-- `ch in chars`
unfoldable pub in_text : ℕ → Text → Bool
in_text c [] = false
in_text c (d ∷ s) = c == d || in_text c s

-- The level behind the character `c`, for the two forms of test that the source has.
unfoldable pub level_by_char : ℕ → ℕ → ℤ → ℕ → ℤ
unfolding incr decr
level_by_char bracket_open bracket_close level c =
    if c == bracket_open then incr level else if c == bracket_close then decr level else level

unfoldable pub level_by_text : Text → Text → ℤ → ℕ → ℤ
unfolding incr decr in_text
level_by_text bracket_open bracket_close level c =
    if in_text c bracket_open
    then incr level
    else if in_text c bracket_close
    then decr level
    else level

-- The loop of `find_closing_delimiter` over the characters from `idx` on.
unfoldable pub closing_loop : ℕ → ℕ → Text → ℕ → ℤ → Option ℕ
unfolding level_by_char is_zero
closing_loop bracket_open bracket_close [] idx level = none
closing_loop bracket_open bracket_close (c ∷ s) idx level =
    let next = level_by_char bracket_open bracket_close level c in
    let rest = closing_loop bracket_open bracket_close s (idx + 1) next in
    if is_zero next then some idx else rest

-- `find_closing_delimiter(instr, idx, char_open, char_close)`, which sets `idx` to 0 first.
unfoldable pub find_closing_delimiter : Text → Option ℕ → ℕ → ℕ → Option ℕ
unfolding closing_loop
find_closing_delimiter instr idx bracket_open bracket_close =
    closing_loop bracket_open bracket_close instr 0 (pos 0)

-- `if current: parts.append(current)`
unfoldable pub add_part : List Text → Text → List Text
add_part parts [] = parts
add_part parts (c ∷ s) = parts ++ (c ∷ s) ∷ []

-- The loop of `top_level_split`. The first argument bounds the rounds; the source does not end on an
-- empty delimiter.
unfoldable pub split_loop : ℕ → Text → Text → Text → Text → ℤ → Text → List Text → List Text
unfolding add_part level_by_text is_zero
split_loop zero delim bracket_open bracket_close s level current parts = add_part parts current
split_loop (suc fuel) delim bracket_open bracket_close [] level current parts =
    add_part parts current
split_loop (suc fuel) delim bracket_open bracket_close (c ∷ s) level current parts =
    let behind =
      split_loop fuel delim bracket_open bracket_close (drop (length delim) (c ∷ s)) level []
        (add_part parts current) in
    let next =
      split_loop fuel delim bracket_open bracket_close s
        (level_by_text bracket_open bracket_close level c) (current ++ c ∷ []) parts in
    if starts_with (c ∷ s) delim && is_zero level then behind else next

-- `if not parts: parts = [""]`
unfoldable pub or_empty_parts : List Text → List Text
or_empty_parts [] = [] ∷ []
or_empty_parts (t ∷ ts) = t ∷ ts

-- `top_level_split(instr, delim, bracket_open, bracket_close)`
unfoldable pub top_level_split : Text → Text → Text → Text → List Text
unfolding split_loop or_empty_parts
top_level_split instr delim bracket_open bracket_close =
    or_empty_parts (split_loop (length instr) delim bracket_open bracket_close instr (pos 0) [] [])

-- `FindArgumentsStart(symDemang)`. A search from -1 starts at the last character.
unfoldable pub find_arguments_start : Text → Option ℕ
unfolding find_closing_delimiter
find_arguments_start s =
    let first = find s (codes "(") 0 in
    let from : ℕ = elim (find_closing_delimiter s first b'(' b')') [
      | none ↦ length s - 1
      | some i ↦ i
    ] in
    elim (find s (codes "(") from) [ none ↦ first | some i ↦ some i ]

-- `s.rfind(c)`
unfoldable pub rfind_in : ℕ → Text → ℕ → Option ℕ
rfind_in c [] i = none
rfind_in c (d ∷ s) i = elim (rfind_in c s (i + 1)) [
  | some j ↦ some j
  | none ↦ if c == d then some i else none
]

-- `s.strip()`, for the white space of ASCII.
unfoldable pub is_white : ℕ → Bool
is_white c = (leb 9 c && leb c 13) || (leb 28 c && leb c 32)

unfoldable pub left_strip : Text → Text
unfolding is_white
left_strip [] = []
left_strip (c ∷ s) = let rest = left_strip s in if is_white c then rest else c ∷ s

-- The text without the white space at its end.
unfoldable pub right_strip : Text → Text
unfolding is_white
right_strip [] = []
right_strip (c ∷ s) = elim (right_strip s) [
  | [] ↦ if is_white c then [] else c ∷ []
  | d ∷ t ↦ c ∷ d ∷ t
]

unfoldable pub strip : Text → Text
unfolding left_strip right_strip
strip s = right_strip (left_strip s)

-- The arguments between the parentheses.
unfoldable pub split_args : Text → List Text
unfolding top_level_split strip
split_args [] = []
split_args (c ∷ s) = map strip (top_level_split (c ∷ s) (codes ",") (codes "<") (codes ">"))

-- `SymToArgs(symDemang)`: the name and the arguments, if there is a list of them. A list of arguments
-- that no parenthesis closes loses its last character.
unfoldable pub sym_to_args : Text → Text × Option (List Text)
unfolding find_arguments_start rfind_in split_args
sym_to_args s =
    let last : ℕ = elim (rfind_in b')' s 0) [ none ↦ length s - 1 | some i ↦ i ] in
    elim (find_arguments_start s) [
      | none ↦ (s, none)
      | some first ↦ (take first s, some (split_args (slice s (first + 1) last)))
    ]
