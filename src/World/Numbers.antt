-- ===== src/World/Numbers.antt =====
-- Python's `int` of a text, in base 10 and 16, and `str` of a number.
use survol.Base.{
  ℕ, zero, suc, ◌+◌, ◌-◌, ◌*◌, ◌/◌, ◌%◌, ◌==◌, ltb, leb, Text, codes, starts_with, [], ◌∷◌, ◌++◌,
  Option, none, some, ◌&&◌, ◌||◌, if◌then◌else◌, drop, ℤ, pos, negsuc, neg,
}
use survol.Batch.Failure.{Result, ok, raised, value_error, type_error}
use survol.Symbols.{strip}

unfoldable pub digit_value : ℕ → Option ℕ
digit_value c =
    if leb b'0' c && leb c b'9'
    then some (c - b'0')
    else if leb b'a' c && leb c b'f'
    then some (c - b'a' + 10)
    else if leb b'A' c && leb c b'F'
    then some (c - b'A' + 10)
    else none

-- The value of the digits, behind digits of the value `n`.
unfoldable pub read_digits : ℕ → ℕ → Text → Option ℕ
unfolding digit_value
read_digits base n [] = some n
read_digits base n (c ∷ s) = elim (digit_value c) [
  | none ↦ none
  | some d ↦ let rest = read_digits base (n * base + d) s in if ltb d base then rest else none
]

unfoldable pub read_nat : ℕ → Text → Option ℕ
unfolding read_digits
read_nat base [] = none
read_nat base (c ∷ s) = read_digits base 0 (c ∷ s)

-- In base 16 the digits may stand behind `0x`.
unfoldable pub without_prefix : ℕ → Text → Text
unfolding starts_with
without_prefix base s =
    if base == 16 && (starts_with s (codes "0x") || starts_with s (codes "0X")) then drop 2 s else s

unfoldable pub read_signed : ℕ → Text → Option ℤ
unfolding read_nat without_prefix
read_signed base [] = none
read_signed base (c ∷ s) =
    if c == b'-'
    then elim (read_nat base (without_prefix base s)) [ none ↦ none | some n ↦ some (neg n) ]
    else if c == b'+'
    then elim (read_nat base (without_prefix base s)) [ none ↦ none | some n ↦ some (pos n) ]
    else elim (read_nat base (without_prefix base (c ∷ s))) [ none ↦ none | some n ↦ some (pos n) ]

-- `int(s, base)`
unfoldable pub parse_int : ℕ → Text → Result ℤ
unfolding read_signed strip
parse_int base s = elim (read_signed base (strip s)) [ none ↦ raised value_error | some z ↦ ok z ]

-- `int(o, base)` for a text or None.
unfoldable pub parse_int_or_none : ℕ → Option Text → Result ℤ
parse_int_or_none base none = raised type_error
parse_int_or_none base (some s) = parse_int base s

-- `str(n)`; there are at most `fuel` digits.
unfoldable pub show_digits : ℕ → ℕ → Text
show_digits zero n = []
show_digits (suc fuel) n =
    let front = show_digits fuel (n / 10) in
    if ltb n 10 then (b'0' + n) ∷ [] else front ++ (b'0' + n % 10) ∷ []

unfoldable pub show_nat : ℕ → Text
unfolding show_digits
show_nat n = show_digits (suc n) n

unfoldable pub show_int : ℤ → Text
unfolding show_nat
show_int (pos n) = show_nat n
show_int (negsuc n) = b'-' ∷ show_nat (suc n)
