-- ===== src/CallArguments/Tests.antt =====
-- Runs of the parser of arguments.
use survol.Base.{
  ◌+◌, Text, codes, starts_with, ends_with, List, [], ◌∷◌, ◌++◌, length, map, ◌++◌, ◌+◌, none, ◌≡◌,
  refl, arith, All,
}
use survol.Batch.Values.{Arg, to_args}
use survol.Batch.Calls.{join}
use survol.CallArguments.Plain.{IsPlain}
use survol.CallArguments.Separators.{IsPlainArgument, printed}
use survol.CallArguments.RoundTrip.{parse_call_arguments-printed}
use survol.CallArguments.{find, skip, is_space, read_char, parse_call_arguments}

three_arguments :
    parse_call_arguments 3 (codes "3</tmp>, \"ab, c\", 4096) = 5 <0.1>") 0
    ≡ (Arg.text (codes "3</tmp>") ∷ Arg.text (codes "ab, c") ∷ Arg.text (codes "4096") ∷ [], 24)
unfolding parse_call_arguments read_char starts_with ends_with to_args
three_arguments = refl

nested_list :
    parse_call_arguments 3 (codes "\"/bin/ps\", [\"ps\", \"-ef\"], [/* 33 vars */]) = 0") 0 ≡ (
      Arg.text (codes "/bin/ps")
          ∷ Arg.list (to_args (Arg.text (codes "ps") ∷ Arg.text (codes "-ef") ∷ []))
          ∷ Arg.list (to_args (Arg.text (codes "/* 33 vars */") ∷ []))
          ∷ [],
      42,
    )
unfolding parse_call_arguments read_char starts_with ends_with to_args
nested_list = refl

abbrev before : Text
before = codes "close("

abbrev behind : Text
behind = codes " = 0"

abbrev words : List Text
words = codes "3" ∷ codes "a" ∷ []

IsPlain-digit : IsPlain b'3'
IsPlain-digit = ground arith

IsPlain-letter : IsPlain b'a'
IsPlain-letter = ground arith

words-IsPlainArgument : All IsPlainArgument words
words-IsPlainArgument =
    (((λ e. cc (e)), (IsPlain-digit, tt)), (((λ e. cc (e)), (IsPlain-letter, tt)), tt))

unmarked :
    find (before ++ (printed words ++ b')' ∷ behind)) (codes "<unfinished ...>") (length before)
    ≡ none
unfolding find starts_with join
unmarked = refl

parse_call_arguments-printed_example :
    parse_call_arguments 1 (before ++ (printed words ++ b')' ∷ behind)) (length before) ≡ (
      map Arg.text words,
      skip is_space
          (before ++ (printed words ++ b')' ∷ behind))
          (length (before ++ (printed words ++ b')' ∷ behind)))
          (length before + length (printed words) + 1),
    )
parse_call_arguments-printed_example =
    parse_call_arguments-printed 0 before behind (codes "3") (codes "a" ∷ []) words-IsPlainArgument
      unmarked
