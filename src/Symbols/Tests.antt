-- ===== src/Symbols/Tests.antt =====
-- Runs of the parser of demangled symbols.
use survol.Base.{
  ℕ, ◌==◌, Text, codes, List, [], ◌∷◌, ◌++◌, Option, some, false, ◌≡◌, ◌≢◌, refl, arith, All,
}
use survol.Batch.Calls.{join}
use survol.CallArguments.{find}
use survol.Symbols.{
  top_level_split, find_arguments_start, find_closing_delimiter, level_by_text, is_zero, strip,
  sym_to_args,
}
use survol.Symbols.Splitting.{IsPart, top_level_split-join}
use survol.Symbols.Demangled.{IsPlain, find_arguments_start-first, sym_to_args-printed}

abbrev arguments : List Text
arguments = codes "m<a,b>" ∷ codes "int" ∷ []

arguments-IsPart : All (IsPart b',' (codes "<") (codes ">")) arguments
unfolding level_by_text is_zero
arguments-IsPart = (
  ((λ e. cc (e)), (refl, (refl, (refl, (refl, (refl, (refl, refl))))))),
  (((λ e. cc (e)), (refl, (refl, (refl, refl)))), tt),
)

arguments-stripped : All (λ a. strip a ≡ a) arguments
unfolding strip
arguments-stripped = (refl, (refl, tt))

other : (c d : ℕ) → (c == d) ≡ false → c ≢ d
other c d e = ground arith

IsPlain-letter : (c : ℕ) → (c == b'(') ≡ false → (c == b')') ≡ false → IsPlain c
IsPlain-letter c e f = (other c b'(' e, other c b')' f)

top_level_split-join_example :
    top_level_split (join (codes ",") arguments) (codes ",") (codes "<") (codes ">") ≡ arguments
top_level_split-join_example =
    top_level_split-join b',' (codes "<") (codes ">") (codes "m<a,b>") (codes "int" ∷ [])
      arguments-IsPart

find_arguments_start-first_example :
    ((from : Option ℕ) → find_closing_delimiter (codes "f(int)(x)") from b'(' b')' ≡ some 0)
    × (find_arguments_start (codes "f(int)(x)") ≡ find (codes "f(int)(x)") (codes "(") 0)
find_arguments_start-first_example =
    find_arguments_start-first b'f' (codes "(int)(x)") (IsPlain-letter b'f' refl refl)

sym_to_args-printed_example :
    sym_to_args (codes "f" ++ b'(' ∷ (join (codes ",") arguments ++ b')' ∷ codes " c"))
    ≡ (codes "f", some arguments)
sym_to_args-printed_example =
    sym_to_args-printed b'f' [] (codes "m<a,b>") (codes "int" ∷ []) (codes " c")
      (IsPlain-letter b'f' refl refl, tt) arguments-IsPart arguments-stripped
      (IsPlain-letter b' ' refl refl, (IsPlain-letter b'c' refl refl, tt))
