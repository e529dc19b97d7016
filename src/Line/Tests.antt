-- ===== src/Line/Tests.antt =====
-- Runs of the parser of lines.
use survol.Base.{
  text_eq, Text, codes, starts_with, [], ◌∷◌, ◌++◌, map, none, some, false, ◌≡◌, ◌≢◌, refl, arith,
  All,
}
use survol.Batch.{BatchLetCore, new_core, strace, shown, plain}
use survol.Batch.Calls.{join}
use survol.Batch.Values.{Arg}
use survol.Batch.Failure.{ok}
use survol.CallArguments.{find}
use survol.CallArguments.Plain
use survol.CallArguments.Separators.{IsPlainArgument}
use survol.Symbols.{strip}
use survol.Symbols.Demangled.{IsPlain}
use survol.Line.{init_after_pid}
use survol.Line.Call.{behind_name}
use survol.Line.Whole.{init_after_pid-whole}

abbrev stamp : Text
stamp = codes "07:54:54.206113"

abbrev time : Text
time = codes "0.1"

abbrev core : BatchLetCore
core = record new_core { tracer = strace }

IsPlain-digit : Plain.IsPlain b'3'
IsPlain-digit = ground arith

IsPlain-letter : All IsPlain (codes "dup")
IsPlain-letter = ground arith

one_argument : All IsPlainArgument (codes "3" ∷ [])
one_argument = (((λ e. cc (e)), (IsPlain-digit, tt)), tt)

no_bracket : All (λ d. d ≢ b'<') time
no_bracket = ground arith

unmarked :
    find (codes "dup" ++ behind_name (codes "3") [] (codes "4") time) (codes "<unfinished ...>") 4
    ≡ none
unfolding find starts_with join
unmarked = refl

real : text_eq time (codes "unfinished ...") ≡ false
unfolding text_eq
real = refl

init_after_pid-whole_example :
    init_after_pid core
      (codes "[pid 7] "
        ++ (stamp ++ b' ' ∷ (codes "dup" ++ behind_name (codes "3") [] (codes "4") time)))
      8
    ≡ ok (record core {
      func_nam = codes "dup" ++ codes "@SYS";
      status = plain;
      parsed_args = map Arg.text (codes "3" ∷ []);
      ret_value = some (strip (codes "4"));
      time_start = stamp;
      time_end = stamp;
      exec_tim = shown time;
    })
init_after_pid-whole_example =
    init_after_pid-whole core (codes "[pid 7] ") stamp b'd' (codes "up") (codes "3") [] (codes "4")
      time refl refl (ground arith) IsPlain-letter one_argument no_bracket real unmarked
