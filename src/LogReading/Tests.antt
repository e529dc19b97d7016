-- ===== src/LogReading/Tests.antt =====
-- Runs of the assembly of lines.
use survol.Base.{
  ◌+◌, ◌==◌, Text, codes, starts_with, ends_with, text_eq, List, [], ◌∷◌, ◌++◌, length, none, some,
  Bool, false, true, ◌≡◌, refl, arith, All,
}
use survol.Batch.{strace, new_core}
use survol.CallArguments.{find, find_in}
use survol.Symbols.{rfind_in}
use survol.Line.{init_after_pid, read_function, set_times, match_resume, up_to_space}
use survol.World.{Library, first_world}
use survol.LogReading.{
  Reader, next_line, is_log_ending, bracket_text, read_log, create_flows, parse_line,
  create_batch_core, line_pid,
}
use survol.Batch.Calls.{BatchLet, new_batch_let}
use survol.Batch.{Store}
use survol.Base.{lookup, nat_eq, if◌then◌else◌}
use survol.LogReading.{map_flows}
use survol.LogReading.Flows.{calls_of, whole_flow, lookup-map_flows}
use survol.LogReading.Assembly.{joined, next_line_lem, create_flows-ends}
use survol.Unfinished.Invariant.{IsStacked-nil}
use survol.Factory.Pairing.{IsWell, IsPairable, waits, Fits}
use survol.SystemCalls.Log.{IsOrderly, first_world-IsOrderly}
use survol.LogReading.Orderly.{IsReading, create_flows-IsOrderly}
use survol.LogReading.Pairing.{NoSanityEnd, parsed_lines, create_flows-pairs}
use survol.Line.{read_call, read_return, set_function, after_arrow}
use survol.CallArguments.{
  skip_rounds, skip, trim_end, clean, end_argument, read_char, scan_loop, last_argument,
  end_of_call, parse_call_arguments,
}
use survol.Symbols.{strip, left_strip, right_strip, is_white}

abbrev digits : Text → Bool
digits s = starts_with s (codes "0.")

abbrev broken : List Text
broken = codes "write(1, \"a\n" ∷ []

abbrev last : Text
last = codes "b\") = 4 <0.000012>\n"

broken-ending : All (λ t. is_log_ending digits t ≡ false) broken
unfolding is_log_ending ends_with starts_with
broken-ending = (refl, tt)

last-ending : is_log_ending digits last ≡ true
unfolding is_log_ending bracket_text ends_with starts_with rfind_in
last-ending = refl

next_line_lem_example :
    next_line digits [] 0 (broken ++ last ∷ [])
    ≡ record { one_line = joined broken ++ last; reads = length broken + 1; rest = [] }
next_line_lem_example = next_line_lem digits broken last [] broken-ending last-ending

abbrev library : Library
library = record { repr = λ s. s; decode = λ s. some s; scanners = []; host_by_addr = λ s. none }

abbrev reader : Reader
reader = record {
  state = record {
    store = record { next = 1; core = λ a. new_core };
    stacks = [];
    unknown_functions = [];
    world = first_world (codes "/home");
  };
  batch_core = some 0;
  last_time_stamp = none;
  num_line = 3;
}

create_flows-ends_example :
    read_log library digits 7 strace 5 reader (broken ++ last ∷ [])
    ≡ create_flows library digits 7 strace reader (broken ++ last ∷ [])
create_flows-ends_example =
    create_flows-ends digits library 7 strace 5 reader (broken ++ last ∷ []) (omega arith)

-- Calls of two processes, one behind the other.
abbrev processes : Store
processes = record { next = 3; core = λ a. record new_core { pid = if a == 1 then 8 else 7 } }

abbrev calls : List BatchLet
calls =
    new_batch_let processes 0 (codes "Orig")
    ∷ new_batch_let processes 1 (codes "Orig")
    ∷ new_batch_let processes 2 (codes "Orig")
    ∷ []

lookup-map_flows_example :
    lookup 7 (map_flows processes [] calls) ≡ whole_flow processes (calls_of processes 7 calls)
lookup-map_flows_example = lookup-map_flows processes 7 calls

-- The two halves of a call.
abbrev halves : List Text
halves =
    codes "07:54:54.206113 close(3</tmp/a> <unfinished ...>\n"
    ∷ codes "07:54:54.206200 <... close resumed> ) = 0 <0.000012>\n"
    ∷ []

abbrev start : Reader
start = record reader {
  state = record reader.state { store = record { next = 0; core = λ a. new_core } };
  batch_core = none;
}

start-IsReading : IsReading start
start-IsReading = record {
  orderly = first_world-IsOrderly (codes "/home");
  current = λ a e. cc (e);
}

create_flows-IsOrderly_example :
    IsOrderly (create_flows library digits 7 strace start halves).0.state.world
create_flows-IsOrderly_example =
    create_flows-IsOrderly library 7 strace digits start halves start-IsReading

halves-IsPairable : IsPairable false (parsed_lines digits 7 strace (length halves + 1) halves)
unfolding IsPairable parsed_lines Fits waits next_line is_log_ending bracket_text ends_with
    starts_with text_eq create_batch_core parse_line line_pid init_after_pid set_times read_function
    match_resume up_to_space read_call read_return set_function after_arrow find find_in rfind_in
    skip_rounds skip trim_end clean end_argument read_char scan_loop last_argument end_of_call
    parse_call_arguments strip left_strip right_strip is_white
halves-IsPairable = (tt, (tt, tt))

create_flows-pairs_example :
    IsWell (create_flows library digits 7 strace start halves).0.state
    × NoSanityEnd (create_flows library digits 7 strace start halves).1.1
create_flows-pairs_example =
    create_flows-pairs library 7 strace digits start halves start-IsReading
      (IsStacked-nil start.state.store) refl halves-IsPairable
