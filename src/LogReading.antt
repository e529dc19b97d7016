-- ===== src/LogReading.antt =====
-- survol/scripts/dockit.py: `CreateFlowsFromGenericLinuxLog`, which puts the lines of a log together,
-- parses them and makes the calls, and `CreateMapFlowFromStream`, which sends each call to the flow of
-- its process. What it prints is left out, and so are interrupts from the keyboard.
pub mod Assembly
pub mod Flows
pub mod Orderly
pub mod Pairing
mod Tests
use survol.Base.{
  ℕ, zero, suc, ◌+◌, ◌-◌, ◌==◌, Text, codes, text_eq, starts_with, ends_with, List, [], ◌∷◌, ◌++◌,
  Option, none, some, Bool, true, false, ◌&&◌, ◌||◌, if◌then◌else◌, length, slice, drop_last, ℤ,
  pos, negsuc, Dict, nat_eq, lookup, insert,
}
use survol.Batch.{BatchLetCore, Tracer, Store, new_core, alloc}
use survol.Batch.Calls.{BatchLet}
use survol.Batch.Failure.{
  Failure, Result, ok, raised, ◌>>=◌, value_error, is_exit, is_signal, invalid_command,
  invalid_process,
}
use survol.CallArguments.{find}
use survol.Factory.{
  Parsed, parsed, no_core, unchanged, State, Outcome, batch, nothing, failed, batch_let_factory,
}
use survol.Flow.{Coroutine, send_batch}
use survol.Line.{init_after_pid}
use survol.Symbols.{rfind_in}
use survol.World.{World, Library}
use survol.World.Actions.{Done, done}
use survol.World.Numbers.{parse_int}
use survol.World.Objects.Tops.{global_termination_date}
use survol.World.Paths.{has_text}
use survol.SystemCalls.Log.{enter_process}
use survol.SystemCalls.Table.{batch_models}

-- The text between the last "<" and the end of a line that ends with ">".
unfoldable pub bracket_text : Text → Option Text
bracket_text line = elim (rfind_in b'<' line 0) [
  | none ↦ none
  | some i ↦ some (slice line (i + 1) (length line - 2))
]

-- `IsLogEnding`, with the texts that Python's `float` reads.
unfoldable pub is_log_ending : (Text → Bool) → Text → Bool
unfolding bracket_text
is_log_ending is_float line =
    if ends_with line (codes ">\n")
    then elim (bracket_text line) [
      | none ↦ false
      | some s ↦
          is_float s || text_eq s (codes "unfinished ...") || text_eq s (codes "no return ...")
    ]
    else (starts_with line (codes "[pid ") && ends_with line (codes " = ?\n"))
      || ends_with line (codes " ---\n")

-- A line that is put together, how often `readline` was called for it, and the rest of the stream.
pub record Assembled : Type 0 where
  pub one_line : Text
  pub reads : ℕ
  pub rest : List Text

-- The inner loop. A line of the stream ends with a line end, which goes when the call goes on behind it.
unfoldable pub next_line : (Text → Bool) → Text → ℕ → List Text → Assembled
next_line is_float one_line reads [] = record { one_line = one_line; reads = reads + 1; rest = [] }
next_line is_float one_line reads (t ∷ ts) =
    let behind = next_line is_float (one_line ++ drop_last t) (reads + 1) ts in
    let ended : Assembled = record { one_line = one_line ++ t; reads = reads + 1; rest = ts } in
    if is_log_ending is_float t then ended else behind

-- The pid of a line, and where the call begins. Pids are not negative here; no tracer prints such a one.
unfoldable pub natural_pid : Result ℤ → Result ℕ
natural_pid (ok (pos n)) = ok n
natural_pid (ok (negsuc n)) = raised value_error
natural_pid (raised e) = raised e

unfoldable pub line_pid : ℕ → Text → Result (ℕ × ℕ)
line_pid top line =
    let close : Option ℕ = find line (codes "]") 0 in
    let last : ℕ = elim close [ none ↦ length line - 1 | some i ↦ i ] in
    let start : ℕ = elim close [ none ↦ 1 | some i ↦ i + 2 ] in
    if starts_with line (codes "[pid")
    then (natural_pid (parse_int 10 (slice line 4 last)) >>= λ pid. ok (pid, start))
    else ok (top, 0)

-- `ParseLine` up to the process of the line. `top` is `G_topProcessId`.
unfoldable pub parse_line : ℕ → Tracer → Text → Result BatchLetCore
parse_line top tracer line = line_pid top line >>= λ place.
    init_after_pid (record new_core { tracer = tracer; pid = place.0 }) line place.1

unfoldable pub create_batch_core : Result BatchLetCore → Parsed
create_batch_core (ok c) = parsed c
create_batch_core (raised is_exit) = no_core
create_batch_core (raised is_signal) = no_core
create_batch_core (raised e) = unchanged

-- The generator: the globals, `batchCore`, `lastTimeStamp` and `numLine`.
pub record Reader : Type 0 where
  pub state : State World
  pub batch_core : Option ℕ
  pub last_time_stamp : Option Text
  pub num_line : ℕ

-- The batches that are yielded, and the exception that ends the generator, if there is one.
abbrev pub Yielded : Type 0
Yielded = List BatchLet × Option Failure

-- The exception on the second line of the stream, if the command or the process does not exist.
unfoldable pub command_error : ℕ → Text → Option Failure
command_error num_line one_line =
    if num_line == 2
    then if has_text one_line (codes "No such file or directory")
      then some invalid_command
      else if has_text one_line (codes "No such process")
      then some invalid_process
      else none
    else none

module _ (lib : Library) where
  -- `BatchLetFactory` on `batchCore`.
  unfoldable pub make_batch : Reader → ℕ → Reader × Outcome
  make_batch r a =
      let (s, o) = batch_let_factory (batch_models lib) r.state a in
      (
        record r {
          state = s;
          batch_core = some a;
          last_time_stamp = some (r.state.store.core a).time_end;
        },
        o,
      )

  -- The end of `ParseLine` and the core as an object. The test tells if an exception was caught, which
  -- leaves `batchCore` as it is.
  unfoldable pub enter_line : Reader → BatchLetCore → World × Result Done → Reader × Bool
  enter_line r c (w, ok d) = (
    record r {
      state = record r.state { world = w; store = alloc r.state.store c };
      batch_core = some r.state.store.next;
    },
    false,
  )
  enter_line r c (w, raised e) = (record r { state = record r.state { world = w } }, true)

  unfoldable pub read_core : Reader → Parsed → Reader × Bool
  read_core r (parsed c) = enter_line r c (enter_process c r.state.world)
  read_core r no_core = (record r { batch_core = none }, false)
  read_core r unchanged = (r, true)

  -- `if batchCore`
  unfoldable pub or_make_batch : Reader → Option ℕ → Reader × Outcome
  or_make_batch r none = (r, nothing)
  or_make_batch r (some a) = make_batch r a

  -- What one line of a log adds to the calls: an object, nothing, or the exception that ends it all.
  unfoldable pub read_call_of_line : ℕ → Tracer → Reader → Text → Reader × Outcome
  read_call_of_line top tracer r one_line =
      let (r', caught) = read_core r (create_batch_core (parse_line top tracer one_line)) in
      let error : Option Failure = if caught then command_error r.num_line one_line else none in
      elim error [ some e ↦ (r', failed e) | none ↦ or_make_batch r' r'.batch_core ]

  -- The end of the log: the processes that still run end with the last call.
  unfoldable pub end_log : Reader → Reader
  end_log r = elim r.last_time_stamp [
    | none ↦ r
    | some t ↦
        if text_eq t []
        then r
        else record r { state = record r.state { world = global_termination_date t r.state.world } }
  ]

  -- A call is yielded, or the exception ends the generator.
  unfoldable pub yield_outcome : Reader → Outcome → Reader × Yielded → Reader × Yielded
  yield_outcome r (batch b) (r', y) = (r', (b ∷ y.0, y.1))
  yield_outcome r nothing (r', y) = (r', y)
  yield_outcome r (failed e) (r', y) = (r, ([], some e))

  -- The outer loop, for `fuel` rounds.
  unfoldable pub read_log : (Text → Bool) → ℕ → Tracer → ℕ → Reader → List Text → Reader × Yielded
  read_log is_float top tracer zero r lines = (r, ([], none))
  read_log is_float top tracer (suc fuel) r lines =
      let line = next_line is_float [] 0 lines in
      let r1 = record r { num_line = r.num_line + line.reads } in
      let (r2, o) = read_call_of_line top tracer r1 line.one_line in
      let behind = read_log is_float top tracer fuel r2 line.rest in
      if text_eq line.one_line [] then (end_log r1, ([], none)) else yield_outcome r2 o behind

  -- `CreateFlowsFromGenericLinuxLog`: each round but the last one takes a line of the stream.
  unfoldable pub create_flows : (Text → Bool) → ℕ → Tracer → Reader → List Text → Reader × Yielded
  create_flows is_float top tracer r lines = read_log is_float top tracer (length lines + 1) r lines

-- `mapFlows`, with `SendBatch` for each call. It reads the names of the functions in the store, which
-- never change.
unfoldable pub send_to_flow : Store → Dict ℕ Coroutine → BatchLet → Dict ℕ Coroutine
send_to_flow h flows b =
    let pid = (h.core b.core).pid in
    let flow : Coroutine = elim (lookup pid flows) [
      | none ↦ record { batches = []; last = none }
      | some f ↦ f
    ] in
    insert pid (send_batch h flow b) flows

unfoldable pub map_flows : Store → Dict ℕ Coroutine → List BatchLet → Dict ℕ Coroutine
map_flows h flows [] = flows
map_flows h flows (b ∷ bs) = map_flows h (send_to_flow h flows b) bs
