-- ===== src/Line.antt =====
-- survol/scripts/dockit.py: `BatchLetCore.InitAfterPid`, which reads a line of strace or ltrace behind
-- the process id, and `SetFunction`. What is printed is left out.
pub mod Places
pub mod Call
pub mod Whole
mod Tests
use survol.Base.{
  ℕ, zero, suc, ◌+◌, ◌-◌, ◌==◌, Text, codes, text_eq, starts_with, ends_with, List, [], ◌∷◌, ◌++◌,
  Option, none, some, Bool, true, false, ◌&&◌, ◌||◌, not, if◌then◌else◌, length, take, drop, slice,
}
use survol.Batch.{
  BatchLetCore, BatchStatus, Tracer, strace, ltrace, other, shown, status_eq, plain, unfinished,
  resumed,
}
use survol.Batch.Failure.{
  Result, ok, raised, ◌>>=◌, attribute_error, is_exit, is_signal, no_function, no_equal,
}
use survol.CallArguments.{find, parse_call_arguments}
use survol.Symbols.{rfind_in, strip}

-- `i`, or -1 as the end of a slice.
abbrev pub or_end : Option ℕ → Text → ℕ
or_end none s = length s - 1
or_end (some i) s = i

-- `funcFull.split("->")[-1]`, if there is an arrow.
unfoldable pub after_arrow : Text → Option Text
after_arrow [] = none
after_arrow (c ∷ s) = elim (after_arrow s) [
  | some t ↦ some t
  | none ↦ if starts_with (c ∷ s) (codes "->") then some (drop 1 s) else none
]

-- `SetFunction`. Its own message for another tracer reads a field that does not exist.
unfoldable pub set_function : Tracer → BatchStatus → Text → Result Text
set_function strace status func = ok (func ++ codes "@SYS")
set_function ltrace status func =
    let name : Text = elim (after_arrow func) [ none ↦ func | some t ↦ t ] in
    ok (if status_eq status resumed then name ++ codes "@SYS" else name)
set_function (other t) status func = raised attribute_error

-- The characters before the first space.
unfoldable pub up_to_space : Text → Text
up_to_space [] = []
up_to_space (c ∷ s) = let rest = up_to_space s in if c == b' ' then [] else c ∷ rest

-- `re.match( "<\.\.\. ([^ ]*) resumed> (.*)", theCall )`: the first group, and the start of the second.
unfoldable pub match_resume : Text → Option (Text × ℕ)
match_resume s =
    let name = up_to_space (drop 5 s) in
    if starts_with s (codes "<... ") && starts_with (drop (5 + length name) s) (codes " resumed> ")
    then some (name, 5 + length name + 10)
    else none

-- The return value, behind the equal sign that follows the arguments.
unfoldable pub read_return : Tracer → Text → ℕ → Option ℕ → Result Text
read_return tracer call last lt = elim (find call (codes "=") last) [
  | some eq ↦ ok (strip (slice call (eq + 1) (or_end lt call)))
  | none ↦
      let whole : Result Text = ok (strip (take (or_end lt call) call)) in
      if ends_with call (codes "<no return ...>" ++ 10 ∷ [])
        || ends_with call (codes "<detached ...>")
      then whole
      else elim tracer [ ltrace ↦ whole | strace ↦ raised no_equal | other t ↦ raised no_equal ]
]

-- From the parenthesis, or the space, at `par` on. A list is nested no deeper than the text is long.
unfoldable pub read_call : BatchLetCore → Text → ℕ → Option ℕ → Result BatchLetCore
read_call c call par lt =
    let (args, last) = parse_call_arguments (suc (length call)) call (par + 1) in
    if status_eq c.status unfinished
    then ok (record c { parsed_args = args; ret_value = none })
    else ((read_return c.tracer call last lt) >>= λ v.
        ok (record c { parsed_args = args; ret_value = some v }))

-- `SetDefaultOnError`
unfoldable pub set_default_on_error : BatchLetCore → Result BatchLetCore
set_default_on_error c = (set_function c.tracer c.status []) >>= λ f.
    ok (record c { func_nam = f; parsed_args = []; ret_value = none })

-- A line with no function: what a leaving process and the known faults of ltrace print.
unfoldable pub without_function : BatchLetCore → Text → Result BatchLetCore
without_function c line = elim c.tracer [
  | ltrace ↦
      if starts_with line (codes "error:") then set_default_on_error c else raised no_function
  | strace ↦ elim (find line (codes "<... exit resumed>) = ?") 0) [
    | some i ↦ set_default_on_error c
    | none ↦ elim (find line (codes "<... exit_group resumed>) = ?") 0) [
      | some i ↦ set_default_on_error c
      | none ↦ raised no_function
    ]
  ]
  | other t ↦ raised no_function
]

-- The function and the rest of the call, once the status is known.
unfoldable pub read_function : BatchLetCore → Text → Text → Option ℕ → Result BatchLetCore
read_function c line call lt = elim (match_resume call) [
  | some (name, start) ↦ (set_function c.tracer resumed name) >>= λ f.
      read_call (record c { status = resumed; func_nam = f }) call (start - 1) lt
  | none ↦ elim (find call (codes "(") 0) [
    | none ↦ without_function c line
    | some zero ↦ without_function c line
    | some (suc p) ↦ (set_function c.tracer c.status (take (suc p) call)) >>= λ f.
        read_call (record c { func_nam = f }) call (suc p) lt
  ]
]

-- The text between the last angle brackets: the execution time, or the mark of an unfinished call.
unfoldable pub set_times : BatchLetCore → Text → Text → Option ℕ → ℕ → BatchLetCore
set_times c stamp call none limit = record c {
  time_start = stamp;
  time_end = stamp;
  status = plain;
  exec_tim = shown [];
}
set_times c stamp call (some lt) limit =
    let time = slice call (lt + 1) limit in
    let is_unfinished = text_eq time (codes "unfinished ...") in
    record c {
      time_start = stamp;
      time_end = stamp;
      status = if is_unfinished then unfinished else plain;
      exec_tim = if is_unfinished then shown [] else shown time;
    }

-- `InitAfterPid(oneLine, idxStart)`
unfoldable pub init_after_pid : BatchLetCore → Text → ℕ → Result BatchLetCore
init_after_pid c line start =
    let stamp = slice line start (start + 15) in
    let call = drop (start + 16) line in
    let limit = or_end (rfind_in b'>' call 0) call in
    let lt = rfind_in b'<' (take limit call) 0 in
    if starts_with call (codes "--- ")
    then raised is_exit
    else if starts_with call (codes "+++ ")
    then raised is_signal
    else read_function (set_times c stamp call lt limit) line call lt
