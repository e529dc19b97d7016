-- ===== src/SystemCalls/Processes.antt =====
-- survol/scripts/dockit.py: the classes for calls on processes, and those of library functions.
use survol.Base.{
  Text, codes, text_eq, [], ◌∷◌, Option, none, some, Bool, true, if◌then◌else◌, ℤ, pos, int_beq,
  insert, text_eq_instance,
}
use survol.Batch.{BatchLetCore, Tracer, strace, ltrace, other}
use survol.Batch.Values.{Arg, nil, cons, text, list, object, none_value}
use survol.Batch.Failure.{Result, ok, raised, type_error, attribute_error, index_error, name_error}
use survol.Symbols.{strip}
use survol.World.{World, Library}
use survol.World.Actions.{Action, done, pure, lift, modify, ◌>>=◌, ◌>>◌}
use survol.World.Numbers.{parse_int, parse_int_or_none}
use survol.World.Paths.{split, has_text}
use survol.World.Objects.{
  to_process, set_thread, add_parent_process, wait_process_end, set_executable, set_is_executed,
  set_command_line,
}
use survol.World.Accesses.{is_value_error}
use survol.SystemCalls.{
  Made, made, dropped, file_arg, process_arg, parsed_arg, ret_has, object_process, process_of,
  accessed_file,
}

-- The created process gets its parent.
unfoldable pub child_call : BatchLetCore → ℤ → Action Made
child_call c pid = do
  object_process c
  add_parent_process pid c.time_start (process_of c)
  pure (made (process_arg pid ∷ []))

-- `flagsClone.find("CLONE_VM") >= 0`
unfoldable pub is_thread_flags : Arg → Result Bool
is_thread_flags (text s) = ok (has_text (strip s) (codes "CLONE_VM"))
is_thread_flags (list l) = raised attribute_error
is_thread_flags (object m) = raised attribute_error
is_thread_flags none_value = raised attribute_error

unfoldable pub flags_of : Result Arg → Result Bool
flags_of (ok a) = is_thread_flags a
flags_of (raised e) = raised e

-- The pid that is returned, in the notation of the tracer; the message for another tracer names a
-- variable that does not exist.
unfoldable pub returned_pid : Tracer → Option Text → Result ℤ
returned_pid ltrace ret = parse_int_or_none 16 ret
returned_pid strace ret = parse_int_or_none 10 ret
returned_pid (other t) ret = raised name_error

unfoldable pub is_thread_call : Tracer → BatchLetCore → Result Bool
is_thread_call ltrace c = ok true
is_thread_call strace c = flags_of (parsed_arg c 1)
is_thread_call (other t) c = raised name_error

-- `BatchLetSys_clone`
unfoldable pub clone_call : BatchLetCore → Action Made
clone_call c = do
  pid ← lift (returned_pid c.tracer c.ret_value)
  thread ← lift (is_thread_call c.tracer c)
  to_process pid
  if thread then set_thread pid else pure done
  child_call c pid

-- `BatchLetSys_vfork`
unfoldable pub vfork_call : BatchLetCore → Action Made
vfork_call c = do pid ← lift (returned_pid c.tracer c.ret_value); to_process pid; child_call c pid

-- `BatchLetSys_exit_group` is in the table. `BatchLetSys_wait4`: the pid that ended, if it is known.
unfoldable pub pid_or_none : Result ℤ → Result (Option ℤ)
pid_or_none (ok pid) = ok (some pid)
pid_or_none (raised e) = if is_value_error e then ok none else raised e

unfoldable pub first_word : Text → Text
first_word s = elim (split b' ' s) [ [] ↦ [] | t ∷ ts ↦ t ]

unfoldable pub some_pid : Result ℤ → Result (Option ℤ)
some_pid (ok pid) = ok (some pid)
some_pid (raised e) = raised e

unfoldable pub waited_pid : Tracer → Option Text → Result (Option ℤ)
waited_pid ltrace none = raised attribute_error
waited_pid ltrace (some s) = if has_text s (codes "-10") then ok none else some_pid (parse_int 16 s)
waited_pid strace none = raised attribute_error
waited_pid strace (some s) =
    if has_text s (codes "ECHILD") then ok none else pid_or_none (parse_int 10 (first_word s))
waited_pid (other t) ret = raised name_error

unfoldable pub wait_end : BatchLetCore → ℤ → Action Made
wait_end c pid = do
  to_process pid
  object_process c
  wait_process_end pid c.time_start (process_of c)
  pure (made (process_arg pid ∷ []))

-- `if aPid`: without a process, the arguments are left as they are.
unfoldable pub or_wait : BatchLetCore → Option ℤ → Action Made
or_wait c none = pure (made c.parsed_args)
or_wait c (some pid) = if int_beq pid (pos 0) then pure (made c.parsed_args) else wait_end c pid

unfoldable pub wait4_call : BatchLetCore → Action Made
wait4_call c = do pid ← lift (waited_pid c.tracer c.ret_value); or_wait c pid

-- `commandLine[0]`
unfoldable pub first_item : Arg → Result Arg
first_item (text []) = raised index_error
first_item (text (x ∷ s)) = ok (text (x ∷ []))
first_item (list nil) = raised index_error
first_item (list (cons a l)) = ok a
first_item (object m) = raised type_error
first_item none_value = raised type_error

unfoldable pub command_line : Tracer → BatchLetCore → Result Arg
command_line ltrace c = ok none_value
command_line strace c = parsed_arg c 1
command_line (other t) c = raised name_error

module _ (lib : Library) where
  -- The process runs a file from now on.
  unfoldable pub execute : BatchLetCore → Text → Arg → Action Made
  execute c file command = do
    p ← object_process c
    set_executable p file
    set_command_line lib p command
    set_is_executed file
    pure (made (file_arg file ∷ command ∷ []))

  unfoldable pub execve_valid : BatchLetCore → Action Made
  execve_valid c = do
    path_name ← lift (parsed_arg c 0)
    file ← accessed_file lib c path_name
    command ← lift (command_line c.tracer c)
    execute c file command

  -- `BatchLetSys_execve`
  unfoldable pub execve_call : BatchLetCore → Action Made
  execve_call c = do
    missing ← lift (ret_has c (codes "ENOENT"))
    if missing then pure dropped else execve_valid c

  -- `BatchLetLib___libc_start_main`
  unfoldable pub libc_start_main_call : BatchLetCore → Action Made
  libc_start_main_call c = do
    command ← lift (parsed_arg c 0)
    name ← lift (first_item command)
    file ← accessed_file lib c name
    execute c file command

-- `BatchLetLib_getenv`, whose object is never initialised.
unfoldable pub key_of : Arg → Result Text
key_of (text s) = ok s
key_of (list l) = raised type_error
key_of (object m) = ok m
key_of none_value = raised type_error

unfoldable pub read_variable : Option Text → Option Text
read_variable none = none
read_variable (some s) = if text_eq s (codes "nil") then some [] else some s

unfoldable pub set_variable : Text → Option Text → World → World
set_variable name value w = record w { environment = insert name value w.environment }

unfoldable pub getenv_call : BatchLetCore → Action Made
getenv_call c = do
  arg ← lift (parsed_arg c 0)
  name ← lift (key_of arg)
  modify (set_variable name (read_variable c.ret_value))
  pure dropped
