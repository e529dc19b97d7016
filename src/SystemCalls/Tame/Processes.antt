-- ===== src/SystemCalls/Tame/Processes.antt =====
-- The constructors of the calls on processes raise none of the exceptions of `MergePopBatch`.
use survol.Base.{Text, Option, none, some, ℤ, text_eq_instance}
use survol.Batch.{BatchLetCore}
use survol.Batch.Values.{Arg}
use survol.World.{Library}
use survol.SystemCalls.Tame.Results.{
  ret_has-Harmless, returned_pid-Harmless, is_thread_call-Harmless, waited_pid-Harmless,
  first_item-Harmless, command_line-Harmless, key_of-Harmless,
}
use survol.SystemCalls.Tame.Actions.{Tame}
use survol.SystemCalls.Tame.Streams.{call_rules}
use survol.SystemCalls.Processes.{
  child_call, clone_call, execute, execve_call, execve_valid, getenv_call, libc_start_main_call,
  or_wait, vfork_call, wait4_call, wait_end,
}

pub child_call-Tame : (c : BatchLetCore) (pid : ℤ) → Tame (child_call c pid)
unfolding child_call
child_call-Tame c pid = search (call_rules) depth 12

pub clone_call-Tame : (c : BatchLetCore) → Tame (clone_call c)
unfolding clone_call
clone_call-Tame c =
    search (call_rules, returned_pid-Harmless, is_thread_call-Harmless, child_call-Tame) depth 12

pub vfork_call-Tame : (c : BatchLetCore) → Tame (vfork_call c)
unfolding vfork_call
vfork_call-Tame c = search (call_rules, returned_pid-Harmless, child_call-Tame) depth 12

pub wait_end-Tame : (c : BatchLetCore) (pid : ℤ) → Tame (wait_end c pid)
unfolding wait_end
wait_end-Tame c pid = search (call_rules) depth 12

or_wait-Tame : (c : BatchLetCore) (pid : Option ℤ) → Tame (or_wait c pid)
unfolding or_wait
or_wait-Tame c none = search call_rules
or_wait-Tame c (some pid) = search (call_rules, wait_end-Tame)

pub wait4_call-Tame : (c : BatchLetCore) → Tame (wait4_call c)
unfolding wait4_call
wait4_call-Tame c = search (call_rules, waited_pid-Harmless, or_wait-Tame) depth 12

pub getenv_call-Tame : (c : BatchLetCore) → Tame (getenv_call c)
unfolding getenv_call
getenv_call-Tame c = search (call_rules, key_of-Harmless) depth 12

module _ (lib : Library) where
  pub execute-Tame :
      (c : BatchLetCore) (file : Text) (command : Arg) → Tame (execute lib c file command)
  unfolding execute
  execute-Tame c file command = search (call_rules) depth 12

  pub execve_valid-Tame : (c : BatchLetCore) → Tame (execve_valid lib c)
  unfolding execve_valid
  execve_valid-Tame c = search (call_rules, command_line-Harmless, execute-Tame) depth 12

  pub execve_call-Tame : (c : BatchLetCore) → Tame (execve_call lib c)
  unfolding execve_call
  execve_call-Tame c = search (call_rules, ret_has-Harmless, execve_valid-Tame) depth 12

  pub libc_start_main_call-Tame : (c : BatchLetCore) → Tame (libc_start_main_call lib c)
  unfolding libc_start_main_call
  libc_start_main_call-Tame c = search (call_rules, first_item-Harmless, execute-Tame) depth 12
