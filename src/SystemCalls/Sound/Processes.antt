-- ===== src/SystemCalls/Sound/Processes.antt =====
-- The constructors of the calls on processes keep the invariant of the globals, for the process that
-- makes the call.
use survol.Base.{Text, Option, none, some, ℤ, refl, text_eq_instance}
use survol.Batch.{BatchLetCore}
use survol.Batch.Values.{Arg}
use survol.World.{Library}
use survol.World.Actions.{modify}
use survol.World.Keeps.{Keeps}
use survol.World.Sound.{IsSound, elsewhere, add_parent_process-IsSound, wait_process_end-IsSound}
use survol.SystemCalls.{process_of}
use survol.SystemCalls.Sound.Streams.{stream_rules}
use survol.SystemCalls.Processes.{
  child_call, clone_call, execute, execve_call, execve_valid, getenv_call, libc_start_main_call,
  or_wait, set_variable, vfork_call, wait4_call, wait_end,
}

module _ {q : ℤ} where
  set_variable-IsSound :
      (name : Text) (value : Option Text) → Keeps (IsSound q) (modify (set_variable name value))
  unfolding set_variable
  set_variable-IsSound name value =
      elsewhere q (set_variable name value) (λ w. refl)
        (λ w. record { same_accesses = refl; same_cache = refl })

pub child_call-IsSound :
    (c : BatchLetCore) (pid : ℤ) → Keeps (IsSound (process_of c)) (child_call c pid)
unfolding child_call
child_call-IsSound c pid = search (stream_rules, add_parent_process-IsSound) depth 12

pub clone_call-IsSound : (c : BatchLetCore) → Keeps (IsSound (process_of c)) (clone_call c)
unfolding clone_call
clone_call-IsSound c = search (stream_rules, child_call-IsSound) depth 12

pub vfork_call-IsSound : (c : BatchLetCore) → Keeps (IsSound (process_of c)) (vfork_call c)
unfolding vfork_call
vfork_call-IsSound c = search (stream_rules, child_call-IsSound) depth 12

pub wait_end-IsSound :
    (c : BatchLetCore) (pid : ℤ) → Keeps (IsSound (process_of c)) (wait_end c pid)
unfolding wait_end
wait_end-IsSound c pid = search (stream_rules, wait_process_end-IsSound) depth 12

or_wait-IsSound :
    (c : BatchLetCore) (pid : Option ℤ) → Keeps (IsSound (process_of c)) (or_wait c pid)
unfolding or_wait
or_wait-IsSound c none = search stream_rules
or_wait-IsSound c (some pid) = search (stream_rules, wait_end-IsSound)

pub wait4_call-IsSound : (c : BatchLetCore) → Keeps (IsSound (process_of c)) (wait4_call c)
unfolding wait4_call
wait4_call-IsSound c = search (stream_rules, or_wait-IsSound) depth 12

pub getenv_call-IsSound : (c : BatchLetCore) → Keeps (IsSound (process_of c)) (getenv_call c)
unfolding getenv_call
getenv_call-IsSound c = search (stream_rules, set_variable-IsSound) depth 12

module _ (lib : Library) where
  pub execute-IsSound :
      (c : BatchLetCore) (file : Text) (command : Arg)
      → Keeps (IsSound (process_of c)) (execute lib c file command)
  unfolding execute
  execute-IsSound c file command = search (stream_rules) depth 12

  pub execve_valid-IsSound :
      (c : BatchLetCore) → Keeps (IsSound (process_of c)) (execve_valid lib c)
  unfolding execve_valid
  execve_valid-IsSound c = search (stream_rules, execute-IsSound) depth 12

  pub execve_call-IsSound : (c : BatchLetCore) → Keeps (IsSound (process_of c)) (execve_call lib c)
  unfolding execve_call
  execve_call-IsSound c = search (stream_rules, execve_valid-IsSound) depth 12

  pub libc_start_main_call-IsSound :
      (c : BatchLetCore) → Keeps (IsSound (process_of c)) (libc_start_main_call lib c)
  unfolding libc_start_main_call
  libc_start_main_call-IsSound c = search (stream_rules, execute-IsSound) depth 12
