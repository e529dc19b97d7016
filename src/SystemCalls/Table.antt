-- ===== src/SystemCalls/Table.antt =====
-- survol/scripts/dockit.py: `G_batchModels`, the classes by the names of their functions, as the
-- metaclass `BatchMeta` registers them, and the functions that are ignored.
use survol.Base.{Text, codes, List, [], ◌∷◌, ◌++◌, map, Option, none, some, true, false}
use survol.Batch.{BatchLetCore}
use survol.Batch.Calls.{SameCallKind, by_arguments, never}
use survol.Batch.Failure.{Result, ok, raised}
use survol.Factory.{Construct, object, incomplete, raises, Model, Models}
use survol.World.{World, Library}
use survol.World.Actions.{Action}
use survol.SystemCalls.{Made, made, dropped}
use survol.SystemCalls.Files.{
  open_call, openat_call, close_call, read_call, preadx_call, pread64x_call, write_call,
  writev_call, ioctl_call, stat_call, access_call, dup_call, mmap_call, mmap2_call, fstat_call,
  fchdir_call, newfstatat_call,
}
use survol.SystemCalls.Alike.{
  dup2_call, fstat64_call, fstatfs_call, fadvise64_call, fcntl_call, fcntl64_call, fchown_call,
  ftruncate_call, fsync_call, fchmod_call, getdents_call, getdents64_call, sendmsg_call,
  sendmmsg_call, recvmsg_call, recvfrom_call, getsockname_call, getpeername_call, sendto_call,
  shutdown_call, lstat_call, bind_call, pipe2_call, munmap_call, exit_group_call,
}
use survol.SystemCalls.Processes.{
  clone_call, vfork_call, execve_call, libc_start_main_call, wait4_call, getenv_call,
}
use survol.SystemCalls.Sockets.{
  poll_call, select_call, setsockopt_call, socket_call, connect_call, pipe_call,
}

-- The object that the constructor leaves. `never` is the `SameCall` of the classes that create or set
-- up a process.
unfoldable pub to_construct : SameCallKind → World × Result Made → World × Construct
to_construct kind (w, ok (made args)) = (w, object args kind)
to_construct kind (w, ok dropped) = (w, incomplete)
to_construct kind (w, raised e) = (w, raises e)

abbrev pub call_model : SameCallKind → (BatchLetCore → Action Made) → Model World
call_model kind call = record {
  unfinished_is_ok = false;
  resumed_without_unfinished_is_ok = false;
  construct = λ w c. to_construct kind (call c w);
}

-- A class `BatchLetSys_<name>`
abbrev pub sys : Text → Model World → Text × Option (Model World)
sys name model = (name ++ codes "@SYS", some model)

-- `G_ignoredSyscalls`
abbrev pub ignored_syscalls : List Text
ignored_syscalls =
    codes "arch_prctl"
    ∷ codes "brk"
    ∷ codes "futex"
    ∷ codes "clock_getres"
    ∷ codes "clock_gettime"
    ∷ codes "getegid"
    ∷ codes "geteuid"
    ∷ codes "getgid"
    ∷ codes "getpgid"
    ∷ codes "getpid"
    ∷ codes "getpgrp"
    ∷ codes "getppid"
    ∷ codes "getresgid"
    ∷ codes "getrlimit"
    ∷ codes "gettid"
    ∷ codes "getuid"
    ∷ codes "lseek"
    ∷ codes "mlock"
    ∷ codes "mprotect"
    ∷ codes "rt_sigaction"
    ∷ codes "rt_sigprocmask"
    ∷ codes "rt_sigreturn"
    ∷ codes "sched_getaffinity"
    ∷ codes "set_robust_list"
    ∷ codes "set_tid_address"
    ∷ codes "setpgid"
    ∷ codes "setpgrp"
    ∷ codes "times"
    ∷ []

abbrev pub ignored_models : Models World
ignored_models = map (λ name. (name ++ codes "@SYS", none)) ignored_syscalls

module _ (lib : Library) where
  abbrev pub file_models : Models World
  file_models =
      sys (codes "open") (call_model by_arguments (open_call lib))
      ∷ sys (codes "openat") (call_model by_arguments (openat_call lib))
      ∷ sys (codes "close") (call_model by_arguments (close_call lib))
      ∷ sys (codes "read") (call_model by_arguments (read_call lib))
      ∷ sys (codes "preadx") (call_model by_arguments (preadx_call lib))
      ∷ sys (codes "pread64x") (call_model by_arguments (pread64x_call lib))
      ∷ sys (codes "write") (call_model by_arguments (write_call lib))
      ∷ sys (codes "writev") (call_model by_arguments (writev_call lib))
      ∷ sys (codes "ioctl") (call_model by_arguments (ioctl_call lib))
      ∷ sys (codes "stat") (call_model by_arguments (stat_call lib))
      ∷ sys (codes "lstat") (call_model by_arguments (lstat_call lib))
      ∷ sys (codes "access") (call_model by_arguments (access_call lib))
      ∷ sys (codes "dup") (call_model by_arguments (dup_call lib))
      ∷ sys (codes "dup2") (call_model by_arguments (dup2_call lib))
      ∷ sys (codes "mmap") (call_model by_arguments (mmap_call lib))
      ∷ sys (codes "munmap") (call_model by_arguments munmap_call)
      ∷ sys (codes "mmap2") (call_model by_arguments (mmap2_call lib))
      ∷ sys (codes "fstat") (call_model by_arguments (fstat_call lib))
      ∷ sys (codes "fstat64") (call_model by_arguments (fstat64_call lib))
      ∷ sys (codes "fstatfs") (call_model by_arguments (fstatfs_call lib))
      ∷ sys (codes "fadvise64") (call_model by_arguments (fadvise64_call lib))
      ∷ sys (codes "fchdir") (call_model by_arguments (fchdir_call lib))
      ∷ sys (codes "fcntl") (call_model by_arguments (fcntl_call lib))
      ∷ sys (codes "fcntl64") (call_model by_arguments (fcntl64_call lib))
      ∷ sys (codes "fchown") (call_model by_arguments (fchown_call lib))
      ∷ sys (codes "ftruncate") (call_model by_arguments (ftruncate_call lib))
      ∷ sys (codes "fsync") (call_model by_arguments (fsync_call lib))
      ∷ sys (codes "fchmod") (call_model by_arguments (fchmod_call lib))
      ∷ []

  abbrev pub process_models : Models World
  process_models =
      sys (codes "clone") (call_model never (clone_call))
      ∷ sys (codes "vfork")
          (record (call_model never vfork_call) { resumed_without_unfinished_is_ok = true })
      ∷ sys (codes "execve") (call_model never (execve_call lib))
      ∷ (
        codes "__libc_start_main",
        some (record (call_model never (libc_start_main_call lib)) { unfinished_is_ok = true }),
      )
      ∷ sys (codes "wait4") (call_model by_arguments (wait4_call))
      ∷ sys (codes "exit_group") (call_model by_arguments exit_group_call)
      ∷ sys (codes "newfstatat") (call_model by_arguments (newfstatat_call lib))
      ∷ (codes "getenv", some (call_model by_arguments getenv_call))
      ∷ []

  abbrev pub stream_models : Models World
  stream_models =
      sys (codes "getdents") (call_model by_arguments (getdents_call lib))
      ∷ sys (codes "getdents64") (call_model by_arguments (getdents64_call lib))
      ∷ sys (codes "sendmsg") (call_model by_arguments (sendmsg_call lib))
      ∷ sys (codes "sendmmsg") (call_model by_arguments (sendmmsg_call lib))
      ∷ sys (codes "recvmsg") (call_model by_arguments (recvmsg_call lib))
      ∷ sys (codes "recvfrom") (call_model by_arguments (recvfrom_call lib))
      ∷ sys (codes "getsockname") (call_model by_arguments (getsockname_call lib))
      ∷ sys (codes "getpeername") (call_model by_arguments (getpeername_call lib))
      ∷ sys (codes "poll") (call_model by_arguments (poll_call lib))
      ∷ sys (codes "select") (call_model by_arguments (select_call lib))
      ∷ sys (codes "setsockopt") (call_model by_arguments (setsockopt_call))
      ∷ sys (codes "socket") (call_model by_arguments (socket_call lib))
      ∷ sys (codes "connect") (call_model by_arguments (connect_call lib))
      ∷ sys (codes "bind") (call_model by_arguments (bind_call lib))
      ∷ sys (codes "sendto") (call_model by_arguments (sendto_call lib))
      ∷ sys (codes "pipe") (call_model by_arguments (pipe_call lib))
      ∷ sys (codes "pipe2") (call_model by_arguments (pipe2_call lib))
      ∷ sys (codes "shutdown") (call_model by_arguments (shutdown_call lib))
      ∷ []

  unfoldable pub batch_models : Models World
  batch_models = ignored_models ++ (file_models ++ (process_models ++ stream_models))
