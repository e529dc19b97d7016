-- ===== src/SystemCalls/Alike.antt =====
-- survol/scripts/dockit.py: the classes that take the file of their first argument, or that share their
-- constructor's body with another class.
use survol.Batch.{BatchLetCore}
use survol.World.{Library}
use survol.World.Actions.{Action}
use survol.SystemCalls.{Made, stream_call}
use survol.SystemCalls.Files.{access_call, no_argument_call}
use survol.SystemCalls.Sockets.{connect_call, pipe_call}

module _ (lib : Library) where
  -- `BatchLetSys_dup2`
  abbrev pub dup2_call : BatchLetCore → Action Made
  dup2_call c = stream_call lib 0 c

  -- `BatchLetSys_fstat64`
  abbrev pub fstat64_call : BatchLetCore → Action Made
  fstat64_call c = stream_call lib 0 c

  -- `BatchLetSys_fstatfs`
  abbrev pub fstatfs_call : BatchLetCore → Action Made
  fstatfs_call c = stream_call lib 0 c

  -- `BatchLetSys_fadvise64`
  abbrev pub fadvise64_call : BatchLetCore → Action Made
  fadvise64_call c = stream_call lib 0 c

  -- `BatchLetSys_fcntl`
  abbrev pub fcntl_call : BatchLetCore → Action Made
  fcntl_call c = stream_call lib 0 c

  -- `BatchLetSys_fcntl64`
  abbrev pub fcntl64_call : BatchLetCore → Action Made
  fcntl64_call c = stream_call lib 0 c

  -- `BatchLetSys_fchown`
  abbrev pub fchown_call : BatchLetCore → Action Made
  fchown_call c = stream_call lib 0 c

  -- `BatchLetSys_ftruncate`
  abbrev pub ftruncate_call : BatchLetCore → Action Made
  ftruncate_call c = stream_call lib 0 c

  -- `BatchLetSys_fsync`
  abbrev pub fsync_call : BatchLetCore → Action Made
  fsync_call c = stream_call lib 0 c

  -- `BatchLetSys_fchmod`
  abbrev pub fchmod_call : BatchLetCore → Action Made
  fchmod_call c = stream_call lib 0 c

  -- `BatchLetSys_getdents`
  abbrev pub getdents_call : BatchLetCore → Action Made
  getdents_call c = stream_call lib 0 c

  -- `BatchLetSys_getdents64`
  abbrev pub getdents64_call : BatchLetCore → Action Made
  getdents64_call c = stream_call lib 0 c

  -- `BatchLetSys_sendmsg`
  abbrev pub sendmsg_call : BatchLetCore → Action Made
  sendmsg_call c = stream_call lib 0 c

  -- `BatchLetSys_sendmmsg`
  abbrev pub sendmmsg_call : BatchLetCore → Action Made
  sendmmsg_call c = stream_call lib 0 c

  -- `BatchLetSys_recvmsg`
  abbrev pub recvmsg_call : BatchLetCore → Action Made
  recvmsg_call c = stream_call lib 0 c

  -- `BatchLetSys_recvfrom`
  abbrev pub recvfrom_call : BatchLetCore → Action Made
  recvfrom_call c = stream_call lib 0 c

  -- `BatchLetSys_getsockname`
  abbrev pub getsockname_call : BatchLetCore → Action Made
  getsockname_call c = stream_call lib 0 c

  -- `BatchLetSys_getpeername`
  abbrev pub getpeername_call : BatchLetCore → Action Made
  getpeername_call c = stream_call lib 0 c

  -- `BatchLetSys_sendto`
  abbrev pub sendto_call : BatchLetCore → Action Made
  sendto_call c = stream_call lib 0 c

  -- `BatchLetSys_shutdown`
  abbrev pub shutdown_call : BatchLetCore → Action Made
  shutdown_call c = stream_call lib 0 c

  -- `BatchLetSys_lstat`
  abbrev pub lstat_call : BatchLetCore → Action Made
  lstat_call c = access_call lib c

  -- `BatchLetSys_bind`
  abbrev pub bind_call : BatchLetCore → Action Made
  bind_call c = connect_call lib c

  -- `BatchLetSys_pipe2`
  abbrev pub pipe2_call : BatchLetCore → Action Made
  pipe2_call c = pipe_call lib c

-- `BatchLetSys_munmap`
abbrev pub munmap_call : BatchLetCore → Action Made
munmap_call c = no_argument_call c

-- `BatchLetSys_exit_group`
abbrev pub exit_group_call : BatchLetCore → Action Made
exit_group_call c = no_argument_call c
