-- ===== src/World.antt =====
-- survol/scripts/dockit.py: the global variables that the classes of calls change, and the actions on
-- them. An object is named by its key: a process by its `Handle`, a file by its `Name`; an access of
-- a file has no key of its own and is named by its place among all accesses, in order of creation.
-- The log is replayed on another machine (`G_ReplayMode`, and not `G_SameMachine`), and no server
-- listens to the changes.
pub mod Actions
pub mod Keeps
pub mod Numbers
pub mod Paths
pub mod Objects
pub mod Accesses
pub mod Sound
use survol.Base.{
  ℕ, zero, ◌≡◌, Text, codes, List, [], ◌∷◌, Option, none, some, Bool, false, ℤ, pos, Dict, int_eq,
  text_eq_instance, lookup, insert,
}
use survol.Batch.Values.{Arg, text}
use survol.Buffers.{BufferConcatenator, Scanners}

-- `FileAccess`. The counters start at 0, where the source has no attribute yet.
pub record FileAccess : Type 0 where
  pub process : ℤ
  pub file : Text
  pub open_time : Option Text
  pub close_time : Option Text
  pub num_open : ℕ
  pub num_reads : ℕ
  pub num_writes : ℕ
  pub bytes_read : ℤ
  pub bytes_written : ℤ
  pub concat_read : Option BufferConcatenator
  pub concat_write : Option BufferConcatenator

-- `FileAccess.__init__`
abbrev pub new_access : ℤ → Text → FileAccess
new_access process file = record {
  process = process;
  file = file;
  open_time = none;
  close_time = none;
  num_open = 0;
  num_reads = 0;
  num_writes = 0;
  bytes_read = pos 0;
  bytes_written = pos 0;
  concat_read = none;
  concat_write = none;
}

-- `CIM_Process`; the parent and the subprocesses are named by their handles.
pub record Process : Type 0 where
  pub parent : Option ℤ
  pub sub_processes : List ℤ
  pub creation_date : Option Text
  pub termination_date : Option Text
  pub current_directory : Text
  pub executable : Option Text
  pub command_line : Option Text
  pub command_list : Option Arg
  pub is_thread : Bool
  pub accesses : List ℕ

-- `CIM_DataFile`
pub record DataFile : Type 0 where
  pub category : Text
  pub destination : Option Text
  pub port : Option Text
  pub socket_address : Option Arg
  pub is_executed : Bool
  pub accesses : List ℕ

-- `G_mapCacheObjects` for the two classes, the objects `FileAccess`, `G_cacheFileAccesses`,
-- `G_mapFilDesToPathName`, `G_EnvironmentVariables` and `G_CurrentDirectory`.
pub record World : Type 0 where
  pub processes : Dict ℤ Process
  pub files : Dict Text DataFile
  pub accesses : List FileAccess
  pub cache : Dict ℤ (Dict Text ℕ)
  pub path_names : Dict Text Arg
  pub environment : Dict Text (Option Text)
  pub current_directory : Text

-- The globals before the first line, as `InitGlobalObjects` sets them.
abbrev pub first_world : Text → World
first_world current_directory = record {
  processes = [];
  files = [];
  accesses = [];
  cache = [];
  path_names =
      (codes "0", text (codes "stdin"))
      ∷ (codes "1", text (codes "stdout"))
      ∷ (codes "2", text (codes "stderr"))
      ∷ [];
  environment = [];
  current_directory = current_directory;
}

-- What the program calls in Python's library: `repr`, the codec of the escapes in a buffer, which
-- fails on a broken escape, and `socket.gethostbyaddr`; and the table `BufferScanners`.
pub record Library : Type 0 where
  pub repr : Text → Text
  pub decode : Text → Option Text
  pub scanners : Scanners
  pub host_by_addr : Text → Option Text
