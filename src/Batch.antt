-- ===== src/Batch.antt =====
-- survol/scripts/dockit.py: one traced call (`BatchLetCore`), its status, its arguments, and the
-- store of the cores. A core is a shared Python object that later calls mutate, so it lives in a
-- store and is named by its address; `==` between cores is equality of addresses.
pub mod Values
pub mod Calls
pub mod Failure
use survol.Base.{ℕ, ◌+◌, ◌==◌, Text, codes, List, [], Option, none, Bool, if◌then◌else◌}
use survol.Batch.Values.{Arg}

-- `BatchStatus`; the numbers are those of the source.
pub data BatchStatus : Type 0 where
  unknown plain unfinished resumed matched merged sequence : BatchStatus

abbrev pub status_code : BatchStatus → ℕ
status_code unknown = 0
status_code plain = 1
status_code unfinished = 2
status_code resumed = 3
status_code matched = 4
status_code merged = 5
status_code sequence = 6

abbrev pub status_eq : BatchStatus → BatchStatus → Bool
status_eq a b = status_code a == status_code b

pub data Tracer : Type 0 where
  strace ltrace : Tracer
  other : Text → Tracer

-- `m_execTim`: the text that the tracer prints, or the difference of two times in microseconds.
pub data ExecTime : Type 0 where
  shown : Text → ExecTime
  between : ℕ → ℕ → ExecTime

pub record BatchLetCore : Type 0 where
  pub tracer : Tracer
  pub pid : ℕ
  pub func_nam : Text
  pub status : BatchStatus
  pub parsed_args : List Arg
  pub ret_value : Option Text
  pub time_start : Text
  pub time_end : Text
  pub exec_tim : ExecTime
  pub unfinished_batch : Option ℕ
  pub resumed_batch : Option ℕ

-- `BatchLetCore.__init__`; the fields that it leaves unset are empty.
abbrev pub new_core : BatchLetCore
new_core = record {
  tracer = other [];
  pid = 0;
  func_nam = [];
  status = unknown;
  parsed_args = [];
  ret_value = Option.some (codes "N/A");
  time_start = [];
  time_end = [];
  exec_tim = shown [];
  unfinished_batch = none;
  resumed_batch = none;
}

-- The cores that exist stand at the addresses below `next`.
pub record Store : Type 0 where
  pub next : ℕ
  pub core : ℕ → BatchLetCore

abbrev pub write : Store → ℕ → BatchLetCore → Store
write h a c = record h { core = λ b. if a == b then c else h.core b }

-- A new object: the store with it, its address being the old `next`.
abbrev pub alloc : Store → BatchLetCore → Store
alloc h c = record { next = h.next + 1; core = λ b. if h.next == b then c else h.core b }
