-- ===== src/Batch/Failure.antt =====
-- The exceptions that survol/scripts/dockit.py and survol/lib_util.py raise or let through, and fallible results.
pub data Failure : Type 0 where
  -- the sanity checks of `MergePopBatch`
  inconsistent_functions unfinished_status resumed_status : Failure
  -- the sanity checks of `FilterMatchedBatches`
  inconsistency1 inconsistency2 inconsistency3 : Failure
  attribute_error value_error index_error type_error : Failure
  -- the exceptions of `InitAfterPid`
  is_exit is_signal no_function no_equal : Failure
  key_error name_error import_error : Failure
  -- the exceptions of the CIM objects and of the classes of calls
  self_parent duplicate_process unsupported_tracer invalid_directory : Failure
  -- the exceptions of a log that is no log
  invalid_command invalid_process : Failure
  -- `exit(1)`
  system_exit : Failure

pub data Result (A : Type 0) : Type 0 where
  ok : A → Result A
  raised : Failure → Result A

infixl 5 ◌>>=◌
abbrev pub ◌>>=◌ : {A B : Type 0} → Result A → (A → Result B) → Result B
ok a >>= f = f a
raised e >>= f = raised e
