-- ===== src/SystemCalls/Tame/Streams.antt =====
-- The parts of the constructors raise none of the exceptions of `MergePopBatch`.
use survol.Base.{ℕ, text_eq_instance}
use survol.Batch.{BatchLetCore}
use survol.Batch.Values.{Arg}
use survol.World.{Library}
use survol.SystemCalls.Tame.Results.{
  Harmless, to_abs_path-Harmless, as_pattern_text-Harmless, stream_to_pathname-Harmless,
  invalid-Harmless, parsed_arg-Harmless, ret_has-Harmless, parse_int_or_none-Harmless,
  abs_path_at-Harmless, abs_path_in-Harmless, convert-Harmless, arg_has-Harmless,
  returned_pid-Harmless, is_thread_call-Harmless, waited_pid-Harmless, first_item-Harmless,
  command_line-Harmless, key_of-Harmless, iterated-Harmless, fd_names-Harmless, or_unbound-Harmless,
  split_names-Harmless, pipe_item-Harmless,
}
use survol.SystemCalls.Tame.Actions.{Tame, action_rules}
use survol.SystemCalls.{object_process, accessed_file, stream_to_file, stream_name, stream_call}

pub object_process-Tame : (c : BatchLetCore) → Tame (object_process c)
unfolding object_process
object_process-Tame c = search (action_rules, parsed_arg-Harmless, stream_to_pathname-Harmless)

module _ (lib : Library) where
  pub accessed_file-Tame :
      (c : BatchLetCore) (path_name : Arg) → Tame (accessed_file lib c path_name)
  unfolding accessed_file
  accessed_file-Tame c path_name =
      search (action_rules, parsed_arg-Harmless, stream_to_pathname-Harmless)

  pub stream_to_file-Tame : (c : BatchLetCore) (strm : Arg) → Tame (stream_to_file lib c strm)
  unfolding stream_to_file
  stream_to_file-Tame c strm =
      search (action_rules, parsed_arg-Harmless, stream_to_pathname-Harmless)

  pub stream_name-Tame : (c : BatchLetCore) (idx : ℕ) → Tame (stream_name lib c idx)
  unfolding stream_name
  stream_name-Tame c idx = search (action_rules, parsed_arg-Harmless, stream_to_file-Tame)

  pub stream_call-Tame : (idx : ℕ) (c : BatchLetCore) → Tame (stream_call lib idx c)
  unfolding stream_call
  stream_call-Tame idx c = search (action_rules, parsed_arg-Harmless, stream_name-Tame)

pub ruleset call_rules = (
  action_rules, parsed_arg-Harmless, object_process-Tame, accessed_file-Tame, stream_to_file-Tame,
  stream_name-Tame,
)
