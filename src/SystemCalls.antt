-- ===== src/SystemCalls.antt =====
-- survol/scripts/dockit.py: the classes derived from `BatchLetBase`, one for each function that is
-- modelled, and the table of them, `G_batchModels`. A constructor is an action on the globals; its
-- result tells the significant arguments, or that it returned before the one of `BatchLetBase`.
pub mod Files
pub mod Processes
pub mod Sockets
pub mod Alike
pub mod Table
pub mod Sound
pub mod Tame
pub mod Log
use survol.Base.{
  ℕ, Text, codes, List, [], ◌∷◌, ◌++◌, Option, none, some, Bool, true, false, if◌then◌else◌,
  get_elem?, ℤ, pos, Dict, insert, text_eq_instance,
}
use survol.Batch.{BatchLetCore}
use survol.Batch.Values.{Arg, text, none_value, object}
use survol.Batch.Failure.{Result, ok, raised, index_error, attribute_error}
use survol.World.{World, Library}
use survol.World.Actions.{Action, Done, done, pure, lift, gets, modify, ◌>>=◌, ◌>>◌}
use survol.World.Numbers.{show_int}
use survol.World.Paths.{stream_to_pathname, or_none, has_text}
use survol.World.Objects.{to_process, to_data_file}

pub data Made : Type 0 where
  made : List Arg → Made
  dropped : Made

-- The objects as arguments: by the moniker that `CreateMonikerKey` makes.
unfoldable pub process_arg : ℤ → Arg
unfolding show_int
process_arg p = object (codes "CIM_Process.Handle=\"" ++ (show_int p ++ codes "\""))

unfoldable pub file_arg : Text → Arg
file_arg name = object (codes "CIM_DataFile.Name=\"" ++ (name ++ codes "\""))

-- `m_parsedArgs[i]`
unfoldable pub item_of : List Arg → ℕ → Result Arg
item_of l i = elim (get_elem? l i) [ none ↦ raised index_error | some a ↦ ok a ]

unfoldable pub parsed_arg : BatchLetCore → ℕ → Result Arg
unfolding item_of
parsed_arg c i = item_of c.parsed_args i

-- `m_retValue` as a stream
unfoldable pub ret_arg : BatchLetCore → Arg
ret_arg c = elim c.ret_value [ none ↦ none_value | some s ↦ text s ]

-- `m_retValue.find(t) >= 0`
unfoldable pub text_has : Option Text → Text → Result Bool
unfolding has_text
text_has none t = raised attribute_error
text_has (some s) t = ok (has_text s t)

unfoldable pub ret_has : BatchLetCore → Text → Result Bool
unfolding text_has
ret_has c t = text_has c.ret_value t

-- `m_objectProcess`, which `ParseLine` takes from the table of the processes.
abbrev pub process_of : BatchLetCore → ℤ
process_of c = pos c.pid

unfoldable pub object_process : BatchLetCore → Action ℤ
object_process c = to_process (process_of c)

-- `G_mapFilDesToPathName[filDes] = pathName`; no text is the key None.
unfoldable pub name_descriptor : Option Text → Arg → World → World
name_descriptor none path w = w
name_descriptor (some s) path w = record w { path_names = insert s path w.path_names }

module _ (lib : Library) where
  -- `ToObjectPath_Accessed_CIM_DataFile`
  unfoldable pub accessed_file : BatchLetCore → Arg → Action Text
  accessed_file c path_name = to_data_file lib path_name (process_of c)

  -- `STraceStreamToFile`
  unfoldable pub stream_to_file : BatchLetCore → Arg → Action Text
  stream_to_file c strm = do
    names ← gets (λ w. w.path_names)
    path_name ← lift (stream_to_pathname names strm)
    to_data_file lib path_name (process_of c)

  -- `StreamName(idx)`, which is a list of one file.
  unfoldable pub stream_name : BatchLetCore → ℕ → Action Text
  stream_name c idx = do strm ← lift (parsed_arg c idx); stream_to_file c strm

  -- The body of the constructors that take the file of one argument, and nothing else.
  unfoldable pub stream_call : ℕ → BatchLetCore → Action Made
  stream_call idx c = do file ← stream_name c idx; pure (made (file_arg file ∷ []))
