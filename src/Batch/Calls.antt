-- ===== src/Batch/Calls.antt =====
-- survol/scripts/dockit.py: `BatchLetBase` and `BatchLetSequence`, the calls as a flow keeps them.
use mathlib.Core.List.{map}
use survol.Base.{
  ℕ, ◌==◌, Text, codes, text_eq, List, [], ◌∷◌, ◌++◌, Option, none, some, Bool, true, false, ◌||◌,
  if◌then◌else◌, length, get_last?,
}
use survol.Batch.Values.{Arg, arg_eq, arg_str}
use survol.Batch.{BatchLetCore, Store, ExecTime, between, alloc, new_core, sequence}

-- Which `SameCall` the class of the object has: that of `BatchLetBase`, or the one of the classes
-- that create or set up a process, which always answers False.
pub data SameCallKind : Type 0 where
  by_arguments never : SameCallKind

pub record BatchLet : Type 0 where
  pub core : ℕ
  pub occurrences : ℕ
  pub style : Text
  pub significant_args : List Arg
  pub kind : SameCallKind

-- `BatchLetBase.__init__`
unfoldable pub new_batch_let : Store → ℕ → Text → BatchLet
new_batch_let h a style = record {
  core = a;
  occurrences = 1;
  style = style;
  significant_args = (h.core a).parsed_args;
  kind = by_arguments;
}

-- The loop of `SameArguments`, which reads `args2[idx]` for each value of `args1`.
unfoldable pub same_values : List Arg → List Arg → Bool
same_values [] args2 = true
same_values (val1 ∷ args1) [] = false
same_values (val1 ∷ args1) (val2 ∷ args2) =
    if arg_eq val1 val2 then same_values args1 args2 else false

unfoldable pub same_arguments : List Arg → List Arg → Bool
unfolding same_values
same_arguments args1 args2 = if length args1 == length args2 then same_values args1 args2 else false

-- `SameCall`, with the class of the object that it is called on.
unfoldable pub same_call : Store → BatchLet → BatchLet → Bool
unfolding same_arguments
same_call h b another = elim b.kind [
  | never ↦ false
  | by_arguments ↦
      if text_eq (h.core b.core).func_nam (h.core another.core).func_nam
      then same_arguments b.significant_args another.significant_args
      else false
]

unfoldable pub get_signature : Store → BatchLet → Text
get_signature h b = (h.core b.core).func_nam

-- `sep.join(texts)`
unfoldable pub join : Text → List Text → Text
join sep [] = []
join sep (t ∷ []) = t
join sep (t ∷ u ∷ ts) = t ++ (sep ++ join sep (u ∷ ts))

-- The arguments of the batches, each one once, in the order of their first occurrence.
unfoldable pub mem_arg : Arg → List Arg → Bool
mem_arg a [] = false
mem_arg a (b ∷ l) = arg_eq a b || mem_arg a l

unfoldable pub add_args : List Arg → List Arg → List Arg
unfolding mem_arg
add_args acc [] = acc
add_args acc (a ∷ l) = add_args (if mem_arg a acc then acc else acc ++ a ∷ []) l

unfoldable pub union_args : List Arg → List BatchLet → List Arg
unfolding add_args
union_args acc [] = acc
union_args acc (b ∷ l) = union_args (add_args acc b.significant_args) l

module _ (repr : Text → Text) where
  unfoldable pub get_signature_with_args : Store → BatchLet → Text
  unfolding join
  get_signature_with_args h b =
      (h.core b.core).func_nam
      ++ (codes ":" ++ join (codes "&") (map (arg_str repr) b.significant_args))

  unfoldable pub signature_for_repetitions : Store → List BatchLet → Text
  unfolding get_signature_with_args
  signature_for_repetitions h range = join (codes "+") (map (get_signature_with_args h) range)

-- `BatchLetSequence.__init__`. `parse_time` is `datetime.strptime` with the format of a time stamp,
-- in microseconds; where it raises, the result is `none`, and so it is on an empty range.
module _ (parse_time : Text → Option ℕ) where
  sequence_core : Store → List BatchLet → BatchLetCore → BatchLetCore → ExecTime → BatchLetCore
  unfolding union_args join get_signature
  sequence_core h range first last exec = record new_core {
    func_nam = codes "(" ++ (join (codes "+") (map (get_signature h) range) ++ codes ")");
    status = sequence;
    parsed_args = union_args [] range;
    pid = first.pid;
    time_start = first.time_start;
    time_end = last.time_end;
    exec_tim = exec;
  }

  unfoldable pub batch_let_sequence : Store → List BatchLet → Text → Option (Store × BatchLet)
  unfolding sequence_core new_batch_let
  batch_let_sequence h [] style = none
  batch_let_sequence h (b ∷ range) style = elim (get_last? (b ∷ range)) [
    | none ↦ none
    | some l ↦ elim (parse_time (h.core l.core).time_end) [
      | none ↦ none
      | some e ↦ elim (parse_time (h.core b.core).time_start) [
        | none ↦ none
        | some s ↦
            let c = sequence_core h (b ∷ range) (h.core b.core) (h.core l.core) (between s e) in
            let h' = alloc h c in some (h', new_batch_let h' h.next style)
      ]
    ]
  ]
