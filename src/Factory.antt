-- ===== src/Factory.antt =====
-- survol/scripts/dockit.py: `BatchLetFactory`, which makes the call object of a parsed line and
-- pairs the two halves of an interrupted call. What it prints is left out.
pub mod Pairing
pub mod Resuming
pub mod Halves
pub mod Stores
pub mod Worlds
mod Tests
use survol.Base.{
  ℕ, Text, codes, text_eq, List, [], ◌∷◌, ◌++◌, Option, none, some, Bool, ◌||◌, false,
  if◌then◌else◌, Dict, text_eq_instance, lookup,
}
use survol.Batch.{BatchLetCore, Store, alloc, status_eq, unfinished, resumed}
use survol.Batch.Values.{Arg}
use survol.Batch.Calls.{BatchLet, SameCallKind, new_batch_let}
use survol.Batch.Failure.{Failure, attribute_error}
use survol.Unfinished.{MapStacks, push_batch, returned, broken, merge_pop_batch}

-- What a call of a class gives: an object with its significant arguments; an object whose
-- constructor returned before the one of `BatchLetBase`, so that it has no `m_core`; an exception.
pub data Construct : Type 0 where
  object : List Arg → SameCallKind → Construct
  incomplete : Construct
  raises : Failure → Construct

-- A class derived from `BatchLetBase`: the two attributes that the factory tests for, and its
-- constructor, which reads the core and may change the CIM objects and the file descriptors (`W`).
pub record Model (W : Type 0) : Type 0 where
  pub unfinished_is_ok : Bool
  pub resumed_without_unfinished_is_ok : Bool
  pub construct : W → BatchLetCore → W × Construct

-- `G_batchModels`; None stands for a function that is ignored.
abbrev pub Models : Type 0 → Type 0
Models W = Dict Text (Option (Model W))

-- `G_stackUnfinishedBatches`, `G_UnknownFunctions`, the cores and the rest of the globals.
pub record State (W : Type 0) : Type 0 where
  pub store : Store
  pub stacks : MapStacks
  pub unknown_functions : List Text
  pub world : W

pub data Outcome : Type 0 where
  batch : BatchLet → Outcome
  nothing : Outcome
  failed : Failure → Outcome

-- `batchCore` behind `CreateBatchCore`: a new core, None for an exit or a signal, or what it was before
-- if the line is no call, since the exception is caught.
pub data Parsed : Type 0 where
  parsed : BatchLetCore → Parsed
  no_core unchanged : Parsed

unfoldable pub is_attribute_error : Failure → Bool
is_attribute_error attribute_error = Bool.true
is_attribute_error _ = false

unfoldable pub mem_text : Text → List Text → Bool
mem_text t [] = false
mem_text t (u ∷ l) = text_eq t u || mem_text t l

abbrev pub orig : Text
orig = codes "Orig"

-- The object of a derived class, and what the end of the factory makes of one with no `m_core`.
pub built : ℕ → Construct → Outcome
built a (object args kind) =
    batch (record { core = a; occurrences = 1; style = orig; significant_args = args; kind = kind })
built a incomplete = nothing
built a (raises e) = failed e

module _ {W : Type 0} where
  -- `BatchLetBase(batchCore)`
  pub base : State W → ℕ → State W × Outcome
  base s a = (s, batch (new_batch_let s.store a orig))

  pub push : State W → ℕ → State W
  push s a = record s { stacks = push_batch s.store s.stacks a }

  -- An `AttributeError` of the constructor is caught by the handler of the attribute test.
  pub or_push : State W → ℕ → Construct → State W × Outcome
  or_push s a (object args kind) = (s, built a (object args kind))
  or_push s a incomplete = (s, nothing)
  or_push s a (raises e) = if is_attribute_error e then base (push s a) a else (s, failed e)

  pub make_unfinished : Model W → State W → ℕ → State W × Outcome
  make_unfinished model s a =
      let (w, c) = model.construct s.world (s.store.core a) in
      if model.unfinished_is_ok then or_push (record s { world = w }) a c else base (push s a) a

  -- The object of the degraded mode is replaced by one of the base class.
  pub or_base : State W → ℕ → Construct → State W × Outcome
  or_base s a (object args kind) = base s a
  or_base s a incomplete = base s a
  or_base s a (raises e) = if is_attribute_error e then base s a else (s, failed e)

  pub make_resumed : Model W → State W → ℕ → State W × Outcome
  make_resumed model s a = elim (merge_pop_batch s.store s.stacks a) [
    | broken h m e ↦ (record s { store = h; stacks = m }, failed e)
    | returned res ↦
        let s' = record s { store = res.store; stacks = res.stacks } in
        let (w, c) = model.construct s'.world (s'.store.core a) in
        let s'' = record s' { world = w } in
        if res.found
        then (s'', built a c)
        else if model.resumed_without_unfinished_is_ok
        then or_base s'' a c
        else base s' a
  ]

  pub make_plain : Model W → State W → ℕ → State W × Outcome
  make_plain model s a =
      let (w, c) = model.construct s.world (s.store.core a) in (record s { world = w }, built a c)

  pub make : Model W → State W → ℕ → State W × Outcome
  make model s a =
      if status_eq (s.store.core a).status unfinished
      then make_unfinished model s a
      else if status_eq (s.store.core a).status resumed
      then make_resumed model s a
      else make_plain model s a

  -- `BatchLetFactory`
  pub batch_let_factory : Models W → State W → ℕ → State W × Outcome
  batch_let_factory models s a =
      let f = (s.store.core a).func_nam in
      elim (lookup f models) [
        | none ↦
            base
              (record s {
                unknown_functions =
                    if mem_text f s.unknown_functions
                    then s.unknown_functions
                    else s.unknown_functions ++ f ∷ [];
              })
              a
        | some model ↦ elim model [ none ↦ (s, nothing) | some m ↦ make m s a ]
      ]

  -- A call: `CreateBatchCore` has made the core `c`, and the factory gets it.
  pub feed : Models W → State W → BatchLetCore → State W × Outcome
  feed models s c = batch_let_factory models (record s { store = alloc s.store c }) s.store.next

  -- One line, with the address of `batchCore` before and behind it.
  pub feed_parsed : Models W → State W → Option ℕ → Parsed → (State W × Option ℕ) × Outcome
  feed_parsed models s last (parsed c) =
      let (s', o) = feed models s c in ((s', some s.store.next), o)
  feed_parsed models s last no_core = ((s, none), nothing)
  feed_parsed models s none unchanged = ((s, none), nothing)
  feed_parsed models s (some a) unchanged =
      let (s', o) = batch_let_factory models s a in ((s', some a), o)

  -- An exception of the factory ends the log.
  pub feed_end : State W → Outcome → State W × List Outcome → State W × List Outcome
  feed_end s (batch b) (s', os) = (s', batch b ∷ os)
  feed_end s nothing (s', os) = (s', nothing ∷ os)
  feed_end s (failed e) (s', os) = (s, failed e ∷ [])

  -- All the lines, in the order of the log, up to an exception of the factory.
  pub feed_all : Models W → State W → Option ℕ → List Parsed → State W × List Outcome
  feed_all models s last [] = (s, [])
  feed_all models s last (l ∷ ls) =
      let ((s', last'), o) = feed_parsed models s last l in
      let (s'', os) = feed_all models s' last' ls in feed_end s' o (s'', os)
