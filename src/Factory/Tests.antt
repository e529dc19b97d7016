-- ===== src/Factory/Tests.antt =====
-- A run of the factory on the two halves of a call of read, and on a call that it does not know.
use survol.Base.{
  Text, text_eq, codes, List, [], ◌∷◌, none, some, false, lookup, ◌≡◌, All, Bool-cases, inl, inr,
}
use survol.Batch.{BatchLetCore, new_core, unfinished, resumed, plain}
use survol.Batch.Calls.{by_arguments}
use survol.Unfinished.Invariant.{IsStacked-nil}
use survol.Factory.{
  failed, batch_let_factory, feed_parsed, feed_end, make, make_unfinished, make_resumed, make_plain,
  base, push, built, object, Model, Models, State, feed_all, Parsed, parsed, unchanged,
}
use survol.Batch.{alloc}
use survol.Batch.Calls.{new_batch_let}
use survol.Base.{ℕ, refl, text_eq_instance, get_last?}
use survol.Unfinished.Stacks.{stack_of}
use survol.Unfinished.Merging.{merged_half}
use survol.Factory.{batch, built, make_resumed, feed, orig}
use survol.Factory.Halves.{feed-halves}
use survol.Factory.Resuming.{make_resumed-alone}
use survol.Batch.Failure.{unfinished_status}
use survol.Unfinished.{push_batch, merge_pop_batch, merge_cores, merge_end}
use survol.Base.{insert, get_last?}
use survol.Factory.Pairing.{
  IsTame, AllTame, IsPairable, Fits, waits, IsWell, NoSanityFailure, feed_all_pairs,
}

abbrev read_model : Model Unit
read_model = record {
  unfinished_is_ok = false;
  resumed_without_unfinished_is_ok = false;
  construct = λ w c. (w, object c.parsed_args by_arguments);
}

abbrev models : Models Unit
models = (codes "read", some read_model) ∷ []

read_model-IsTame : IsTame read_model
read_model-IsTame w c e q = cc (q)

models-AllTame : AllTame models
unfolding lookup
models-AllTame f m h = elim (Bool-cases (text_eq (codes "read") f)) [
  | inl e ↦
      let q : read_model ≡ m =
        (let k : some (some read_model) ≡ some (some m) = rw e at h in cc k) in
      rw (← q) read_model-IsTame
  | inr e ↦ let k : none ≡ some (some m) = rw e at h in absurd (cc k)
]

abbrev line : Text → BatchLetCore
line f = record new_core { pid = 7; func_nam = f }

-- A line that is no call stands behind a whole call, which the factory gets once more.
abbrev log : List Parsed
log =
    parsed (record (line (codes "read")) { status = unfinished })
    ∷ parsed (record (line (codes "getcwd")) { status = plain })
    ∷ unchanged
    ∷ parsed (record (line (codes "read")) { status = resumed })
    ∷ []

log-IsPairable : IsPairable false log
unfolding IsPairable Fits waits
log-IsPairable = (tt, (tt, (refl, (tt, tt))))

abbrev start : State Unit
start = record {
  store = record { next = 0; core = λ b. new_core };
  stacks = [];
  unknown_functions = [];
  world = tt;
}

feed_all_pairs_example :
    IsWell (feed_all models start none log).0
    × All NoSanityFailure (feed_all models start none log).1
feed_all_pairs_example =
    feed_all_pairs models models-AllTame start log (IsStacked-nil start.store) log-IsPairable

abbrev first_half : BatchLetCore
first_half = record (line (codes "read")) { status = unfinished }

abbrev second_half : BatchLetCore
second_half = record (line (codes "read")) { status = resumed }

read-known : lookup (codes "read") models ≡ some (some read_model)
unfolding lookup text_eq
read-known = refl

feed-halves_example :
    ((feed models (feed models start first_half).0 second_half).1
      ≡ built 1 (read_model.construct tt (merged_half first_half second_half 0)).1)
    × ((feed models (feed models start first_half).0 second_half).0.store.core 1
        ≡ merged_half first_half second_half 0)
    × ((q : ℕ) (g : Text)
        → stack_of (feed models (feed models start first_half).0 second_half).0.stacks q g
          ≡ stack_of [] q g)
feed-halves_example =
    feed-halves models read_model start first_half second_half read-known refl refl refl refl refl
      (IsStacked-nil start.store)

abbrev alone : State Unit
alone = record start { store = alloc start.store second_half }

nothing_waits : get_last? (stack_of [] 7 (codes "read")) ≡ none
unfolding stack_of lookup
nothing_waits = refl

make_resumed-alone_example :
    (make_resumed read_model alone 0).1 ≡ batch (new_batch_let alone.store 0 orig)
make_resumed-alone_example = make_resumed-alone read_model alone 0 nothing_waits (λ e q. cc (q))

-- An unfinished half that the factory gets once more stands in its stack twice, so that the second of two
-- resumed halves fails.
abbrev twice : List Parsed
twice = parsed first_half ∷ unchanged ∷ parsed second_half ∷ parsed second_half ∷ []

twice-fails : get_last? (feed_all models start none twice).1 ≡ some (failed unfinished_status)
unfolding feed_all feed_parsed feed_end feed batch_let_factory make make_unfinished make_resumed
    make_plain base push built push_batch merge_pop_batch merge_cores merge_end lookup insert
    text_eq
twice-fails = refl
