-- ===== src/Flow/Tests.antt =====
-- Runs of the passes over a flow of calls.
use survol.Base.{
  ℕ, ◌+◌, ◌==◌, codes, List, [], ◌∷◌, none, some, if◌then◌else◌, length, ◌≡◌, refl, arith, All,
}
use survol.Batch.{BatchLetCore, Store, new_core, plain, matched, merged}
use survol.Batch.Values.{Arg}
use survol.Batch.Calls.{BatchLet, new_batch_let}
use survol.Batch.Failure.{ok}
use survol.Flow.{Filtered, filter_matched_batches}
use survol.Flow.Adding.{
  add_all, send_all, Alternates, total_occurrences, batches-send_all, add_all_counts,
}
use survol.Flow.Filtering.{IsLinked, HalfLinked, CallLinked, without_halves}
use survol.Base.{◌≤◌}
use survol.Flow.Bigrams.{Bigrams, clusterize_bigrams, factorize_one_flow}
use survol.Flow.Bigrams.Rounds.{RaisesOr}
use survol.Flow.Bigrams.Factorizing.{factorize_one_flow-ends}
use survol.Flow.Halves.{filter_matched_batches_lem}
use survol.Flow.Arguments.{Clustered, clusterize_by_arguments}
use survol.Flow.Arguments.Runs.{grouped}
use survol.Flow.Arguments.Grouping.{clusterize_by_arguments_lem}

abbrev read : BatchLetCore
read = record new_core { pid = 7; func_nam = codes "read"; parsed_args = Arg.text (codes "3") ∷ [] }

-- A half, its call, and a call of another function.
abbrev linked : Store
linked = record {
  next = 3;
  core = λ b.
      if b == 0
      then record read { status = matched; resumed_batch = some 1 }
      else if b == 1
      then record read { status = merged; unfinished_batch = some 0 }
      else record read { status = plain; func_nam = codes "write" };
}

abbrev entry : ℕ → BatchLet
entry a = new_batch_let linked a (codes "Orig")

abbrev flow : List BatchLet
flow = entry 0 ∷ entry 1 ∷ entry 2 ∷ []

flow-halves : All (HalfLinked linked) flow
unfolding new_batch_let
flow-halves = ((λ e. (1, refl, refl)), ((λ e. cc (e)), ((λ e. cc (e)), tt)))

flow-calls : All (CallLinked linked) flow
unfolding new_batch_let
flow-calls = ((λ e. cc (e)), ((λ e. (0, refl, refl)), ((λ e. cc (e)), tt)))

flow-IsLinked : IsLinked linked flow
flow-IsLinked = record {
  halves = flow-halves;
  calls = flow-calls;
  functions = unfold new_batch_let in ((λ e. refl), ((λ e. cc (e)), tt));
  distinct =
      unfold new_batch_let in
      (
        ((λ e. omega (arith, e)), ((λ e. omega (arith, e)), tt)),
        (((λ e. omega (arith, e)), tt), (tt, tt)),
      );
}

filter_matched_batches_lem_example :
    (s : Filtered) × (filter_matched_batches linked flow ≡ ok s)
    × (s.batches ≡ without_halves linked flow)
    × (s.subst + length s.batches ≡ 3)
filter_matched_batches_lem_example = filter_matched_batches_lem linked flow flow-IsLinked

clusterize_by_arguments_lem_example :
    clusterize_by_arguments (λ t. some 0) linked flow
    ≡ grouped (λ t. some 0) linked 0 (entry 0) [] (entry 1 ∷ entry 2 ∷ [])
clusterize_by_arguments_lem_example =
    clusterize_by_arguments_lem (λ t. some 0) linked (entry 0) (entry 1 ∷ entry 2 ∷ [])

batches-send_all_example :
    (send_all linked (record { batches = []; last = none }) flow).batches ≡ add_all linked [] flow
batches-send_all_example = batches-send_all linked flow

ones : All (λ b. b.occurrences ≡ 1) flow
unfolding new_batch_let
ones = (refl, (refl, (refl, tt)))

add_all_counts_example :
    Alternates linked (add_all linked [] flow)
    × (total_occurrences (add_all linked [] flow) ≡ total_occurrences [] + 3)
add_all_counts_example = add_all_counts linked [] flow tt ones

factorize_one_flow-ends_example :
    RaisesOr (factorize_one_flow (λ t. t) (λ t. some 0) linked flow) (λ o.
      (s : Bigrams) × (c : Clustered) × (o ≡ some c)
      × (length s.batches ≤ length (without_halves linked flow))
      × (clusterize_bigrams (λ t. t) (λ t. some 0) s.store s.batches ≡ ok s)
      × (s.subst ≡ 0)
      × (clusterize_by_arguments (λ t. some 0) s.store s.batches ≡ ok c))
factorize_one_flow-ends_example =
    factorize_one_flow-ends (λ t. t) (λ t. some 0) linked flow flow-IsLinked
