-- ===== src/Flow/Bigrams/Factorizing.antt =====
-- `FactorizeOneFlow` as a whole.
use survol.Base.{ℕ, suc, ◌≤◌, Text, List, Option, some, length, inl, inr, ◌≡◌, refl, arith}
use survol.Batch.{Store}
use survol.Batch.Calls.{BatchLet}
use survol.Batch.Failure.{ok}
use survol.Flow.Filtering.{IsLinked, without_halves}
use survol.Flow.Halves.{filter_matched_batches_lem}
use survol.Flow.Arguments.{Clustered, clusterize_by_arguments}
use survol.Flow.Arguments.Runs.{Result-cases}
use survol.Flow.Bigrams.{Bigrams, clusterize_bigrams, factorize_one_flow}
use survol.Flow.Bigrams.Rounds.{RaisesOr, bigram_rounds-ends}

-- On a flow where no core stands twice, whose halves and resumed halves refer to one another, and where
-- neighbours of which the first is a half and the second has both halves are calls of one function:
-- `FactorizeOneFlow` raises an exception or ends. Its last pass of `ClusterizeBigrams` replaces nothing, on a flow that is not longer than what
-- `FilterMatchedBatches` leaves, and `ClusterizeBatchesByArguments` makes the result of it.
pub factorize_one_flow-ends :
    (repr : Text → Text) (parse_time : Text → Option ℕ) (h : Store) (l : List BatchLet)
    → IsLinked h l
    → RaisesOr (factorize_one_flow repr parse_time h l) (λ o.
      (s : Bigrams) × (c : Clustered) × (o ≡ some c)
      × (length s.batches ≤ length (without_halves h l))
      × (clusterize_bigrams repr parse_time s.store s.batches ≡ ok s)
      × (s.subst ≡ 0)
      × (clusterize_by_arguments parse_time s.store s.batches ≡ ok c))
unfolding factorize_one_flow
factorize_one_flow-ends repr parse_time h l linked =
    let (f, filtered, left, _) = filter_matched_batches_lem h l linked in
    let rounds =
      bigram_rounds-ends repr parse_time (suc (length f.batches)) f.store f.batches (omega arith) in
    elim rounds [
      | inl (e, q) ↦ inl (e, rw (factorize_one_flow, filtered, q))
      | inr (o, q, (s, is, size, z, last)) ↦
          let q' = rw is at q in
          elim (Result-cases (clusterize_by_arguments parse_time s.store s.batches)) [
            | inl (e, r) ↦ inl (e, rw (factorize_one_flow, filtered, q', r))
            | inr (c, r) ↦ inr (
              some c,
              rw (factorize_one_flow, filtered, q', r),
              (s, c, refl, rw (← left) size, last, z, r),
            )
          ]
    ]
