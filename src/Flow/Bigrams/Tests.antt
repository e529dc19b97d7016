-- ===== src/Flow/Bigrams/Tests.antt =====
-- Runs of `ClusterizeBigrams` on a flow in which a pair of calls comes back.
use survol.Base.{
  ℕ, ◌+◌, ◌≤◌, ◌<◌, ◌==◌, Text, codes, List, [], ◌∷◌, ◌++◌, Option, some, if◌then◌else◌, length,
  ◌⊎◌, ◌≡◌, arith,
}
use survol.Batch.{Store, new_core, plain}
use survol.Batch.Calls.{BatchLet, new_batch_let}
use survol.Batch.Failure.{ok}
use survol.Flow.Bigrams.{Bigrams, clusterize_bigrams, bigram_rounds}
use survol.Flow.Bigrams.Rounds.{RaisesOr, clusterize_bigrams-ends, bigram_rounds-ends}

abbrev calls : Store
calls = record {
  next = 2;
  core = λ b. record new_core {
    status = plain;
    func_nam = if b == 0 then codes "read" else codes "write";
  };
}

abbrev pair : List BatchLet
pair = new_batch_let calls 0 (codes "Orig") ∷ new_batch_let calls 1 (codes "Orig") ∷ []

abbrev flow : List BatchLet
flow = pair ++ (pair ++ (pair ++ (pair ++ (pair ++ pair))))

abbrev shown : Text → Text
shown t = t

abbrev midnight : Text → Option ℕ
midnight t = some 0

clusterize_bigrams-ends_example : RaisesOr (clusterize_bigrams shown midnight calls flow) (λ s.
    (length s.batches ≤ s.idx_batch + 1)
    × (s.subst + length s.batches ≤ length flow)
    × ((0 < s.subst) ⊎ ((s.subst ≡ 0) × (s.store ≡ calls) × (s.batches ≡ flow))))
clusterize_bigrams-ends_example = clusterize_bigrams-ends shown midnight calls flow

bigram_rounds-ends_example : RaisesOr (bigram_rounds shown midnight 13 calls flow) (λ o.
    (s : Bigrams) × (o ≡ some s)
    × (length s.batches ≤ length flow)
    × (s.subst ≡ 0)
    × (clusterize_bigrams shown midnight s.store s.batches ≡ ok s))
bigram_rounds-ends_example = bigram_rounds-ends shown midnight 13 calls flow (omega arith)
