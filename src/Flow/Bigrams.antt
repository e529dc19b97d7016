-- ===== src/Flow/Bigrams.antt =====
-- survol/scripts/dockit.py: `StatisticsBigrams` and `ClusterizeBigrams`, which put frequent pairs of
-- successive calls into sequences, and `FactorizeOneFlow`, which runs all the passes. What is printed
-- is left out.
pub mod Passes
pub mod Rounds
pub mod Factorizing
mod Tests
use survol.Base.{
  ℕ, zero, suc, ◌+◌, ◌-◌, ◌==◌, ltb, Text, codes, List, [], ◌∷◌, ◌++◌, Option, none, some, Bool,
  if◌then◌else◌, Dict, text_eq_instance, lookup, insert, length, get_elem?, set, slice, splice,
}
use survol.Batch.{Store}
use survol.Batch.Calls.{BatchLet, same_call, signature_for_repetitions}
use survol.Batch.Failure.{Result, ok, raised, ◌>>=◌}
use survol.Flow.{bump, Filtered, filter_matched_batches}
use survol.Flow.Arguments.{Clustered, make_sequence, clusterize_by_arguments}

-- `mapOccurences[ keyRange ] += 1`, or 1 where the key is missing.
unfoldable pub count_key : Text → Dict Text ℕ → Dict Text ℕ
count_key k m = elim (lookup k m) [ none ↦ insert k 1 m | some n ↦ insert k (n + 1) m ]

-- `mapOccurences.get( keyRange, 0 )`
unfoldable pub occurrences_of : Text → Dict Text ℕ → ℕ
occurrences_of k m = elim (lookup k m) [ none ↦ 0 | some n ↦ n ]

-- The variables of `ClusterizeBigrams`. `batchSeqPrev` is None or the object at a place of the list.
pub record Bigrams : Type 0 where
  pub store : Store
  pub batches : List BatchLet
  pub subst : ℕ
  pub idx_batch : ℕ
  pub max_idx : ℕ
  pub prev : Option ℕ

-- The new sequence takes the place of the pair.
unfoldable pub put_sequence : Bigrams → Store → BatchLet → Bigrams
put_sequence s h seq = record {
  store = h;
  batches = splice s.batches s.idx_batch (s.idx_batch + 2) (seq ∷ []);
  subst = s.subst + 1;
  idx_batch = s.idx_batch + 1;
  max_idx = s.max_idx - 1;
  prev = some s.idx_batch;
}

-- The pair goes, and the previous sequence, `p` at `place`, counts once more.
unfoldable pub reuse_sequence : Bigrams → Store → ℕ → BatchLet → Bigrams
reuse_sequence s h place p = record {
  store = h;
  batches = splice (set s.batches place (bump p)) s.idx_batch (s.idx_batch + 2) [];
  subst = s.subst + 1;
  idx_batch = s.idx_batch;
  max_idx = s.max_idx - 2;
  prev = s.prev;
}

unfoldable pub replace_pair : Bigrams → Store → BatchLet → Bigrams
replace_pair s h seq = elim s.prev [
  | none ↦ put_sequence s h seq
  | some place ↦ elim (get_elem? s.batches place) [
    | none ↦ put_sequence s h seq
    | some p ↦ if same_call h seq p then reuse_sequence s h place p else put_sequence s h seq
  ]
]

-- `batchSeqPrev = None; idxBatch += 1`
unfoldable pub pass_pair : Bigrams → Bigrams
pass_pair s = record s { idx_batch = s.idx_batch + 1; prev = none }

module _ (repr : Text → Text) where
  unfoldable pub statistics_loop : Store → List BatchLet → Dict Text ℕ → Dict Text ℕ
  unfolding count_key
  statistics_loop h [] m = m
  statistics_loop h (x ∷ []) m = m
  statistics_loop h (x ∷ y ∷ l) m =
      statistics_loop h (y ∷ l) (count_key (signature_for_repetitions repr h (x ∷ y ∷ [])) m)

  -- `StatisticsBigrams`
  unfoldable pub statistics_bigrams : Store → List BatchLet → Dict Text ℕ
  unfolding statistics_loop
  statistics_bigrams h l = statistics_loop h l []

  module _ (parse_time : Text → Option ℕ) where
    -- The body of the loop of `ClusterizeBigrams`.
    unfoldable pub bigram_step : Dict Text ℕ → Bigrams → Result Bigrams
    unfolding replace_pair pass_pair occurrences_of
    bigram_step m s =
        let range = slice s.batches s.idx_batch (s.idx_batch + 2) in
        let replaced : Result Bigrams =
          ((make_sequence parse_time s.store range (codes "Rept")) >>= λ r.
          ok (replace_pair s r.0 r.1)) in
        if ltb 5 (occurrences_of (signature_for_repetitions repr s.store range) m)
        then replaced
        else ok (pass_pair s)

    -- `while idxBatch < maxIdx`; each round brings the two nearer to each other.
    unfoldable pub bigram_loop : ℕ → Dict Text ℕ → Bigrams → Result Bigrams
    unfolding bigram_step
    bigram_loop zero m s = ok s
    bigram_loop (suc fuel) m s =
        let rest = (bigram_step m s) >>= λ s'. bigram_loop fuel m s' in
        if ltb s.idx_batch s.max_idx then rest else ok s

    -- `ClusterizeBigrams`
    unfoldable pub clusterize_bigrams : Store → List BatchLet → Result Bigrams
    unfolding bigram_loop statistics_bigrams
    clusterize_bigrams h l = bigram_loop (length l) (statistics_bigrams h l) (record {
      store = h;
      batches = l;
      subst = 0;
      idx_batch = 0;
      max_idx = length l - 1;
      prev = none;
    })

    -- The loop of `FactorizeOneFlow`: the last pass, or `none` where the fuel is too small.
    unfoldable pub bigram_rounds : ℕ → Store → List BatchLet → Result (Option Bigrams)
    unfolding clusterize_bigrams
    bigram_rounds zero h l = ok none
    bigram_rounds (suc fuel) h l = (clusterize_bigrams h l) >>= λ s.
        let rest = bigram_rounds fuel s.store s.batches in
        if s.subst == 0 then ok (some s) else rest

    -- `FactorizeOneFlow`
    unfoldable pub factorize_one_flow : Store → List BatchLet → Result (Option Clustered)
    unfolding bigram_rounds
    factorize_one_flow h l = (filter_matched_batches h l) >>= λ f.
        ((bigram_rounds (suc (length f.batches)) f.store f.batches) >>= λ o. elim o [
          | none ↦ ok none
          | some s ↦ (clusterize_by_arguments parse_time s.store s.batches) >>= λ c. ok (some c)
        ])
