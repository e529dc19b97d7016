-- ===== src/Flow/Arguments.antt =====
-- survol/scripts/dockit.py: `ClusterizeBatchesByArguments`, which makes one sequence of successive
-- calls that have the same arguments.
pub mod Runs
pub mod Grouping
use survol.Base.{
  ℕ, zero, suc, ◌+◌, ◌-◌, ltb, leb, Text, codes, List, [], ◌∷◌, ◌++◌, Option, none, some, Bool,
  true, false, if◌then◌else◌, length, get_elem?, slice, splice,
}
use survol.Batch.{Store}
use survol.Batch.Values.{Arg, args_eq}
use survol.Batch.Calls.{BatchLet, batch_let_sequence}
use survol.Batch.Failure.{Result, ok, raised, ◌>>=◌, index_error, value_error}

-- The store, the list and `numSubst`.
pub record Clustered : Type 0 where
  pub store : Store
  pub batches : List BatchLet
  pub subst : ℕ

-- `not lastArgs`
abbrev pub no_args : List Arg → Bool
no_args [] = true
no_args (a ∷ l) = false

module _ (parse_time : Text → Option ℕ) where
  -- `BatchLetSequence(...)`, whose `strptime` raises ValueError.
  unfoldable pub make_sequence : Store → List BatchLet → Text → Result (Store × BatchLet)
  make_sequence h range style = elim (batch_let_sequence parse_time h range style) [
    | none ↦ raised value_error
    | some r ↦ ok r
  ]

  -- What the loop does for a cluster, `m_listBatchLets[idxLast:idxBatch]`, of two calls or more.
  unfoldable pub close_cluster : Clustered → ℕ → ℕ → Result Clustered
  close_cluster s idx_last idx_batch =
      let body : Result Clustered =
        ((make_sequence s.store (slice s.batches idx_last idx_batch) (codes "Args")) >>= λ r.
        ok (record {
          store = r.0;
          batches = splice s.batches idx_last idx_batch (r.1 ∷ []);
          subst = s.subst + 1;
        })) in
      if ltb (idx_last + 1) idx_batch then body else ok s

  -- `while idxBatch <= lenBatch`; `lenBatch` is the length of the list all along.
  unfoldable pub cluster_loop : ℕ → ℕ → ℕ → Clustered → Result Clustered
  cluster_loop zero idx_last idx_batch s = ok s
  cluster_loop (suc fuel) idx_last idx_batch s =
      let close : Result Clustered =
        ((close_cluster s idx_last idx_batch) >>= λ s'.
        cluster_loop fuel (idx_last + 1) (idx_last + 1 + 1) s') in
      let inside : Result Clustered = elim (get_elem? s.batches idx_last) [
        | none ↦ raised index_error
        | some last ↦
            let skip = cluster_loop fuel (idx_last + 1) (idx_batch + 1) s in
            let compare_current : Result Clustered = elim (get_elem? s.batches idx_batch) [
              | none ↦ raised index_error
              | some current ↦
                  let grow = cluster_loop fuel idx_last (idx_batch + 1) s in
                  if args_eq current.significant_args last.significant_args then grow else close
            ] in
            if no_args last.significant_args then skip else compare_current
      ] in
      if leb idx_batch (length s.batches)
      then (if ltb idx_batch (length s.batches) then inside else close)
      else ok s

  -- `ClusterizeBatchesByArguments`; a round brings `idxBatch` one nearer to the length.
  unfoldable pub clusterize_by_arguments : Store → List BatchLet → Result Clustered
  clusterize_by_arguments h l =
      cluster_loop (length l) 0 1 (record { store = h; batches = l; subst = 0 })
