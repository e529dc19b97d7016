-- ===== src/Unfinished.antt =====
-- survol/scripts/dockit.py: `UnfinishedBatches`, the calls that wait for their resumed half, in one
-- stack for each process and function. The warnings that it prints are left out.
pub mod Stacks
pub mod Merging
pub mod Kept
pub mod Invariant
mod Tests
use survol.Base.{
  ℕ, Text, text_eq, List, [], ◌∷◌, ◌++◌, Option, none, some, Bool, if◌then◌else◌, Dict, nat_eq,
  text_eq_instance, lookup, insert, get_last?, drop_last, not,
}
use survol.Batch.{BatchLetCore, Store, write, status_eq, unfinished, resumed, matched, merged}
use survol.Batch.Failure.{Failure, inconsistent_functions, unfinished_status, resumed_status}

-- `m_mapStacks`: process, then function, then the addresses of the waiting cores.
abbrev pub MapStacks : Type 0
MapStacks = Dict ℕ (Dict Text (List ℕ))

pub push_by_func : Text → ℕ → Dict Text (List ℕ) → Dict Text (List ℕ)
push_by_func f a by_pids = elim (lookup f by_pids) [
  | some stack ↦ insert f (stack ++ a ∷ []) by_pids
  | none ↦ insert f (a ∷ []) by_pids
]

-- `PushBatch`
unfoldable pub push_batch : Store → MapStacks → ℕ → MapStacks
unfolding push_by_func
push_batch h m a =
    let c = h.core a in
    elim (lookup c.pid m) [
      | some by_pids ↦ insert c.pid (push_by_func c.func_nam a by_pids) m
      | none ↦ insert c.pid ((c.func_nam, a ∷ []) ∷ []) m
    ]

-- The second half of `MergePopBatch`: the sanity checks, and the writes to the two cores, in the
-- order of the source. A check that fails leaves what was written before it.
unfoldable pub merge_cores : Store → ℕ → ℕ → Store × Option Failure
merge_cores h u r =
    if not (text_eq (h.core u).func_nam (h.core r).func_nam)
    then (h, some inconsistent_functions)
    else let args_merged = (h.core u).parsed_args ++ (h.core r).parsed_args in
      let h1 = write h r (record (h.core r) { parsed_args = args_merged }) in
      if not (status_eq (h1.core u).status unfinished)
      then (h1, some unfinished_status)
      else let h2 = write h1 u (record (h1.core u) { status = matched; resumed_batch = some r }) in
        if not (status_eq (h2.core r).status resumed)
        then (h2, some resumed_status)
        else (write h2 r (record (h2.core r) { status = merged; unfinished_batch = some u }), none)

-- What `MergePopBatch` returns beside the objects that it mutated: whether the half was found.
pub record Merge : Type 0 where
  pub store : Store
  pub stacks : MapStacks
  pub found : Bool

-- `MergePopBatch` returns, or raises and leaves the objects that it mutated.
pub data Merged : Type 0 where
  returned : Merge → Merged
  broken : Store → MapStacks → Failure → Merged

unfoldable pub merge_end : MapStacks → Store × Option Failure → Merged
merge_end m (h, none) = returned (record { store = h; stacks = m; found = Bool.true })
merge_end m (h, some e) = broken h m e

-- `MergePopBatch`
unfoldable pub merge_pop_batch : Store → MapStacks → ℕ → Merged
merge_pop_batch h m r =
    let c = h.core r in
    let missing : Merged = returned (record { store = h; stacks = m; found = Bool.false }) in
    elim (lookup c.pid m) [
      | none ↦ missing
      | some by_pids ↦ elim (lookup c.func_nam by_pids) [
        | none ↦ missing
        | some stack ↦ elim (get_last? stack) [
          | none ↦ missing
          | some u ↦
              merge_end (insert c.pid (insert c.func_nam (drop_last stack) by_pids) m)
                (merge_cores h u r)
        ]
      ]
    ]
