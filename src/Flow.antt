-- ===== src/Flow.antt =====
-- survol/scripts/dockit.py: `BatchFlow`, the calls of one process, and the passes that shorten it.
-- A flow is its list `m_listBatchLets`; the cores stand in the store.
pub mod Adding
pub mod Filtering
pub mod Rounds
pub mod Halves
pub mod Arguments
pub mod Bigrams
mod Tests
use survol.Base.{
  ℕ, zero, suc, ◌+◌, ◌-◌, ◌==◌, ltb, leb, Text, codes, text_eq, List, [], ◌∷◌, ◌++◌, Option, none,
  some, Bool, true, false, ◌&&◌, not, if◌then◌else◌, length, get_elem?, set, slice, splice,
  get_last?, drop_last,
}
use survol.Batch.{BatchLetCore, Store, write, status_eq, matched, merged}
use survol.Batch.Values.{Arg, args_eq}
use survol.Batch.Calls.{BatchLet, same_call, batch_let_sequence}
use survol.Batch.Failure.{
  Result, ok, raised, ◌>>=◌, inconsistency1, inconsistency2, inconsistency3, attribute_error,
  index_error, value_error,
}

abbrev pub bump : BatchLet → BatchLet
bump b = record b { occurrences = b.occurrences + 1 }

-- `AddBatch`
unfoldable pub add_batch : Store → List BatchLet → BatchLet → List BatchLet
add_batch h l b = elim (get_last? l) [
  | none ↦ l ++ b ∷ []
  | some last ↦ if same_call h last b then drop_last l ++ bump last ∷ [] else l ++ b ∷ []
]

-- The coroutine `AddingCoroutine`: the flow, and `lstBatch`, which is None or the object that
-- stands in the flow at the given place.
pub record Coroutine : Type 0 where
  pub batches : List BatchLet
  pub last : Option ℕ

-- `SendBatch`, one round of the coroutine.
unfoldable pub send_batch : Store → Coroutine → BatchLet → Coroutine
send_batch h c b =
    let batches : List BatchLet = elim c.last [
      | none ↦ c.batches ++ b ∷ []
      | some i ↦ elim (get_elem? c.batches i) [
        | none ↦ c.batches ++ b ∷ []
        | some last ↦
            if same_call h last b then set c.batches i (bump last) else c.batches ++ b ∷ []
      ]
    ] in
    record { batches = batches; last = some (length batches - 1) }

-- `prev` waits for its other half, and `cur` is a call that has found its other half.
abbrev pub is_pair : Store → BatchLet → BatchLet → Bool
is_pair h prev cur =
    status_eq (h.core prev.core).status matched && status_eq (h.core cur.core).status merged

-- `==` of two references, of which the first may be None.
abbrev pub refers_to : Option ℕ → ℕ → Bool
refers_to none a = false
refers_to (some b) a = b == a

-- The three sanity checks of `FilterMatchedBatches`, for a pair.
unfoldable pub check_pair : Store → BatchLet → BatchLet → Result (Unit {0})
check_pair h prev cur =
    if not (text_eq (h.core prev.core).func_nam (h.core cur.core).func_nam)
    then raised inconsistency1
    else elim (h.core prev.core).resumed_batch [
      | none ↦ raised attribute_error
      | some r ↦
          if not (refers_to (h.core r).unfinished_batch prev.core)
          then raised inconsistency2
          else elim (h.core cur.core).unfinished_batch [
            | none ↦ raised attribute_error
            | some u ↦
                if not (refers_to (h.core u).resumed_batch cur.core)
                then raised inconsistency3
                else ok tt
          ]
    ]

abbrev pub is_joined : Store → BatchLet → BatchLet → Bool
is_joined h prev cur =
    refers_to (h.core prev.core).resumed_batch cur.core
    && refers_to (h.core cur.core).unfinished_batch prev.core

-- What a pass of `FilterMatchedBatches` leaves: the store, the list, and `numSubst`.
pub record Filtered : Type 0 where
  pub store : Store
  pub batches : List BatchLet
  pub subst : ℕ

-- The body of the loop for a pair of neighbours, with `idxBatch`; the next round is at `idxBatch + 1`.
unfoldable pub filter_step : Filtered → ℕ → BatchLet → BatchLet → Result Filtered
filter_step s idx prev cur =
    if is_pair s.store prev cur
    then ((check_pair s.store prev cur) >>= λ _.
        if is_joined s.store prev cur
        then ok (record {
          store =
              write s.store cur.core (record (s.store.core cur.core) { unfinished_batch = none });
          batches = splice s.batches (idx - 1) idx [];
          subst = s.subst + 1;
        })
        else ok s)
    else ok s

-- `while idxBatch < lenBatch`, where `lenBatch` is the length of the list. The fuel is the length at
-- the start.
unfoldable pub filter_loop : ℕ → ℕ → Filtered → Result Filtered
filter_loop zero idx s = ok s
filter_loop (suc fuel) idx s =
    let body : Result Filtered = elim (get_elem? s.batches (idx - 1)) [
      | none ↦ raised index_error
      | some prev ↦ elim (get_elem? s.batches idx) [
        | none ↦ raised index_error
        | some cur ↦ (filter_step s idx prev cur) >>= λ s'. filter_loop fuel (idx + 1) s'
      ]
    ] in
    if ltb idx (length s.batches) then body else ok s

-- `FilterMatchedBatches`
unfoldable pub filter_matched_batches : Store → List BatchLet → Result Filtered
filter_matched_batches h l = filter_loop (length l) 1 (record { store = h; batches = l; subst = 0 })
