-- ===== src/Unfinished/Tests.antt =====
-- Runs of `UnfinishedBatches` on the two halves of a call of read.
use survol.Base.{
  ℕ, ◌==◌, Text, text_eq, codes, [], ◌∷◌, none, some, true, false, ◌&&◌, if◌then◌else◌, lookup,
  insert, drop_last, get_last?, ◌++◌, ◌≡◌, ◌≢◌, refl, arith, All,
}
use survol.Batch.{BatchLetCore, Store, new_core, unfinished, resumed}
use survol.Batch.Values.{Arg}
use survol.Unfinished.{MapStacks, push_batch, Merge, returned, merge_pop_batch}
use survol.Unfinished.Stacks.{stack_of, stack_of-push_batch}
use survol.Unfinished.Merging.{
  IsStacked, merged_half, matched_half, merge_pop_batch_found, merge_pop_batch_missing,
}
use survol.Unfinished.Invariant.{IsStacked-nil, push_batch-IsStacked, merge_pop_batch-IsStacked}

abbrev first_half : BatchLetCore
first_half = record new_core {
  pid = 7;
  func_nam = codes "read";
  status = unfinished;
  parsed_args = Arg.text (codes "3") ∷ [];
}

abbrev second_half : BatchLetCore
second_half = record new_core {
  pid = 7;
  func_nam = codes "read";
  status = resumed;
  parsed_args = Arg.text (codes "abc") ∷ [];
}

abbrev halves : Store
halves = record { next = 2; core = λ b. if b == 0 then first_half else second_half }

abbrev waiting : MapStacks
waiting = (7, (codes "read", 0 ∷ []) ∷ []) ∷ []

waiting-eq : push_batch halves [] 0 ≡ waiting
unfolding push_batch lookup insert
waiting-eq = refl

fresh : All (λ b. b ≢ 0) (stack_of [] 7 (codes "read"))
unfolding stack_of lookup
fresh = tt

waiting-IsStacked : IsStacked halves waiting
waiting-IsStacked =
    rw waiting-eq at
      (push_batch-IsStacked halves [] 0 (IsStacked-nil halves) refl (omega arith) fresh)

top : get_last? (stack_of waiting 7 (codes "read")) ≡ some 0
unfolding stack_of lookup text_eq
top = refl

empty : get_last? (stack_of [] 7 (codes "read")) ≡ none
unfolding stack_of lookup
empty = refl

merge_pop_batch_found_example :
    (res : Merge) × (merge_pop_batch halves waiting 1 ≡ returned res)
    × (res.found ≡ true)
    × (res.store.core 1 ≡ merged_half first_half second_half 0)
    × (res.store.core 0 ≡ matched_half first_half 1)
    × ((b : ℕ) → b ≢ 1 → b ≢ 0 → res.store.core b ≡ halves.core b)
    × (res.store.next ≡ 2)
    × ((q : ℕ) (g : Text)
        → stack_of res.stacks q g ≡ (
            if (7 == q) && text_eq (codes "read") g
            then drop_last (stack_of waiting q g)
            else stack_of waiting q g))
merge_pop_batch_found_example = merge_pop_batch_found halves waiting 1 0 waiting-IsStacked refl top

merge_pop_batch_missing_example :
    merge_pop_batch halves [] 1 ≡ returned (record { store = halves; stacks = []; found = false })
merge_pop_batch_missing_example = merge_pop_batch_missing halves [] 1 empty

stack_of-push_batch_example : stack_of (push_batch halves waiting 0) 7 (codes "read") ≡ (
    if (7 == 7) && text_eq (codes "read") (codes "read")
    then stack_of waiting 7 (codes "read") ++ 0 ∷ []
    else stack_of waiting 7 (codes "read"))
stack_of-push_batch_example = stack_of-push_batch halves waiting 0 7 (codes "read")

push_batch-IsStacked_example : IsStacked halves (push_batch halves [] 0)
push_batch-IsStacked_example =
    push_batch-IsStacked halves [] 0 (IsStacked-nil halves) refl (omega arith) fresh

merge_pop_batch-IsStacked_example :
    (res : Merge) × (merge_pop_batch halves waiting 1 ≡ returned res)
    × IsStacked res.store res.stacks
merge_pop_batch-IsStacked_example =
    merge_pop_batch-IsStacked halves waiting 1 0 waiting-IsStacked refl top
