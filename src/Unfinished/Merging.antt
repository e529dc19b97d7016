-- ===== src/Unfinished/Merging.antt =====
-- `MergePopBatch` finds the last half that waits in its process and function, and no sanity check
-- of it fails in a state where every stack holds calls that wait there, each one once.
use survol.Base.{
  ℕ, ◌<◌, ◌==◌, ==_refl, Text, text_eq, text_eq_iff, List, [], ◌∷◌, ◌++◌, none, some, true, false,
  ◌&&◌, if◌then◌else◌, Dict, nat_eq, text_eq_instance, lookup, drop_last, get_last?, subst, ◌≡◌,
  ◌≢◌, refl, arith, Option-cases, inl, inr, All,
}
use survol.Batch.{BatchLetCore, Store, write, unfinished, resumed, matched, merged}
use survol.Unfinished.{MapStacks, Merge, returned, merge_cores, merge_end, merge_pop_batch}
use survol.Unfinished.Stacks.{stack_of, popped, stack_of-popped}

-- The two cores after a merge.
abbrev pub matched_half : BatchLetCore → ℕ → BatchLetCore
matched_half c r = record c { status = matched; resumed_batch = some r }

abbrev pub merged_half : BatchLetCore → BatchLetCore → ℕ → BatchLetCore
merged_half cu cr u = record cr {
  parsed_args = cu.parsed_args ++ cr.parsed_args;
  status = merged;
  unfinished_batch = some u;
}

module _ (h : Store) (u r : ℕ) (cu cr : BatchLetCore) (at_u : h.core u ≡ cu) (at_r : h.core r ≡ cr)
    (same : cu.func_nam ≡ cr.func_nam) (waits : cu.status ≡ unfinished)
    (resumes : cr.status ≡ resumed) where
  halves_differ : r ≢ u
  halves_differ e = cc

  differ : (r == u) ≡ false
  differ = ground (arith, halves_differ)

  differ' : (u == r) ≡ false
  differ' = ground (arith, halves_differ)

  merged_store : Store
  merged_store =
      write
        (write (write h r (record cr { parsed_args = cu.parsed_args ++ cr.parsed_args })) u
          (matched_half cu r))
        r (merged_half cu cr u)

  merge_cores-eq-ok : merge_cores h u r ≡ (merged_store, none)
  unfolding merge_cores merged_store
  merge_cores-eq-ok =
      rw (at_u, at_r, (text_eq_iff cu.func_nam cr.func_nam).1 same, differ, differ', ==_refl r)
        (ground arith)

  next-merged_store : merged_store.next ≡ h.next
  unfolding merged_store
  next-merged_store = refl

  core-merged_store :
      (merged_store.core r ≡ merged_half cu cr u)
      × (merged_store.core u ≡ matched_half cu r)
      × ((b : ℕ) → b ≢ r → b ≢ u → merged_store.core b ≡ h.core b)
  unfolding merged_store
  core-merged_store =
      (ground (arith, ==_refl r), ground (arith, differ, ==_refl u), λ b nr nu. ground arith)

-- A call waits in the stack of its process and function.
abbrev pub IsWaiting : Store → ℕ → Text → ℕ → Type 0
IsWaiting h p f a =
    ((h.core a).pid ≡ p)
    × ((h.core a).func_nam ≡ f)
    × ((h.core a).status ≡ unfinished)
    × (a < h.next)

abbrev pub Distinct : List ℕ → Type 0
Distinct [] = Unit
Distinct (a ∷ l) = All (λ b. a ≢ b) l × Distinct l

pub record IsStacked (h : Store) (m : MapStacks) : Type 0 where
  pub waiting : (p : ℕ) (f : Text) → All (IsWaiting h p f) (stack_of m p f)
  pub distinct : (p : ℕ) (f : Text) → Distinct (stack_of m p f)

pub All-last : (P : ℕ → Type 0) (l : List ℕ) (u : ℕ) → All P l → get_last? l ≡ some u → P u
All-last P [] u h e = cc
All-last P (a ∷ []) u h e = let q : a ≡ u = cc in subst P q h.0
All-last P (a ∷ b ∷ l) u h e = All-last P (b ∷ l) u h.1 e

pub All-drop_last : (P : ℕ → Type 0) (l : List ℕ) → All P l → All P (drop_last l)
All-drop_last P [] h = h
All-drop_last P (a ∷ []) h = tt
All-drop_last P (a ∷ b ∷ l) h = (h.0, All-drop_last P (b ∷ l) h.1)

pub Distinct-drop_last : (l : List ℕ) → Distinct l → Distinct (drop_last l)
Distinct-drop_last [] h = h
Distinct-drop_last (a ∷ []) h = tt
Distinct-drop_last (a ∷ b ∷ l) h =
    (All-drop_last (λ c. a ≢ c) (b ∷ l) h.0, Distinct-drop_last (b ∷ l) h.1)

-- What stands under the top of a stack with no call twice is another call.
pub under-top-ne :
    (l : List ℕ) (u : ℕ) → Distinct l → get_last? l ≡ some u → All (λ b. b ≢ u) (drop_last l)
under-top-ne [] u h e = tt
under-top-ne (a ∷ []) u h e = tt
under-top-ne (a ∷ b ∷ l) u h e =
    (All-last (λ c. a ≢ c) (b ∷ l) u h.0 e, under-top-ne (b ∷ l) u h.1 e)

-- The stack of a process and function, found in the two dictionaries.
record Found (m : MapStacks) (p : ℕ) (f : Text) (u : ℕ) : Type 0 where
  by_pids : Dict Text (List ℕ)
  stack : List ℕ
  at_pid : lookup p m ≡ some by_pids
  at_func : lookup f by_pids ≡ some stack
  at_top : get_last? stack ≡ some u

find_stack :
    (m : MapStacks) (p : ℕ) (f : Text) (u : ℕ) → get_last? (stack_of m p f) ≡ some u → Found m p f u
unfolding stack_of
find_stack m p f u e = elim (Option-cases (lookup p m)) [
  | inl no_pid ↦ absurd (ground (arith, no_pid))
  | inr (d, at_pid) ↦ elim (Option-cases (lookup f d)) [
    | inl no_func ↦ absurd (ground (arith, at_pid, no_func))
    | inr (stack, at_func) ↦ record {
      by_pids = d;
      stack = stack;
      at_pid = at_pid;
      at_func = at_func;
      at_top = ground (arith, at_pid, at_func);
    }
  ]
]

module _ (h : Store) (m : MapStacks) (r u : ℕ) (stacked : IsStacked h m)
    (resumes : (h.core r).status ≡ resumed)
    (top : get_last? (stack_of m (h.core r).pid (h.core r).func_nam) ≡ some u) where
  top-IsWaiting : IsWaiting h (h.core r).pid (h.core r).func_nam u
  top-IsWaiting = All-last _ _ u (stacked.waiting (h.core r).pid (h.core r).func_nam) top

  pub merge_result : Merge
  merge_result =
      let f = find_stack m (h.core r).pid (h.core r).func_nam u top in
      let w = top-IsWaiting in
      record {
        store = merged_store h u r (h.core u) (h.core r) refl refl w.1 w.2 resumes;
        stacks = popped m (h.core r).pid (h.core r).func_nam f.by_pids f.stack;
        found = true;
      }

  merge_pop_batch-eq-ok : merge_pop_batch h m r ≡ returned merge_result
  unfolding merge_pop_batch merge_end merge_result
  merge_pop_batch-eq-ok =
      let f = find_stack m (h.core r).pid (h.core r).func_nam u top in
      let w = top-IsWaiting in
      rw (
        merge_pop_batch,
        f.at_pid,
        f.at_func,
        f.at_top,
        merge_cores-eq-ok h u r (h.core u) (h.core r) refl refl w.1 w.2 resumes,
      )

  -- A resumed call finds the last call that waits in its process and function: no sanity check
  -- fails, the resumed core gets the arguments of both halves, the two cores are linked, every other
  -- core is as before, no core is created, and that call alone leaves the stacks.
  pub merge_pop_batch_found :
      (res : Merge) × (merge_pop_batch h m r ≡ returned res)
      × (res.found ≡ true)
      × (res.store.core r ≡ merged_half (h.core u) (h.core r) u)
      × (res.store.core u ≡ matched_half (h.core u) r)
      × ((b : ℕ) → b ≢ r → b ≢ u → res.store.core b ≡ h.core b)
      × (res.store.next ≡ h.next)
      × ((q : ℕ) (g : Text)
          → stack_of res.stacks q g ≡ (
              if ((h.core r).pid == q) && text_eq (h.core r).func_nam g
              then drop_last (stack_of m q g)
              else stack_of m q g))
  merge_pop_batch_found =
      let f = find_stack m (h.core r).pid (h.core r).func_nam u top in
      let w = top-IsWaiting in
      let c = core-merged_store h u r (h.core u) (h.core r) refl refl w.1 w.2 resumes in
      (
        merge_result,
        merge_pop_batch-eq-ok,
        unfold merge_result in refl,
        unfold merge_result in c.0,
        unfold merge_result in c.1,
        unfold merge_result in c.2,
        unfold merge_result in
            next-merged_store h u r (h.core u) (h.core r) refl refl w.1 w.2 resumes,
        unfold merge_result in
            λ q g.
              stack_of-popped m (h.core r).pid q (h.core r).func_nam g f.by_pids f.stack f.at_pid
                f.at_func,
      )

-- Where nothing waits in the process and function of a resumed call, `MergePopBatch` returns None
-- and mutates nothing.
pub merge_pop_batch_missing :
    (h : Store) (m : MapStacks) (r : ℕ)
    → get_last? (stack_of m (h.core r).pid (h.core r).func_nam) ≡ none
    → merge_pop_batch h m r ≡ returned (record { store = h; stacks = m; found = false })
unfolding merge_pop_batch merge_end stack_of
merge_pop_batch_missing h m r e = elim (Option-cases (lookup (h.core r).pid m)) [
  | inl no_pid ↦ rw (merge_pop_batch, no_pid)
  | inr (d, at_pid) ↦ elim (Option-cases (lookup (h.core r).func_nam d)) [
    | inl no_func ↦ rw (merge_pop_batch, at_pid, no_func)
    | inr (stack, at_func) ↦
        let empty : get_last? stack ≡ none = ground (arith, at_pid, at_func) in
        rw (merge_pop_batch, at_pid, at_func, empty)
  ]
]
