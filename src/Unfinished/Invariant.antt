-- ===== src/Unfinished/Invariant.antt =====
-- The stacks hold calls that wait, each one once: kept by `PushBatch` and by `MergePopBatch`.
use survol.Base.{
  ℕ, ◌≤◌, ◌<◌, ◌==◌, ==_iff, text_eq, text_eq_iff, Text, List, [], ◌∷◌, ◌++◌, some, Bool, true,
  false, ◌&&◌, if◌then◌else◌, drop_last, get_last?, lookup, ◌≡◌, ◌≢◌, refl, arith, All, All-append,
  All-map, All-map2,
}
use survol.Batch.{BatchLetCore, Store, alloc, unfinished, resumed}
use survol.Unfinished.{MapStacks, push_batch, Merge, returned, merge_pop_batch}
use survol.Unfinished.Stacks.{stack_of, stack_of-push_batch}
use survol.Unfinished.Merging.{
  IsWaiting, Distinct, IsStacked, All-drop_last, Distinct-drop_last, under-top-ne, All-last,
  merge_pop_batch_found,
}

-- The empty dictionary.
pub IsStacked-nil : (h : Store) → IsStacked h []
unfolding stack_of
IsStacked-nil h = record {
  waiting = λ p f. unfold lookup in tt;
  distinct = λ p f. unfold lookup in tt;
}

-- To prove something of a conditional value.
if_intro :
    (Q : List ℕ → Type 0) (b : Bool) (x y : List ℕ)
    → (b ≡ true → Q x)
    → (b ≡ false → Q y)
    → Q (if b then x else y)
if_intro Q true x y f g = f refl
if_intro Q false x y f g = g refl

-- Cores that an operation leaves as they are keep waiting.
IsWaiting_kept :
    (h h' : Store) (p : ℕ) (f : Text) (a : ℕ)
    → h'.core a ≡ h.core a
    → h.next ≤ h'.next
    → IsWaiting h p f a
    → IsWaiting h' p f a
IsWaiting_kept h h' p f a e n w = (cc (e, w.0), cc (e, w.1), cc (e, w.2), omega arith)

Distinct-snoc : (l : List ℕ) (a : ℕ) → Distinct l → All (λ b. b ≢ a) l → Distinct (l ++ a ∷ [])
Distinct-snoc [] a d h = (tt, tt)
Distinct-snoc (b ∷ l) a d h =
    (All-append (λ c. b ≢ c) l (a ∷ []) d.0 (h.0, tt), Distinct-snoc l a d.1 h.1)

-- A new core waits nowhere, and those that wait go on.
pub alloc-IsStacked :
    (h : Store) (m : MapStacks) (c : BatchLetCore) → IsStacked h m → IsStacked (alloc h c) m
alloc-IsStacked h m c st = record {
  waiting = λ p f.
      All-map (stack_of m p f)
        (λ b w.
          IsWaiting_kept h (alloc h c) p f b (let (_, _, _, lt) = w in ground arith) (omega arith)
            w)
        (st.waiting p f);
  distinct = st.distinct;
}

pub fresh_in_stacks :
    (h : Store) (m : MapStacks) (p : ℕ) (f : Text)
    → IsStacked h m
    → All (λ b. b ≢ h.next) (stack_of m p f)
fresh_in_stacks h m p f st =
    All-map (stack_of m p f) (λ b w e. let (_, _, _, lt) = w in omega arith) (st.waiting p f)

-- `PushBatch` of an unfinished call, which exists and does not stand in its stack yet, keeps the stacks
-- well formed: they hold calls that wait in their process and function, each one once.
pub push_batch-IsStacked :
    (h : Store) (m : MapStacks) (a : ℕ)
    → IsStacked h m
    → (h.core a).status ≡ unfinished
    → a < h.next
    → All (λ b. b ≢ a) (stack_of m (h.core a).pid (h.core a).func_nam)
    → IsStacked h (push_batch h m a)
push_batch-IsStacked h m a st waits old fresh = record {
  waiting = λ p f. rw stack_of-push_batch (
      if_intro (All (IsWaiting h p f)) _ _ _
        (λ e.
          All-append (IsWaiting h p f) (stack_of m p f) (a ∷ []) (st.waiting p f)
            (((at_key p f e).0, (at_key p f e).1, waits, old), tt))
        (λ _. st.waiting p f));
  distinct = λ p f. rw stack_of-push_batch (
      if_intro Distinct _ _ _
        (λ e.
          Distinct-snoc (stack_of m p f) a (st.distinct p f)
            (let (ep, ef) = at_key p f e in rw (← ep, ← ef) fresh))
        (λ _. st.distinct p f));
}
  where
    at_key :
        (p : ℕ) (f : Text)
        → (((h.core a).pid == p) && text_eq (h.core a).func_nam f) ≡ true
        → ((h.core a).pid ≡ p) × ((h.core a).func_nam ≡ f)
    at_key p f e = ground (arith, ==_iff (h.core a).pid p, text_eq_iff (h.core a).func_nam f)

module _ (h : Store) (m : MapStacks) (r u : ℕ) (st : IsStacked h m)
    (resumes : (h.core r).status ≡ resumed)
    (top : get_last? (stack_of m (h.core r).pid (h.core r).func_nam) ≡ some u) where
  waiting_ne : (p : ℕ) (f : Text) (b : ℕ) → IsWaiting h p f b → b ≢ r
  waiting_ne p f b w e = let q : (h.core b).status ≡ resumed = rw e resumes in cc (q, w.2)

  -- the half that was found waits in no other stack
  elsewhere_ne :
      (p : ℕ) (f : Text) (b : ℕ)
      → (((h.core r).pid == p) && text_eq (h.core r).func_nam f) ≡ false
      → IsWaiting h (h.core r).pid (h.core r).func_nam u
      → IsWaiting h p f b
      → b ≢ u
  elsewhere_ne p f b e wu w q =
      let ep : (h.core r).pid ≡ p = cc (q, wu.0, w.0) in
      let ef : (h.core r).func_nam ≡ f = cc (q, wu.1, w.1) in
      ground (arith, e, ==_iff (h.core r).pid p, text_eq_iff (h.core r).func_nam f, ep, ef)

  -- `MergePopBatch` of a resumed call whose other half is on top of its stack, in a state where the stacks
  -- hold calls that wait, each one once: it returns, and the stacks it leaves hold such calls again.
  pub merge_pop_batch-IsStacked :
      (res : Merge) × (merge_pop_batch h m r ≡ returned res) × IsStacked res.store res.stacks
  merge_pop_batch-IsStacked =
      let (res, eq, _, _, _, kept, old, stacks) = merge_pop_batch_found h m r u st resumes top in
      let keep = λ (p : ℕ) (f : Text) (b : ℕ) (w : IsWaiting h p f b) (ne : b ≢ u).
        IsWaiting_kept h res.store p f b (kept b (waiting_ne p f b w) ne) (omega arith) w in
      let wu = All-last (IsWaiting h (h.core r).pid (h.core r).func_nam) _ u (st.waiting _ _) top in
      (
        res,
        eq,
        record {
          waiting = λ p f. rw stacks (
              if_intro (All (IsWaiting res.store p f)) _ _ _
                (λ e.
                  All-map2 (drop_last (stack_of m p f)) (keep p f)
                    (All-drop_last _ _ (st.waiting p f))
                    (under-top-ne _ u (st.distinct p f) (top_at p f e)))
                (λ e.
                  All-map (stack_of m p f) (λ b w. keep p f b w (elsewhere_ne p f b e wu w))
                    (st.waiting p f)));
          distinct = λ p f. rw stacks (
              if_intro Distinct _ _ _ (λ e. Distinct-drop_last _ (st.distinct p f))
                (λ e. st.distinct p f));
        },
      )
    where
      top_at :
          (p : ℕ) (f : Text)
          → (((h.core r).pid == p) && text_eq (h.core r).func_nam f) ≡ true
          → get_last? (stack_of m p f) ≡ some u
      top_at p f e =
          let ep : (h.core r).pid ≡ p =
            ground (arith, ==_iff (h.core r).pid p, text_eq_iff (h.core r).func_nam f) in
          let ef : (h.core r).func_nam ≡ f =
            ground (arith, ==_iff (h.core r).pid p, text_eq_iff (h.core r).func_nam f) in
          rw (← ep, ← ef) top
