-- ===== src/Factory/Halves.antt =====
-- `BatchLetFactory` on the two halves of a call.
use survol.Base.{
  ℕ, ◌+◌, ◌==◌, ==_refl, text_eq, text_eq_iff, Text, [], ◌∷◌, ◌++◌, some, true, false, ◌&&◌,
  if◌then◌else◌, text_eq_instance, lookup, get_last?, drop_last, get_last?-append, drop_last-append,
  ◌≡◌, refl, ap, ◌∙◌, arith, Bool-cases, inl, inr,
}
use survol.Batch.{BatchLetCore, Store, alloc, unfinished, resumed}
use survol.Unfinished.{MapStacks, push_batch, Merge, returned, merge_pop_batch}
use survol.Unfinished.Stacks.{stack_of, stack_of-push_batch}
use survol.Unfinished.Merging.{IsStacked, merged_half, merge_pop_batch_found}
use survol.Unfinished.Invariant.{alloc-IsStacked, fresh_in_stacks, push_batch-IsStacked}
use survol.Factory.{
  Model, Models, State, Outcome, built, base, push, make_resumed, batch_let_factory, feed,
}
use survol.Factory.Resuming.{
  core-alloc, if-true, if-false, factory-unfinished, factory-resumed, make_resumed-found,
}

module _ {W : Type 0} where
  module _ (models : Models W) (model : Model W) (s : State W) (c1 c2 : BatchLetCore)
      (found : lookup c1.func_nam models ≡ some (some model)) (waits : c1.status ≡ unfinished)
      (resumes : c2.status ≡ resumed) (same_pid : c2.pid ≡ c1.pid)
      (same_func : c2.func_nam ≡ c1.func_nam) (plain : model.unfinished_is_ok ≡ false)
      (well : IsStacked s.store s.stacks) where
    abbrev first : ℕ
    first = s.store.next

    abbrev second : ℕ
    second = s.store.next + 1

    abbrev store1 : Store
    store1 = alloc s.store c1

    abbrev stacks1 : MapStacks
    stacks1 = push_batch store1 s.stacks first

    abbrev store2 : Store
    store2 = alloc store1 c2

    core1-first : store1.core first ≡ c1
    core1-first = core-alloc s.store c1

    core2-second : store2.core second ≡ c2
    core2-second = core-alloc store1 c2

    core2-first : store2.core first ≡ c1
    core2-first =
        let e : (store1.next == first) ≡ false = ground arith in
        if-false e c2 (store1.core first) ∙ core1-first

    feed-first : (feed models s c1).0 ≡ record s { store = store1; stacks = stacks1 }
    unfolding feed base push
    feed-first =
        ap (λ (r : State W × Outcome). r.0)
          (factory-unfinished models model (record s { store = store1 }) first
            (ap (λ (c : BatchLetCore). lookup c.func_nam models) core1-first ∙ found)
            (rw (core1-first, waits)) plain)

    stacked1 : IsStacked store1 stacks1
    stacked1 =
        push_batch-IsStacked store1 s.stacks first (alloc-IsStacked s.store s.stacks c1 well)
          (ap (λ (c : BatchLetCore). c.status) core1-first ∙ waits) (omega arith)
          (fresh_in_stacks s.store s.stacks _ _ well)

    stacks1-eq :
        (q : ℕ) (g : Text)
        → stack_of stacks1 q g ≡ (
            if (c1.pid == q) && text_eq c1.func_nam g
            then stack_of s.stacks q g ++ first ∷ []
            else stack_of s.stacks q g)
    stacks1-eq q g = let e = stack_of-push_batch store1 s.stacks first q g in rw core1-first at e

    stack1-eq :
        stack_of stacks1 c1.pid c1.func_nam ≡ stack_of s.stacks c1.pid c1.func_nam ++ first ∷ []
    stack1-eq =
        let here : ((c1.pid == c1.pid) && text_eq c1.func_nam c1.func_nam) ≡ true =
          ground (arith, ==_refl c1.pid, text_eq_iff c1.func_nam c1.func_nam) in
        stacks1-eq c1.pid c1.func_nam ∙ if-true here _ _

    top2 :
        get_last? (stack_of stacks1 (store2.core second).pid (store2.core second).func_nam)
        ≡ some first
    top2 =
        rw (core2-second, same_pid, same_func, stack1-eq)
          (get_last?-append (stack_of s.stacks c1.pid c1.func_nam) first)

    merge-halves :
        (res : Merge) × (merge_pop_batch store2 stacks1 second ≡ returned res)
        × (res.found ≡ true)
        × (res.store.core second ≡ merged_half c1 c2 first)
        × ((q : ℕ) (g : Text) → stack_of res.stacks q g ≡ stack_of s.stacks q g)
    merge-halves =
        let (res, eq, found, merged_core, _, _, _, left) =
          merge_pop_batch_found store2 stacks1 second first
            (alloc-IsStacked store1 stacks1 c2 stacked1)
            (ap (λ (c : BatchLetCore). c.status) core2-second ∙ resumes) top2 in
        (
          res,
          eq,
          found,
          rw (core2-second, core2-first) at merged_core,
          λ q g.
              let l = left q g in
              let l' = rw (core2-second, same_pid, same_func) at l in
              elim (Bool-cases ((c1.pid == q) && text_eq c1.func_nam g)) [
                | inl e ↦
                    let k = stacks1-eq q g ∙ if-true e _ _ in
                    l'
                    ∙ (if-true e _ _
                        ∙ (ap drop_last k ∙ drop_last-append (stack_of s.stacks q g) first))
                | inr e ↦ l' ∙ (if-false e _ _ ∙ (stacks1-eq q g ∙ if-false e _ _))
              ],
        )

    second_state : State W
    second_state = record s { store = store2; stacks = stacks1 }

    feed-second :
        feed models (record s { store = store1; stacks = stacks1 }) c2
        ≡ batch_let_factory models second_state second
    unfolding feed second_state
    feed-second = refl

    feed-second_eq : feed models (feed models s c1).0 c2 ≡ make_resumed model second_state second
    unfolding second_state
    feed-second_eq =
        ap (λ (z : State W). feed models z c2) feed-first
        ∙ (feed-second
            ∙ factory-resumed models model second_state second
                (ap (λ (c : BatchLetCore). lookup c.func_nam models) core2-second
                  ∙ (ap (λ f. lookup f models) same_func ∙ found))
                (rw (core2-second, resumes)) (rw (core2-second, resumes)))

    -- The line of an unfinished call and the line of its resumed half, one after the other, in a state
    -- whose stacks are well formed, for a function with a class that does not take unfinished calls: the
    -- class is called on a core that has the arguments of both halves, its object is the outcome of the
    -- second line, and every stack is as before.
    pub feed-halves :
        let after = (feed models s c1).0 in
        ((feed models after c2).1
          ≡ built second (model.construct s.world (merged_half c1 c2 first)).1)
        × ((feed models after c2).0.store.core second ≡ merged_half c1 c2 first)
        × ((q : ℕ) (g : Text)
            → stack_of (feed models after c2).0.stacks q g ≡ stack_of s.stacks q g)
    unfolding second_state
    feed-halves =
        let (res, eq, got, merged_core, left) = merge-halves in
        let run = feed-second_eq ∙ make_resumed-found model second_state second res eq got in
        (
          ap (λ (r : State W × Outcome). r.1) run ∙ (let q = merged_core in rw q),
          ap (λ (r : State W × Outcome). r.0.store.core second) run ∙ merged_core,
          λ q g. ap (λ (r : State W × Outcome). stack_of r.0.stacks q g) run ∙ left q g,
        )
