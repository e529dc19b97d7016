-- ===== src/Factory/Resuming.antt =====
-- `BatchLetFactory` on a known function, and on a resumed half alone.
use survol.Base.{
  ℕ, ==_refl, none, some, Bool, true, false, if◌then◌else◌, text_eq_instance, lookup, get_last?,
  ◌≡◌, ◌≢◌, refl, ◌∙◌, Bool-cases, inl, inr,
}
use survol.Batch.{BatchLetCore, Store, alloc, status_eq, unfinished, resumed}
use survol.Batch.Calls.{new_batch_let}
use survol.Batch.Failure.{Failure}
use survol.Unfinished.{Merge, returned, merge_pop_batch}
use survol.Unfinished.Stacks.{stack_of}
use survol.Unfinished.Merging.{merge_pop_batch_missing}
use survol.Factory.{
  Construct, object, incomplete, raises, Model, Models, State, batch, built, base, push,
  make_unfinished, or_base, make_resumed, make, batch_let_factory, orig,
}

pub core-alloc : (h : Store) (c : BatchLetCore) → (alloc h c).core h.next ≡ c
core-alloc h c = rw (==_refl h.next)

pub if-true : {A : Type 0} {b : Bool} → b ≡ true → (x y : A) → (if b then x else y) ≡ x
if-true e x y = rw e

pub if-false : {A : Type 0} {b : Bool} → b ≡ false → (x y : A) → (if b then x else y) ≡ y
if-false e x y = rw e

module _ {W : Type 0} where
  or_base-object :
      (s : State W) (a : ℕ) (c : Construct)
      → ((e : Failure) → c ≢ raises e)
      → or_base s a c ≡ base s a
  unfolding or_base
  or_base-object s a (object args kind) h = refl
  or_base-object s a incomplete h = refl
  or_base-object s a (raises e) h = absurd (h e refl)

  base-outcome : (s : State W) (a : ℕ) → (base s a).1 ≡ batch (new_batch_let s.store a orig)
  unfolding base
  base-outcome s a = refl

  -- A resumed call whose other half does not wait is an object of the base class, whether the class of
  -- its function has the degraded mode or not, if the constructor raises nothing.
  pub make_resumed-alone :
      (model : Model W) (s : State W) (a : ℕ)
      → get_last? (stack_of s.stacks (s.store.core a).pid (s.store.core a).func_nam) ≡ none
      → ((e : Failure) → (model.construct s.world (s.store.core a)).1 ≢ raises e)
      → (make_resumed model s a).1 ≡ batch (new_batch_let s.store a orig)
  unfolding make_resumed
  make_resumed-alone model s a missing calm =
      elim (Bool-cases model.resumed_without_unfinished_is_ok) [
        | inl e ↦
            rw
              (
                make_resumed,
                merge_pop_batch_missing s.store s.stacks a missing,
                e,
                or_base-object _ a _ calm,
              )
              (base-outcome _ a)
        | inr e ↦
            rw (make_resumed, merge_pop_batch_missing s.store s.stacks a missing, e)
              (base-outcome _ a)
      ]

  module _ (models : Models W) (model : Model W) (t : State W) (a : ℕ)
      (found : lookup (t.store.core a).func_nam models ≡ some (some model)) where
    factory-known : batch_let_factory models t a ≡ make model t a
    unfolding batch_let_factory
    factory-known = rw (batch_let_factory, found)

    pub factory-unfinished :
        status_eq (t.store.core a).status unfinished ≡ true
        → model.unfinished_is_ok ≡ false
        → batch_let_factory models t a ≡ base (push t a) a
    unfolding make make_unfinished
    factory-unfinished waits plain = factory-known ∙ (if-true waits _ _ ∙ if-false plain _ _)

    pub factory-resumed :
        status_eq (t.store.core a).status unfinished ≡ false
        → status_eq (t.store.core a).status resumed ≡ true
        → batch_let_factory models t a ≡ make_resumed model t a
    unfolding make
    factory-resumed other resumes = factory-known ∙ (if-false other _ _ ∙ if-true resumes _ _)

  -- The other half is found: the rest of the state is that of `MergePopBatch`, and the constructor
  -- reads the merged core.
  pub make_resumed-found :
      (model : Model W) (t : State W) (a : ℕ) (res : Merge)
      → merge_pop_batch t.store t.stacks a ≡ returned res
      → res.found ≡ true
      → make_resumed model t a ≡ (
        record t {
          store = res.store;
          stacks = res.stacks;
          world = (model.construct t.world (res.store.core a)).0;
        },
        built a (model.construct t.world (res.store.core a)).1,
      )
  unfolding make_resumed
  make_resumed-found model t a res eq found = rw (make_resumed, eq) (if-true found _ _)
