-- ===== src/Factory/Worlds.antt =====
-- What the factory does to the other globals: they change by the constructor of the class alone, and
-- that on a core of the same process.
use survol.Base.{
  ℕ, Text, text_eq_instance, nat_eq, none, some, Option-cases, Bool, true, false, if◌then◌else◌,
  lookup, ◌≡◌, ◌∙◌, refl, subst, inl, inr,
}
use survol.Batch.{BatchLetCore, Store, status_eq, unfinished, resumed}
use survol.Unfinished.{MapStacks, Merge, returned, merge_pop_batch}
use survol.Unfinished.Kept.{left_store, pid-IsClosed, merge_pop_batch-IsClosed}
use survol.Factory.Stores.{Merged-cases}
use survol.Factory.{
  Construct, object, incomplete, raises, Model, Models, State, Outcome, is_attribute_error, base,
  push, or_push, or_base, make_unfinished, make_resumed, make_plain, make, batch_let_factory, built,
}

-- `MergePopBatch` changes the pid of no core.
merge_pop_batch-pid :
    (h : Store) (m : MapStacks) (r b : ℕ) (res : Merge)
    → merge_pop_batch h m r ≡ returned res
    → (res.store.core b).pid ≡ (h.core b).pid
unfolding left_store
merge_pop_batch-pid h m r b res e =
    let p = (h.core b).pid in
    subst (λ x. ((left_store x).core b).pid ≡ p) e
      (merge_pop_batch-IsClosed (λ k. (k.core b).pid ≡ p) (pid-IsClosed b p) h m r refl)

-- `P` holds of the globals at the end, if it holds at the start and the constructor of the class keeps
-- it on cores of this process.
module _ {W : Type 0} (P : W → Type 0) (pid : ℕ) (models : Models W)
    (keeps : (f : Text) (m : Model W)
      → lookup f models ≡ some (some m)
      → (w : W) (c : BatchLetCore) → c.pid ≡ pid
      → P w
      → P (m.construct w c).0) where
  if_world :
      (b : Bool) (x y : State W × Outcome)
      → P x.0.world
      → P y.0.world
      → P (if b then x else y).0.world
  if_world true x y hx hy = hx
  if_world false x y hx hy = hy

  or_push-world : (s : State W) (a : ℕ) (c : Construct) → P s.world → P (or_push s a c).0.world
  unfolding or_push base push
  or_push-world s a (object args kind) h = h
  or_push-world s a incomplete h = h
  or_push-world s a (raises e) h =
      if_world (is_attribute_error e) (base (push s a) a) (s, Outcome.failed e) h h

  or_base-world : (s : State W) (a : ℕ) (c : Construct) → P s.world → P (or_base s a c).0.world
  unfolding or_base base
  or_base-world s a (object args kind) h = h
  or_base-world s a incomplete h = h
  or_base-world s a (raises e) h =
      if_world (is_attribute_error e) (base s a) (s, Outcome.failed e) h h

  module _ (f : Text) (model : Model W) (known : lookup f models ≡ some (some model)) where
    make_plain-world :
        (s : State W) (a : ℕ)
        → (s.store.core a).pid ≡ pid
        → P s.world
        → P (make_plain model s a).0.world
    unfolding make_plain
    make_plain-world s a e h = keeps f model known s.world (s.store.core a) e h

    make_unfinished-world :
        (s : State W) (a : ℕ)
        → (s.store.core a).pid ≡ pid
        → P s.world
        → P (make_unfinished model s a).0.world
    unfolding make_unfinished base push
    make_unfinished-world s a e h =
        let (w, c) = model.construct s.world (s.store.core a) in
        if_world model.unfinished_is_ok (or_push (record s { world = w }) a c) (base (push s a) a)
          (or_push-world (record s { world = w }) a c
            (keeps f model known s.world (s.store.core a) e h))
          h

    make_resumed-world :
        (s : State W) (a : ℕ)
        → (s.store.core a).pid ≡ pid
        → P s.world
        → P (make_resumed model s a).0.world
    unfolding make_resumed base
    make_resumed-world s a e h = elim (Merged-cases (merge_pop_batch s.store s.stacks a)) [
      | inr (_, _, _, r) ↦ rw (make_resumed, r) h
      | inl (res, r) ↦
          let s' = record s { store = res.store; stacks = res.stacks } in
          let (w, c) = model.construct s.world (res.store.core a) in
          let s'' = record s' { world = w } in
          let same = merge_pop_batch-pid s.store s.stacks a a res r in
          let k = keeps f model known s.world (res.store.core a) (same ∙ e) h in
          rw (make_resumed, r)
            (if_world res.found (s'', built a c)
              (if model.resumed_without_unfinished_is_ok then or_base s'' a c else base s' a) k
              (if_world model.resumed_without_unfinished_is_ok (or_base s'' a c) (base s' a)
                (or_base-world s'' a c k) h))
    ]

    make-world :
        (s : State W) (a : ℕ) → (s.store.core a).pid ≡ pid → P s.world → P (make model s a).0.world
    unfolding make
    make-world s a e h =
        if_world (status_eq (s.store.core a).status unfinished) (make_unfinished model s a)
          (if status_eq (s.store.core a).status resumed
            then make_resumed model s a
            else make_plain model s a)
          (make_unfinished-world s a e h)
          (if_world (status_eq (s.store.core a).status resumed) (make_resumed model s a)
            (make_plain model s a) (make_resumed-world s a e h) (make_plain-world s a e h))

  pub factory-world :
      (s : State W) (a : ℕ)
      → (s.store.core a).pid ≡ pid
      → P s.world
      → P (batch_let_factory models s a).0.world
  unfolding batch_let_factory base
  factory-world s a e h = elim (Option-cases (lookup (s.store.core a).func_nam models)) [
    | inl x ↦ rw (batch_let_factory, x) h
    | inr (none, x) ↦ rw (batch_let_factory, x) h
    | inr (some m, x) ↦ rw (batch_let_factory, x) (make-world (s.store.core a).func_nam m x s a e h)
  ]
