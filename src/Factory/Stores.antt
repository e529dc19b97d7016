-- ===== src/Factory/Stores.antt =====
-- What the factory keeps of the cores.
use survol.Base.{
  ℕ, text_eq_instance, none, some, Option-cases, Bool, true, false, if◌then◌else◌, lookup, ◌≡◌, ◌⊎◌,
  refl, inl, inr, subst,
}
use survol.Batch.{Store, status_eq, unfinished, resumed}
use survol.Batch.Failure.{Failure}
use survol.Unfinished.{MapStacks, Merge, Merged, returned, broken, merge_pop_batch}
use survol.Unfinished.Kept.{IsClosed, left_store, merge_pop_batch-IsClosed}
use survol.Factory.{
  Construct, object, incomplete, raises, Model, Models, State, Outcome, is_attribute_error, base,
  push, or_push, or_base, make_unfinished, make_resumed, make_plain, make, batch_let_factory, built,
}

pub Merged-cases :
    (x : Merged)
    → ((res : Merge) × (x ≡ returned res))
      ⊎ ((h : Store) × (m : MapStacks) × (e : Failure) × (x ≡ broken h m e))
Merged-cases (returned res) = inl (res, refl)
Merged-cases (broken h m e) = inr (h, m, e, refl)

module _ {W : Type 0} (Q : Store → Type 0) (closed : IsClosed Q) where
  if_store :
      (b : Bool) (x y : State W × Outcome)
      → Q x.0.store
      → Q y.0.store
      → Q (if b then x else y).0.store
  if_store true x y hx hy = hx
  if_store false x y hx hy = hy

  or_push-store : (s : State W) (a : ℕ) (c : Construct) → Q s.store → Q (or_push s a c).0.store
  unfolding or_push base push
  or_push-store s a (object args kind) h = h
  or_push-store s a incomplete h = h
  or_push-store s a (raises e) h =
      if_store (is_attribute_error e) (base (push s a) a) (s, Outcome.failed e) h h

  or_base-store : (s : State W) (a : ℕ) (c : Construct) → Q s.store → Q (or_base s a c).0.store
  unfolding or_base base
  or_base-store s a (object args kind) h = h
  or_base-store s a incomplete h = h
  or_base-store s a (raises e) h =
      if_store (is_attribute_error e) (base s a) (s, Outcome.failed e) h h

  module _ (model : Model W) (s : State W) (a : ℕ) (q : Q s.store) where
    make_unfinished-store : Q (make_unfinished model s a).0.store
    unfolding make_unfinished base push
    make_unfinished-store =
        let (w, c) = model.construct s.world (s.store.core a) in
        if_store model.unfinished_is_ok (or_push (record s { world = w }) a c) (base (push s a) a)
          (or_push-store (record s { world = w }) a c q) q

    make_resumed-store : Q (make_resumed model s a).0.store
    unfolding make_resumed base
    make_resumed-store =
        let k = merge_pop_batch-IsClosed Q closed s.store s.stacks a q in
        elim (Merged-cases (merge_pop_batch s.store s.stacks a)) [
          | inr (h, m, e, r) ↦
              let k' : Q h = unfold left_store in subst (λ x. Q (left_store x)) r k in
              rw (make_resumed, r) k'
          | inl (res, r) ↦
              let k' : Q res.store = unfold left_store in subst (λ x. Q (left_store x)) r k in
              let s' = record s { store = res.store; stacks = res.stacks } in
              let (w, c) = model.construct s.world (res.store.core a) in
              let s'' = record s' { world = w } in
              rw (make_resumed, r)
                (if_store res.found (s'', built a c)
                  (if model.resumed_without_unfinished_is_ok then or_base s'' a c else base s' a) k'
                  (if_store model.resumed_without_unfinished_is_ok (or_base s'' a c) (base s' a)
                    (or_base-store s'' a c k') k'))
        ]

    make-store : Q (make model s a).0.store
    unfolding make make_plain
    make-store =
        if_store (status_eq (s.store.core a).status unfinished) (make_unfinished model s a)
          (if status_eq (s.store.core a).status resumed
            then make_resumed model s a
            else make_plain model s a)
          make_unfinished-store
          (if_store (status_eq (s.store.core a).status resumed) (make_resumed model s a)
            (make_plain model s a) make_resumed-store q)

  pub factory-store :
      (models : Models W) (s : State W) (a : ℕ)
      → Q s.store
      → Q (batch_let_factory models s a).0.store
  unfolding batch_let_factory base
  factory-store models s a q = elim (Option-cases (lookup (s.store.core a).func_nam models)) [
    | inl x ↦ rw (batch_let_factory, x) q
    | inr (none, x) ↦ rw (batch_let_factory, x) q
    | inr (some m, x) ↦ rw (batch_let_factory, x) (make-store m s a q)
  ]
