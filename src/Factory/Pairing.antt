-- ===== src/Factory/Pairing.antt =====
-- `BatchLetFactory` over a whole log: the stacks of unfinished calls stay well formed, and the
-- sanity checks of `MergePopBatch` never fail.
use survol.Base.{
  ℕ, ◌<◌, Text, List, [], ◌∷◌, none, some, Bool, true, false, if◌then◌else◌, text_eq_instance,
  lookup, get_last?, ◌≡◌, ◌≢◌, refl, arith, Bool-cases, Option-cases, inl, inr, All, All-map,
  Option, ap, ◌∙◌,
}
use survol.Batch.{BatchLetCore, BatchStatus, alloc, status_eq, unfinished, resumed}
use survol.Batch.Failure.{Failure, inconsistent_functions, unfinished_status, resumed_status}
use survol.Unfinished.Stacks.{stack_of}
use survol.Unfinished.Kept.{next-IsClosed, status-IsClosed}
use survol.Factory.Stores.{factory-store}
use survol.Factory.Resuming.{core-alloc}
use survol.Unfinished.Merging.{IsStacked, merge_pop_batch_missing}
use survol.Unfinished.Invariant.{
  alloc-IsStacked, fresh_in_stacks, push_batch-IsStacked, merge_pop_batch-IsStacked,
}
use survol.Factory.{
  Construct, object, incomplete, raises, Model, Models, State, Outcome, batch, nothing, failed,
  built, base, push, or_push, make_unfinished, or_base, make_resumed, make_plain, make,
  batch_let_factory, feed, feed_parsed, feed_end, feed_all, Parsed, parsed, no_core, unchanged,
}

status_eq→eq : (x y : BatchStatus) → status_eq x y ≡ true → x ≡ y
status_eq→eq x y h = ground arith

-- The exceptions of the sanity checks in `MergePopBatch`.
abbrev pub is_sanity : Failure → Bool
is_sanity inconsistent_functions = true
is_sanity unfinished_status = true
is_sanity resumed_status = true
is_sanity _ = false

abbrev pub NoSanityFailure : Outcome → Type 0
NoSanityFailure (failed e) = is_sanity e ≡ false
NoSanityFailure (batch b) = Unit
NoSanityFailure nothing = Unit

built-NoSanityFailure :
    (a : ℕ) (c : Construct)
    → ((e : Failure) → c ≡ raises e → is_sanity e ≡ false)
    → NoSanityFailure (built a c)
unfolding built
built-NoSanityFailure a (object args kind) h = tt
built-NoSanityFailure a incomplete h = tt
built-NoSanityFailure a (raises e) h = h e refl

-- Is `batchCore` of an unfinished half behind the line, if `b` says so before it?
unfoldable pub waits : Bool → Parsed → Bool
waits b (parsed c) = status_eq c.status unfinished
waits b no_core = false
waits b unchanged = b

unfoldable pub Fits : Bool → Parsed → Type 0
Fits b (parsed c) = Unit
Fits b no_core = Unit
Fits b unchanged = b ≡ false

-- The factory does not get an unfinished half once more.
unfoldable pub IsPairable : Bool → List Parsed → Type 0
IsPairable b [] = Unit
IsPairable b (l ∷ ls) = Fits b l × IsPairable (waits b l) ls

module _ {W : Type 0} where
  -- The constructor of a class does not raise the exceptions of `MergePopBatch`.
  abbrev pub IsTame : Model W → Type 0
  IsTame m =
      (w : W) (c : BatchLetCore) (e : Failure)
      → (m.construct w c).1 ≡ raises e
      → is_sanity e ≡ false

  abbrev pub AllTame : Models W → Type 0
  AllTame models = (f : Text) (m : Model W) → lookup f models ≡ some (some m) → IsTame m

  abbrev pub IsWell : State W → Type 0
  IsWell s = IsStacked s.store s.stacks

  -- `batchCore` exists, and it is no waiting half, unless the line that it is of was.
  abbrev pub IsCurrent : Bool → State W → Option ℕ → Type 0
  IsCurrent b s none = Unit
  IsCurrent b s (some a) =
      (a < s.store.next) × (b ≡ false → status_eq (s.store.core a).status unfinished ≡ false)

  -- A core does not stand in its stack.
  abbrev pub IsFresh : State W → ℕ → Type 0
  IsFresh s a = All (λ b. b ≢ a) (stack_of s.stacks (s.store.core a).pid (s.store.core a).func_nam)

  pub other-IsFresh :
      (s : State W) (a : ℕ)
      → IsWell s
      → status_eq (s.store.core a).status unfinished ≡ false
      → IsFresh s a
  other-IsFresh s a well other =
      All-map (stack_of s.stacks (s.store.core a).pid (s.store.core a).func_nam)
        (λ b w e.
          let waiting : status_eq (s.store.core a).status unfinished ≡ true = rw (← e, w.2) refl in
          ground (arith, waiting, other))
        (well.waiting _ _)

  -- A state and an outcome that a step may have.
  abbrev pub IsFine : State W × Outcome → Type 0
  IsFine r = IsWell r.0 × NoSanityFailure r.1

  if_IsFine :
      (b : Bool) (x y : State W × Outcome) → IsFine x → IsFine y → IsFine (if b then x else y)
  if_IsFine true x y hx hy = hx
  if_IsFine false x y hx hy = hy

  module _ (s : State W) (a : ℕ) (well : IsWell s) where
    base-IsFine : IsFine (base s a)
    unfolding base
    base-IsFine = (well, tt)

    or_base-IsFine :
        (c : Construct)
        → ((e : Failure) → c ≡ raises e → is_sanity e ≡ false)
        → IsFine (or_base s a c)
    unfolding or_base
    or_base-IsFine (object args kind) h = base-IsFine
    or_base-IsFine incomplete h = base-IsFine
    or_base-IsFine (raises e) h = if_IsFine _ _ _ base-IsFine (well, h e refl)

    module _ (waits : (s.store.core a).status ≡ unfinished) (old : a < s.store.next)
        (fresh : All
          (λ b. b ≢ a)
          (stack_of s.stacks (s.store.core a).pid (s.store.core a).func_nam)) where
      push-IsFine : IsFine (base (push s a) a)
      unfolding base push
      push-IsFine = (push_batch-IsStacked s.store s.stacks a well waits old fresh, tt)

      or_push-IsFine :
          (c : Construct)
          → ((e : Failure) → c ≡ raises e → is_sanity e ≡ false)
          → IsFine (or_push s a c)
      unfolding or_push
      or_push-IsFine (object args kind) h = (well, built-NoSanityFailure a (object args kind) h)
      or_push-IsFine incomplete h = (well, tt)
      or_push-IsFine (raises e) h = if_IsFine _ _ _ push-IsFine (well, h e refl)

  module _ (model : Model W) (tame : IsTame model) (s : State W) (a : ℕ) (well : IsWell s) where
    make_plain-IsFine : IsFine (make_plain model s a)
    unfolding make_plain
    make_plain-IsFine = (well, built-NoSanityFailure a _ (tame s.world (s.store.core a)))

    make_resumed-IsFine : (s.store.core a).status ≡ resumed → IsFine (make_resumed model s a)
    unfolding make_resumed
    make_resumed-IsFine resumes =
        elim (Option-cases
          (get_last? (stack_of s.stacks (s.store.core a).pid (s.store.core a).func_nam))) [
            | inl missing ↦
                rw (make_resumed, merge_pop_batch_missing s.store s.stacks a missing)
                  (if_IsFine _ _ _ (or_base-IsFine _ a well _ (tame s.world (s.store.core a)))
                    (base-IsFine _ a well))
            | inr (u, top) ↦
                let (res, eq, well') =
                  merge_pop_batch-IsStacked s.store s.stacks a u well resumes top in
                rw (make_resumed, eq)
                  (if_IsFine res.found _ _
                    (well', built-NoSanityFailure a _ (tame s.world (res.store.core a)))
                    (if_IsFine _ _ _ (or_base-IsFine _ a well' _ (tame s.world (res.store.core a)))
                      (base-IsFine _ a well')))
          ]

    make_unfinished-IsFine :
        (s.store.core a).status ≡ unfinished
        → a < s.store.next
        → All (λ b. b ≢ a) (stack_of s.stacks (s.store.core a).pid (s.store.core a).func_nam)
        → IsFine (make_unfinished model s a)
    unfolding make_unfinished
    make_unfinished-IsFine waits old fresh =
        if_IsFine _ _ _ (or_push-IsFine _ a well waits old fresh _ (tame s.world (s.store.core a)))
          (push-IsFine s a well waits old fresh)

    make-IsFine :
        a < s.store.next
        → All (λ b. b ≢ a) (stack_of s.stacks (s.store.core a).pid (s.store.core a).func_nam)
        → IsFine (make model s a)
    unfolding make
    make-IsFine old fresh = elim (Bool-cases (status_eq (s.store.core a).status unfinished)) [
      | inl e ↦ rw e (make_unfinished-IsFine (status_eq→eq _ _ e) old fresh)
      | inr e ↦ rw e (elim (Bool-cases (status_eq (s.store.core a).status resumed)) [
        | inl e' ↦ rw e' (make_resumed-IsFine (status_eq→eq _ _ e'))
        | inr e' ↦ rw e' make_plain-IsFine
      ])
    ]

  module _ (models : Models W) (tame : AllTame models) where
    pub factory-IsFine :
        (s : State W) (a : ℕ)
        → IsWell s
        → a < s.store.next
        → All (λ b. b ≢ a) (stack_of s.stacks (s.store.core a).pid (s.store.core a).func_nam)
        → IsFine (batch_let_factory models s a)
    unfolding batch_let_factory
    factory-IsFine s a well old fresh =
        elim (Option-cases (lookup (s.store.core a).func_nam models)) [
          | inl e ↦ rw (batch_let_factory, e) (base-IsFine _ a well)
          | inr (some m, e) ↦
              rw (batch_let_factory, e)
                (make-IsFine m (tame (s.store.core a).func_nam m e) s a well old fresh)
          | inr (none, e) ↦ rw (batch_let_factory, e) (well, tt)
        ]

    pub feed-IsFine : (s : State W) (c : BatchLetCore) → IsWell s → IsFine (feed models s c)
    unfolding feed
    feed-IsFine s c well =
        factory-IsFine (record s { store = alloc s.store c }) s.store.next
          (alloc-IsStacked s.store s.stacks c well) (omega arith)
          (fresh_in_stacks s.store s.stacks _ _ well)

    -- A core that does not wait gets to the factory once more.
    feed_again-IsFine :
        (s : State W) (a : ℕ)
        → IsWell s
        → a < s.store.next
        → status_eq (s.store.core a).status unfinished ≡ false
        → IsFine (batch_let_factory models s a)
    feed_again-IsFine s a well old other =
        factory-IsFine s a well old (other-IsFresh s a well other)

    pub factory-IsCurrent :
        (b : Bool) (s : State W) (a : ℕ)
        → IsCurrent b s (some a)
        → IsCurrent b (batch_let_factory models s a).0 (some a)
    factory-IsCurrent b s a (old, other) = (
      factory-store (λ h. a < h.next) (next-IsClosed a) models s a old,
      λ e.
          factory-store (λ h. status_eq (h.core a).status unfinished ≡ false) (status-IsClosed a)
            models s a (other e),
    )

    feed_parsed-IsFine :
        (b : Bool) (s : State W) (last : Option ℕ) (l : Parsed)
        → IsWell s
        → IsCurrent b s last
        → Fits b l
        → IsFine ((feed_parsed models s last l).0.0, (feed_parsed models s last l).1)
          × IsCurrent
              (waits b l)
              (feed_parsed models s last l).0.0
              (feed_parsed models s last l).0.1
    unfolding feed_parsed waits Fits feed
    feed_parsed-IsFine b s last (parsed c) well current fits =
        let s' = record s { store = alloc s.store c } in
        (
          feed-IsFine s c well,
          factory-IsCurrent (status_eq c.status unfinished) s' s.store.next (
            omega arith,
            λ e. ap (λ k. status_eq k.status unfinished) (core-alloc s.store c) ∙ e,
          ),
        )
    feed_parsed-IsFine b s last no_core well current fits = ((well, tt), tt)
    feed_parsed-IsFine b s none unchanged well current fits = ((well, tt), tt)
    feed_parsed-IsFine b s (some a) unchanged well current fits =
        (feed_again-IsFine s a well current.0 (current.1 fits), factory-IsCurrent b s a current)

    feed_end-IsFine :
        (s : State W) (o : Outcome) (r : State W × List Outcome)
        → IsWell s
        → NoSanityFailure o
        → IsWell r.0 × All NoSanityFailure r.1
        → IsWell (feed_end s o r).0 × All NoSanityFailure (feed_end s o r).1
    unfolding feed_end
    feed_end-IsFine s (batch b) r well fine later = (later.0, (tt, later.1))
    feed_end-IsFine s nothing r well fine later = (later.0, (tt, later.1))
    feed_end-IsFine s (failed e) r well fine later = (well, (fine, tt))

    feed_all_pairs_from :
        (b : Bool) (s : State W) (last : Option ℕ) (ls : List Parsed)
        → IsWell s
        → IsCurrent b s last
        → IsPairable b ls
        → IsWell (feed_all models s last ls).0 × All NoSanityFailure (feed_all models s last ls).1
    unfolding feed_all IsPairable
    feed_all_pairs_from b s last [] well current fits = (well, tt)
    feed_all_pairs_from b s last (l ∷ ls) well current (fits, later) =
        let ((s', last'), o) = feed_parsed models s last l in
        let ((well', fine), current') = feed_parsed-IsFine b s last l well current fits in
        let (well'', rest) = feed_all_pairs_from (waits b l) s' last' ls well' current' later in
        feed_end-IsFine s' o (feed_all models s' last' ls) well' fine (well'', rest)

    -- From a state whose stacks hold waiting calls, each one once: the stacks still do at the end, and no
    -- line fails by a sanity check of `MergePopBatch`, if no constructor of a class raises such an exception
    -- itself, and if no line that is no call stands behind an unfinished half, with nothing between them
    -- but lines that are no calls either.
    pub feed_all_pairs :
        (s : State W) (ls : List Parsed)
        → IsWell s
        → IsPairable false ls
        → IsWell (feed_all models s none ls).0 × All NoSanityFailure (feed_all models s none ls).1
    feed_all_pairs s ls well fits = feed_all_pairs_from false s none ls well tt fits
