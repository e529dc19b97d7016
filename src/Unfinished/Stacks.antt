-- ===== src/Unfinished/Stacks.antt =====
-- The dictionaries of `UnfinishedBatches` as one stack for each process and function.
use survol.Base.{
  ℕ, ◌==◌, ==_iff, Text, text_eq, text_eq_iff, List, [], ◌∷◌, ◌++◌, Option, none, some, ◌&&◌,
  if◌then◌else◌, Dict, nat_eq, text_eq_instance, lookup, insert, lookup-insert, drop_last, ◌≡◌,
  arith, Option-cases, inl, inr,
}
use survol.Batch.{Store}
use survol.Unfinished.{MapStacks, push_by_func, push_batch}

-- The abstract view: the stack of a process and a function, empty where a key is missing.
abbrev pub or_empty : Option (List ℕ) → List ℕ
or_empty none = []
or_empty (some s) = s

abbrev pub under : Option (Dict Text (List ℕ)) → Text → List ℕ
under none f = []
under (some by_pids) f = or_empty (lookup f by_pids)

unfoldable pub stack_of : MapStacks → ℕ → Text → List ℕ
stack_of m p f = under (lookup p m) f

or_empty-push_by_func :
    (f g : Text) (a : ℕ) (d : Dict Text (List ℕ))
    → or_empty (lookup g (push_by_func f a d))
      ≡ (if text_eq f g then or_empty (lookup g d) ++ a ∷ [] else or_empty (lookup g d))
unfolding push_by_func
or_empty-push_by_func f g a d = ground (
  arith,
  lookup-insert f g (or_empty (lookup f d) ++ a ∷ []) d,
  lookup-insert f g (a ∷ []) d,
  text_eq_iff f g,
)

or_empty-singleton :
    (f g : Text) (a : ℕ)
    → or_empty (lookup g ((f, a ∷ []) ∷ [])) ≡ (if text_eq f g then a ∷ [] else [])
unfolding lookup
or_empty-singleton f g a = ground arith

-- `PushBatch` puts the core on top of the stack of its own process and function, and leaves every
-- other stack as it is.
pub stack_of-push_batch :
    (h : Store) (m : MapStacks) (a p : ℕ) (f : Text)
    → stack_of (push_batch h m a) p f ≡ (
        if ((h.core a).pid == p) && text_eq (h.core a).func_nam f
        then stack_of m p f ++ a ∷ []
        else stack_of m p f)
unfolding stack_of push_batch
stack_of-push_batch h m a p f =
    let c = h.core a in
    elim (Option-cases (lookup c.pid m)) [
      | inl e ↦ ground (
        arith,
        e,
        ==_iff c.pid p,
        lookup-insert c.pid p ((c.func_nam, a ∷ []) ∷ []) m,
        or_empty-singleton c.func_nam f a,
      )
      | inr (d, e) ↦ ground (
        arith,
        e,
        ==_iff c.pid p,
        lookup-insert c.pid p (push_by_func c.func_nam a d) m,
        or_empty-push_by_func c.func_nam f a d,
      )
    ]

or_empty-drop_last :
    (f g : Text) (stack : List ℕ) (d : Dict Text (List ℕ))
    → or_empty (lookup g (insert f stack d))
      ≡ (if text_eq f g then stack else or_empty (lookup g d))
or_empty-drop_last f g stack d = ground (arith, lookup-insert f g stack d)

-- The stacks that `MergePopBatch` leaves when it has found the half `u`.
abbrev pub popped : MapStacks → ℕ → Text → Dict Text (List ℕ) → List ℕ → MapStacks
popped m p f d stack = insert p (insert f (drop_last stack) d) m

pub stack_of-popped :
    (m : MapStacks) (p q : ℕ) (f g : Text) (d : Dict Text (List ℕ)) (stack : List ℕ)
    → lookup p m ≡ some d
    → lookup f d ≡ some stack
    → stack_of (popped m p f d stack) q g
      ≡ (if (p == q) && text_eq f g then drop_last (stack_of m q g) else stack_of m q g)
unfolding stack_of
stack_of-popped m p q f g d stack hd hs = ground (
  arith,
  ==_iff p q,
  text_eq_iff f g,
  lookup-insert p q (insert f (drop_last stack) d) m,
  or_empty-drop_last f g (drop_last stack) d,
)
