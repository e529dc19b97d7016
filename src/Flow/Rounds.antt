-- ===== src/Flow/Rounds.antt =====
-- One round of the loop of `FilterMatchedBatches`, and what it keeps.
use survol.Base.{
  ℕ, zero, suc, ◌+◌, ◌-◌, ◌≤◌, ◌==◌, ==_iff, lt→ltb, le→not_ltb, List, [], ◌∷◌, ◌++◌, some, true,
  length, length-append, get_elem?-append, splice, take-append, drop-append, ◌≡◌, refl, arith,
  Bool-cases, inl, inr, All, All-map2,
}
use survol.Batch.{Store, matched, merged}
use survol.Batch.Calls.{BatchLet}
use survol.Batch.Failure.{ok}
use survol.Flow.{refers_to, Filtered, filter_step, filter_loop}
use survol.Flow.Filtering.{
  is_half_of, without_halves, IsLinked, Agrees, cleared, and_left, and_right, status_at,
}

pub filter_loop_end :
    (fuel idx : ℕ) (s : Filtered) → length s.batches ≤ idx → filter_loop fuel idx s ≡ ok s
unfolding filter_loop
filter_loop_end zero idx s h = refl
filter_loop_end (suc fuel) idx s h = rw (le→not_ltb idx (length s.batches) h)

-- One round at a pair of neighbours.
pub filter_loop_round :
    (fuel : ℕ) (pre : List BatchLet) (x y : BatchLet) (l : List BatchLet) (s s' : Filtered)
    → s.batches ≡ pre ++ x ∷ y ∷ l
    → filter_step s (length pre + 1) x y ≡ ok s'
    → filter_loop (suc fuel) (length pre + 1) s ≡ filter_loop fuel (length pre + 1 + 1) s'
unfolding filter_loop
filter_loop_round fuel pre x y l s s' e step =
    let back : length pre + 1 - 1 ≡ length pre + 0 = omega arith in
    rw (
      filter_loop,
      e,
      lt→ltb (length pre + 1) (length (pre ++ x ∷ y ∷ l))
          (omega (arith, length-append pre (x ∷ y ∷ l))),
      back,
      get_elem?-append pre (x ∷ y ∷ l) 0,
      e,
      get_elem?-append pre (x ∷ y ∷ l) 1,
      step,
    )

pub All-all : {P : BatchLet → Type 0} (l : List BatchLet) → ((b : BatchLet) → P b) → All P l
All-all [] f = tt
All-all (b ∷ l) f = (f b, All-all l f)

pub splice_out :
    (pre : List BatchLet) (x : BatchLet) (l : List BatchLet)
    → splice (pre ++ x ∷ l) (length pre + 1 - 1) (length pre + 1) [] ≡ pre ++ l
splice_out pre x l =
    let back : length pre + 1 - 1 ≡ length pre = omega arith in
    rw (back, take-append pre (x ∷ l), drop-append pre (x ∷ l) 1)

-- What stays true when the half of `y` is removed and the loop goes on behind `y`.
pub Agrees-cleared :
    (h g : Store) (x y z : BatchLet) (l : List BatchLet)
    → Agrees h g x (y ∷ z ∷ l)
    → IsLinked h (x ∷ y ∷ z ∷ l)
    → (h.core y.core).unfinished_batch ≡ some x.core
    → Agrees h (cleared g y.core) z l
Agrees-cleared h g x y z l a k to_x = record {
  fields = λ b. elim (Bool-cases (y.core == b)) [
    | inl e ↦ let q : y.core ≡ b = (==_iff y.core b).0 e in rw (e, q) (a.fields b)
    | inr e ↦ rw e (a.fields b)
  ];
  halves =
      All-map2 (z ∷ l)
        (λ t f ne b p. elim (Bool-cases (y.core == b)) [
          | inl e ↦ absurd (ne (let q : y.core ≡ b = (==_iff y.core b).0 e in cc (q, p, to_x)))
          | inr e ↦ rw e (f b p)
        ])
        a.halves.1.1 k.distinct.0.1;
  entries =
      All-map2 l
        (λ t same ne. elim (Bool-cases (y.core == t.core)) [
          | inl e ↦ absurd (ne ((==_iff y.core t.core).0 e))
          | inr e ↦ rw e same
        ])
        a.entries.1.1 k.distinct.1.0.1;
}

pub Agrees-next :
    (h g : Store) (x y : BatchLet) (l : List BatchLet) → Agrees h g x (y ∷ l) → Agrees h g y l
Agrees-next h g x y l a = record { fields = a.fields; halves = a.halves.1; entries = a.entries.1 }

pub IsLinked-next :
    (h : Store) (x : BatchLet) (l : List BatchLet) → IsLinked h (x ∷ l) → IsLinked h l
IsLinked-next h x [] k = record { halves = tt; calls = tt; functions = tt; distinct = tt }
IsLinked-next h x (y ∷ l) k = record {
  halves = k.halves.1;
  calls = k.calls.1;
  functions = k.functions.1;
  distinct = k.distinct.1;
}

-- The half before a call that it belongs to is the one that the call refers to.
pub refers_back :
    (h : Store) (x y : BatchLet) (l : List BatchLet)
    → IsLinked h (x ∷ y ∷ l)
    → is_half_of h x y ≡ true
    → ((h.core y.core).unfinished_batch ≡ some x.core) × ((h.core y.core).status ≡ merged)
refers_back h x y l k e =
    let px : (h.core x.core).status ≡ matched =
      status_at _ matched 4 refl (and_left _ _ (and_left _ _ e)) in
    let py : (h.core y.core).status ≡ merged =
      status_at _ merged 5 refl (and_right _ _ (and_left _ _ e)) in
    let (r, rx, ur) = k.halves.0 px in
    let back : refers_to (h.core x.core).resumed_batch y.core ≡ true = and_right _ _ e in
    let q : (r == y.core) ≡ true = rw rx at back in (rw (← (==_iff r y.core).0 q) ur, py)

-- A call with both halves is no half.
pub without_halves-merged :
    (h : Store) (y : BatchLet) (l : List BatchLet)
    → (h.core y.core).status ≡ merged
    → without_halves h (y ∷ l) ≡ y ∷ without_halves h l
unfolding without_halves
without_halves-merged h y [] e = refl
without_halves-merged h y (z ∷ l) e = rw (without_halves, e)
