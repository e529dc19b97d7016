-- ===== src/Flow/Halves.antt =====
-- The whole loop of `FilterMatchedBatches`.
use survol.Base.{
  ℕ, zero, suc, ◌+◌, ◌≤◌, List, [], ◌∷◌, ◌++◌, append_assoc, true, length, length-append, ◌≡◌, refl,
  sym, ap, ◌∙◌, arith, Bool-cases, inl, inr,
}
use survol.Batch.{Store}
use survol.Batch.Calls.{BatchLet}
use survol.Batch.Failure.{ok}
use survol.Flow.{Filtered, filter_step, filter_loop, filter_matched_batches}
use survol.Flow.Filtering.{is_half_of, without_halves, IsLinked, Agrees, after, filter_step-eq}
use survol.Flow.Rounds.{
  filter_loop_end, filter_loop_round, All-all, splice_out, Agrees-cleared, Agrees-next,
  IsLinked-next, refers_back, without_halves-merged,
}

-- What a run of the loop has to end with, from the state `s`, when it has walked past `pre` and
-- stands at `x`.
abbrev Ends : Store → ℕ → List BatchLet → BatchLet → List BatchLet → Filtered → Type 0
Ends h fuel pre x rest s =
    (s' : Filtered) × (filter_loop fuel (length pre + 1) s ≡ ok s')
    × (s'.batches ≡ pre ++ without_halves h (x ∷ rest))
    × (s'.subst + length s'.batches ≡ s.subst + length s.batches)

-- The walked part may take one more entry.
Ends-snoc :
    (h : Store) (fuel : ℕ) (pre : List BatchLet) (w z : BatchLet) (l : List BatchLet) (s : Filtered)
    → Ends h fuel (pre ++ w ∷ []) z l s
    → (s' : Filtered) × (filter_loop fuel (length pre + 1 + 1) s ≡ ok s')
      × (s'.batches ≡ pre ++ w ∷ without_halves h (z ∷ l))
      × (s'.subst + length s'.batches ≡ s.subst + length s.batches)
Ends-snoc h fuel pre w z l s (s', run, eq, count) =
    let place : length (pre ++ w ∷ []) + 1 ≡ length pre + 1 + 1 =
      omega (arith, length-append pre (w ∷ [])) in
    (s', rw place at run, eq ∙ append_assoc pre (w ∷ []) (without_halves h (z ∷ l)), count)

without_halves_gone :
    (h : Store) (x y : BatchLet) (l : List BatchLet)
    → is_half_of h x y ≡ true
    → without_halves h (x ∷ y ∷ l) ≡ without_halves h (y ∷ l)
unfolding without_halves
without_halves_gone h x y l e = rw (without_halves, e)

-- A round that removes `x`: the rest of the run is that of the loop behind `y`.
removed-Ends :
    (h : Store) (fuel : ℕ) (pre : List BatchLet) (x y : BatchLet) (l : List BatchLet) (s : Filtered)
    → s.batches ≡ pre ++ x ∷ y ∷ l
    → Agrees h s.store x (y ∷ l)
    → IsLinked h (x ∷ y ∷ l)
    → is_half_of h x y ≡ true
    → length (y ∷ l) ≤ suc fuel
    → ((p : List BatchLet) (z : BatchLet) (m : List BatchLet) (t : Filtered)
        → length m ≤ fuel
        → t.batches ≡ p ++ z ∷ m
        → Agrees h t.store z m
        → IsLinked h (z ∷ m)
        → Ends h fuel p z m t)
    → Ends h (suc fuel) pre x (y ∷ l) s
removed-Ends h fuel pre x y [] s e a k goes f loop =
    let s' = after h x y [] s a k (length pre + 1) in
    let left : s'.batches ≡ pre ++ y ∷ [] = rw e (splice_out pre x (y ∷ [])) in
    (
      s',
      filter_loop_round fuel pre x y [] s s' e
            (rw goes at (filter_step-eq h x y [] s a k (length pre + 1)))
          ∙ filter_loop_end fuel (length pre + 1 + 1) s'
              (rw left (omega (arith, length-append pre (y ∷ [])))),
      rw left (unfold without_halves in rw (without_halves, goes)),
      omega (
        arith,
        ap length left,
        ap length e,
        length-append pre (y ∷ []),
        length-append pre (x ∷ y ∷ []),
      ),
    )
removed-Ends h fuel pre x y (z ∷ l) s e a k goes f loop =
    let s' = after h x y (z ∷ l) s a k (length pre + 1) in
    let left : s'.batches ≡ pre ++ y ∷ z ∷ l = rw e (splice_out pre x (y ∷ z ∷ l)) in
    let (to_x, py) = refers_back h x y (z ∷ l) k goes in
    let (t, run, eq, count) = Ends-snoc h fuel pre y z l s' (
      loop (pre ++ y ∷ []) z l s' (omega arith) (left ∙ sym (append_assoc pre (y ∷ []) (z ∷ l)))
        (Agrees-cleared h s.store x y z l a k to_x)
        (IsLinked-next h y (z ∷ l) (IsLinked-next h x (y ∷ z ∷ l) k))) in
    (
      t,
      filter_loop_round fuel pre x y (z ∷ l) s s' e
            (rw goes at (filter_step-eq h x y (z ∷ l) s a k (length pre + 1)))
          ∙ run,
      eq
          ∙ ap (λ r. pre ++ r)
              (sym (without_halves_gone h x y (z ∷ l) goes ∙ without_halves-merged h y (z ∷ l) py)),
      omega (
        arith,
        count,
        ap length left,
        ap length e,
        length-append pre (y ∷ z ∷ l),
        length-append pre (x ∷ y ∷ z ∷ l),
      ),
    )

module _ (h : Store) where
  loop-Ends :
      (fuel : ℕ) (pre : List BatchLet) (x : BatchLet) (rest : List BatchLet) (s : Filtered)
      → length rest ≤ fuel
      → s.batches ≡ pre ++ x ∷ rest
      → Agrees h s.store x rest
      → IsLinked h (x ∷ rest)
      → Ends h fuel pre x rest s
  loop-Ends fuel pre x [] s f e a k = (
    s,
    filter_loop_end fuel (length pre + 1) s (rw e (omega (arith, length-append pre (x ∷ [])))),
    e ∙ ap (λ l. pre ++ l) (unfold without_halves in refl),
    refl,
  )
  loop-Ends zero pre x (y ∷ l) s f e a k = absurd (omega arith)
  loop-Ends (suc fuel) pre x (y ∷ l) s f e a k = elim (Bool-cases (is_half_of h x y)) [
    | inr stays ↦
        let step : filter_step s (length pre + 1) x y ≡ ok s =
          rw stays at (filter_step-eq h x y l s a k (length pre + 1)) in
        let (s', run, eq, count) = Ends-snoc h fuel pre x y l s (
          loop-Ends fuel (pre ++ x ∷ []) y l s (omega arith)
            (e ∙ sym (append_assoc pre (x ∷ []) (y ∷ l))) (Agrees-next h s.store x y l a)
            (IsLinked-next h x (y ∷ l) k)) in
        (
          s',
          filter_loop_round fuel pre x y l s s e step ∙ run,
          rw eq (unfold without_halves in rw (without_halves, stays)),
          count,
        )
    | inl goes ↦ removed-Ends h fuel pre x y l s e a k goes f (loop-Ends fuel)
  ]

-- On a flow where no core stands twice, whose halves and resumed halves refer to one another, and where
-- neighbours of which the first is a half and the second has both halves are calls of one function:
-- `FilterMatchedBatches` raises nothing, removes each half that stands just before its own resumed half and no other entry,
-- and returns how many it removed.
pub filter_matched_batches_lem :
    (h : Store) (l : List BatchLet)
    → IsLinked h l
    → (s : Filtered) × (filter_matched_batches h l ≡ ok s)
      × (s.batches ≡ without_halves h l)
      × (s.subst + length s.batches ≡ length l)
unfolding filter_matched_batches
filter_matched_batches_lem h [] k =
    let s : Filtered = record { store = h; batches = []; subst = 0 } in
    (s, unfold filter_loop in refl, unfold without_halves in refl, omega arith)
filter_matched_batches_lem h (x ∷ l) k =
    let (s, run, eq, count) =
      loop-Ends h (suc (length l)) [] x l (record { store = h; batches = x ∷ l; subst = 0 })
        (omega arith) refl
        (record {
          fields = λ a. (refl, refl, refl);
          halves = All-all (x ∷ l) (λ e a p. refl);
          entries = All-all l (λ e. refl);
        })
        k in
    (s, run, eq, omega (arith, count))
