-- ===== src/Flow/Bigrams/Passes.antt =====
-- What a pass of `ClusterizeBigrams` does to the length of a flow.
use survol.Base.{
  ℕ, zero, suc, ◌+◌, ◌-◌, ◌≤◌, ◌<◌, List, [], ◌∷◌, length, length-append, get_elem?, set, splice,
  inl, inr, ◌≡◌, refl, ap, arith, Bool-cases, Option-cases,
}
use survol.Batch.{Store}
use survol.Batch.Calls.{BatchLet, same_call}
use survol.Flow.{bump}
use survol.Flow.Bigrams.{Bigrams, put_sequence, reuse_sequence, replace_pair, pass_pair}

length-set : (l : List BatchLet) (i : ℕ) (v : BatchLet) → length (set l i v) ≡ length l
length-set [] i v = refl
length-set (x ∷ l) zero v = refl
length-set (x ∷ l) (suc i) v = ap suc (length-set l i v)

length-splice :
    (l : List BatchLet) (i : ℕ) (m : List BatchLet)
    → i + 2 ≤ length l
    → length (splice l i (i + 2) m) + 2 ≡ length l + length m
length-splice [] i m h = absurd (omega arith)
length-splice (x ∷ []) zero m h = absurd (omega arith)
length-splice (x ∷ y ∷ l) zero m h = omega (arith, length-append m l)
length-splice (x ∷ l) (suc i) m h =
    let e : suc i + 2 ≡ suc (i + 2) = omega arith in
    rw e (omega (arith, length-splice l i m (omega arith)))

-- The state of a pass over the flow `l`: the bounds of the loop, and what it has replaced so far.
pub record IsPass (h : Store) (l : List BatchLet) (s : Bigrams) : Type 0 where
  pub bound : s.max_idx ≡ length s.batches - 1
  pub count : s.subst + length s.batches ≤ length l
  pub untouched : s.subst ≡ 0 → (s.store ≡ h) × (s.batches ≡ l)

module _ (h : Store) (l : List BatchLet) (s : Bigrams) (p : IsPass h l s)
    (inside : s.idx_batch < s.max_idx) where
  room : s.idx_batch + 2 ≤ length s.batches
  room = omega (arith, p.bound)

  put_sequence-IsPass : (g : Store) (seq : BatchLet) → IsPass h l (put_sequence s g seq)
  unfolding put_sequence
  put_sequence-IsPass g seq =
      let e = length-splice s.batches s.idx_batch (seq ∷ []) room in
      record {
        bound = omega (arith, e, p.bound);
        count = omega (arith, e, p.count);
        untouched = λ z. absurd (omega (arith, z));
      }

  reuse_sequence-IsPass :
      (g : Store) (place : ℕ) (q : BatchLet) → IsPass h l (reuse_sequence s g place q)
  unfolding reuse_sequence
  reuse_sequence-IsPass g place q =
      let size = length-set s.batches place (bump q) in
      let e =
        length-splice (set s.batches place (bump q)) s.idx_batch [] (omega (arith, size, room)) in
      record {
        bound = omega (arith, e, size, p.bound);
        count = omega (arith, e, size, p.count);
        untouched = λ z. absurd (omega (arith, z));
      }

  pub pass_pair-IsPass : IsPass h l (pass_pair s)
  unfolding pass_pair
  pass_pair-IsPass = record { bound = p.bound; count = p.count; untouched = p.untouched }

  pub replace_pair-IsPass :
      (g : Store) (seq : BatchLet)
      → IsPass h l (replace_pair s g seq)
        × ((replace_pair s g seq).max_idx + s.idx_batch + 1
            ≤ s.max_idx + (replace_pair s g seq).idx_batch)
  unfolding replace_pair
  replace_pair-IsPass g seq = elim (Option-cases s.prev) [
    | inl e ↦ rw (replace_pair, e) (put_sequence-IsPass g seq, unfold put_sequence in omega arith)
    | inr (place, e) ↦ elim (Option-cases (get_elem? s.batches place)) [
      | inl e' ↦
          rw (replace_pair, e, e') (put_sequence-IsPass g seq, unfold put_sequence in omega arith)
      | inr (q, e') ↦ elim (Bool-cases (same_call g seq q)) [
        | inl same ↦
            rw (replace_pair, e, e', same)
              (reuse_sequence-IsPass g place q, unfold reuse_sequence in omega arith)
        | inr new ↦
            rw (replace_pair, e, e', new)
              (put_sequence-IsPass g seq, unfold put_sequence in omega arith)
      ]
    ]
  ]
