-- ===== src/Flow/Bigrams/Rounds.antt =====
-- The loops of `ClusterizeBigrams` and of `FactorizeOneFlow` end.
use survol.Base.{
  ℕ, zero, suc, ◌+◌, ◌-◌, ◌≤◌, ◌<◌, ◌==◌, ==_iff, ltb, ltb→lt, Text, codes, List, Option, none,
  some, Dict, length, slice, ◌⊎◌, inl, inr, ◌≡◌, refl, arith, Bool-cases,
}
use survol.Batch.{Store}
use survol.Batch.Calls.{BatchLet, signature_for_repetitions}
use survol.Batch.Failure.{Failure, Result, ok, raised}
use survol.Flow.Arguments.{make_sequence}
use survol.Flow.Arguments.Runs.{Result-cases}
use survol.Flow.Bigrams.{
  Bigrams, replace_pair, pass_pair, occurrences_of, bigram_step, bigram_loop, clusterize_bigrams,
  statistics_bigrams, bigram_rounds,
}
use survol.Flow.Bigrams.Passes.{IsPass, replace_pair-IsPass, pass_pair-IsPass}

-- A result that is an exception, or a value with the property.
abbrev pub RaisesOr {ℓ} : {A : Type 0} → Result A → (A → Type ℓ) → Type ℓ
RaisesOr {A = A} r P = ((e : Failure) × (r ≡ raised e)) ⊎ ((a : A) × (r ≡ ok a) × P a)

-- The distance of the two indices has got shorter.
abbrev pub Nearer : Bigrams → Bigrams → Type 0
Nearer s t = t.max_idx + s.idx_batch + 1 ≤ s.max_idx + t.idx_batch

module _ (repr : Text → Text) (parse_time : Text → Option ℕ) (h : Store) (l : List BatchLet)
    (m : Dict Text ℕ) where
  step-IsPass :
      (s : Bigrams)
      → IsPass h l s
      → s.idx_batch < s.max_idx
      → RaisesOr (bigram_step repr parse_time m s) (λ t. IsPass h l t × Nearer s t)
  unfolding bigram_step
  step-IsPass s p inside =
      let range = slice s.batches s.idx_batch (s.idx_batch + 2) in
      elim (Bool-cases (ltb 5 (occurrences_of (signature_for_repetitions repr s.store range) m))) [
        | inr rare ↦ inr (
          pass_pair s,
          rw (bigram_step, rare),
          (pass_pair-IsPass h l s p inside, unfold pass_pair in omega arith),
        )
        | inl often ↦ elim (Result-cases (make_sequence parse_time s.store range (codes "Rept"))) [
          | inl (e, q) ↦ inl (e, rw (bigram_step, often, q))
          | inr (r, q) ↦ inr (
            replace_pair s r.0 r.1,
            rw (bigram_step, often, q),
            replace_pair-IsPass h l s p inside r.0 r.1,
          )
        ]
      ]

  loop-IsPass :
      (fuel : ℕ) (s : Bigrams)
      → IsPass h l s
      → s.max_idx ≤ fuel + s.idx_batch
      → RaisesOr
          (bigram_loop repr parse_time fuel m s)
          (λ t. IsPass h l t × (t.max_idx ≤ t.idx_batch))
  unfolding bigram_loop
  loop-IsPass zero s p f = inr (s, refl, (p, omega arith))
  loop-IsPass (suc fuel) s p f = elim (Bool-cases (ltb s.idx_batch s.max_idx)) [
    | inr over ↦ inr (s, rw (bigram_loop, over), (p, ground arith))
    | inl inside ↦ elim (step-IsPass s p (ltb→lt s.idx_batch s.max_idx inside)) [
      | inl (e, q) ↦ inl (e, rw (bigram_loop, inside, q))
      | inr (t, q, (p', near)) ↦ elim (loop-IsPass fuel t p' (omega arith)) [
        | inl (e, q') ↦ inl (e, rw (bigram_loop, inside, q) q')
        | inr (u, q', r) ↦ inr (u, rw (bigram_loop, inside, q) q', r)
      ]
    ]
  ]

-- A pass that has replaced something, or nothing.
abbrev Replaced : Store → List BatchLet → Bigrams → Type 0
Replaced h l s = (0 < s.subst) ⊎ ((s.subst ≡ 0) × (s.store ≡ h) × (s.batches ≡ l))

module _ {h : Store} {l : List BatchLet} (s : Bigrams) where
  Replaced-intro : (s.subst ≡ 0 → (s.store ≡ h) × (s.batches ≡ l)) → Replaced h l s
  Replaced-intro f = elim (Bool-cases (s.subst == 0)) [
    | inl e ↦ let z : s.subst ≡ 0 = (==_iff s.subst 0).0 e in inr (z, (f z).0, (f z).1)
    | inr e ↦ inl (ground arith)
  ]

  unchanged : Replaced h l s → s.subst ≡ 0 → (s.subst ≡ 0) × (s.store ≡ h) × (s.batches ≡ l)
  unchanged (inl lt) z = absurd (omega (arith, lt, z))
  unchanged (inr e) z = e

module _ (repr : Text → Text) (parse_time : Text → Option ℕ) where
  -- A pass of `ClusterizeBigrams` raises an exception or walks to the end of the flow. Each pair that it
  -- replaces makes the flow shorter, and if it replaces none, the flow and the store are as before.
  pub clusterize_bigrams-ends :
      (h : Store) (l : List BatchLet)
      → RaisesOr (clusterize_bigrams repr parse_time h l) (λ s.
        (length s.batches ≤ s.idx_batch + 1)
        × (s.subst + length s.batches ≤ length l)
        × ((0 < s.subst) ⊎ ((s.subst ≡ 0) × (s.store ≡ h) × (s.batches ≡ l))))
  unfolding clusterize_bigrams
  clusterize_bigrams-ends h l =
      elim (loop-IsPass repr parse_time h l (statistics_bigrams repr h l) (length l)
        (record {
          store = h;
          batches = l;
          subst = 0;
          idx_batch = 0;
          max_idx = length l - 1;
          prev = none;
        })
        (record { bound = refl; count = omega arith; untouched = λ z. (refl, refl) })
        (omega arith)) [
          | inl e ↦ inl e
          | inr (s, q, (p, over)) ↦
              inr (s, q, (omega (arith, p.bound), p.count, Replaced-intro s (p.untouched)))
        ]

  same_pass :
      (h g : Store) (l k : List BatchLet) (s : Bigrams)
      → g ≡ h
      → k ≡ l
      → clusterize_bigrams repr parse_time h l ≡ ok s
      → clusterize_bigrams repr parse_time g k ≡ ok s
  same_pass h g l k s e e' q = rw (e, e') q

  -- The loop of `FactorizeOneFlow` raises an exception or ends within one round more than the flow has
  -- entries, with a flow that is not longer and in which another pass replaces nothing.
  pub bigram_rounds-ends :
      (fuel : ℕ) (h : Store) (l : List BatchLet)
      → length l < fuel
      → RaisesOr (bigram_rounds repr parse_time fuel h l) (λ o.
        (s : Bigrams) × (o ≡ some s)
        × (length s.batches ≤ length l)
        × (s.subst ≡ 0)
        × (clusterize_bigrams repr parse_time s.store s.batches ≡ ok s))
  unfolding bigram_rounds
  bigram_rounds-ends zero h l f = absurd (omega arith)
  bigram_rounds-ends (suc fuel) h l f = elim (clusterize_bigrams-ends h l) [
    | inl (e, q) ↦ inl (e, rw (bigram_rounds, q))
    | inr (s, q, (walked, count, untouched)) ↦ elim (Bool-cases (s.subst == 0)) [
      | inl none_left ↦
          let z : s.subst ≡ 0 = (==_iff s.subst 0).0 none_left in
          let (_, same_store, same_list) = unchanged s untouched z in
          inr (
            some s,
            rw (bigram_rounds, q, none_left),
            (s, refl, omega arith, z, same_pass h s.store l s.batches s same_store same_list q),
          )
      | inr more ↦
          let less : length s.batches < fuel = ground (arith, count, f, more) in
          elim (bigram_rounds-ends fuel s.store s.batches less) [
            | inl (e, q') ↦ inl (e, rw (bigram_rounds, q, more) q')
            | inr (o, q', (t, eq, len, z, fix)) ↦
                inr (o, rw (bigram_rounds, q, more) q', (t, eq, omega arith, z, fix))
          ]
    ]
  ]
