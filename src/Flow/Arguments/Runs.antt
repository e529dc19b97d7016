-- ===== src/Flow/Arguments/Runs.antt =====
-- `ClusterizeBatchesByArguments` against a plain description by one walk over the list.
use survol.Base.{
  ℕ, zero, suc, ◌+◌, ◌-◌, ◌≤◌, ◌<◌, leb, lt→ltb, le→not_ltb, Text, codes, List, [], ◌∷◌, ◌++◌,
  append_assoc, Option, true, false, if◌then◌else◌, length, length-append, slice, splice,
  take-append, drop-append, drop-append_self, ◌⊎◌, ◌≡◌, refl, arith, inl, inr,
}
use survol.Batch.{Store}
use survol.Batch.Values.{args_eq}
use survol.Batch.Calls.{BatchLet}
use survol.Batch.Failure.{Failure, Result, ok, raised, ◌>>=◌}
use survol.Flow.Arguments.{Clustered, no_args, make_sequence, close_cluster, cluster_loop}

pub Result-cases :
    {A : Type 0} (r : Result A) → ((e : Failure) × (r ≡ raised e)) ⊎ ((a : A) × (r ≡ ok a))
Result-cases (ok a) = inr (a, refl)
Result-cases (raised e) = inl (e, refl)

pub lt→not_leb : (a b : ℕ) → b < a → leb a b ≡ false
lt→not_leb a b h = ground arith

pub le→leb : (a b : ℕ) → a ≤ b → leb a b ≡ true
le→leb a b h = ground arith

module _ (parse_time : Text → Option ℕ) where
  -- The call `x` and those that follow it with the same arguments: the call itself if it is alone.
  unfoldable pub close_run : Store → ℕ → BatchLet → List BatchLet → Result Clustered
  close_run h n x [] = ok (record { store = h; batches = x ∷ []; subst = n })
  close_run h n x (y ∷ mid) = (make_sequence parse_time h (x ∷ y ∷ mid) (codes "Args")) >>= λ r.
      ok (record { store = r.0; batches = r.1 ∷ []; subst = n + 1 })

  abbrev pub put_before : List BatchLet → Result Clustered → Result Clustered
  put_before l r = r >>= λ s. ok (record s { batches = l ++ s.batches })

  -- The description: the run of the call `x` is `x ∷ mid` so far, and the calls of the last
  -- argument are still to be read. A call with no arguments is alone.
  unfoldable pub grouped : Store → ℕ → BatchLet → List BatchLet → List BatchLet → Result Clustered
  unfolding close_run
  grouped h n x mid [] = close_run h n x mid
  grouped h n x mid (y ∷ l) =
      let grow = grouped h n x (mid ++ y ∷ []) l in
      let close : Result Clustered =
        ((close_run h n x mid) >>= λ s. put_before s.batches (grouped s.store s.subst y [] l)) in
      if no_args x.significant_args
      then close
      else if args_eq y.significant_args x.significant_args
      then grow
      else close

  -- Where the loop stands: behind `done`, with the run `x ∷ mid` and the rest.
  abbrev pub Spot :
      ℕ → Store → ℕ → List BatchLet → BatchLet → List BatchLet → List BatchLet → Result Clustered
  Spot fuel h n done x mid l =
      cluster_loop parse_time fuel (length done) (length done + 1 + length mid)
        (record { store = h; batches = done ++ x ∷ (mid ++ l); subst = n })

  pub slice_run :
      (done : List BatchLet) (x : BatchLet) (mid l : List BatchLet)
      → slice (done ++ x ∷ (mid ++ l)) (length done) (length done + 1 + length mid) ≡ x ∷ mid
  slice_run done x mid l =
      let e : length done + 1 + length mid - length done ≡ suc (length mid) = omega arith in
      rw (e, drop-append_self done (x ∷ (mid ++ l)), take-append mid l)

  pub splice_run :
      (done : List BatchLet) (x z : BatchLet) (mid l : List BatchLet)
      → splice (done ++ x ∷ (mid ++ l)) (length done) (length done + 1 + length mid) (z ∷ [])
        ≡ done ++ z ∷ l
  splice_run done x z mid l =
      let e : length done + 1 + length mid ≡ length done + suc (length mid) = omega arith in
      rw (
        e,
        drop-append done (x ∷ (mid ++ l)) (suc (length mid)),
        take-append done (x ∷ (mid ++ l)),
        drop-append_self mid l,
      )

  pub close_cluster-eq :
      (h : Store) (n : ℕ) (done : List BatchLet) (x : BatchLet) (mid l : List BatchLet)
      → close_cluster parse_time
          (record { store = h; batches = done ++ x ∷ (mid ++ l); subst = n })
          (length done)
          (length done + 1 + length mid)
        ≡ ((close_run h n x mid) >>= λ s. ok (record s { batches = done ++ (s.batches ++ l) }))
  unfolding close_cluster close_run
  close_cluster-eq h n done x [] l =
      rw (close_cluster, le→not_ltb (length done + 1) (length done + 1 + 0) (omega arith))
  close_cluster-eq h n done x (y ∷ mid) l =
      rw
        (
          close_cluster,
          lt→ltb (length done + 1) (length done + 1 + suc (length mid)) (omega arith),
          slice_run done x (y ∷ mid) l,
        )
        (elim (Result-cases (make_sequence parse_time h (x ∷ y ∷ mid) (codes "Args"))) [
          | inl (e, q) ↦ rw q
          | inr (r, q) ↦ rw (q, splice_run done x r.1 (y ∷ mid) l)
        ])

  -- A closed run is one entry.
  pub close_run-cases :
      (h : Store) (n : ℕ) (x : BatchLet) (mid : List BatchLet)
      → ((e : Failure) × (close_run h n x mid ≡ raised e))
        ⊎ ((g : Store) × (z : BatchLet) × (m : ℕ) × (close_run h n x mid
              ≡ ok (record { store = g; batches = z ∷ []; subst = m })))
  unfolding close_run
  close_run-cases h n x [] = inr (h, x, n, refl)
  close_run-cases h n x (y ∷ mid) =
      elim (Result-cases (make_sequence parse_time h (x ∷ y ∷ mid) (codes "Args"))) [
        | inl (e, q) ↦ inl (e, rw q)
        | inr (r, q) ↦ inr (r.0, r.1, n + 1, rw q)
      ]

  pub put_before-put_before :
      (l m : List BatchLet) (r : Result Clustered)
      → put_before l (put_before m r) ≡ put_before (l ++ m) r
  put_before-put_before l m (raised e) = refl
  put_before-put_before l m (ok s) = rw (append_assoc l m s.batches)

  -- Behind a closed run the loop stands at the next call.
  pub next_spot :
      (fuel : ℕ) (h : Store) (n : ℕ) (done : List BatchLet) (z y : BatchLet) (l : List BatchLet)
      → cluster_loop parse_time fuel
          (length done + 1)
          (length done + 1 + 1)
          (record { store = h; batches = done ++ z ∷ y ∷ l; subst = n })
        ≡ Spot fuel h n (done ++ z ∷ []) y [] l
  next_spot fuel h n done z y l =
      let e : length (done ++ z ∷ []) ≡ length done + 1 =
        omega (arith, length-append done (z ∷ [])) in
      let e' : length done + 1 + 1 + 0 ≡ length done + 1 + 1 = omega arith in
      rw (e, append_assoc done (z ∷ []) (y ∷ l), e')

  pub loop_end :
      (fuel : ℕ) (h : Store) (n : ℕ) (done : List BatchLet) (z : BatchLet)
      → cluster_loop parse_time fuel
          (length done + 1)
          (length done + 1 + 1)
          (record { store = h; batches = done ++ z ∷ []; subst = n })
        ≡ ok (record { store = h; batches = done ++ z ∷ []; subst = n })
  unfolding cluster_loop
  loop_end zero h n done z = refl
  loop_end (suc fuel) h n done z = rw (
    cluster_loop,
    lt→not_leb (length done + 1 + 1) (length (done ++ z ∷ []))
        (omega (arith, length-append done (z ∷ []))),
  )
