-- ===== src/Flow/Arguments/Grouping.antt =====
-- The whole loop of `ClusterizeBatchesByArguments`.
use survol.Base.{
  ℕ, zero, suc, ◌+◌, ◌<◌, lt→ltb, le→not_ltb, Text, List, [], ◌∷◌, ◌++◌, append_assoc, Option, some,
  true, if◌then◌else◌, length, length-append, get_elem?, get_elem?-append, get_elem?-append_self,
  ◌≡◌, refl, sym, ◌∙◌, arith, Bool-cases, inl, inr,
}
use survol.Batch.{Store}
use survol.Batch.Values.{args_eq}
use survol.Batch.Calls.{BatchLet}
use survol.Batch.Failure.{Result, ok, raised, ◌>>=◌}
use survol.Flow.Arguments.{Clustered, no_args, cluster_loop, clusterize_by_arguments}
use survol.Flow.Arguments.Runs.{
  le→leb, close_run, put_before, grouped, Spot, close_cluster-eq, close_run-cases,
  put_before-put_before, next_spot, loop_end,
}

module _ (parse_time : Text → Option ℕ) where
  -- A round that closes the run, behind which another call stands.
  close_then :
      (fuel : ℕ) (h : Store) (n : ℕ) (done : List BatchLet) (x : BatchLet) (mid : List BatchLet)
      (y : BatchLet) (l : List BatchLet)
      → ((g : Store) (m : ℕ) (before : List BatchLet)
          → Spot parse_time fuel g m before y [] l
            ≡ put_before parse_time before (grouped parse_time g m y [] l))
      → ((close_run parse_time h n x mid >>= λ s.
            ok (record s { batches = done ++ (s.batches ++ y ∷ l) }))
          >>= λ s'. cluster_loop parse_time fuel (length done + 1) (length done + 1 + 1) s')
        ≡ put_before parse_time done (
            close_run parse_time h n x mid >>= λ s.
            put_before parse_time s.batches (grouped parse_time s.store s.subst y [] l))
  close_then fuel h n done x mid y l loop = elim (close_run-cases parse_time h n x mid) [
    | inl (e, q) ↦ rw q
    | inr (g, z, m, q) ↦ rw q (
        next_spot parse_time fuel g m done z y l
        ∙ loop g m (done ++ z ∷ [])
        ∙ sym (put_before-put_before parse_time done (z ∷ []) (grouped parse_time g m y [] l)))
  ]

  close_last :
      (fuel : ℕ) (h : Store) (n : ℕ) (done : List BatchLet) (x : BatchLet) (mid : List BatchLet)
      → ((close_run parse_time h n x mid >>= λ s.
            ok (record s { batches = done ++ (s.batches ++ []) }))
          >>= λ s'. cluster_loop parse_time fuel (length done + 1) (length done + 1 + 1) s')
        ≡ put_before parse_time done (close_run parse_time h n x mid)
  close_last fuel h n done x mid = elim (close_run-cases parse_time h n x mid) [
    | inl (e, q) ↦ rw q
    | inr (g, z, m, q) ↦ rw q (loop_end parse_time fuel g m done z)
  ]

  put_before-nil : (r : Result Clustered) → put_before parse_time [] r ≡ r
  put_before-nil (ok s) = refl
  put_before-nil (raised e) = refl

  grouped-cons :
      (h : Store) (n : ℕ) (x : BatchLet) (mid : List BatchLet) (y : BatchLet) (l : List BatchLet)
      → grouped parse_time h n x mid (y ∷ l) ≡ (
          if no_args x.significant_args
          then (close_run parse_time h n x mid >>= λ s.
              put_before parse_time s.batches (grouped parse_time s.store s.subst y [] l))
          else if args_eq y.significant_args x.significant_args
          then grouped parse_time h n x (mid ++ y ∷ []) l
          else (close_run parse_time h n x mid >>= λ s.
              put_before parse_time s.batches (grouped parse_time s.store s.subst y [] l)))
  unfolding grouped
  grouped-cons h n x mid y l = refl

  grouped-nil :
      (h : Store) (n : ℕ) (x : BatchLet) (mid : List BatchLet)
      → grouped parse_time h n x mid [] ≡ close_run parse_time h n x mid
  unfolding grouped
  grouped-nil h n x mid = refl

  close_run-nil :
      (h : Store) (n : ℕ) (x : BatchLet)
      → close_run parse_time h n x [] ≡ ok (record { store = h; batches = x ∷ []; subst = n })
  unfolding close_run
  close_run-nil h n x = refl

  read_current :
      (done : List BatchLet) (x : BatchLet) (mid : List BatchLet) (y : BatchLet) (l : List BatchLet)
      → get_elem? (done ++ x ∷ (mid ++ y ∷ l)) (length done + 1 + length mid) ≡ some y
  read_current done x mid y l =
      let e : length done + 1 + length mid ≡ length done + suc (length mid) = omega arith in
      rw (e, get_elem?-append done (x ∷ (mid ++ y ∷ l)) (suc (length mid)))
        (get_elem?-append_self mid y l)

  loop-eq :
      (fuel : ℕ) (h : Store) (n : ℕ) (done : List BatchLet) (x : BatchLet) (mid l : List BatchLet)
      → length l < fuel
      → (no_args x.significant_args ≡ true → mid ≡ [])
      → Spot parse_time fuel h n done x mid l
        ≡ put_before parse_time done (grouped parse_time h n x mid l)
  unfolding cluster_loop
  loop-eq zero h n done x mid l f k = absurd (omega arith)
  loop-eq (suc fuel) h n done x mid [] f k =
      let len : length (done ++ x ∷ (mid ++ [])) ≡ length done + 1 + length mid =
        omega (arith, length-append done (x ∷ (mid ++ [])), length-append mid []) in
      rw
        (
          cluster_loop,
          len,
          le→leb (length done + 1 + length mid) (length done + 1 + length mid) (omega arith),
          le→not_ltb (length done + 1 + length mid) (length done + 1 + length mid) (omega arith),
          close_cluster-eq parse_time h n done x mid [],
          grouped-nil h n x mid,
        )
        (close_last fuel h n done x mid)
  loop-eq (suc fuel) h n done x mid (y ∷ l) f k =
      let len : length (done ++ x ∷ (mid ++ y ∷ l)) ≡ length done + 1 + length mid + 1 + length l =
        omega (arith, length-append done (x ∷ (mid ++ y ∷ l)), length-append mid (y ∷ l)) in
      rw
        (
          cluster_loop,
          len,
          le→leb (length done + 1 + length mid) (length done + 1 + length mid + 1 + length l)
              (omega arith),
          lt→ltb (length done + 1 + length mid) (length done + 1 + length mid + 1 + length l)
              (omega arith),
          get_elem?-append_self done x (mid ++ y ∷ l),
          grouped-cons h n x mid y l,
        )
        (elim (Bool-cases (no_args x.significant_args)) [
          | inl e ↦
              let at : length done + 1 + 0 + 1 ≡ length done + 1 + 1 = omega arith in
              rw (e, k e, at, close_run-nil h n x)
                (next_spot parse_time fuel h n done x y l
                  ∙ loop-eq fuel h n (done ++ x ∷ []) y [] l (omega arith) (λ _. refl)
                  ∙ sym (
                      put_before-put_before parse_time done (x ∷ [])
                        (grouped parse_time h n y [] l)))
          | inr e ↦
              rw (e, read_current done x mid y l)
                (elim (Bool-cases (args_eq y.significant_args x.significant_args)) [
                  | inl same ↦
                      let at : length done + 1 + length mid + 1
                          ≡ length done + 1 + length (mid ++ y ∷ []) =
                        omega (arith, length-append mid (y ∷ [])) in
                      rw (same, at, ← append_assoc mid (y ∷ []) l)
                        (loop-eq fuel h n done x (mid ++ y ∷ []) l (omega arith) (λ q. cc (e, q)))
                  | inr new ↦
                      rw (new, close_cluster-eq parse_time h n done x mid (y ∷ l))
                        (close_then fuel h n done x mid y l
                          (λ g m before. loop-eq fuel g m before y [] l (omega arith) (λ _. refl)))
                ])
        ])

  -- `ClusterizeBatchesByArguments` is the walk that puts each maximal run of calls with the same,
  -- non-empty, arguments into one sequence: the same list, store and count of sequences, and the same
  -- exception where a time stamp of a run cannot be read.
  pub clusterize_by_arguments_lem :
      (h : Store) (x : BatchLet) (l : List BatchLet)
      → clusterize_by_arguments parse_time h (x ∷ l) ≡ grouped parse_time h 0 x [] l
  unfolding clusterize_by_arguments
  clusterize_by_arguments_lem h x l =
      loop-eq (suc (length l)) h 0 [] x [] l (omega arith) (λ _. refl)
      ∙ put_before-nil (grouped parse_time h 0 x [] l)
