-- ===== src/Unfinished/Kept.antt =====
-- What `MergePopBatch` keeps of the cores, whether it returns or raises.
use survol.Base.{
  ℕ, ◌<◌, ◌==◌, text_eq, nat_eq, text_eq_instance, Option, none, some, Option-cases, false,
  Bool-cases, lookup, insert, drop_last, get_last?, ◌++◌, ◌⊎◌, ◌≡◌, ◌∙◌, refl, ap, inl, inr, arith,
}
use survol.Batch.{BatchLetCore, Store, write, status_eq, unfinished, resumed, matched, merged}
use survol.Batch.Failure.{Failure}
use survol.Unfinished.{MapStacks, Merged, returned, broken, merge_cores, merge_end, merge_pop_batch}

unfoldable pub left_store : Merged → Store
left_store (returned res) = res.store
left_store (broken h m e) = h

-- What is kept when a core is written with the same pid, and with the same status or one of a call that
-- does not wait.
abbrev pub IsClosed : (Store → Type 0) → Type 0
IsClosed Q =
    (h : Store) (a : ℕ) (c : BatchLetCore)
    → c.pid ≡ (h.core a).pid
    → (c.status ≡ (h.core a).status) ⊎ (status_eq c.status unfinished ≡ false)
    → Q h
    → Q (write h a c)

module _ (Q : Store → Type 0) (closed : IsClosed Q) where
  merge_cores-IsClosed : (h : Store) (u r : ℕ) → Q h → Q (merge_cores h u r).0
  unfolding merge_cores
  merge_cores-IsClosed h u r q =
      let h1 =
        write h r
          (record (h.core r) { parsed_args = (h.core u).parsed_args ++ (h.core r).parsed_args }) in
      let h2 = write h1 u (record (h1.core u) { status = matched; resumed_batch = some r }) in
      let q1 : Q h1 =
        closed h r
          (record (h.core r) { parsed_args = (h.core u).parsed_args ++ (h.core r).parsed_args })
          refl (inl refl) q in
      let q2 : Q h2 =
        closed h1 u (record (h1.core u) { status = matched; resumed_batch = some r }) refl
          (inr refl) q1 in
      elim (Bool-cases (text_eq (h.core u).func_nam (h.core r).func_nam)) [
        | inr n ↦ rw n q
        | inl e ↦ elim (Bool-cases (status_eq (h1.core u).status unfinished)) [
          | inr n ↦ rw (e, n) q1
          | inl w ↦ elim (Bool-cases (status_eq (h2.core r).status resumed)) [
            | inr n ↦ rw (e, w, n) q2
            | inl z ↦
                rw (e, w, z)
                  (closed h2 r (record (h2.core r) { status = merged; unfinished_batch = some u })
                    refl (inr refl) q2)
          ]
        ]
      ]

  merge_end-IsClosed :
      (m : MapStacks) (x : Store × Option Failure) → Q x.0 → Q (left_store (merge_end m x))
  unfolding merge_end left_store
  merge_end-IsClosed m (h, none) q = q
  merge_end-IsClosed m (h, some e) q = q

  pub merge_pop_batch-IsClosed :
      (h : Store) (m : MapStacks) (r : ℕ) → Q h → Q (left_store (merge_pop_batch h m r))
  unfolding merge_pop_batch left_store
  merge_pop_batch-IsClosed h m r q = elim (Option-cases (lookup (h.core r).pid m)) [
    | inl x ↦ rw (left_store, merge_pop_batch, x) q
    | inr (d, x) ↦ elim (Option-cases (lookup (h.core r).func_nam d)) [
      | inl y ↦ rw (left_store, merge_pop_batch, x, y) q
      | inr (stack, y) ↦ elim (Option-cases (get_last? stack)) [
        | inl l ↦ rw (left_store, merge_pop_batch, x, y, l) q
        | inr (u, l) ↦
            let m' = insert (h.core r).pid (insert (h.core r).func_nam (drop_last stack) d) m in
            rw (merge_pop_batch, x, y, l)
              (merge_end-IsClosed m' (merge_cores h u r) (merge_cores-IsClosed h u r q))
      ]
    ]
  ]

pub pid-IsClosed : (b p : ℕ) → IsClosed (λ h. (h.core b).pid ≡ p)
pid-IsClosed b p h a c e s q = elim (Bool-cases (a == b)) [
  | inl t ↦ let z : a ≡ b = ground (arith, t) in rw t (e ∙ ap (λ (i : ℕ). (h.core i).pid) z ∙ q)
  | inr n ↦ rw n q
]

pub next-IsClosed : (b : ℕ) → IsClosed (λ h. b < h.next)
next-IsClosed b h a c e s q = q

-- A core that does not wait goes on not to.
pub status-IsClosed : (b : ℕ) → IsClosed (λ h. status_eq (h.core b).status unfinished ≡ false)
status-IsClosed b h a c e s q = elim (Bool-cases (a == b)) [
  | inr n ↦ rw n q
  | inl t ↦ elim s [
    | inr w ↦ rw t w
    | inl same ↦
        let z : a ≡ b = ground (arith, t) in
        rw t (ap (λ x. status_eq x unfinished) (same ∙ ap (λ (i : ℕ). (h.core i).status) z) ∙ q)
  ]
]
