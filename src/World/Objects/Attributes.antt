-- ===== src/World/Objects/Attributes.antt =====
-- What a change of one process does to the attributes of all.
use survol.Base.{
  List, [], ◌∷◌, ◌++◌, Option, some, Option-cases, true, false, Bool-cases, ◌||◌, ℤ, int_beq,
  int_beq_iff, int_eq, lookup, insert, lookup-insert, ◌≡◌, ◌∙◌, inl, inr, sym, refl, subst, arith,
}
use survol.World.{World, Process}
use survol.World.Objects.{attribute, change_process, store_process, new_process, mem_int, add_int}

pub int_beq_refl : (p : ℤ) → int_beq p p ≡ true
int_beq_refl p = ground (arith, int_beq_iff p p)

-- The process exists.
pub record IsProcess (p : ℤ) (w : World) : Type 0 where
  pub object : Process
  pub found : lookup p w.processes ≡ some object

module _ {X : Type 0} (field : Process → X) (d : X) where
  pub attribute-found :
      (p : ℤ) (w : World) (o : Process)
      → lookup p w.processes ≡ some o
      → attribute field d p w ≡ field o
  unfolding attribute
  attribute-found p w o e = rw (attribute, e) refl

  attribute-insert_self :
      (p : ℤ) (o : Process) (w : World)
      → attribute field d p (record w { processes = insert p o w.processes }) ≡ field o
  unfolding attribute
  attribute-insert_self p o w =
      let e : lookup p (insert p o w.processes) ≡ some o =
        ground (arith, lookup-insert p p o w.processes, int_beq_refl p) in
      rw (attribute, e) refl

  attribute-insert_other :
      (p r : ℤ) (o : Process) (w : World)
      → int_beq p r ≡ false
      → attribute field d r (record w { processes = insert p o w.processes })
        ≡ attribute field d r w
  unfolding attribute
  attribute-insert_other p r o w n =
      let e : lookup r (insert p o w.processes) ≡ lookup r w.processes =
        ground (arith, lookup-insert p r o w.processes, n) in
      rw (attribute, e) refl

  pub attribute-change :
      (f : Process → Process) (p : ℤ) (w : World) (o : Process)
      → lookup p w.processes ≡ some o
      → attribute field d p (change_process f p w) ≡ field (f o)
  unfolding change_process
  attribute-change f p w o e = rw (change_process, e) (attribute-insert_self p (f o) w)

  pub attribute-change_other :
      (f : Process → Process) (p r : ℤ) (w : World)
      → int_beq p r ≡ false
      → attribute field d r (change_process f p w) ≡ attribute field d r w
  unfolding change_process
  attribute-change_other f p r w n = elim (Option-cases (lookup p w.processes)) [
    | inl e ↦ rw (change_process, e) refl
    | inr (o, e) ↦ rw (change_process, e) (attribute-insert_other p r (f o) w n)
  ]

  pub attribute-change_kept :
      (f : Process → Process) (p r : ℤ) (w : World)
      → ((o : Process) → field (f o) ≡ field o)
      → attribute field d r (change_process f p w) ≡ attribute field d r w
  unfolding change_process
  attribute-change_kept f p r w k = elim (Bool-cases (int_beq p r)) [
    | inl s ↦ elim (Option-cases (lookup p w.processes)) [
      | inl e ↦ rw (change_process, e) refl
      | inr (o, e) ↦
          let z : p ≡ r = ground (arith, s, int_beq_iff p r) in
          subst (λ (q : ℤ). attribute field d q (change_process f p w) ≡ attribute field d q w) z
            (attribute-change f p w o e ∙ (k o ∙ sym (attribute-found p w o e)))
    ]
    | inr n ↦ attribute-change_other f p r w n
  ]

  pub attribute-store :
      (p : ℤ) (parent : Option ℤ) (w : World)
      → attribute field d p (store_process p parent w)
        ≡ field (new_process w.current_directory parent)
  unfolding store_process
  attribute-store p parent w = attribute-insert_self p (new_process w.current_directory parent) w

  pub attribute-store_other :
      (p r : ℤ) (parent : Option ℤ) (w : World)
      → int_beq p r ≡ false
      → attribute field d r (store_process p parent w) ≡ attribute field d r w
  unfolding store_process
  attribute-store_other p r parent w n =
      attribute-insert_other p r (new_process w.current_directory parent) w n

insert-IsProcess :
    (p r : ℤ) (o : Process) (w : World)
    → IsProcess r w
    → IsProcess r (record w { processes = insert p o w.processes })
insert-IsProcess p r o w k = elim (Bool-cases (int_beq p r)) [
  | inl s ↦ record { object = o; found = ground (arith, s, lookup-insert p r o w.processes) }
  | inr n ↦ record {
    object = k.object;
    found = ground (arith, n, lookup-insert p r o w.processes, k.found);
  }
]

pub change_process-IsProcess :
    (f : Process → Process) (p r : ℤ) (w : World)
    → IsProcess r w
    → IsProcess r (change_process f p w)
unfolding change_process
change_process-IsProcess f p r w k = elim (Option-cases (lookup p w.processes)) [
  | inl e ↦ rw (change_process, e) k
  | inr (o, e) ↦ rw (change_process, e) (insert-IsProcess p r (f o) w k)
]

pub store_process-IsProcess :
    (p r : ℤ) (parent : Option ℤ) (w : World)
    → IsProcess r w
    → IsProcess r (store_process p parent w)
unfolding store_process
store_process-IsProcess p r parent w k =
    insert-IsProcess p r (new_process w.current_directory parent) w k

pub store_process-here :
    (p : ℤ) (parent : Option ℤ) (w : World) → IsProcess p (store_process p parent w)
unfolding store_process
store_process-here p parent w =
    let o = new_process w.current_directory parent in
    record { object = o; found = ground (arith, lookup-insert p p o w.processes, int_beq_refl p) }

-- Members of a set of handles.
pub mem_int-append : (p : ℤ) (l m : List ℤ) → mem_int p (l ++ m) ≡ (mem_int p l || mem_int p m)
unfolding mem_int
mem_int-append p [] m = refl
mem_int-append p (q ∷ l) m = ground (arith, mem_int-append p l m)

mem_int-last : (p : ℤ) (l : List ℤ) → mem_int p (l ++ p ∷ []) ≡ true
unfolding mem_int
mem_int-last p l = ground (arith, mem_int-append p l (p ∷ []), int_beq_refl p)

pub add_int_self : (p : ℤ) (l : List ℤ) → mem_int p (add_int p l) ≡ true
unfolding add_int
add_int_self p l = elim (Bool-cases (mem_int p l)) [
  | inl e ↦ rw (add_int, e) e
  | inr n ↦ rw (add_int, n) (mem_int-last p l)
]

pub add_int-more : (p q : ℤ) (l : List ℤ) → mem_int q l ≡ true → mem_int q (add_int p l) ≡ true
unfolding add_int
add_int-more p q l h = elim (Bool-cases (mem_int p l)) [
  | inl e ↦ rw (add_int, e) h
  | inr n ↦ rw (add_int, n) (ground (arith, mem_int-append q l (p ∷ []), h))
]
