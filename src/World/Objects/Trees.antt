-- ===== src/World/Objects/Trees.antt =====
-- survol/scripts/dockit.py: the tree of processes. A parent knows its subprocesses, and no process is
-- its own parent.
use survol.Base.{
  Text, List, [], Option, none, some, Option-cases, true, false, Bool-cases, ℤ, int_beq,
  int_beq_iff, int_eq, lookup, ◌≡◌, ◌∙◌, ◌⊎◌, inl, inr, sym, refl, subst, arith,
}
use survol.Batch.Failure.{self_parent, ok, raised}
use survol.World.{World, Process}
use survol.World.Actions.{done, pure, raise, modify, continue, ◌>>=◌}
use survol.World.Keeps.{Keeps, keeps_rules, Keeps-modify}
use survol.World.Objects.{
  parent_of, sub_processes_of, change_process, mem_int, add_int, set_parent_process,
  add_parent_process, or_set_parent, wait_process_end,
}
use survol.World.Objects.Attributes.{
  IsProcess, attribute-change, attribute-change_other, attribute-change_kept, attribute-found,
  change_process-IsProcess, add_int_self, add_int-more,
}

-- The parent of a process is another process, which has it among its subprocesses.
pub record IsForest (w : World) : Type 0 where
  pub linked :
      (p r : ℤ)
      → parent_of p w ≡ some r
      → (int_beq p r ≡ false) × (mem_int p (sub_processes_of r w) ≡ true)

-- And `q`, the process that a call is traced in, exists.
pub record IsTree (q : ℤ) (w : World) : Type 0 where
  pub forest : IsForest w
  pub known : IsProcess q w

-- A change of other attributes than the parent and the subprocesses.
pub record IsCalm (f : Process → Process) : Type 0 where
  pub keeps_parent : (o : Process) → (f o).parent ≡ o.parent
  pub keeps_sub_processes : (o : Process) → (f o).sub_processes ≡ o.sub_processes

pub change_process-IsTree :
    (f : Process → Process) (p q : ℤ) (w : World)
    → IsCalm f
    → IsTree q w
    → IsTree q (change_process f p w)
change_process-IsTree f p q w c t = record {
  forest = record {
    linked = λ r s e.
        let same = attribute-change_kept (λ (o : Process). o.parent) none f p r w c.keeps_parent in
        let subs =
          attribute-change_kept (λ (o : Process). o.sub_processes) [] f p s w
            c.keeps_sub_processes in
        let (n, m) = t.forest.linked r s (sym same ∙ e) in (n, rw subs m);
  };
  known = change_process-IsProcess f p q w t.known;
}

abbrev pub with_parent : ℤ → Process → Process
with_parent q o = record o { parent = some q }

abbrev pub with_sub : ℤ → Process → Process
with_sub p o = record o { sub_processes = add_int p o.sub_processes }

change_process-missing :
    (f : Process → Process) (p : ℤ) (w : World)
    → lookup p w.processes ≡ none
    → change_process f p w ≡ w
unfolding change_process
change_process-missing f p w e = rw (change_process, e) refl

-- The parents behind the first write of `SetParentProcess`.
with_parent-cases :
    (p q r s : ℤ) (w : World)
    → parent_of r (change_process (with_parent q) p w) ≡ some s
    → ((p ≡ r) × (q ≡ s)) ⊎ (parent_of r w ≡ some s)
with_parent-cases p q r s w e = elim (Bool-cases (int_beq p r)) [
  | inr n ↦
      inr
        (sym (attribute-change_other (λ (o : Process). o.parent) none (with_parent q) p r w n) ∙ e)
  | inl b ↦ elim (Option-cases (lookup p w.processes)) [
    | inl z ↦ inr (
        subst (λ (x : World). parent_of r x ≡ some s) (change_process-missing (with_parent q) p w z)
          e)
    | inr (o, f) ↦
        let z : p ≡ r = ground (arith, b, int_beq_iff p r) in
        let e' : parent_of p (change_process (with_parent q) p w) ≡ some s =
          subst (λ (i : ℤ). parent_of i (change_process (with_parent q) p w) ≡ some s) (sym z) e in
        let x : some q ≡ some s =
          sym (attribute-change (λ (o : Process). o.parent) none (with_parent q) p w o f) ∙ e' in
        inl (z, ground (arith, x))
  ]
]

-- Adding a subprocess takes none away.
pub with_sub-more :
    (p q r s : ℤ) (w : World)
    → mem_int r (sub_processes_of s w) ≡ true
    → mem_int r (sub_processes_of s (change_process (with_sub p) q w)) ≡ true
with_sub-more p q r s w m = elim (Bool-cases (int_beq q s)) [
  | inr n ↦ rw (attribute-change_other (λ (o : Process). o.sub_processes) [] (with_sub p) q s w n) m
  | inl e ↦ elim (Option-cases (lookup q w.processes)) [
    | inl z ↦ rw (change_process-missing (with_sub p) q w z) m
    | inr (o, f) ↦
        let z : q ≡ s = ground (arith, e, int_beq_iff q s) in
        let old : mem_int r o.sub_processes ≡ true =
          subst (λ (l : List ℤ). mem_int r l ≡ true)
            (attribute-found (λ (o : Process). o.sub_processes) [] q w o f)
            (subst (λ (i : ℤ). mem_int r (sub_processes_of i w) ≡ true) (sym z) m) in
        subst (λ (i : ℤ). mem_int r (sub_processes_of i (change_process (with_sub p) q w)) ≡ true) z
          (rw (attribute-change (λ (o : Process). o.sub_processes) [] (with_sub p) q w o f)
            (add_int-more p r o.sub_processes old))
  ]
]

pub with_sub-here :
    (p q : ℤ) (w : World)
    → IsProcess q w
    → mem_int p (sub_processes_of q (change_process (with_sub p) q w)) ≡ true
with_sub-here p q w k =
    rw (attribute-change (λ (o : Process). o.sub_processes) [] (with_sub p) q w k.object k.found)
      (add_int_self p k.object.sub_processes)

-- The two writes of `SetParentProcess`
linked-IsTree :
    (p q : ℤ) (w : World)
    → int_beq p q ≡ false
    → IsTree q w
    → IsTree q (change_process (with_sub p) q (change_process (with_parent q) p w))
linked-IsTree p q w n t =
    let w' = change_process (with_parent q) p w in
    let k = change_process-IsProcess (with_parent q) p q w t.known in
    record {
      forest = record {
        linked = λ r s e.
            let before : parent_of r w' ≡ some s =
              sym (
                attribute-change_kept (λ (o : Process). o.parent) none (with_sub p) q r w'
                  (λ o. refl))
              ∙ e in
            elim (with_parent-cases p q r s w before) [
              | inl (z, y) ↦ (
                subst (λ (i : ℤ). int_beq i s ≡ false) z
                    (subst (λ (i : ℤ). int_beq p i ≡ false) y n),
                subst
                    (λ (i : ℤ).
                      mem_int i (sub_processes_of s (change_process (with_sub p) q w')) ≡ true)
                    z
                    (subst
                      (λ (i : ℤ).
                        mem_int p (sub_processes_of i (change_process (with_sub p) q w')) ≡ true)
                      y (with_sub-here p q w' k)),
              )
              | inr old ↦
                  let (m, l) = t.forest.linked r s old in
                  (
                    m,
                    with_sub-more p q r s w' (
                        rw
                          (attribute-change_kept (λ (o : Process). o.sub_processes) []
                            (with_parent q) p s w (λ o. refl))
                          l),
                  )
            ];
      };
      known = change_process-IsProcess (with_sub p) q q w' k;
    }

set_parent_process-runs :
    (p q : ℤ) (w : World)
    → int_beq p q ≡ false
    → set_parent_process p q w
      ≡ (change_process (with_sub p) q (change_process (with_parent q) p w), ok done)
unfolding set_parent_process ◌>>=◌ pure modify continue
set_parent_process-runs p q w n = rw n refl

set_parent_process-raises :
    (p q : ℤ) (w : World) → int_beq p q ≡ true → set_parent_process p q w ≡ (w, raised self_parent)
unfolding set_parent_process ◌>>=◌ raise continue
set_parent_process-raises p q w n = rw n refl

pub set_parent_process-Keeps : (p q : ℤ) → Keeps (IsTree q) (set_parent_process p q)
set_parent_process-Keeps p q = record {
  at = λ w t. elim (Bool-cases (int_beq p q)) [
    | inl e ↦ rw (set_parent_process-raises p q w e) t
    | inr n ↦ rw (set_parent_process-runs p q w n) (linked-IsTree p q w n t)
  ];
}

pub calm-Keeps :
    (f : Process → Process) (p q : ℤ) → IsCalm f → Keeps (IsTree q) (modify (change_process f p))
calm-Keeps f p q c = Keeps-modify (change_process f p) (λ w t. change_process-IsTree f p q w c t)

creation-Keeps :
    (time_stamp : Text) (p q : ℤ)
    → Keeps
        (IsTree q)
        (modify (change_process (λ o. record o { creation_date = some time_stamp }) p))
creation-Keeps time_stamp p q =
    calm-Keeps (λ o. record o { creation_date = some time_stamp }) p q
      (record { keeps_parent = λ o. refl; keeps_sub_processes = λ o. refl })

termination-Keeps :
    (time_stamp : Text) (p q : ℤ)
    → Keeps
        (IsTree q)
        (modify (change_process (λ o. record o { termination_date = some time_stamp }) p))
termination-Keeps time_stamp p q =
    calm-Keeps (λ o. record o { termination_date = some time_stamp }) p q
      (record { keeps_parent = λ o. refl; keeps_sub_processes = λ o. refl })

pub add_parent_process-Keeps :
    (p : ℤ) (time_stamp : Text) (q : ℤ) → Keeps (IsTree q) (add_parent_process p time_stamp q)
unfolding add_parent_process
add_parent_process-Keeps p time_stamp q =
    search (keeps_rules, set_parent_process-Keeps, creation-Keeps)

or_set_parent-Keeps : (o : Option ℤ) (p q : ℤ) → Keeps (IsTree q) (or_set_parent o p q)
unfolding or_set_parent
or_set_parent-Keeps none p q = set_parent_process-Keeps p q
or_set_parent-Keeps (some r) p q = search keeps_rules

pub wait_process_end-Keeps :
    (p : ℤ) (time_stamp : Text) (q : ℤ) → Keeps (IsTree q) (wait_process_end p time_stamp q)
unfolding wait_process_end
wait_process_end-Keeps p time_stamp q = search (keeps_rules, termination-Keeps, or_set_parent-Keeps)
