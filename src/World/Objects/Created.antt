-- ===== src/World/Objects/Created.antt =====
-- `CIM_Process` and `ToObjectPath_CIM_Process`: a new process joins the tree.
use survol.Base.{
  List, [], ◌∷◌, Option, none, some, Option-cases, true, false, Bool-cases, ℤ, int_beq, int_beq_iff,
  Dict, int_eq, lookup, ◌≡◌, ◌∙◌, inl, inr, sym, refl, subst, arith,
}
use survol.Batch.Failure.{ok}
use survol.World.{World, Process}
use survol.World.Actions.{done, pure, gets, modify, continue, ◌>>=◌}
use survol.World.Keeps.{Keeps}
use survol.World.Objects.{
  attribute, parent_of, sub_processes_of, change_process, store_process, mem_int, only_process,
  create_with, create_process, or_create, to_process,
}
use survol.World.Objects.Trees.{IsForest, IsTree, with_sub, with_sub-more, with_sub-here}
use survol.World.Objects.Attributes.{
  IsProcess, attribute-change_other, attribute-change_kept, attribute-store, attribute-store_other,
  change_process-IsProcess, store_process-IsProcess, store_process-here,
}

nobody : {A : Type 0} (r : ℤ) → mem_int r [] ≡ true → A
unfolding mem_int
nobody r e = ground (arith, e)

-- A new process, whose parent has it among its subprocesses already.
store_process-IsForest :
    (p : ℤ) (parent : Option ℤ) (w : World)
    → ((s : ℤ)
        → parent ≡ some s
        → (int_beq p s ≡ false) × (mem_int p (sub_processes_of s w) ≡ true))
    → sub_processes_of p w ≡ []
    → IsForest w
    → IsForest (store_process p parent w)
store_process-IsForest p parent w h z t = record {
  linked = λ r s e.
      let link : (int_beq r s ≡ false) × (mem_int r (sub_processes_of s w) ≡ true) =
        elim (Bool-cases (int_beq p r)) [
          | inl b ↦
              let y : p ≡ r = ground (arith, b, int_beq_iff p r) in
              let x : parent ≡ some s =
                sym (attribute-store (λ (o : Process). o.parent) none p parent w)
                ∙ subst (λ (i : ℤ). parent_of i (store_process p parent w) ≡ some s) (sym y) e in
              subst (λ (i : ℤ). (int_beq i s ≡ false) × (mem_int i (sub_processes_of s w) ≡ true)) y
                (h s x)
          | inr n ↦
              t.linked r s
                (sym (attribute-store_other (λ (o : Process). o.parent) none p r parent w n) ∙ e)
        ] in
      let apart : int_beq p s ≡ false = elim (Bool-cases (int_beq p s)) [
        | inr n ↦ n
        | inl b ↦
            let y : s ≡ p = ground (arith, b, int_beq_iff p s) in
            let nil : sub_processes_of s w ≡ [] =
              subst (λ (i : ℤ). sub_processes_of i w ≡ []) (sym y) z in
            let no : mem_int r [] ≡ true = subst (λ (l : List ℤ). mem_int r l ≡ true) nil link.1 in
            nobody r no
      ] in
      (
        link.0,
        rw (attribute-store_other (λ (o : Process). o.sub_processes) [] p s parent w apart) link.1,
      );
}

with_sub-IsForest : (p q : ℤ) (w : World) → IsForest w → IsForest (change_process (with_sub p) q w)
with_sub-IsForest p q w t = record {
  linked = λ r s e.
      let (m, l) = t.linked r s (
        sym (attribute-change_kept (λ (o : Process). o.parent) none (with_sub p) q r w (λ o. refl))
        ∙ e) in
      (m, with_sub-more p q r s w l);
}

only_process-lookup :
    (m : Dict ℤ Process) (q : ℤ) → only_process m ≡ some q → (o : Process) × (lookup q m ≡ some o)
unfolding only_process lookup
only_process-lookup [] q e = cc (e)
only_process-lookup ((p, o) ∷ []) q e =
    let z : p ≡ q = ground (arith, e) in (o, ground (arith, z, int_beq_iff p q))
only_process-lookup ((p, o) ∷ (p', o') ∷ m) q e = cc (e)

other : (p q : ℤ) (w : World) → lookup p w.processes ≡ none → IsProcess q w → int_beq q p ≡ false
other p q w e k = elim (Bool-cases (int_beq q p)) [
  | inr n ↦ n
  | inl b ↦
      let z : q ≡ p = ground (arith, b, int_beq_iff q p) in
      let f : lookup p w.processes ≡ some k.object =
        subst (λ (i : ℤ). lookup i w.processes ≡ some k.object) z k.found in
      cc (e, f)
]

only_process-IsProcess : (w : World) (q : ℤ) → only_process w.processes ≡ some q → IsProcess q w
only_process-IsProcess w q e =
    let (o, f) = only_process-lookup w.processes q e in record { object = o; found = f }

missing-sub_processes :
    (p : ℤ) (w : World) → lookup p w.processes ≡ none → sub_processes_of p w ≡ []
unfolding attribute
missing-sub_processes p w e = rw (attribute, e) refl

create_process-first :
    (p : ℤ) (w : World)
    → only_process w.processes ≡ none
    → create_process p w ≡ (store_process p none w, ok done)
unfolding create_process create_with ◌>>=◌ gets modify continue
create_process-first p w e = rw e refl

create_process-second :
    (p q : ℤ) (w : World)
    → only_process w.processes ≡ some q
    → int_beq q p ≡ false
    → create_process p w ≡ (store_process p (some q) (change_process (with_sub p) q w), ok done)
unfolding create_process create_with ◌>>=◌ gets modify continue pure
create_process-second p q w e n = rw (e, n) refl

-- What `ToObjectPath_CIM_Process` promises: it raises nothing, and the process exists behind it, as
-- do those that existed before.
pub record IsMade (p : ℤ) (w : World) : Type 0 where
  pub world : World
  pub runs : to_process p w ≡ (world, ok p)
  pub forest : IsForest world
  pub here : IsProcess p world
  pub more : (q : ℤ) → IsProcess q w → IsProcess q world

to_process-known :
    (p : ℤ) (w : World) (o : Process) → lookup p w.processes ≡ some o → to_process p w ≡ (w, ok p)
unfolding to_process or_create ◌>>=◌ gets pure continue
to_process-known p w o e = rw (to_process, e) refl

to_process-created :
    (p : ℤ) (w w' : World)
    → lookup p w.processes ≡ none
    → create_process p w ≡ (w', ok done)
    → to_process p w ≡ (w', ok p)
unfolding to_process or_create ◌>>=◌ gets pure continue
to_process-created p w w' e c = rw (e, c) refl

pub to_process-IsMade : (p : ℤ) (w : World) → IsForest w → IsMade p w
to_process-IsMade p w t = elim (Option-cases (lookup p w.processes)) [
  | inr (o, e) ↦ record {
    world = w;
    runs = to_process-known p w o e;
    forest = t;
    here = record { object = o; found = e };
    more = λ q k. k;
  }
  | inl e ↦ elim (Option-cases (only_process w.processes)) [
    | inl z ↦ record {
      world = store_process p none w;
      runs = to_process-created p w (store_process p none w) e (create_process-first p w z);
      forest = store_process-IsForest p none w (λ s x. cc (x)) (missing-sub_processes p w e) t;
      here = store_process-here p none w;
      more = λ q k. store_process-IsProcess p q none w k;
    }
    | inr (q, z) ↦
        let k = only_process-IsProcess w q z in
        let n : int_beq q p ≡ false = other p q w e k in
        let w' = change_process (with_sub p) q w in
        record {
          world = store_process p (some q) w';
          runs =
              to_process-created p w (store_process p (some q) w') e
                (create_process-second p q w z n);
          forest =
              store_process-IsForest p (some q) w'
                (λ s x.
                  let y : q ≡ s = ground (arith, x) in
                  subst
                    (λ (i : ℤ). (int_beq p i ≡ false) × (mem_int p (sub_processes_of i w') ≡ true))
                    y (ground (arith, n, int_beq_iff p q, int_beq_iff q p), with_sub-here p q w k))
                (attribute-change_other (λ (o : Process). o.sub_processes) [] (with_sub p) q p w n
                  ∙ missing-sub_processes p w e)
                (with_sub-IsForest p q w t);
          here = store_process-here p (some q) w';
          more = λ r k.
              store_process-IsProcess p r (some q) w'
                (change_process-IsProcess (with_sub p) q r w k);
        }
  ]
]

pub to_process-Keeps : (p q : ℤ) → Keeps (IsTree q) (to_process p)
to_process-Keeps p q = record {
  at = λ w t.
      let m = to_process-IsMade p w t.forest in
      rw m.runs (record { forest = m.forest; known = m.more q t.known });
}
