-- ===== src/World/Objects/Tops.antt =====
-- survol/scripts/dockit.py: `GetTopProcesses` and `GlobalTerminationDate`, which go over all processes.
use survol.Base.{
  Text, List, [], ◌∷◌, Option, none, some, Option-cases, true, false, Bool-cases, if◌then◌else◌, ℤ,
  int_beq, int_beq_iff, Dict, int_eq, lookup, ◌≡◌, ◌≢◌, inl, inr, sym, refl, subst, arith, All,
}
use survol.Batch.Failure.{Result, ok, raised, key_error}
use survol.World.{World, Process}
use survol.World.Objects.{attribute, parent_of, sub_processes_of, mem_int, add_int}
use survol.World.Objects.Attributes.{add_int_self, add_int-more}
use survol.World.Objects.Trees.{IsForest}

-- `setSubProcs`
unfoldable pub add_ints : List ℤ → List ℤ → List ℤ
add_ints [] set = set
add_ints (p ∷ l) set = add_ints l (add_int p set)

unfoldable pub all_sub_processes : Dict ℤ Process → List ℤ → List ℤ
all_sub_processes [] set = set
all_sub_processes ((p, o) ∷ m) set = all_sub_processes m (add_ints o.sub_processes set)

-- `lstTopLvl`
unfoldable pub top_level : List ℤ → Dict ℤ Process → List ℤ
top_level subs [] = []
top_level subs ((p, o) ∷ m) =
    let rest = top_level subs m in if mem_int p subs then rest else p ∷ rest

-- `GetTopProcesses`. The table of the processes is there from the first process on.
unfoldable pub top_processes : Dict ℤ Process → Result (List ℤ)
top_processes [] = raised key_error
top_processes (o ∷ m) = ok (top_level (all_sub_processes (o ∷ m) []) (o ∷ m))

unfoldable pub get_top_processes : World → Result (List ℤ)
unfolding top_processes
get_top_processes w = top_processes w.processes

-- `if not objInstance.TerminationDate`
unfoldable pub or_date : Text → Option Text → Option Text
or_date time_end none = some time_end
or_date time_end (some []) = some time_end
or_date time_end (some (c ∷ s)) = some (c ∷ s)

unfoldable pub terminate_all : Text → Dict ℤ Process → Dict ℤ Process
unfolding or_date
terminate_all time_end [] = []
terminate_all time_end ((p, o) ∷ m) =
    (p, record o { termination_date = or_date time_end o.termination_date })
    ∷ terminate_all time_end m

-- `GlobalTerminationDate`, which is called behind a call, so that there is a process.
unfoldable pub global_termination_date : Text → World → World
global_termination_date time_end w = record w { processes = terminate_all time_end w.processes }

add_ints-more : (l set : List ℤ) (p : ℤ) → mem_int p set ≡ true → mem_int p (add_ints l set) ≡ true
unfolding add_ints
add_ints-more [] set p h = h
add_ints-more (q ∷ l) set p h = add_ints-more l (add_int q set) p (add_int-more q p set h)

add_ints-added : (l set : List ℤ) (p : ℤ) → mem_int p l ≡ true → mem_int p (add_ints l set) ≡ true
unfolding add_ints mem_int
add_ints-added [] set p h = ground (arith, h)
add_ints-added (q ∷ l) set p h = elim (Bool-cases (int_beq p q)) [
  | inl e ↦
      let z : q ≡ p = ground (arith, e, int_beq_iff p q) in
      subst (λ (i : ℤ). mem_int p (add_ints l (add_int i set)) ≡ true) (sym z)
        (add_ints-more l (add_int p set) p (add_int_self p set))
  | inr n ↦
      let t : mem_int p l ≡ true = ground (arith, n, h) in add_ints-added l (add_int q set) p t
]

all-more :
    (m : Dict ℤ Process) (set : List ℤ) (p : ℤ)
    → mem_int p set ≡ true
    → mem_int p (all_sub_processes m set) ≡ true
unfolding all_sub_processes
all-more [] set p h = h
all-more ((q, o) ∷ m) set p h =
    all-more m (add_ints o.sub_processes set) p (add_ints-more o.sub_processes set p h)

all-found :
    (m : Dict ℤ Process) (set : List ℤ) (p r : ℤ) (o : Process)
    → lookup r m ≡ some o
    → mem_int p o.sub_processes ≡ true
    → mem_int p (all_sub_processes m set) ≡ true
unfolding all_sub_processes lookup
all-found [] set p r o e h = cc (e)
all-found ((q, x) ∷ m) set p r o e h = elim (Bool-cases (int_beq q r)) [
  | inl b ↦
      let z : x ≡ o = ground (arith, b, e) in
      all-more m (add_ints x.sub_processes set) p (
        add_ints-added x.sub_processes set p
          (subst (λ (y : Process). mem_int p y.sub_processes ≡ true) (sym z) h))
  | inr n ↦
      let f : lookup r m ≡ some o = ground (arith, n, e) in
      all-found m (add_ints x.sub_processes set) p r o f h
]

top_level-All :
    (P : ℤ → Type 0) (subs : List ℤ) (m : Dict ℤ Process)
    → ((p : ℤ) → mem_int p subs ≡ false → P p)
    → All P (top_level subs m)
unfolding top_level
top_level-All P subs [] h = tt
top_level-All P subs ((p, o) ∷ m) h = elim (Bool-cases (mem_int p subs)) [
  | inl e ↦ rw e (top_level-All P subs m h)
  | inr n ↦ rw n (h p n, top_level-All P subs m h)
]

subs-found :
    (p r : ℤ) (w : World)
    → mem_int p (sub_processes_of r w) ≡ true
    → mem_int p (all_sub_processes w.processes []) ≡ true
unfolding attribute mem_int
subs-found p r w h = elim (Option-cases (lookup r w.processes)) [
  | inl e ↦
      let no : mem_int p [] ≡ true =
        subst
          (λ (o : Option Process).
            mem_int p (elim o [ none ↦ [] | some x ↦ x.sub_processes ]) ≡ true)
          e h in
      ground (arith, no)
  | inr (o, e) ↦ all-found w.processes [] p r o e (
      subst
        (λ (o : Option Process). mem_int p (elim o [ none ↦ [] | some x ↦ x.sub_processes ]) ≡ true)
        e h)
]

parentless :
    (w : World)
    → IsForest w
    → All (λ p. parent_of p w ≡ none) (top_level (all_sub_processes w.processes []) w.processes)
parentless w t =
    top_level-All (λ p. parent_of p w ≡ none) (all_sub_processes w.processes []) w.processes
      (λ p n. elim (Option-cases (parent_of p w)) [
        | inl e ↦ e
        | inr (r, e) ↦ let s = subs-found p r w (t.linked p r e).1 in ground (arith, n, s)
      ])

top_processes-ok :
    (m : Dict ℤ Process) → m ≢ [] → top_processes m ≡ ok (top_level (all_sub_processes m []) m)
unfolding top_processes
top_processes-ok [] h = absurd (h refl)
top_processes-ok (o ∷ m) h = refl

-- Where there is a process, and every parent knows its subprocesses, `GetTopProcesses` returns, and the
-- processes that it lists have no parent.
pub get_top_processes-parentless :
    (w : World)
    → IsForest w
    → w.processes ≢ []
    → (ps : List ℤ) × (get_top_processes w ≡ ok ps) × All (λ p. parent_of p w ≡ none) ps
unfolding get_top_processes
get_top_processes-parentless w t h = (
  top_level (all_sub_processes w.processes []) w.processes,
  top_processes-ok w.processes h,
  parentless w t,
)
