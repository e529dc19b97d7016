-- ===== src/LogReading/Orderly.antt =====
-- What the reader of a log keeps of the CIM objects, whatever the lines of the log are.
use survol.Base.{
  ℕ, zero, suc, ◌+◌, length, Text, text_eq, text_eq_instance, List, [], ◌∷◌, Option, none, some,
  Option-cases, Bool, Bool-cases, if◌then◌else◌, ℤ, pos, int_beq, Dict, int_eq, lookup, ◌≡◌, ◌∙◌,
  refl, sym, ap, subst, inl, inr, arith,
}
use survol.Batch.{BatchLetCore, Tracer, alloc}
use survol.Batch.Failure.{Failure}
use survol.Factory.{
  Parsed, parsed, no_core, unchanged, Outcome, batch, nothing, failed, batch_let_factory,
}
use survol.Factory.Resuming.{core-alloc}
use survol.Factory.Stores.{factory-store}
use survol.Factory.Worlds.{factory-world}
use survol.Unfinished.Kept.{pid-IsClosed}
use survol.World.{World, Process, Library}
use survol.World.Objects.{attribute, mem_int}
use survol.World.Objects.Tops.{global_termination_date, terminate_all, or_date}
use survol.World.Accesses.Cached.{IsCached-same}
use survol.World.Sound.{IsSound}
use survol.SystemCalls.{process_of}
use survol.SystemCalls.Log.{IsOrderly, enter_process-IsEntered}
use survol.SystemCalls.Sound.{batch_models-KeepsSound}
use survol.SystemCalls.Table.{batch_models}
use survol.LogReading.{
  Reader, Yielded, next_line, parse_line, create_batch_core, command_error, make_batch, enter_line,
  read_core, or_make_batch, read_call_of_line, end_log, yield_outcome, read_log, create_flows,
}

-- Between two lines: the globals are orderly, and the process of `batchCore` exists.
pub record IsReading (r : Reader) : Type 0 where
  pub orderly : IsOrderly r.state.world
  pub current :
      (a : ℕ) → r.batch_core ≡ some a → IsSound (pos (r.state.store.core a).pid) r.state.world

sound-IsOrderly : (p : ℤ) (w : World) → IsSound p w → IsOrderly w
sound-IsOrderly p w s = record { cached = s.cached; forest = s.tree.forest }

-- The end of the log changes no parent and no subprocess.
module _ (time_end : Text) where
  lookup-terminate_all :
      (m : Dict ℤ Process) (p : ℤ)
      → lookup p (terminate_all time_end m) ≡ elim (lookup p m) [
        | none ↦ none
        | some o ↦ some (record o { termination_date = or_date time_end o.termination_date })
      ]
  unfolding lookup terminate_all
  lookup-terminate_all [] p = refl
  lookup-terminate_all ((q, o) ∷ m) p = elim (Bool-cases (int_beq q p)) [
    | inl e ↦ rw e refl
    | inr n ↦ rw n (lookup-terminate_all m p)
  ]

  attribute-terminated :
      {X : Type 0} (field : Process → X) (d : X) (p : ℤ) (w : World)
      → ((o : Process) (t : Option Text) → field (record o { termination_date = t }) ≡ field o)
      → attribute field d p (global_termination_date time_end w) ≡ attribute field d p w
  unfolding attribute global_termination_date
  attribute-terminated field d p w same = elim (Option-cases (lookup p w.processes)) [
    | inl e ↦ rw (attribute, lookup-terminate_all w.processes p, e) refl
    | inr (o, e) ↦
        rw (attribute, lookup-terminate_all w.processes p, e)
          (same o (or_date time_end o.termination_date))
  ]

  terminated-IsOrderly : (w : World) → IsOrderly w → IsOrderly (global_termination_date time_end w)
  unfolding global_termination_date
  terminated-IsOrderly w i = record {
    cached =
        IsCached-same w (global_termination_date time_end w)
          (record { same_accesses = refl; same_cache = refl }) i.cached;
    forest = record {
      linked = λ p r e.
          let parent = attribute-terminated (λ o. o.parent) none p w (λ o t. refl) in
          let subs = attribute-terminated (λ o. o.sub_processes) [] r w (λ o t. refl) in
          let (ne, known) = i.forest.linked p r (sym parent ∙ e) in
          (ne, ap (mem_int p) subs ∙ known);
    };
  }

module _ (lib : Library) where
  make_batch-IsReading :
      (r : Reader) (a : ℕ)
      → IsSound (pos (r.state.store.core a).pid) r.state.world
      → IsReading (make_batch lib r a).0
  unfolding make_batch
  make_batch-IsReading r a i =
      let pid = (r.state.store.core a).pid in
      let s' = (batch_let_factory (batch_models lib) r.state a).0 in
      let k : IsSound (pos pid) s'.world =
        factory-world (IsSound (pos pid)) pid (batch_models lib)
          (λ f m e w' c' z. (batch_models-KeepsSound lib f m e).at w' c' (pos pid) (ap pos z))
          r.state a refl i in
      let same : (s'.store.core a).pid ≡ pid =
        factory-store (λ h. (h.core a).pid ≡ pid) (pid-IsClosed a pid) (batch_models lib) r.state a
          refl in
      record {
        orderly = sound-IsOrderly (pos pid) s'.world k;
        current = λ b e.
            let z : a ≡ b = ground (arith, e) in
            subst (λ (i : ℕ). IsSound (pos (s'.store.core i).pid) s'.world) z
              (subst (λ (q : ℕ). IsSound (pos q) s'.world) (sym same) k);
      }

  or_make_batch-IsReading :
      (r : Reader) (o : Option ℕ)
      → r.batch_core ≡ o
      → IsReading r
      → IsReading (or_make_batch lib r o).0
  unfolding or_make_batch
  or_make_batch-IsReading r none e i = i
  or_make_batch-IsReading r (some a) e i = make_batch-IsReading r a (i.current a e)

  read_core-IsReading : (r : Reader) (x : Parsed) → IsReading r → IsReading (read_core lib r x).0
  unfolding read_core enter_line
  read_core-IsReading r (parsed c) i =
      let e = enter_process-IsEntered c r.state.world i.orderly in
      rw e.runs record {
        orderly = sound-IsOrderly (process_of c) e.world e.sound;
        current = λ b q.
            let h = alloc r.state.store c in
            let z : r.state.store.next ≡ b = ground (arith, q) in
            subst (λ (a : ℕ). IsSound (pos (h.core a).pid) e.world) z
              (subst (λ (k : BatchLetCore). IsSound (pos k.pid) e.world)
                (sym (core-alloc r.state.store c)) e.sound);
      }
  read_core-IsReading r no_core i = record { orderly = i.orderly; current = λ a e. cc (e) }
  read_core-IsReading r unchanged i = i

  -- A line that fails in any way leaves the globals orderly, too.
  line-IsReading :
      (r : Reader) (error : Option Failure)
      → IsReading r
      → (o : Reader × Outcome)
      → o ≡ elim error [ some e ↦ (r, failed e) | none ↦ or_make_batch lib r r.batch_core ]
      → IsReading o.0
  line-IsReading r none i o e =
      subst (λ (x : Reader × Outcome). IsReading x.0) (sym e)
        (or_make_batch-IsReading r r.batch_core refl i)
  line-IsReading r (some f) i o e = subst (λ (x : Reader × Outcome). IsReading x.0) (sym e) i

  module _ (top : ℕ) (tracer : Tracer) where
    pub read_call_of_line-IsReading :
        (r : Reader) (one_line : Text)
        → IsReading r
        → IsReading (read_call_of_line lib top tracer r one_line).0
    unfolding read_call_of_line
    read_call_of_line-IsReading r one_line i =
        let x = create_batch_core (parse_line top tracer one_line) in
        let (r', caught) = read_core lib r x in
        line-IsReading r' (if caught then command_error r.num_line one_line else none)
          (read_core-IsReading r x i) (read_call_of_line lib top tracer r one_line) refl

    end_log-IsOrderly :
        (r : Reader) → IsOrderly r.state.world → IsOrderly (end_log lib r).state.world
    unfolding end_log
    end_log-IsOrderly r i = elim (Option-cases r.last_time_stamp) [
      | inl e ↦ rw (end_log, e) i
      | inr (t, e) ↦ elim (Bool-cases (text_eq t [])) [
        | inl q ↦ rw (end_log, e, q) i
        | inr n ↦ rw (end_log, e, n) (terminated-IsOrderly t r.state.world i)
      ]
    ]

    yield_outcome-IsOrderly :
        (r : Reader) (o : Outcome) (later : Reader × Yielded)
        → IsOrderly r.state.world
        → IsOrderly later.0.state.world
        → IsOrderly (yield_outcome lib r o later).0.state.world
    unfolding yield_outcome
    yield_outcome-IsOrderly r (batch b) later i k = k
    yield_outcome-IsOrderly r nothing later i k = k
    yield_outcome-IsOrderly r (failed e) later i k = i

    module _ (is_float : Text → Bool) where
      read_log-IsOrderly :
          (fuel : ℕ) (r : Reader) (lines : List Text)
          → IsReading r
          → IsOrderly (read_log lib is_float top tracer fuel r lines).0.state.world
      unfolding read_log
      read_log-IsOrderly zero r lines i = i.orderly
      read_log-IsOrderly (suc fuel) r lines i =
          let line = next_line is_float [] 0 lines in
          let r1 = record r { num_line = r.num_line + line.reads } in
          let i1 : IsReading r1 = record { orderly = i.orderly; current = i.current } in
          let (r2, o) = read_call_of_line lib top tracer r1 line.one_line in
          let i2 = read_call_of_line-IsReading r1 line.one_line i1 in
          let later = read_log lib is_float top tracer fuel r2 line.rest in
          let k = read_log-IsOrderly fuel r2 line.rest i2 in
          elim (Bool-cases (text_eq line.one_line [])) [
            | inl e ↦ rw e (end_log-IsOrderly r1 i.orderly)
            | inr n ↦ rw n (yield_outcome-IsOrderly r2 o later i2.orderly k)
          ]

      -- Whatever the lines of the stream are, and whatever fails on the way: if the cache of the accesses
      -- holds open accesses of their process and file, if every parent of a process is another process
      -- that has it among its subprocesses, and if the process of `batchCore` is known, then the first
      -- two are so when `CreateFlowsFromGenericLinuxLog` ends.
      pub create_flows-IsOrderly :
          (r : Reader) (lines : List Text)
          → IsReading r
          → IsOrderly (create_flows lib is_float top tracer r lines).0.state.world
      unfolding create_flows
      create_flows-IsOrderly r lines i = read_log-IsOrderly (length lines + 1) r lines i
