-- ===== src/LogReading/Pairing.antt =====
-- The reader of a log and the sanity checks of `MergePopBatch`.
use survol.Base.{
  ℕ, zero, suc, ◌+◌, length, Text, codes, ◌==◌, text_eq, List, [], ◌∷◌, Option, none, some,
  Option-cases, Bool, true, false, Bool-cases, if◌then◌else◌, ◌≡◌, ◌∙◌, refl, sym, ap, subst, inl,
  inr, arith,
}
use survol.Batch.{Tracer, alloc, status_eq, unfinished}
use survol.Batch.Failure.{Failure}
use survol.Factory.{Parsed, parsed, no_core, unchanged, State, Outcome, batch, nothing, failed}
use survol.Factory.Pairing.{
  IsWell, IsCurrent, IsFresh, other-IsFresh, NoSanityFailure, is_sanity, waits, Fits, IsPairable,
  factory-IsFine, factory-IsCurrent,
}
use survol.Factory.Resuming.{core-alloc}
use survol.Unfinished.Invariant.{alloc-IsStacked, fresh_in_stacks}
use survol.World.{World, Library}
use survol.World.Paths.{has_text}
use survol.SystemCalls.Log.{enter_process-IsEntered}
use survol.SystemCalls.Tame.{batch_models-AllTame}
use survol.SystemCalls.Table.{batch_models}
use survol.LogReading.{
  Reader, Yielded, next_line, parse_line, create_batch_core, command_error, make_batch, enter_line,
  read_core, or_make_batch, read_call_of_line, end_log, yield_outcome, read_log, create_flows,
}
use survol.LogReading.Orderly.{IsReading, read_call_of_line-IsReading}

-- The exception that ends a log, if there is one, is none of the sanity checks.
abbrev pub NoSanityEnd : Option Failure → Type 0
NoSanityEnd none = Unit
NoSanityEnd (some e) = is_sanity e ≡ false

-- What `CreateBatchCore` makes of the lines of a stream.
module _ (is_float : Text → Bool) (top : ℕ) (tracer : Tracer) where
  unfoldable pub parsed_lines : ℕ → List Text → List Parsed
  parsed_lines zero lines = []
  parsed_lines (suc fuel) lines =
      let line = next_line is_float [] 0 lines in
      let rest = parsed_lines fuel line.rest in
      if text_eq line.one_line []
      then []
      else create_batch_core (parse_line top tracer line.one_line) ∷ rest

command_error-calm : (n : ℕ) (t : Text) → NoSanityEnd (command_error n t)
unfolding command_error
command_error-calm n t = elim (Bool-cases (n == 2)) [
  | inr x ↦ rw x tt
  | inl x ↦ elim (Bool-cases (has_text t (codes "No such file or directory"))) [
    | inl y ↦ rw (x, y) refl
    | inr y ↦ elim (Bool-cases (has_text t (codes "No such process"))) [
      | inl z ↦ rw (x, y, z) refl
      | inr z ↦ rw (x, y, z) tt
    ]
  ]
]

caught-calm :
    (caught : Bool) (n : ℕ) (t : Text) → NoSanityEnd (if caught then command_error n t else none)
caught-calm true n t = command_error-calm n t
caught-calm false n t = tt

module _ (lib : Library) where
  -- The reader between two lines, and what it knows of `batchCore`.
  abbrev IsPaired : Bool → Reader → Type 0
  IsPaired b r = IsWell r.state × IsCurrent b r.state r.batch_core

  abbrev IsReady : Reader → Type 0
  IsReady r = (a : ℕ) → r.batch_core ≡ some a → IsFresh r.state a

  read_core-IsPaired :
      (b : Bool) (r : Reader) (x : Parsed)
      → IsReading r
      → IsPaired b r
      → Fits b x
      → IsPaired (waits b x) (read_core lib r x).0 × IsReady (read_core lib r x).0
  unfolding read_core enter_line waits Fits
  read_core-IsPaired b r (parsed c) i (well, current) fits =
      let e = enter_process-IsEntered c r.state.world i.orderly in
      rw e.runs (
        (
          alloc-IsStacked r.state.store r.state.stacks c well,
          (
            omega arith,
            λ q. ap (λ k. status_eq k.status unfinished) (core-alloc r.state.store c) ∙ q,
          ),
        ),
        λ a q.
            let s : State World = record r.state { store = alloc r.state.store c } in
            let z : r.state.store.next ≡ a = ground (arith, q) in
            subst (λ (k : ℕ). IsFresh s k) z
              (fresh_in_stacks r.state.store r.state.stacks _ _ well),
      )
  read_core-IsPaired b r no_core i (well, current) fits = ((well, tt), λ a e. absurd (cc (e)))
  read_core-IsPaired b r unchanged i (well, current) fits = (
    (well, current),
    λ a e.
        let known : IsCurrent b r.state (some a) =
          subst (λ (o : Option ℕ). IsCurrent b r.state o) e current in
        other-IsFresh r.state a well (known.1 fits),
  )

  or_make_batch-IsPaired :
      (b : Bool) (r : Reader) (o : Option ℕ)
      → r.batch_core ≡ o
      → IsWell r.state
      → IsCurrent b r.state o
      → IsReady r
      → IsPaired b (or_make_batch lib r o).0 × NoSanityFailure (or_make_batch lib r o).1
  unfolding or_make_batch make_batch
  or_make_batch-IsPaired b r none e well current ready = ((well, rw e tt), tt)
  or_make_batch-IsPaired b r (some a) e well current ready =
      let models = batch_models lib in
      let (well', fine) =
        factory-IsFine models (batch_models-AllTame lib) r.state a well current.0 (ready a e) in
      ((well', factory-IsCurrent models (batch_models-AllTame lib) b r.state a current), fine)

  line-IsPaired :
      (b : Bool) (r : Reader) (error : Option Failure)
      → IsWell r.state
      → IsCurrent b r.state r.batch_core
      → IsReady r
      → NoSanityEnd error
      → (o : Reader × Outcome)
      → o ≡ elim error [ some e ↦ (r, failed e) | none ↦ or_make_batch lib r r.batch_core ]
      → IsPaired b o.0 × NoSanityFailure o.1
  line-IsPaired b r none well current ready calm o e =
      subst (λ (x : Reader × Outcome). IsPaired b x.0 × NoSanityFailure x.1) (sym e)
        (or_make_batch-IsPaired b r r.batch_core refl well current ready)
  line-IsPaired b r (some f) well current ready calm o e =
      subst (λ (x : Reader × Outcome). IsPaired b x.0 × NoSanityFailure x.1) (sym e)
        ((well, current), calm)

  module _ (top : ℕ) (tracer : Tracer) where
    read_call_of_line-IsPaired :
        (b : Bool) (r : Reader) (one_line : Text)
        → IsReading r
        → IsPaired b r
        → Fits b (create_batch_core (parse_line top tracer one_line))
        → IsPaired
            (waits b (create_batch_core (parse_line top tracer one_line)))
            (read_call_of_line lib top tracer r one_line).0
          × NoSanityFailure (read_call_of_line lib top tracer r one_line).1
    unfolding read_call_of_line
    read_call_of_line-IsPaired b r one_line i p fits =
        let x = create_batch_core (parse_line top tracer one_line) in
        let (r', caught) = read_core lib r x in
        let ((well, current), ready) = read_core-IsPaired b r x i p fits in
        line-IsPaired (waits b x) r' (if caught then command_error r.num_line one_line else none)
          well current ready (caught-calm caught r.num_line one_line)
          (read_call_of_line lib top tracer r one_line) refl

    yield_outcome-IsWell :
        (r : Reader) (o : Outcome) (later : Reader × Yielded)
        → IsWell r.state
        → NoSanityFailure o
        → IsWell later.0.state × NoSanityEnd later.1.1
        → IsWell (yield_outcome lib r o later).0.state
          × NoSanityEnd (yield_outcome lib r o later).1.1
    unfolding yield_outcome
    yield_outcome-IsWell r (batch b) later well fine k = k
    yield_outcome-IsWell r nothing later well fine k = k
    yield_outcome-IsWell r (failed e) later well fine k = (well, fine)

    end_log-IsWell : (r : Reader) → IsWell r.state → IsWell (end_log lib r).state
    unfolding end_log
    end_log-IsWell r w = elim (Option-cases r.last_time_stamp) [
      | inl e ↦ rw (end_log, e) w
      | inr (t, e) ↦ elim (Bool-cases (text_eq t [])) [
        | inl q ↦ rw (end_log, e, q) w
        | inr n ↦ rw (end_log, e, n) w
      ]
    ]

    module _ (is_float : Text → Bool) where
      read_log-IsWell :
          (fuel : ℕ) (b : Bool) (r : Reader) (lines : List Text)
          → IsReading r
          → IsPaired b r
          → IsPairable b (parsed_lines is_float top tracer fuel lines)
          → IsWell (read_log lib is_float top tracer fuel r lines).0.state
            × NoSanityEnd (read_log lib is_float top tracer fuel r lines).1.1
      unfolding read_log parsed_lines IsPairable
      read_log-IsWell zero b r lines i p fits = (p.0, tt)
      read_log-IsWell (suc fuel) b r lines i p fits =
          let line = next_line is_float [] 0 lines in
          let r1 = record r { num_line = r.num_line + line.reads } in
          let i1 : IsReading r1 = record { orderly = i.orderly; current = i.current } in
          elim (Bool-cases (text_eq line.one_line [])) [
            | inl e ↦ rw e (end_log-IsWell r1 p.0, tt)
            | inr n ↦
                let (now, later) = rw n at fits in
                let (r2, o) = read_call_of_line lib top tracer r1 line.one_line in
                let (p2, fine) = read_call_of_line-IsPaired b r1 line.one_line i1 p now in
                let i2 = read_call_of_line-IsReading lib top tracer r1 line.one_line i1 in
                let x = create_batch_core (parse_line top tracer line.one_line) in
                rw n (
                  yield_outcome-IsWell r2 o (read_log lib is_float top tracer fuel r2 line.rest)
                    p2.0 fine (read_log-IsWell fuel (waits b x) r2 line.rest i2 p2 later))
          ]

      -- From a state whose stacks hold waiting calls, each one once, with no `batchCore` and orderly
      -- objects: the stacks still do when `CreateFlowsFromGenericLinuxLog` ends, and it does not end with
      -- the exception of a sanity check of `MergePopBatch`, if no line that is no call stands behind an
      -- unfinished half, with nothing between them but lines that are no calls either.
      pub create_flows-pairs :
          (r : Reader) (lines : List Text)
          → IsReading r
          → IsWell r.state
          → r.batch_core ≡ none
          → IsPairable false (parsed_lines is_float top tracer (length lines + 1) lines)
          → IsWell (create_flows lib is_float top tracer r lines).0.state
            × NoSanityEnd (create_flows lib is_float top tracer r lines).1.1
      unfolding create_flows
      create_flows-pairs r lines i well e fits =
          read_log-IsWell (length lines + 1) false r lines i (well, rw e tt) fits
