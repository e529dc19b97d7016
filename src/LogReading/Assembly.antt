-- ===== src/LogReading/Assembly.antt =====
-- The lines of the stream that make one line of the log, and how often the generator goes round.
use survol.Base.{
  ℕ, zero, suc, ◌+◌, ◌≤◌, ◌<◌, Text, text_eq, List, [], ◌∷◌, ◌++◌, append_assoc, none, Bool, true,
  false, Bool-cases, if◌then◌else◌, length, drop_last, ◌≡◌, subst, sym, refl, ap, inl, inr, arith,
  All,
}
use survol.Batch.{Tracer}
use survol.World.{Library}
use survol.LogReading.{
  next_line, is_log_ending, Reader, Yielded, read_log, read_call_of_line, end_log, yield_outcome,
  create_flows,
}

-- The texts one after the other, each without its last character.
unfoldable pub joined : List Text → Text
joined [] = []
joined (t ∷ ts) = drop_last t ++ joined ts

module _ (is_float : Text → Bool) where
  next_line_from :
      (one_line : Text) (reads : ℕ) (broken : List Text) (last : Text) (rest : List Text)
      → All (λ t. is_log_ending is_float t ≡ false) broken
      → is_log_ending is_float last ≡ true
      → next_line is_float one_line reads (broken ++ last ∷ rest) ≡ record {
        one_line = one_line ++ (joined broken ++ last);
        reads = reads + (length broken + 1);
        rest = rest;
      }
  unfolding next_line joined
  next_line_from one_line reads [] last rest h e =
      let z : reads + 1 ≡ reads + (0 + 1) = omega arith in rw (e, z) refl
  next_line_from one_line reads (t ∷ broken) last rest (n, h) e =
      let z : reads + 1 + (length broken + 1) ≡ reads + (suc (length broken) + 1) = omega arith in
      rw
        (
          n,
          sym z,
          append_assoc (drop_last t) (joined broken) last,
          sym (append_assoc one_line (drop_last t) (joined broken ++ last)),
        )
        (next_line_from (one_line ++ drop_last t) (reads + 1) broken last rest h e)

  -- A call that stands on several lines of the stream, of which only the last one looks like the end of a
  -- call: these lines without their line ends, and the last one whole, become one line, and the stream
  -- goes on behind them.
  pub next_line_lem :
      (broken : List Text) (last : Text) (rest : List Text)
      → All (λ t. is_log_ending is_float t ≡ false) broken
      → is_log_ending is_float last ≡ true
      → next_line is_float [] 0 (broken ++ last ∷ rest)
        ≡ record { one_line = joined broken ++ last; reads = length broken + 1; rest = rest }
  next_line_lem broken last rest h e =
      let z : 0 + (length broken + 1) ≡ length broken + 1 = omega arith in
      subst
        (λ (n : ℕ).
          next_line is_float [] 0 (broken ++ last ∷ rest)
          ≡ record { one_line = joined broken ++ last; reads = n; rest = rest })
        z (next_line_from [] 0 broken last rest h e)

  next_line-shorter :
      (one_line : Text) (reads : ℕ) (ts : List Text)
      → length (next_line is_float one_line reads ts).rest ≤ length ts
  unfolding next_line
  next_line-shorter one_line reads [] = omega arith
  next_line-shorter one_line reads (t ∷ ts) = elim (Bool-cases (is_log_ending is_float t)) [
    | inl e ↦ rw e (omega arith)
    | inr n ↦ rw n (omega (arith, next_line-shorter (one_line ++ drop_last t) (reads + 1) ts))
  ]

  -- Every round but the last one takes a line of the stream at least.
  next_line-takes :
      (one_line : Text) (reads : ℕ) (t : Text) (ts : List Text)
      → length (next_line is_float one_line reads (t ∷ ts)).rest ≤ length ts
  unfolding next_line
  next_line-takes one_line reads t ts = elim (Bool-cases (is_log_ending is_float t)) [
    | inl e ↦ rw e (omega arith)
    | inr n ↦ rw n (next_line-shorter (one_line ++ drop_last t) (reads + 1) ts)
  ]

  next_line-end : (reads : ℕ) → text_eq (next_line is_float [] reads []).one_line [] ≡ true
  unfolding next_line text_eq
  next_line-end reads = refl

  module _ (lib : Library) (top : ℕ) (tracer : Tracer) where
    read_log-same :
        (f g : ℕ) (r : Reader) (lines : List Text)
        → length lines < f
        → length lines < g
        → read_log lib is_float top tracer f r lines ≡ read_log lib is_float top tracer g r lines
    unfolding read_log
    read_log-same zero g r lines hf hg = ground arith
    read_log-same (suc f) zero r lines hf hg = ground arith
    read_log-same (suc f) (suc g) r [] hf hg = rw (next_line-end 0) refl
    read_log-same (suc f) (suc g) r (t ∷ ts) hf hg =
        let line = next_line is_float [] 0 (t ∷ ts) in
        let r1 = record r { num_line = r.num_line + line.reads } in
        let (r2, o) = read_call_of_line lib top tracer r1 line.one_line in
        let k = next_line-takes [] 0 t ts in
        let same = read_log-same f g r2 line.rest (omega (arith, k, hf)) (omega (arith, k, hg)) in
        ap
          (λ (x : Reader × Yielded).
            if text_eq line.one_line []
            then (end_log lib r1, ([], none))
            else yield_outcome lib r2 o x)
          same

    -- `CreateFlowsFromGenericLinuxLog` ends: with any more rounds than it is given, which are one more
    -- than the stream has lines, its calls, its exception and the globals are the same.
    pub create_flows-ends :
        (fuel : ℕ) (r : Reader) (lines : List Text)
        → length lines < fuel
        → read_log lib is_float top tracer fuel r lines
          ≡ create_flows lib is_float top tracer r lines
    unfolding create_flows
    create_flows-ends fuel r lines h = read_log-same fuel (length lines + 1) r lines h (omega arith)
