-- ===== src/CallArguments/RoundTrip.antt =====
-- `ParseCallArguments` reads back a printed list of plain arguments.
use mathlib.Core.List.{map}
use survol.Base.{
  ℕ, zero, suc, ◌+◌, ◌-◌, ◌<◌, ◌==◌, Text, codes, List, [], ◌∷◌, ◌++◌, append_assoc, none, true,
  false, length, length-append, ◌≡◌, refl, sym, ap, ◌∙◌, arith, All,
}
use survol.Batch.Values.{Arg}
use survol.Batch.Calls.{join}
use survol.CallArguments.{
  char_at, find, skip, is_space, read_char, end_argument, scan_loop, last_argument, end_of_call,
  parse_call_arguments,
}
use survol.CallArguments.Plain.{IsPlain, at, loop_round, loop_plain, skip_stay}
use survol.CallArguments.Ends.{end_plain, first-IsPlain}
use survol.CallArguments.Separators.{
  IsPlainArgument, printed, stopped, no_space, length_pos, printed-first, separator_step,
}

module _ (nested : ℕ → List Arg × ℕ) (s : Text) (len : ℕ) (at_end : len ≡ length s) where
  loop_stopped :
      (fuel i : ℕ) (result : List Arg)
      → scan_loop nested s len fuel (stopped i result) ≡ stopped i result
  unfolding scan_loop
  loop_stopped zero i result = refl
  loop_stopped (suc fuel) i result = ground arith

  read_comma :
      (start curr : ℕ) (result : List Arg)
      → read_char nested s len b',' (at start curr result)
        ≡ end_argument s len (at start curr result)
  unfolding read_char
  read_comma start curr result = refl

  read_close :
      (start curr : ℕ) (result : List Arg)
      → start + 1 < curr
      → read_char nested s len b')' (at start curr result)
        ≡ end_argument s len (record (at start curr result) { finished = true })
  unfolding read_char
  read_close start curr result lt = let e : (curr == start + 1) ≡ false = ground arith in rw e

  -- The loop over an argument up to the separator behind it.
  loop_word :
      (w : Text) (fuel : ℕ) (pre : Text) (c : ℕ) (post : Text) (result : List Arg)
      → All IsPlain w
      → s ≡ pre ++ (w ++ c ∷ post)
      → length w < fuel
      → scan_loop nested s len fuel (at (length pre) (length pre) result)
        ≡ scan_loop nested s len
            (fuel - length w - 1)
            (read_char nested s len c (at (length pre) (length pre + length w + 1) result))
  loop_word w fuel pre c post result p e f =
      let size : len ≡ length pre + length w + 1 + length post = omega (
        arith,
        at_end,
        ap length e,
        length-append pre (w ++ c ∷ post),
        length-append w (c ∷ post),
      ) in
      let enough : fuel ≡ length w + suc (fuel - length w - 1) = omega arith in
      let here : length (pre ++ w) ≡ length pre + length w = length-append pre w in
      ap (λ n. scan_loop nested s len n (at (length pre) (length pre) result)) enough
      ∙ loop_plain nested s len w (suc (fuel - length w - 1)) pre (c ∷ post) (length pre) result p e
          (omega arith)
      ∙ (rw (← here) (
          loop_round nested s len (fuel - length w - 1) (pre ++ w) c post (length pre) result
            (e ∙ sym (append_assoc pre w (c ∷ post))) (omega (arith, here))))

  -- The loop over the whole list.
  loop_arguments :
      (w : Text) (ws : List Text) (fuel : ℕ) (pre rest : Text) (result : List Arg)
      → All IsPlainArgument (w ∷ ws)
      → s ≡ pre ++ (printed (w ∷ ws) ++ b')' ∷ rest)
      → length (printed (w ∷ ws)) < fuel
      → scan_loop nested s len fuel (at (length pre) (length pre) result)
        ≡ stopped
            (skip is_space s len (length pre + length (printed (w ∷ ws)) + 1))
            (result ++ map Arg.text (w ∷ ws))
  unfolding join
  loop_arguments w [] fuel pre rest result p e f =
      let (ne, plain) = p.0 in
      loop_word w fuel pre b')' rest result plain e f
      ∙ rw
          (
            read_close (length pre) (length pre + length w + 1) result
                (omega (arith, length_pos w ne)),
            end_plain s len pre w (b')' ∷ rest) true result e ne plain,
          )
          (loop_stopped (fuel - length w - 1) _ _)
  loop_arguments w (v ∷ ws) fuel pre rest result p e f =
      let (ne, plain) = p.0 in
      let (ne', plain') = p.1.0 in
      let more = printed (v ∷ ws) in
      let tail = b' ' ∷ (more ++ b')' ∷ rest) in
      let e' : s ≡ pre ++ (w ++ b',' ∷ tail) =
        e ∙ ap (λ t. pre ++ t) (append_assoc w (codes ", " ++ more) (b')' ∷ rest)) in
      let e'' : s ≡ (pre ++ (w ++ codes ", ")) ++ (more ++ b')' ∷ rest) = e' ∙ simp append_assoc in
      let here : length (pre ++ (w ++ codes ", ")) ≡ length pre + length w + 1 + 1 =
        omega (arith, length-append pre (w ++ codes ", "), length-append w (codes ", ")) in
      let size : length (w ++ (codes ", " ++ more)) ≡ length w + (2 + length more) =
        omega (arith, length-append w (codes ", " ++ more)) in
      let step : skip is_space s len (length pre + length w + 1) ≡ length pre + length w + 1 + 1 =
        separator_step s len pre w v ws (b')' ∷ rest) at_end p.1.0 e'' in
      let place : length (pre ++ (w ++ codes ", ")) + length more + 1
          ≡ length pre + length (w ++ (codes ", " ++ more)) + 1 =
        omega (arith, here, size) in
      loop_word w fuel pre b',' tail result plain e' (omega (arith, size))
      ∙ rw
          (
            read_comma (length pre) (length pre + length w + 1) result,
            end_plain s len pre w (b',' ∷ tail) false result e' ne plain,
            step,
            ← here,
          )
          (loop_arguments v ws (fuel - length w - 1) (pre ++ (w ++ codes ", ")) rest
              (result ++ Arg.text w ∷ []) p.1 e'' (omega (arith, size))
            ∙ rw (append_assoc result (Arg.text w ∷ []) (map Arg.text (v ∷ ws)), place))

end_of_call_unmarked :
    (s : Text) (ix : ℕ) → find s (codes "<unfinished ...>") ix ≡ none → end_of_call s ix ≡ length s
unfolding end_of_call
end_of_call_unmarked s ix no_mark = rw (end_of_call, no_mark)

last_argument-stopped :
    (s : Text) (len i : ℕ) (result : List Arg) → last_argument s len (stopped i result) ≡ result
unfolding last_argument
last_argument-stopped s len i result = ground arith

first_not_space :
    (s pre rest w : Text) (ws : List Text)
    → IsPlainArgument w
    → s ≡ pre ++ (printed (w ∷ ws) ++ rest)
    → is_space (char_at s (length pre)) ≡ false
first_not_space s pre rest w ws (ne, plain) e =
    let (x, first) = printed-first w ws in
    let e1 : s ≡ pre ++ (w ++ (x ++ rest)) = rw (← append_assoc w x rest, ← first) e in
    rw e1 (no_space _ (first-IsPlain pre w (x ++ rest) ne plain))

pub parse_stopped :
    (depth : ℕ) (s pre rest w : Text) (ws : List Text)
    → All IsPlainArgument (w ∷ ws)
    → s ≡ pre ++ (printed (w ∷ ws) ++ b')' ∷ rest)
    → find s (codes "<unfinished ...>") (length pre) ≡ none
    → parse_call_arguments (suc depth) s (length pre) ≡ (
      map Arg.text (w ∷ ws),
      skip is_space s (length s) (length pre + length (printed (w ∷ ws)) + 1),
    )
unfolding parse_call_arguments
parse_stopped depth s pre rest w ws p e no_mark =
    let here : skip is_space s (length s) (length pre) ≡ length pre =
      skip_stay is_space s (length s) (length pre)
        (first_not_space s pre (b')' ∷ rest) w ws p.0 e) in
    let size : length (printed (w ∷ ws)) < length s = omega (
      arith,
      ap length e,
      length-append pre (printed (w ∷ ws) ++ b')' ∷ rest),
      length-append (printed (w ∷ ws)) (b')' ∷ rest),
    ) in
    rw
      (
        parse_call_arguments,
        here,
        end_of_call_unmarked s (length pre) no_mark,
        loop_arguments (parse_call_arguments depth s) s (length s) refl w ws (length s) pre rest []
            p e size,
      )
      (let r =
          last_argument-stopped s (length s)
            (skip is_space s (length s) (length pre + length (printed (w ∷ ws)) + 1))
            (map Arg.text (w ∷ ws)) in
        ap
          (λ (a : List Arg).
            (a, skip is_space s (length s) (length pre + length (printed (w ∷ ws)) + 1)))
          r)

-- A list of one or more plain arguments, printed with a comma and a space between them and a closing
-- parenthesis behind them, is read back, at any place of a text that holds no mark of an unfinished
-- call from there on. The index returned is the place behind the parenthesis and the spaces after it.
pub parse_call_arguments-printed :
    (depth : ℕ) (pre rest : Text) (w : Text) (ws : List Text)
    → All IsPlainArgument (w ∷ ws)
    → find (pre ++ (printed (w ∷ ws) ++ b')' ∷ rest)) (codes "<unfinished ...>") (length pre) ≡ none
    → parse_call_arguments (suc depth) (pre ++ (printed (w ∷ ws) ++ b')' ∷ rest)) (length pre) ≡ (
      map Arg.text (w ∷ ws),
      skip is_space
          (pre ++ (printed (w ∷ ws) ++ b')' ∷ rest))
          (length (pre ++ (printed (w ∷ ws) ++ b')' ∷ rest)))
          (length pre + length (printed (w ∷ ws)) + 1),
    )
parse_call_arguments-printed depth pre rest w ws p no_mark =
    parse_stopped depth (pre ++ (printed (w ∷ ws) ++ b')' ∷ rest)) pre rest w ws p refl no_mark
