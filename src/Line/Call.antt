-- ===== src/Line/Call.antt =====
-- The places of a call in a line: its arguments, its return value and its execution time.
use survol.Base.{
  suc, ◌+◌, Text, codes, text_eq, List, [], ◌∷◌, ◌++◌, append_assoc, map, none, some, false, length,
  length-append, ◌≡◌, ◌≢◌, refl, sym, ap, ◌∙◌, arith, All,
}
use survol.Batch.{BatchLetCore, strace, shown, status_eq, plain, unfinished}
use survol.Batch.Values.{Arg}
use survol.Batch.Failure.{ok}
use survol.CallArguments.{find, skip, is_space, parse_call_arguments}
use survol.CallArguments.Plain.{skip_one}
use survol.CallArguments.Separators.{IsPlainArgument, printed, char_at_place}
use survol.CallArguments.RoundTrip.{parse_stopped}
use survol.Symbols.{strip}
use survol.Line.{read_return, read_call, set_times}
use survol.Line.Places.{strip-spaces, find-here, slice-place}

-- What follows the name of a function in a line.
abbrev pub behind_name : Text → List Text → Text → Text → Text
behind_name w ws ret time =
    b'('
    ∷ (printed (w ∷ ws)
        ++ b')' ∷ b' ' ∷ b'=' ∷ b' ' ∷ (ret ++ b' ' ∷ b'<' ∷ (time ++ b'>' ∷ 10 ∷ [])))

module _ (name w : Text) (ws : List Text) (ret time : Text) where
  -- The text up to the return value, up to the execution time, and up to its end.
  abbrev pub to_close : Text
  to_close = name ++ b'(' ∷ (printed (w ∷ ws) ++ b')' ∷ [])

  abbrev pub to_ret : Text
  to_ret = to_close ++ b' ' ∷ b'=' ∷ []

  abbrev pub to_time : Text
  to_time = to_ret ++ b' ' ∷ (ret ++ b' ' ∷ [])

  abbrev pub call : Text
  call = name ++ behind_name w ws ret time

  pub call-args :
      call
      ≡ (name ++ b'(' ∷ [])
        ++ (printed (w ∷ ws)
            ++ b')' ∷ b' ' ∷ b'=' ∷ b' ' ∷ (ret ++ b' ' ∷ b'<' ∷ (time ++ b'>' ∷ 10 ∷ [])))
  call-args = simp append_assoc

  pub call-close :
      call ≡ to_close ++ b' ' ∷ b'=' ∷ b' ' ∷ (ret ++ b' ' ∷ b'<' ∷ (time ++ b'>' ∷ 10 ∷ []))
  call-close = simp append_assoc

  pub call-equal :
      call
      ≡ (to_close ++ b' ' ∷ []) ++ b'=' ∷ b' ' ∷ (ret ++ b' ' ∷ b'<' ∷ (time ++ b'>' ∷ 10 ∷ []))
  call-equal = simp append_assoc

  pub call-ret : call ≡ to_ret ++ ((b' ' ∷ (ret ++ b' ' ∷ [])) ++ b'<' ∷ (time ++ b'>' ∷ 10 ∷ []))
  call-ret = simp append_assoc

  pub call-time : call ≡ (to_time ++ b'<' ∷ []) ++ (time ++ b'>' ∷ 10 ∷ [])
  call-time = simp append_assoc

  pub call-end : call ≡ (to_time ++ b'<' ∷ time) ++ b'>' ∷ 10 ∷ []
  call-end = simp append_assoc

  pub length-to_ret : length to_ret ≡ length to_close + 2
  length-to_ret = length-append to_close (b' ' ∷ b'=' ∷ [])

  pub length-to_time : length to_time ≡ length to_ret + length (b' ' ∷ (ret ++ b' ' ∷ []))
  length-to_time = length-append to_ret (b' ' ∷ (ret ++ b' ' ∷ []))

  pub length-to_close : length to_close ≡ length name + 1 + length (printed (w ∷ ws)) + 1
  length-to_close = omega (
    arith,
    length-append name (b'(' ∷ (printed (w ∷ ws) ++ b')' ∷ [])),
    length-append (printed (w ∷ ws)) (b')' ∷ []),
  )

  pub read_return-call :
      read_return strace call (length to_close + 1) (some (length to_time)) ≡ ok (strip ret)
  unfolding read_return
  read_return-call = rw (
    read_return,
    find-here call (to_close ++ b' ' ∷ []) b'=' _ (length to_close + 1) call-equal
        (length-append to_close (b' ' ∷ [])),
    slice-place call to_ret (b' ' ∷ (ret ++ b' ' ∷ [])) _ (length to_close + 1 + 1) (length to_time)
        call-ret (omega (arith, length-to_ret)) length-to_time,
    strip-spaces ret,
  )

  pub skip-close : skip is_space call (length call) (length to_close) ≡ length to_close + 1
  skip-close =
      skip_one is_space call (length call) (length to_close)
        (omega (
          arith,
          ap length call-close,
          length-append to_close
              (b' ' ∷ b'=' ∷ b' ' ∷ (ret ++ b' ' ∷ b'<' ∷ (time ++ b'>' ∷ 10 ∷ []))),
        ))
        (let q = char_at_place call to_close b' ' _ (length to_close) call-close refl in rw q)
        (let q =
            char_at_place call (to_close ++ b' ' ∷ []) b'=' _ (length to_close + 1) call-equal
              (sym (length-append to_close (b' ' ∷ []))) in
          rw q)

  pub read_call-call :
      (c : BatchLetCore)
      → All IsPlainArgument (w ∷ ws)
      → find call (codes "<unfinished ...>") (length name + 1) ≡ none
      → c.tracer ≡ strace
      → status_eq c.status unfinished ≡ false
      → read_call c call (length name) (some (length to_time))
        ≡ ok (record c { parsed_args = map Arg.text (w ∷ ws); ret_value = some (strip ret) })
  unfolding read_call
  read_call-call c p no_mark traced st =
      let size : length (name ++ b'(' ∷ []) ≡ length name + 1 = length-append name (b'(' ∷ []) in
      let stop : length name + 1 + length (printed (w ∷ ws)) + 1 ≡ length to_close =
        sym length-to_close in
      let parsed : parse_call_arguments (suc (length call)) call (length name + 1)
          ≡ (map Arg.text (w ∷ ws), length to_close + 1) =
        rw size at (
          parse_stopped (length call) call (name ++ b'(' ∷ []) _ w ws p call-args (rw size no_mark))
        ∙ rw (stop, skip-close) in
      rw (read_call, parsed, st, traced, read_return-call)

  pub times-call :
      (c : BatchLetCore) (stamp : Text)
      → All (λ d. d ≢ b'<') time
      → text_eq time (codes "unfinished ...") ≡ false
      → set_times c stamp call (some (length to_time)) (length (to_time ++ b'<' ∷ time))
        ≡ record c { time_start = stamp; time_end = stamp; status = plain; exec_tim = shown time }
  unfolding set_times
  times-call c stamp no_lt real = rw (
    slice-place call (to_time ++ b'<' ∷ []) time _ (length to_time + 1)
        (length (to_time ++ b'<' ∷ time)) call-time (sym (length-append to_time (b'<' ∷ [])))
        (omega (arith, length-append to_time (b'<' ∷ time), length-append to_time (b'<' ∷ []))),
    real,
  )
