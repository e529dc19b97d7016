-- ===== src/Line/Whole.antt =====
-- `InitAfterPid` on a whole line of strace: name, arguments, return value and execution time.
use survol.Base.{
  ℕ, suc, ◌+◌, Text, codes, text_eq, starts_with, List, [], ◌∷◌, ◌++◌, append_assoc, map, Option,
  none, some, false, length, length-append, take, drop, slice, take-append, ◌≡◌, ◌≢◌, refl, arith,
  All,
}
use survol.Batch.{BatchLetCore, strace, shown, plain}
use survol.Batch.Values.{Arg}
use survol.Batch.Failure.{ok}
use survol.CallArguments.{find}
use survol.CallArguments.Separators.{IsPlainArgument}
use survol.Symbols.{rfind_in, strip}
use survol.Symbols.Demangled.{IsPlain}
use survol.Line.{set_function, match_resume, read_call, read_function, init_after_pid}
use survol.Line.Places.{
  find-parenthesis, slice-place, take-place, rfind_in-place, not_started, drop-place,
}
use survol.Line.Call.{behind_name, to_time, call, call-end, read_call-call, times-call}

match_resume-none : (s : Text) → starts_with s (codes "<... ") ≡ false → match_resume s ≡ none
unfolding match_resume
match_resume-none s e = rw (match_resume, e)

read_function-plain :
    (core : BatchLetCore) (line call : Text) (lt : Option ℕ) (p : ℕ)
    → match_resume call ≡ none
    → find call (codes "(") 0 ≡ some (suc p)
    → core.tracer ≡ strace
    → read_function core line call lt
      ≡ read_call (record core { func_nam = take (suc p) call ++ codes "@SYS" }) call (suc p) lt
unfolding read_function set_function
read_function-plain core line call lt p e q traced = rw (read_function, e, q, traced)

-- A line of strace: a time stamp of 15 characters, the name of a function, one or more plain arguments,
-- the return value, and the execution time. The core gets these, with the suffix of a system call, and
-- the white space around the return value removed. The name holds no parenthesis, and does not begin
-- as the lines on signals, exits and resumed calls do; the execution time holds no opening angle bracket, is
-- not the mark of an unfinished call, and that mark does not stand behind the name.
pub init_after_pid-whole :
    (core : BatchLetCore) (before stamp : Text) (c : ℕ) (name w : Text) (ws : List Text)
    (ret time : Text)
    → core.tracer ≡ strace
    → length stamp ≡ 15
    → (c ≢ b'-') × (c ≢ b'+') × (c ≢ b'<')
    → All IsPlain (c ∷ name)
    → All IsPlainArgument (w ∷ ws)
    → All (λ d. d ≢ b'<') time
    → text_eq time (codes "unfinished ...") ≡ false
    → find
        ((c ∷ name) ++ behind_name w ws ret time)
        (codes "<unfinished ...>")
        (length (c ∷ name) + 1)
      ≡ none
    → init_after_pid core
        (before ++ (stamp ++ b' ' ∷ ((c ∷ name) ++ behind_name w ws ret time)))
        (length before)
      ≡ ok (record core {
        func_nam = (c ∷ name) ++ codes "@SYS";
        status = plain;
        parsed_args = map Arg.text (w ∷ ws);
        ret_value = some (strip ret);
        time_start = stamp;
        time_end = stamp;
        exec_tim = shown time;
      })
unfolding init_after_pid
init_after_pid-whole core before stamp c name w ws ret time traced size (dash, plus, lt) hn hp no_lt
      real no_mark =
    let call = (c ∷ name) ++ behind_name w ws ret time in
    let line = before ++ (stamp ++ b' ' ∷ call) in
    let no_sign : starts_with call (codes "--- ") ≡ false = not_started c _ b'-' _ dash in
    let no_plus : starts_with call (codes "+++ ") ≡ false = not_started c _ b'+' _ plus in
    let no_resume : starts_with call (codes "<... ") ≡ false = not_started c _ b'<' _ lt in
    let at_stamp : slice line (length before) (length before + 15) ≡ stamp =
      slice-place line before stamp (b' ' ∷ call) _ (length before + 15) refl refl
        (omega (arith, size)) in
    let at_call : drop (length before + 16) line ≡ call =
      drop-place line (before ++ (stamp ++ b' ' ∷ [])) call (length before + 16) (simp append_assoc)
        (omega (
          arith,
          length-append before (stamp ++ b' ' ∷ []),
          length-append stamp (b' ' ∷ []),
          size,
        )) in
    let gt : rfind_in b'>' call 0
        ≡ some (length (to_time (c ∷ name) w ws ret time ++ b'<' ∷ time)) =
      rfind_in-place b'>' call (to_time (c ∷ name) w ws ret time ++ b'<' ∷ time) (10 ∷ [])
        ((λ e. omega (arith, e)), tt) (call-end (c ∷ name) w ws ret time) in
    let up_to : take (length (to_time (c ∷ name) w ws ret time ++ b'<' ∷ time)) call
        ≡ to_time (c ∷ name) w ws ret time ++ b'<' ∷ time =
      take-place call _ (b'>' ∷ 10 ∷ []) _ (call-end (c ∷ name) w ws ret time) refl in
    let at_lt : rfind_in b'<' (to_time (c ∷ name) w ws ret time ++ b'<' ∷ time) 0
        ≡ some (length (to_time (c ∷ name) w ws ret time)) =
      rfind_in-place b'<' _ (to_time (c ∷ name) w ws ret time) time no_lt refl in
    let at_name = take-append name (behind_name w ws ret time) in
    rw
      (
        init_after_pid,
        at_stamp,
        at_call,
        no_sign,
        no_plus,
        gt,
        up_to,
        at_lt,
        times-call (c ∷ name) w ws ret time core stamp no_lt real,
        read_function-plain
            (record core {
              status = plain;
              time_start = stamp;
              time_end = stamp;
              exec_tim = shown time;
            })
            line call (some (length (to_time (c ∷ name) w ws ret time))) (length name)
            (match_resume-none call no_resume) (find-parenthesis c name _ hn) traced,
        at_name,
      )
      (read_call-call (c ∷ name) w ws ret time
        (record core {
          func_nam = (c ∷ name) ++ codes "@SYS";
          status = plain;
          time_start = stamp;
          time_end = stamp;
          exec_tim = shown time;
        })
        hp no_mark traced refl)
