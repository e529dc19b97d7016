-- ===== src/SystemCalls/Tame/Results.antt =====
-- The exceptions of the constructors: none is one of those that `MergePopBatch` raises.
use survol.Base.{
  ℕ, zero, suc, Text, codes, text_eq, List, [], ◌∷◌, Option, none, some, Bool, true, false, ◌||◌,
  ◌==◌, if◌then◌else◌, ℤ, lookup, Dict, text_eq_instance, starts_with, get_elem?, ◌≡◌, refl,
}
use survol.Batch.{BatchLetCore, Tracer, strace, ltrace, other}
use survol.Batch.Values.{Arg, nil, cons, text, list, object, none_value}
use survol.Batch.Failure.{Result, ok, raised, ◌>>=◌, value_error}
use survol.Symbols.{strip}
use survol.CallArguments.{find}
use survol.Factory.Pairing.{is_sanity}
use survol.World.Numbers.{parse_int, parse_int_or_none, read_signed}
use survol.World.Paths.{
  to_abs_path, abs_parts, abs_loop, item_at, lt_int, as_text, as_pattern_text, or_none,
  stream_to_pathname, invalid_returned_file_descriptor, has_text, has_scheme, is_standard,
}
use survol.World.Objects.{items}
use survol.World.Accesses.{is_value_error}
use survol.SystemCalls.{item_of, parsed_arg, text_has, ret_has}
use survol.SystemCalls.Files.{
  abs_path_at, abs_path_in, convert_ret_value, convert_batch_core_ret_value, text_of_arg_has,
  item_has, arg_has,
}
use survol.SystemCalls.Processes.{
  is_thread_flags, flags_of, returned_pid, is_thread_call, pid_or_none, some_pid, waited_pid,
  first_item, first_word, command_line, key_of,
}
use survol.SystemCalls.Sockets.{
  iterated, find_fd, fd_in_stream, fd_names, or_unbound, split_names, pipe_item,
}

-- The exception, if there is one, is not a sanity check.
abbrev pub Harmless : {A : Type 0} → Result A → Type 0
Harmless (ok a) = Unit
Harmless (raised e) = is_sanity e ≡ false

if_Harmless :
    {A : Type 0} (b : Bool) (x y : Result A)
    → Harmless x
    → Harmless y
    → Harmless (if b then x else y)
if_Harmless true x y hx hy = hx
if_Harmless false x y hx hy = hy

bind-Harmless :
    {A B : Type 0} (r : Result A) (f : A → Result B)
    → Harmless r
    → ((a : A) → Harmless (f a))
    → Harmless (r >>= f)
bind-Harmless (ok a) f h k = k a
bind-Harmless (raised e) f h k = h

option-Harmless :
    {A B : Type 0} (o : Option A) (x : Result B) (f : A → Result B)
    → Harmless x
    → ((a : A) → Harmless (f a))
    → Harmless (elim o [ none ↦ x | some a ↦ f a ])
option-Harmless none x f hx hf = hx
option-Harmless (some a) x f hx hf = hf a

abs_loop-Harmless : (fuel : ℕ) (l : List Text) (ix len : ℤ) → Harmless (abs_loop fuel l ix len)
unfolding abs_loop
abs_loop-Harmless zero l ix len = tt
abs_loop-Harmless (suc fuel) l ix len =
    if_Harmless (lt_int ix len) _ _
      (option-Harmless (item_at l ix) _ _ refl (λ part.
        if_Harmless (text_eq part (codes "..")) _ _ (abs_loop-Harmless fuel _ _ _) (
          if_Harmless (text_eq part (codes ".") || text_eq part []) _ _
            (abs_loop-Harmless fuel _ _ _) (abs_loop-Harmless fuel _ _ _))))
      tt

abs_parts-Harmless : (s : Text) → Harmless (abs_parts s)
unfolding abs_parts
abs_parts-Harmless s = bind-Harmless _ _ (abs_loop-Harmless _ _ _ _) (λ l. tt)

pub to_abs_path-Harmless : (d s : Text) → Harmless (to_abs_path d s)
unfolding to_abs_path
to_abs_path-Harmless d [] = refl
to_abs_path-Harmless d (c ∷ s) =
    if_Harmless (has_scheme false (c ∷ s) || is_standard (c ∷ s)) _ _ tt (abs_parts-Harmless _)

pub as_pattern_text-Harmless : (a : Arg) → Harmless (as_pattern_text a)
unfolding as_pattern_text
as_pattern_text-Harmless (text s) = tt
as_pattern_text-Harmless (list l) = refl
as_pattern_text-Harmless (object m) = refl
as_pattern_text-Harmless none_value = refl

as_text-Harmless : (a : Arg) → Harmless (as_text a)
unfolding as_text
as_text-Harmless (text s) = tt
as_text-Harmless (list l) = refl
as_text-Harmless (object m) = refl
as_text-Harmless none_value = refl

pub stream_to_pathname-Harmless : (d : Dict Text Arg) (a : Arg) → Harmless (stream_to_pathname d a)
unfolding stream_to_pathname
stream_to_pathname-Harmless d a = bind-Harmless (as_text a) _ (as_text-Harmless a) (λ s.
    option-Harmless (find s (codes "<") 0) _ _ (option-Harmless (lookup s d) _ _ tt (λ p. tt))
      (λ i. tt))

or_none-Harmless : (o : Option Text) → Harmless (or_none o)
unfolding or_none
or_none-Harmless none = refl
or_none-Harmless (some s) = tt

pub invalid-Harmless :
    (o : Option Text) (t : Tracer) → Harmless (invalid_returned_file_descriptor o t)
unfolding invalid_returned_file_descriptor
invalid-Harmless o strace = bind-Harmless (or_none o) _ (or_none-Harmless o) (λ s. tt)
invalid-Harmless o ltrace = bind-Harmless (or_none o) _ (or_none-Harmless o) (λ s. tt)
invalid-Harmless o (other t) = refl

item_of-Harmless : (l : List Arg) (i : ℕ) → Harmless (item_of l i)
unfolding item_of
item_of-Harmless l i = option-Harmless (get_elem? l i) _ _ refl (λ a. tt)

pub parsed_arg-Harmless : (c : BatchLetCore) (i : ℕ) → Harmless (parsed_arg c i)
unfolding parsed_arg
parsed_arg-Harmless c i = item_of-Harmless c.parsed_args i

text_has-Harmless : (o : Option Text) (t : Text) → Harmless (text_has o t)
unfolding text_has
text_has-Harmless none t = refl
text_has-Harmless (some s) t = tt

pub ret_has-Harmless : (c : BatchLetCore) (t : Text) → Harmless (ret_has c t)
unfolding ret_has
ret_has-Harmless c t = text_has-Harmless c.ret_value t

parse_int-Harmless : (b : ℕ) (s : Text) → Harmless (parse_int b s)
unfolding parse_int
parse_int-Harmless b s =
    option-Harmless (read_signed b (strip s)) (raised value_error) (λ z. ok z) refl (λ z. tt)

pub parse_int_or_none-Harmless : (b : ℕ) (o : Option Text) → Harmless (parse_int_or_none b o)
unfolding parse_int_or_none
parse_int_or_none-Harmless b none = refl
parse_int_or_none-Harmless b (some s) = parse_int-Harmless b s

pub abs_path_at-Harmless : (d : Option Text) (s : Text) → Harmless (abs_path_at d s)
unfolding abs_path_at
abs_path_at-Harmless (some d) s = to_abs_path-Harmless d s
abs_path_at-Harmless none [] = refl
abs_path_at-Harmless none (c ∷ s) =
    if_Harmless (has_scheme false (c ∷ s) || is_standard (c ∷ s) || c == b'/') _ _
      (to_abs_path-Harmless [] (c ∷ s)) refl

pub abs_path_in-Harmless : (d : Arg) (s : Text) → Harmless (abs_path_in d s)
unfolding abs_path_in
abs_path_in-Harmless (text d) s = abs_path_at-Harmless (some d) s
abs_path_in-Harmless (list l) s = abs_path_at-Harmless none s
abs_path_in-Harmless (object m) s = abs_path_at-Harmless none s
abs_path_in-Harmless none_value s = abs_path_at-Harmless none s

convert_ret-Harmless : (t : Tracer) (o : Option Text) → Harmless (convert_ret_value t o)
unfolding convert_ret_value
convert_ret-Harmless ltrace o = parse_int_or_none-Harmless 16 o
convert_ret-Harmless strace o = parse_int_or_none-Harmless 10 o
convert_ret-Harmless (other t) o = refl

pub convert-Harmless : (c : BatchLetCore) → Harmless (convert_batch_core_ret_value c)
unfolding convert_batch_core_ret_value
convert-Harmless c = convert_ret-Harmless c.tracer c.ret_value

text_of_arg-Harmless : (a : Arg) (t : Text) → Harmless (text_of_arg_has a t)
unfolding text_of_arg_has
text_of_arg-Harmless (text s) t = tt
text_of_arg-Harmless (list l) t = refl
text_of_arg-Harmless (object m) t = refl
text_of_arg-Harmless none_value t = refl

item_has-Harmless : (r : Result Arg) (t : Text) → Harmless r → Harmless (item_has r t)
unfolding item_has
item_has-Harmless (ok a) t h = text_of_arg-Harmless a t
item_has-Harmless (raised e) t h = h

pub arg_has-Harmless : (c : BatchLetCore) (i : ℕ) (t : Text) → Harmless (arg_has c i t)
unfolding arg_has
arg_has-Harmless c i t = item_has-Harmless (parsed_arg c i) t (parsed_arg-Harmless c i)

thread_flags-Harmless : (a : Arg) → Harmless (is_thread_flags a)
unfolding is_thread_flags
thread_flags-Harmless (text s) = tt
thread_flags-Harmless (list l) = refl
thread_flags-Harmless (object m) = refl
thread_flags-Harmless none_value = refl

flags_of-Harmless : (r : Result Arg) → Harmless r → Harmless (flags_of r)
unfolding flags_of
flags_of-Harmless (ok a) h = thread_flags-Harmless a
flags_of-Harmless (raised e) h = h

pub returned_pid-Harmless : (t : Tracer) (o : Option Text) → Harmless (returned_pid t o)
unfolding returned_pid
returned_pid-Harmless ltrace o = parse_int_or_none-Harmless 16 o
returned_pid-Harmless strace o = parse_int_or_none-Harmless 10 o
returned_pid-Harmless (other t) o = refl

pub is_thread_call-Harmless : (t : Tracer) (c : BatchLetCore) → Harmless (is_thread_call t c)
unfolding is_thread_call
is_thread_call-Harmless ltrace c = tt
is_thread_call-Harmless strace c = flags_of-Harmless (parsed_arg c 1) (parsed_arg-Harmless c 1)
is_thread_call-Harmless (other t) c = refl

pid_or_none-Harmless : (r : Result ℤ) → Harmless r → Harmless (pid_or_none r)
unfolding pid_or_none
pid_or_none-Harmless (ok p) h = tt
pid_or_none-Harmless (raised e) h = if_Harmless (is_value_error e) _ _ tt h

some_pid-Harmless : (r : Result ℤ) → Harmless r → Harmless (some_pid r)
unfolding some_pid
some_pid-Harmless (ok p) h = tt
some_pid-Harmless (raised e) h = h

pub waited_pid-Harmless : (t : Tracer) (o : Option Text) → Harmless (waited_pid t o)
unfolding waited_pid
waited_pid-Harmless ltrace none = refl
waited_pid-Harmless ltrace (some s) =
    if_Harmless (has_text s (codes "-10")) _ _ tt
      (some_pid-Harmless (parse_int 16 s) (parse_int-Harmless 16 s))
waited_pid-Harmless strace none = refl
waited_pid-Harmless strace (some s) =
    if_Harmless (has_text s (codes "ECHILD")) _ _ tt
      (pid_or_none-Harmless (parse_int 10 (first_word s)) (parse_int-Harmless 10 (first_word s)))
waited_pid-Harmless (other t) o = refl

pub first_item-Harmless : (a : Arg) → Harmless (first_item a)
unfolding first_item
first_item-Harmless (text []) = refl
first_item-Harmless (text (x ∷ s)) = tt
first_item-Harmless (list nil) = refl
first_item-Harmless (list (cons a l)) = tt
first_item-Harmless (object m) = refl
first_item-Harmless none_value = refl

pub command_line-Harmless : (t : Tracer) (c : BatchLetCore) → Harmless (command_line t c)
unfolding command_line
command_line-Harmless ltrace c = tt
command_line-Harmless strace c = parsed_arg-Harmless c 1
command_line-Harmless (other t) c = refl

pub key_of-Harmless : (a : Arg) → Harmless (key_of a)
unfolding key_of
key_of-Harmless (text s) = tt
key_of-Harmless (list l) = refl
key_of-Harmless (object m) = tt
key_of-Harmless none_value = refl

pub iterated-Harmless : (a : Arg) → Harmless (iterated a)
unfolding iterated
iterated-Harmless a = option-Harmless (items a) _ _ refl (λ l. tt)

find_fd-Harmless : (l : List Arg) (o : Option Text) → Harmless (find_fd l o)
unfolding find_fd
find_fd-Harmless [] o = tt
find_fd-Harmless (text s ∷ l) o =
    if_Harmless (starts_with s (codes "fd=")) _ _ tt (find_fd-Harmless l o)
find_fd-Harmless (list m ∷ l) o = refl
find_fd-Harmless (object m ∷ l) o = refl
find_fd-Harmless (none_value ∷ l) o = refl

fd_in_stream-Harmless :
    (r : Result (List Arg)) (o : Option Text) → Harmless r → Harmless (fd_in_stream r o)
unfolding fd_in_stream
fd_in_stream-Harmless (ok l) o h = find_fd-Harmless l o
fd_in_stream-Harmless (raised e) o h = h

fd_names_from-Harmless :
    (l : List Arg) (r : Result (Option Text)) → Harmless r → Harmless (fd_names l r)
unfolding fd_names
fd_names_from-Harmless [] r h = h
fd_names_from-Harmless (a ∷ l) (ok o) h =
    fd_names_from-Harmless l (fd_in_stream (iterated a) o)
      (fd_in_stream-Harmless (iterated a) o (iterated-Harmless a))
fd_names_from-Harmless (a ∷ l) (raised e) h = h

pub fd_names-Harmless : (l : List Arg) → Harmless (fd_names l (ok none))
fd_names-Harmless l = fd_names_from-Harmless l (ok none) tt

pub or_unbound-Harmless : (o : Option Text) → Harmless (or_unbound o)
unfolding or_unbound
or_unbound-Harmless none = refl
or_unbound-Harmless (some s) = tt

pub split_names-Harmless : (a : Arg) → Harmless (split_names a)
unfolding split_names
split_names-Harmless (text s) = tt
split_names-Harmless (list l) = refl
split_names-Harmless (object m) = refl
split_names-Harmless none_value = refl

pub pipe_item-Harmless : (a : Arg) (i : ℕ) → Harmless (pipe_item a i)
unfolding pipe_item
pipe_item-Harmless (text s) i = item_of-Harmless _ i
pipe_item-Harmless (list l) i = item_of-Harmless _ i
pipe_item-Harmless (object m) i = refl
pipe_item-Harmless none_value i = refl
