-- ===== src/SystemCalls/Tame/Actions.antt =====
-- Actions that raise none of the exceptions of `MergePopBatch`, one rule for each way to build one, and
-- the operations on the CIM objects.
use survol.Base.{
  ℕ, Text, List, [], ◌∷◌, Option, none, some, Bool, true, false, if◌then◌else◌, ℤ, ◌≡◌,
}
use survol.Batch.Failure.{Failure, Result, ok, raised}
use survol.Batch.Values.{Arg}
use survol.Buffers.{BufferConcatenator}
use survol.Factory.Pairing.{is_sanity}
use survol.World.{World, Process, DataFile, Library}
use survol.World.Actions.{
  Action, pure, raise, lift, gets, modify, continue, handle, try_except, for_each, ◌>>=◌,
}
use survol.World.Objects.{
  set_parent_process, add_parent_process, or_set_parent, wait_process_end, create_with,
  create_process, or_create, to_process, set_executable, set_is_executed, set_command_line,
  set_thread, set_process_current_dir, or_create_file, to_file, directory_for, to_data_file,
}
use survol.World.Accesses.{
  get_file_access, or_make_access, set_open_time, set_close_time, or_clear, put_read, put_written,
  set_read, set_written, open_access, close_access, read_access, write_access,
}
use survol.SystemCalls.Tame.Results.{Harmless, to_abs_path-Harmless, as_pattern_text-Harmless}

pub record Tame {A : Type 0} (m : Action A) : Type 0 where
  pub at : (w : World) → Harmless (m w).1

module _ {A : Type 0} where
  pub Tame-pure : (a : A) → Tame (pure a)
  unfolding pure
  Tame-pure a = record { at = λ w. tt }

  pub Tame-raise : (e : Failure) → is_sanity e ≡ false → Tame (raise {A = A} e)
  unfolding raise
  Tame-raise e h = record { at = λ w. h }

  pub Tame-lift : (r : Result A) → Harmless r → Tame (lift r)
  unfolding lift
  Tame-lift r h = record { at = λ w. h }

  pub Tame-gets : (f : World → A) → Tame (gets f)
  unfolding gets
  Tame-gets f = record { at = λ w. tt }

  pub Tame-if : (b : Bool) (m n : Action A) → Tame m → Tame n → Tame (if b then m else n)
  Tame-if true m n tm tn = tm
  Tame-if false m n tm tn = tn

  either :
      (b : Bool) (n : Action A) (w : World) (e : Failure)
      → Tame n
      → is_sanity e ≡ false
      → Harmless (if b then n w else (w, raised e)).1
  either true n w e tn h = tn.at w
  either false n w e tn h = h

  handled :
      (caught : Failure → Bool) (n : Action A) (w : World) (r : Result A)
      → Tame n
      → Harmless r
      → Harmless (handle caught n (w, r)).1
  unfolding handle
  handled caught n w (ok a) tn h = tt
  handled caught n w (raised e) tn h = either (caught e) n w e tn h

  pub Tame-try :
      (caught : Failure → Bool) (m n : Action A) → Tame m → Tame n → Tame (try_except caught m n)
  unfolding try_except
  Tame-try caught m n tm tn = record {
    at = λ w. let (w', r) = m w in handled caught n w' r tn (tm.at w);
  }

pub Tame-modify : (f : World → World) → Tame (modify f)
unfolding modify
Tame-modify f = record { at = λ w. tt }

module _ {A B : Type 0} where
  continued :
      (r : Result A) (f : A → Action B) (w : World)
      → Harmless r
      → ((a : A) → Tame (f a))
      → Harmless (continue r f w).1
  unfolding continue
  continued (ok a) f w h k = (k a).at w
  continued (raised e) f w h k = h

  pub Tame-bind :
      (m : Action A) (f : A → Action B) → Tame m → ((a : A) → Tame (f a)) → Tame (m >>= f)
  unfolding ◌>>=◌
  Tame-bind m f tm tf = record { at = λ w. let (w', r) = m w in continued r f w' (tm.at w) tf }

module _ {A B : Type 0} where
  pub Tame-for_each : (l : List A) (f : A → Action B) → ((a : A) → Tame (f a)) → Tame (for_each l f)
  unfolding for_each
  Tame-for_each [] f k = Tame-pure []
  Tame-for_each (a ∷ l) f k =
      Tame-bind (f a) (λ y. do ys ← for_each l f; pure (y ∷ ys)) (k a)
        (λ y.
          Tame-bind (for_each l f) (λ ys. pure (y ∷ ys)) (Tame-for_each l f k)
            (λ ys. Tame-pure (y ∷ ys)))

pub ruleset tame_rules =
    (Tame-pure, Tame-lift, Tame-gets, Tame-if, Tame-try, Tame-modify, Tame-bind)

set_parent-Tame : (p q : ℤ) → Tame (set_parent_process p q)
unfolding set_parent_process
set_parent-Tame p q = search (tame_rules, Tame-raise) depth 9

pub add_parent_process-Tame : (p : ℤ) (t : Text) (q : ℤ) → Tame (add_parent_process p t q)
unfolding add_parent_process
add_parent_process-Tame p t q = search (tame_rules, set_parent-Tame)

or_set_parent-Tame : (o : Option ℤ) (p q : ℤ) → Tame (or_set_parent o p q)
unfolding or_set_parent
or_set_parent-Tame none p q = set_parent-Tame p q
or_set_parent-Tame (some r) p q = search tame_rules

pub wait_process_end-Tame : (p : ℤ) (t : Text) (q : ℤ) → Tame (wait_process_end p t q)
unfolding wait_process_end
wait_process_end-Tame p t q = search (tame_rules, or_set_parent-Tame) depth 9

create_with-Tame : (o : Option ℤ) (p : ℤ) → Tame (create_with o p)
unfolding create_with
create_with-Tame none p = search tame_rules
create_with-Tame (some q) p = search (tame_rules, Tame-raise) depth 9

or_create-Tame : (o : Option Process) (p : ℤ) → Tame (or_create o p)
unfolding or_create create_process
or_create-Tame none p = search (tame_rules, create_with-Tame) depth 9
or_create-Tame (some o) p = search tame_rules

pub to_process-Tame : (p : ℤ) → Tame (to_process p)
unfolding to_process
to_process-Tame p = search (tame_rules, or_create-Tame) depth 12

pub set_executable-Tame : (p : ℤ) (f : Text) → Tame (set_executable p f)
unfolding set_executable
set_executable-Tame p f = search (tame_rules) depth 12

pub set_is_executed-Tame : (f : Text) → Tame (set_is_executed f)
unfolding set_is_executed
set_is_executed-Tame f = search (tame_rules) depth 12

pub set_command_line-Tame : (lib : Library) (p : ℤ) (a : Arg) → Tame (set_command_line lib p a)
unfolding set_command_line
set_command_line-Tame lib p a = search (tame_rules) depth 12

pub set_thread-Tame : (p : ℤ) → Tame (set_thread p)
unfolding set_thread
set_thread-Tame p = search (tame_rules) depth 12

pub set_process_current_dir-Tame : (p : ℤ) (d : Text) → Tame (set_process_current_dir p d)
unfolding set_process_current_dir
set_process_current_dir-Tame p d = search (tame_rules) depth 12

or_create_file-Tame :
    (lib : Library) (o : Option DataFile) (n : Text) → Tame (or_create_file lib o n)
unfolding or_create_file
or_create_file-Tame lib none n = search tame_rules
or_create_file-Tame lib (some o) n = search tame_rules

pub to_data_file-Tame : (lib : Library) (a : Arg) (p : ℤ) → Tame (to_data_file lib a p)
unfolding to_data_file directory_for to_file
to_data_file-Tame lib a p =
    search
      (
        tame_rules, to_process-Tame, or_create_file-Tame, to_abs_path-Harmless,
        as_pattern_text-Harmless,
      )
      depth 12

or_make_access-Tame : (o : Option ℕ) (p : ℤ) (f : Text) → Tame (or_make_access o p f)
unfolding or_make_access
or_make_access-Tame (some a) p f = search tame_rules
or_make_access-Tame none p f = search tame_rules depth 9

pub get_file_access-Tame : (p : ℤ) (f : Text) → Tame (get_file_access p f)
unfolding get_file_access
get_file_access-Tame p f = search (tame_rules, or_make_access-Tame) depth 12

or_clear-Tame : (o : Option ℕ) (p : ℤ) (f : Text) → Tame (or_clear o p f)
unfolding or_clear
or_clear-Tame none p f = search (tame_rules, Tame-raise)
or_clear-Tame (some a) p f = search tame_rules

put_read-Tame : (a : ℕ) (b : Option (Option BufferConcatenator)) → Tame (put_read a b)
unfolding put_read
put_read-Tame a none = search (tame_rules, Tame-raise)
put_read-Tame a (some b) = search tame_rules

set_read-Tame : (lib : Library) (f : Text) (a : ℕ) (n : ℤ) (b : Arg) → Tame (set_read lib f a n b)
unfolding set_read
set_read-Tame lib f a n b = search (tame_rules, put_read-Tame) depth 12

put_written-Tame : (a : ℕ) (b : Option (Option BufferConcatenator)) → Tame (put_written a b)
unfolding put_written
put_written-Tame a none = search (tame_rules, Tame-raise)
put_written-Tame a (some b) = search tame_rules

set_written-Tame :
    (lib : Library) (f : Text) (a : ℕ) (n : ℤ) (b : Arg) → Tame (set_written lib f a n b)
unfolding set_written
set_written-Tame lib f a n b = search (tame_rules, put_written-Tame) depth 12

pub open_access-Tame : (p : ℤ) (f t : Text) → Tame (open_access p f t)
unfolding open_access set_open_time
open_access-Tame p f t = search (tame_rules, get_file_access-Tame) depth 12

pub close_access-Tame : (p : ℤ) (f t : Text) → Tame (close_access p f t)
unfolding close_access set_close_time
close_access-Tame p f t = search (tame_rules, get_file_access-Tame, or_clear-Tame) depth 12

pub read_access-Tame :
    (lib : Library) (p : ℤ) (f : Text) (n : ℤ) (b : Result Arg)
    → Harmless b
    → Tame (read_access lib p f n b)
unfolding read_access
read_access-Tame lib p f n b h = search (tame_rules, get_file_access-Tame, set_read-Tame) depth 9

pub write_access-Tame :
    (lib : Library) (p : ℤ) (f : Text) (n : Result ℤ) (b : Result Arg)
    → Harmless n
    → Harmless b
    → Tame (write_access lib p f n b)
unfolding write_access
write_access-Tame lib p f n b hn hb =
    search (tame_rules, get_file_access-Tame, set_written-Tame) depth 12

pub ruleset action_rules = (
  tame_rules, to_process-Tame, set_executable-Tame, set_is_executed-Tame, set_command_line-Tame,
  set_thread-Tame, set_process_current_dir-Tame, to_data_file-Tame, get_file_access-Tame,
  open_access-Tame, close_access-Tame, read_access-Tame, write_access-Tame, add_parent_process-Tame,
  wait_process_end-Tame,
)
