-- ===== src/World/Sound/Files.antt =====
-- The operations on files and their accesses keep the invariant of the globals.
use survol.Base.{
  ℕ, Text, [], ◌∷◌, Option, none, some, Option-cases, Bool, ℤ, int_eq, text_eq_instance, lookup,
  get_elem?, length, ◌++◌, ◌≡◌, refl, inl, inr,
}
use survol.Batch.Failure.{Result}
use survol.Batch.Values.{Arg}
use survol.Buffers.{BufferConcatenator}
use survol.World.{World, Process, DataFile, FileAccess, Library, new_access}
use survol.World.Actions.{modify}
use survol.World.Keeps.{Keeps, keeps_rules, Keeps-modify, Keeps-gets-bind}
use survol.World.Objects.{
  change_process, change_file, set_executable, set_is_executed, set_command_line, command_line_of,
  with_command, set_thread, set_process_current_dir, store_file, or_create_file, to_file,
  directory_for, to_data_file,
}
use survol.World.Objects.Trees.{IsTree, IsCalm, change_process-IsTree}
use survol.World.Accesses.{
  change_access, write_cache, clear_cache, append_access, get_file_access, or_make_access,
  set_open_time, set_close_time, or_clear, set_read, set_written, put_read, put_written,
  open_access, close_access, read_access, write_access,
}
use survol.World.Sound.{IsSound, both, elsewhere, IsTree-same, calm-IsSound, to_process-IsSound}
use survol.World.Accesses.Cached.{change_file-IsSameHere}
use survol.World.Accesses.Opened.{
  get_file_access-Keeps, open_access-Keeps, close_access-Keeps, read_access-Keeps,
  write_access-Keeps,
}

-- On the attributes of a process
pub set_executable-IsSound : (q p : ℤ) (file : Text) → Keeps (IsSound q) (set_executable p file)
unfolding set_executable
set_executable-IsSound q p file =
    calm-IsSound q (λ o. record o { executable = some file }) p
      (record { keeps_parent = λ o. refl; keeps_sub_processes = λ o. refl })

pub set_thread-IsSound : (q p : ℤ) → Keeps (IsSound q) (set_thread p)
unfolding set_thread
set_thread-IsSound q p =
    calm-IsSound q (λ o. record o { is_thread = Bool.true }) p
      (record { keeps_parent = λ o. refl; keeps_sub_processes = λ o. refl })

pub set_process_current_dir-IsSound :
    (q p : ℤ) (dir : Text) → Keeps (IsSound q) (set_process_current_dir p dir)
unfolding set_process_current_dir
set_process_current_dir-IsSound q p dir =
    calm-IsSound q (λ o. record o { current_directory = dir }) p
      (record { keeps_parent = λ o. refl; keeps_sub_processes = λ o. refl })

command-IsCalm : (line : Option Text) (command : Arg) → IsCalm (with_command line command)
unfolding with_command
command-IsCalm none command = record { keeps_parent = λ o. refl; keeps_sub_processes = λ o. refl }
command-IsCalm (some t) command = record {
  keeps_parent = λ o. refl;
  keeps_sub_processes = λ o. refl;
}

pub set_command_line-IsSound :
    (lib : Library) (q p : ℤ) (command : Arg) → Keeps (IsSound q) (set_command_line lib p command)
unfolding set_command_line
set_command_line-IsSound lib q p command =
    calm-IsSound q (with_command (command_line_of lib command) command) p
      (command-IsCalm (command_line_of lib command) command)

-- On files
change_file-processes :
    (f : DataFile → DataFile) (n : Text) (w : World) → (change_file f n w).processes ≡ w.processes
unfolding change_file
change_file-processes f n w = elim (Option-cases (lookup n w.files)) [
  | inl e ↦ rw (change_file, e) refl
  | inr (o, e) ↦ rw (change_file, e) refl
]

pub change_file-IsSound :
    (q : ℤ) (f : DataFile → DataFile) (n : Text) → Keeps (IsSound q) (modify (change_file f n))
change_file-IsSound q f n =
    elsewhere q (change_file f n) (change_file-processes f n) (change_file-IsSameHere f n)

pub set_is_executed-IsSound : (q : ℤ) (n : Text) → Keeps (IsSound q) (set_is_executed n)
unfolding set_is_executed
set_is_executed-IsSound q n = search change_file-IsSound

store_file-IsSound :
    (lib : Library) (q : ℤ) (n : Text) → Keeps (IsSound q) (modify (store_file lib n))
unfolding store_file
store_file-IsSound lib q n =
    elsewhere q (store_file lib n) (λ w. refl)
      (λ w. record { same_accesses = refl; same_cache = refl })

or_create_file-IsSound :
    (lib : Library) (q : ℤ) (o : Option DataFile) (n : Text)
    → Keeps (IsSound q) (or_create_file lib o n)
unfolding or_create_file
or_create_file-IsSound lib q none n = search (keeps_rules, store_file-IsSound)
or_create_file-IsSound lib q (some o) n = search keeps_rules

pub to_data_file-IsSound :
    (lib : Library) (q : ℤ) (path_name : Arg) (p : ℤ)
    → Keeps (IsSound q) (to_data_file lib path_name p)
unfolding to_data_file directory_for to_file
to_data_file-IsSound lib q path_name p =
    search (keeps_rules, to_process-IsSound, or_create_file-IsSound) depth 10

-- On accesses
change_access-processes :
    (f : FileAccess → FileAccess) (a : ℕ) (w : World)
    → (change_access f a w).processes ≡ w.processes
unfolding change_access
change_access-processes f a w = elim (Option-cases (get_elem? w.accesses a)) [
  | inl e ↦ rw (change_access, e) refl
  | inr (o, e) ↦ rw (change_access, e) refl
]

change_access-Keeps :
    (q : ℤ) (f : FileAccess → FileAccess) (a : ℕ) → Keeps (IsTree q) (modify (change_access f a))
change_access-Keeps q f a =
    Keeps-modify (change_access f a)
      (λ w t. IsTree-same q w (change_access f a w) (change_access-processes f a w) t)

write_cache-Keeps :
    (q p : ℤ) (file : Text) (a : ℕ) → Keeps (IsTree q) (modify (write_cache p file a))
unfolding write_cache
write_cache-Keeps q p file a =
    Keeps-modify (write_cache p file a) (λ w t. IsTree-same q w (write_cache p file a w) refl t)

clear_cache-Keeps : (q p : ℤ) (file : Text) → Keeps (IsTree q) (modify (clear_cache p file))
unfolding clear_cache
clear_cache-Keeps q p file =
    Keeps-modify (clear_cache p file) (λ w t. IsTree-same q w (clear_cache p file w) refl t)

append_access-Keeps : (q p : ℤ) (file : Text) → Keeps (IsTree q) (modify (append_access p file))
unfolding append_access
append_access-Keeps q p file = Keeps-modify (append_access p file) (λ w t.
    let w' = record w { accesses = w.accesses ++ new_access p file ∷ [] } in
    let f : Process → Process = λ o. record o { accesses = o.accesses ++ length w.accesses ∷ [] } in
    let g : DataFile → DataFile =
      λ o. record o { accesses = o.accesses ++ length w.accesses ∷ [] } in
    IsTree-same q (change_process f p w') (change_file g file (change_process f p w'))
      (change_file-processes g file (change_process f p w'))
      (change_process-IsTree f p q w'
        (record { keeps_parent = λ o. refl; keeps_sub_processes = λ o. refl })
        (IsTree-same q w w' refl t)))

or_make_access-Keeps :
    (q : ℤ) (o : Option ℕ) (p : ℤ) (file : Text) → Keeps (IsTree q) (or_make_access o p file)
unfolding or_make_access
or_make_access-Keeps q (some a) p file = search keeps_rules
or_make_access-Keeps q none p file =
    search (keeps_rules, append_access-Keeps, write_cache-Keeps) depth 10

get_access-IsTree : (q p : ℤ) (file : Text) → Keeps (IsTree q) (get_file_access p file)
unfolding get_file_access
get_access-IsTree q p file = search (keeps_rules, or_make_access-Keeps)

or_clear-IsTree :
    (q : ℤ) (o : Option ℕ) (p : ℤ) (file : Text) → Keeps (IsTree q) (or_clear o p file)
unfolding or_clear
or_clear-IsTree q none p file = search keeps_rules
or_clear-IsTree q (some a) p file = clear_cache-Keeps q p file

put_read-IsTree :
    (q : ℤ) (a : ℕ) (b : Option (Option BufferConcatenator)) → Keeps (IsTree q) (put_read a b)
unfolding put_read
put_read-IsTree q a none = search keeps_rules
put_read-IsTree q a (some b) = search change_access-Keeps

put_written-IsTree :
    (q : ℤ) (a : ℕ) (b : Option (Option BufferConcatenator)) → Keeps (IsTree q) (put_written a b)
unfolding put_written
put_written-IsTree q a none = search keeps_rules
put_written-IsTree q a (some b) = search change_access-Keeps

set_read-IsTree :
    (lib : Library) (q : ℤ) (file : Text) (a : ℕ) (bytes : ℤ) (buffer : Arg)
    → Keeps (IsTree q) (set_read lib file a bytes buffer)
unfolding set_read
set_read-IsTree lib q file a bytes buffer =
    search (keeps_rules, change_access-Keeps, put_read-IsTree)

set_written-IsTree :
    (lib : Library) (q : ℤ) (file : Text) (a : ℕ) (bytes : ℤ) (buffer : Arg)
    → Keeps (IsTree q) (set_written lib file a bytes buffer)
unfolding set_written
set_written-IsTree lib q file a bytes buffer =
    search (keeps_rules, change_access-Keeps, put_written-IsTree)

pub get_file_access-IsSound : (q p : ℤ) (file : Text) → Keeps (IsSound q) (get_file_access p file)
get_file_access-IsSound q p file =
    both q (get_file_access p file) (get_file_access-Keeps p file) (get_access-IsTree q p file)

pub open_access-IsSound :
    (q p : ℤ) (file time_stamp : Text) → Keeps (IsSound q) (open_access p file time_stamp)
unfolding open_access set_open_time
open_access-IsSound q p file time_stamp =
    both q (open_access p file time_stamp) (open_access-Keeps p file time_stamp)
      (search (keeps_rules, get_access-IsTree, change_access-Keeps, write_cache-Keeps) depth 8)

pub close_access-IsSound :
    (q p : ℤ) (file time_stamp : Text) → Keeps (IsSound q) (close_access p file time_stamp)
unfolding close_access set_close_time
close_access-IsSound q p file time_stamp =
    both q (close_access p file time_stamp) (close_access-Keeps p file time_stamp)
      (search (keeps_rules, get_access-IsTree, change_access-Keeps, or_clear-IsTree) depth 8)

pub read_access-IsSound :
    (lib : Library) (q p : ℤ) (file : Text) (bytes : ℤ) (buffer : Result Arg)
    → Keeps (IsSound q) (read_access lib p file bytes buffer)
unfolding read_access
read_access-IsSound lib q p file bytes buffer =
    both q (read_access lib p file bytes buffer) (read_access-Keeps lib p file bytes buffer)
      (search (keeps_rules, get_access-IsTree, set_read-IsTree) depth 8)

pub write_access-IsSound :
    (lib : Library) (q p : ℤ) (file : Text) (bytes : Result ℤ) (buffer : Result Arg)
    → Keeps (IsSound q) (write_access lib p file bytes buffer)
unfolding write_access
write_access-IsSound lib q p file bytes buffer =
    both q (write_access lib p file bytes buffer) (write_access-Keeps lib p file bytes buffer)
      (search (keeps_rules, get_access-IsTree, set_written-IsTree) depth 9)

pub ruleset sound_rules = (
  keeps_rules, to_process-IsSound, to_data_file-IsSound, set_executable-IsSound, set_thread-IsSound,
  set_process_current_dir-IsSound, set_command_line-IsSound, set_is_executed-IsSound,
  change_file-IsSound, get_file_access-IsSound, open_access-IsSound, close_access-IsSound,
  read_access-IsSound, write_access-IsSound,
)
