-- ===== src/World/Accesses.antt =====
-- survol/scripts/dockit.py: `FileAccess`, from the first use of a file by a process up to its `close`.
-- An access is named by its place in the order of creation.
pub mod Cached
pub mod Opened
mod Tests
use survol.Base.{
  ℕ, suc, ◌+◌, ltb, Text, List, [], ◌∷◌, ◌++◌, Option, none, some, Bool, true, false, if◌then◌else◌,
  length, get_elem?, set, ℤ, pos, negsuc, ◌+ℤ◌, Dict, int_eq, text_eq_instance, lookup, insert,
  remove,
}
use survol.Batch.Values.{Arg, text, list, object, none_value, nil, cons}
use survol.Batch.Failure.{Failure, Result, key_error, value_error, system_exit}
use survol.Buffers.{BufferConcatenator, Scanners, new_concatenator, append_io_buffer}
use survol.World.{World, Process, DataFile, FileAccess, Library, new_access}
use survol.World.Actions.{
  Action, Done, done, pure, raise, gets, modify, lift, try_except, ◌>>=◌, ◌>>◌,
}
use survol.World.Objects.{change_process, change_file, is_plain_file}

-- The attributes of one access.
unfoldable pub change_access : (FileAccess → FileAccess) → ℕ → World → World
change_access f a w = elim (get_elem? w.accesses a) [
  | none ↦ w
  | some o ↦ record w { accesses = set w.accesses a (f o) }
]

-- `G_cacheFileAccesses[objProcess]`, empty if there is none.
unfoldable pub cached_files : Dict ℤ (Dict Text ℕ) → ℤ → Dict Text ℕ
cached_files cache p = elim (lookup p cache) [ none ↦ [] | some m ↦ m ]

-- `G_cacheFileAccesses[objProcess][objDataFile]`
unfoldable pub cached_access : ℤ → Text → World → Option ℕ
unfolding cached_files
cached_access p file w = lookup file (cached_files w.cache p)

unfoldable pub write_cache : ℤ → Text → ℕ → World → World
unfolding cached_files
write_cache p file a w = record w {
  cache = insert p (insert file a (cached_files w.cache p)) w.cache;
}

unfoldable pub clear_cache : ℤ → Text → World → World
unfolding cached_files
clear_cache p file w = record w { cache = insert p (remove file (cached_files w.cache p)) w.cache }

-- `FileAccess(objProcess, objDataFile)`, which also appends to the lists of both objects.
unfoldable pub append_access : ℤ → Text → World → World
append_access p file w =
    let a = length w.accesses in
    let w' = record w { accesses = w.accesses ++ new_access p file ∷ [] } in
    change_file (λ o. record o { accesses = o.accesses ++ a ∷ [] }) file
      (change_process (λ o. record o { accesses = o.accesses ++ a ∷ [] }) p w')

unfoldable pub or_make_access : Option ℕ → ℤ → Text → Action ℕ
or_make_access (some a) p file = pure a
or_make_access none p file = do
  a ← gets (λ w. length w.accesses)
  modify (append_access p file)
  modify (write_cache p file a)
  pure a

-- `LookupFileAccess`, which `GetFileAccess` calls.
unfoldable pub get_file_access : ℤ → Text → Action ℕ
get_file_access p file = do known ← gets (cached_access p file); or_make_access known p file

-- `<` of two texts
unfoldable pub text_lt : Text → Text → Bool
text_lt s [] = false
text_lt [] (d ∷ t) = true
text_lt (c ∷ s) (d ∷ t) =
    let rest = text_lt s t in if ltb c d then true else if ltb d c then false else rest

-- The time stamp that is kept: the first one, or an earlier one.
unfoldable pub earlier : Text → Option Text → Option Text
unfolding text_lt
earlier time_stamp none = some time_stamp
earlier time_stamp (some []) = some time_stamp
earlier time_stamp (some (c ∷ s)) =
    if text_lt time_stamp (c ∷ s) then some time_stamp else some (c ∷ s)

abbrev pub opened : Text → FileAccess → FileAccess
opened time_stamp o = record o {
  num_open = o.num_open + 1;
  open_time = earlier time_stamp o.open_time;
}

abbrev pub closed : Text → FileAccess → FileAccess
closed time_stamp o = record o { close_time = earlier time_stamp o.close_time }

-- `SetOpenTime`; the object knows its process and its file.
unfoldable pub set_open_time : ℤ → Text → ℕ → Text → Action Done
set_open_time p file a time_stamp = do
  modify (change_access (opened time_stamp) a)
  modify (write_cache p file a)

unfoldable pub or_clear : Option ℕ → ℤ → Text → Action Done
or_clear none p file = raise key_error
or_clear (some a) p file = modify (clear_cache p file)

-- `SetCloseTime`; the access leaves the cache, where it must be.
unfoldable pub set_close_time : ℤ → Text → ℕ → Text → Action Done
set_close_time p file a time_stamp = do
  modify (change_access (closed time_stamp) a)
  known ← gets (cached_access p file)
  or_clear known p file

-- A transfer of negative size is never a part of a message: its size is not that of the buffer.
unfoldable pub append_buffer : Scanners → ℤ → Text → Option BufferConcatenator → BufferConcatenator
unfolding append_io_buffer
append_buffer scanners (pos n) fragment none = append_io_buffer scanners new_concatenator fragment n
append_buffer scanners (pos n) fragment (some b) = append_io_buffer scanners b fragment n
append_buffer scanners (negsuc n) fragment none =
    append_io_buffer scanners new_concatenator fragment (suc (length fragment))
append_buffer scanners (negsuc n) fragment (some b) =
    append_io_buffer scanners b fragment (suc (length fragment))

-- `AnalyseNewBuffer` on the attribute of the reads or of the writes. An empty buffer and the one of a
-- plain file are not analysed; the buffer must be a text that can be decoded, or the program exits.
unfoldable pub new_buffer :
    Library → Text → ℤ → Arg → Option BufferConcatenator → Option (Option BufferConcatenator)
unfolding is_plain_file append_buffer
new_buffer lib file size none_value b = some b
new_buffer lib file size (text []) b = some b
new_buffer lib file size (text (c ∷ s)) b =
    if is_plain_file file then some b else elim (lib.decode (c ∷ s)) [
      | none ↦ none
      | some fragment ↦ some (some (append_buffer lib.scanners size fragment b))
    ]
new_buffer lib file size (object m) b = if is_plain_file file then some b else none
new_buffer lib file size (list l) b = elim l [
  | nil ↦ some b
  | cons a m ↦ if is_plain_file file then some b else none
]

abbrev pub count_read : ℤ → FileAccess → FileAccess
count_read bytes o = record o { num_reads = o.num_reads + 1; bytes_read = o.bytes_read +ℤ bytes }

abbrev pub count_written : ℤ → FileAccess → FileAccess
count_written bytes o = record o {
  num_writes = o.num_writes + 1;
  bytes_written = o.bytes_written +ℤ bytes;
}

unfoldable pub concat_of :
    (FileAccess → Option BufferConcatenator) → ℕ → World → Option BufferConcatenator
concat_of field a w = elim (get_elem? w.accesses a) [ none ↦ none | some o ↦ field o ]

-- The attribute of the reads or of the writes, once the buffer is analysed.
unfoldable pub put_read : ℕ → Option (Option BufferConcatenator) → Action Done
put_read a none = raise system_exit
put_read a (some b) = modify (change_access (λ o. record o { concat_read = b }) a)

unfoldable pub put_written : ℕ → Option (Option BufferConcatenator) → Action Done
put_written a none = raise system_exit
put_written a (some b) = modify (change_access (λ o. record o { concat_write = b }) a)

-- `SetRead(bytesRead, bufferRead)`
unfoldable pub set_read : Library → Text → ℕ → ℤ → Arg → Action Done
set_read lib file a bytes buffer = do
  modify (change_access (count_read bytes) a)
  b ← gets (concat_of (λ o. o.concat_read) a)
  put_read a (new_buffer lib file bytes buffer b)

-- `SetWritten(bytesWritten, bufferWrite)`
unfoldable pub set_written : Library → Text → ℕ → ℤ → Arg → Action Done
set_written lib file a bytes buffer = do
  modify (change_access (count_written bytes) a)
  b ← gets (concat_of (λ o. o.concat_write) a)
  put_written a (new_buffer lib file bytes buffer b)

-- The calls on a file, as the classes of `open`, `close`, `read` and `write` make them.
unfoldable pub open_access : ℤ → Text → Text → Action Done
open_access p file time_stamp = do a ← get_file_access p file; set_open_time p file a time_stamp

unfoldable pub close_access : ℤ → Text → Text → Action Done
close_access p file time_stamp = do a ← get_file_access p file; set_close_time p file a time_stamp

unfoldable pub read_access : Library → ℤ → Text → ℤ → Result Arg → Action Done
read_access lib p file bytes buffer = do
  a ← get_file_access p file
  b ← lift buffer
  set_read lib file a bytes b

unfoldable pub is_value_error : Failure → Bool
is_value_error value_error = true
is_value_error _ = false

-- A size that is no number is passed over.
unfoldable pub write_access : Library → ℤ → Text → Result ℤ → Result Arg → Action Done
write_access lib p file bytes buffer = do
  a ← get_file_access p file
  try_except is_value_error (do n ← lift bytes; b ← lift buffer; set_written lib file a n b)
      (pure done)
