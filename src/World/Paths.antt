-- ===== src/World/Paths.antt =====
-- survol/scripts/dockit.py: the names of files: `ToAbsPath`, `STraceStreamToPathname` and
-- `InvalidReturnedFileDescriptor`.
pub mod Normal
pub mod Idempotent
pub mod Category
mod Tests
use survol.Base.{
  ℕ, zero, suc, ◌+◌, ◌-◌, ◌==◌, ltb, leb, Text, codes, text_eq, starts_with, List, [], ◌∷◌, ◌++◌,
  Option, none, some, Bool, true, false, ◌&&◌, ◌||◌, if◌then◌else◌, length, get_elem?, take, drop,
  slice, ℤ, pos, negsuc, ◌+ℤ◌, Dict, text_eq_instance, lookup,
}
use survol.Batch.{Tracer, strace, ltrace, other}
use survol.Batch.Values.{Arg, text, list, object, none_value}
use survol.Batch.Calls.{join}
use survol.Batch.Failure.{
  Result, ok, raised, ◌>>=◌, attribute_error, index_error, type_error, unsupported_tracer,
}
use survol.CallArguments.{find}

-- `s.split(sep)`, for a separator of one character.
unfoldable pub add_char : ℕ → List Text → List Text
add_char c [] = (c ∷ []) ∷ []
add_char c (t ∷ ts) = (c ∷ t) ∷ ts

unfoldable pub split : ℕ → Text → List Text
unfolding add_char
split sep [] = [] ∷ []
split sep (c ∷ s) = let rest = split sep s in if c == sep then [] ∷ rest else add_char c rest

-- `s.find(t) >= 0`
unfoldable pub has_text : Text → Text → Bool
unfolding find
has_text s t = elim (find s t 0) [ none ↦ false | some i ↦ true ]

-- `re.match("^[0-9a-zA-Z_]+:", s)`; `seen` tells if a character has been read.
unfoldable pub is_word_char : ℕ → Bool
is_word_char c =
    (leb b'0' c && leb c b'9')
    || (leb b'a' c && leb c b'z')
    || (leb b'A' c && leb c b'Z')
    || c == b'_'

unfoldable pub has_scheme : Bool → Text → Bool
unfolding is_word_char
has_scheme seen [] = false
has_scheme seen (c ∷ s) =
    let rest = has_scheme true s in if is_word_char c then rest else seen && c == b':'

-- An index, with Python's count from the end for a negative one: `none` out of range.
unfoldable pub list_index : ℕ → ℤ → Option ℕ
list_index n (pos i) = if ltb i n then some i else none
list_index n (negsuc i) = if ltb i n then some (n - (i + 1)) else none

-- A bound of a slice, cut to the list.
unfoldable pub list_bound : ℕ → ℤ → ℕ
list_bound n (pos i) = if leb i n then i else n
list_bound n (negsuc i) = n - (i + 1)

unfoldable pub item_at : List Text → ℤ → Option Text
item_at l i = elim (list_index (length l) i) [ none ↦ none | some k ↦ get_elem? l k ]

-- `del l[i:j]`
unfoldable pub del_slice : List Text → ℤ → ℤ → List Text
unfolding list_bound
del_slice l i j =
    let a = list_bound (length l) i in
    let b = list_bound (length l) j in if leb a b then take a l ++ drop b l else l

unfoldable pub lt_int : ℤ → ℤ → Bool
lt_int (pos m) (pos n) = ltb m n
lt_int (pos m) (negsuc n) = false
lt_int (negsuc m) (pos n) = true
lt_int (negsuc m) (negsuc n) = ltb n m

-- The loop of `ToAbsPath`, with its variables `splitSlash`, `ix` and `lenSplt`, for `fuel` rounds.
unfoldable pub abs_loop : ℕ → List Text → ℤ → ℤ → Result (List Text)
abs_loop zero split_slash ix len_splt = ok split_slash
abs_loop (suc fuel) split_slash ix len_splt =
    let up =
      abs_loop fuel (del_slice split_slash (ix +ℤ negsuc 0) (ix +ℤ pos 1)) (ix +ℤ negsuc 0)
        (len_splt +ℤ negsuc 1) in
    let same = abs_loop fuel (del_slice split_slash ix (ix +ℤ pos 1)) ix (len_splt +ℤ negsuc 0) in
    let next = abs_loop fuel split_slash (ix +ℤ pos 1) len_splt in
    if lt_int ix len_splt
    then elim (item_at split_slash ix) [
      | none ↦ raised index_error
      | some part ↦
          if text_eq part (codes "..")
          then up
          else if text_eq part (codes ".") || text_eq part []
          then same
          else next
    ]
    else ok split_slash

-- The body of `ToAbsPath` behind the first tests: the parts of the path without "." and "..". The
-- distance from `ix` to `lenSplt` falls by one in each round.
unfoldable pub abs_parts : Text → Result Text
abs_parts full_path = do
  let parts = split b'/' full_path
  kept ← abs_loop (length parts) parts (pos 1) (pos (length parts))
  ok (join (codes "/") kept)

-- `fullPath`
unfoldable pub full_path : Text → Text → Text
full_path dir_path fil_nam =
    if starts_with fil_nam (codes "/")
    then fil_nam
    else if text_eq dir_path (codes ".") || text_eq dir_path []
    then fil_nam
    else dir_path ++ (codes "/" ++ fil_nam)

unfoldable pub is_standard : Text → Bool
is_standard s =
    text_eq s (codes "stdout") || text_eq s (codes "stdin") || text_eq s (codes "stderr")

-- `ToAbsPath(dirPath, filNam)`; `filNam[0]` fails on an empty name.
unfoldable pub to_abs_path : Text → Text → Result Text
to_abs_path dir_path [] = raised index_error
to_abs_path dir_path (c ∷ s) =
    if has_scheme false (c ∷ s) || is_standard (c ∷ s)
    then ok (c ∷ s)
    else abs_parts (full_path dir_path (c ∷ s))

-- The text that a method of `str` is called on; another object has no such method.
unfoldable pub as_text : Arg → Result Text
as_text (text s) = ok s
as_text (list l) = raised attribute_error
as_text (object m) = raised attribute_error
as_text none_value = raised attribute_error

-- The text that `re.match` reads; it refuses another object.
unfoldable pub as_pattern_text : Arg → Result Text
as_pattern_text (text s) = ok s
as_pattern_text (list l) = raised type_error
as_pattern_text (object m) = raised type_error
as_pattern_text none_value = raised type_error

-- `STraceStreamToPathname(strmStr)`, with `G_mapFilDesToPathName`.
unfoldable pub stream_to_pathname : Dict Text Arg → Arg → Result Arg
unfolding as_text
stream_to_pathname path_names strm = do
  s ← as_text strm
  elim (find s (codes "<") 0) [
    | some i ↦ ok (text (slice s (i + 1) (length s - 1)))
    | none ↦ elim (lookup s path_names) [
      | some path_name ↦ ok path_name
      | none ↦ ok (
          text (
            if text_eq s (codes "-1")
            then codes "Invalid device"
            else codes "UnknownFileDescr:" ++ s))
    ]
  ]

-- A method of the text `fileDes` is called; it may be None.
unfoldable pub or_none : Option Text → Result Text
or_none none = raised attribute_error
or_none (some s) = ok s

-- `InvalidReturnedFileDescriptor(fileDes, tracer)`
unfoldable pub invalid_returned_file_descriptor : Option Text → Tracer → Result Bool
invalid_returned_file_descriptor file_des strace = do
  s ← or_none file_des
  ok (has_text s (codes "ENOENT"))
invalid_returned_file_descriptor file_des ltrace = do
  s ← or_none file_des
  ok (has_text s (codes "-2"))
invalid_returned_file_descriptor file_des (other t) = raised unsupported_tracer
