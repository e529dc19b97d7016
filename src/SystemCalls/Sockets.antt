-- ===== src/SystemCalls/Sockets.antt =====
-- survol/scripts/dockit.py: the classes for calls on sockets, pipes and sets of descriptors.
use survol.Base.{
  ℕ, Text, codes, starts_with, List, [], ◌∷◌, ◌++◌, map, Option, none, some, if◌then◌else◌, drop,
}
use survol.Batch.{BatchLetCore, Tracer, strace, ltrace, other}
use survol.Batch.Values.{Arg, nil, text, list, object, none_value, arg_eq, to_args}
use survol.Batch.Failure.{
  Result, ok, raised, type_error, attribute_error, name_error, unsupported_tracer,
}
use survol.World.{Library, DataFile}
use survol.World.Actions.{Action, Done, done, pure, raise, lift, modify, for_each, ◌>>=◌, ◌>>◌}
use survol.World.Paths.{split}
use survol.World.Objects.{change_file, items, args_list}
use survol.SystemCalls.{Made, made, file_arg, parsed_arg, item_of, ret_arg, stream_to_file}

-- The items that a `for` goes through.
unfoldable pub iterated : Arg → Result (List Arg)
iterated a = elim (items a) [ none ↦ raised type_error | some l ↦ ok l ]

-- The inner loop of `poll`: the name behind `fd=`, or the one of an earlier stream.
unfoldable pub find_fd : List Arg → Option Text → Result (Option Text)
find_fd [] fd_name = ok fd_name
find_fd (text s ∷ l) fd_name =
    let rest = find_fd l fd_name in
    if starts_with s (codes "fd=") then ok (some (drop 3 s)) else rest
find_fd (list m ∷ l) fd_name = raised attribute_error
find_fd (object m ∷ l) fd_name = raised attribute_error
find_fd (none_value ∷ l) fd_name = raised attribute_error

unfoldable pub fd_in_stream : Result (List Arg) → Option Text → Result (Option Text)
fd_in_stream (ok l) fd_name = find_fd l fd_name
fd_in_stream (raised e) fd_name = raised e

-- The outer loop; only the last name is used.
unfoldable pub fd_names : List Arg → Result (Option Text) → Result (Option Text)
fd_names [] name = name
fd_names (a ∷ l) (ok name) = fd_names l (fd_in_stream (iterated a) name)
fd_names (a ∷ l) (raised e) = raised e

unfoldable pub or_unbound : Option Text → Result Text
or_unbound none = raised name_error
or_unbound (some s) = ok s

-- `fdName.split(" ")`
unfoldable pub split_names : Arg → Result (List Text)
split_names (text s) = ok (split b' ' s)
split_names (list l) = raised attribute_error
split_names (object m) = raised attribute_error
split_names none_value = raised attribute_error

unfoldable pub flatten : List (List Arg) → List Arg
flatten [] = []
flatten (l ∷ ls) = l ++ flatten ls

unfoldable pub set_address : Arg → DataFile → DataFile
set_address a o = record o { socket_address = some a }

-- `arrPipes[i]`
unfoldable pub pipe_item : Arg → ℕ → Result Arg
pipe_item (text s) i = item_of (map (λ c. text (c ∷ [])) s) i
pipe_item (list l) i = item_of (args_list l) i
pipe_item (object m) i = raised type_error
pipe_item none_value i = raised type_error

module _ (lib : Library) where
  unfoldable pub poll_streams : BatchLetCore → List Arg → Action Made
  poll_streams c streams = do
    name ← lift (fd_names streams (ok none))
    fd_name ← lift (or_unbound name)
    file ← stream_to_file lib c (text fd_name)
    pure (made (list (to_args (file_arg file ∷ [])) ∷ []))

  unfoldable pub poll_strace : BatchLetCore → Arg → Action Made
  poll_strace c (list l) = poll_streams c (args_list l)
  poll_strace c (text s) = pure (made [])
  poll_strace c (object m) = pure (made [])
  poll_strace c none_value = pure (made [])

  unfoldable pub poll_by : Tracer → BatchLetCore → Arg → Action Made
  poll_by strace c streams = poll_strace c streams
  poll_by ltrace c streams = pure (made [])
  poll_by (other t) c streams = pure (made [])

  -- `BatchLetSys_poll`
  unfoldable pub poll_call : BatchLetCore → Action Made
  poll_call c = do streams ← lift (parsed_arg c 0); poll_by c.tracer c streams

  unfoldable pub file_of_name : BatchLetCore → Text → Action Arg
  file_of_name c name = do file ← stream_to_file lib c (text name); pure (file_arg file)

  unfoldable pub files_of_item : BatchLetCore → Arg → Action (List Arg)
  files_of_item c fd_name = do names ← lift (split_names fd_name); for_each names (file_of_name c)

  unfoldable pub files_of_items : BatchLetCore → Arg → Action Arg
  files_of_items c streams = do
    l ← lift (iterated streams)
    files ← for_each l (files_of_item c)
    pure (list (to_args (flatten files)))

  -- `ArrFdNameToArrString`
  unfoldable pub arr_fd_name_to_arr_string : BatchLetCore → Arg → Action Arg
  arr_fd_name_to_arr_string c streams =
      if arg_eq streams (text (codes "NULL")) then pure (list nil) else files_of_items c streams

  unfoldable pub files_of_arg : BatchLetCore → ℕ → Action Arg
  files_of_arg c i = do streams ← lift (parsed_arg c i); arr_fd_name_to_arr_string c streams

  unfoldable pub select_strace : BatchLetCore → Action Made
  select_strace c = do
    arr_read ← files_of_arg c 1
    arr_write ← files_of_arg c 2
    arr_except ← files_of_arg c 3
    pure (made (arr_read ∷ arr_write ∷ arr_except ∷ []))

  -- `BatchLetSys_select`
  unfoldable pub select_by : Tracer → BatchLetCore → Action Made
  select_by strace c = select_strace c
  select_by ltrace c = pure (made [])
  select_by (other t) c = raise unsupported_tracer

  unfoldable pub select_call : BatchLetCore → Action Made
  select_call c = select_by c.tracer c

  -- `BatchLetSys_socket`
  unfoldable pub socket_call : BatchLetCore → Action Made
  socket_call c = do file ← stream_to_file lib c (ret_arg c); pure (made (file_arg file ∷ []))

  -- The address is kept with strace only.
  unfoldable pub address_strace : BatchLetCore → Text → Action Done
  address_strace c file = do a ← lift (parsed_arg c 1); modify (change_file (set_address a) file)

  unfoldable pub keep_address : Tracer → BatchLetCore → Text → Action Done
  keep_address strace c file = address_strace c file
  keep_address ltrace c file = pure done
  keep_address (other t) c file = raise unsupported_tracer

  -- `BatchLetSys_connect` and `BatchLetSys_bind`
  unfoldable pub connect_call : BatchLetCore → Action Made
  connect_call c = do
    strm ← lift (parsed_arg c 0)
    file ← stream_to_file lib c strm
    keep_address c.tracer c file
    pure (made (file_arg file ∷ []))

  -- `BatchLetSys_pipe` and `BatchLetSys_pipe2`
  unfoldable pub pipe_call : BatchLetCore → Action Made
  pipe_call c = do
    pipes ← lift (parsed_arg c 0)
    strm0 ← lift (pipe_item pipes 0)
    file0 ← stream_to_file lib c strm0
    strm1 ← lift (pipe_item pipes 1)
    file1 ← stream_to_file lib c strm1
    pure (made (file_arg file0 ∷ file_arg file1 ∷ []))

-- `BatchLetSys_setsockopt`
unfoldable pub setsockopt_call : BatchLetCore → Action Made
setsockopt_call c = pure (made (ret_arg c ∷ []))
