-- ===== src/SystemCalls/Sound/Sockets.antt =====
-- The constructors of the calls on sockets keep the invariant of the globals.
use survol.Base.{ℕ, Text, List, ℤ, text_eq_instance}
use survol.Batch.{BatchLetCore, Tracer, strace, ltrace, other}
use survol.Batch.Values.{Arg, text, list, object, none_value}
use survol.World.{Library}
use survol.World.Actions.{for_each}
use survol.World.Keeps.{Keeps}
use survol.World.Sound.{IsSound}
use survol.SystemCalls.Sound.Streams.{stream_rules}
use survol.World.Keeps.{Keeps-for_each}
use survol.SystemCalls.Sockets.{
  address_strace, arr_fd_name_to_arr_string, connect_call, file_of_name, files_of_arg,
  files_of_item, files_of_items, keep_address, pipe_call, poll_by, poll_call, poll_strace,
  poll_streams, select_by, select_call, select_strace, setsockopt_call, socket_call, file_of_name,
}

module _ (q : ℤ) where
  pub setsockopt_call-IsSound : (c : BatchLetCore) → Keeps (IsSound q) (setsockopt_call c)
  unfolding setsockopt_call
  setsockopt_call-IsSound c = search (stream_rules) depth 12

module _ (lib : Library) (q : ℤ) where
  pub poll_streams-IsSound :
      (c : BatchLetCore) (streams : List Arg) → Keeps (IsSound q) (poll_streams lib c streams)
  unfolding poll_streams
  poll_streams-IsSound c streams = search (stream_rules) depth 12

  poll_strace-IsSound : (c : BatchLetCore) (a : Arg) → Keeps (IsSound q) (poll_strace lib c a)
  unfolding poll_strace
  poll_strace-IsSound c (list l) = search (stream_rules, poll_streams-IsSound)
  poll_strace-IsSound c (text s) = search stream_rules
  poll_strace-IsSound c (object m) = search stream_rules
  poll_strace-IsSound c none_value = search stream_rules

  poll_by-IsSound :
      (t : Tracer) (c : BatchLetCore) (a : Arg) → Keeps (IsSound q) (poll_by lib t c a)
  unfolding poll_by
  poll_by-IsSound strace c a = search (stream_rules, poll_strace-IsSound)
  poll_by-IsSound ltrace c a = search stream_rules
  poll_by-IsSound (other t) c a = search stream_rules

  pub poll_call-IsSound : (c : BatchLetCore) → Keeps (IsSound q) (poll_call lib c)
  unfolding poll_call
  poll_call-IsSound c = search (stream_rules, poll_by-IsSound) depth 12

  pub file_of_name-IsSound :
      (c : BatchLetCore) (name : Text) → Keeps (IsSound q) (file_of_name lib c name)
  unfolding file_of_name
  file_of_name-IsSound c name = search (stream_rules) depth 12

  names-IsSound :
      (c : BatchLetCore) (names : List Text)
      → Keeps (IsSound q) (for_each names (file_of_name lib c))
  names-IsSound c names = Keeps-for_each names (file_of_name lib c) (file_of_name-IsSound c)

  files_of_item-IsSound :
      (c : BatchLetCore) (fd_name : Arg) → Keeps (IsSound q) (files_of_item lib c fd_name)
  unfolding files_of_item
  files_of_item-IsSound c fd_name = search (stream_rules, names-IsSound)

  items-IsSound :
      (c : BatchLetCore) (l : List Arg) → Keeps (IsSound q) (for_each l (files_of_item lib c))
  items-IsSound c l = Keeps-for_each l (files_of_item lib c) (files_of_item-IsSound c)

  pub files_of_items-IsSound :
      (c : BatchLetCore) (streams : Arg) → Keeps (IsSound q) (files_of_items lib c streams)
  unfolding files_of_items
  files_of_items-IsSound c streams = search (stream_rules, items-IsSound) depth 12

  pub arr_fd_name_to_arr_string-IsSound :
      (c : BatchLetCore) (streams : Arg)
      → Keeps (IsSound q) (arr_fd_name_to_arr_string lib c streams)
  unfolding arr_fd_name_to_arr_string
  arr_fd_name_to_arr_string-IsSound c streams =
      search (stream_rules, files_of_items-IsSound) depth 12

  pub files_of_arg-IsSound : (c : BatchLetCore) (i : ℕ) → Keeps (IsSound q) (files_of_arg lib c i)
  unfolding files_of_arg
  files_of_arg-IsSound c i = search (stream_rules, arr_fd_name_to_arr_string-IsSound) depth 12

  pub select_strace-IsSound : (c : BatchLetCore) → Keeps (IsSound q) (select_strace lib c)
  unfolding select_strace
  select_strace-IsSound c = search (stream_rules, files_of_arg-IsSound) depth 12

  select_by-IsSound : (t : Tracer) (c : BatchLetCore) → Keeps (IsSound q) (select_by lib t c)
  unfolding select_by
  select_by-IsSound strace c = search (stream_rules, select_strace-IsSound)
  select_by-IsSound ltrace c = search stream_rules
  select_by-IsSound (other t) c = search stream_rules

  pub select_call-IsSound : (c : BatchLetCore) → Keeps (IsSound q) (select_call lib c)
  unfolding select_call
  select_call-IsSound c = search (stream_rules, select_by-IsSound) depth 12

  pub socket_call-IsSound : (c : BatchLetCore) → Keeps (IsSound q) (socket_call lib c)
  unfolding socket_call
  socket_call-IsSound c = search (stream_rules) depth 12

  pub address_strace-IsSound :
      (c : BatchLetCore) (file : Text) → Keeps (IsSound q) (address_strace lib c file)
  unfolding address_strace
  address_strace-IsSound c file = search (stream_rules) depth 12

  keep_address-IsSound :
      (t : Tracer) (c : BatchLetCore) (file : Text) → Keeps (IsSound q) (keep_address lib t c file)
  unfolding keep_address
  keep_address-IsSound strace c file = search (stream_rules, address_strace-IsSound)
  keep_address-IsSound ltrace c file = search stream_rules
  keep_address-IsSound (other t) c file = search stream_rules

  pub connect_call-IsSound : (c : BatchLetCore) → Keeps (IsSound q) (connect_call lib c)
  unfolding connect_call
  connect_call-IsSound c = search (stream_rules, keep_address-IsSound) depth 12

  pub pipe_call-IsSound : (c : BatchLetCore) → Keeps (IsSound q) (pipe_call lib c)
  unfolding pipe_call
  pipe_call-IsSound c = search (stream_rules) depth 12
