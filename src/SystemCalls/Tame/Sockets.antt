-- ===== src/SystemCalls/Tame/Sockets.antt =====
-- The constructors of the calls on sockets raise none of the exceptions of `MergePopBatch`.
use survol.Base.{ℕ, Text, List, text_eq_instance}
use survol.Batch.{BatchLetCore, Tracer, strace, ltrace, other}
use survol.Batch.Values.{Arg, text, list, object, none_value}
use survol.World.{Library}
use survol.World.Actions.{for_each}
use survol.SystemCalls.Tame.Results.{
  iterated-Harmless, fd_names-Harmless, or_unbound-Harmless, split_names-Harmless,
  pipe_item-Harmless,
}
use survol.SystemCalls.Tame.Actions.{Tame, Tame-raise, Tame-for_each}
use survol.SystemCalls.Tame.Streams.{call_rules}
use survol.SystemCalls.Sockets.{
  address_strace, arr_fd_name_to_arr_string, connect_call, file_of_name, files_of_arg,
  files_of_item, files_of_items, keep_address, pipe_call, poll_by, poll_call, poll_strace,
  poll_streams, select_by, select_call, select_strace, setsockopt_call, socket_call, file_of_name,
}

module _ where
  pub setsockopt_call-Tame : (c : BatchLetCore) → Tame (setsockopt_call c)
  unfolding setsockopt_call
  setsockopt_call-Tame c = search (call_rules) depth 12

module _ (lib : Library) where
  pub poll_streams-Tame :
      (c : BatchLetCore) (streams : List Arg) → Tame (poll_streams lib c streams)
  unfolding poll_streams
  poll_streams-Tame c streams = search (call_rules, fd_names-Harmless, or_unbound-Harmless) depth 12

  poll_strace-Tame : (c : BatchLetCore) (a : Arg) → Tame (poll_strace lib c a)
  unfolding poll_strace
  poll_strace-Tame c (list l) = search (call_rules, poll_streams-Tame)
  poll_strace-Tame c (text s) = search call_rules
  poll_strace-Tame c (object m) = search call_rules
  poll_strace-Tame c none_value = search call_rules

  poll_by-Tame : (t : Tracer) (c : BatchLetCore) (a : Arg) → Tame (poll_by lib t c a)
  unfolding poll_by
  poll_by-Tame strace c a = search (call_rules, poll_strace-Tame)
  poll_by-Tame ltrace c a = search call_rules
  poll_by-Tame (other t) c a = search (call_rules, Tame-raise)

  pub poll_call-Tame : (c : BatchLetCore) → Tame (poll_call lib c)
  unfolding poll_call
  poll_call-Tame c = search (call_rules, poll_by-Tame) depth 12

  pub file_of_name-Tame : (c : BatchLetCore) (name : Text) → Tame (file_of_name lib c name)
  unfolding file_of_name
  file_of_name-Tame c name = search (call_rules) depth 12

  names-Tame : (c : BatchLetCore) (names : List Text) → Tame (for_each names (file_of_name lib c))
  names-Tame c names = Tame-for_each names (file_of_name lib c) (file_of_name-Tame c)

  files_of_item-Tame : (c : BatchLetCore) (fd_name : Arg) → Tame (files_of_item lib c fd_name)
  unfolding files_of_item
  files_of_item-Tame c fd_name = search (call_rules, split_names-Harmless, names-Tame)

  items-Tame : (c : BatchLetCore) (l : List Arg) → Tame (for_each l (files_of_item lib c))
  items-Tame c l = Tame-for_each l (files_of_item lib c) (files_of_item-Tame c)

  pub files_of_items-Tame : (c : BatchLetCore) (streams : Arg) → Tame (files_of_items lib c streams)
  unfolding files_of_items
  files_of_items-Tame c streams = search (call_rules, iterated-Harmless, items-Tame) depth 12

  pub arr_fd_name_to_arr_string-Tame :
      (c : BatchLetCore) (streams : Arg) → Tame (arr_fd_name_to_arr_string lib c streams)
  unfolding arr_fd_name_to_arr_string
  arr_fd_name_to_arr_string-Tame c streams = search (call_rules, files_of_items-Tame) depth 12

  pub files_of_arg-Tame : (c : BatchLetCore) (i : ℕ) → Tame (files_of_arg lib c i)
  unfolding files_of_arg
  files_of_arg-Tame c i = search (call_rules, arr_fd_name_to_arr_string-Tame) depth 12

  pub select_strace-Tame : (c : BatchLetCore) → Tame (select_strace lib c)
  unfolding select_strace
  select_strace-Tame c = search (call_rules, files_of_arg-Tame) depth 12

  select_by-Tame : (t : Tracer) (c : BatchLetCore) → Tame (select_by lib t c)
  unfolding select_by
  select_by-Tame strace c = search (call_rules, select_strace-Tame)
  select_by-Tame ltrace c = search call_rules
  select_by-Tame (other t) c = search (call_rules, Tame-raise)

  pub select_call-Tame : (c : BatchLetCore) → Tame (select_call lib c)
  unfolding select_call
  select_call-Tame c = search (call_rules, select_by-Tame) depth 12

  pub socket_call-Tame : (c : BatchLetCore) → Tame (socket_call lib c)
  unfolding socket_call
  socket_call-Tame c = search (call_rules) depth 12

  pub address_strace-Tame : (c : BatchLetCore) (file : Text) → Tame (address_strace lib c file)
  unfolding address_strace
  address_strace-Tame c file = search (call_rules) depth 12

  keep_address-Tame :
      (t : Tracer) (c : BatchLetCore) (file : Text) → Tame (keep_address lib t c file)
  unfolding keep_address
  keep_address-Tame strace c file = search (call_rules, address_strace-Tame)
  keep_address-Tame ltrace c file = search call_rules
  keep_address-Tame (other t) c file = search (call_rules, Tame-raise)

  pub connect_call-Tame : (c : BatchLetCore) → Tame (connect_call lib c)
  unfolding connect_call
  connect_call-Tame c = search (call_rules, keep_address-Tame) depth 12

  pub pipe_call-Tame : (c : BatchLetCore) → Tame (pipe_call lib c)
  unfolding pipe_call
  pipe_call-Tame c = search (call_rules, pipe_item-Harmless) depth 12
