-- ===== src/SystemCalls/Files.antt =====
-- survol/scripts/dockit.py: the classes for system calls on files and memory.
use survol.Base.{
  ℕ, Text, codes, [], ◌∷◌, Option, none, some, Bool, true, false, ◌||◌, ◌==◌, if◌then◌else◌, ℤ,
}
use survol.Batch.{BatchLetCore, Tracer, strace, ltrace, other}
use survol.Batch.Values.{Arg, nil, cons, text, list, object, none_value, arg_eq}
use survol.Batch.Failure.{
  Result, ok, raised, type_error, index_error, attribute_error, invalid_directory,
  unsupported_tracer,
}
use survol.World.{Library}
use survol.World.Actions.{Action, pure, raise, lift, gets, modify, ◌>>=◌, ◌>>◌}
use survol.World.Numbers.{parse_int_or_none}
use survol.World.Paths.{
  invalid_returned_file_descriptor, as_pattern_text, has_text, to_abs_path, has_scheme, is_standard,
  stream_to_pathname,
}
use survol.World.Objects.{process_current_dir, set_process_current_dir}
use survol.World.Accesses.{
  open_access, close_access, read_access, write_access, get_file_access, is_value_error,
}
use survol.SystemCalls.{
  Made, made, dropped, file_arg, parsed_arg, ret_arg, ret_has, object_process, name_descriptor,
  accessed_file, stream_to_file, stream_name,
}

-- The end of a constructor that opens a file.
unfoldable pub open_end : BatchLetCore → Text → Action Made
open_end c file = do
  p ← object_process c
  open_access p file c.time_start
  pure (made (file_arg file ∷ []))

-- `ToAbsPath(dirPath, filNam)`, where `none` stands for an object, which cannot be put before a name.
unfoldable pub abs_path_at : Option Text → Text → Result Text
abs_path_at (some d) s = to_abs_path d s
abs_path_at none [] = raised index_error
abs_path_at none (c ∷ s) =
    if has_scheme false (c ∷ s) || is_standard (c ∷ s) || c == b'/'
    then to_abs_path [] (c ∷ s)
    else raised type_error

unfoldable pub abs_path_in : Arg → Text → Result Text
abs_path_in (text d) s = abs_path_at (some d) s
abs_path_in (list l) s = abs_path_at none s
abs_path_in (object m) s = abs_path_at none s
abs_path_in none_value s = abs_path_at none s

-- A number, the end of the constructor if a text is no number, or another exception.
unfoldable pub or_dropped : Result ℤ → (ℤ → Action Made) → Action Made
or_dropped (ok bytes) f = f bytes
or_dropped (raised e) f = if is_value_error e then pure dropped else raise e

-- `ConvertBatchCoreRetValue`
unfoldable pub convert_ret_value : Tracer → Option Text → Result ℤ
convert_ret_value ltrace ret = parse_int_or_none 16 ret
convert_ret_value strace ret = parse_int_or_none 10 ret
convert_ret_value (other t) ret = raised unsupported_tracer

unfoldable pub convert_batch_core_ret_value : BatchLetCore → Result ℤ
convert_batch_core_ret_value c = convert_ret_value c.tracer c.ret_value

-- `m_parsedArgs[i].find(t) >= 0`
unfoldable pub text_of_arg_has : Arg → Text → Result Bool
text_of_arg_has (text s) t = ok (has_text s t)
text_of_arg_has (list l) t = raised attribute_error
text_of_arg_has (object m) t = raised attribute_error
text_of_arg_has none_value t = raised attribute_error

unfoldable pub item_has : Result Arg → Text → Result Bool
item_has (ok a) t = text_of_arg_has a t
item_has (raised e) t = raised e

unfoldable pub arg_has : BatchLetCore → ℕ → Text → Result Bool
arg_has c i t = item_has (parsed_arg c i) t

-- The directory of `newfstatat`, which must not be empty.
unfoldable pub current_path : BatchLetCore → Action Arg
current_path c = do p ← object_process c; d ← gets (process_current_dir p); pure (text d)

unfoldable pub is_empty_arg : Arg → Bool
is_empty_arg (text []) = true
is_empty_arg (text (c ∷ s)) = false
is_empty_arg (list nil) = true
is_empty_arg (list (cons a l)) = false
is_empty_arg (object m) = false
is_empty_arg none_value = true

unfoldable pub named_directory : Arg → Action Arg
named_directory dir = do
  names ← gets (λ w. w.path_names)
  d ← lift (stream_to_pathname names dir)
  if is_empty_arg d then raise invalid_directory else pure d

module _ (lib : Library) where
  -- The file of `open`: the one that strace shows behind the descriptor, or the argument, which the
  -- descriptor is a name of from now on.
  unfoldable pub open_file : BatchLetCore → Tracer → Action Text
  open_file c strace = stream_to_file lib c (ret_arg c)
  open_file c ltrace = do
    path_name ← lift (parsed_arg c 0)
    modify (name_descriptor c.ret_value path_name)
    accessed_file lib c path_name
  open_file c (other t) = raise unsupported_tracer

  unfoldable pub open_valid : BatchLetCore → Action Made
  open_valid c = do file ← open_file c c.tracer; open_end c file

  -- `BatchLetSys_open`
  unfoldable pub open_call : BatchLetCore → Action Made
  open_call c = do
    invalid ← lift (invalid_returned_file_descriptor c.ret_value c.tracer)
    if invalid then pure dropped else open_valid c

  -- The directory of `openat` with ltrace. That of a descriptor is an object and no text.
  unfoldable pub current_directory : BatchLetCore → Action (Option Text)
  current_directory c = do p ← object_process c; d ← gets (process_current_dir p); pure (some d)

  unfoldable pub descriptor_directory : BatchLetCore → Arg → Action (Option Text)
  descriptor_directory c dir = do stream_to_file lib c dir; pure none

  unfoldable pub at_directory : BatchLetCore → Arg → Action (Option Text)
  at_directory c dir =
      if arg_eq dir (text (codes "AT_FDCWD"))
      then current_directory c
      else descriptor_directory c dir

  unfoldable pub openat_named : BatchLetCore → Action Text
  openat_named c = do
    dir ← lift (parsed_arg c 0)
    dir_path ← at_directory c dir
    arg ← lift (parsed_arg c 1)
    name ← lift (as_pattern_text arg)
    path_name ← lift (abs_path_at dir_path name)
    modify (name_descriptor c.ret_value (text path_name))
    accessed_file lib c (text path_name)

  unfoldable pub openat_file : BatchLetCore → Tracer → Action Text
  openat_file c strace = stream_to_file lib c (ret_arg c)
  openat_file c ltrace = openat_named c
  openat_file c (other t) = raise unsupported_tracer

  -- `BatchLetSys_openat`
  unfoldable pub openat_call : BatchLetCore → Action Made
  openat_call c = do file ← openat_file c c.tracer; open_end c file

  -- `BatchLetSys_close`
  unfoldable pub close_valid : BatchLetCore → Action Made
  close_valid c = do
    file ← stream_name lib c 0
    p ← object_process c
    close_access p file c.time_end
    pure (made (file_arg file ∷ []))

  unfoldable pub close_call : BatchLetCore → Action Made
  close_call c = do
    bad ← lift (ret_has c (codes "EBADF"))
    if bad then pure dropped else close_valid c

  -- `BatchLetSys_read`; a return value that is no number gives no call.
  unfoldable pub read_bytes : BatchLetCore → ℤ → Action Made
  read_bytes c bytes = do
    file ← stream_name lib c 0
    p ← object_process c
    read_access lib p file bytes (parsed_arg c 1)
    pure (made (file_arg file ∷ []))

  unfoldable pub read_call : BatchLetCore → Action Made
  read_call c = or_dropped (parse_int_or_none 10 c.ret_value) (λ bytes. read_bytes c bytes)

  -- `BatchLetSys_preadx`, which calls `SetRead` without the buffer.
  unfoldable pub preadx_call : BatchLetCore → Action Made
  preadx_call c = do
    bytes ← lift (convert_batch_core_ret_value c)
    file ← stream_name lib c 0
    p ← object_process c
    get_file_access p file
    raise type_error

  -- `BatchLetSys_pread64x`
  unfoldable pub pread64x_call : BatchLetCore → Action Made
  pread64x_call c = do bytes ← lift (convert_batch_core_ret_value c); read_bytes c bytes

  -- `BatchLetSys_write` and `BatchLetSys_writev`, whose content is not processed.
  unfoldable pub write_bytes : BatchLetCore → Result Arg → Action Made
  write_bytes c buffer = do
    file ← stream_name lib c 0
    p ← object_process c
    write_access lib p file (parse_int_or_none 10 c.ret_value) buffer
    pure (made (file_arg file ∷ []))

  unfoldable pub write_call : BatchLetCore → Action Made
  write_call c = write_bytes c (parsed_arg c 1)

  unfoldable pub writev_call : BatchLetCore → Action Made
  writev_call c = write_bytes c (ok none_value)

  -- `BatchLetSys_ioctl`, where the slice `m_parsedArgs[1:0]` is empty.
  unfoldable pub ioctl_valid : BatchLetCore → Action Made
  ioctl_valid c = do
    strm ← lift (parsed_arg c 0)
    file ← stream_to_file lib c strm
    pure (made (file_arg file ∷ []))

  unfoldable pub ioctl_call : BatchLetCore → Action Made
  ioctl_call c = do
    bad ← lift (ret_has c (codes "EBADF"))
    if bad then pure dropped else ioctl_valid c

  -- `BatchLetSys_lstat` and `BatchLetSys_access`
  unfoldable pub access_call : BatchLetCore → Action Made
  access_call c = do
    path_name ← lift (parsed_arg c 0)
    file ← accessed_file lib c path_name
    pure (made (file_arg file ∷ []))

  -- `BatchLetSys_stat`
  unfoldable pub stat_call : BatchLetCore → Action Made
  stat_call c = do
    invalid ← lift (invalid_returned_file_descriptor c.ret_value c.tracer)
    if invalid then pure dropped else access_call c

  -- `BatchLetSys_dup`
  unfoldable pub dup_call : BatchLetCore → Action Made
  dup_call c = do
    file ← stream_name lib c 0
    copy ← stream_to_file lib c (ret_arg c)
    pure (made (file_arg file ∷ file_arg copy ∷ []))

  -- `BatchLetSys_mmap` and `BatchLetSys_mmap2`; anonymous maps are left out.
  unfoldable pub mapped_file : BatchLetCore → Action Made
  mapped_file c = do file ← stream_name lib c 4; pure (made (file_arg file ∷ []))

  unfoldable pub not_minus_one : BatchLetCore → Action Made
  not_minus_one c = do
    fd_arg ← lift (parsed_arg c 4)
    if arg_eq fd_arg (text (codes "-1")) then pure dropped else mapped_file c

  unfoldable pub mmap_call : BatchLetCore → Action Made
  mmap_call c = do
    anonymous ← lift (arg_has c 3 (codes "MAP_ANONYMOUS"))
    if anonymous then pure dropped else not_minus_one c

  unfoldable pub mmap2_call : BatchLetCore → Action Made
  mmap2_call c = do
    anonymous ← lift (arg_has c 3 (codes "MAP_ANONYMOUS"))
    if anonymous then pure dropped else mapped_file c

  -- `BatchLetSys_fstat`
  unfoldable pub fstat_valid : BatchLetCore → Action Made
  fstat_valid c = do file ← stream_name lib c 0; pure (made (file_arg file ∷ []))

  unfoldable pub fstat_call : BatchLetCore → Action Made
  fstat_call c = do
    bad ← lift (ret_has c (codes "EBADF"))
    if bad then pure dropped else fstat_valid c

  -- `BatchLetSys_fchdir`
  unfoldable pub fchdir_call : BatchLetCore → Action Made
  fchdir_call c = do
    file ← stream_name lib c 0
    p ← object_process c
    set_process_current_dir p file
    pure (made (file_arg file ∷ []))

  -- `BatchLetSys_newfstatat`
  unfoldable pub stat_directory : BatchLetCore → Arg → Action Arg
  stat_directory c dir =
      if arg_eq dir (text (codes "AT_FDCWD")) then current_path c else named_directory dir

  unfoldable pub newfstatat_call : BatchLetCore → Action Made
  newfstatat_call c = do
    dir ← lift (parsed_arg c 0)
    dir_path ← stat_directory c dir
    arg ← lift (parsed_arg c 1)
    name ← lift (as_pattern_text arg)
    path_name ← lift (abs_path_in dir_path name)
    file ← accessed_file lib c (text path_name)
    pure (made (file_arg file ∷ []))

-- `BatchLetSys_munmap` and `BatchLetSys_exit_group`
unfoldable pub no_argument_call : BatchLetCore → Action Made
no_argument_call c = pure (made [])
