-- ===== src/SystemCalls/Tame/Files.antt =====
-- The constructors of the calls on files raise none of the exceptions of `MergePopBatch`.
use survol.Base.{Text, ℤ, text_eq_instance}
use survol.Batch.{BatchLetCore, Tracer, strace, ltrace, other}
use survol.Batch.Values.{Arg, none_value}
use survol.Batch.Failure.{Result, ok, raised}
use survol.World.{Library}
use survol.World.Actions.{Action}
use survol.SystemCalls.Tame.Results.{
  Harmless, as_pattern_text-Harmless, stream_to_pathname-Harmless, invalid-Harmless,
  parsed_arg-Harmless, ret_has-Harmless, parse_int_or_none-Harmless, abs_path_at-Harmless,
  abs_path_in-Harmless, convert-Harmless, arg_has-Harmless,
}
use survol.SystemCalls.Tame.Actions.{Tame, Tame-raise}
use survol.SystemCalls.Tame.Streams.{call_rules}
use survol.SystemCalls.{Made, parsed_arg}
use survol.World.Numbers.{parse_int_or_none}
use survol.SystemCalls.Files.{
  access_call, at_directory, close_call, close_valid, current_directory, current_path,
  descriptor_directory, dup_call, fchdir_call, fstat_call, fstat_valid, ioctl_call, ioctl_valid,
  mapped_file, mmap2_call, mmap_call, named_directory, newfstatat_call, no_argument_call,
  not_minus_one, open_call, open_end, open_file, open_valid, openat_call, openat_file, openat_named,
  or_dropped, pread64x_call, preadx_call, read_bytes, read_call, stat_call, stat_directory,
  write_bytes, write_call, writev_call,
}

module _ where
  pub open_end-Tame : (c : BatchLetCore) (file : Text) → Tame (open_end c file)
  unfolding open_end
  open_end-Tame c file = search (call_rules) depth 12

  pub current_path-Tame : (c : BatchLetCore) → Tame (current_path c)
  unfolding current_path
  current_path-Tame c = search (call_rules) depth 12

  pub named_directory-Tame : (dir : Arg) → Tame (named_directory dir)
  unfolding named_directory
  named_directory-Tame dir = search (call_rules, stream_to_pathname-Harmless, Tame-raise) depth 12

  pub no_argument_call-Tame : (c : BatchLetCore) → Tame (no_argument_call c)
  unfolding no_argument_call
  no_argument_call-Tame c = search (call_rules) depth 12

module _ (lib : Library) where
  pub open_file-Tame : (c : BatchLetCore) (t : Tracer) → Tame (open_file lib c t)
  unfolding open_file
  open_file-Tame c strace = search (call_rules) depth 12
  open_file-Tame c ltrace = search (call_rules) depth 12
  open_file-Tame c (other s) = search (call_rules, Tame-raise) depth 12

  pub open_valid-Tame : (c : BatchLetCore) → Tame (open_valid lib c)
  unfolding open_valid
  open_valid-Tame c = search (call_rules, open_end-Tame, open_file-Tame) depth 12

  pub open_call-Tame : (c : BatchLetCore) → Tame (open_call lib c)
  unfolding open_call
  open_call-Tame c = search (call_rules, invalid-Harmless, open_valid-Tame) depth 12

  pub current_directory-Tame : (c : BatchLetCore) → Tame (current_directory lib c)
  unfolding current_directory
  current_directory-Tame c = search (call_rules) depth 12

  pub descriptor_directory-Tame :
      (c : BatchLetCore) (dir : Arg) → Tame (descriptor_directory lib c dir)
  unfolding descriptor_directory
  descriptor_directory-Tame c dir = search (call_rules) depth 12

  pub at_directory-Tame : (c : BatchLetCore) (dir : Arg) → Tame (at_directory lib c dir)
  unfolding at_directory
  at_directory-Tame c dir =
      search (call_rules, current_directory-Tame, descriptor_directory-Tame) depth 12

  pub openat_named-Tame : (c : BatchLetCore) → Tame (openat_named lib c)
  unfolding openat_named
  openat_named-Tame c =
      search (call_rules, as_pattern_text-Harmless, abs_path_at-Harmless, at_directory-Tame) depth
        12

  pub openat_file-Tame : (c : BatchLetCore) (t : Tracer) → Tame (openat_file lib c t)
  unfolding openat_file
  openat_file-Tame c strace = search (call_rules) depth 12
  openat_file-Tame c ltrace = search (call_rules, openat_named-Tame) depth 12
  openat_file-Tame c (other s) = search (call_rules, Tame-raise) depth 12

  pub openat_call-Tame : (c : BatchLetCore) → Tame (openat_call lib c)
  unfolding openat_call
  openat_call-Tame c = search (call_rules, openat_file-Tame, open_end-Tame) depth 12

  pub close_valid-Tame : (c : BatchLetCore) → Tame (close_valid lib c)
  unfolding close_valid
  close_valid-Tame c = search (call_rules) depth 12

  pub close_call-Tame : (c : BatchLetCore) → Tame (close_call lib c)
  unfolding close_call
  close_call-Tame c = search (call_rules, ret_has-Harmless, close_valid-Tame) depth 12

  pub read_bytes-Tame : (c : BatchLetCore) (bytes : ℤ) → Tame (read_bytes lib c bytes)
  unfolding read_bytes
  read_bytes-Tame c bytes = search (call_rules) depth 12

  or_dropped-Tame :
      (r : Result ℤ) (f : ℤ → Action Made)
      → Harmless r
      → ((n : ℤ) → Tame (f n))
      → Tame (or_dropped r f)
  unfolding or_dropped
  or_dropped-Tame (ok n) f h k = k n
  or_dropped-Tame (raised e) f h k = search (call_rules, Tame-raise)

  pub read_call-Tame : (c : BatchLetCore) → Tame (read_call lib c)
  unfolding read_call
  read_call-Tame c =
      or_dropped-Tame (parse_int_or_none 10 c.ret_value) (λ n. read_bytes lib c n)
        (parse_int_or_none-Harmless 10 c.ret_value) (read_bytes-Tame c)

  pub preadx_call-Tame : (c : BatchLetCore) → Tame (preadx_call lib c)
  unfolding preadx_call
  preadx_call-Tame c = search (call_rules, convert-Harmless, Tame-raise) depth 12

  pub pread64x_call-Tame : (c : BatchLetCore) → Tame (pread64x_call lib c)
  unfolding pread64x_call
  pread64x_call-Tame c = search (call_rules, convert-Harmless, read_bytes-Tame) depth 12

  write_bytes-Tame :
      (c : BatchLetCore) (buffer : Result Arg) → Harmless buffer → Tame (write_bytes lib c buffer)
  unfolding write_bytes
  write_bytes-Tame c buffer h = search (call_rules, parse_int_or_none-Harmless) depth 12

  pub write_call-Tame : (c : BatchLetCore) → Tame (write_call lib c)
  unfolding write_call
  write_call-Tame c = write_bytes-Tame c (parsed_arg c 1) (parsed_arg-Harmless c 1)

  pub writev_call-Tame : (c : BatchLetCore) → Tame (writev_call lib c)
  unfolding writev_call
  writev_call-Tame c = write_bytes-Tame c (ok none_value) tt

  pub ioctl_valid-Tame : (c : BatchLetCore) → Tame (ioctl_valid lib c)
  unfolding ioctl_valid
  ioctl_valid-Tame c = search (call_rules) depth 12

  pub ioctl_call-Tame : (c : BatchLetCore) → Tame (ioctl_call lib c)
  unfolding ioctl_call
  ioctl_call-Tame c = search (call_rules, ret_has-Harmless, ioctl_valid-Tame) depth 12

  pub access_call-Tame : (c : BatchLetCore) → Tame (access_call lib c)
  unfolding access_call
  access_call-Tame c = search (call_rules) depth 12

  pub stat_call-Tame : (c : BatchLetCore) → Tame (stat_call lib c)
  unfolding stat_call
  stat_call-Tame c = search (call_rules, invalid-Harmless, access_call-Tame) depth 12

  pub dup_call-Tame : (c : BatchLetCore) → Tame (dup_call lib c)
  unfolding dup_call
  dup_call-Tame c = search (call_rules) depth 12

  pub mapped_file-Tame : (c : BatchLetCore) → Tame (mapped_file lib c)
  unfolding mapped_file
  mapped_file-Tame c = search (call_rules) depth 12

  pub not_minus_one-Tame : (c : BatchLetCore) → Tame (not_minus_one lib c)
  unfolding not_minus_one
  not_minus_one-Tame c = search (call_rules, mapped_file-Tame) depth 12

  pub mmap_call-Tame : (c : BatchLetCore) → Tame (mmap_call lib c)
  unfolding mmap_call
  mmap_call-Tame c = search (call_rules, arg_has-Harmless, not_minus_one-Tame) depth 12

  pub mmap2_call-Tame : (c : BatchLetCore) → Tame (mmap2_call lib c)
  unfolding mmap2_call
  mmap2_call-Tame c = search (call_rules, arg_has-Harmless, mapped_file-Tame) depth 12

  pub fstat_valid-Tame : (c : BatchLetCore) → Tame (fstat_valid lib c)
  unfolding fstat_valid
  fstat_valid-Tame c = search (call_rules) depth 12

  pub fstat_call-Tame : (c : BatchLetCore) → Tame (fstat_call lib c)
  unfolding fstat_call
  fstat_call-Tame c = search (call_rules, ret_has-Harmless, fstat_valid-Tame) depth 12

  pub fchdir_call-Tame : (c : BatchLetCore) → Tame (fchdir_call lib c)
  unfolding fchdir_call
  fchdir_call-Tame c = search (call_rules) depth 12

  pub stat_directory-Tame : (c : BatchLetCore) (dir : Arg) → Tame (stat_directory lib c dir)
  unfolding stat_directory
  stat_directory-Tame c dir = search (call_rules, current_path-Tame, named_directory-Tame) depth 12

  pub newfstatat_call-Tame : (c : BatchLetCore) → Tame (newfstatat_call lib c)
  unfolding newfstatat_call
  newfstatat_call-Tame c =
      search (call_rules, as_pattern_text-Harmless, abs_path_in-Harmless, stat_directory-Tame) depth
        12
