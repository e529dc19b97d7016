-- ===== src/SystemCalls/Sound/Files.antt =====
-- The constructors of the calls on files keep the invariant of the globals.
use survol.Base.{Text, ℤ, text_eq_instance}
use survol.Batch.{BatchLetCore, Tracer, strace, ltrace, other}
use survol.Batch.Values.{Arg}
use survol.Batch.Failure.{Result, ok, raised}
use survol.World.{Library}
use survol.World.Actions.{Action}
use survol.World.Keeps.{Keeps}
use survol.World.Sound.{IsSound}
use survol.SystemCalls.{Made}
use survol.SystemCalls.Sound.Streams.{stream_rules}
use survol.World.Numbers.{parse_int_or_none}
use survol.SystemCalls.Files.{
  access_call, at_directory, close_call, close_valid, current_directory, current_path,
  descriptor_directory, dup_call, fchdir_call, fstat_call, fstat_valid, ioctl_call, ioctl_valid,
  mapped_file, mmap2_call, mmap_call, named_directory, newfstatat_call, no_argument_call,
  not_minus_one, open_call, open_end, open_file, open_valid, openat_call, openat_file, openat_named,
  or_dropped, pread64x_call, preadx_call, read_bytes, read_call, stat_call, stat_directory,
  write_bytes, write_call, writev_call,
}

module _ (q : ℤ) where
  pub open_end-IsSound : (c : BatchLetCore) (file : Text) → Keeps (IsSound q) (open_end c file)
  unfolding open_end
  open_end-IsSound c file = search (stream_rules) depth 12

  pub current_path-IsSound : (c : BatchLetCore) → Keeps (IsSound q) (current_path c)
  unfolding current_path
  current_path-IsSound c = search (stream_rules) depth 12

  pub named_directory-IsSound : (dir : Arg) → Keeps (IsSound q) (named_directory dir)
  unfolding named_directory
  named_directory-IsSound dir = search (stream_rules) depth 12

  pub no_argument_call-IsSound : (c : BatchLetCore) → Keeps (IsSound q) (no_argument_call c)
  unfolding no_argument_call
  no_argument_call-IsSound c = search (stream_rules) depth 12

module _ (lib : Library) (q : ℤ) where
  pub open_file-IsSound : (c : BatchLetCore) (t : Tracer) → Keeps (IsSound q) (open_file lib c t)
  unfolding open_file
  open_file-IsSound c strace = search (stream_rules) depth 12
  open_file-IsSound c ltrace = search (stream_rules) depth 12
  open_file-IsSound c (other s) = search (stream_rules) depth 12

  pub open_valid-IsSound : (c : BatchLetCore) → Keeps (IsSound q) (open_valid lib c)
  unfolding open_valid
  open_valid-IsSound c = search (stream_rules, open_end-IsSound, open_file-IsSound) depth 12

  pub open_call-IsSound : (c : BatchLetCore) → Keeps (IsSound q) (open_call lib c)
  unfolding open_call
  open_call-IsSound c = search (stream_rules, open_valid-IsSound) depth 12

  pub current_directory-IsSound : (c : BatchLetCore) → Keeps (IsSound q) (current_directory lib c)
  unfolding current_directory
  current_directory-IsSound c = search (stream_rules) depth 12

  pub descriptor_directory-IsSound :
      (c : BatchLetCore) (dir : Arg) → Keeps (IsSound q) (descriptor_directory lib c dir)
  unfolding descriptor_directory
  descriptor_directory-IsSound c dir = search (stream_rules) depth 12

  pub at_directory-IsSound :
      (c : BatchLetCore) (dir : Arg) → Keeps (IsSound q) (at_directory lib c dir)
  unfolding at_directory
  at_directory-IsSound c dir =
      search (stream_rules, current_directory-IsSound, descriptor_directory-IsSound) depth 12

  pub openat_named-IsSound : (c : BatchLetCore) → Keeps (IsSound q) (openat_named lib c)
  unfolding openat_named
  openat_named-IsSound c = search (stream_rules, at_directory-IsSound) depth 12

  pub openat_file-IsSound :
      (c : BatchLetCore) (t : Tracer) → Keeps (IsSound q) (openat_file lib c t)
  unfolding openat_file
  openat_file-IsSound c strace = search (stream_rules) depth 12
  openat_file-IsSound c ltrace = search (stream_rules, openat_named-IsSound) depth 12
  openat_file-IsSound c (other s) = search (stream_rules) depth 12

  pub openat_call-IsSound : (c : BatchLetCore) → Keeps (IsSound q) (openat_call lib c)
  unfolding openat_call
  openat_call-IsSound c = search (stream_rules, openat_file-IsSound, open_end-IsSound) depth 12

  pub close_valid-IsSound : (c : BatchLetCore) → Keeps (IsSound q) (close_valid lib c)
  unfolding close_valid
  close_valid-IsSound c = search (stream_rules) depth 12

  pub close_call-IsSound : (c : BatchLetCore) → Keeps (IsSound q) (close_call lib c)
  unfolding close_call
  close_call-IsSound c = search (stream_rules, close_valid-IsSound) depth 12

  pub read_bytes-IsSound :
      (c : BatchLetCore) (bytes : ℤ) → Keeps (IsSound q) (read_bytes lib c bytes)
  unfolding read_bytes
  read_bytes-IsSound c bytes = search (stream_rules) depth 12

  or_dropped-IsSound :
      (r : Result ℤ) (f : ℤ → Action Made)
      → ((n : ℤ) → Keeps (IsSound q) (f n))
      → Keeps (IsSound q) (or_dropped r f)
  unfolding or_dropped
  or_dropped-IsSound (ok n) f k = k n
  or_dropped-IsSound (raised e) f k = search stream_rules

  pub read_call-IsSound : (c : BatchLetCore) → Keeps (IsSound q) (read_call lib c)
  unfolding read_call
  read_call-IsSound c =
      or_dropped-IsSound (parse_int_or_none 10 c.ret_value) (λ n. read_bytes lib c n)
        (read_bytes-IsSound c)

  pub preadx_call-IsSound : (c : BatchLetCore) → Keeps (IsSound q) (preadx_call lib c)
  unfolding preadx_call
  preadx_call-IsSound c = search (stream_rules) depth 12

  pub pread64x_call-IsSound : (c : BatchLetCore) → Keeps (IsSound q) (pread64x_call lib c)
  unfolding pread64x_call
  pread64x_call-IsSound c = search (stream_rules, read_bytes-IsSound) depth 12

  pub write_bytes-IsSound :
      (c : BatchLetCore) (buffer : Result Arg) → Keeps (IsSound q) (write_bytes lib c buffer)
  unfolding write_bytes
  write_bytes-IsSound c buffer = search (stream_rules) depth 12

  pub write_call-IsSound : (c : BatchLetCore) → Keeps (IsSound q) (write_call lib c)
  unfolding write_call
  write_call-IsSound c = search (stream_rules, write_bytes-IsSound) depth 12

  pub writev_call-IsSound : (c : BatchLetCore) → Keeps (IsSound q) (writev_call lib c)
  unfolding writev_call
  writev_call-IsSound c = search (stream_rules, write_bytes-IsSound) depth 12

  pub ioctl_valid-IsSound : (c : BatchLetCore) → Keeps (IsSound q) (ioctl_valid lib c)
  unfolding ioctl_valid
  ioctl_valid-IsSound c = search (stream_rules) depth 12

  pub ioctl_call-IsSound : (c : BatchLetCore) → Keeps (IsSound q) (ioctl_call lib c)
  unfolding ioctl_call
  ioctl_call-IsSound c = search (stream_rules, ioctl_valid-IsSound) depth 12

  pub access_call-IsSound : (c : BatchLetCore) → Keeps (IsSound q) (access_call lib c)
  unfolding access_call
  access_call-IsSound c = search (stream_rules) depth 12

  pub stat_call-IsSound : (c : BatchLetCore) → Keeps (IsSound q) (stat_call lib c)
  unfolding stat_call
  stat_call-IsSound c = search (stream_rules, access_call-IsSound) depth 12

  pub dup_call-IsSound : (c : BatchLetCore) → Keeps (IsSound q) (dup_call lib c)
  unfolding dup_call
  dup_call-IsSound c = search (stream_rules) depth 12

  pub mapped_file-IsSound : (c : BatchLetCore) → Keeps (IsSound q) (mapped_file lib c)
  unfolding mapped_file
  mapped_file-IsSound c = search (stream_rules) depth 12

  pub not_minus_one-IsSound : (c : BatchLetCore) → Keeps (IsSound q) (not_minus_one lib c)
  unfolding not_minus_one
  not_minus_one-IsSound c = search (stream_rules, mapped_file-IsSound) depth 12

  pub mmap_call-IsSound : (c : BatchLetCore) → Keeps (IsSound q) (mmap_call lib c)
  unfolding mmap_call
  mmap_call-IsSound c = search (stream_rules, not_minus_one-IsSound) depth 12

  pub mmap2_call-IsSound : (c : BatchLetCore) → Keeps (IsSound q) (mmap2_call lib c)
  unfolding mmap2_call
  mmap2_call-IsSound c = search (stream_rules, mapped_file-IsSound) depth 12

  pub fstat_valid-IsSound : (c : BatchLetCore) → Keeps (IsSound q) (fstat_valid lib c)
  unfolding fstat_valid
  fstat_valid-IsSound c = search (stream_rules) depth 12

  pub fstat_call-IsSound : (c : BatchLetCore) → Keeps (IsSound q) (fstat_call lib c)
  unfolding fstat_call
  fstat_call-IsSound c = search (stream_rules, fstat_valid-IsSound) depth 12

  pub fchdir_call-IsSound : (c : BatchLetCore) → Keeps (IsSound q) (fchdir_call lib c)
  unfolding fchdir_call
  fchdir_call-IsSound c = search (stream_rules) depth 12

  pub stat_directory-IsSound :
      (c : BatchLetCore) (dir : Arg) → Keeps (IsSound q) (stat_directory lib c dir)
  unfolding stat_directory
  stat_directory-IsSound c dir =
      search (stream_rules, current_path-IsSound, named_directory-IsSound) depth 12

  pub newfstatat_call-IsSound : (c : BatchLetCore) → Keeps (IsSound q) (newfstatat_call lib c)
  unfolding newfstatat_call
  newfstatat_call-IsSound c = search (stream_rules, stat_directory-IsSound) depth 12
