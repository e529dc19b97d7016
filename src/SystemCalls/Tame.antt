-- ===== src/SystemCalls/Tame.antt =====
-- No constructor of a class of `G_batchModels` raises one of the exceptions of `MergePopBatch`, so that
-- the factory pairs the two halves of every interrupted call.
pub mod Results
pub mod Actions
pub mod Streams
pub mod Files
pub mod Processes
pub mod Sockets
use survol.Base.{
  ℕ, Text, codes, text_eq, text_eq_iff, List, [], ◌∷◌, ◌++◌, map, Option, none, some, Bool, false,
  Bool-cases, ℤ, pos, Dict, text_eq_instance, lookup, All, All-append, ◌≡◌, ◌∙◌, sym, refl, ap,
  subst, inl, inr, arith,
}
use survol.Batch.{BatchLetCore}
use survol.Batch.Calls.{SameCallKind, by_arguments, never}
use survol.Batch.Failure.{Failure, Result, ok, raised}
use survol.Factory.{Construct, Model, Models, raises}
use survol.World.{World, Library}
use survol.World.Actions.{Action}
use survol.Factory.Pairing.{is_sanity, IsTame, AllTame, IsWell, NoSanityFailure, feed-IsFine}
use survol.SystemCalls.Tame.Results.{Harmless}
use survol.SystemCalls.Tame.Actions.{Tame}
use survol.SystemCalls.{Made, made, dropped, process_of, stream_call}
use survol.SystemCalls.Table.{
  to_construct, call_model, sys, ignored_syscalls, ignored_models, file_models, process_models,
  stream_models, batch_models,
}
use survol.SystemCalls.Files.{
  open_call, openat_call, close_call, read_call, preadx_call, pread64x_call, write_call,
  writev_call, ioctl_call, stat_call, access_call, dup_call, mmap_call, mmap2_call,
  no_argument_call, fstat_call, fchdir_call, newfstatat_call,
}
use survol.SystemCalls.Tame.Files.{
  open_call-Tame, openat_call-Tame, close_call-Tame, read_call-Tame, preadx_call-Tame,
  pread64x_call-Tame, write_call-Tame, writev_call-Tame, ioctl_call-Tame, stat_call-Tame,
  access_call-Tame, dup_call-Tame, mmap_call-Tame, mmap2_call-Tame, no_argument_call-Tame,
  fstat_call-Tame, fchdir_call-Tame, newfstatat_call-Tame,
}
use survol.SystemCalls.Processes.{
  clone_call, vfork_call, execve_call, libc_start_main_call, wait4_call, getenv_call,
}
use survol.SystemCalls.Tame.Processes.{
  clone_call-Tame, vfork_call-Tame, execve_call-Tame, libc_start_main_call-Tame, wait4_call-Tame,
  getenv_call-Tame,
}
use survol.SystemCalls.Sockets.{
  poll_call, select_call, setsockopt_call, socket_call, connect_call, pipe_call,
}
use survol.SystemCalls.Tame.Sockets.{
  poll_call-Tame, select_call-Tame, setsockopt_call-Tame, socket_call-Tame, connect_call-Tame,
  pipe_call-Tame,
}
use survol.SystemCalls.Tame.Streams.{stream_call-Tame}

abbrev IsTameEntry : Text × Option (Model World) → Type 0
IsTameEntry (f, none) = Unit
IsTameEntry (f, some m) = IsTame m

to_construct-raises :
    (kind : SameCallKind) (w : World) (r : Result Made) (e : Failure)
    → Harmless r
    → (to_construct kind (w, r)).1 ≡ raises e
    → is_sanity e ≡ false
unfolding to_construct
to_construct-raises kind w (ok (made args)) e h z = cc (z)
to_construct-raises kind w (ok dropped) e h z = cc (z)
to_construct-raises kind w (raised x) e h z =
    let same : x ≡ e = ground (arith, z) in subst (λ (y : Failure). is_sanity y ≡ false) same h

model-IsTame :
    (kind : SameCallKind) (call : BatchLetCore → Action Made)
    → ((c : BatchLetCore) → Tame (call c))
    → IsTame (call_model kind call)
model-IsTame kind call k =
    λ w c e z. let (w', r) = call c w in to_construct-raises kind w' r e ((k c).at w) z

vfork-IsTame :
    IsTame (record (call_model never vfork_call) { resumed_without_unfinished_is_ok = Bool.true })
vfork-IsTame = model-IsTame never vfork_call vfork_call-Tame

start-IsTame :
    (lib : Library)
    → IsTame (record (call_model never (libc_start_main_call lib)) { unfinished_is_ok = Bool.true })
start-IsTame lib = model-IsTame never (libc_start_main_call lib) (libc_start_main_call-Tame lib)

ignored-All : (l : List Text) → All IsTameEntry (map (λ name. (name ++ codes "@SYS", none)) l)
ignored-All [] = tt
ignored-All (t ∷ l) = (tt, ignored-All l)

module _ (lib : Library) where
  file_models-All : All IsTameEntry (file_models lib)
  file_models-All = (
    model-IsTame by_arguments (open_call lib) (open_call-Tame lib),
    (
      model-IsTame by_arguments (openat_call lib) (openat_call-Tame lib),
      (
        model-IsTame by_arguments (close_call lib) (close_call-Tame lib),
        (
          model-IsTame by_arguments (read_call lib) (read_call-Tame lib),
          (
            model-IsTame by_arguments (preadx_call lib) (preadx_call-Tame lib),
            (
              model-IsTame by_arguments (pread64x_call lib) (pread64x_call-Tame lib),
              (
                model-IsTame by_arguments (write_call lib) (write_call-Tame lib),
                (
                  model-IsTame by_arguments (writev_call lib) (writev_call-Tame lib),
                  (
                    model-IsTame by_arguments (ioctl_call lib) (ioctl_call-Tame lib),
                    (
                      model-IsTame by_arguments (stat_call lib) (stat_call-Tame lib),
                      (
                        model-IsTame by_arguments (access_call lib) (access_call-Tame lib),
                        (
                          model-IsTame by_arguments (access_call lib) (access_call-Tame lib),
                          (
                            model-IsTame by_arguments (dup_call lib) (dup_call-Tame lib),
                            (
                              model-IsTame by_arguments (stream_call lib 0)
                                  (stream_call-Tame lib 0),
                              (
                                model-IsTame by_arguments (mmap_call lib) (mmap_call-Tame lib),
                                (
                                  model-IsTame by_arguments (no_argument_call)
                                      (no_argument_call-Tame),
                                  (
                                    model-IsTame by_arguments (mmap2_call lib)
                                        (mmap2_call-Tame lib),
                                    (
                                      model-IsTame by_arguments (fstat_call lib)
                                          (fstat_call-Tame lib),
                                      (
                                        model-IsTame by_arguments (stream_call lib 0)
                                            (stream_call-Tame lib 0),
                                        (
                                          model-IsTame by_arguments (stream_call lib 0)
                                              (stream_call-Tame lib 0),
                                          (
                                            model-IsTame by_arguments (stream_call lib 0)
                                                (stream_call-Tame lib 0),
                                            (
                                              model-IsTame by_arguments (fchdir_call lib)
                                                  (fchdir_call-Tame lib),
                                              (
                                                model-IsTame by_arguments (stream_call lib 0)
                                                    (stream_call-Tame lib 0),
                                                (
                                                  model-IsTame by_arguments (stream_call lib 0)
                                                      (stream_call-Tame lib 0),
                                                  (
                                                    model-IsTame by_arguments (stream_call lib 0)
                                                        (stream_call-Tame lib 0),
                                                    (
                                                      model-IsTame by_arguments (stream_call lib 0)
                                                          (stream_call-Tame lib 0),
                                                      (
                                                        model-IsTame by_arguments
                                                            (stream_call lib 0)
                                                            (stream_call-Tame lib 0),
                                                        (
                                                          model-IsTame by_arguments
                                                            (stream_call lib 0)
                                                            (stream_call-Tame lib 0),
                                                          tt,
                                                        ),
                                                      ),
                                                    ),
                                                  ),
                                                ),
                                              ),
                                            ),
                                          ),
                                        ),
                                      ),
                                    ),
                                  ),
                                ),
                              ),
                            ),
                          ),
                        ),
                      ),
                    ),
                  ),
                ),
              ),
            ),
          ),
        ),
      ),
    ),
  )

  process_models-All : All IsTameEntry (process_models lib)
  process_models-All = (
    model-IsTame never (clone_call) (clone_call-Tame),
    (
      vfork-IsTame,
      (
        model-IsTame never (execve_call lib) (execve_call-Tame lib),
        (
          start-IsTame lib,
          (
            model-IsTame by_arguments (wait4_call) (wait4_call-Tame),
            (
              model-IsTame by_arguments (no_argument_call) (no_argument_call-Tame),
              (
                model-IsTame by_arguments (newfstatat_call lib) (newfstatat_call-Tame lib),
                (model-IsTame by_arguments (getenv_call) (getenv_call-Tame), tt),
              ),
            ),
          ),
        ),
      ),
    ),
  )

  stream_models-All : All IsTameEntry (stream_models lib)
  stream_models-All = (
    model-IsTame by_arguments (stream_call lib 0) (stream_call-Tame lib 0),
    (
      model-IsTame by_arguments (stream_call lib 0) (stream_call-Tame lib 0),
      (
        model-IsTame by_arguments (stream_call lib 0) (stream_call-Tame lib 0),
        (
          model-IsTame by_arguments (stream_call lib 0) (stream_call-Tame lib 0),
          (
            model-IsTame by_arguments (stream_call lib 0) (stream_call-Tame lib 0),
            (
              model-IsTame by_arguments (stream_call lib 0) (stream_call-Tame lib 0),
              (
                model-IsTame by_arguments (stream_call lib 0) (stream_call-Tame lib 0),
                (
                  model-IsTame by_arguments (stream_call lib 0) (stream_call-Tame lib 0),
                  (
                    model-IsTame by_arguments (poll_call lib) (poll_call-Tame lib),
                    (
                      model-IsTame by_arguments (select_call lib) (select_call-Tame lib),
                      (
                        model-IsTame by_arguments (setsockopt_call) (setsockopt_call-Tame),
                        (
                          model-IsTame by_arguments (socket_call lib) (socket_call-Tame lib),
                          (
                            model-IsTame by_arguments (connect_call lib) (connect_call-Tame lib),
                            (
                              model-IsTame by_arguments (connect_call lib) (connect_call-Tame lib),
                              (
                                model-IsTame by_arguments (stream_call lib 0)
                                    (stream_call-Tame lib 0),
                                (
                                  model-IsTame by_arguments (pipe_call lib) (pipe_call-Tame lib),
                                  (
                                    model-IsTame by_arguments (pipe_call lib) (pipe_call-Tame lib),
                                    (
                                      model-IsTame by_arguments (stream_call lib 0)
                                          (stream_call-Tame lib 0),
                                      tt,
                                    ),
                                  ),
                                ),
                              ),
                            ),
                          ),
                        ),
                      ),
                    ),
                  ),
                ),
              ),
            ),
          ),
        ),
      ),
    ),
  )

  models-All : All IsTameEntry (batch_models lib)
  unfolding batch_models
  models-All =
      All-append IsTameEntry ignored_models
        (file_models lib ++ (process_models lib ++ stream_models lib))
        (ignored-All ignored_syscalls)
        (All-append IsTameEntry (file_models lib) (process_models lib ++ stream_models lib)
          file_models-All
          (All-append IsTameEntry (process_models lib) (stream_models lib) process_models-All
            stream_models-All))

lookup-IsTame :
    (l : Models World) (f : Text) (m : Model World)
    → All IsTameEntry l
    → lookup f l ≡ some (some m)
    → IsTame m
unfolding lookup
lookup-IsTame [] f m h e = cc (e)
lookup-IsTame ((g, o) ∷ l) f m (h, hs) e = elim (Bool-cases (text_eq g f)) [
  | inl b ↦
      let z : o ≡ some m = ground (arith, b, e) in
      subst (λ (x : Option (Model World)). IsTameEntry (g, x)) z h
  | inr n ↦ let z : lookup f l ≡ some (some m) = ground (arith, n, e) in lookup-IsTame l f m hs z
]

pub batch_models-AllTame : (lib : Library) → AllTame (batch_models lib)
batch_models-AllTame lib f m e = lookup-IsTame (batch_models lib) f m (models-All lib) e
