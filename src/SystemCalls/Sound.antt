-- ===== src/SystemCalls/Sound.antt =====
-- The constructor of every class of `G_batchModels` keeps the invariant of the globals.
pub mod Streams
pub mod Files
pub mod Processes
pub mod Sockets
use survol.Base.{
  ℕ, Text, codes, text_eq, text_eq_iff, List, [], ◌∷◌, ◌++◌, map, Option, none, some, Bool,
  Bool-cases, ℤ, pos, Dict, text_eq_instance, lookup, All, All-append, ◌≡◌, ◌∙◌, sym, refl, ap,
  subst, inl, inr, arith,
}
use survol.Batch.{BatchLetCore}
use survol.Batch.Calls.{SameCallKind, by_arguments, never}
use survol.Batch.Failure.{Result, ok, raised}
use survol.Factory.{Construct, Model, Models}
use survol.World.{World, Library}
use survol.World.Actions.{Action}
use survol.World.Keeps.{Keeps}
use survol.World.Sound.{IsSound}
use survol.SystemCalls.{Made, made, dropped, process_of, stream_call}
use survol.SystemCalls.Table.{
  to_construct, call_model, sys, ignored_syscalls, ignored_models, file_models, process_models,
  stream_models, batch_models,
}
use survol.SystemCalls.Files.{
  open_call, openat_call, close_call, read_call, preadx_call, pread64x_call, write_call,
  writev_call, ioctl_call, stat_call, access_call, dup_call, mmap_call, mmap2_call,
  no_argument_call, fstat_call, fchdir_call, newfstatat_call,
}
use survol.SystemCalls.Sound.Files.{
  open_call-IsSound, openat_call-IsSound, close_call-IsSound, read_call-IsSound,
  preadx_call-IsSound, pread64x_call-IsSound, write_call-IsSound, writev_call-IsSound,
  ioctl_call-IsSound, stat_call-IsSound, access_call-IsSound, dup_call-IsSound, mmap_call-IsSound,
  mmap2_call-IsSound, no_argument_call-IsSound, fstat_call-IsSound, fchdir_call-IsSound,
  newfstatat_call-IsSound,
}
use survol.SystemCalls.Processes.{
  clone_call, vfork_call, execve_call, libc_start_main_call, wait4_call, getenv_call,
}
use survol.SystemCalls.Sound.Processes.{
  clone_call-IsSound, vfork_call-IsSound, execve_call-IsSound, libc_start_main_call-IsSound,
  wait4_call-IsSound, getenv_call-IsSound,
}
use survol.SystemCalls.Sockets.{
  poll_call, select_call, setsockopt_call, socket_call, connect_call, pipe_call,
}
use survol.SystemCalls.Sound.Sockets.{
  poll_call-IsSound, select_call-IsSound, setsockopt_call-IsSound, socket_call-IsSound,
  connect_call-IsSound, pipe_call-IsSound,
}
use survol.SystemCalls.Sound.Streams.{stream_call-IsSound}

-- The constructor of the class keeps the invariant.
pub record KeepsSound (m : Model World) : Type 0 where
  pub at :
      (w : World) (c : BatchLetCore) (q : ℤ)
      → process_of c ≡ q
      → IsSound q w
      → IsSound q (m.construct w c).0

abbrev IsSoundEntry : Text × Option (Model World) → Type 0
IsSoundEntry (f, none) = Unit
IsSoundEntry (f, some m) = KeepsSound m

to_construct-world :
    (kind : SameCallKind) (w : World) (r : Result Made) → (to_construct kind (w, r)).0 ≡ w
unfolding to_construct
to_construct-world kind w (ok (made args)) = refl
to_construct-world kind w (ok dropped) = refl
to_construct-world kind w (raised e) = refl

model-KeepsSound :
    (kind : SameCallKind) (call : BatchLetCore → Action Made)
    → ((c : BatchLetCore) → Keeps (IsSound (process_of c)) (call c))
    → KeepsSound (call_model kind call)
model-KeepsSound kind call k = record {
  at = λ w c q e s.
      let s' = subst (λ (p : ℤ). IsSound p w) (sym e) s in
      let (w', r) = call c w in
      subst (λ (p : ℤ). IsSound p (to_construct kind (w', r)).0) e
        (rw (to_construct-world kind w' r) ((k c).at w s'));
}

vfork-KeepsSound :
    KeepsSound
      (record (call_model never vfork_call) { resumed_without_unfinished_is_ok = Bool.true })
vfork-KeepsSound = record { at = (model-KeepsSound never vfork_call vfork_call-IsSound).at }

start-KeepsSound :
    (lib : Library)
    → KeepsSound
        (record (call_model never (libc_start_main_call lib)) { unfinished_is_ok = Bool.true })
start-KeepsSound lib = record {
  at = (model-KeepsSound never (libc_start_main_call lib) (libc_start_main_call-IsSound lib)).at;
}

ignored-All : (l : List Text) → All IsSoundEntry (map (λ name. (name ++ codes "@SYS", none)) l)
ignored-All [] = tt
ignored-All (t ∷ l) = (tt, ignored-All l)

module _ (lib : Library) where
  file_models-All : All IsSoundEntry (file_models lib)
  file_models-All = (
    model-KeepsSound by_arguments (open_call lib) (λ c. open_call-IsSound lib (process_of c) c),
    (
      model-KeepsSound by_arguments (openat_call lib)
          (λ c. openat_call-IsSound lib (process_of c) c),
      (
        model-KeepsSound by_arguments (close_call lib)
            (λ c. close_call-IsSound lib (process_of c) c),
        (
          model-KeepsSound by_arguments (read_call lib)
              (λ c. read_call-IsSound lib (process_of c) c),
          (
            model-KeepsSound by_arguments (preadx_call lib)
                (λ c. preadx_call-IsSound lib (process_of c) c),
            (
              model-KeepsSound by_arguments (pread64x_call lib)
                  (λ c. pread64x_call-IsSound lib (process_of c) c),
              (
                model-KeepsSound by_arguments (write_call lib)
                    (λ c. write_call-IsSound lib (process_of c) c),
                (
                  model-KeepsSound by_arguments (writev_call lib)
                      (λ c. writev_call-IsSound lib (process_of c) c),
                  (
                    model-KeepsSound by_arguments (ioctl_call lib)
                        (λ c. ioctl_call-IsSound lib (process_of c) c),
                    (
                      model-KeepsSound by_arguments (stat_call lib)
                          (λ c. stat_call-IsSound lib (process_of c) c),
                      (
                        model-KeepsSound by_arguments (access_call lib)
                            (λ c. access_call-IsSound lib (process_of c) c),
                        (
                          model-KeepsSound by_arguments (access_call lib)
                              (λ c. access_call-IsSound lib (process_of c) c),
                          (
                            model-KeepsSound by_arguments (dup_call lib)
                                (λ c. dup_call-IsSound lib (process_of c) c),
                            (
                              model-KeepsSound by_arguments (stream_call lib 0)
                                  (λ c. stream_call-IsSound lib (process_of c) 0 c),
                              (
                                model-KeepsSound by_arguments (mmap_call lib)
                                    (λ c. mmap_call-IsSound lib (process_of c) c),
                                (
                                  model-KeepsSound by_arguments (no_argument_call)
                                      (λ c. no_argument_call-IsSound (process_of c) c),
                                  (
                                    model-KeepsSound by_arguments (mmap2_call lib)
                                        (λ c. mmap2_call-IsSound lib (process_of c) c),
                                    (
                                      model-KeepsSound by_arguments (fstat_call lib)
                                          (λ c. fstat_call-IsSound lib (process_of c) c),
                                      (
                                        model-KeepsSound by_arguments (stream_call lib 0)
                                            (λ c. stream_call-IsSound lib (process_of c) 0 c),
                                        (
                                          model-KeepsSound by_arguments (stream_call lib 0)
                                              (λ c. stream_call-IsSound lib (process_of c) 0 c),
                                          (
                                            model-KeepsSound by_arguments (stream_call lib 0)
                                                (λ c. stream_call-IsSound lib (process_of c) 0 c),
                                            (
                                              model-KeepsSound by_arguments (fchdir_call lib)
                                                  (λ c. fchdir_call-IsSound lib (process_of c) c),
                                              (
                                                model-KeepsSound by_arguments (stream_call lib 0)
                                                    (λ c.
                                                      stream_call-IsSound lib (process_of c) 0 c),
                                                (
                                                  model-KeepsSound by_arguments (stream_call lib 0)
                                                      (λ c.
                                                        stream_call-IsSound lib (process_of c) 0 c),
                                                  (
                                                    model-KeepsSound by_arguments
                                                        (stream_call lib 0)
                                                        (λ c.
                                                          stream_call-IsSound lib (process_of c) 0
                                                            c),
                                                    (
                                                      model-KeepsSound by_arguments
                                                          (stream_call lib 0)
                                                          (λ c.
                                                            stream_call-IsSound lib (process_of c) 0
                                                            c),
                                                      (
                                                        model-KeepsSound by_arguments
                                                            (stream_call lib 0)
                                                            (λ c.
                                                            stream_call-IsSound lib (process_of c) 0
                                                            c),
                                                        (
                                                          model-KeepsSound by_arguments
                                                            (stream_call lib 0)
                                                            (λ c.
                                                            stream_call-IsSound lib (process_of c) 0
                                                            c),
                                                          tt,
                                                        ),
                                                      ),
                                                    ),
                                                  ),
                                                ),
                                              ),
                                            ),
                                          ),
                                        ),
                                      ),
                                    ),
                                  ),
                                ),
                              ),
                            ),
                          ),
                        ),
                      ),
                    ),
                  ),
                ),
              ),
            ),
          ),
        ),
      ),
    ),
  )

  process_models-All : All IsSoundEntry (process_models lib)
  process_models-All = (
    model-KeepsSound never (clone_call) (clone_call-IsSound),
    (
      vfork-KeepsSound,
      (
        model-KeepsSound never (execve_call lib) (execve_call-IsSound lib),
        (
          start-KeepsSound lib,
          (
            model-KeepsSound by_arguments (wait4_call) (wait4_call-IsSound),
            (
              model-KeepsSound by_arguments (no_argument_call)
                  (λ c. no_argument_call-IsSound (process_of c) c),
              (
                model-KeepsSound by_arguments (newfstatat_call lib)
                    (λ c. newfstatat_call-IsSound lib (process_of c) c),
                (model-KeepsSound by_arguments (getenv_call) (getenv_call-IsSound), tt),
              ),
            ),
          ),
        ),
      ),
    ),
  )

  stream_models-All : All IsSoundEntry (stream_models lib)
  stream_models-All = (
    model-KeepsSound by_arguments (stream_call lib 0)
        (λ c. stream_call-IsSound lib (process_of c) 0 c),
    (
      model-KeepsSound by_arguments (stream_call lib 0)
          (λ c. stream_call-IsSound lib (process_of c) 0 c),
      (
        model-KeepsSound by_arguments (stream_call lib 0)
            (λ c. stream_call-IsSound lib (process_of c) 0 c),
        (
          model-KeepsSound by_arguments (stream_call lib 0)
              (λ c. stream_call-IsSound lib (process_of c) 0 c),
          (
            model-KeepsSound by_arguments (stream_call lib 0)
                (λ c. stream_call-IsSound lib (process_of c) 0 c),
            (
              model-KeepsSound by_arguments (stream_call lib 0)
                  (λ c. stream_call-IsSound lib (process_of c) 0 c),
              (
                model-KeepsSound by_arguments (stream_call lib 0)
                    (λ c. stream_call-IsSound lib (process_of c) 0 c),
                (
                  model-KeepsSound by_arguments (stream_call lib 0)
                      (λ c. stream_call-IsSound lib (process_of c) 0 c),
                  (
                    model-KeepsSound by_arguments (poll_call lib)
                        (λ c. poll_call-IsSound lib (process_of c) c),
                    (
                      model-KeepsSound by_arguments (select_call lib)
                          (λ c. select_call-IsSound lib (process_of c) c),
                      (
                        model-KeepsSound by_arguments (setsockopt_call)
                            (λ c. setsockopt_call-IsSound (process_of c) c),
                        (
                          model-KeepsSound by_arguments (socket_call lib)
                              (λ c. socket_call-IsSound lib (process_of c) c),
                          (
                            model-KeepsSound by_arguments (connect_call lib)
                                (λ c. connect_call-IsSound lib (process_of c) c),
                            (
                              model-KeepsSound by_arguments (connect_call lib)
                                  (λ c. connect_call-IsSound lib (process_of c) c),
                              (
                                model-KeepsSound by_arguments (stream_call lib 0)
                                    (λ c. stream_call-IsSound lib (process_of c) 0 c),
                                (
                                  model-KeepsSound by_arguments (pipe_call lib)
                                      (λ c. pipe_call-IsSound lib (process_of c) c),
                                  (
                                    model-KeepsSound by_arguments (pipe_call lib)
                                        (λ c. pipe_call-IsSound lib (process_of c) c),
                                    (
                                      model-KeepsSound by_arguments (stream_call lib 0)
                                          (λ c. stream_call-IsSound lib (process_of c) 0 c),
                                      tt,
                                    ),
                                  ),
                                ),
                              ),
                            ),
                          ),
                        ),
                      ),
                    ),
                  ),
                ),
              ),
            ),
          ),
        ),
      ),
    ),
  )

  models-All : All IsSoundEntry (batch_models lib)
  unfolding batch_models
  models-All =
      All-append IsSoundEntry ignored_models
        (file_models lib ++ (process_models lib ++ stream_models lib))
        (ignored-All ignored_syscalls)
        (All-append IsSoundEntry (file_models lib) (process_models lib ++ stream_models lib)
          file_models-All
          (All-append IsSoundEntry (process_models lib) (stream_models lib) process_models-All
            stream_models-All))

lookup-KeepsSound :
    (l : Models World) (f : Text) (m : Model World)
    → All IsSoundEntry l
    → lookup f l ≡ some (some m)
    → KeepsSound m
unfolding lookup
lookup-KeepsSound [] f m h e = cc (e)
lookup-KeepsSound ((g, o) ∷ l) f m (h, hs) e = elim (Bool-cases (text_eq g f)) [
  | inl b ↦
      let z : o ≡ some m = ground (arith, b, e) in
      subst (λ (x : Option (Model World)). IsSoundEntry (g, x)) z h
  | inr n ↦
      let z : lookup f l ≡ some (some m) = ground (arith, n, e) in lookup-KeepsSound l f m hs z
]

pub batch_models-KeepsSound :
    (lib : Library) (f : Text) (m : Model World)
    → lookup f (batch_models lib) ≡ some (some m)
    → KeepsSound m
batch_models-KeepsSound lib f m e = lookup-KeepsSound (batch_models lib) f m (models-All lib) e
