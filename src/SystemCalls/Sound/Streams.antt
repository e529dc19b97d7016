-- ===== src/SystemCalls/Sound/Streams.antt =====
-- The parts of the constructors keep the invariant of the globals.
use survol.Base.{ℕ, Text, Option, none, some, ℤ, refl, text_eq_instance}
use survol.Batch.{BatchLetCore}
use survol.Batch.Values.{Arg}
use survol.World.{Library}
use survol.World.Actions.{modify}
use survol.World.Keeps.{Keeps}
use survol.World.Sound.{IsSound, elsewhere}
use survol.World.Sound.Files.{sound_rules, change_file-IsSound}
use survol.SystemCalls.{
  object_process, name_descriptor, accessed_file, stream_to_file, stream_name, stream_call,
}

pub object_process-IsSound : (q : ℤ) (c : BatchLetCore) → Keeps (IsSound q) (object_process c)
unfolding object_process
object_process-IsSound q c = search sound_rules

pub name_descriptor-IsSound :
    (q : ℤ) (s : Option Text) (path : Arg) → Keeps (IsSound q) (modify (name_descriptor s path))
unfolding name_descriptor
name_descriptor-IsSound q none path =
    elsewhere q (name_descriptor none path) (λ w. refl)
      (λ w. record { same_accesses = refl; same_cache = refl })
name_descriptor-IsSound q (some s) path =
    elsewhere q (name_descriptor (some s) path) (λ w. refl)
      (λ w. record { same_accesses = refl; same_cache = refl })

module _ (lib : Library) (q : ℤ) where
  pub accessed_file-IsSound :
      (c : BatchLetCore) (path_name : Arg) → Keeps (IsSound q) (accessed_file lib c path_name)
  unfolding accessed_file
  accessed_file-IsSound c path_name = search sound_rules

  pub stream_to_file-IsSound :
      (c : BatchLetCore) (strm : Arg) → Keeps (IsSound q) (stream_to_file lib c strm)
  unfolding stream_to_file
  stream_to_file-IsSound c strm = search sound_rules

  pub stream_name-IsSound : (c : BatchLetCore) (idx : ℕ) → Keeps (IsSound q) (stream_name lib c idx)
  unfolding stream_name
  stream_name-IsSound c idx = search (sound_rules, stream_to_file-IsSound)

  pub stream_call-IsSound : (idx : ℕ) (c : BatchLetCore) → Keeps (IsSound q) (stream_call lib idx c)
  unfolding stream_call
  stream_call-IsSound idx c = search (sound_rules, stream_name-IsSound)

pub ruleset stream_rules = (
  sound_rules, object_process-IsSound, name_descriptor-IsSound, accessed_file-IsSound,
  stream_to_file-IsSound, stream_name-IsSound,
)
