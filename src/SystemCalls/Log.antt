-- ===== src/SystemCalls/Log.antt =====
-- survol/scripts/dockit.py: the end of `ParseLine`, which enters the process of a line.
use survol.Base.{Text, [], ◌∷◌, Option, none, some, ℤ, lookup, ◌≡◌, refl, subst}
use survol.Batch.{BatchLetCore}
use survol.Batch.Failure.{Result, ok}
use survol.World.{World, Process, first_world}
use survol.World.Actions.{Action, Done, done, modify, ◌>>=◌, continue}
use survol.World.Objects.{attribute, change_process, to_process}
use survol.World.Objects.Trees.{IsForest}
use survol.World.Objects.Created.{to_process-IsMade}
use survol.World.Accesses.{cached_access, cached_files}
use survol.World.Accesses.Cached.{IsCached}
use survol.World.Sound.{to_process-IsCached-Keeps, IsSound, calm-IsSound}
use survol.SystemCalls.{process_of}

-- `if not self.m_objectProcess.CreationDate`
unfoldable pub created_at : Text → Option Text → Option Text
created_at time_start none = some time_start
created_at time_start (some []) = some time_start
created_at time_start (some (c ∷ s)) = some (c ∷ s)

abbrev pub with_creation : Text → Process → Process
with_creation time_start o = record o { creation_date = created_at time_start o.creation_date }

-- The end of `ParseLine`
unfoldable pub enter_process : BatchLetCore → Action Done
enter_process c = do
  p ← to_process (process_of c)
  modify (change_process (with_creation c.time_start) p)

-- Between two lines: the cache holds open accesses, and the processes form a forest.
pub record IsOrderly (w : World) : Type 0 where
  pub cached : IsCached w
  pub forest : IsForest w

-- What the end of `ParseLine` does: it raises nothing, and the globals are as a constructor wants them.
pub record IsEntered (c : BatchLetCore) (w : World) : Type 0 where
  pub world : World
  pub runs : enter_process c w ≡ (world, ok done)
  pub sound : IsSound (process_of c) world

enter_process-runs :
    (c : BatchLetCore) (w w' : World)
    → to_process (process_of c) w ≡ (w', ok (process_of c))
    → enter_process c w ≡ (change_process (with_creation c.time_start) (process_of c) w', ok done)
unfolding enter_process ◌>>=◌ modify continue
enter_process-runs c w w' e = rw e refl

modified :
    (f : Process → Process) (p : ℤ) (w : World)
    → IsSound p (modify (change_process f p) w).0
    → IsSound p (change_process f p w)
unfolding modify
modified f p w s = s

pub enter_process-IsEntered : (c : BatchLetCore) (w : World) → IsOrderly w → IsEntered c w
enter_process-IsEntered c w i =
    let p = process_of c in
    let m = to_process-IsMade p w i.forest in
    let cached : IsCached m.world =
      subst (λ (x : World × Result ℤ). IsCached x.0) m.runs
        ((to_process-IsCached-Keeps p).at w i.cached) in
    let s : IsSound p m.world = record {
      cached = cached;
      tree = record { forest = m.forest; known = m.here };
    } in
    let f : Process → Process = with_creation c.time_start in
    let calm =
      calm-IsSound p f p (record { keeps_parent = λ o. refl; keeps_sub_processes = λ o. refl }) in
    record {
      world = change_process f p m.world;
      runs = enter_process-runs c w m.world m.runs;
      sound = modified f p m.world (calm.at m.world s);
    }

-- It is so before the first line.
pub first_world-IsOrderly : (dir : Text) → IsOrderly (first_world dir)
unfolding cached_access cached_files attribute lookup
first_world-IsOrderly dir = record {
  cached = record { open_access = λ p file a e. cc (e) };
  forest = record { linked = λ p r e. cc (e) };
}
