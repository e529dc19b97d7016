-- ===== src/World/Accesses/Tests.antt =====
-- Runs of `GetFileAccess` and `SetCloseTime`.
use survol.Base.{ℕ, ◌+◌, ◌<◌, ◌≤◌, codes, [], length, pos, lookup, ◌≡◌}
use survol.Batch.Failure.{ok}
use survol.World.{World, first_world}
use survol.World.Actions.{done}
use survol.World.Accesses.{cached_access, cached_files, get_file_access, open_access, close_access}
use survol.World.Accesses.Cached.{IsCached}
use survol.World.Accesses.Opened.{
  IsLooked, get_file_access-IsLooked, get_file_access-again, get_file_access-bounds,
  close_access-fresh, open_access-Keeps,
}

first-IsCached : IsCached (first_world [])
unfolding cached_access cached_files lookup
first-IsCached = record { open_access = λ p file a e. cc (e) }

-- The process 7 has opened a file.
abbrev opened_world : World
opened_world = (open_access (pos 7) (codes "/a") (codes "08:00") (first_world [])).0

opened-IsCached : IsCached opened_world
opened-IsCached =
    (open_access-Keeps (pos 7) (codes "/a") (codes "08:00")).at (first_world []) first-IsCached

close_access-fresh_example :
    (w' : World) × (close_access (pos 7) (codes "/a") (codes "08:01") opened_world ≡ (w', ok done))
    × IsCached w'
    × ((get_file_access (pos 7) (codes "/a") w').1 ≡ ok (length w'.accesses))
close_access-fresh_example =
    close_access-fresh (pos 7) (codes "/a") (codes "08:01") opened_world opened-IsCached

get_file_access-bounds_example :
    (w' : World) × (a : ℕ) × (get_file_access (pos 7) (codes "/b") opened_world ≡ (w', ok a))
    × (a < length w'.accesses)
    × (length opened_world.accesses ≤ length w'.accesses)
    × (length w'.accesses ≤ length opened_world.accesses + 1)
get_file_access-bounds_example =
    get_file_access-bounds (pos 7) (codes "/b") opened_world opened-IsCached

abbrev looked : IsLooked (pos 7) (codes "/b") opened_world
looked = get_file_access-IsLooked (pos 7) (codes "/b") opened_world opened-IsCached

get_file_access-again_example :
    get_file_access (pos 7) (codes "/b") looked.world ≡ (looked.world, ok looked.access)
get_file_access-again_example =
    get_file_access-again (pos 7) (codes "/b") opened_world looked.world looked.access
      opened-IsCached looked.runs
