-- ===== src/World/Objects/Tests.antt =====
-- Runs of the tree of processes.
use survol.Base.{[], none, pos, lookup, All, List, ℤ, ◌≡◌, ◌≢◌, ◌∙◌, sym, ap, int_eq}
use survol.Batch.Failure.{ok}
use survol.World.{first_world}
use survol.World.Objects.{attribute, parent_of}
use survol.World.Objects.Trees.{IsForest}
use survol.World.Objects.Created.{IsMade, to_process-IsMade}
use survol.World.Objects.Tops.{get_top_processes, get_top_processes-parentless}

first-IsForest : IsForest (first_world [])
unfolding attribute lookup
first-IsForest = record { linked = λ p r e. cc (e) }

abbrev first_process : IsMade (pos 3) (first_world [])
first_process = to_process-IsMade (pos 3) (first_world []) first-IsForest

abbrev second_process : IsMade (pos 5) first_process.world
second_process = to_process-IsMade (pos 5) first_process.world first_process.forest

second-processes : second_process.world.processes ≢ []
unfolding lookup
second-processes e =
    let known = second_process.here in
    let none_there = sym (ap (λ m. lookup (pos 5) m) e) ∙ known.found in cc (none_there)

get_top_processes-parentless_example :
    (ps : List ℤ) × (get_top_processes second_process.world ≡ ok ps)
    × All (λ p. parent_of p second_process.world ≡ none) ps
get_top_processes-parentless_example =
    get_top_processes-parentless second_process.world second_process.forest second-processes
