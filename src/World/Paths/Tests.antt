-- ===== src/World/Paths/Tests.antt =====
-- Runs of `ToAbsPath`.
use survol.Base.{Text, codes, List, [], ◌∷◌, some, ◌≡◌, refl, ◌+ℤ◌, text_eq, starts_with}
use survol.Batch.Failure.{ok}
use survol.Batch.Calls.{join}
use survol.World.Paths.{
  to_abs_path, abs_parts, abs_loop, split, add_char, full_path, is_standard, has_scheme, del_slice,
  item_at, list_index, lt_int,
}
use survol.World.Paths.Normal.{resolve, to_abs_path-absolute}
use survol.World.Paths.Idempotent.{to_abs_path-again}

relative_path : to_abs_path (codes "/home") (codes "a/../b") ≡ ok (codes "/home/b")
unfolding to_abs_path abs_parts abs_loop split full_path is_standard has_scheme del_slice item_at
    list_index lt_int ◌+ℤ◌ join text_eq starts_with
relative_path = refl

-- Above the root the slash is lost.
above_root : to_abs_path (codes "/home") (codes "/../a") ≡ ok (codes "a")
unfolding to_abs_path abs_parts abs_loop split full_path is_standard has_scheme del_slice item_at
    list_index lt_int ◌+ℤ◌ join text_eq starts_with
above_root = refl

-- The root has no name.
root_path : to_abs_path (codes "/home") (codes "/") ≡ ok []
unfolding to_abs_path abs_parts abs_loop split full_path is_standard has_scheme del_slice item_at
    list_index lt_int ◌+ℤ◌ join text_eq starts_with
root_path = refl

abbrev path : Text
path = codes "usr/./lib/../bin//ls"

abbrev names : List Text
names = codes "usr" ∷ codes "bin" ∷ codes "ls" ∷ []

path-resolve : resolve [] (split b'/' path) ≡ some names
unfolding resolve split add_char text_eq
path-resolve = refl

to_abs_path-absolute_example :
    to_abs_path (codes "/home") (b'/' ∷ path) ≡ ok (join (codes "/") ([] ∷ names))
to_abs_path-absolute_example = to_abs_path-absolute (codes "/home") path names path-resolve

path-made : to_abs_path (codes "/home") (b'/' ∷ path) ≡ ok (codes "/usr/bin/ls")
unfolding join
path-made = to_abs_path-absolute (codes "/home") path names path-resolve

to_abs_path-again_example :
    to_abs_path (codes "/tmp") (codes "/usr/bin/ls") ≡ ok (codes "/usr/bin/ls")
to_abs_path-again_example =
    to_abs_path-again (codes "/home") (codes "/tmp") path (codes "usr") (codes "/usr/bin/ls")
      (codes "bin" ∷ codes "ls" ∷ []) path-resolve path-made
