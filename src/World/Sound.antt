-- ===== src/World/Sound.antt =====
-- The invariant of the globals that every operation on the CIM objects keeps: the cache of the accesses
-- holds open ones, and the processes form a tree.
pub mod Files
use survol.Base.{
  ℕ, Text, List, [], ◌∷◌, Option, none, some, Option-cases, Bool, ℤ, pos, Dict, int_eq,
  text_eq_instance, lookup, get_elem?, ◌≡◌, ◌∙◌, sym, refl, ap, subst, inl, inr,
}
use survol.Batch.Failure.{Failure, Result}
use survol.Batch.Values.{Arg}
use survol.Buffers.{BufferConcatenator}
use survol.World.{World, Process, DataFile, FileAccess, Library}
use survol.World.Actions.{Action, Done, pure, raise, lift, gets, modify, ◌>>=◌, ◌>>◌}
use survol.World.Keeps.{Keeps, keeps_rules, Keeps-modify, Keeps-gets-bind}
use survol.World.Objects.{
  attribute, change_process, change_file, store_process, set_parent_process, add_parent_process,
  or_set_parent, wait_process_end, create_with, create_process, or_create, to_process,
  set_executable, set_is_executed, set_command_line, command_line_of, set_thread,
  set_process_current_dir, store_file, or_create_file, to_file, directory_for, to_data_file,
}
use survol.World.Objects.Attributes.{IsProcess}
use survol.World.Objects.Trees.{
  IsForest, IsTree, IsCalm, change_process-IsTree, calm-Keeps, add_parent_process-Keeps,
  wait_process_end-Keeps,
}
use survol.World.Objects.Created.{to_process-Keeps}
use survol.World.Accesses.{
  change_access, write_cache, clear_cache, append_access, get_file_access, or_make_access,
  set_open_time, set_close_time, or_clear, set_read, set_written, put_read, put_written,
  open_access, close_access, read_access, write_access, is_value_error,
}
use survol.World.Accesses.Cached.{
  IsCached, IsSameHere, IsCached-same, change_process-IsSameHere, change_file-IsSameHere,
}
use survol.World.Accesses.Opened.{
  get_file_access-Keeps, open_access-Keeps, close_access-Keeps, read_access-Keeps,
  write_access-Keeps,
}

pub record IsSound (q : ℤ) (w : World) : Type 0 where
  pub cached : IsCached w
  pub tree : IsTree q w

pub both :
    {A : Type 0} (q : ℤ) (m : Action A)
    → Keeps IsCached m
    → Keeps (IsTree q) m
    → Keeps (IsSound q) m
both q m kc kt = record { at = λ w s. record { cached = kc.at w s.cached; tree = kt.at w s.tree } }

attribute-same :
    {X : Type 0} (field : Process → X) (d : X) (p : ℤ) (w w' : World)
    → w'.processes ≡ w.processes
    → attribute field d p w' ≡ attribute field d p w
unfolding attribute
attribute-same field d p w w' e = rw e refl

-- Nothing changes but what the invariant does not read.
pub IsTree-same : (q : ℤ) (w w' : World) → w'.processes ≡ w.processes → IsTree q w → IsTree q w'
IsTree-same q w w' e t = record {
  forest = record {
    linked = λ p r f.
        let (n, m) =
          t.forest.linked p r
            (sym (attribute-same (λ (o : Process). o.parent) none p w w' e) ∙ f) in
        (n, rw (attribute-same (λ (o : Process). o.sub_processes) [] r w w' e) m);
  };
  known = record { object = t.known.object; found = rw e t.known.found };
}

pub elsewhere :
    (q : ℤ) (f : World → World)
    → ((w : World) → (f w).processes ≡ w.processes)
    → ((w : World) → IsSameHere w (f w))
    → Keeps (IsSound q) (modify f)
elsewhere q f e s = Keeps-modify f (λ w i. record {
  cached = IsCached-same w (f w) (s w) i.cached;
  tree = IsTree-same q w (f w) (e w) i.tree;
})

-- On the processes
change-IsCached-Keeps :
    (f : Process → Process) (p : ℤ) → Keeps IsCached (modify (change_process f p))
change-IsCached-Keeps f p =
    Keeps-modify (change_process f p)
      (λ w c. IsCached-same w (change_process f p w) (change_process-IsSameHere f p w) c)

store-IsCached-Keeps :
    (p : ℤ) (parent : Option ℤ) → Keeps IsCached (modify (store_process p parent))
unfolding store_process
store-IsCached-Keeps p parent = Keeps-modify (store_process p parent) (λ w c.
    IsCached-same w (store_process p parent w) (record { same_accesses = refl; same_cache = refl })
      c)

create_with-IsCached-Keeps : (o : Option ℤ) (p : ℤ) → Keeps IsCached (create_with o p)
unfolding create_with
create_with-IsCached-Keeps none p = search (keeps_rules, store-IsCached-Keeps)
create_with-IsCached-Keeps (some q) p =
    search (keeps_rules, store-IsCached-Keeps, change-IsCached-Keeps) depth 8

or_create-IsCached-Keeps : (o : Option Process) (p : ℤ) → Keeps IsCached (or_create o p)
unfolding or_create create_process
or_create-IsCached-Keeps none p = search (keeps_rules, create_with-IsCached-Keeps) depth 8
or_create-IsCached-Keeps (some o) p = search keeps_rules

pub to_process-IsCached-Keeps : (p : ℤ) → Keeps IsCached (to_process p)
unfolding to_process
to_process-IsCached-Keeps p = search (keeps_rules, or_create-IsCached-Keeps)

set_parent-IsCached-Keeps : (p q : ℤ) → Keeps IsCached (set_parent_process p q)
unfolding set_parent_process
set_parent-IsCached-Keeps p q = search (keeps_rules, change-IsCached-Keeps) depth 8

or_set-IsCached-Keeps : (o : Option ℤ) (p q : ℤ) → Keeps IsCached (or_set_parent o p q)
unfolding or_set_parent
or_set-IsCached-Keeps none p q = set_parent-IsCached-Keeps p q
or_set-IsCached-Keeps (some r) p q = search keeps_rules

pub to_process-IsSound : (q p : ℤ) → Keeps (IsSound q) (to_process p)
to_process-IsSound q p = both q (to_process p) (to_process-IsCached-Keeps p) (to_process-Keeps p q)

pub add_parent_process-IsSound :
    (q p : ℤ) (time_stamp : Text) → Keeps (IsSound q) (add_parent_process p time_stamp q)
unfolding add_parent_process
add_parent_process-IsSound q p time_stamp =
    both q (add_parent_process p time_stamp q)
      (search (keeps_rules, set_parent-IsCached-Keeps, change-IsCached-Keeps))
      (add_parent_process-Keeps p time_stamp q)

pub wait_process_end-IsSound :
    (q p : ℤ) (time_stamp : Text) → Keeps (IsSound q) (wait_process_end p time_stamp q)
unfolding wait_process_end
wait_process_end-IsSound q p time_stamp =
    both q (wait_process_end p time_stamp q)
      (search (keeps_rules, or_set-IsCached-Keeps, change-IsCached-Keeps))
      (wait_process_end-Keeps p time_stamp q)

pub calm-IsSound :
    (q : ℤ) (f : Process → Process) (p : ℤ)
    → IsCalm f
    → Keeps (IsSound q) (modify (change_process f p))
calm-IsSound q f p c =
    both q (modify (change_process f p)) (change-IsCached-Keeps f p) (calm-Keeps f p q c)
