-- ===== src/World/Accesses/Opened.antt =====
-- `GetFileAccess` and the four kinds of calls on a file.
use survol.Base.{
  ℕ, suc, ◌+◌, ◌<◌, Text, [], ◌∷◌, Option, none, some, Option-cases, length, length-append,
  get_elem?-lt, ◌≤◌, ℤ, ◌≡◌, ◌∙◌, sym, refl, ap, subst, inl, inr, arith,
}
use survol.Batch.Values.{Arg}
use survol.Batch.Failure.{Result, ok}
use survol.World.{World, FileAccess, Library, new_access}
use survol.World.Actions.{done, pure, gets, modify, continue, ◌>>=◌}
use survol.Buffers.{BufferConcatenator}
use survol.World.Keeps.{Keeps, keeps_rules, Keeps-modify}
use survol.World.Accesses.{
  set_read, set_written, count_read, count_written, put_read, put_written, read_access,
  write_access, change_access, cached_access, write_cache, clear_cache, append_access, closed,
  opened, get_file_access, or_make_access, or_clear, set_open_time, set_close_time, open_access,
  close_access,
}
use survol.World.Accesses.Cached.{
  IsOpen, IsCached, IsQuiet, cached_access-write_self, cached_access-clear_self, IsOpen-kept,
  cached_access-same, write_cache-IsCached, change_access-IsCached, change_access-IsOpen,
  change_access-cache, append_access-IsCached, append_access-IsOpen, append_access-IsSameHere,
  close-IsCached,
}

pub get_file_access-cached :
    (p : ℤ) (file : Text) (w : World) (a : ℕ)
    → cached_access p file w ≡ some a
    → get_file_access p file w ≡ (w, ok a)
unfolding get_file_access or_make_access ◌>>=◌ gets pure
get_file_access-cached p file w a e = rw (get_file_access, e) refl

pub get_file_access-fresh :
    (p : ℤ) (file : Text) (w : World)
    → cached_access p file w ≡ none
    → get_file_access p file w
      ≡ (write_cache p file (length w.accesses) (append_access p file w), ok (length w.accesses))
unfolding get_file_access or_make_access ◌>>=◌ gets pure modify
get_file_access-fresh p file w e = rw (get_file_access, e) refl

write_cache-IsOpen :
    (p : ℤ) (file : Text) (a : ℕ) (w : World) (q : ℤ) (name : Text) (b : ℕ)
    → IsOpen w q name b
    → IsOpen (write_cache p file a w) q name b
unfolding write_cache
write_cache-IsOpen p file a w q name b o = IsOpen-kept w (write_cache p file a w) q name b refl o

-- What `GetFileAccess` promises.
pub record IsLooked (p : ℤ) (file : Text) (w : World) : Type 0 where
  pub world : World
  pub access : ℕ
  pub runs : get_file_access p file w ≡ (world, ok access)
  pub valid : IsCached world
  pub cached : cached_access p file world ≡ some access
  pub open_access : IsOpen world p file access

pub get_file_access-IsLooked : (p : ℤ) (file : Text) (w : World) → IsCached w → IsLooked p file w
get_file_access-IsLooked p file w c = elim (Option-cases (cached_access p file w)) [
  | inl e ↦
      let a = length w.accesses in
      let w' = append_access p file w in
      let o = append_access-IsOpen p file w in
      record {
        world = write_cache p file a w';
        access = a;
        runs = get_file_access-fresh p file w e;
        valid = write_cache-IsCached p file a w' (append_access-IsCached p file w c) o;
        cached = cached_access-write_self p file a w';
        open_access = write_cache-IsOpen p file a w' p file a o;
      }
  | inr (a, e) ↦ record {
    world = w;
    access = a;
    runs = get_file_access-cached p file w a e;
    valid = c;
    cached = e;
    open_access = c.open_access p file a e;
  }
]

-- A second `GetFileAccess` for the same process and file gives the same access and changes nothing,
-- when the cache is valid.
pub get_file_access-again :
    (p : ℤ) (file : Text) (w w' : World) (a : ℕ)
    → IsCached w
    → get_file_access p file w ≡ (w', ok a)
    → get_file_access p file w' ≡ (w', ok a)
get_file_access-again p file w w' a c e =
    let l = get_file_access-IsLooked p file w c in
    let same : (l.world, ok l.access) ≡ (w', ok a) = sym l.runs ∙ e in
    let sw : l.world ≡ w' = ap (λ (x : World × Result ℕ). x.0) same in
    let sa : l.access ≡ a = ground (arith, ap (λ (x : World × Result ℕ). x.1) same) in
    get_file_access-cached p file w' a
      (subst (λ (x : World). cached_access p file x ≡ some a) sw (rw (sym sa) l.cached))

pub open_access-runs :
    (p : ℤ) (file time_stamp : Text) (w : World) (l : IsLooked p file w)
    → open_access p file time_stamp w
      ≡ (write_cache p file l.access (change_access (opened time_stamp) l.access l.world), ok done)
unfolding open_access set_open_time ◌>>=◌ modify continue
open_access-runs p file time_stamp w l = rw l.runs refl

pub close_access-runs :
    (p : ℤ) (file time_stamp : Text) (w : World) (l : IsLooked p file w)
    → close_access p file time_stamp w
      ≡ (clear_cache p file (change_access (closed time_stamp) l.access l.world), ok done)
unfolding close_access set_close_time or_clear ◌>>=◌ modify gets continue
close_access-runs p file time_stamp w l =
    let f : FileAccess → FileAccess = closed time_stamp in
    let k : cached_access p file (change_access f l.access l.world) ≡ some l.access =
      cached_access-same p file l.world (change_access f l.access l.world)
        (change_access-cache f l.access l.world)
      ∙ l.cached in
    rw (l.runs, k) refl

-- `GetFileAccess` behind a `close` of the same file by the same process, from a valid cache: the `close`
-- raises nothing, and the access that it ended is not given again, but a new one is made.
pub close_access-fresh :
    (p : ℤ) (file time_stamp : Text) (w : World)
    → IsCached w
    → (w' : World) × (close_access p file time_stamp w ≡ (w', ok done))
      × IsCached w'
      × ((get_file_access p file w').1 ≡ ok (length w'.accesses))
close_access-fresh p file time_stamp w c =
    let l = get_file_access-IsLooked p file w c in
    let w' = change_access (closed time_stamp) l.access l.world in
    let w'' = clear_cache p file w' in
    (
      w'',
      close_access-runs p file time_stamp w l,
      close-IsCached p file l.access time_stamp l.world l.valid l.open_access,
      ap (λ (x : World × Result ℕ). x.1)
          (get_file_access-fresh p file w'' (cached_access-clear_self p file w')),
    )

opened-IsQuiet : (time_stamp : Text) → IsQuiet (opened time_stamp)
opened-IsQuiet time_stamp = record {
  keeps_process = λ o. refl;
  keeps_file = λ o. refl;
  keeps_end = λ o. refl;
}

pub get_file_access-Keeps : (p : ℤ) (file : Text) → Keeps IsCached (get_file_access p file)
get_file_access-Keeps p file = record {
  at = λ w c. let l = get_file_access-IsLooked p file w c in rw l.runs l.valid;
}

pub open_access-Keeps :
    (p : ℤ) (file time_stamp : Text) → Keeps IsCached (open_access p file time_stamp)
open_access-Keeps p file time_stamp = record {
  at = λ w c.
      let l = get_file_access-IsLooked p file w c in
      let f : FileAccess → FileAccess = opened time_stamp in
      rw (open_access-runs p file time_stamp w l) (
        write_cache-IsCached p file l.access (change_access f l.access l.world)
          (change_access-IsCached f l.access l.world (opened-IsQuiet time_stamp) l.valid)
          (change_access-IsOpen f l.access l.world p file l.access (opened-IsQuiet time_stamp)
            l.open_access));
}

pub close_access-Keeps :
    (p : ℤ) (file time_stamp : Text) → Keeps IsCached (close_access p file time_stamp)
close_access-Keeps p file time_stamp = record {
  at = λ w c.
      let l = get_file_access-IsLooked p file w c in
      rw (close_access-runs p file time_stamp w l)
        (close-IsCached p file l.access time_stamp l.world l.valid l.open_access);
}

change-Keeps :
    (f : FileAccess → FileAccess) (a : ℕ) → IsQuiet f → Keeps IsCached (modify (change_access f a))
change-Keeps f a q = Keeps-modify (change_access f a) (λ w c. change_access-IsCached f a w q c)

count_read-Keeps :
    (bytes : ℤ) (a : ℕ) → Keeps IsCached (modify (change_access (count_read bytes) a))
count_read-Keeps bytes a =
    change-Keeps (count_read bytes) a
      (record { keeps_process = λ o. refl; keeps_file = λ o. refl; keeps_end = λ o. refl })

count_written-Keeps :
    (bytes : ℤ) (a : ℕ) → Keeps IsCached (modify (change_access (count_written bytes) a))
count_written-Keeps bytes a =
    change-Keeps (count_written bytes) a
      (record { keeps_process = λ o. refl; keeps_file = λ o. refl; keeps_end = λ o. refl })

put_read-Keeps : (a : ℕ) (b : Option (Option BufferConcatenator)) → Keeps IsCached (put_read a b)
unfolding put_read
put_read-Keeps a none = search keeps_rules
put_read-Keeps a (some b) =
    change-Keeps (λ o. record o { concat_read = b }) a
      (record { keeps_process = λ o. refl; keeps_file = λ o. refl; keeps_end = λ o. refl })

put_written-Keeps :
    (a : ℕ) (b : Option (Option BufferConcatenator)) → Keeps IsCached (put_written a b)
unfolding put_written
put_written-Keeps a none = search keeps_rules
put_written-Keeps a (some b) =
    change-Keeps (λ o. record o { concat_write = b }) a
      (record { keeps_process = λ o. refl; keeps_file = λ o. refl; keeps_end = λ o. refl })

pub read_access-Keeps :
    (lib : Library) (p : ℤ) (file : Text) (bytes : ℤ) (buffer : Result Arg)
    → Keeps IsCached (read_access lib p file bytes buffer)
unfolding read_access set_read
read_access-Keeps lib p file bytes buffer =
    search (keeps_rules, get_file_access-Keeps, count_read-Keeps, put_read-Keeps)

set_written-Keeps :
    (lib : Library) (file : Text) (a : ℕ) (bytes : ℤ) (buffer : Arg)
    → Keeps IsCached (set_written lib file a bytes buffer)
unfolding set_written
set_written-Keeps lib file a bytes buffer =
    search (keeps_rules, count_written-Keeps, put_written-Keeps)

pub write_access-Keeps :
    (lib : Library) (p : ℤ) (file : Text) (bytes : Result ℤ) (buffer : Result Arg)
    → Keeps IsCached (write_access lib p file bytes buffer)
unfolding write_access
write_access-Keeps lib p file bytes buffer =
    search (keeps_rules, get_file_access-Keeps, set_written-Keeps) depth 9

change_length :
    (p : ℤ) (file : Text) (w : World)
    → length (append_access p file w).accesses ≡ suc (length w.accesses)
change_length p file w =
    ap length (append_access-IsSameHere p file w).same_accesses
    ∙ omega (arith, length-append w.accesses (new_access p file ∷ []))

write_cache-accesses :
    (p : ℤ) (file : Text) (a : ℕ) (w : World) → (write_cache p file a w).accesses ≡ w.accesses
unfolding write_cache
write_cache-accesses p file a w = refl

-- `GetFileAccess` on a valid cache: it raises nothing, gives an access that exists, and makes one access
-- at most.
pub get_file_access-bounds :
    (p : ℤ) (file : Text) (w : World)
    → IsCached w
    → (w' : World) × (a : ℕ) × (get_file_access p file w ≡ (w', ok a))
      × (a < length w'.accesses)
      × (length w.accesses ≤ length w'.accesses)
      × (length w'.accesses ≤ length w.accesses + 1)
get_file_access-bounds p file w c = elim (Option-cases (cached_access p file w)) [
  | inr (a, e) ↦
      let o = c.open_access p file a e in
      (
        w,
        a,
        get_file_access-cached p file w a e,
        get_elem?-lt w.accesses a o.access o.found,
        omega arith,
        omega arith,
      )
  | inl e ↦
      let a = length w.accesses in
      let w' = write_cache p file a (append_access p file w) in
      let n : length w'.accesses ≡ suc (length w.accesses) =
        ap length (write_cache-accesses p file a (append_access p file w))
        ∙ change_length p file w in
      (
        w',
        a,
        get_file_access-fresh p file w e,
        omega (arith, n),
        omega (arith, n),
        omega (arith, n),
      )
]
