-- ===== src/World/Accesses/Cached.antt =====
-- The cache of the accesses: what it holds is an open access of that process and that file.
use survol.Base.{
  ℕ, ◌==◌, Text, text_eq, text_eq_iff, List, [], ◌∷◌, ◌++◌, none, some, Option-cases, true, false,
  Bool-cases, ◌&&◌, if◌then◌else◌, length, get_elem?, get_elem?-set_self, get_elem?-set_other,
  get_elem?-append_self, get_elem?-more, ℤ, int_beq, int_beq_iff, int_eq, text_eq_instance, lookup,
  insert, remove, lookup-insert, lookup-remove, ◌≡◌, ◌≢◌, ◌∙◌, ◌⊎◌, sym, refl, ap, subst, inl, inr,
  arith,
}
use survol.World.{World, FileAccess, Process, DataFile, new_access}
use survol.World.Objects.{change_process, change_file}
use survol.World.Accesses.{
  change_access, cached_files, cached_access, write_cache, clear_cache, append_access, closed,
}

-- `a` is an access of the file by the process, and is not closed.
pub record IsOpen (w : World) (p : ℤ) (file : Text) (a : ℕ) : Type 0 where
  pub access : FileAccess
  pub found : get_elem? w.accesses a ≡ some access
  pub by_process : access.process ≡ p
  pub of_file : access.file ≡ file
  pub not_closed : access.close_time ≡ none

pub record IsCached (w : World) : Type 0 where
  pub open_access :
      (p : ℤ) (file : Text) (a : ℕ) → cached_access p file w ≡ some a → IsOpen w p file a

-- The cache and the accesses are the same.
pub record IsSameHere (w w' : World) : Type 0 where
  pub same_accesses : w'.accesses ≡ w.accesses
  pub same_cache : w'.cache ≡ w.cache

pub change_process-IsSameHere :
    (f : Process → Process) (p : ℤ) (w : World) → IsSameHere w (change_process f p w)
unfolding change_process
change_process-IsSameHere f p w = elim (Option-cases (lookup p w.processes)) [
  | inl e ↦ rw (change_process, e) (record { same_accesses = refl; same_cache = refl })
  | inr (o, e) ↦ rw (change_process, e) (record { same_accesses = refl; same_cache = refl })
]

pub change_file-IsSameHere :
    (f : DataFile → DataFile) (n : Text) (w : World) → IsSameHere w (change_file f n w)
unfolding change_file
change_file-IsSameHere f n w = elim (Option-cases (lookup n w.files)) [
  | inl e ↦ rw (change_file, e) (record { same_accesses = refl; same_cache = refl })
  | inr (o, e) ↦ rw (change_file, e) (record { same_accesses = refl; same_cache = refl })
]

pub cached_access-same :
    (p : ℤ) (file : Text) (w w' : World)
    → w'.cache ≡ w.cache
    → cached_access p file w' ≡ cached_access p file w
unfolding cached_access
cached_access-same p file w w' e = rw e refl

pub IsOpen-kept :
    (w w' : World) (p : ℤ) (file : Text) (a : ℕ)
    → get_elem? w'.accesses a ≡ get_elem? w.accesses a
    → IsOpen w p file a
    → IsOpen w' p file a
IsOpen-kept w w' p file a e o = record {
  access = o.access;
  found = e ∙ o.found;
  by_process = o.by_process;
  of_file = o.of_file;
  not_closed = o.not_closed;
}

pub IsCached-same : (w w' : World) → IsSameHere w w' → IsCached w → IsCached w'
IsCached-same w w' s c = record {
  open_access = λ p file a e.
      IsOpen-kept w w' p file a (ap (λ (l : List FileAccess). get_elem? l a) s.same_accesses)
        (c.open_access p file a (sym (cached_access-same p file w w' s.same_cache) ∙ e));
}

cached_files-insert :
    (cache : List (ℤ × List (Text × ℕ))) (p q : ℤ) (m : List (Text × ℕ))
    → cached_files (insert p m cache) q ≡ (if int_beq p q then m else cached_files cache q)
unfolding cached_files
cached_files-insert cache p q m = elim (Bool-cases (int_beq p q)) [
  | inl e ↦ ground (arith, e, lookup-insert p q m cache)
  | inr e ↦ ground (arith, e, lookup-insert p q m cache)
]

pub cached_access-write :
    (p q : ℤ) (file name : Text) (a : ℕ) (w : World)
    → cached_access q name (write_cache p file a w)
      ≡ (if int_beq p q && text_eq file name then some a else cached_access q name w)
unfolding cached_access write_cache
cached_access-write p q file name a w = elim (Bool-cases (int_beq p q)) [
  | inl e ↦
      let z : p ≡ q = ground (arith, e, int_beq_iff p q) in
      rw (cached_files-insert w.cache p q (insert file a (cached_files w.cache p)), e)
        (subst
          (λ (r : ℤ).
            lookup name (insert file a (cached_files w.cache p))
            ≡ (if text_eq file name then some a else lookup name (cached_files w.cache r)))
          z (lookup-insert file name a (cached_files w.cache p)))
  | inr e ↦ rw (cached_files-insert w.cache p q (insert file a (cached_files w.cache p)), e) refl
]

pub cached_access-clear :
    (p q : ℤ) (file name : Text) (w : World)
    → cached_access q name (clear_cache p file w)
      ≡ (if int_beq p q && text_eq file name then none else cached_access q name w)
unfolding cached_access clear_cache
cached_access-clear p q file name w = elim (Bool-cases (int_beq p q)) [
  | inl e ↦
      let z : p ≡ q = ground (arith, e, int_beq_iff p q) in
      rw (cached_files-insert w.cache p q (remove file (cached_files w.cache p)), e)
        (subst
          (λ (r : ℤ).
            lookup name (remove file (cached_files w.cache p))
            ≡ (if text_eq file name then none else lookup name (cached_files w.cache r)))
          z (lookup-remove file name (cached_files w.cache p)))
  | inr e ↦ rw (cached_files-insert w.cache p q (remove file (cached_files w.cache p)), e) refl
]

pub cached_access-write_self :
    (p : ℤ) (file : Text) (a : ℕ) (w : World)
    → cached_access p file (write_cache p file a w) ≡ some a
cached_access-write_self p file a w =
    let s : int_beq p p ≡ true = ground (arith, int_beq_iff p p) in
    let t : text_eq file file ≡ true = ground (arith, text_eq_iff file file) in
    ground (arith, s, t, cached_access-write p p file file a w)

pub cached_access-clear_self :
    (p : ℤ) (file : Text) (w : World) → cached_access p file (clear_cache p file w) ≡ none
cached_access-clear_self p file w =
    let s : int_beq p p ≡ true = ground (arith, int_beq_iff p p) in
    let t : text_eq file file ≡ true = ground (arith, text_eq_iff file file) in
    ground (arith, s, t, cached_access-clear p p file file w)

-- The pair of a process and a file that a write is about, or another one.
pub pair_cases :
    (p q : ℤ) (file name : Text)
    → ((int_beq p q && text_eq file name ≡ true) × ((p ≡ q) × (file ≡ name)))
      ⊎ (int_beq p q && text_eq file name ≡ false)
pair_cases p q file name = elim (Bool-cases (int_beq p q && text_eq file name)) [
  | inl e ↦ inl (e, (ground (arith, e, int_beq_iff p q), ground (arith, e, text_eq_iff file name)))
  | inr e ↦ inr e
]

pub write_cache-IsCached :
    (p : ℤ) (file : Text) (a : ℕ) (w : World)
    → IsCached w
    → IsOpen w p file a
    → IsCached (write_cache p file a w)
unfolding write_cache
write_cache-IsCached p file a w c o = record {
  open_access = λ q name b e. elim (pair_cases p q file name) [
    | inl (t, (s, z)) ↦
        let same : a ≡ b = ground (arith, e, t, cached_access-write p q file name a w) in
        subst (λ (r : ℤ). IsOpen (write_cache p file a w) r name b) s
          (subst (λ (n : Text). IsOpen (write_cache p file a w) p n b) z
            (subst (λ (i : ℕ). IsOpen (write_cache p file a w) p file i) same
              (IsOpen-kept w (write_cache p file a w) p file a refl o)))
    | inr f ↦
        let before : cached_access q name w ≡ some b =
          ground (arith, e, f, cached_access-write p q file name a w) in
        IsOpen-kept w (write_cache p file a w) q name b refl (c.open_access q name b before)
  ];
}

pub change_access-cache :
    (f : FileAccess → FileAccess) (a : ℕ) (w : World) → (change_access f a w).cache ≡ w.cache
unfolding change_access
change_access-cache f a w = elim (Option-cases (get_elem? w.accesses a)) [
  | inl e ↦ rw (change_access, e) refl
  | inr (o, e) ↦ rw (change_access, e) refl
]

pub change_access-found :
    (f : FileAccess → FileAccess) (a : ℕ) (w : World) (o : FileAccess)
    → get_elem? w.accesses a ≡ some o
    → get_elem? (change_access f a w).accesses a ≡ some (f o)
unfolding change_access
change_access-found f a w o e = rw (change_access, e) (get_elem?-set_self w.accesses a o (f o) e)

pub change_access-other :
    (f : FileAccess → FileAccess) (a b : ℕ) (w : World)
    → a ≢ b
    → get_elem? (change_access f a w).accesses b ≡ get_elem? w.accesses b
unfolding change_access
change_access-other f a b w n = elim (Option-cases (get_elem? w.accesses a)) [
  | inl e ↦ rw (change_access, e) refl
  | inr (o, e) ↦ rw (change_access, e) (get_elem?-set_other w.accesses a b (f o) n)
]

-- A change that leaves the process, the file and the end of an access as they are.
pub record IsQuiet (f : FileAccess → FileAccess) : Type 0 where
  pub keeps_process : (o : FileAccess) → (f o).process ≡ o.process
  pub keeps_file : (o : FileAccess) → (f o).file ≡ o.file
  pub keeps_end : (o : FileAccess) → (f o).close_time ≡ o.close_time

pub change_access-IsOpen :
    (f : FileAccess → FileAccess) (a : ℕ) (w : World) (p : ℤ) (file : Text) (b : ℕ)
    → IsQuiet f
    → IsOpen w p file b
    → IsOpen (change_access f a w) p file b
change_access-IsOpen f a w p file b q o = elim (Bool-cases (a == b)) [
  | inl e ↦
      let z : b ≡ a = ground (arith, e) in
      record {
        access = f o.access;
        found = rw z (
            change_access-found f a w o.access
              (subst (λ (i : ℕ). get_elem? w.accesses i ≡ some o.access) z o.found));
        by_process = q.keeps_process o.access ∙ o.by_process;
        of_file = q.keeps_file o.access ∙ o.of_file;
        not_closed = q.keeps_end o.access ∙ o.not_closed;
      }
  | inr e ↦
      IsOpen-kept w (change_access f a w) p file b (change_access-other f a b w (ground (arith, e)))
        o
]

pub change_access-IsCached :
    (f : FileAccess → FileAccess) (a : ℕ) (w : World)
    → IsQuiet f
    → IsCached w
    → IsCached (change_access f a w)
change_access-IsCached f a w q c = record {
  open_access = λ p file b e. change_access-IsOpen f a w p file b q (
      c.open_access p file b
        (sym (cached_access-same p file w (change_access f a w) (change_access-cache f a w)) ∙ e));
}

-- A new access is appended, behind those that the cache refers to.
pub append_access-IsSameHere :
    (p : ℤ) (file : Text) (w : World)
    → IsSameHere
        (record w { accesses = w.accesses ++ new_access p file ∷ [] })
        (append_access p file w)
unfolding append_access
append_access-IsSameHere p file w =
    let w' = record w { accesses = w.accesses ++ new_access p file ∷ [] } in
    let f : Process → Process = λ o. record o { accesses = o.accesses ++ length w.accesses ∷ [] } in
    let g : DataFile → DataFile =
      λ o. record o { accesses = o.accesses ++ length w.accesses ∷ [] } in
    let one = change_process-IsSameHere f p w' in
    let two = change_file-IsSameHere g file (change_process f p w') in
    record {
      same_accesses = two.same_accesses ∙ one.same_accesses;
      same_cache = two.same_cache ∙ one.same_cache;
    }

pub append_access-IsCached :
    (p : ℤ) (file : Text) (w : World) → IsCached w → IsCached (append_access p file w)
append_access-IsCached p file w c =
    let w' = record w { accesses = w.accesses ++ new_access p file ∷ [] } in
    IsCached-same w' (append_access p file w) (append_access-IsSameHere p file w) (record {
      open_access = λ q name b e.
          let o = c.open_access q name b (sym (cached_access-same q name w w' refl) ∙ e) in
          IsOpen-kept w w' q name b
            (get_elem?-more w.accesses (new_access p file ∷ []) b o.access o.found ∙ sym o.found) o;
    })

pub append_access-IsOpen :
    (p : ℤ) (file : Text) (w : World) → IsOpen (append_access p file w) p file (length w.accesses)
append_access-IsOpen p file w = record {
  access = new_access p file;
  found =
      ap (λ (l : List FileAccess). get_elem? l (length w.accesses))
        (append_access-IsSameHere p file w).same_accesses
      ∙ get_elem?-append_self w.accesses (new_access p file) [];
  by_process = refl;
  of_file = refl;
  not_closed = refl;
}

-- Accesses of other processes or other files are other accesses.
differ :
    (w : World) (p q : ℤ) (file name : Text) (a b : ℕ)
    → IsOpen w p file a
    → IsOpen w q name b
    → (int_beq p q && text_eq file name) ≡ false
    → a ≢ b
differ w p q file name a b o o' n z =
    let found : get_elem? w.accesses a ≡ some o'.access = rw z o'.found in
    let same : o.access ≡ o'.access = ground (arith, o.found, found) in
    let s : p ≡ q = sym o.by_process ∙ (ap (λ (x : FileAccess). x.process) same ∙ o'.by_process) in
    let t : file ≡ name = sym o.of_file ∙ (ap (λ (x : FileAccess). x.file) same ∙ o'.of_file) in
    ground (arith, n, s, t, int_beq_iff p q, text_eq_iff file name)

-- The access is closed and leaves the cache.
pub close-IsCached :
    (p : ℤ) (file : Text) (a : ℕ) (time_stamp : Text) (w : World)
    → IsCached w
    → IsOpen w p file a
    → IsCached (clear_cache p file (change_access (closed time_stamp) a w))
unfolding clear_cache
close-IsCached p file a time_stamp w c o =
    let f : FileAccess → FileAccess = closed time_stamp in
    let w' = change_access f a w in
    let w'' = clear_cache p file w' in
    record {
      open_access = λ q name b e. elim (pair_cases p q file name) [
        | inl (t, (s, z)) ↦ ground (arith, e, t, cached_access-clear p q file name w')
        | inr n ↦
            let before : cached_access q name w' ≡ some b =
              ground (arith, e, n, cached_access-clear p q file name w') in
            let old =
              c.open_access q name b
                (sym (cached_access-same q name w w' (change_access-cache f a w)) ∙ before) in
            IsOpen-kept w w'' q name b
              (change_access-other f a b w (differ w p q file name a b o old n)) old
      ];
    }
