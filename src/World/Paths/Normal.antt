-- ===== src/World/Paths/Normal.antt =====
-- `ToAbsPath` on an absolute path: the names that are left when "." and empty parts go, and each ".."
-- takes the name before it away.
use survol.Base.{
  ℕ, zero, suc, ◌+◌, ◌≤◌, ◌<◌, ltb, leb, Text, codes, text_eq, starts_with, List, [], ◌∷◌, ◌++◌,
  append_assoc, append-nil, Option, none, some, true, false, Bool-cases, ◌||◌, if◌then◌else◌,
  length, length-append, get_elem?-append_self, take-append, drop-append, drop-append_self,
  drop_last, pos, negsuc, ◌+ℤ◌, ◌≡◌, ◌∙◌, subst, drop_last-append, ◌⊎◌, inl, inr, refl, sym, ap,
  arith,
}
use survol.Batch.Calls.{join}
use survol.Batch.Failure.{ok}
use survol.World.Paths.{
  split, abs_loop, abs_parts, to_abs_path, full_path, del_slice, list_bound, list_index, item_at,
  lt_int, has_scheme, is_standard,
}

-- The names of the path below the root, `kept` being those of the parts that have been read; `none` if
-- the path climbs above the root.
unfoldable pub resolve : List Text → List Text → Option (List Text)
resolve kept [] = some kept
resolve kept (part ∷ rest) =
    let up = resolve (drop_last kept) rest in
    let same = resolve kept rest in
    let next = resolve (kept ++ part ∷ []) rest in
    if text_eq part (codes "..")
    then elim kept [ [] ↦ none | k ∷ ks ↦ up ]
    else if text_eq part (codes ".") || text_eq part []
    then same
    else next

list_bound-inside : (n i : ℕ) → i ≤ n → list_bound n (pos i) ≡ i
unfolding list_bound
list_bound-inside n i h = ground arith

del_slice-append :
    (a b c : List Text)
    → del_slice (a ++ (b ++ c)) (pos (length a)) (pos (length a + length b)) ≡ a ++ c
unfolding del_slice
del_slice-append a b c =
    let n : ℕ = length (a ++ (b ++ c)) in
    let total : n ≡ length a + (length b + length c) =
      omega (arith, length-append a (b ++ c), length-append b c) in
    let i = list_bound-inside n (length a) (omega arith) in
    let j = list_bound-inside n (length a + length b) (omega arith) in
    let t : leb (length a) (length a + length b) ≡ true = ground arith in
    rw (i, j, t, take-append a (b ++ c), drop-append a (b ++ c) (length b), drop-append_self b c)

list_index-inside : (n i : ℕ) → i < n → list_index n (pos i) ≡ some i
unfolding list_index
list_index-inside n i h = ground arith

item_at-append :
    (a : List Text) (p : Text) (c : List Text) → item_at (a ++ p ∷ c) (pos (length a)) ≡ some p
unfolding item_at
item_at-append a p c =
    let i =
      list_index-inside (length (a ++ p ∷ c)) (length a) (omega (arith, length-append a (p ∷ c))) in
    rw (item_at, i, get_elem?-append_self a p c)

pub last_cases :
    (l : List Text)
    → (l ≡ []) ⊎ ((i : List Text) × (d : Text) × (l ≡ i ++ d ∷ []) × (drop_last l ≡ i))
last_cases [] = inl refl
last_cases (x ∷ []) = inr ([], x, refl, refl)
last_cases (x ∷ y ∷ l) = elim (last_cases (y ∷ l)) [
  | inl e ↦ inl (cc (e))
  | inr (i, d, e, f) ↦
      inr (x ∷ i, d, ap (λ (m : List Text). x ∷ m) e, ap (λ (m : List Text). x ∷ m) f)
]

plus_one : (n : ℕ) → (pos n +ℤ pos 1) ≡ pos (suc n)
unfolding ◌+ℤ◌
plus_one n = let s : n + 1 ≡ suc n = omega arith in ap pos s

minus_one : (n : ℕ) → (pos (suc n) +ℤ negsuc 0) ≡ pos n
unfolding ◌+ℤ◌
minus_one n = ground arith

minus_two : (n : ℕ) → (pos (suc (suc n)) +ℤ negsuc 1) ≡ pos n
unfolding ◌+ℤ◌
minus_two n = ground arith

-- One round of the loop at a part of the list.
round-next :
    (fuel : ℕ) (a : List Text) (p : Text) (c : List Text) (n : ℕ)
    → text_eq p (codes "..") ≡ false
    → (text_eq p (codes ".") || text_eq p []) ≡ false
    → abs_loop (suc fuel) (a ++ p ∷ c) (pos (length a)) (pos (suc (length a + n)))
      ≡ abs_loop fuel (a ++ p ∷ c) (pos (suc (length a))) (pos (suc (length a + n)))
unfolding abs_loop lt_int
round-next fuel a p c n e f =
    let t : ltb (length a) (suc (length a + n)) ≡ true = ground arith in
    rw (abs_loop, t, item_at-append a p c, e, f, plus_one (length a))

round-same :
    (fuel : ℕ) (a : List Text) (p : Text) (c : List Text) (n : ℕ)
    → text_eq p (codes "..") ≡ false
    → (text_eq p (codes ".") || text_eq p []) ≡ true
    → abs_loop (suc fuel) (a ++ p ∷ c) (pos (length a)) (pos (suc (length a + n)))
      ≡ abs_loop fuel (a ++ c) (pos (length a)) (pos (length a + n))
unfolding abs_loop lt_int
round-same fuel a p c n e f =
    let t : ltb (length a) (suc (length a + n)) ≡ true = ground arith in
    let one : length a + 1 ≡ suc (length a) = omega arith in
    let d : del_slice (a ++ p ∷ c) (pos (length a)) (pos (suc (length a))) ≡ a ++ c =
      rw (sym one) (del_slice-append a (p ∷ []) c) in
    rw (abs_loop, t, item_at-append a p c, e, f, plus_one (length a), minus_one (length a + n), d)

round-up :
    (fuel : ℕ) (a : List Text) (q p : Text) (c : List Text) (n : ℕ)
    → text_eq p (codes "..") ≡ true
    → abs_loop (suc fuel) (a ++ q ∷ p ∷ c) (pos (suc (length a))) (pos (suc (suc (length a + n))))
      ≡ abs_loop fuel (a ++ c) (pos (length a)) (pos (length a + n))
unfolding abs_loop lt_int
round-up fuel a q p c n e =
    let t : ltb (suc (length a)) (suc (suc (length a + n))) ≡ true = ground arith in
    let two : length a + 2 ≡ suc (suc (length a)) = omega arith in
    let d : del_slice (a ++ q ∷ p ∷ c) (pos (length a)) (pos (suc (suc (length a)))) ≡ a ++ c =
      rw (sym two) (del_slice-append a (q ∷ p ∷ []) c) in
    let l : length (a ++ q ∷ []) ≡ suc (length a) = omega (arith, length-append a (q ∷ [])) in
    let i : item_at (a ++ q ∷ p ∷ c) (pos (suc (length a))) ≡ some p =
      rw (sym l, sym (append_assoc a (q ∷ []) (p ∷ c))) (item_at-append (a ++ q ∷ []) p c) in
    rw (
      abs_loop,
      t,
      i,
      e,
      plus_one (suc (length a)),
      minus_one (length a),
      minus_two (length a + n),
      d,
    )

round-end : (fuel : ℕ) (l : List Text) (n : ℕ) → abs_loop fuel l (pos n) (pos n) ≡ ok l
unfolding abs_loop lt_int
round-end zero l n = refl
round-end (suc fuel) l n = let t : ltb n n ≡ false = ground arith in rw (abs_loop, t) refl

pub resolve-up :
    (i : List Text) (d p : Text) (rest : List Text)
    → text_eq p (codes "..") ≡ true
    → resolve (i ++ d ∷ []) (p ∷ rest) ≡ resolve i rest
unfolding resolve
resolve-up [] d p rest e = rw e refl
resolve-up (x ∷ i) d p rest e = rw (e, drop_last-append (x ∷ i) d) refl

pub resolve-top :
    (p : Text) (rest : List Text) → text_eq p (codes "..") ≡ true → resolve [] (p ∷ rest) ≡ none
unfolding resolve
resolve-top p rest e = rw e refl

pub resolve-same :
    (kept : List Text) (p : Text) (rest : List Text)
    → text_eq p (codes "..") ≡ false
    → (text_eq p (codes ".") || text_eq p []) ≡ true
    → resolve kept (p ∷ rest) ≡ resolve kept rest
unfolding resolve
resolve-same kept p rest e f = rw (e, f) refl

pub resolve-next :
    (kept : List Text) (p : Text) (rest : List Text)
    → text_eq p (codes "..") ≡ false
    → (text_eq p (codes ".") || text_eq p []) ≡ false
    → resolve kept (p ∷ rest) ≡ resolve (kept ++ p ∷ []) rest
unfolding resolve
resolve-next kept p rest e f = rw (e, f) refl

-- The loop at the part behind `h ∷ kept`, where it has as many rounds as there are parts left.
loop-resolve :
    (rest kept : List Text) (h : Text) (out : List Text)
    → resolve kept rest ≡ some out
    → (fuel : ℕ) → length rest ≤ fuel
    → abs_loop fuel
        (h ∷ (kept ++ rest))
        (pos (suc (length kept)))
        (pos (suc (length kept) + length rest))
      ≡ ok (h ∷ out)
unfolding resolve
loop-resolve [] kept h out e fuel l =
    let z : suc (length kept) + 0 ≡ suc (length kept) = omega arith in
    let o : kept ≡ out = ground (arith, e) in
    rw (z, append-nil kept, o) (round-end fuel (h ∷ out) (suc (length out)))
loop-resolve (p ∷ rest) kept h out e zero l = ground arith
loop-resolve (p ∷ rest) kept h out e (suc fuel) l = elim (Bool-cases (text_eq p (codes ".."))) [
  | inl up ↦ elim (last_cases kept) [
    | inl z ↦
        let none_here : resolve [] (p ∷ rest) ≡ some out =
          subst (λ (k : List Text). resolve k (p ∷ rest) ≡ some out) z e in
        cc (none_here, resolve-top p rest up)
    | inr (i, d, s, t) ↦
        let below : resolve i rest ≡ some out =
          sym (resolve-up i d p rest up)
          ∙ subst (λ (k : List Text). resolve k (p ∷ rest) ≡ some out) s e in
        let size : length (i ++ d ∷ []) ≡ suc (length i) =
          omega (arith, length-append i (d ∷ [])) in
        let sum : suc (suc (length i)) + suc (length rest)
            ≡ suc (suc (suc (length i) + length rest)) =
          omega arith in
        rw (s, size, sum, append_assoc i (d ∷ []) (p ∷ rest))
          (round-up fuel (h ∷ i) d p rest (length rest) up
            ∙ loop-resolve rest i h out below fuel (omega (arith, l)))
  ]
  | inr other ↦
      let sum : suc (length kept) + suc (length rest) ≡ suc (suc (length kept) + length rest) =
        omega arith in
      elim (Bool-cases (text_eq p (codes ".") || text_eq p [])) [
        | inl same ↦ rw sum (
            round-same fuel (h ∷ kept) p rest (length rest) other same
            ∙ loop-resolve rest kept h out (sym (resolve-same kept p rest other same) ∙ e) fuel
                (omega (arith, l)))
        | inr next ↦
            let one : length (kept ++ p ∷ []) ≡ suc (length kept) =
              omega (arith, length-append kept (p ∷ [])) in
            let sum' : suc (suc (length kept)) + length rest
                ≡ suc (suc (length kept) + length rest) =
              omega arith in
            let go : abs_loop fuel (h ∷ (kept ++ p ∷ rest)) (pos (suc (suc (length kept))))
                  (pos (suc (suc (length kept) + length rest)))
                ≡ ok (h ∷ out) =
              rw (sym sum', sym one, sym (append_assoc kept (p ∷ []) rest))
                (loop-resolve rest (kept ++ p ∷ []) h out
                  (sym (resolve-next kept p rest other next) ∙ e) fuel (omega (arith, l))) in
            rw sum (round-next fuel (h ∷ kept) p rest (length rest) other next ∙ go)
      ]
]

abs_parts-absolute :
    (path : Text) (kept : List Text)
    → abs_loop
        (suc (length (split b'/' path)))
        ([] ∷ split b'/' path)
        (pos 1)
        (pos (suc (length (split b'/' path))))
      ≡ ok kept
    → abs_parts (b'/' ∷ path) ≡ ok (join (codes "/") kept)
unfolding abs_parts split
abs_parts-absolute path kept e = rw e refl

full_path-absolute : (dir_path path : Text) → full_path dir_path (b'/' ∷ path) ≡ b'/' ∷ path
unfolding full_path starts_with
full_path-absolute dir_path path = refl

not_special : (path : Text) → (has_scheme false (b'/' ∷ path) || is_standard (b'/' ∷ path)) ≡ false
unfolding has_scheme is_standard text_eq
not_special path = refl

-- `ToAbsPath` of a path that starts at the root and never climbs above it: its names, each behind a
-- slash.
pub to_abs_path-absolute :
    (dir_path path : Text) (names : List Text)
    → resolve [] (split b'/' path) ≡ some names
    → to_abs_path dir_path (b'/' ∷ path) ≡ ok (join (codes "/") ([] ∷ names))
unfolding to_abs_path
to_abs_path-absolute dir_path path names e =
    let parts = split b'/' path in
    let sum : suc 0 + length parts ≡ suc (length parts) = omega arith in
    let l =
      subst
        (λ (n : ℕ). abs_loop (suc (length parts)) ([] ∷ parts) (pos 1) (pos n) ≡ ok ([] ∷ names))
        sum (loop-resolve parts [] [] names e (suc (length parts)) (omega arith)) in
    rw (not_special path, full_path-absolute dir_path path) (abs_parts-absolute path ([] ∷ names) l)
