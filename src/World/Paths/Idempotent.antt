-- ===== src/World/Paths/Idempotent.antt =====
-- A path that `ToAbsPath` has made comes back as it is.
use survol.Base.{
  ℕ, ◌==◌, Text, codes, text_eq, List, [], ◌∷◌, ◌++◌, append_assoc, some, false, ◌||◌, Bool-cases,
  ◌≡◌, ◌∙◌, ◌⊎◌, inl, inr, ==_refl, sym, refl, ap, subst, arith, All, All-append, drop_last,
  append-nil,
}
use survol.Batch.Calls.{join}
use survol.Batch.Failure.{ok}
use survol.World.Paths.{split, add_char, to_abs_path}
use survol.World.Paths.Normal.{
  resolve, resolve-up, resolve-top, resolve-same, resolve-next, last_cases, to_abs_path-absolute,
}

-- A part that is a name, and not "..", "." or empty.
pub record IsName (part : Text) : Type 0 where
  pub not_parent : text_eq part (codes "..") ≡ false
  pub not_skipped : (text_eq part (codes ".") || text_eq part []) ≡ false

-- The separator does not occur.
abbrev pub IsWithout : ℕ → Text → Type 0
IsWithout sep = All (λ c. (c == sep) ≡ false)

All-drop_last : (P : Text → Type 0) (l : List Text) → All P l → All P (drop_last l)
All-drop_last P [] h = h
All-drop_last P (x ∷ []) h = tt
All-drop_last P (x ∷ y ∷ l) (h, hs) = (h, All-drop_last P (y ∷ l) hs)

resolve-cases :
    (p : Text) (rest kept out : List Text)
    → resolve kept (p ∷ rest) ≡ some out
    → (resolve (drop_last kept) rest ≡ some out)
      ⊎ ((resolve kept rest ≡ some out) ⊎ (IsName p × (resolve (kept ++ p ∷ []) rest ≡ some out)))
resolve-cases p rest kept out e = elim (Bool-cases (text_eq p (codes ".."))) [
  | inl up ↦ elim (last_cases kept) [
    | inl z ↦
        let top = subst (λ (k : List Text). resolve k (p ∷ rest) ≡ some out) z e in
        cc (top, resolve-top p rest up)
    | inr (i, d, s, t) ↦
        let here = subst (λ (k : List Text). resolve k (p ∷ rest) ≡ some out) s e in
        inl (rw t (sym (resolve-up i d p rest up) ∙ here))
  ]
  | inr other ↦ elim (Bool-cases (text_eq p (codes ".") || text_eq p [])) [
    | inl same ↦ inr (inl (sym (resolve-same kept p rest other same) ∙ e))
    | inr next ↦ inr (
        inr (
          record { not_parent = other; not_skipped = next },
          sym (resolve-next kept p rest other next) ∙ e,
        ))
  ]
]

-- What holds of all parts holds of the names.
resolve-All :
    (P : Text → Type 0) (rest kept out : List Text)
    → All P rest
    → All P kept
    → resolve kept rest ≡ some out
    → All P out
unfolding resolve
resolve-All P [] kept out h k e = subst (All P) (ground (arith, e)) k
resolve-All P (p ∷ rest) kept out (h, hs) k e = elim (resolve-cases p rest kept out e) [
  | inl up ↦ resolve-All P rest (drop_last kept) out hs (All-drop_last P kept k) up
  | inr (inl same) ↦ resolve-All P rest kept out hs k same
  | inr (inr next) ↦
      resolve-All P rest (kept ++ p ∷ []) out hs (All-append P kept (p ∷ []) k (h, tt)) next.1
]

resolve-IsName :
    (rest kept out : List Text) → All IsName kept → resolve kept rest ≡ some out → All IsName out
unfolding resolve
resolve-IsName [] kept out k e = subst (All IsName) (ground (arith, e)) k
resolve-IsName (p ∷ rest) kept out k e = elim (resolve-cases p rest kept out e) [
  | inl up ↦ resolve-IsName rest (drop_last kept) out (All-drop_last IsName kept k) up
  | inr (inl same) ↦ resolve-IsName rest kept out k same
  | inr (inr next) ↦
      resolve-IsName rest (kept ++ p ∷ []) out (All-append IsName kept (p ∷ []) k (next.0, tt))
        next.1
]

-- Names are all kept.
resolve-names : (rest kept : List Text) → All IsName rest → resolve kept rest ≡ some (kept ++ rest)
unfolding resolve
resolve-names [] kept h = ap some (sym (append-nil kept))
resolve-names (p ∷ rest) kept (h, hs) =
    rw (h.not_parent, h.not_skipped)
      (resolve-names rest (kept ++ p ∷ []) hs ∙ ap some (append_assoc kept (p ∷ []) rest))

add_char-IsWithout :
    (sep c : ℕ) (l : List Text)
    → (c == sep) ≡ false
    → All (IsWithout sep) l
    → All (IsWithout sep) (add_char c l)
unfolding add_char
add_char-IsWithout sep c [] e h = ((e, tt), tt)
add_char-IsWithout sep c (t ∷ ts) e (h, hs) = ((e, h), hs)

split-IsWithout : (sep : ℕ) (s : Text) → All (IsWithout sep) (split sep s)
unfolding split
split-IsWithout sep [] = (tt, tt)
split-IsWithout sep (c ∷ s) = elim (Bool-cases (c == sep)) [
  | inl e ↦ rw e (tt, split-IsWithout sep s)
  | inr e ↦ rw e (add_char-IsWithout sep c (split sep s) e (split-IsWithout sep s))
]

split-plain : (sep : ℕ) (t : Text) → IsWithout sep t → split sep t ≡ t ∷ []
unfolding split add_char
split-plain sep [] h = refl
split-plain sep (c ∷ t) (e, h) = rw (e, split-plain sep t h) refl

split-behind : (sep : ℕ) (t s : Text) → IsWithout sep t → split sep (t ++ sep ∷ s) ≡ t ∷ split sep s
unfolding split add_char
split-behind sep [] s h = rw (==_refl sep) refl
split-behind sep (c ∷ t) s (e, h) = rw (e, split-behind sep t s h) refl

pub split-join :
    (sep : ℕ) (t : Text) (ts : List Text)
    → All (IsWithout sep) (t ∷ ts)
    → split sep (join (sep ∷ []) (t ∷ ts)) ≡ t ∷ ts
unfolding join
split-join sep t [] (h, hs) = split-plain sep t h
split-join sep t (u ∷ ts) (h, hs) =
    split-behind sep t (join (sep ∷ []) (u ∷ ts)) h
    ∙ ap (λ (l : List Text). t ∷ l) (split-join sep u ts hs)

-- A path that `ToAbsPath` has made of a path from the root that does not climb above it, and is not
-- the root itself, is not changed by `ToAbsPath`, in whatever directory.
pub to_abs_path-again :
    (dir_path dir_path' path name q : Text) (names : List Text)
    → resolve [] (split b'/' path) ≡ some (name ∷ names)
    → to_abs_path dir_path (b'/' ∷ path) ≡ ok q
    → to_abs_path dir_path' q ≡ ok q
unfolding join
to_abs_path-again dir_path dir_path' path name q names e f =
    let out = name ∷ names in
    let shape : join (codes "/") ([] ∷ out) ≡ q =
      ground (arith, f, to_abs_path-absolute dir_path path out e) in
    let without =
      resolve-All (IsWithout b'/') (split b'/' path) [] out (split-IsWithout b'/' path) tt e in
    let named = resolve-IsName (split b'/' path) [] out tt e in
    let parts = split-join b'/' name names without in
    let again : resolve [] (split b'/' (join (codes "/") out)) ≡ some out =
      rw parts (resolve-names out [] named) in
    rw (sym shape) (to_abs_path-absolute dir_path' (join (codes "/") out) out again)
