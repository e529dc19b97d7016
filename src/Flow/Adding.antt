-- ===== src/Flow/Adding.antt =====
-- The coroutine behind `SendBatch` does what `AddBatch` does, and neither loses a call.
use survol.Base.{
  ℕ, ◌+◌, ◌-◌, List, [], ◌∷◌, ◌++◌, Option, none, some, false, if◌then◌else◌, length, get_elem?,
  set, get_last?, drop_last, get_last?-append, drop_last-append, ◌⊎◌, ◌≡◌, refl, ap, arith,
  Bool-cases, Option-cases, inl, inr, All,
}
use survol.Batch.{Store}
use survol.Batch.Calls.{BatchLet, same_call}
use survol.Flow.{bump, add_batch, Coroutine, send_batch}

unfoldable pub add_all : Store → List BatchLet → List BatchLet → List BatchLet
add_all h l [] = l
add_all h l (b ∷ bs) = add_all h (add_batch h l b) bs

unfoldable pub send_all : Store → Coroutine → List BatchLet → Coroutine
send_all h c [] = c
send_all h c (b ∷ bs) = send_all h (send_batch h c b) bs

abbrev pub last_place : List BatchLet → Option ℕ
last_place [] = none
last_place (x ∷ xs) = some (length xs)

get_elem?-length :
    (x : BatchLet) (xs : List BatchLet) → get_elem? (x ∷ xs) (length xs) ≡ get_last? (x ∷ xs)
get_elem?-length x [] = refl
get_elem?-length x (y ∷ xs) = get_elem?-length y xs

set-length :
    (x v : BatchLet) (xs : List BatchLet)
    → set (x ∷ xs) (length xs) v ≡ drop_last (x ∷ xs) ++ v ∷ []
set-length x v [] = refl
set-length x v (y ∷ xs) = ap (λ l. x ∷ l) (set-length y v xs)

last_place-snoc :
    (l : List BatchLet) (b : BatchLet) → last_place (l ++ b ∷ []) ≡ some (length (l ++ b ∷ []) - 1)
last_place-snoc [] b = refl
last_place-snoc (x ∷ xs) b = ground arith

get_last?-ne-none : (x : BatchLet) (xs : List BatchLet) → get_last? (x ∷ xs) ≡ none → ⊥
get_last?-ne-none x [] e = cc
get_last?-ne-none x (y ∷ xs) e = get_last?-ne-none y xs e

-- The two shapes of the list after a call is added.
module _ (h : Store) (b : BatchLet) where
  send-eq-add :
      (l : List BatchLet)
      → send_batch h (record { batches = l; last = last_place l }) b
        ≡ record { batches = add_batch h l b; last = last_place (add_batch h l b) }
  unfolding send_batch add_batch
  send-eq-add [] = refl
  send-eq-add (x ∷ xs) = elim (Option-cases (get_last? (x ∷ xs))) [
    | inl e ↦ absurd (get_last?-ne-none x xs e)
    | inr (last, e) ↦ elim (Bool-cases (same_call h last b)) [
      | inl same ↦ ground (
        arith,
        e,
        same,
        get_elem?-length x xs,
        set-length x (bump last) xs,
        last_place-snoc (drop_last (x ∷ xs)) (bump last),
      )
      | inr new ↦ ground (arith, e, new, get_elem?-length x xs, last_place-snoc (x ∷ xs) b)
    ]
  ]

batches-send_all_from :
    (h : Store) (l cs : List BatchLet)
    → (send_all h (record { batches = l; last = last_place l }) cs).batches ≡ add_all h l cs
unfolding send_all add_all
batches-send_all_from h l [] = refl
batches-send_all_from h l (b ∷ cs) =
    rw (send_all, send-eq-add h b l) (batches-send_all_from h (add_batch h l b) cs)

-- Sending calls to the coroutine one after the other builds the list that `AddBatch` builds.
pub batches-send_all :
    (h : Store) (bs : List BatchLet)
    → (send_all h (record { batches = []; last = none }) bs).batches ≡ add_all h [] bs
batches-send_all h bs = batches-send_all_from h [] bs

-- How many calls the entries of a flow stand for.
unfoldable pub total_occurrences : List BatchLet → ℕ
total_occurrences [] = 0
total_occurrences (b ∷ l) = b.occurrences + total_occurrences l

total_occurrences-append :
    (l m : List BatchLet) → total_occurrences (l ++ m) ≡ total_occurrences l + total_occurrences m
unfolding total_occurrences
total_occurrences-append [] m = omega arith
total_occurrences-append (b ∷ l) m = omega (arith, total_occurrences-append l m)

-- No entry is the same call as the one before it.
abbrev pub Alternates : Store → List BatchLet → Type 0
Alternates h [] = Unit
Alternates h (x ∷ []) = Unit
Alternates h (x ∷ y ∷ l) = (same_call h x y ≡ false) × Alternates h (y ∷ l)

-- A list is empty, or it is what stands before the last entry and that entry.
snoc-cases :
    (l : List BatchLet) → (l ≡ []) ⊎ ((i : List BatchLet) × (x : BatchLet) × (l ≡ i ++ x ∷ []))
snoc-cases [] = inl refl
snoc-cases (x ∷ l) = elim (snoc-cases l) [
  | inl e ↦ inr ([], x, ap (λ m. x ∷ m) e)
  | inr (i, y, e) ↦ inr (x ∷ i, y, ap (λ m. x ∷ m) e)
]

Alternates-snoc :
    (h : Store) (i : List BatchLet) (x y : BatchLet)
    → Alternates h (i ++ x ∷ [])
    → same_call h x y ≡ false
    → Alternates h ((i ++ x ∷ []) ++ y ∷ [])
Alternates-snoc h [] x y a e = (e, tt)
Alternates-snoc h (u ∷ []) x y a e = (a.0, (e, tt))
Alternates-snoc h (u ∷ v ∷ i) x y a e = (a.0, Alternates-snoc h (v ∷ i) x y a.1 e)

Alternates-bump :
    (h : Store) (i : List BatchLet) (x : BatchLet)
    → Alternates h (i ++ x ∷ [])
    → Alternates h (i ++ bump x ∷ [])
Alternates-bump h [] x a = tt
Alternates-bump h (u ∷ []) x a = ((unfold same_call in a.0), tt)
Alternates-bump h (u ∷ v ∷ i) x a = (a.0, Alternates-bump h (v ∷ i) x a.1)

module _ (h : Store) (b : BatchLet) where
  add_batch-snoc :
      (i : List BatchLet) (x : BatchLet)
      → add_batch h (i ++ x ∷ []) b
        ≡ (if same_call h x b then i ++ bump x ∷ [] else (i ++ x ∷ []) ++ b ∷ [])
  unfolding add_batch
  add_batch-snoc i x = rw (add_batch, get_last?-append i x, drop_last-append i x)

  add_batch-Alternates : (l : List BatchLet) → Alternates h l → Alternates h (add_batch h l b)
  add_batch-Alternates l a = elim (snoc-cases l) [
    | inl e ↦ rw e (unfold add_batch in tt)
    | inr (i, x, e) ↦
        let a' : Alternates h (i ++ x ∷ []) = rw (← e) a in
        rw (e, add_batch-snoc i x)
          (elim (Bool-cases (same_call h x b)) [
            | inl same ↦ rw same (Alternates-bump h i x a')
            | inr new ↦ rw new (Alternates-snoc h i x b a' new)
          ])
  ]

  total_occurrences-add_batch :
      (l : List BatchLet)
      → b.occurrences ≡ 1
      → total_occurrences (add_batch h l b) ≡ total_occurrences l + 1
  unfolding total_occurrences
  total_occurrences-add_batch l one = elim (snoc-cases l) [
    | inl e ↦ rw e (unfold add_batch in omega arith)
    | inr (i, x, e) ↦
        rw (e, add_batch-snoc i x)
          (ground (
            arith,
            total_occurrences-append i (bump x ∷ []),
            total_occurrences-append i (x ∷ []),
            total_occurrences-append (i ++ x ∷ []) (b ∷ []),
          ))
  ]

-- Adding single calls to a flow whose neighbours are different calls: the neighbours stay different
-- calls, and the entries stand for as many more calls as were added.
pub add_all_counts :
    (h : Store) (l bs : List BatchLet)
    → Alternates h l
    → All (λ b. b.occurrences ≡ 1) bs
    → Alternates h (add_all h l bs)
      × (total_occurrences (add_all h l bs) ≡ total_occurrences l + length bs)
unfolding add_all
add_all_counts h l [] a ones = (a, omega arith)
add_all_counts h l (b ∷ bs) a (one, ones) =
    let (a', t) = add_all_counts h (add_batch h l b) bs (add_batch-Alternates h b l a) ones in
    (a', omega (arith, total_occurrences-add_batch h b l one, t))
