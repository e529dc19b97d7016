-- ===== src/EntityModules/Ancestors.antt =====
-- The types that a search tries: the type, and what stands before each of its dots, the last one first.
use survol.Base.{
  ℕ, zero, suc, ◌+◌, ◌≤◌, ◌<◌, ◌==◌, Text, List, [], ◌∷◌, ◌++◌, none, some, Option-cases, Bool,
  true, false, Bool-cases, if◌then◌else◌, length, take, get_elem?, ◌≡◌, refl, ap, inl, inr, arith,
}
use survol.Symbols.{rfind_in}
use survol.EntityModules.{or_zero}

unfoldable pub is_dot : Text → ℕ → Bool
is_dot t n = elim (get_elem? t n) [ none ↦ false | some c ↦ c == b'.' ]

-- The places of the dots below `n`, without the place 0.
unfoldable pub dots_below : Text → ℕ → List ℕ
dots_below t zero = []
dots_below t (suc n) =
    let rest = dots_below t n in if n == 0 then rest else (if is_dot t n then n ∷ rest else rest)

unfoldable pub tried : Text → ℕ → List ℕ
tried t n = if n == 0 then [] else n ∷ dots_below t n

rfind_in-snoc :
    (c d : ℕ) (s : Text) (i : ℕ)
    → rfind_in c (s ++ d ∷ []) i ≡ (if c == d then some (i + length s) else rfind_in c s i)
unfolding rfind_in
rfind_in-snoc c d [] i = elim (Bool-cases (c == d)) [
  | inl e ↦ rw e (ap some (omega arith))
  | inr n ↦ rw n refl
]
rfind_in-snoc c d (x ∷ s) i = elim (Bool-cases (c == d)) [
  | inl e ↦ rw (rfind_in-snoc c d s (i + 1), e) (ap some (omega arith))
  | inr n ↦ rw (rfind_in-snoc c d s (i + 1), n) refl
]

rfind_in-lt : (c : ℕ) (s : Text) (i j : ℕ) → rfind_in c s i ≡ some j → j < i + length s
unfolding rfind_in
rfind_in-lt c [] i j e = cc (e)
rfind_in-lt c (d ∷ s) i j e = elim (Option-cases (rfind_in c s (i + 1))) [
  | inr (k, q) ↦
      let z : k ≡ j = ground (arith, e, q) in
      let lt = rfind_in-lt c s (i + 1) k q in omega (arith, lt, z)
  | inl q ↦ elim (Bool-cases (c == d)) [
    | inl y ↦ let z : i ≡ j = ground (arith, e, q, y) in omega (arith, z)
    | inr n ↦ absurd (ground (arith, e, q, n))
  ]
]

take-snoc : (t : Text) (n c : ℕ) → get_elem? t n ≡ some c → take (suc n) t ≡ take n t ++ c ∷ []
take-snoc [] n c e = cc (e)
take-snoc (x ∷ t) zero c e = let z : x ≡ c = ground (arith, e) in rw z refl
take-snoc (x ∷ t) (suc n) c e = ap (λ l. x ∷ l) (take-snoc t n c e)

length-take_le : (n : ℕ) (t : Text) → n ≤ length t → length (take n t) ≡ n
length-take_le zero t h = refl
length-take_le (suc n) [] h = ground arith
length-take_le (suc n) (x ∷ t) h = ap suc (length-take_le n t (omega arith))

get_elem?-below : (t : Text) (n : ℕ) → n < length t → (c : ℕ) × (get_elem? t n ≡ some c)
get_elem?-below [] n h = ground arith
get_elem?-below (x ∷ t) zero h = (x, refl)
get_elem?-below (x ∷ t) (suc n) h = get_elem?-below t n (omega arith)

rfind-dot :
    (t : Text) (n c : ℕ)
    → n ≤ length t
    → get_elem? t n ≡ some c
    → rfind_in b'.' (take (suc n) t) 0 ≡ (if is_dot t n then some n else rfind_in b'.' (take n t) 0)
unfolding is_dot
rfind-dot t n c h e =
    let z : 0 + length (take n t) ≡ n = omega (arith, length-take_le n t h) in
    elim (Bool-cases (c == b'.')) [
      | inl y ↦
          let y' : (b'.' == c) ≡ true = ground (arith, y) in
          rw (is_dot, e, y, take-snoc t n c e, rfind_in-snoc b'.' c (take n t) 0, y') (ap some z)
      | inr m ↦
          let m' : (b'.' == c) ≡ false = ground (arith, m) in
          rw (is_dot, e, m, take-snoc t n c e, rfind_in-snoc b'.' c (take n t) 0, m') refl
    ]

-- The next place of the loop, and those that follow it.
pub dots_below-rfind :
    (t : Text) (n : ℕ)
    → n ≤ length t
    → dots_below t n ≡ tried t (or_zero (rfind_in b'.' (take n t) 0))
unfolding dots_below tried rfind_in
dots_below-rfind t zero h = refl
dots_below-rfind t (suc zero) h =
    let (c, e) = get_elem?-below t zero (omega arith) in
    let r = rfind-dot t zero c (omega arith) e in
    elim (Bool-cases (is_dot t zero)) [ inl y ↦ rw (r, y) refl | inr m ↦ rw (r, m) refl ]
dots_below-rfind t (suc (suc n)) h =
    let (c, e) = get_elem?-below t (suc n) (omega arith) in
    let r = rfind-dot t (suc n) c (omega arith) e in
    let nz : (suc n == 0) ≡ false = ground arith in
    elim (Bool-cases (is_dot t (suc n))) [
      | inl y ↦ rw (r, y, nz) refl
      | inr m ↦ rw (r, m, nz) (dots_below-rfind t (suc n) (omega arith))
    ]

pub rfind-shorter :
    (t : Text) (n : ℕ) → n ≤ length t → 0 < n → or_zero (rfind_in b'.' (take n t) 0) < n
rfind-shorter t n h p = elim (Option-cases (rfind_in b'.' (take n t) 0)) [
  | inl e ↦ rw e p
  | inr (j, e) ↦
      let lt = rfind_in-lt b'.' (take n t) 0 j e in
      let z = length-take_le n t h in rw e (omega (arith, lt, z))
]
