-- ===== src/Flow/Filtering.antt =====
-- `FilterMatchedBatches` against a plain description: its index loop, which deletes from the list
-- that it walks, removes each unfinished half that stands just before its resumed half.
use survol.Base.{
  ℕ, ◌+◌, ◌-◌, ◌==◌, ==_iff, ==_refl, text_eq_iff, List, [], ◌∷◌, none, some, Bool, true, ◌&&◌,
  if◌then◌else◌, splice, ◌≡◌, ◌≢◌, refl, sym, ap, ◌∙◌, arith, Bool-cases, inl, inr, All,
}
use survol.Batch.{BatchStatus, Store, write, status_code, matched, merged}
use survol.Batch.Calls.{BatchLet}
use survol.Batch.Failure.{ok}
use survol.Flow.{is_pair, refers_to, check_pair, is_joined, Filtered, filter_step}

-- `x` is the unfinished half of the call `y`.
abbrev pub is_half_of : Store → BatchLet → BatchLet → Bool
is_half_of h x y = is_pair h x y && refers_to (h.core x.core).resumed_batch y.core

-- The description: an entry goes if the next entry is its resumed half.
unfoldable pub without_halves : Store → List BatchLet → List BatchLet
without_halves h [] = []
without_halves h (x ∷ []) = x ∷ []
without_halves h (x ∷ y ∷ l) =
    let rest = without_halves h (y ∷ l) in if is_half_of h x y then rest else x ∷ rest

-- A waiting half refers to a core that refers back to it, and so does a resumed half.
abbrev pub HalfLinked : Store → BatchLet → Type 0
HalfLinked h b =
    (h.core b.core).status ≡ matched
    → (r : ℕ) × ((h.core b.core).resumed_batch ≡ some r)
      × ((h.core r).unfinished_batch ≡ some b.core)

abbrev pub CallLinked : Store → BatchLet → Type 0
CallLinked h b =
    (h.core b.core).status ≡ merged
    → (u : ℕ) × ((h.core b.core).unfinished_batch ≡ some u)
      × ((h.core u).resumed_batch ≡ some b.core)

-- Neighbours of which the first is a half and the second a call with both halves are calls of one
-- function.
abbrev pub SameFunctions : Store → List BatchLet → Type 0
SameFunctions h [] = Unit
SameFunctions h (x ∷ []) = Unit
SameFunctions h (x ∷ y ∷ l) =
    (is_pair h x y ≡ true → (h.core x.core).func_nam ≡ (h.core y.core).func_nam)
    × SameFunctions h (y ∷ l)

abbrev pub DistinctCores : List BatchLet → Type 0
DistinctCores [] = Unit
DistinctCores (x ∷ l) = All (λ y. x.core ≢ y.core) l × DistinctCores l

pub record IsLinked (h : Store) (l : List BatchLet) : Type 0 where
  pub halves : All (HalfLinked h) l
  pub calls : All (CallLinked h) l
  pub functions : SameFunctions h l
  pub distinct : DistinctCores l

-- One round on a pair that passes the checks.
module _ (g : Store) (x y : BatchLet) (r u : ℕ) (px : (g.core x.core).status ≡ matched)
    (py : (g.core y.core).status ≡ merged)
    (same : (g.core x.core).func_nam ≡ (g.core y.core).func_nam)
    (rx : (g.core x.core).resumed_batch ≡ some r) (ur : (g.core r).unfinished_batch ≡ some x.core)
    (uy : (g.core y.core).unfinished_batch ≡ some u)
    (ru : (g.core u).resumed_batch ≡ some y.core) where
  check_pair-eq-ok : check_pair g x y ≡ ok tt
  unfolding check_pair
  check_pair-eq-ok = rw (
    check_pair,
    (text_eq_iff (g.core x.core).func_nam (g.core y.core).func_nam).1 same,
    rx,
    ur,
    ==_refl x.core,
    uy,
    ru,
    ==_refl y.core,
  )

  is_joined-eq : is_joined g x y ≡ (r == y.core)
  is_joined-eq = ground (arith, rx, ur, uy, ==_iff r y.core, ==_iff u x.core)

pub status_at :
    (st want : BatchStatus) (n : ℕ)
    → status_code want ≡ n
    → (status_code st == n) ≡ true
    → st ≡ want
status_at st want n e h = ground arith

pub and_left : (a b : Bool) → (a && b) ≡ true → a ≡ true
and_left a b e = ground arith

pub and_right : (a b : Bool) → (a && b) ≡ true → b ≡ true
and_right a b e = ground arith

-- The store after the half of `y` is removed.
abbrev pub cleared : Store → ℕ → Store
cleared g a = write g a (record (g.core a) { unfinished_batch = none })

-- `g` is the store `h`, in which links of calls that were already handled may have been cleared; the
-- entries from `x` on are as they were.
pub record Agrees (h g : Store) (x : BatchLet) (rest : List BatchLet) : Type 0 where
  pub fields :
      (a : ℕ)
      → ((g.core a).status ≡ (h.core a).status)
        × ((g.core a).func_nam ≡ (h.core a).func_nam)
        × ((g.core a).resumed_batch ≡ (h.core a).resumed_batch)
  pub halves :
      All
        (λ e. (a : ℕ) → (h.core a).unfinished_batch ≡ some e.core → g.core a ≡ h.core a)
        (x ∷ rest)
  pub entries : All (λ e. g.core e.core ≡ h.core e.core) rest

module _ (h : Store) (x y : BatchLet) (rest : List BatchLet) (s : Filtered)
    (agrees : Agrees h s.store x (y ∷ rest)) (linked : IsLinked h (x ∷ y ∷ rest)) where
  is_pair_kept : is_pair s.store x y ≡ is_pair h x y
  is_pair_kept = rw ((agrees.fields x.core).0, agrees.entries.0)

  abbrev pub after : ℕ → Filtered
  after idx = record {
    store = cleared s.store y.core;
    batches = splice s.batches (idx - 1) idx [];
    subst = s.subst + 1;
  }

  pub filter_step-eq :
      (idx : ℕ) → filter_step s idx x y ≡ ok (if is_half_of h x y then after idx else s)
  unfolding filter_step
  filter_step-eq idx = elim (Bool-cases (is_pair h x y)) [
    | inr e ↦ rw (filter_step, is_pair_kept, e)
    | inl e ↦
        let px : (h.core x.core).status ≡ matched = status_at _ matched 4 refl (and_left _ _ e) in
        let py : (h.core y.core).status ≡ merged = status_at _ merged 5 refl (and_right _ _ e) in
        let (r, rx, ur) = linked.halves.0 px in
        let (u, uy, ru) = linked.calls.1.0 py in
        let fx = agrees.fields x.core in
        let ey = agrees.entries.0 in
        let rx' : (s.store.core x.core).resumed_batch ≡ some r = fx.2 ∙ rx in
        let uy' : (s.store.core y.core).unfinished_batch ≡ some u =
          ap (λ c. c.unfinished_batch) ey ∙ uy in
        let ur' : (s.store.core r).unfinished_batch ≡ some x.core =
          ap (λ c. c.unfinished_batch) (agrees.halves.0 r ur) ∙ ur in
        let ru' : (s.store.core u).resumed_batch ≡ some y.core = (agrees.fields u).2 ∙ ru in
        let px' : (s.store.core x.core).status ≡ matched = fx.0 ∙ px in
        let py' : (s.store.core y.core).status ≡ merged = ap (λ c. c.status) ey ∙ py in
        let same : (s.store.core x.core).func_nam ≡ (s.store.core y.core).func_nam =
          fx.1 ∙ linked.functions.0 e ∙ sym (ap (λ c. c.func_nam) ey) in
        rw
          (
            filter_step,
            is_pair_kept,
            e,
            check_pair-eq-ok s.store x y r u px' py' same rx' ur' uy' ru',
            is_joined-eq s.store x y r u px' py' same rx' ur' uy' ru',
            rx,
          )
          (elim (Bool-cases (r == y.core)) [ inl q ↦ rw q | inr q ↦ rw q ])
  ]
