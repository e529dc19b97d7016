-- ===== src/Line/Places.antt =====
-- Searches and slices at known places of a text.
use survol.Base.{
  ℕ, suc, ◌+◌, ==_refl, Text, codes, starts_with, [], ◌∷◌, ◌++◌, some, false, length, take, drop,
  slice, take-append, drop-append_self, ◌≡◌, ◌≢◌, refl, ap, ◌∙◌, arith, All, Bool-cases, inl, inr,
}
use survol.CallArguments.{find, find_in}
use survol.CallArguments.Ends.{slice_word}
use survol.Symbols.{rfind_in, strip, left_strip, right_strip, is_white}
use survol.Symbols.Demangled.{IsPlain, find_in-first, rfind_in-last}

pub right_strip-space : (t : Text) → right_strip (t ++ b' ' ∷ []) ≡ right_strip t
unfolding right_strip is_white
right_strip-space [] = refl
right_strip-space (c ∷ t) = rw (right_strip-space t)

pub left_strip-space :
    (t : Text) → right_strip (left_strip (t ++ b' ' ∷ [])) ≡ right_strip (left_strip t)
unfolding left_strip
left_strip-space [] = unfold is_white right_strip in refl
left_strip-space (c ∷ t) = elim (Bool-cases (is_white c)) [
  | inl e ↦ rw e (left_strip-space t)
  | inr e ↦ rw e (right_strip-space (c ∷ t))
]

-- One space on each side of a text goes with the others.
pub strip-spaces : (t : Text) → strip (b' ' ∷ (t ++ b' ' ∷ [])) ≡ strip t
unfolding strip left_strip
strip-spaces t = unfold is_white in left_strip-space t

pub find-here :
    (s a : Text) (c : ℕ) (b : Text) (i : ℕ)
    → s ≡ a ++ c ∷ b
    → length a ≡ i
    → find s (c ∷ []) i ≡ some i
unfolding find find_in starts_with
find-here s a c b i e q = rw (e, ← q, drop-append_self a (c ∷ b), ==_refl c)

pub find-parenthesis :
    (c : ℕ) (name rest : Text)
    → All IsPlain (c ∷ name)
    → find (c ∷ (name ++ b'(' ∷ rest)) (codes "(") 0 ≡ some (suc (length name))
unfolding find
find-parenthesis c name rest h = find_in-first (c ∷ name) rest 0 h ∙ ap some (omega arith)

pub slice-place :
    (s pre w post : Text) (i j : ℕ)
    → s ≡ pre ++ (w ++ post)
    → i ≡ length pre
    → j ≡ length pre + length w
    → slice s i j ≡ w
slice-place s pre w post i j e p q = rw (e, p, q) (slice_word pre w post)

pub take-place : (s a b : Text) (i : ℕ) → s ≡ a ++ b → i ≡ length a → take i s ≡ a
take-place s a b i e q = rw (e, q) (take-append a b)

pub rfind_in-place :
    (p : ℕ) (s pre suffix : Text)
    → All (λ c. c ≢ p) suffix
    → s ≡ pre ++ p ∷ suffix
    → rfind_in p s 0 ≡ some (length pre)
rfind_in-place p s pre suffix h e =
    rw e
      (rfind_in-last p pre suffix 0 h ∙ (let z : 0 + length pre ≡ length pre = omega arith in rw z))

pub not_started :
    (c : ℕ) (s : Text) (d : ℕ) (p : Text) → c ≢ d → starts_with (c ∷ s) (d ∷ p) ≡ false
unfolding starts_with
not_started c s d p h = ground (arith, h)

pub drop-place : (s a b : Text) (i : ℕ) → s ≡ a ++ b → i ≡ length a → drop i s ≡ b
drop-place s a b i e q = rw (e, q) (drop-append_self a b)
