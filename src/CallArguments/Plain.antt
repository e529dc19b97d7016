-- ===== src/CallArguments/Plain.antt =====
-- The rounds of the loop of `ParseCallArguments` over arguments with no quote, bracket or space.
use survol.Base.{
  ℕ, zero, suc, ◌+◌, ◌-◌, ◌≤◌, ◌<◌, lt→ltb, Text, List, [], ◌∷◌, ◌++◌, append_assoc, Bool, true,
  false, length, length-append, ◌≡◌, ◌≢◌, refl, sym, ◌∙◌, arith, All,
}
use survol.Batch.Values.{Arg}
use survol.CallArguments.{char_at, skip, skip_rounds, trim_end, Scan, read_char, scan_loop}

-- A character that separates, quotes and nests nothing.
abbrev pub IsPlain : ℕ → Type 0
IsPlain c =
    (c ≢ b' ')
    × (c ≢ b'"')
    × (c ≢ b'\\')
    × (c ≢ b',')
    × (c ≢ b'(')
    × (c ≢ b')')
    × (c ≢ b'[')
    × (c ≢ b']')
    × (c ≢ b'{')
    × (c ≢ b'}')

-- The loop at `curr`, in an argument that began at `start`, outside quotes and brackets.
abbrev pub at : ℕ → ℕ → List Arg → Scan
at start curr result = record {
  ix_start = start;
  ix_curr = curr;
  the_result = result;
  finished = false;
  in_quotes = false;
  level_parent = 0;
  is_escaped = false;
}

pub char_at-append : (pre : Text) (c : ℕ) (post : Text) → char_at (pre ++ c ∷ post) (length pre) ≡ c
char_at-append [] c post = refl
char_at-append (d ∷ pre) c post = char_at-append pre c post

pub read_plain :
    (nested : ℕ → List Arg × ℕ) (s : Text) (len c start curr : ℕ) (result : List Arg)
    → IsPlain c
    → read_char nested s len c (at start curr result) ≡ at start curr result
unfolding read_char
read_plain nested s len c start curr result p = ground arith

module _ (nested : ℕ → List Arg × ℕ) (s : Text) (len : ℕ) where
  pub loop_round :
      (fuel : ℕ) (pre : Text) (c : ℕ) (post : Text) (start : ℕ) (result : List Arg)
      → s ≡ pre ++ c ∷ post
      → length pre < len
      → scan_loop nested s len (suc fuel) (at start (length pre) result)
        ≡ scan_loop nested s len fuel (read_char nested s len c (at start (length pre + 1) result))
  unfolding scan_loop
  loop_round fuel pre c post start result e lt =
      let q : char_at s (length pre) ≡ c = rw e (char_at-append pre c post) in
      rw (scan_loop, q, lt→ltb (length pre) len lt)

  pub loop_plain :
      (w : Text) (fuel : ℕ) (pre post : Text) (start : ℕ) (result : List Arg)
      → All IsPlain w
      → s ≡ pre ++ (w ++ post)
      → length pre + length w ≤ len
      → scan_loop nested s len (length w + fuel) (at start (length pre) result)
        ≡ scan_loop nested s len fuel (at start (length pre + length w) result)
  loop_plain [] fuel pre post start result p e le =
      let a : 0 + fuel ≡ fuel = omega arith in
      let b : length pre + 0 ≡ length pre = omega arith in rw (a, b)
  loop_plain (c ∷ w) fuel pre post start result p e le =
      let a : suc (length w) + fuel ≡ suc (length w + fuel) = omega arith in
      let b : length (pre ++ c ∷ []) ≡ length pre + 1 = omega (arith, length-append pre (c ∷ [])) in
      let d : length pre + 1 + length w ≡ length pre + suc (length w) = omega arith in
      rw (
        a,
        loop_round (length w + fuel) pre c (w ++ post) start result e (omega arith),
        read_plain nested s len c start (length pre + 1) result p.0,
        ← b,
        loop_plain w fuel (pre ++ c ∷ []) post start result p.1
            (e ∙ sym (append_assoc pre (c ∷ []) (w ++ post))) (omega (arith, b)),
        b,
        d,
      )

-- A skip that stays where it is, and one over a single character.
pub skip_stay : (p : ℕ → Bool) (s : Text) (len i : ℕ) → p (char_at s i) ≡ false → skip p s len i ≡ i
unfolding skip
skip_stay p s len i e = go (len - i)
  where
    go : (n : ℕ) → skip_rounds n p s i ≡ i
    go zero = refl
    go (suc n) = rw (skip_rounds, e)

pub skip_one :
    (p : ℕ → Bool) (s : Text) (len i : ℕ)
    → i < len
    → p (char_at s i) ≡ true
    → p (char_at s (i + 1)) ≡ false
    → skip p s len i ≡ i + 1
unfolding skip
skip_one p s len i lt e e' =
    let n : len - i ≡ suc (len - (i + 1)) = omega arith in
    rw (n, skip_rounds, e) (skip_stay p s len (i + 1) e')

pub trim_stay :
    (p : ℕ → Bool) (s : Text) (start e : ℕ)
    → p (char_at s e) ≡ false
    → trim_end p s start (suc e) ≡ suc e
unfolding trim_end
trim_stay p s start e h = ground arith
