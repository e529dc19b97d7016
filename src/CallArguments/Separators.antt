-- ===== src/CallArguments/Separators.antt =====
-- Printed lists of arguments, and the separators between them.
use survol.Base.{
  ℕ, ◌+◌, ◌<◌, Text, codes, List, [], ◌∷◌, ◌++◌, append_assoc, append-nil, true, false, length,
  length-append, ◌≡◌, ◌≢◌, refl, sym, ap, ◌∙◌, arith, All,
}
use survol.Batch.Values.{Arg}
use survol.Batch.Calls.{join}
use survol.CallArguments.{char_at, skip, is_space, Scan}
use survol.CallArguments.Plain.{IsPlain, at, char_at-append, skip_one}
use survol.CallArguments.Ends.{first-IsPlain}

abbrev pub IsPlainArgument : Text → Type 0
IsPlainArgument w = (w ≢ []) × All IsPlain w

abbrev pub printed : List Text → Text
printed args = join (codes ", ") args

-- The loop stops when the closing parenthesis was read.
abbrev pub stopped : ℕ → List Arg → Scan
stopped i result = record (at i i result) { finished = true }

pub no_space : (c : ℕ) → IsPlain c → is_space c ≡ false
no_space c p = ground arith

pub length_pos : (w : Text) → w ≢ [] → 0 < length w
length_pos [] ne = absurd (ne refl)
length_pos (c ∷ w) ne = omega arith

pub char_at_place :
    (s a : Text) (c : ℕ) (b : Text) (i : ℕ) → s ≡ a ++ c ∷ b → i ≡ length a → char_at s i ≡ c
char_at_place s a c b i e q = rw (e, q) (char_at-append a c b)

pub printed-first : (v : Text) (ws : List Text) → (x : Text) × (printed (v ∷ ws) ≡ v ++ x)
unfolding join
printed-first v [] = ([], sym (append-nil v))
printed-first v (u ∷ ws) = (codes ", " ++ join (codes ", ") (u ∷ ws), refl)

-- The comma and the space that follow `w` are skipped up to the next argument.
pub separator_step :
    (s : Text) (len : ℕ) (pre w v : Text) (ws : List Text) (post : Text)
    → len ≡ length s
    → IsPlainArgument v
    → s ≡ (pre ++ (w ++ codes ", ")) ++ (printed (v ∷ ws) ++ post)
    → skip is_space s len (length pre + length w + 1) ≡ length pre + length w + 1 + 1
separator_step s len pre w v ws post at_end (ne, plain) e =
    let (x, first) = printed-first v ws in
    let a : length (pre ++ (w ++ codes ", ")) ≡ length pre + length w + 1 + 1 =
      omega (arith, length-append pre (w ++ codes ", "), length-append w (codes ", ")) in
    let b : length (pre ++ (w ++ codes ",")) ≡ length pre + length w + 1 =
      omega (arith, length-append pre (w ++ codes ","), length-append w (codes ",")) in
    let e1 : s ≡ (pre ++ (w ++ codes ", ")) ++ (v ++ (x ++ post)) =
      rw (← append_assoc v x post, ← first) e in
    let e2 : s ≡ (pre ++ (w ++ codes ",")) ++ b' ' ∷ (printed (v ∷ ws) ++ post) =
      e ∙ simp append_assoc in
    skip_one is_space s len (length pre + length w + 1)
      (omega (
        arith,
        at_end,
        ap length e2,
        b,
        length-append (pre ++ (w ++ codes ",")) (b' ' ∷ (printed (v ∷ ws) ++ post)),
      ))
      (let q = char_at_place s _ b' ' _ (length pre + length w + 1) e2 (sym b) in rw q)
      (rw (e1, ← a) (no_space _ (first-IsPlain (pre ++ (w ++ codes ", ")) v (x ++ post) ne plain)))
