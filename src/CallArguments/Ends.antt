-- ===== src/CallArguments/Ends.antt =====
-- The rounds of the loop of `ParseCallArguments` at the end of an argument.
use mathlib.Core.List.{reverse, reverse-append}
use survol.Base.{
  ℕ, suc, ◌+◌, ◌-◌, Text, codes, starts_with, ends_with, List, [], ◌∷◌, ◌++◌, append_assoc, Bool,
  false, length, length-append, slice, take-append, drop-append_self, ◌≡◌, ◌≢◌, refl, sym, ◌∙◌,
  arith, All, All-append,
}
use survol.Batch.Values.{Arg}
use survol.CallArguments.{
  char_at, skip, trim_end, is_space, is_quote, is_space_or_quote, clean, end_argument,
}
use survol.CallArguments.Plain.{IsPlain, at, char_at-append, skip_stay, trim_stay}

All-reverse : (P : ℕ → Type 0) (w : Text) → All P w → All P (reverse w)
All-reverse P [] h = tt
All-reverse P (c ∷ w) h =
    rw (reverse-append (c ∷ []) w)
      (All-append P (reverse w) (c ∷ []) (All-reverse P w h.1) (h.0, tt))

no_truncation : (w : Text) → All IsPlain w → starts_with w (codes "...\"") ≡ false
unfolding starts_with
no_truncation [] h = refl
no_truncation (a ∷ []) h = ground arith
no_truncation (a ∷ b ∷ []) h = ground arith
no_truncation (a ∷ b ∷ c ∷ []) h = ground arith
no_truncation (a ∷ b ∷ c ∷ d ∷ w) h = ground arith

clean-plain : (w : Text) → All IsPlain w → clean w ≡ w
unfolding clean ends_with
clean-plain w h = rw (clean, no_truncation (reverse w) (All-reverse IsPlain w h))

-- The last character of a text that is not empty.
last-IsPlain :
    (pre w post : Text)
    → w ≢ []
    → All IsPlain w
    → (e : ℕ) × (length pre + length w ≡ suc e) × IsPlain (char_at (pre ++ (w ++ post)) e)
last-IsPlain pre [] post ne h = absurd (ne refl)
last-IsPlain pre (c ∷ []) post ne h = (length pre, omega arith, rw (char_at-append pre c post) h.0)
last-IsPlain pre (c ∷ d ∷ w) post ne h =
    let (e, q, p) = last-IsPlain (pre ++ c ∷ []) (d ∷ w) post (λ z. cc (z)) h.1 in
    (
      e,
      omega (arith, q, length-append pre (c ∷ [])),
      rw (append_assoc pre (c ∷ []) (d ∷ (w ++ post))) at p,
    )

pub slice_word :
    (pre w post : Text) → slice (pre ++ (w ++ post)) (length pre) (length pre + length w) ≡ w
slice_word pre w post =
    let e : length pre + length w - length pre ≡ length w = omega arith in
    rw (e, drop-append_self pre (w ++ post), take-append w post)

pub first-IsPlain :
    (pre w post : Text)
    → w ≢ []
    → All IsPlain w
    → IsPlain (char_at (pre ++ (w ++ post)) (length pre))
first-IsPlain pre [] post ne h = absurd (ne refl)
first-IsPlain pre (c ∷ w) post ne h = rw (char_at-append pre c (w ++ post)) h.0

pub plain_no_space : (c : ℕ) → IsPlain c → is_space_or_quote c ≡ false
plain_no_space c p = ground arith

plain_no_quote : (c : ℕ) → IsPlain c → is_quote c ≡ false
plain_no_quote c p = ground arith

-- The end of a plain argument `w`, whose separator was just read, at whatever state of `finished`.
pub end_plain :
    (s : Text) (len : ℕ) (pre w post : Text) (done : Bool) (result : List Arg)
    → s ≡ pre ++ (w ++ post)
    → w ≢ []
    → All IsPlain w
    → end_argument s len
        (record (at (length pre) (length pre + length w + 1) result) { finished = done })
      ≡ record (at
          (skip is_space s len (length pre + length w + 1))
          (skip is_space s len (length pre + length w + 1))
          (result ++ Arg.text w ∷ [])) { finished = done }
unfolding end_argument
end_plain s len pre w post done result q ne h =
    let (e, len_w, p) = last-IsPlain pre w post ne h in
    let start : skip is_space_or_quote s len (length pre) ≡ length pre =
      skip_stay is_space_or_quote s len (length pre)
        (rw q (plain_no_space _ (first-IsPlain pre w post ne h))) in
    let back : length pre + length w + 1 - 1 ≡ suc e = omega (arith, len_w) in
    let stop : trim_end is_quote s (length pre) (suc e) ≡ length pre + length w =
      trim_stay is_quote s (length pre) e (rw q (plain_no_quote _ p)) ∙ sym len_w in
    let word : slice s (length pre) (length pre + length w) ≡ w = rw q (slice_word pre w post) in
    rw (end_argument, start, back, stop, word, clean-plain w h)
