-- ===== src/Symbols/Splitting.antt =====
-- `top_level_split` undoes the join of its parts.
use survol.Base.{
  ℤ, pos, ℕ, zero, suc, ◌+◌, ◌==◌, ==_refl, Text, starts_with, List, [], ◌∷◌, ◌++◌, append_assoc,
  append-nil, true, false, ◌&&◌, length, length-append, ◌≡◌, ◌≢◌, refl, ◌∙◌, arith, All,
}
use survol.Batch.Calls.{join}
use survol.Symbols.{is_zero, add_part, level_by_text, split_loop, top_level_split}

module _ (d : ℕ) (bracket_open bracket_close : Text) where
  -- From `level`, the separator occurs between brackets only, and the brackets are balanced.
  abbrev pub IsNested : ℤ → Text → Type 0
  IsNested level [] = level ≡ pos 0
  IsNested level (c ∷ s) =
      (((c == d) && is_zero level) ≡ false)
      × IsNested (level_by_text bracket_open bracket_close level c) s

  abbrev pub IsPart : Text → Type 0
  IsPart t = (t ≢ []) × IsNested (pos 0) t

  loop_part :
      (t rest : Text) (fuel : ℕ) (level : ℤ) (current : Text) (parts : List Text)
      → IsNested level t
      → split_loop
          (length t + fuel)
          (d ∷ [])
          bracket_open
          bracket_close
          (t ++ rest)
          level
          current
          parts
        ≡ split_loop fuel (d ∷ []) bracket_open bracket_close rest (pos 0) (current ++ t) parts
  unfolding split_loop starts_with
  loop_part [] rest fuel level current parts h =
      let e : 0 + fuel ≡ fuel = omega arith in rw (e, h, append-nil current)
  loop_part (c ∷ t) rest fuel level current parts h =
      let e : length (c ∷ t) + fuel ≡ suc (length t + fuel) = omega arith in
      let n : (((c == d) && true) && is_zero level) ≡ false = ground (arith, h.0) in
      rw (e, n)
        (loop_part t rest fuel (level_by_text bracket_open bracket_close level c)
            (current ++ c ∷ []) parts h.1
          ∙ rw (append_assoc current (c ∷ []) t))

  add_part-some : (parts : List Text) (t : Text) → t ≢ [] → add_part parts t ≡ parts ++ t ∷ []
  unfolding add_part
  add_part-some parts [] ne = absurd (ne refl)
  add_part-some parts (c ∷ t) ne = refl

  loop_end :
      (fuel : ℕ) (current : Text) (parts : List Text)
      → split_loop fuel (d ∷ []) bracket_open bracket_close [] (pos 0) current parts
        ≡ add_part parts current
  unfolding split_loop
  loop_end zero current parts = refl
  loop_end (suc fuel) current parts = refl

  loop_separator :
      (rest : Text) (fuel : ℕ) (current : Text) (parts : List Text)
      → split_loop (suc fuel) (d ∷ []) bracket_open bracket_close (d ∷ rest) (pos 0) current parts
        ≡ split_loop fuel
            (d ∷ [])
            bracket_open
            bracket_close
            rest
            (pos 0)
            []
            (add_part parts current)
  unfolding split_loop starts_with is_zero
  loop_separator rest fuel current parts = rw (==_refl d)

  loop_parts :
      (t : Text) (ts : List Text) (parts : List Text)
      → All IsPart (t ∷ ts)
      → split_loop
          (length (join (d ∷ []) (t ∷ ts)))
          (d ∷ [])
          bracket_open
          bracket_close
          (join (d ∷ []) (t ∷ ts))
          (pos 0)
          []
          parts
        ≡ parts ++ t ∷ ts
  unfolding join
  loop_parts t [] parts h =
      let step = loop_part t [] 0 (pos 0) [] parts h.0.1 in
      let e : length t + 0 ≡ length t = omega arith in
      let whole : split_loop (length t) (d ∷ []) bracket_open bracket_close t (pos 0) [] parts
          ≡ split_loop 0 (d ∷ []) bracket_open bracket_close [] (pos 0) t parts =
        rw (append-nil t, e) at step in
      whole ∙ (loop_end 0 t parts ∙ add_part-some parts t h.0.0)
  loop_parts t (u ∷ us) parts h =
      let more = join (d ∷ []) (u ∷ us) in
      let size : length (t ++ d ∷ more) ≡ length t + suc (length more) =
        omega (arith, length-append t (d ∷ more)) in
      rw size (
        loop_part t (d ∷ more) (suc (length more)) (pos 0) [] parts h.0.1
        ∙ (loop_separator more (length more) t parts
            ∙ (rw (add_part-some parts t h.0.0) (loop_parts u us (parts ++ t ∷ []) h.1)
                ∙ append_assoc parts (t ∷ []) (u ∷ us))))

  -- The parts of a list, joined by a separator of one character, are split again into the same list, if
  -- each is not empty, has balanced brackets, and holds the separator between brackets only.
  pub top_level_split-join :
      (t : Text) (ts : List Text)
      → All IsPart (t ∷ ts)
      → top_level_split (join (d ∷ []) (t ∷ ts)) (d ∷ []) bracket_open bracket_close ≡ t ∷ ts
  unfolding top_level_split
  top_level_split-join t ts h = rw (loop_parts t ts [] h)
