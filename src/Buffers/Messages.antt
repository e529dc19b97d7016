-- ===== src/Buffers/Messages.antt =====
-- The messages that `BufferConcatenator` makes of a sequence of fragments.
use survol.Base.{
  ℕ, Text, List, [], ◌∷◌, ◌++◌, append_assoc, append-nil, Option, none, if◌then◌else◌, Dict, ◌≡◌,
  refl, sym, ap, ◌∙◌, Bool-cases, inl, inr,
}
use survol.Buffers.{
  Scanners, BufferConcatenator, new_concatenator, analyse_complete_buffer, is_partial, flushed,
  append_io_buffer,
}

-- Fragments with their sizes, in the order of the transfer.
abbrev pub Fragments : Type 0
Fragments = List (Text × ℕ)

unfoldable pub append_all : Scanners → BufferConcatenator → Fragments → BufferConcatenator
append_all scanners b [] = b
append_all scanners b ((fragment, size) ∷ l) =
    append_all scanners (append_io_buffer scanners b fragment size) l

-- The description: `current` is the message so far. A part prolongs it; any other fragment ends it, and
-- is a message of its own.
unfoldable pub ended : Text → List Text
ended [] = []
ended (c ∷ s) = (c ∷ s) ∷ []

unfoldable pub messages : Text → Fragments → List Text
messages current [] = []
messages current ((fragment, size) ∷ l) =
    let inside = messages (current ++ fragment) l in
    let outside = messages [] l in
    if is_partial fragment size then inside else ended current ++ fragment ∷ outside

unfoldable pub pending : Text → Fragments → Text
pending current [] = current
pending current ((fragment, size) ∷ l) =
    let inside = pending (current ++ fragment) l in
    let outside = pending [] l in if is_partial fragment size then inside else outside

unfoldable pub analyse_all :
    Scanners → List Text → Option (Dict Text (List Text)) → Option (Dict Text (List Text))
analyse_all scanners [] found = found
analyse_all scanners (m ∷ ms) found =
    analyse_all scanners ms (analyse_complete_buffer scanners m found)

unfoldable pub concat : List Text → Text
concat [] = []
concat (t ∷ ts) = t ++ concat ts

unfoldable pub bytes : Fragments → Text
bytes [] = []
bytes ((fragment, size) ∷ l) = fragment ++ bytes l

module _ (scanners : Scanners) where
  flushed-ended :
      (current : Text) (found : Option (Dict Text (List Text))) (rest : List Text)
      → analyse_all scanners rest (flushed scanners current found)
        ≡ analyse_all scanners (ended current ++ rest) found
  unfolding flushed ended analyse_all
  flushed-ended [] found rest = refl
  flushed-ended (c ∷ s) found rest = refl

  -- The fragments of a transfer, appended one after the other: the scanners have seen the messages of
  -- the description, each one once and in order, and the buffer holds the message that has not ended.
  pub append_all-messages :
      (current : Text) (found : Option (Dict Text (List Text))) (l : Fragments)
      → append_all scanners (record { current_buffer = current; parsed_data = found }) l ≡ record {
        current_buffer = pending current l;
        parsed_data = analyse_all scanners (messages current l) found;
      }
  unfolding append_all messages pending append_io_buffer analyse_all
  append_all-messages current found [] = refl
  append_all-messages current found ((fragment, size) ∷ l) =
      elim (Bool-cases (is_partial fragment size)) [
        | inl e ↦
            rw (append_all, append_io_buffer, e) (append_all-messages (current ++ fragment) found l)
        | inr e ↦
            rw (append_all, append_io_buffer, e)
              (append_all-messages [] _ l
                ∙ (ap (λ d. record { current_buffer = pending [] l; parsed_data = d })
                    (flushed-ended current found (fragment ∷ messages [] l))))
      ]

concat-append : (a b : List Text) → concat (a ++ b) ≡ concat a ++ concat b
unfolding concat
concat-append [] b = refl
concat-append (t ∷ a) b = rw (concat-append a b, append_assoc t (concat a) (concat b))

concat-ended : (t : Text) → concat (ended t) ≡ t
unfolding concat ended
concat-ended [] = refl
concat-ended (c ∷ s) = append-nil (c ∷ s)

-- The messages and what is pending are the bytes of the fragments: none is lost, and none comes twice.
pub messages-bytes :
    (current : Text) (l : Fragments)
    → concat (messages current l) ++ pending current l ≡ current ++ bytes l
unfolding messages pending bytes concat
messages-bytes current [] = sym (append-nil current)
messages-bytes current ((fragment, size) ∷ l) = elim (Bool-cases (is_partial fragment size)) [
  | inl e ↦ rw e (messages-bytes (current ++ fragment) l ∙ append_assoc current fragment (bytes l))
  | inr e ↦
      rw (e, concat-append (ended current) (fragment ∷ messages [] l), concat-ended current)
        (rw (
          append_assoc current (fragment ++ concat (messages [] l)) (pending [] l),
          append_assoc fragment (concat (messages [] l)) (pending [] l),
          messages-bytes [] l,
        ))
]

-- Whatever the fragments of a transfer are, the scanners have seen buffers which, with what waits in
-- the concatenator, are the bytes of the fragments in their order: none is lost, none is seen twice.
pub append_all-lossless :
    (scanners : Scanners) (l : Fragments)
    → (ms : List Text) × ((append_all scanners new_concatenator l).parsed_data
        ≡ analyse_all scanners ms none)
      × (concat ms ++ (append_all scanners new_concatenator l).current_buffer ≡ bytes l)
append_all-lossless scanners l =
    let run = append_all-messages scanners [] none l in
    (messages [] l, ap (λ b. b.parsed_data) run, rw run (messages-bytes [] l))
