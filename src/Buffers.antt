-- ===== src/Buffers.antt =====
-- survol/scripts/dockit.py: `BufferConcatenator`, which puts the fragments of a transfer together
-- before they are scanned.
pub mod Messages
mod Tests
use survol.Base.{
  ℕ, ◌+◌, ◌%◌, ◌==◌, leb, Text, List, [], ◌∷◌, ◌++◌, Option, none, some, Bool, ◌&&◌, ◌||◌,
  if◌then◌else◌, length, Dict, text_eq_instance, lookup, insert,
}

-- `BufferScanners`: a key and a function that finds texts in a buffer, for each scanner.
abbrev pub Scanners : Type 0
Scanners = List (Text × (Text → List Text))

-- `m_currentBuffer` and `m_parsedData`; the empty list stands for None too, as the source tests it.
pub record BufferConcatenator : Type 0 where
  pub current_buffer : Text
  pub parsed_data : Option (Dict Text (List Text))

abbrev pub new_concatenator : BufferConcatenator
new_concatenator = record { current_buffer = []; parsed_data = none }

-- `if self.m_parsedData == None: self.m_parsedData = {}`
unfoldable pub or_new : Option (Dict Text (List Text)) → Dict Text (List Text)
or_new none = []
or_new (some d) = d

-- The results of one scanner are added to those of its key, if there are any.
unfoldable pub add_results :
    Text → List Text → Option (Dict Text (List Text)) → Option (Dict Text (List Text))
add_results key [] found = found
add_results key (r ∷ rs) found = elim (lookup key (or_new found)) [
  | some old ↦ some (insert key (old ++ r ∷ rs) (or_new found))
  | none ↦ some (insert key (r ∷ rs) (or_new found))
]

-- `AnalyseCompleteBuffer`
unfoldable pub analyse_complete_buffer :
    Scanners → Text → Option (Dict Text (List Text)) → Option (Dict Text (List Text))
analyse_complete_buffer [] buffer found = found
analyse_complete_buffer (scanner ∷ scanners) buffer found =
    analyse_complete_buffer scanners buffer (add_results scanner.0 (scanner.1 buffer) found)

-- `isSegment`: the usual sizes of a buffer.
unfoldable pub is_segment : ℕ → Bool
is_segment size =
    (size % 256 == 0 && leb size 4096)
    || (size % 4096 == 0 && leb size 65536)
    || (size % 65536 == 0 && leb size 1048576)
    || size % 1048576 == 0

-- The fragment is a part of a longer message.
unfoldable pub is_partial : Text → ℕ → Bool
is_partial fragment size = is_segment size && size == length fragment

-- `if self.m_currentBuffer`: what waits is scanned.
unfoldable pub flushed :
    Scanners → Text → Option (Dict Text (List Text)) → Option (Dict Text (List Text))
flushed scanners [] found = found
flushed scanners (c ∷ s) found = analyse_complete_buffer scanners (c ∷ s) found

-- `AppendIOBuffer`, for a fragment that `DecodeOctalEscapeSequence` has decoded.
unfoldable pub append_io_buffer : Scanners → BufferConcatenator → Text → ℕ → BufferConcatenator
append_io_buffer scanners b fragment size =
    if is_partial fragment size
    then record b { current_buffer = b.current_buffer ++ fragment }
    else record {
      current_buffer = [];
      parsed_data =
          analyse_complete_buffer scanners fragment
            (flushed scanners b.current_buffer b.parsed_data);
    }
