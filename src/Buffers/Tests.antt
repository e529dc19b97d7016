-- ===== src/Buffers/Tests.antt =====
-- A run of the concatenator, with one scanner, on a fragment that is a part and one that is not.
use survol.Base.{Text, codes, List, [], ◌∷◌, ◌++◌, none, ◌≡◌}
use survol.Buffers.{Scanners, new_concatenator}
use survol.Buffers.Messages.{
  Fragments, append_all, messages, pending, analyse_all, concat, bytes, append_all-messages,
  append_all-lossless,
}

abbrev scanners : Scanners
scanners = (codes "SqlQuery", λ t. t ∷ []) ∷ []

abbrev transfer : Fragments
transfer = ([], 0) ∷ (codes "select 1", 8) ∷ []

append_all-messages_example : append_all scanners new_concatenator transfer ≡ record {
  current_buffer = pending [] transfer;
  parsed_data = analyse_all scanners (messages [] transfer) none;
}
append_all-messages_example = append_all-messages scanners [] none transfer

append_all-lossless_example :
    (ms : List Text) × ((append_all scanners new_concatenator transfer).parsed_data
      ≡ analyse_all scanners ms none)
    × (concat ms ++ (append_all scanners new_concatenator transfer).current_buffer ≡ bytes transfer)
append_all-lossless_example = append_all-lossless scanners transfer
