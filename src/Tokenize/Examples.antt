-- ===== src/Tokenize/Examples.antt =====
-- The theorems on the segments at a short text with a space and a rune of two bytes.
use darkrouter.Base.{◌+◌, ◌≤◌, [], ◌∷◌, ◌≡◌, All, length, arith}
use darkrouter.Tokenize.{Bytes, segments, segment_bytes, max_run_bytes, rune_start}
use darkrouter.Tokenize.Segments.{joined, ShortRunes, segments_cover, segments_bounded}

abbrev note : Bytes
note = 0x68 ∷ 0x69 ∷ 0x20 ∷ 0xC3 ∷ 0xA9 ∷ []

segments_cover_example : joined (segments note) ≡ note
segments_cover_example = segments_cover note

note-ShortRunes : ShortRunes 0 note
unfolding rune_start
note-ShortRunes = (omega arith, tt)

segments_bounded_example : All (λ t. length t ≤ segment_bytes + max_run_bytes + 3) (segments note)
segments_bounded_example = segments_bounded note note-ShortRunes
