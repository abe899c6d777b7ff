-- ===== src/Sse/Lines.antt =====
-- internal/sse/reader.go, `splitLines`, the split function that is given to `bufio.Scanner`, and the
-- tokens that the scanner finds with it in a buffer of at most `max` bytes.
pub mod Chunks
pub mod Turns
use darkrouter.Base.{
  ℕ, zero, suc, ◌+◌, Bool, true, false, List, [], ◌∷◌, ◌++◌, Option, none, some, drop, take, length,
  ltb, leb, ◌==◌, if◌then◌else◌,
}

abbrev pub Bytes : Type 0
Bytes = List ℕ

-- What a call answers: the bytes to advance by and the token, or `none` to ask for more.
abbrev pub Split : Type 0
Split = Option (ℕ × Bytes)

-- One byte of the line is passed.
abbrev pub pass : ℕ → Split → Split
pass c none = none
pass c (some (n, t)) = some (suc n, c ∷ t)

-- After a CR: with the LF of a CRLF, without, or not known yet.
unfoldable pub after_cr : Bytes → Bool → Split
after_cr [] true = some (1, [])
after_cr [] false = none
after_cr (c ∷ cs) at_eof = if c == b'\n' then some (2, []) else some (1, [])

unfoldable pub scan_line : Bytes → Bool → Split
unfolding after_cr
scan_line [] true = some (0, [])
scan_line [] false = none
scan_line (c ∷ cs) at_eof =
    let rest = scan_line cs at_eof in
    if c == b'\n' then some (1, []) else if c == b'\r' then after_cr cs at_eof else pass c rest

unfoldable pub split_lines : Bytes → Bool → Split
unfolding scan_line
split_lines [] at_eof = none
split_lines (c ∷ cs) at_eof = scan_line (c ∷ cs) at_eof

-- What the scanner finds at the front of the stream: it sees the end of the stream only if the rest
-- leaves room in its buffer, and otherwise as many bytes as the buffer holds.
unfoldable pub scan : ℕ → Bytes → Split
unfolding split_lines
scan max bytes =
    if ltb (length bytes) max then split_lines bytes true else split_lines (take max bytes) false

-- The tokens of a whole stream; a last `none` is bufio.ErrTooLong, where a full buffer holds no line.
-- Each advance is positive, so one turn more than there are bytes suffices.
unfoldable pub lines_for : ℕ → ℕ → Bytes → List (Option Bytes)
unfolding scan
lines_for max zero bytes = []
lines_for max (suc fuel) bytes = elim (scan max bytes) [
  | none ↦ if leb max (length bytes) then none ∷ [] else []
  | some (n, t) ↦ some t ∷ lines_for max fuel (drop n bytes)
]

unfoldable pub lines : ℕ → Bytes → List (Option Bytes)
unfolding lines_for
lines max bytes = lines_for max (suc (length bytes)) bytes
