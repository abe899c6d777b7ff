-- ===== src/Sse/Lines/Chunks.antt =====
-- How the lines of a stream depend on the bytes that have arrived.
use darkrouter.Base.{
  ℕ, Bool, false, [], ◌∷◌, ◌++◌, some, ◌==◌, ◌≡◌, arith, Bool-cases, Option-cases, inl, inr,
}
use darkrouter.Sse.Lines.{Bytes, after_cr, scan_line, split_lines}

after_cr_more :
    (cs more : Bytes) (eof : Bool) (r : ℕ × Bytes)
    → after_cr cs false ≡ some r
    → after_cr (cs ++ more) eof ≡ some r
unfolding after_cr
after_cr_more [] more eof r h = absurd (cc h)
after_cr_more (c ∷ cs) more eof r h = h

scan_line_more :
    (cs more : Bytes) (eof : Bool) (r : ℕ × Bytes)
    → scan_line cs false ≡ some r
    → scan_line (cs ++ more) eof ≡ some r
unfolding scan_line
scan_line_more [] more eof r h = absurd (cc h)
scan_line_more (c ∷ cs) more eof r h = elim (Bool-cases (c == b'\n')) [
  | inl n ↦ ground (arith, n, h)
  | inr n ↦ elim (Bool-cases (c == b'\r')) [
    | inl k ↦ ground (arith, n, k, h, after_cr_more cs more eof r)
    | inr k ↦ elim (Option-cases (scan_line cs false)) [
      | inl e ↦ ground (arith, n, k, h, e)
      | inr (q, e) ↦ ground (arith, n, k, h, e, scan_line_more cs more eof q e)
    ]
  ]
]

-- A line that the reader finds in what has arrived of a stream is the line that it finds with any
-- more bytes behind them, the stream ended or not: where the line ends does not depend on how the
-- stream comes in pieces, a CRLF cut in two included.
pub split_lines_more :
    (bytes more : Bytes) (eof : Bool) (r : ℕ × Bytes)
    → split_lines bytes false ≡ some r
    → split_lines (bytes ++ more) eof ≡ some r
unfolding split_lines
split_lines_more [] more eof r h = absurd (cc h)
split_lines_more (c ∷ cs) more eof r h = scan_line_more (c ∷ cs) more eof r h
