-- ===== src/Sse/Lines/Turns.antt =====
-- The turns of the scanner: enough of them, and the line that each one takes.
use darkrouter.Base.{
  ℕ, zero, suc, Bool, false, Bool-cases, ltb, take, [], ◌+◌, ◌≤◌, ◌<◌, true, ◌∷◌, ◌++◌, none, some,
  drop, length, ◌≡◌, ◌≢◌, refl, ◌∙◌, arith, Option-cases, inl, inr, All, length-append, ==_iff,
}
use darkrouter.Sse.Lines.{Bytes, after_cr, scan_line, split_lines, lines_for, lines, scan}

-- A byte that ends no line.
abbrev pub Inside : ℕ → Type 0
Inside c = (c ≢ b'\n') × (c ≢ b'\r')

after_cr_advances :
    (cs : Bytes) (at_eof : Bool) (r : ℕ × Bytes) → after_cr cs at_eof ≡ some r → 0 < r.0
unfolding after_cr
after_cr_advances [] true r h = ground (arith, h)
after_cr_advances [] false r h = absurd (cc h)
after_cr_advances (c ∷ cs) at_eof r h = ground (arith, h)

split_lines_advances :
    (bytes : Bytes) (at_eof : Bool) (r : ℕ × Bytes) → split_lines bytes at_eof ≡ some r → 0 < r.0
unfolding split_lines scan_line
split_lines_advances [] at_eof r h = absurd (cc h)
split_lines_advances (c ∷ cs) at_eof (n, t) h = elim (Option-cases (scan_line cs at_eof)) [
  | inl e ↦ ground (arith, h, e, after_cr_advances cs at_eof (n, t))
  | inr (q, e) ↦ ground (arith, h, e, after_cr_advances cs at_eof (n, t))
]

scan_advances : (max : ℕ) (bytes : Bytes) (r : ℕ × Bytes) → scan max bytes ≡ some r → 0 < r.0
unfolding scan
scan_advances max bytes r h = elim (Bool-cases (ltb (length bytes) max)) [
  | inl e ↦ split_lines_advances bytes true r (ground (arith, e, h))
  | inr e ↦ split_lines_advances (take max bytes) false r (ground (arith, e, h))
]

length-drop_le : (n c : ℕ) (cs : Bytes) → 0 < n → length (drop n (c ∷ cs)) ≤ length cs
length-drop_le zero c cs h = absurd (omega arith)
length-drop_le (suc zero) c cs h = omega arith
length-drop_le (suc (suc n)) c [] h = omega arith
length-drop_le (suc (suc n)) c (b ∷ cs) h = omega (arith, length-drop_le (suc n) b cs)

no_token : (max : ℕ) (r : ℕ × Bytes) → ¬ (scan max [] ≡ some r)
unfolding scan split_lines
no_token max r h = ground (arith, h)

-- The number of turns does not matter, once there are more than bytes.
lines_for_enough :
    (max m n : ℕ) (bytes : Bytes)
    → length bytes < m
    → length bytes < n
    → lines_for max m bytes ≡ lines_for max n bytes
unfolding lines_for
lines_for_enough max zero n bytes h k = absurd (omega (arith, h))
lines_for_enough max (suc m) zero bytes h k = absurd (omega (arith, k))
lines_for_enough max (suc m) (suc n) bytes h k = elim (Option-cases (scan max bytes)) [
  | inl e ↦ ground (arith, e)
  | inr (r, e) ↦
      let (lo, hi) = shorter m n bytes r e h k in
      ground (arith, e, lines_for_enough max m n (drop r.0 bytes) lo hi)
]
  where
    shorter :
        (i j : ℕ) (bs : Bytes) (r : ℕ × Bytes)
        → scan max bs ≡ some r
        → length bs < suc i
        → length bs < suc j
        → (length (drop r.0 bs) < i) × (length (drop r.0 bs) < j)
    shorter i j [] r e p q = absurd (no_token max r e)
    shorter i j (c ∷ cs) r e p q =
        let le : length (drop r.0 (c ∷ cs)) ≤ length cs =
          length-drop_le r.0 c cs (scan_advances max (c ∷ cs) r e) in
        (omega (arith, le, p), omega (arith, le, q))

scan_line_whole :
    (l rest : Bytes)
    → All Inside l
    → scan_line (l ++ (b'\n' ∷ rest)) true ≡ some (suc (length l), l)
unfolding scan_line
scan_line_whole [] rest h = refl
scan_line_whole (c ∷ cs) rest h =
    ground (arith, h, ==_iff c b'\n', ==_iff c b'\r', scan_line_whole cs rest h.1)

drop_line : (l rest : Bytes) → drop (suc (length l)) (l ++ (b'\n' ∷ rest)) ≡ rest
drop_line [] rest = refl
drop_line (c ∷ cs) rest = drop_line cs rest

split_lines_whole :
    (l rest : Bytes)
    → All Inside l
    → split_lines (l ++ (b'\n' ∷ rest)) true ≡ some (suc (length l), l)
unfolding split_lines
split_lines_whole [] rest h = scan_line_whole [] rest h
split_lines_whole (c ∷ cs) rest h = scan_line_whole (c ∷ cs) rest h

-- The LF within the buffer is found in the part of the stream that the buffer holds.
take_line :
    (max : ℕ) (l rest : Bytes)
    → All Inside l
    → length l < max
    → scan_line (take max (l ++ (b'\n' ∷ rest))) false ≡ some (suc (length l), l)
unfolding scan_line
take_line zero l rest h k = absurd (omega (arith, k))
take_line (suc max) [] rest h k = refl
take_line (suc max) (c ∷ cs) rest h k =
    ground (arith, h, ==_iff c b'\n', ==_iff c b'\r', take_line max cs rest h.1 (omega (arith, k)))

split_taken :
    (max : ℕ) (l rest : Bytes)
    → All Inside l
    → length l < max
    → split_lines (take max (l ++ (b'\n' ∷ rest))) false ≡ some (suc (length l), l)
unfolding split_lines
split_taken zero l rest h k = absurd (omega (arith, k))
split_taken (suc max) [] rest h k = take_line (suc max) [] rest h k
split_taken (suc max) (c ∷ cs) rest h k = take_line (suc max) (c ∷ cs) rest h k

scan_whole :
    (max : ℕ) (l rest : Bytes)
    → All Inside l
    → length l < max
    → scan max (l ++ (b'\n' ∷ rest)) ≡ some (suc (length l), l)
unfolding scan
scan_whole max l rest h k = ground (arith, split_lines_whole l rest h, split_taken max l rest h k)

one_turn :
    (max n : ℕ) (bytes : Bytes) (r : ℕ × Bytes)
    → scan max bytes ≡ some r
    → lines_for max (suc n) bytes ≡ some r.1 ∷ lines_for max n (drop r.0 bytes)
unfolding lines_for
one_turn max n bytes r h = ground (arith, h)

-- A line that fits into the buffer with its LF is one token, and the rest of the stream is read as if
-- it stood alone.
pub lines-line :
    (max : ℕ) (l rest : Bytes)
    → All Inside l
    → length l < max
    → lines max (l ++ (b'\n' ∷ rest)) ≡ some l ∷ lines max rest
unfolding lines
lines-line max l rest h k =
    let bytes = l ++ (b'\n' ∷ rest) in
    let size : length bytes ≡ length l + length rest + 1 =
      omega (arith, length-append {0} l (b'\n' ∷ rest)) in
    let settled : lines_for max (length bytes) rest ≡ lines max rest =
      lines_for_enough max (length bytes) (suc (length rest)) rest (omega (arith, size))
        (omega arith) in
    one_turn max (length bytes) bytes _ (scan_whole max l rest h k)
    ∙ ground (arith, settled, drop_line l rest)

-- A full buffer without the LF of its line is refused.
take_long :
    (max : ℕ) (l rest : Bytes)
    → All Inside l
    → max ≤ length l
    → scan_line (take max (l ++ (b'\n' ∷ rest))) false ≡ none
unfolding scan_line
take_long zero l rest h k = refl
take_long (suc max) [] rest h k = absurd (omega (arith, k))
take_long (suc max) (c ∷ cs) rest h k =
    ground (arith, h, ==_iff c b'\n', ==_iff c b'\r', take_long max cs rest h.1 (omega (arith, k)))

split_long :
    (max : ℕ) (l rest : Bytes)
    → All Inside l
    → max ≤ length l
    → split_lines (take max (l ++ (b'\n' ∷ rest))) false ≡ none
unfolding split_lines
split_long zero l rest h k = refl
split_long (suc max) [] rest h k = absurd (omega (arith, k))
split_long (suc max) (c ∷ cs) rest h k = take_long (suc max) (c ∷ cs) rest h k

pub lines_long :
    (max : ℕ) (l rest : Bytes)
    → All Inside l
    → max ≤ length l
    → lines max (l ++ (b'\n' ∷ rest)) ≡ none ∷ []
unfolding lines lines_for scan
lines_long max l rest h k =
    let size = length-append {0} l (b'\n' ∷ rest) in
    ground (arith, k, size, split_long max l rest h k)
