-- ===== src/Tokenize/Segments.antt =====
-- internal/tokenize/tokenize.go: the segments are the text, and none of them is long.
use mathlib.Core.List.{reverse, reverse-cons}
use darkrouter.Base.{
  ℕ, ◌+◌, ◌≤◌, ◌<◌, Bool, true, false, ◌&&◌, List, [], ◌∷◌, ◌++◌, leb, ◌≡◌, refl, ap, ◌∙◌, arith,
  All, if◌then◌else◌, length, length-append, append_assoc, if_holds, Bool-cases, inl, inr,
}
use darkrouter.Tokenize.{
  Bytes, Cut, segments, cuts, round, yields, fresh, mark_clean, go_on, rune_start, clean_cut,
  segment_bytes, max_run_bytes,
}

abbrev pub joined : List Bytes → Bytes
joined [] = []
joined (s ∷ ss) = s ++ joined ss

-- What a round can do.
data RoundIs (c : ℕ) (k : Cut) (r : Bool × Cut) : Type 0 where
  cut : r ≡ (true, fresh c) → RoundIs c k r
  clean : leb segment_bytes k.size ≡ false → r ≡ (false, mark_clean c k) → RoundIs c k r
  goes : leb max_run_bytes k.since && rune_start c ≡ false → r ≡ (false, go_on c k) → RoundIs c k r

round-RoundIs :
    (before : Bytes) (c : ℕ) (rest : Bytes) (k : Cut) → RoundIs c k (round before c rest k)
unfolding round
round-RoundIs before c rest k =
    if_holds (RoundIs c k) (clean_cut before (c ∷ rest)) _ _
      (λ _.
        if_holds (RoundIs c k) (leb segment_bytes k.size) _ _ (λ _. cut refl) (λ e. clean e refl))
      (λ _.
        if_holds (RoundIs c k) (leb max_run_bytes k.since && rune_start c) _ _ (λ _. cut refl)
          (λ e. goes e refl))

shifted :
    (held : Bytes) (c : ℕ) (rest : Bytes) → reverse (c ∷ held) ++ rest ≡ reverse held ++ c ∷ rest
shifted held c rest = rw reverse-cons (append_assoc (reverse held) (c ∷ []) rest)

round_joined :
    (c : ℕ) (rest : Bytes) (k : Cut) (r : Bool × Cut) (out : List Bytes)
    → RoundIs c k r
    → joined out ≡ reverse r.1.held ++ rest
    → joined (yields r.0 k out) ≡ reverse k.held ++ c ∷ rest
unfolding yields fresh mark_clean go_on
round_joined c rest k r out (cut e) h = rw e (ap (λ xs. reverse k.held ++ xs) (rw e at h))
round_joined c rest k r out (clean f e) h = rw e ((rw e at h) ∙ shifted k.held c rest)
round_joined c rest k r out (goes f e) h = rw e ((rw e at h) ∙ shifted k.held c rest)

cuts-joined : (before rest : Bytes) (k : Cut) → joined (cuts before rest k) ≡ reverse k.held ++ rest
unfolding cuts
cuts-joined before [] k = refl
cuts-joined before (c ∷ rest) k =
    let r = round before c rest k in
    round_joined c rest k r _ (round-RoundIs before c rest k) (cuts-joined (c ∷ before) rest r.1)

-- The segments, in order, are the text.
pub segments_cover : (s : Bytes) → joined (segments s) ≡ s
unfolding segments fresh
segments_cover [] = refl
segments_cover (c ∷ rest) = cuts-joined (c ∷ []) rest (fresh c)

-- At most three bytes that start no rune follow one another, as in UTF-8; `n` have passed.
abbrev pub ShortRunes : ℕ → Bytes → Type 0
ShortRunes n [] = Unit {0}
ShortRunes n (c ∷ cs) = if rune_start c then ShortRunes 0 cs else ((n < 3) × ShortRunes (n + 1) cs)

-- The invariant of the loop, `n` bytes behind the last rune start: a stretch with no clean cut is
-- no longer than `max_run_bytes`, and the segment began its last stretch in time.
abbrev InBounds : ℕ → Cut → Type 0
InBounds n k =
    (length k.held ≡ k.size) × (k.since ≤ max_run_bytes + n) × (k.size ≤ segment_bytes + k.since)

abbrev longest : ℕ
longest = segment_bytes + max_run_bytes + 3

abbrev Short : Bytes → Type 0
Short s = length s ≤ longest

-- How many bytes lie behind the last rune start after one more.
abbrev after_byte : ℕ → ℕ → ℕ
after_byte n c = if rune_start c then 0 else n + 1

InBounds-round :
    (n c : ℕ) (k : Cut) (r : Bool × Cut)
    → RoundIs c k r
    → InBounds n k
    → InBounds (after_byte n c) r.1
unfolding fresh mark_clean go_on
InBounds-round n c k r (cut e) h = rw e (ground arith)
InBounds-round n c k r (clean f e) h = rw e (ground arith)
InBounds-round n c k r (goes f e) h = rw e (ground arith)

ShortRunes-after :
    (n c : ℕ) (rest : Bytes)
    → ShortRunes n (c ∷ rest)
    → n ≤ 3
    → ShortRunes (after_byte n c) rest × (after_byte n c ≤ 3)
ShortRunes-after n c rest h le = elim (Bool-cases (rune_start c)) [
  | inl e ↦ rw e ((rw e at h), omega arith)
  | inr e ↦ rw e ((rw e at h).1, omega (arith, (rw e at h).0))
]

length-reverse : (xs : Bytes) → length (reverse xs) ≡ length xs
length-reverse [] = refl
length-reverse (x ∷ xs) =
    rw reverse-cons (omega (arith, length-append (reverse xs) (x ∷ []), length-reverse xs))

yields-Short :
    (b : Bool) (k : Cut) (out : List Bytes)
    → length k.held ≤ longest
    → All Short out
    → All Short (yields b k out)
unfolding yields
yields-Short true k out h a = (omega (arith, length-reverse k.held), a)
yields-Short false k out h a = a

cuts-Short :
    (n : ℕ) (before rest : Bytes) (k : Cut)
    → n ≤ 3
    → ShortRunes n rest
    → InBounds n k
    → All Short (cuts before rest k)
unfolding cuts
cuts-Short n before [] k le s b = (omega (arith, length-reverse k.held), tt)
cuts-Short n before (c ∷ rest) k le s b =
    let r = round before c rest k in
    let next = ShortRunes-after n c rest s le in
    yields-Short r.0 k _ (omega arith) (
      cuts-Short (after_byte n c) (c ∷ before) rest r.1 next.1 next.0
        (InBounds-round n c k r (round-RoundIs before c rest k) b))

-- No segment of a text whose runes are at most four bytes is longer than the two limits allow.
pub segments_bounded :
    (s : Bytes)
    → ShortRunes 0 s
    → All (λ t. length t ≤ segment_bytes + max_run_bytes + 3) (segments s)
unfolding segments fresh
segments_bounded [] h = tt
segments_bounded (c ∷ rest) h =
    let next = ShortRunes-after 0 c rest h (omega arith) in
    cuts-Short (after_byte 0 c) (c ∷ []) rest (fresh c) next.1 next.0 (ground arith)
