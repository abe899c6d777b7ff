-- ===== src/Sse/Writer/Split.antt =====
-- The parts into which `Send` splits the data at its LFs.
use darkrouter.Base.{
  ℕ, List, [], ◌∷◌, ◌==◌, ◌≡◌, ◌≢◌, refl, arith, Bool-cases, inl, inr, All, ==_iff,
}
use darkrouter.Sse.Lines.{Bytes}
use darkrouter.Sse.Lines.Turns.{Inside}
use darkrouter.Sse.Writer.{in_first, split_lf, join_lf}

All-in_first :
    (c : ℕ) (ls : List Bytes) → Inside c → All (All Inside) ls → All (All Inside) (in_first c ls)
All-in_first c [] h k = ((h, tt), tt)
All-in_first c (l ∷ ls) h k = ((h, k.0), k.1)

-- No part of a text without CR holds a byte that ends a line.
pub split_lf-Inside : (d : Bytes) → All (λ c. c ≢ b'\r') d → All (All Inside) (split_lf d)
unfolding split_lf
split_lf-Inside [] h = (tt, tt)
split_lf-Inside (c ∷ cs) h =
    let rest = split_lf-Inside cs h.1 in
    elim (Bool-cases (c == b'\n')) [
      | inl e ↦ rw e (tt, rest)
      | inr e ↦ rw e (All-in_first c (split_lf cs) ((λ k. cc (e, (==_iff c b'\n').1 k)), h.0) rest)
    ]

join-in_first :
    (c : ℕ) (l : Bytes) (ls : List Bytes) → join_lf (in_first c (l ∷ ls)) ≡ c ∷ join_lf (l ∷ ls)
unfolding join_lf
join-in_first c l [] = refl
join-in_first c l (m ∷ ls) = refl

pub split_lf-cons : (d : Bytes) → (l : Bytes) × (ls : List Bytes) × (split_lf d ≡ l ∷ ls)
unfolding split_lf
split_lf-cons [] = ([], [], refl)
split_lf-cons (c ∷ cs) =
    let h = split_lf-cons cs in
    elim (Bool-cases (c == b'\n')) [
      | inl e ↦ ([], split_lf cs, rw e refl)
      | inr e ↦ (c ∷ h.0, h.1, rw (e, h.2) refl)
    ]

-- The join of the parts is the text.
pub join-split_lf : (d : Bytes) → join_lf (split_lf d) ≡ d
unfolding split_lf join_lf
join-split_lf [] = refl
join-split_lf (c ∷ cs) =
    let (l, ls, e) = split_lf-cons cs in
    ground (arith, e, ==_iff c b'\n', join-split_lf cs, join-in_first c l ls)
