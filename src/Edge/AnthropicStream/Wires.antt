-- ===== src/Edge/AnthropicStream/Wires.antt =====
-- The wire indexes of the open blocks: ascending, so in the order in which the blocks opened.
use darkrouter.Base.{
  ℕ, ◌+◌, ◌<◌, true, List, [], ◌∷◌, ◌++◌, none, some, Map, lookup, insert, erase, nat_eq, ltb,
  stable_sort, insert_sorted, All, Distinct, ◌≡◌, refl, ap, subst, ◌∙◌, ==_iff, ◌==◌, Bool-cases,
  inl, inr, arith,
}
use darkrouter.Edge.AnthropicStream.{wires}
use darkrouter.Edge.AnthropicStream.Client.{contains, remove}

-- Strictly ascending, and below `n`.
abbrev pub Ascends : List ℕ → ℕ → Type 0
Ascends [] n = Unit
Ascends (w ∷ ws) n = (w < n) × All (λ v. w < v) ws × Ascends ws n

All-below :
    (ws : List ℕ) (n w : ℕ)
    → w < n
    → Ascends ws n
    → All (λ v. w < v) ws
    → All (λ v. w < v) (ws ++ (n ∷ []))
All-below [] n w h a b = (h, tt)
All-below (v ∷ ws) n w h a b = (b.0, All-below ws n w h a.2 b.1)

pub Ascends-append : (ws : List ℕ) (n : ℕ) → Ascends ws n → Ascends (ws ++ (n ∷ [])) (n + 1)
Ascends-append [] n a = (omega arith, tt, tt)
Ascends-append (w ∷ ws) n a =
    (omega (arith, a.0), All-below ws n w a.0 a.2 a.1, Ascends-append ws n a.2)

All-remove : (P : ℕ → Type 0) (ws : List ℕ) (w : ℕ) → All P ws → All P (remove w ws)
All-remove P [] w h = tt
All-remove P (v ∷ ws) w h = elim (Bool-cases (v == w)) [
  | inl e ↦ rw (e) (All-remove P ws w h.1)
  | inr e ↦ rw (e) (h.0, All-remove P ws w h.1)
]

pub Ascends-remove : (ws : List ℕ) (n w : ℕ) → Ascends ws n → Ascends (remove w ws) n
Ascends-remove [] n w a = tt
Ascends-remove (v ∷ ws) n w a = elim (Bool-cases (v == w)) [
  | inl e ↦ rw (e) (Ascends-remove ws n w a.2)
  | inr e ↦ rw (e) (a.0, All-remove (λ u. v < u) ws w a.1, Ascends-remove ws n w a.2)
]

remove_absent : (ws : List ℕ) (w : ℕ) → All (λ v. w < v) ws → remove w ws ≡ ws
remove_absent [] w h = refl
remove_absent (v ∷ ws) w h = ground (arith, h.0, remove_absent ws w h.1)

pub remove_first : (ws : List ℕ) (n w : ℕ) → Ascends (w ∷ ws) n → remove w (w ∷ ws) ≡ ws
remove_first ws n w a = ground (arith, remove_absent ws w a.1)

insert_sorted_first : (w : ℕ) (ws : List ℕ) → All (λ v. w < v) ws → insert_sorted ltb w ws ≡ w ∷ ws
unfolding insert_sorted
insert_sorted_first w [] h = refl
insert_sorted_first w (v ∷ ws) h = ground (arith, h.0)

pub stable_sort_ascending : (ws : List ℕ) (n : ℕ) → Ascends ws n → stable_sort ltb ws ≡ ws
unfolding stable_sort
stable_sort_ascending [] n a = refl
stable_sort_ascending (w ∷ ws) n a =
    ap (insert_sorted ltb w) (stable_sort_ascending ws n a.2) ∙ insert_sorted_first w ws a.1

pub wires-insert :
    (ir w : ℕ) (m : Map ℕ ℕ) → lookup ir m ≡ none → wires (insert ir w m) ≡ wires m ++ (w ∷ [])
unfolding wires lookup insert
wires-insert ir w [] h = refl
wires-insert ir w ((j, v) ∷ m) h = elim (Bool-cases (j == ir)) [
  | inl e ↦ absurd (ground (arith, e, h))
  | inr e ↦ rw (e) (ap (λ t. v ∷ t) (wires-insert ir w m (ground (arith, e, h))))
]

pub contains-wires : (ir w : ℕ) (m : Map ℕ ℕ) → lookup ir m ≡ some w → contains w (wires m) ≡ true
unfolding wires lookup
contains-wires ir w [] h = absurd (cc h)
contains-wires ir w ((j, v) ∷ m) h = elim (Bool-cases (j == ir)) [
  | inl e ↦ ground (arith, e, h)
  | inr e ↦ ground (arith, e, contains-wires ir w m (ground (arith, e, h)))
]

erase_absent : (ir : ℕ) (m : Map ℕ ℕ) → lookup ir m ≡ none → erase ir m ≡ m
unfolding lookup erase
erase_absent ir [] h = refl
erase_absent ir ((j, v) ∷ m) h = elim (Bool-cases (j == ir)) [
  | inl e ↦ absurd (ground (arith, e, h))
  | inr e ↦ ground (arith, e, erase_absent ir m (ground (arith, e, h)))
]

-- Where a later block has the index `w`, an earlier one has not.
above-contains : (ws : List ℕ) (v w : ℕ) → All (λ u. v < u) ws → contains w ws ≡ true → v < w
above-contains [] v w a h = absurd (cc h)
above-contains (u ∷ ws) v w a h = elim (Bool-cases (u == w)) [
  | inl e ↦ ground (arith, e, a.0)
  | inr e ↦ above-contains ws v w a.1 (ground (arith, e, h))
]

pub wires-erase :
    (ir w n : ℕ) (m : Map ℕ ℕ)
    → lookup ir m ≡ some w
    → Distinct m
    → Ascends (wires m) n
    → wires (erase ir m) ≡ remove w (wires m)
unfolding wires lookup erase
wires-erase ir w n [] h d a = refl
wires-erase ir w n ((j, v) ∷ m) h d a = elim (Bool-cases (j == ir)) [
  | inl e ↦
      let gone : lookup ir m ≡ none = subst (λ k. lookup k m ≡ none) ((==_iff j ir).0 e) d.0 in
      ground (arith, e, h, erase_absent ir m gone, remove_absent (wires m) v a.1)
  | inr e ↦
      let there : lookup ir m ≡ some w = ground (arith, e, h) in
      let later = above-contains (wires m) v w a.1 (contains-wires ir w m there) in
      ground (arith, e, later, wires-erase ir w n m there d.1 a.2)
]
