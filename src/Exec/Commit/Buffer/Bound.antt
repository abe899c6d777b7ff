-- ===== src/Exec/Commit/Buffer/Bound.antt =====
-- How much an attempt that has not committed can make the buffer hold.
use darkrouter.Base.{
  ℕ, ◌+◌, ◌*◌, ◌≤◌, ◌<◌, List, [], ◌∷◌, ◌++◌, none, some, length, ltb, leb, leb→le, if◌then◌else◌,
  ◌≡◌, refl, ap, sym, arith, Bool-cases, inl, inr,
}
use darkrouter.Ir.{StreamEvent}
use darkrouter.Exec.Commit.Buffer.{Buffer, event_bytes, new_buffer, add, add_all, event_overhead}

-- The bytes that a list of events is charged.
unfoldable pub charged : List StreamEvent → ℕ
charged [] = 0
charged (ev ∷ rest) = event_bytes ev + charged rest

charged_overhead : (evs : List StreamEvent) → event_overhead * length evs ≤ charged evs
unfolding charged event_bytes
charged_overhead [] = omega arith
charged_overhead (ev ∷ rest) = omega (arith, charged_overhead rest)

abbrev grown : Buffer → StreamEvent → Buffer
grown b ev = record b { bytes = b.bytes + event_bytes ev; evs = b.evs ++ (ev ∷ []) }

add_fits :
    (b : Buffer) (ev : StreamEvent)
    → b.bytes + event_bytes ev ≤ b.max_bytes
    → add b ev ≡ some (grown b ev)
unfolding add
add_fits b ev h = ground arith

add_full :
    (b : Buffer) (ev : StreamEvent)
    → 0 < b.max_bytes
    → b.max_bytes < b.bytes + event_bytes ev
    → add b ev ≡ none
unfolding add
add_full b ev p h = ground arith

append_one : (xs ys : List StreamEvent) (x : StreamEvent) → (xs ++ (x ∷ [])) ++ ys ≡ xs ++ (x ∷ ys)
append_one [] ys x = refl
append_one (z ∷ xs) ys x = ap (λ t. z ∷ t) (append_one xs ys x)

append_none : (xs : List StreamEvent) → xs ++ [] ≡ xs
append_none [] = refl
append_none (z ∷ xs) = ap (λ t. z ∷ t) (append_none xs)

add_all_fits :
    (b : Buffer) (evs : List StreamEvent)
    → b.bytes + charged evs ≤ b.max_bytes
    → add_all b evs ≡ some (record b { bytes = b.bytes + charged evs; evs = b.evs ++ evs })
unfolding add_all charged
add_all_fits b [] h =
    let n : b.bytes ≡ b.bytes + 0 = omega arith in let e = sym (append_none b.evs) in cc (n, e)
add_all_fits b (ev ∷ rest) h =
    let rec = add_all_fits (grown b ev) rest (omega (arith, h)) in
    let e = append_one b.evs rest ev in
    let n : b.bytes + event_bytes ev + charged rest ≡ b.bytes + (event_bytes ev + charged rest) =
      omega arith in
    ground (arith, add_fits b ev (omega (arith, h)), rec, e, n)

add_all_full :
    (b : Buffer) (evs : List StreamEvent)
    → 0 < b.max_bytes
    → b.max_bytes < b.bytes + charged evs
    → b.bytes ≤ b.max_bytes
    → add_all b evs ≡ none
unfolding add_all charged
add_all_full b [] p h k = absurd (omega (arith, h, k))
add_all_full b (ev ∷ rest) p h k = elim (Bool-cases (ltb b.max_bytes (b.bytes + event_bytes ev))) [
  | inl f ↦ ground (arith, add_full b ev p (ground (arith, f)))
  | inr f ↦
      let fits : b.bytes + event_bytes ev ≤ b.max_bytes = ground (arith, f) in
      let rec = add_all_full (grown b ev) rest p (omega (arith, h)) fits in
      ground (arith, add_fits b ev fits, rec)
]

-- A buffer with a positive limit holds what an attempt emits, in order and charged in full, when
-- the charge fits in the limit, and refuses the attempt otherwise. Every event is charged at
-- least the overhead, so no more than limit / 64 events are ever held, whatever they carry.
pub add_all_bounded :
    (limit : ℕ) (evs : List StreamEvent)
    → 0 < limit
    → (add_all (new_buffer limit) evs ≡ (
        if leb (charged evs) limit
        then some (record { evs = evs; bytes = charged evs; max_bytes = limit })
        else none))
      × (event_overhead * length evs ≤ charged evs)
unfolding new_buffer
add_all_bounded limit evs p =
    let b = new_buffer limit in
    let z : 0 + charged evs ≡ charged evs = omega arith in
    (
      elim (Bool-cases (leb (charged evs) limit)) [
        | inl f ↦ rw (f) (cc (add_all_fits b evs (omega (arith, leb→le (charged evs) limit f)), z))
        | inr f ↦ rw (f) (add_all_full b evs p (ground (arith, f)) (omega arith))
      ],
      charged_overhead evs,
    )
