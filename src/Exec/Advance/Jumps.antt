-- ===== src/Exec/Advance/Jumps.antt =====
-- What an advance moves past.
use darkrouter.Exec.Advance.{action_next, same_target, skip_from, after, skip_target, next_index}
use darkrouter.Base.{
  ℕ, ◌+◌, ◌≤◌, ◌<◌, true, false, List, [], ◌∷◌, some, length, get_elem?, ◌≡◌, refl, arith, ◌≢◌,
  str_eq_iff, ◌↔◌, ◌⊎◌, Bool-cases, ◌∙◌, ap, inl, inr, suc, zero,
}
use darkrouter.Adapter.{
  Outcome, success, retryable_provider, retryable_credential, retryable_model, fatal,
  client_cancelled, other,
}
use darkrouter.Router.Types.{Candidate}

skip_from_bounds :
    (c : Candidate) (ds : List Candidate) (j : ℕ)
    → (j ≤ skip_from c ds j) × (skip_from c ds j ≤ j + length ds)
unfolding skip_from
skip_from_bounds c [] j = (omega arith, omega arith)
skip_from_bounds c (d ∷ ds) j = elim (Bool-cases (same_target d c)) [
  | inl e ↦ ground (arith, skip_from_bounds c ds (j + 1))
  | inr e ↦ ground arith
]

length-after :
    (cs : List Candidate) (i : ℕ) (c : Candidate)
    → get_elem? cs i ≡ some c
    → i + 1 + length (after i cs) ≡ length cs
length-after [] i c h = absurd (cc h)
length-after (x ∷ cs) zero c h = omega arith
length-after (x ∷ cs) (suc i) c h = omega (arith, length-after cs i c h)

pub get_elem?-some :
    (cs : List Candidate) (i : ℕ) → i < length cs → (c : Candidate) × (get_elem? cs i ≡ some c)
get_elem?-some [] i h = absurd (omega (arith, h))
get_elem?-some (x ∷ cs) zero h = (x, refl)
get_elem?-some (x ∷ cs) (suc i) h = get_elem?-some cs i (omega (arith, h))

skip_target_bounds :
    (cs : List Candidate) (i : ℕ)
    → i < length cs
    → (i < skip_target cs i) × (skip_target cs i ≤ length cs)
unfolding skip_target
skip_target_bounds cs i h =
    let (c, e) = get_elem?-some cs i h in
    let b = skip_from_bounds c (after i cs) (i + 1) in
    let l = length-after cs i c e in ground (arith, e, b, l)

-- The chain makes progress and stays inside the list: when the action is to go on, the next
-- index is past the attempted one and at most the number of candidates.
pub next_index_progress :
    (cs : List Candidate) (i : ℕ) (o : Outcome) (status : ℕ)
    → i < length cs
    → (next_index cs i o status).1 ≡ action_next
    → (i < (next_index cs i o status).0) × ((next_index cs i o status).0 ≤ length cs)
unfolding next_index
next_index_progress cs i success status h e = absurd (cc e)
next_index_progress cs i fatal status h e = absurd (cc e)
next_index_progress cs i client_cancelled status h e = absurd (cc e)
next_index_progress cs i retryable_credential status h e = ground arith
next_index_progress cs i retryable_model status h e = ground arith
next_index_progress cs i retryable_provider status h e =
    let b = skip_target_bounds cs i h in ground (arith, b)
next_index_progress cs i (other _) status h e = ground arith

le_cases : (a b : ℕ) → a ≤ b → (a < b) ⊎ (a ≡ b)
le_cases a b h = ground arith

abbrev pub SameTarget : Candidate → Candidate → Type 0
SameTarget d c = (d.provider_id ≡ c.provider_id) × (d.model ≡ c.model)

same_target_iff : (d c : Candidate) → (same_target d c ≡ true) ↔ SameTarget d c
unfolding same_target
same_target_iff d c =
    let p = str_eq_iff d.provider_id c.provider_id in
    let m = str_eq_iff d.model c.model in ground (arith, p, m)

skip_from_same :
    (c : Candidate) (ds : List Candidate) (j n : ℕ) (d : Candidate)
    → j + n < skip_from c ds j
    → get_elem? ds n ≡ some d
    → same_target d c ≡ true
unfolding skip_from
skip_from_same c [] j n d h e = absurd (cc e)
skip_from_same c (x ∷ ds) j zero d h e = elim (Bool-cases (same_target x c)) [
  | inl t ↦ ground (arith, t, e)
  | inr t ↦ absurd (ground (arith, t, h))
]
skip_from_same c (x ∷ ds) j (suc n) d h e = elim (Bool-cases (same_target x c)) [
  | inl t ↦ skip_from_same c ds (j + 1) n d (ground (arith, t, h)) e
  | inr t ↦ absurd (ground (arith, t, h))
]

skip_from_other :
    (c : Candidate) (ds : List Candidate) (j n : ℕ) (d : Candidate)
    → j + n ≡ skip_from c ds j
    → get_elem? ds n ≡ some d
    → same_target d c ≡ false
unfolding skip_from
skip_from_other c [] j n d h e = absurd (cc e)
skip_from_other c (x ∷ ds) j zero d h e = elim (Bool-cases (same_target x c)) [
  | inl t ↦ absurd (ground (arith, t, h, skip_from_bounds c ds (j + 1)))
  | inr t ↦ ground (arith, t, e)
]
skip_from_other c (x ∷ ds) j (suc n) d h e = elim (Bool-cases (same_target x c)) [
  | inl t ↦ skip_from_other c ds (j + 1) n d (ground (arith, t, h)) e
  | inr t ↦ absurd (ground (arith, t, h))
]

get_elem?-after :
    (cs : List Candidate) (i n : ℕ) → get_elem? (after i cs) n ≡ get_elem? cs (suc (i + n))
get_elem?-after [] i n = refl
get_elem?-after (x ∷ cs) zero n = ap (get_elem? cs) (omega arith)
get_elem?-after (x ∷ cs) (suc i) n = get_elem?-after cs i n ∙ ap (get_elem? cs) (omega arith)

-- A provider failure other than 429 at candidate `c` passes over the candidates that follow as
-- long as they have the same provider and model: of a later candidate that the chain has not
-- gone beyond, it is jumped over exactly when it is the same target.
pub provider_failure_jumps :
    (cs : List Candidate) (i status n : ℕ) (c d : Candidate)
    → get_elem? cs i ≡ some c
    → status ≢ 429
    → get_elem? cs (suc (i + n)) ≡ some d
    → suc (i + n) ≤ (next_index cs i retryable_provider status).0
    → (suc (i + n) < (next_index cs i retryable_provider status).0) ↔ SameTarget d c
unfolding next_index skip_target
provider_failure_jumps cs i status n c d at s there l =
    let t = skip_from c (after i cs) (i + 1) in
    let jump : (next_index cs i retryable_provider status).0 ≡ t = ground (arith, at, s) in
    let e = get_elem?-after cs i n ∙ there in
    (
      (λ j.
          (same_target_iff d c).0
            (skip_from_same c (after i cs) (i + 1) n d (omega (arith, j, jump)) e)),
      (λ same. elim (le_cases (suc (i + n)) t (omega (arith, l, jump))) [
        | inl j ↦ omega (arith, j, jump)
        | inr j ↦ absurd (
            cc (
              skip_from_other c (after i cs) (i + 1) n d (omega (arith, j)) e,
              (same_target_iff d c).1 same,
            ))
      ]),
    )
