-- ===== src/Exec/Attempt/Demotion.antt =====
-- Where the tokens of a failed attempt go.
use darkrouter.Base.{
  ℕ, ◌+◌, Bool, false, ap, ◌∙◌, ◌++◌, not, ◌||◌, List, [], ◌∷◌, some, ◌==◌, ◌≡◌, refl, arith,
  if_holds, Option-cases, inl, inr,
}
use darkrouter.Adapter.{Outcome, is_success}
use darkrouter.Exec.Attempt.{
  Row, RequestRecord, on_last, last_row, burned_nothing, move_usage, demote_row,
  demote_last_attempt,
}

abbrev pub sum_in : List Row → ℕ
sum_in [] = 0
sum_in (r ∷ rows) = r.tokens_in + sum_in rows

abbrev pub sum_out : List Row → ℕ
sum_out [] = 0
sum_out (r ∷ rows) = r.tokens_out + sum_out rows

-- Conservation between the request and its rows, and what stays on the request.
abbrev pub Conserves : RequestRecord → RequestRecord → Type 0
Conserves rec after =
    (after.tokens_in + sum_in after.attempts ≡ rec.tokens_in + sum_in rec.attempts)
    × (after.tokens_out + sum_out after.attempts ≡ rec.tokens_out + sum_out rec.attempts)
    × (after.cache_write_5m_tokens ≡ rec.cache_write_5m_tokens)
    × (after.cache_write_1h_tokens ≡ rec.cache_write_1h_tokens)

sums_named :
    (o : Outcome) (rows : List Row)
    → (sum_in (on_last (λ r. record r { outcome = o }) rows) ≡ sum_in rows)
      × (sum_out (on_last (λ r. record r { outcome = o }) rows) ≡ sum_out rows)
unfolding on_last
sums_named o [] = (refl, refl)
sums_named o (r ∷ []) = (refl, refl)
sums_named o (r ∷ s ∷ rows) = let ih = sums_named o (s ∷ rows) in omega (arith, ih)

sums_moved :
    (i k : ℕ) (rows : List Row) (a : Row)
    → last_row rows ≡ some a
    → a.tokens_in ≡ 0
    → a.tokens_out ≡ 0
    → (sum_in (on_last (λ r. record r { tokens_in = i; tokens_out = k }) rows) ≡ i + sum_in rows)
      × (sum_out (on_last (λ r. record r { tokens_in = i; tokens_out = k }) rows)
          ≡ k + sum_out rows)
unfolding on_last last_row
sums_moved i k [] a e p q = absurd (cc e)
sums_moved i k (r ∷ []) a e p q = ground (arith, e, p, q)
sums_moved i k (r ∷ s ∷ rows) a e p q =
    let ih = sums_moved i k (s ∷ rows) a e p q in omega (arith, ih)

last_row_named :
    (o : Outcome) (rows : List Row) (a : Row)
    → last_row rows ≡ some a
    → last_row (on_last (λ r. record r { outcome = o }) rows) ≡ some (record a { outcome = o })
unfolding on_last last_row
last_row_named o [] a e = absurd (cc e)
last_row_named o (r ∷ []) a e = ground (arith, e)
last_row_named o (r ∷ s ∷ []) a e = last_row_named o (s ∷ []) a e
last_row_named o (r ∷ s ∷ t ∷ rows) a e = last_row_named o (s ∷ t ∷ rows) a e

demote_row-Conserves :
    (rec : RequestRecord) (o : Outcome) (a : Row)
    → last_row rec.attempts ≡ some a
    → Conserves rec (demote_row rec o a)
unfolding demote_row move_usage
demote_row-Conserves rec o a e =
    let rows = on_last (λ r. record r { outcome = o }) rec.attempts in
    let same = sums_named o rec.attempts in
    if_holds (Conserves rec) (not (a.tokens_in == 0) || not (a.tokens_out == 0)) _ _
      (λ t. (omega (arith, same), omega (arith, same), refl, refl))
      (λ t.
        if_holds (Conserves rec) (burned_nothing rec) _ _
          (λ n. (omega (arith, same), omega (arith, same), refl, refl))
          (λ n.
            let moved =
              sums_moved rec.tokens_in rec.tokens_out rows (record a { outcome = o })
                (last_row_named o rec.attempts a e) (ground (arith, t)) (ground (arith, t)) in
            (omega (arith, same, moved), omega (arith, same, moved), refl, refl)))

-- Demoting the last attempt neither loses nor duplicates its input and output tokens: those of the
-- request and of all its attempt rows add up to what they did before, also when the attempt was
-- demoted already. The two counts that break the cache writes down stay on the request.
pub demote_last_attempt-Conserves :
    (rec : RequestRecord) (o : Outcome) (committed : Bool)
    → Conserves rec (demote_last_attempt rec o committed)
unfolding demote_last_attempt
demote_last_attempt-Conserves rec o committed = elim (Option-cases (last_row rec.attempts)) [
  | inl e ↦ ground (arith, e)
  | inr (a, e) ↦ let c = demote_row-Conserves rec o a e in ground (arith, e, c)
]

-- The request once it has given its usage away, with these rows.
abbrev pub spent : RequestRecord → List Row → RequestRecord
spent rec rows = record rec {
  tokens_in = 0;
  tokens_out = 0;
  cache_read_tokens = 0;
  cache_write_tokens = 0;
  reasoning_tokens = 0;
  attempts = rows;
}

-- The row of a failed attempt that is charged what the request had used.
abbrev pub charged_row : RequestRecord → Outcome → Row → Row
charged_row rec o a = record a {
  outcome = o;
  tokens_in = rec.tokens_in;
  tokens_out = rec.tokens_out;
}

last_row-snoc : (rows : List Row) (a : Row) → last_row (rows ++ (a ∷ [])) ≡ some a
unfolding last_row
last_row-snoc [] a = refl
last_row-snoc (r ∷ []) a = refl
last_row-snoc (r ∷ s ∷ rows) a = last_row-snoc (s ∷ rows) a

on_last-snoc :
    (f : Row → Row) (rows : List Row) (a : Row) → on_last f (rows ++ (a ∷ [])) ≡ rows ++ (f a ∷ [])
unfolding on_last
on_last-snoc f [] a = refl
on_last-snoc f (r ∷ []) a = refl
on_last-snoc f (r ∷ s ∷ rows) a = ap (λ t. r ∷ t) (on_last-snoc f (s ∷ rows) a)

demoted :
    (rec : RequestRecord) (o : Outcome) (front : List Row) (a : Row)
    → rec.attempts ≡ front ++ (a ∷ [])
    → is_success o ≡ false
    → demote_last_attempt rec o false ≡ demote_row rec o a
unfolding demote_last_attempt
demoted rec o front a e f = rw (f, ap last_row e ∙ last_row-snoc front a) refl

-- A row that burned nothing yet, by whether the request did.
moved :
    (rec : RequestRecord) (o : Outcome) (front : List Row) (a : Row)
    → rec.attempts ≡ front ++ (a ∷ [])
    → a.tokens_in ≡ 0
    → a.tokens_out ≡ 0
    → demote_row rec o a ≡ spent rec (front ++ (charged_row rec o a ∷ []))
unfolding demote_row move_usage burned_nothing
moved rec o front a e p q =
    let name : Row → Row = λ r. record r { outcome = o } in
    let charge : Row → Row =
      λ r. record r { tokens_in = rec.tokens_in; tokens_out = rec.tokens_out } in
    let named : on_last name rec.attempts ≡ front ++ (name a ∷ []) =
      ap (on_last name) e ∙ on_last-snoc name front a in
    let charged : on_last charge (on_last name rec.attempts) ≡ front ++ (charge (name a) ∷ []) =
      ap (on_last charge) named ∙ on_last-snoc charge front (name a) in
    ground (arith, p, q, named, charged)

-- A row that is charged already, or has nothing to be charged, is only named.
renamed :
    (rec : RequestRecord) (o o' : Outcome) (front : List Row) (a : Row)
    → demote_row (spent rec (front ++ (charged_row rec o a ∷ []))) o' (charged_row rec o a)
      ≡ spent rec (front ++ (charged_row rec o' a ∷ []))
unfolding demote_row burned_nothing
renamed rec o o' front a =
    let name : Row → Row = λ r. record r { outcome = o' } in
    let named = on_last-snoc name front (charged_row rec o a) in ground (arith, named)

-- When an attempt whose row has no tokens yet fails before commit, the row is charged the input and
-- output tokens that the request has used, and the request starts the next attempt with none, its
-- cache reads, cache writes and reasoning tokens dropped too. Demoting the attempt again names the
-- later outcome and moves nothing.
pub demote_last_attempt_moves :
    (rec : RequestRecord) (o o' : Outcome) (front : List Row) (a : Row)
    → rec.attempts ≡ front ++ (a ∷ [])
    → a.tokens_in ≡ 0
    → a.tokens_out ≡ 0
    → is_success o ≡ false
    → is_success o' ≡ false
    → let after = demote_last_attempt rec o false in
      (after ≡ spent rec (front ++ (charged_row rec o a ∷ [])))
      × (demote_last_attempt after o' false ≡ spent rec (front ++ (charged_row rec o' a ∷ [])))
demote_last_attempt_moves rec o o' front a e p q f f' =
    let once = demoted rec o front a e f ∙ moved rec o front a e p q in
    let after = spent rec (front ++ (charged_row rec o a ∷ [])) in
    (
      once,
      ap (λ r. demote_last_attempt r o' false) once
          ∙ demoted after o' front (charged_row rec o a) refl f'
          ∙ renamed rec o o' front a,
    )
