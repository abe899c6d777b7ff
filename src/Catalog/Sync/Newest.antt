-- ===== src/Catalog/Sync/Newest.antt =====
-- internal/catalog/sync.go: what the status says after any interleaving of runs.
use darkrouter.Base.{
  ℕ, zero, suc, ◌+◌, ◌≤◌, ◌<◌, ◌^◌, ◌++◌, ◌==◌, none, some, get_elem?, ◌∙◌, length, length-append,
  if◌then◌else◌, String, List, [], ◌∷◌, ltb, leb, ◌≡◌, ◌⊎◌, inl, inr, refl, arith, All, ℤ, pos,
  negsuc, pos_part, neg_part, incr, Bool-cases, subst, sym, ap,
}
use darkrouter.Catalog.Sync.{Syncer, SyncStatus, begin_run, finish, decr, status, new_syncer}

-- One call under the lock. `finishes n err now` is the end of the run that was the n-th to begin, from
-- 1, with its error and the time.
pub data Call : Type 0 where
  begins : Call
  finishes : ℕ → String → ℕ → Call

-- The syncer, and the numbers that `begin` has returned, the first one first.
pub record World : Type 0 where
  pub syncer : Syncer
  pub numbers : List ℕ

-- A run is finished by the number that its `begin` returned.
unfoldable pub perform : Call → World → World
perform begins w = record {
  syncer = (begin_run w.syncer).0;
  numbers = w.numbers ++ ((begin_run w.syncer).1 ∷ []);
}
perform (finishes zero err now) w = w
perform (finishes (suc n) err now) w = elim (get_elem? w.numbers n) [
  | none ↦ w
  | some run ↦ record w { syncer = finish w.syncer run err now }
]

unfoldable pub perform_all : List Call → World → World
unfolding perform
perform_all [] w = w
perform_all (c ∷ cs) w = perform_all cs (perform c w)

abbrev pub new_world : World
new_world = record { syncer = new_syncer; numbers = [] }

-- A run ends after it has begun, `n` runs having begun before these calls.
abbrev pub EndsBegun : ℕ → List Call → Type 0
EndsBegun n [] = Unit {0}
EndsBegun n (begins ∷ cs) = EndsBegun (suc n) cs
EndsBegun n (finishes k err now ∷ cs) = (0 < k) × (k ≤ n) × EndsBegun n cs

-- The same calls on the syncer alone, each run being numbered by its place.
unfoldable number : Call → Syncer → Syncer
number begins s = (begin_run s).0
number (finishes run err now) s = finish s run err now

unfoldable number_all : List Call → Syncer → Syncer
unfolding number
number_all [] s = s
number_all (c ∷ cs) s = number_all cs (number c s)

-- The calls name no later run than this one.
abbrev pub NoLater : ℕ → Call → Type 0
NoLater run begins = Unit {0}
NoLater run (finishes r err now) = r ≤ run

-- The status is the one before, or tells the outcome of a call.
abbrev pub TellsCall : SyncStatus → Call → Type 0
TellsCall s begins = ⊥
TellsCall s (finishes r err now) = s ≡ record { run = r; finished = now; err = err }

abbrev pub Tells : SyncStatus → SyncStatus → List Call → Type 0
Tells before s [] = s ≡ before
Tells before s (c ∷ cs) = TellsCall s c ⊎ Tells before s cs

abbrev pub started : List Call → ℕ
started [] = 0
started (begins ∷ cs) = suc (started cs)
started (finishes _ _ _ ∷ cs) = started cs

abbrev pub ended : List Call → ℕ
ended [] = 0
ended (begins ∷ cs) = ended cs
ended (finishes _ _ _ ∷ cs) = suc (ended cs)

last_grows : (cs : List Call) (s : Syncer) → s.last.run ≤ (number_all cs s).last.run
unfolding number_all begin_run finish
last_grows [] s = omega arith
last_grows (begins ∷ cs) s = last_grows cs _
last_grows (finishes r e t ∷ cs) s = ground (arith, last_grows cs (finish s r e t))

no_later : (cs : List Call) (s : Syncer) → All (NoLater (number_all cs s).last.run) cs
unfolding number_all begin_run
no_later [] s = tt
no_later (begins ∷ cs) s = (tt, no_later cs _)
no_later (finishes r e t ∷ cs) s =
    let later = last_grows cs (finish s r e t) in
    (unfold finish in ground (arith, later), no_later cs (finish s r e t))

incr_parts : (z : ℤ) → pos_part (incr z) + neg_part z ≡ neg_part (incr z) + pos_part z + 1
incr_parts (pos n) = omega arith
incr_parts (negsuc zero) = omega arith
incr_parts (negsuc (suc n)) = omega arith

decr_parts : (z : ℤ) → pos_part (decr z) + neg_part z + 1 ≡ neg_part (decr z) + pos_part z
unfolding decr
decr_parts (pos zero) = omega arith
decr_parts (pos (suc n)) = omega arith
decr_parts (negsuc n) = omega arith

finish_running : (s : Syncer) (r t : ℕ) (e : String) → (finish s r e t).running ≡ decr s.running
unfolding finish
finish_running s r t e = ground arith

count :
    (cs : List Call) (s : Syncer)
    → pos_part (number_all cs s).running + neg_part s.running + ended cs
      ≡ neg_part (number_all cs s).running + pos_part s.running + started cs
unfolding number_all begin_run
count [] s = omega arith
count (begins ∷ cs) s = omega (arith, count cs (begin_run s).0, incr_parts s.running)
count (finishes r e t ∷ cs) s =
    let same = finish_running s r t e in
    omega
      (arith, decr_parts s.running, count cs (finish s r e t), ap pos_part same, ap neg_part same)

replaced :
    (before now final : SyncStatus) (c : Call) (cs : List Call)
    → TellsCall now c
    → Tells now final cs
    → TellsCall final c ⊎ Tells before final cs
replaced before now final c [] h t = inl (subst (λ x. TellsCall x c) (sym t) h)
replaced before now final c (d ∷ cs) h (inl t) = inr (inl t)
replaced before now final c (d ∷ cs) h (inr t) = elim (replaced before now final c cs h t) [
  | inl a ↦ inl a
  | inr a ↦ inr (inr a)
]

tells : (cs : List Call) (s : Syncer) → Tells s.last (number_all cs s).last cs
unfolding number_all begin_run
tells [] s = refl
tells (begins ∷ cs) s = inr (tells cs (begin_run s).0)
tells (finishes r e t ∷ cs) s = elim (Bool-cases (leb r s.last.run)) [
  | inl old ↦
      let same : (finish s r e t).last ≡ s.last = unfold finish in ground (arith, old) in
      inr (
        subst (λ x. Tells x (number_all cs (finish s r e t)).last cs) same
          (tells cs (finish s r e t)))
  | inr new ↦
      replaced s.last (finish s r e t).last (number_all cs (finish s r e t)).last (finishes r e t)
        cs (unfold finish in ground (arith, new)) (tells cs (finish s r e t))
]

-- The n-th number is n, while the counter does not wrap.
abbrev Numbered : World → Type 0
Numbered w =
    (w.syncer.begun ≡ length w.numbers)
    × ((n : ℕ) → n < length w.numbers → get_elem? w.numbers n ≡ some (n + 1))

get_elem?-snoc :
    (xs : List ℕ) (x n : ℕ)
    → get_elem? (xs ++ (x ∷ [])) n
      ≡ (if ltb n (length xs) then get_elem? xs n else if n == length xs then some x else none)
get_elem?-snoc [] x zero = refl
get_elem?-snoc [] x (suc n) = ground arith
get_elem?-snoc (y ∷ ys) x zero = ground arith
get_elem?-snoc (y ∷ ys) x (suc n) = ground (arith, get_elem?-snoc ys x n)

begins-Numbered :
    (w : World) → suc (length w.numbers) < 2 ^ 64 → Numbered w → Numbered (perform begins w)
unfolding perform begin_run
begins-Numbered w small (b, h) = (
  ground (arith, b, small, length-append {0} w.numbers ((length w.numbers + 1) ∷ [])),
  λ n l. ground (
    arith,
    b,
    small,
    h n,
    l,
    get_elem?-snoc w.numbers (length w.numbers + 1) n,
    length-append {0} w.numbers ((length w.numbers + 1) ∷ []),
  ),
)

finish_begun : (s : Syncer) (r t : ℕ) (e : String) → (finish s r e t).begun ≡ s.begun
unfolding finish
finish_begun s r t e = ground arith

perform_finishes :
    (w : World) (n run : ℕ) (err : String) (now : ℕ)
    → get_elem? w.numbers n ≡ some run
    → perform (finishes (suc n) err now) w ≡ record w { syncer = finish w.syncer run err now }
unfolding perform
perform_finishes w n run err now e = ground (arith, e)

perform_number :
    (cs : List Call) (w : World)
    → length w.numbers + started cs < 2 ^ 64
    → EndsBegun (length w.numbers) cs
    → Numbered w
    → (perform_all cs w).syncer ≡ number_all cs w.syncer
unfolding perform_all number_all
perform_number [] w small e h = refl
perform_number (begins ∷ cs) w small e h =
    let next = perform begins w in
    let grown : length next.numbers ≡ suc (length w.numbers) =
      omega (arith, length-append {0} w.numbers ((begin_run w.syncer).1 ∷ [])) in
    perform_number cs next (omega (arith, small, grown)) (subst (λ n. EndsBegun n cs) (sym grown) e)
      (begins-Numbered w (omega (arith, small)) h)
perform_number (finishes zero err now ∷ cs) w small e h = absurd (omega (arith, e.0))
perform_number (finishes (suc n) err now ∷ cs) w small e h =
    let found = h.1 n (omega (arith, e.1)) in
    let shift : suc n ≡ n + 1 = omega arith in
    ap (λ v. (perform_all cs v).syncer) (perform_finishes w n (n + 1) err now found)
    ∙ perform_number cs (record w { syncer = finish w.syncer (n + 1) err now }) small e.2
        (finish_begun w.syncer (n + 1) now err ∙ h.0, h.1)
    ∙ ap (λ r. number_all cs (finish w.syncer r err now)) (sym shift)

-- Whatever order runs begin and finish in, each finishing after it began and with the number that
-- its beginning was given, and fewer than 2 ^ 64 of them: the status tells the outcome of one of the
-- runs that finished, or nothing yet; no finished run began later than the one that it tells; and it
-- says that a run is under way exactly when fewer have finished than have begun.
pub status_newest :
    (calls : List Call)
    → started calls < 2 ^ 64
    → EndsBegun 0 calls
    → let (last, running) = status (perform_all calls new_world).syncer in
      Tells new_syncer.last last calls
      × All (NoLater last.run) calls
      × (running ≡ ltb (ended calls) (started calls))
unfolding status new_syncer
status_newest calls small order =
    rw
      (perform_number calls new_world (omega (arith, small)) order
        (refl, λ n l. absurd (omega (arith, l))))
      (
        tells calls new_syncer,
        no_later calls new_syncer,
        unfold new_syncer in ground (arith, count calls new_syncer),
      )
