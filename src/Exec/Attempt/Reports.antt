-- ===== src/Exec/Attempt/Reports.antt =====
-- What a surface may do to the context of its attempt while it answers: the methods that
-- internal/exec/surface.go and internal/exec/exec.go give it. A surface is known by that.
use darkrouter.Base.{
  ℕ, suc, String, Bool, true, false, List, [], ◌∷◌, ◌++◌, Option, none, some, length, ◌≡◌, refl, ap,
  ◌∙◌, arith, ◌⊎◌, inl, inr, Option-cases, subst, sym,
}
use darkrouter.Adapter.{Outcome, IsKnown}
use darkrouter.Exec.Attempt.{
  Row, RequestRecord, Response, AttemptCtx, on_last, last_row, apply_usage, demote_row, move_usage,
  demote_last_attempt, key_of, signal_of, record_health,
}
use darkrouter.Exec.Attempt.Failures.{record_failure, demoted, name_error}
use darkrouter.Health.Types.{Signal}
use darkrouter.Ir.{Error, Usage}

-- The rows of a failed part of the body, as internal/exec/embed.go writes them.
unfoldable pub mark_row : AttemptCtx → Outcome → ℕ → String → AttemptCtx
unfolding on_last
mark_row ac o status message = record ac {
  rec = record ac.rec {
    attempts =
        on_last (λ r. record r { outcome = o; status_code = status; error = message })
          ac.rec.attempts;
  };
}

pub data Reports (s : AttemptCtx) : AttemptCtx → Type 0 where
  nothing : Reports s s
  usage :
      {t : AttemptCtx}
      → Reports s t
      → (u : Option Usage) → Reports s (record t { rec = apply_usage t.rec u })
  failure :
      {t : AttemptCtx}
      → Reports s t
      → (o : Outcome) (r : Option Response) (e : Option Error) → IsKnown o
      → Reports s (record_failure t o r e)
  demotion : {t : AttemptCtx} → Reports s t → (o : Outcome) → Reports s (demoted t o false)
  named : {t : AttemptCtx} → Reports s t → (message : String) → Reports s (name_error t message)
  marked :
      {t : AttemptCtx}
      → Reports s t
      → (o : Outcome) (status : ℕ) (message : String) → Reports s (mark_row t o status message)

-- At most one signal so far, and none without the mark that there is one.
abbrev pub Signalled : AttemptCtx → Type 0
Signalled ac =
    (s : Signal) × (ac.health_done ≡ true)
    × (ac.signals ≡ (key_of ac.cand, s) ∷ [])
    × IsKnown s.outcome

abbrev pub Told : AttemptCtx → Type 0
Told ac = ((ac.health_done ≡ false) × (ac.signals ≡ [])) ⊎ Signalled ac

signal_of-outcome : (o : Outcome) (r : Option Response) → (signal_of o r).outcome ≡ o
unfolding signal_of
signal_of-outcome o none = refl
signal_of-outcome o (some r) = ground arith

pub record_health_done :
    (ac : AttemptCtx) (o : Outcome) (r : Option Response)
    → ac.health_done ≡ true
    → record_health ac o r ≡ ac
unfolding record_health
record_health_done ac o r h = ground (arith, h)

pub record_health_fresh :
    (ac : AttemptCtx) (o : Outcome) (r : Option Response)
    → ac.health_done ≡ false
    → record_health ac o r ≡ record ac {
      health_done = true;
      signals = ac.signals ++ ((key_of ac.cand, signal_of o r) ∷ []);
    }
unfolding record_health
record_health_fresh ac o r h = ground (arith, h)

pub record_health-Signalled :
    (ac : AttemptCtx) (o : Outcome) (r : Option Response)
    → IsKnown o
    → Told ac
    → Signalled (record_health ac o r)
record_health-Signalled ac o r k (inl (d, e)) =
    subst Signalled (sym (record_health_fresh ac o r d)) (
      signal_of o r,
      refl,
      ap (λ l. l ++ ((key_of ac.cand, signal_of o r) ∷ [])) e,
      subst IsKnown (sym (signal_of-outcome o r)) k,
    )
record_health-Signalled ac o r k (inr told) =
    subst Signalled (sym (record_health_done ac o r told.1)) told

-- What no method of the context changes.
abbrev pub Same : AttemptCtx → AttemptCtx → Type 0
Same s t = (t.cand ≡ s.cand) × (t.resp ≡ s.resp) × (length t.rec.attempts ≡ length s.rec.attempts)

pub record_health-Same :
    (ac : AttemptCtx) (o : Outcome) (r : Option Response) → Same ac (record_health ac o r)
unfolding record_health
record_health-Same ac o r = ground arith

pub length-on_last : (f : Row → Row) (rows : List Row) → length (on_last f rows) ≡ length rows
unfolding on_last
length-on_last f [] = refl
length-on_last f (r ∷ []) = refl
length-on_last f (r ∷ q ∷ rows) = ap suc (length-on_last f (q ∷ rows))

length-move_usage : (rec : RequestRecord) → length (move_usage rec).attempts ≡ length rec.attempts
unfolding move_usage
length-move_usage rec = length-on_last _ rec.attempts

length-demote_row :
    (rec : RequestRecord) (o : Outcome) (a : Row)
    → length (demote_row rec o a).attempts ≡ length rec.attempts
unfolding demote_row
length-demote_row rec o a =
    let named : RequestRecord = record rec {
      attempts = on_last (λ r. record r { outcome = o }) rec.attempts;
    } in
    ground
      (arith, length-on_last (λ r. record r { outcome = o }) rec.attempts, length-move_usage named)

pub length-demote_last_attempt :
    (rec : RequestRecord) (o : Outcome) (committed : Bool)
    → length (demote_last_attempt rec o committed).attempts ≡ length rec.attempts
unfolding demote_last_attempt
length-demote_last_attempt rec o committed = elim (Option-cases (last_row rec.attempts)) [
  | inl e ↦ ground (arith, e)
  | inr (a, e) ↦ ground (arith, e, length-demote_row rec o a)
]

pub Reports-Same : {s t : AttemptCtx} → Reports s t → Same s t
unfolding apply_usage record_failure demoted name_error mark_row
Reports-Same nothing = (refl, refl, refl)
Reports-Same (usage r none) = Reports-Same r
Reports-Same (usage r (some u)) = Reports-Same r
Reports-Same (failure {t} r o resp e k) =
    let h = Reports-Same r in
    let k2 = record_health-Same t o _ in (k2.0 ∙ h.0, k2.1 ∙ h.1, k2.2 ∙ h.2)
Reports-Same (demotion {t} r o) =
    let h = Reports-Same r in (h.0, h.1, length-demote_last_attempt t.rec o false ∙ h.2)
Reports-Same (named {t} r message) =
    let h = Reports-Same r in (h.0, h.1, length-on_last _ t.rec.attempts ∙ h.2)
Reports-Same (marked {t} r o status message) =
    let h = Reports-Same r in (h.0, h.1, length-on_last _ t.rec.attempts ∙ h.2)

pub Reports-Told : {s t : AttemptCtx} → Told s → Reports s t → Told t
unfolding apply_usage record_failure demoted name_error mark_row
Reports-Told h nothing = h
Reports-Told h (usage r u) = Reports-Told h r
Reports-Told h (failure {t} r o resp e k) = inr (record_health-Signalled t o _ k (Reports-Told h r))
Reports-Told h (demotion r o) = Reports-Told h r
Reports-Told h (named r message) = Reports-Told h r
Reports-Told h (marked r o status message) = Reports-Told h r

-- How a surface answered: whether bytes went out, whether the client's writer failed, and what the
-- contexts said at the end.
pub record Answer : Type 0 where
  pub ctx : AttemptCtx
  pub outcome : Outcome
  pub err : Option Error
  pub committed : Bool
  pub write_failed : Bool

-- `SurfaceOp.Respond`, `forwardStream` and `forwardUnary` as the loop uses them.
pub record Surface : Type 0 where
  pub respond : AttemptCtx → Answer
  pub respond-Reports : (ac : AttemptCtx) → Reports ac (respond ac).ctx
  pub respond-IsKnown : (ac : AttemptCtx) → IsKnown (respond ac).outcome
