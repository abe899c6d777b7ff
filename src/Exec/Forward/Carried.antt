-- ===== src/Exec/Forward/Carried.antt =====
-- What each chunk of a forwarded stream leaves of the provider's bytes, while the client takes
-- everything and no chunk is stripped.
use darkrouter.Base.{
  ◌+◌, true, false, not, ◌&&◌, List, [], ◌∷◌, ◌++◌, length, ltb, str_eq, if_holds, option_holds,
  cases_hold, ◌≡◌, refl, sym, ap, ◌∙◌, subst, arith, ◌⊎◌, inl, inr, append_assoc, append-nil,
}
use darkrouter.Exec.Attempt.Reports.{Answer}
use darkrouter.Exec.Attempt.Stream.{lost_answer}
use darkrouter.Exec.Forward.{
  RawEvent, Setting, Forward, Stepped, on, off, commit, take_usage, abandon, held_back, step_before,
  step_after, step, client_left, steps,
}
use darkrouter.Exec.RawStream.Cuts.{concat, concat-append}
use darkrouter.Sse.Lines.{Bytes}

-- Written or pending are the bytes `seen`: written only, once committed, and pending only before.
abbrev pub Carries : Bytes → Forward → Type 0
Carries seen s =
    ((s.committed ≡ true) × (s.pending ≡ []) × (concat s.out ≡ seen))
    ⊎ ((s.committed ≡ false) × (s.out ≡ []) × (concat s.pending ≡ seen))

-- An answer with nothing written, which lets another candidate answer.
abbrev pub Unsent : Answer × List Bytes → Type 0
Unsent r = (r.0.committed ≡ false) × (r.1 ≡ [])

abbrev pub StepCarries : Bytes → Stepped → Type 0
StepCarries seen (on s) = Carries seen s
StepCarries seen (off a out) = Unsent (a, out)

pub concat-one : (out : List Bytes) (raw : Bytes) → concat (out ++ (raw ∷ [])) ≡ concat out ++ raw
unfolding concat
concat-one out raw = concat-append out (raw ∷ []) ∙ ap (λ l. concat out ++ l) (append-nil raw)

take_usage-Carries :
    (seen : Bytes) (s : Forward) (re : RawEvent) → Carries seen s → Carries seen (take_usage s re)
unfolding take_usage
take_usage-Carries seen s re h = option_holds (Carries seen) re.usage _ _ (λ e. h) (λ u e. h)

pub commit-Carries :
    (seen : Bytes) (s : Forward)
    → s.committed ≡ false
    → Carries seen s
    → (concat (commit s).out ≡ seen)
unfolding commit
commit-Carries seen s c (inl (d, _, _)) = absurd (cc (c, d))
commit-Carries seen s c (inr (_, o, p)) = subst (λ out. concat (out ++ s.pending) ≡ seen) (sym o) p

pub written :
    (seen : Bytes) (s : Forward) → s.committed ≡ true → Carries seen s → concat s.out ≡ seen
written seen s c (inl (_, _, o)) = o
written seen s c (inr (d, _, _)) = absurd (cc (c, d))

pub unwritten : (seen : Bytes) (s : Forward) → s.committed ≡ false → Carries seen s → s.out ≡ []
unwritten seen s c (inl (d, _, _)) = absurd (cc (c, d))
unwritten seen s c (inr (_, o, _)) = o

module _ (g : Setting) (alive : (out : List Bytes) → g.alive out ≡ true)
    (kept : g.strip ≡ false) where
  step_before-Carries :
      (seen : Bytes) (s : Forward) (raw : Bytes) (re : RawEvent)
      → s.committed ≡ false
      → Carries seen s
      → StepCarries (seen ++ raw) (step_before g s raw re)
  unfolding step_before abandon held_back lost_answer commit
  step_before-Carries seen s raw re c (inl (d, _, _)) = absurd (cc (c, d))
  step_before-Carries seen s raw re c (inr (d, o, p)) =
      let T = StepCarries (seen ++ raw) in
      if_holds T (not (str_eq re.err_payload "")) _ _ (λ e. (refl, o))
        (λ e.
          if_holds T re.content _ _
            (λ t. inl (
              refl,
              refl,
              concat-one (s.out ++ s.pending) raw
                  ∙ ap (λ l. l ++ raw) (commit-Carries seen s c (inr (d, o, p))),
            ))
            (λ t.
              if_holds T
                (ltb 0 g.max_precommit_bytes
                  && ltb g.max_precommit_bytes (s.pending_bytes + length raw))
                _ _ (λ u. (refl, o))
                (λ u.
                  if_holds T (g.strip && re.usage_only) _ _ (λ v. absurd (ground (arith, v, kept)))
                    (λ v. inr (d, o, concat-one s.pending raw ∙ ap (λ l. l ++ raw) p)))))

  step_after-Carries :
      (seen : Bytes) (s : Forward) (raw : Bytes) (re : RawEvent)
      → s.committed ≡ true
      → Carries seen s
      → StepCarries (seen ++ raw) (step_after g s raw re)
  unfolding step_after
  step_after-Carries seen s raw re c (inr (d, _, _)) = absurd (cc (c, d))
  step_after-Carries seen s raw re c (inl (d, q, o)) =
      if_holds (StepCarries (seen ++ raw)) (g.strip && re.usage_only) _ _
        (λ v. absurd (ground (arith, v, kept)))
        (λ v. inl (d, q, concat-one s.out raw ∙ ap (λ l. l ++ raw) o))

  pub step-Carries :
      (seen : Bytes) (s : Forward) (raw : Bytes)
      → Carries seen s
      → StepCarries (seen ++ raw) (step g s raw)
  unfolding step
  step-Carries seen s raw h =
      let re = g.recognize raw in
      let t = take_usage s re in
      let k = take_usage-Carries seen s re h in
      if_holds (StepCarries (seen ++ raw)) t.committed _ _
        (λ c. step_after-Carries seen t raw re c k) (λ c. step_before-Carries seen t raw re c k)

  after_step-Carries :
      (seen done : Bytes) (raws : List Bytes) (r : Stepped)
      → StepCarries seen r
      → ((t : Forward) → Carries seen t → StepCarries done (steps g t raws))
      → StepCarries done (elim r [
        | off a out ↦ off a out
        | on t ↦ elim (g.alive t.out) [
          | true ↦ steps g t raws
          | false ↦ off (client_left g t).0 (client_left g t).1
        ]
      ])
  after_step-Carries seen done raws (off a out) k ih = k
  after_step-Carries seen done raws (on t) k ih =
      cases_hold (StepCarries done) (g.alive t.out) _ _ (λ e. ih t k)
        (λ e. absurd (cc (e, alive t.out)))

  pub steps-Carries :
      (seen : Bytes) (s : Forward) (raws : List Bytes)
      → Carries seen s
      → StepCarries (seen ++ concat raws) (steps g s raws)
  unfolding steps concat
  steps-Carries seen s [] h = subst (λ l. Carries l s) (sym (append-nil seen)) h
  steps-Carries seen s (raw ∷ raws) h =
      subst (λ l. StepCarries l (steps g s (raw ∷ raws))) (append_assoc seen raw (concat raws))
        (after_step-Carries (seen ++ raw) ((seen ++ raw) ++ concat raws) raws (step g s raw)
          (step-Carries seen s raw h) (λ t k. steps-Carries (seen ++ raw) t raws k))
