-- ===== src/Exec/Forward/Exact.antt =====
-- What the end of a forwarded stream leaves of the provider's bytes, while the client takes
-- everything and no chunk is stripped.
use darkrouter.Base.{
  true, false, not, List, [], ◌∷◌, ◌++◌, none, some, if◌then◌else◌, if_holds, option_holds, ◌≡◌,
  refl, sym, ap, ◌∙◌, subst, arith, ◌⊎◌, inl, inr, append_assoc, append-nil,
}
use darkrouter.Exec.Attempt.Failures.{Failure, Contexts}
use darkrouter.Exec.Attempt.Reports.{Answer}
use darkrouter.Exec.Attempt.Stream.{lost_answer}
use darkrouter.Exec.Forward.{
  Setting, Forward, Stepped, on, off, Ending, eof, broken, commit, send, step, fail_late,
  client_left, served, send_tail, close, at_eof, after_break, at_end, copied, unwritten_error,
}
use darkrouter.Exec.RawStream.Cuts.{concat}
use darkrouter.Sse.Lines.{Bytes}
use darkrouter.Exec.Forward.Carried.{
  Carries, Unsent, StepCarries, concat-one, commit-Carries, written, unwritten, step-Carries,
}

module _ (g : Setting) (alive : (out : List Bytes) → g.alive out ≡ true)
    (kept : g.strip ≡ false) where
  late_out :
      (s : Forward) (ctx : Contexts) (e : Failure) → concat (fail_late g s ctx e).1 ≡ concat s.out
  unfolding fail_late
  late_out s ctx e = refl

  -- All of it went out, but for an error event that may follow, or nothing did.
  abbrev pub Delivered : Bytes → Answer × List Bytes → Type 0
  Delivered seen r = Unsent r ⊎ ((concat r.1 ≡ seen) ⊎ (concat r.1 ≡ seen ++ g.error_event))

  -- After the commit of an empty completion, if need be.
  closed-Delivered :
      (seen : Bytes) (t : Forward)
      → concat t.out ≡ seen
      → Delivered seen (
          if not (g.alive t.out)
          then client_left g t
          else elim t.failed [ none ↦ served g t | some e ↦ fail_late g t g.ctx e ])
  closed-Delivered seen t o =
      if_holds (Delivered seen) (not (g.alive t.out)) _ _
        (λ e. absurd (ground (arith, e, alive t.out)))
        (λ e.
          option_holds (Delivered seen) t.failed _ _ (λ n. inr (inl o))
            (λ f n. inr (inl (late_out t g.ctx f ∙ o))))

  close-Delivered : (seen : Bytes) (s : Forward) → Carries seen s → Delivered seen (close g s)
  unfolding close
  close-Delivered seen s h =
      let t = if s.committed then s else commit s in
      let o =
        if_holds (λ (t : Forward). concat t.out ≡ seen) s.committed s (commit s)
          (λ c. written seen s c h) (λ c. commit-Carries seen s c h) in
      closed-Delivered seen t o

  closing :
      (seen : Bytes) (r : Stepped)
      → StepCarries seen r
      → Delivered seen (elim r [ off a out ↦ (a, out) | on t ↦ close g t ])
  closing seen (off a out) k = inl k
  closing seen (on t) k = close-Delivered seen t k

  at_eof-Delivered :
      (seen : Bytes) (s : Forward) (tail : Bytes)
      → Carries seen s
      → Delivered (seen ++ tail) (at_eof g s tail)
  unfolding at_eof
  at_eof-Delivered seen s [] h =
      close-Delivered (seen ++ []) s (subst (λ l. Carries l s) (sym (append-nil seen)) h)
  at_eof-Delivered seen s (c ∷ cs) h =
      closing (seen ++ (c ∷ cs)) (step g s (c ∷ cs)) (step-Carries g alive kept seen s (c ∷ cs) h)

  pub tail_out :
      (seen : Bytes) (s : Forward) (tail : Bytes)
      → concat s.out ≡ seen
      → concat (send_tail g s tail).out ≡ seen ++ tail
  tail_out seen s [] o = o ∙ sym (append-nil seen)
  tail_out seen s (c ∷ cs) o = concat-one s.out (c ∷ cs) ∙ ap (λ l. l ++ (c ∷ cs)) o

  after_break-Delivered :
      (seen : Bytes) (s : Forward) (ctx : Contexts) (e : Failure)
      → concat s.out ≡ seen
      → Delivered seen (after_break g s ctx e)
  unfolding after_break
  after_break-Delivered seen s ctx e o =
      option_holds (Delivered seen) s.failed _ _
        (λ n.
          if_holds (Delivered seen) s.terminated _ _
            (λ t.
              if_holds (Delivered seen) (g.alive s.out) _ _ (λ a. inr (inl o))
                (λ a. absurd (cc (a, alive s.out))))
            (λ t. inr (
              inr (
                late_out (send s g.error_event) ctx e
                ∙ concat-one s.out g.error_event
                ∙ ap (λ l. l ++ g.error_event) o))))
        (λ f n. inr (inl (late_out s ctx f ∙ o)))

  pub at_end-Delivered :
      (seen : Bytes) (ending : Ending) (s : Forward) (tail : Bytes)
      → Carries seen s
      → Delivered (seen ++ tail) (at_end g ending s tail)
  unfolding at_end lost_answer
  at_end-Delivered seen eof s tail h = at_eof-Delivered seen s tail h
  at_end-Delivered seen (broken ctx e) s tail h =
      if_holds (Delivered (seen ++ tail)) s.committed _ _
        (λ c.
          after_break-Delivered (seen ++ tail) (send_tail g s tail) ctx e
            (tail_out seen s tail (written seen s c h)))
        (λ c. inl (refl, unwritten seen s c h))

  copying :
      (seen : Bytes) (ending : Ending) (s : Forward) (chunk : Bytes) (rest : List Bytes)
      → concat s.out ≡ seen
      → ((t : Forward)
          → concat t.out ≡ seen ++ chunk
          → Delivered ((seen ++ chunk) ++ concat rest) (copied g ending t rest))
      → Delivered (seen ++ (chunk ++ concat rest)) (
          if g.alive (send s chunk).out
          then copied g ending (send s chunk) rest
          else fail_late g (send s chunk) g.ctx (unwritten_error g))
  copying seen ending s chunk rest o ih =
      let t = send s chunk in
      let T = Delivered (seen ++ (chunk ++ concat rest)) in
      if_holds T (g.alive t.out) _ _
        (λ a.
          subst (λ l. Delivered l (copied g ending t rest)) (append_assoc seen chunk (concat rest))
            (ih t (concat-one s.out chunk ∙ ap (λ l. l ++ chunk) o)))
        (λ a. absurd (cc (a, alive t.out)))

  pub copied-Delivered :
      (seen : Bytes) (ending : Ending) (s : Forward) (rest : List Bytes)
      → concat s.out ≡ seen
      → Delivered (seen ++ concat rest) (copied g ending s rest)
  unfolding copied concat
  copied-Delivered seen eof s [] o =
      if_holds (Delivered (seen ++ [])) (g.alive s.out) _ _
        (λ a. inr (inl (o ∙ sym (append-nil seen)))) (λ a. absurd (cc (a, alive s.out)))
  copied-Delivered seen (broken ctx e) s [] o =
      inr (inl (late_out s ctx e ∙ o ∙ sym (append-nil seen)))
  copied-Delivered seen eof s (chunk ∷ rest) o =
      copying seen eof s chunk rest o (λ t k. copied-Delivered (seen ++ chunk) eof t rest k)
  copied-Delivered seen (broken ctx e) s (chunk ∷ rest) o =
      copying seen (broken ctx e) s chunk rest o
        (λ t k. copied-Delivered (seen ++ chunk) (broken ctx e) t rest k)
