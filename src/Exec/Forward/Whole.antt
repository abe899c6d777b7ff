-- ===== src/Exec/Forward/Whole.antt =====
-- A forwarded stream from its first chunk to its end.
use darkrouter.Base.{
  ℕ, Bool, true, false, List, [], ◌∷◌, ◌++◌, ◌≡◌, refl, sym, ap, ◌∙◌, subst, ◌⊎◌, inl, inr,
  append_assoc, append-nil, if◌then◌else◌, if_holds,
}
use darkrouter.Exec.Attempt.{AttemptCtx}
use darkrouter.Exec.Attempt.Stream.{lost_answer}
use darkrouter.Exec.Forward.{
  Setting, Forward, Stepped, on, off, Ending, event_too_long, steps, send_tail, at_end, copied,
  feed, forward_stream,
}
use darkrouter.Exec.Forward.Carried.{Carries, StepCarries, written, unwritten, steps-Carries}
use darkrouter.Exec.Forward.Exact.{Delivered, tail_out, at_end-Delivered, copied-Delivered}
use darkrouter.Exec.RawStream.{EventSplitter, push, flush}
use darkrouter.Exec.RawStream.Cuts.{concat, push_exact}
use darkrouter.Sse.Lines.{Bytes}

regroup :
    (seen x y b c z : Bytes) → x ++ y ≡ b ++ c → (seen ++ x) ++ (y ++ z) ≡ seen ++ (b ++ (c ++ z))
regroup seen x y b c z e =
    append_assoc seen x (y ++ z)
    ∙ ap (λ l. seen ++ l) (sym (append_assoc x y z) ∙ ap (λ l. l ++ z) e ∙ append_assoc b c z)

module _ (g : Setting) (alive : (out : List Bytes) → g.alive out ≡ true)
    (kept : g.strip ≡ false) where
  after_chunk :
      (seen done : Bytes) (ending : Ending) (sp : EventSplitter) (long : Bool) (chunks : List Bytes)
      (r : Stepped)
      → StepCarries seen r
      → seen ++ (sp.buf ++ concat chunks) ≡ done
      → ((t : Forward) → Carries seen t → Delivered g alive kept done (feed g ending t sp chunks))
      → Delivered g alive kept done (elim r [
        | off a out ↦ (a, out)
        | on t ↦ elim long [
          | false ↦ feed g ending t sp chunks
          | true ↦
              if t.committed
              then copied g ending (send_tail g t (flush sp).1) chunks
              else (lost_answer t.ac g.ctx event_too_long, t.out)
        ]
      ])
  unfolding flush lost_answer
  after_chunk seen done ending sp long chunks (off a out) k e ih = inl k
  after_chunk seen done ending sp false chunks (on t) k e ih = ih t k
  after_chunk seen done ending sp true chunks (on t) k e ih =
      if_holds (Delivered g alive kept done) t.committed _ _
        (λ c.
          subst (λ l. Delivered g alive kept l (copied g ending (send_tail g t sp.buf) chunks))
            (append_assoc seen sp.buf (concat chunks) ∙ e)
            (copied-Delivered g alive kept (seen ++ sp.buf) ending (send_tail g t sp.buf) chunks
              (tail_out g alive kept seen t sp.buf (written seen t c k))))
        (λ c. inl (refl, unwritten seen t c k))

  feed-Delivered :
      (seen : Bytes) (ending : Ending) (s : Forward) (sp : EventSplitter) (chunks : List Bytes)
      → Carries seen s
      → Delivered g alive kept (seen ++ (sp.buf ++ concat chunks)) (feed g ending s sp chunks)
  unfolding feed flush concat
  feed-Delivered seen ending s sp [] h =
      subst (λ l. Delivered g alive kept (seen ++ l) (at_end g ending s sp.buf))
        (sym (append-nil sp.buf)) (at_end-Delivered g alive kept seen ending s sp.buf h)
  feed-Delivered seen ending s sp (chunk ∷ chunks) h =
      let (sp', evs, long) = push sp chunk in
      let e =
        regroup seen (concat evs) sp'.buf sp.buf chunk (concat chunks) (push_exact sp chunk).0 in
      after_chunk (seen ++ concat evs) _ ending sp' long chunks (steps g s evs)
        (steps-Carries g alive kept seen s evs h) e
        (λ t k.
          subst (λ l. Delivered g alive kept l (feed g ending t sp' chunks)) e
            (feed-Delivered (seen ++ concat evs) ending t sp' chunks k))

-- A client that takes everything receives a forwarded stream byte for byte, where no chunk is
-- stripped: the bytes that the provider sent, in whatever chunks, with at most one error event
-- behind them; or it receives nothing, and nothing is committed, so that another candidate may
-- answer. This holds of every way in which the stream can end, an event over the cap included.
pub forward_stream_exact :
    (g : Setting) (max_line : ℕ) (ending : Ending) (chunks : List Bytes) (ac : AttemptCtx)
    → ((out : List Bytes) → g.alive out ≡ true)
    → g.strip ≡ false
    → (((forward_stream g max_line ending chunks ac).0.committed ≡ false)
        × ((forward_stream g max_line ending chunks ac).1 ≡ []))
      ⊎ ((concat (forward_stream g max_line ending chunks ac).1 ≡ concat chunks)
          ⊎ (concat (forward_stream g max_line ending chunks ac).1
              ≡ concat chunks ++ g.error_event))
unfolding forward_stream concat
forward_stream_exact g max_line ending chunks ac alive kept =
    feed-Delivered g alive kept [] ending _ (record { buf = []; max = max_line }) chunks
      (inr (refl, refl, refl))
