-- ===== src/Edge/OpenaiStream/Dense.antt =====
-- internal/edge/openai/stream.go: what a client that assembles tool calls by their number sees.
use darkrouter.Base.{
  ℕ, String, true, false, List, [], ◌∷◌, ◌++◌, lookup, nat_eq, length, ◌≡◌, refl, sym, Bool-cases,
  inl, inr, if_holds, subst,
}
use darkrouter.Edge.AnthropicStream.{Item, event, failed, failed_text}
use darkrouter.Edge.OpenaiStream.{
  error_frame, done_frame, Sink, Stream, new_stream, Sent, and_then, send, write_failure,
  write_items, write_stream,
}
use darkrouter.Edge.OpenaiStream.Client.{
  Phase, reading, errored, ended, read_frame, read_all, read_all-snoc, NoReopen, IsLive, at_reading,
  at_error, IsAccepted, whole, cut_off,
}
use darkrouter.Edge.OpenaiStream.Events.{Inv, Done, sent, stuck, after_event, write_event-Done}

module _ (fails : Sink) where
  send_done :
      (s : Stream) (p : Phase)
      → read_all s.out ≡ p
      → read_frame p done_frame ≡ ended
      → IsLive p
      → IsAccepted (send fails s done_frame)
  unfolding send
  send_done s p h e live =
      if_holds IsAccepted (fails s.out done_frame) _ _
        (λ _. cut_off refl (subst IsLive (sym h) live))
        (λ _. whole refl (rw (read_all-snoc s.out done_frame, h) e))

  failure-IsAccepted :
      (s : Stream) (n : ℕ) (message t code : String)
      → read_all s.out ≡ reading n
      → IsAccepted (write_failure fails s message t code)
  unfolding write_failure send and_then read_frame
  failure-IsAccepted s n message t code h =
      elim (Bool-cases (fails s.out (error_frame message t code))) [
        | inl e ↦ rw e (cut_off refl (at_reading n h))
        | inr e ↦ rw e (
            send_done (record s { out = s.out ++ (error_frame message t code ∷ []) }) errored
              (rw (read_all-snoc s.out (error_frame message t code), h) refl) refl (at_error refl))
      ]

  after_step :
      (known : List ℕ) (r : Sent) (f : Stream → Sent)
      → Done fails known r
      → ((t : Stream) → Inv known t → IsAccepted (f t))
      → IsAccepted (and_then r f)
  unfolding and_then
  after_step known (t, true) f (sent e i) g = g t i
  after_step known (t, false) f (sent e i) g = absurd (cc e)
  after_step known (t, true) f (stuck n e h) g = absurd (cc e)
  after_step known (t, false) f (stuck n e h) g = cut_off refl (at_reading n h)

  items-IsAccepted :
      (known : List ℕ) (s : Stream) (items : List Item)
      → Inv known s
      → NoReopen known items
      → IsAccepted (write_items fails s items)
  unfolding write_items read_frame
  items-IsAccepted known s [] i h =
      send_done s (reading (length s.tool_index)) i.seen refl
        (at_reading (length s.tool_index) refl)
  items-IsAccepted known s (event ev ∷ rest) i h =
      let next = after_event fails known ev.index ev.event_type ev.delta in
      after_step next _ _ (write_event-Done fails known s ev ev.event_type ev.delta refl i h.0)
        (λ t j. items-IsAccepted next t rest j h.1)
  items-IsAccepted known s (failed e ∷ rest) i h =
      failure-IsAccepted s _ e.message e.error_type e.code i.seen
  items-IsAccepted known s (failed_text m ∷ rest) i h =
      failure-IsAccepted s _ m "api_error" "" i.seen

  -- For events that start no tool call twice, a client sees the calls numbered from zero in the order
  -- in which they open, and arguments only for a call that is open; it reads the end of the stream
  -- exactly when every send succeeds, also behind an error.
  pub write_stream_dense :
      (items : List Item) → NoReopen [] items → IsAccepted (write_stream fails items)
  unfolding write_stream new_stream read_all lookup
  write_stream_dense items h =
      items-IsAccepted [] new_stream items
        (record { seen = refl; below = λ k n e. absurd (cc e); same = λ k. refl }) h
