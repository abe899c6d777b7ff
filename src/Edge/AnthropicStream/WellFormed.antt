-- ===== src/Edge/AnthropicStream/WellFormed.antt =====
-- Whatever the events and wherever a send fails, the client is sent a well-formed stream.
use darkrouter.Base.{
  String, true, List, [], ◌∷◌, Option, none, some, nat_eq, str_eq, ◌≡◌, inl, inr, refl, ap,
  if_holds,
}
use darkrouter.Edge.AnthropicStream.{
  ping_frame, error_frame, finish_frame, end_frame, Item, event, failed, failed_text, Sink,
  stop_reason_wire, error_name, Stream, new_stream, and_then, wires,
}
use darkrouter.Edge.AnthropicStream.Client.{Client, streaming, closing, complete, errored}
use darkrouter.Edge.AnthropicStream.Writing.{
  send, start, close_all, note_stop, write_usage, write_event, finish, write_failure, write_items,
  write_stream,
}
use darkrouter.Ir.{
  EventType, message_start, block_start, content_delta, block_stop, message_delta, message_stop,
  ping, error, other_event, Usage, StreamEvent,
}
use darkrouter.Edge.AnthropicStream.Posts.{
  reading, Live, Good, Post, Post-and_then, Post-weaken, Live-Alive, sent, send-Post, reading_next,
}
use darkrouter.Edge.AnthropicStream.Blocks.{
  start-Live, open_block-Good, close_all-Live, write_delta-Good, write_stop-Good,
}

-- How the stream ends for the client, by whether the sequence yields an error.
abbrev pub ending_of : List Item → Client
ending_of [] = complete
ending_of (event _ ∷ rest) = ending_of rest
ending_of (failed _ ∷ rest) = errored
ending_of (failed_text _ ∷ rest) = errored

-- The fields that no frame depends on may change.
note_stop-Good : (s : Stream) (r : String) → Good s → Good (note_stop s r)
unfolding note_stop
note_stop-Good s r (inl h) =
    if_holds Good (str_eq r "") s (record s { stop = r }) (λ _. inl h)
      (λ _. inl (record { reads = h.reads; ascends = h.ascends; distinct = h.distinct; on = h.on }))
note_stop-Good s r (inr h) =
    if_holds Good (str_eq r "") s (record s { stop = r }) (λ _. inr h)
      (λ _.
        inr (record { reads = h.reads; no_block = h.no_block; no_wire = h.no_wire; off = h.off }))

with_usage-Good : (s : Stream) (u : Usage) → Good s → Good (record s { usage = u })
with_usage-Good s u (inl h) =
    inl (record { reads = h.reads; ascends = h.ascends; distinct = h.distinct; on = h.on })
with_usage-Good s u (inr h) =
    inr (record { reads = h.reads; no_block = h.no_block; no_wire = h.no_wire; off = h.off })

with_name-Good :
    (s : Stream) (id model : String) → Good s → Good (record s { id = id; model = model })
with_name-Good s id model (inl h) =
    inl (record { reads = h.reads; ascends = h.ascends; distinct = h.distinct; on = h.on })
with_name-Good s id model (inr h) =
    inr (record { reads = h.reads; no_block = h.no_block; no_wire = h.no_wire; off = h.off })

module _ (fails : Sink) where
  start-Good : (s : Stream) → Good s → Post Good (start fails s)
  start-Good s g =
      Post-weaken (λ t. Live t × (t.wire_of ≡ s.wire_of)) Good (start fails s) (λ t h. inl h.0)
        (start-Live fails s g)

  write_usage-Good : (s : Stream) (u : Option Usage) → Good s → Post Good (write_usage fails s u)
  unfolding write_usage
  write_usage-Good s none g = g
  write_usage-Good s (some u) g = start-Good (record s { usage = u }) (with_usage-Good s u g)

  ping-Good : (t : Stream) → Live t → Post Good (send fails t ping_frame)
  ping-Good t h =
      let live : Live (sent t ping_frame) = record {
        reads = reading_next t ping_frame (streaming (wires t.wire_of) t.next_wire) h.reads;
        ascends = h.ascends;
        distinct = h.distinct;
        on = h.on;
      } in
      send-Post fails Good t ping_frame (Live-Alive t h) (inl live)

  write_event-Good :
      (s : Stream) (ev : StreamEvent) (e : EventType)
      → Good s
      → Post Good (write_event fails s ev e)
  unfolding write_event
  write_event-Good s ev message_start g = with_name-Good s ev.id ev.model g
  write_event-Good s ev ping g =
      Post-and_then (λ t. Live t × (t.wire_of ≡ s.wire_of)) Good (start fails s)
        (λ t. send fails t ping_frame) (start-Live fails s g) (λ t h. ping-Good t h.0)
  write_event-Good s ev block_start g = open_block-Good fails s ev.index ev.delta g
  write_event-Good s ev content_delta g = write_delta-Good fails s ev.index ev.delta g
  write_event-Good s ev block_stop g = write_stop-Good fails s ev.index g
  write_event-Good s ev message_delta g =
      Post-and_then Good Good (write_usage fails s ev.usage)
        (λ t. (note_stop t ev.stop_reason, true)) (write_usage-Good s ev.usage g)
        (λ t h. note_stop-Good t ev.stop_reason h)
  write_event-Good s ev message_stop g =
      let s1 = note_stop s ev.stop_reason in
      Post-and_then (λ t. Live t × (t.wire_of ≡ s1.wire_of)) Good (start fails s1)
        (λ t. close_all fails t) (start-Live fails s1 (note_stop-Good s ev.stop_reason g))
        (λ t h.
          Post-weaken (λ u. Live u × (u.wire_of ≡ [])) Good (close_all fails t) (λ u l. inl l.0)
            (close_all-Live fails t h.0))
  write_event-Good s ev error g = g
  write_event-Good s ev (other_event _) g = g

  -- The frames that end a message whose blocks are closed.
  ending :
      (u : Stream)
      → Live u
      → u.wire_of ≡ []
      → Post
          (λ t. reading t ≡ complete)
          (and_then
            (send fails u (finish_frame (stop_reason_wire u.stop) u.usage))
            (λ v. send fails v end_frame))
  unfolding wires
  ending u h e =
      let f = finish_frame (stop_reason_wire u.stop) u.usage in
      let none_open : wires u.wire_of ≡ [] = ap wires e in
      let closed : reading (sent u f) ≡ closing =
        cc (reading_next u f (streaming (wires u.wire_of) u.next_wire) h.reads, none_open) in
      Post-and_then (λ v. reading v ≡ closing) (λ t. reading t ≡ complete) (send fails u f)
        (λ v. send fails v end_frame)
        (send-Post fails (λ v. reading v ≡ closing) u f (Live-Alive u h) closed)
        (λ v c.
          send-Post fails (λ t. reading t ≡ complete) v end_frame (λ b. absurd (cc (c, b)))
            (reading_next v end_frame closing c))

  finish-complete : (s : Stream) → Good s → Post (λ t. reading t ≡ complete) (finish fails s)
  unfolding finish
  finish-complete s g =
      Post-and_then (λ t. Live t × (t.wire_of ≡ s.wire_of)) (λ t. reading t ≡ complete)
        (start fails s) _ (start-Live fails s g)
        (λ t h.
          Post-and_then (λ u. Live u × (u.wire_of ≡ [])) (λ t. reading t ≡ complete)
            (close_all fails t) _ (close_all-Live fails t h.0) (λ u l. ending u l.0 l.1))

  write_failure-errored :
      (s : Stream) (t message : String)
      → Good s
      → Post (λ u. reading u ≡ errored) (write_failure fails s t message)
  unfolding write_failure
  write_failure-errored s t message g =
      let f = error_frame (error_name t) message in
      Post-and_then (λ u. Live u × (u.wire_of ≡ s.wire_of)) (λ u. reading u ≡ errored)
        (start fails s) (λ u. send fails u f) (start-Live fails s g)
        (λ u h.
          send-Post fails (λ v. reading v ≡ errored) u f (Live-Alive u h.0)
            (reading_next u f (streaming (wires u.wire_of) u.next_wire) h.0.reads))

  write_items-ends :
      (items : List Item) (s : Stream)
      → Good s
      → Post (λ t. reading t ≡ ending_of items) (write_items fails s items)
  unfolding write_items
  write_items-ends [] s g = finish-complete s g
  write_items-ends (event ev ∷ rest) s g =
      Post-and_then Good (λ t. reading t ≡ ending_of rest) (write_event fails s ev ev.event_type)
        (λ t. write_items fails t rest) (write_event-Good s ev ev.event_type g)
        (λ t h. write_items-ends rest t h)
  write_items-ends (failed e ∷ rest) s g = write_failure-errored s e.error_type e.message g
  write_items-ends (failed_text message ∷ rest) s g = write_failure-errored s "api_error" message g

-- Whatever the events, in whatever order, the client of a stream whose sends all succeed reads a
-- well-formed one to its end: one message_start first, blocks numbered from 0 in the order they
-- open, deltas and one stop for open blocks only, every block stopped, and message_delta and
-- message_stop last, or an error last if the sequence yields one. Where a send fails, what was
-- sent before it is the beginning of a well-formed stream.
pub write_stream_accepted :
    (fails : Sink) (items : List Item)
    → Post (λ s. reading s ≡ ending_of items) (write_stream fails items)
unfolding write_stream new_stream wires
write_stream_accepted fails items =
    write_items-ends fails items new_stream
      (inr (record { reads = refl; no_block = refl; no_wire = refl; off = refl }))
