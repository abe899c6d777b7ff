-- ===== src/Edge/AnthropicStream/Writing.antt =====
-- internal/edge/anthropic/stream.go, `WriteStream`: one function for each of its closures and cases.
use darkrouter.Base.{
  ℕ, ◌+◌, String, true, false, List, [], ◌∷◌, ◌++◌, Option, none, some, lookup, insert, erase,
  nat_eq, str_eq, ltb, stable_sort, if◌then◌else◌,
}
use darkrouter.Edge.AnthropicStream.{
  Frame, start_frame, ping_frame, open_frame, change_frame, stop_frame, error_frame, finish_frame,
  end_frame, Item, event, failed, failed_text, Sink, block_start_body, delta_body, message_id,
  stop_reason_wire, error_name, Stream, new_stream, Sent, and_then, wires,
}
use darkrouter.Ir.{
  EventType, message_start, block_start, content_delta, block_stop, message_delta, message_stop,
  ping, error, other_event, BlockType, redacted_thinking, Delta, Usage, StreamEvent,
}

unfoldable pub note_stop : Stream → String → Stream
note_stop s reason = if str_eq reason "" then s else record s { stop = reason }

module _ (fails : Sink) where
  unfoldable pub send : Stream → Frame → Sent
  send s f = if fails s.out f then (s, false) else (record s { out = s.out ++ (f ∷ []) }, true)

  unfoldable pub start : Stream → Sent
  unfolding send message_id
  start s =
      if s.started
      then (s, true)
      else send (record s { started = true }) (start_frame (message_id s.id) s.model s.usage)

  unfoldable pub open_new : Stream → ℕ → Option Delta → Sent
  unfolding send block_start_body
  open_new s ir d =
      send (record s { next_wire = s.next_wire + 1; wire_of = insert ir s.next_wire s.wire_of })
        (open_frame s.next_wire (block_start_body d))

  -- The wire index that the closure returns is the one that the block has in the new state.
  unfoldable pub open_block : Stream → ℕ → Option Delta → Sent
  unfolding start open_new and_then
  open_block s ir d = elim (lookup ir s.wire_of) [
    | some _ ↦ (s, true)
    | none ↦ and_then (start s) (λ t. open_new t ir d)
  ]

  unfoldable pub stops : Stream → List ℕ → Sent
  unfolding send and_then
  stops s [] = (s, true)
  stops s (w ∷ ws) = and_then (send s (stop_frame w)) (λ t. stops t ws)

  unfoldable pub close_all : Stream → Sent
  unfolding stops and_then
  close_all s =
      and_then (stops s (stable_sort ltb (wires s.wire_of)))
        (λ t. (record t { wire_of = [] }, true))

  -- The frame of a delta whose block is open, and none for a redacted payload.
  unfoldable pub send_change : Stream → ℕ → Delta → BlockType → Sent
  unfolding send delta_body
  send_change s ir d redacted_thinking = (s, true)
  send_change s ir d _ = elim (lookup ir s.wire_of) [
    | none ↦ (s, true)
    | some w ↦ send s (change_frame w (delta_body d))
  ]

  unfoldable pub write_delta : Stream → ℕ → Option Delta → Sent
  unfolding open_block send_change and_then
  write_delta s ir none = (s, true)
  write_delta s ir (some d) = and_then (open_block s ir (some d)) (λ t. send_change t ir d d.block)

  unfoldable pub write_stop : Stream → ℕ → Sent
  unfolding send
  write_stop s ir = elim (lookup ir s.wire_of) [
    | none ↦ (s, true)
    | some w ↦ send (record s { wire_of = erase ir s.wire_of }) (stop_frame w)
  ]

  unfoldable pub write_usage : Stream → Option Usage → Sent
  unfolding start
  write_usage s none = (s, true)
  write_usage s (some u) = start (record s { usage = u })

  unfoldable pub write_event : Stream → StreamEvent → EventType → Sent
  unfolding start send open_block write_delta write_stop write_usage note_stop close_all and_then
  write_event s ev message_start = (record s { id = ev.id; model = ev.model }, true)
  write_event s ev ping = and_then (start s) (λ t. send t ping_frame)
  write_event s ev block_start = open_block s ev.index ev.delta
  write_event s ev content_delta = write_delta s ev.index ev.delta
  write_event s ev block_stop = write_stop s ev.index
  write_event s ev message_delta =
      and_then (write_usage s ev.usage) (λ t. (note_stop t ev.stop_reason, true))
  write_event s ev message_stop = and_then (start (note_stop s ev.stop_reason)) (λ t. close_all t)
  write_event s ev error = (s, true)
  write_event s ev (other_event _) = (s, true)

  -- What follows the sequence.
  unfoldable pub finish : Stream → Sent
  unfolding start close_all send stop_reason_wire and_then
  finish s = and_then (start s) (λ t. and_then (close_all t) (λ u.
      and_then (send u (finish_frame (stop_reason_wire u.stop) u.usage)) (λ v. send v end_frame)))

  unfoldable pub write_failure : Stream → String → String → Sent
  unfolding start send error_name and_then
  write_failure s t message = and_then (start s) (λ u. send u (error_frame (error_name t) message))

  unfoldable pub write_items : Stream → List Item → Sent
  unfolding write_event write_failure finish and_then
  write_items s [] = finish s
  write_items s (event ev ∷ rest) =
      and_then (write_event s ev ev.event_type) (λ t. write_items t rest)
  write_items s (failed e ∷ rest) = write_failure s e.error_type e.message
  write_items s (failed_text message ∷ rest) = write_failure s "api_error" message

  unfoldable pub write_stream : List Item → Sent
  unfolding new_stream write_items
  write_stream items = write_items new_stream items
