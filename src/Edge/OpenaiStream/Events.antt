-- ===== src/Edge/OpenaiStream/Events.antt =====
-- internal/edge/openai/stream.go: what one event leaves a client with that assembles tool calls.
use darkrouter.Base.{
  ℕ, ◌+◌, ◌<◌, String, true, false, not, ◌&&◌, List, [], ◌∷◌, Option, none, some, Map, lookup,
  insert, lookup-insert, nat_eq, str_eq, ◌==◌, ==_iff, length, ◌≡◌, refl, ap, arith, if◌then◌else◌,
  Bool-cases, Option-cases, inl, inr, if_holds, is_some, option_holds,
}
use darkrouter.Ir.{
  EventType, message_start, block_start, content_delta, block_stop, message_delta, message_stop,
  ping, error, other_event, BlockType, text, thinking, redacted_thinking, tool_use, other_block,
  Delta, StreamEvent,
}
use darkrouter.Edge.OpenaiStream.{
  Body, role_body, open_call, arguments, content, reasoning, usage_part, finished, Sink, Stream,
  Sent, and_then, send, send_chunk, chunk_of, open_tool, send_arguments, write_arguments,
  write_part, write_delta, start_block, write_start, write_usage, write_event, usage_body,
  finish_reason,
}
use darkrouter.Edge.OpenaiStream.Client.{
  reading, read_body, read_frame, read_all, read_all-snoc, is_tool, opens, knows, among,
}

-- The client has seen as many calls as the map has entries, all numbered below that.
pub record Inv (known : List ℕ) (s : Stream) : Type 0 where
  pub seen : read_all s.out ≡ reading (length s.tool_index)
  pub below : (k n : ℕ) → lookup k s.tool_index ≡ some n → n < length s.tool_index
  pub same : (k : ℕ) → among known k ≡ is_some (lookup k s.tool_index)

insert-length : (k v : ℕ) (m : Map ℕ ℕ) → lookup k m ≡ none → length (insert k v m) ≡ length m + 1
unfolding lookup insert
insert-length k v [] h = omega arith
insert-length k v ((j, w) ∷ m) h = ground (arith, insert-length k v m)

module _ (fails : Sink) where
  -- What a step promises: the invariant where it succeeds, and a client that is not upset.
  pub data Done (known : List ℕ) (r : Sent) : Type 0 where
    sent : r.1 ≡ true → Inv known r.0 → Done known r
    stuck : (n : ℕ) → r.1 ≡ false → read_all r.0.out ≡ reading n → Done known r

  -- A chunk that the client reads.
  send_chunk-Done :
      (known : List ℕ) (s : Stream) (body : Body) (n : ℕ)
      → read_all s.out ≡ reading n
      → read_body n body ≡ reading (length s.tool_index)
      → ((k m : ℕ) → lookup k s.tool_index ≡ some m → m < length s.tool_index)
      → ((k : ℕ) → among known k ≡ is_some (lookup k s.tool_index))
      → Done known (send_chunk fails s body)
  unfolding send_chunk send chunk_of read_frame
  send_chunk-Done known s body n h b below same =
      if_holds (Done known) (fails s.out (chunk_of s.id s.model body)) _ _ (λ e. stuck n refl h)
        (λ e.
          sent refl (record { seen = rw (read_all-snoc s.out _, h) b; below = below; same = same }))

  -- A chunk that opens no call and is for none.
  plain :
      (known : List ℕ) (s : Stream) (body : Body)
      → Inv known s
      → ((n : ℕ) → read_body n body ≡ reading n)
      → Done known (send_chunk fails s body)
  plain known s body i h =
      send_chunk-Done known s body (length s.tool_index) i.seen (h (length s.tool_index)) i.below
        i.same

  open_tool-Done :
      (known : List ℕ) (s : Stream) (ir : ℕ) (d : Delta)
      → Inv known s
      → lookup ir s.tool_index ≡ none
      → Done (ir ∷ known) (open_tool fails s ir d)
  unfolding open_tool read_body
  open_tool-Done known s ir d i h =
      let n = length s.tool_index in
      let grown = insert-length ir n s.tool_index h in
      send_chunk-Done (ir ∷ known) (record s { tool_index = insert ir n s.tool_index })
        (open_call n d.tool_id d.tool_name) n i.seen (ground (arith, grown))
        (λ k m e. ground (arith, grown, lookup-insert ir k n s.tool_index, i.below k m))
        (λ k. ground (arith, lookup-insert ir k n s.tool_index, i.same k))

  send_arguments-Done :
      (known : List ℕ) (s : Stream) (ir : ℕ) (d : Delta)
      → Inv known s
      → Done known (send_arguments fails s ir d)
  unfolding send_arguments read_body
  send_arguments-Done known s ir d i =
      option_holds (Done known) (lookup ir s.tool_index) (s, true) _ (λ _. sent refl i)
        (λ n e.
          send_chunk-Done known s (arguments n d.tool_input) (length s.tool_index) i.seen
            (ground (arith, i.below ir n e)) i.below i.same)

  known_too :
      (known : List ℕ) (s : Stream) (ir n : ℕ)
      → Inv known s
      → lookup ir s.tool_index ≡ some n
      → Inv (ir ∷ known) s
  known_too known s ir n i e = record {
    seen = i.seen;
    below = i.below;
    same = λ k. elim (Bool-cases (ir == k)) [
      | inl f ↦ rw (f, ← (==_iff ir k).0 f, e) refl
      | inr f ↦ rw f (i.same k)
    ];
  }

  then_Done :
      (known : List ℕ) (r : Sent) (f : Stream → Sent)
      → Done known r
      → ((t : Stream) → Inv known t → Done known (f t))
      → Done known (and_then r f)
  unfolding and_then
  then_Done known (t, true) f (sent e i) g = g t i
  then_Done known (t, false) f (sent e i) g = absurd (cc e)
  then_Done known (t, true) f (stuck n e h) g = absurd (cc e)
  then_Done known (t, false) f (stuck n e h) g = stuck n refl h

  write_arguments-Done :
      (known : List ℕ) (s : Stream) (ir : ℕ) (d : Delta)
      → Inv known s
      → Done
          (if not (str_eq d.tool_input "") then ir ∷ known else known)
          (write_arguments fails s ir d)
  unfolding write_arguments
  write_arguments-Done known s ir d i = elim (Bool-cases (str_eq d.tool_input "")) [
    | inl e ↦ rw e (sent refl i)
    | inr e ↦ rw e (
        option_holds (Done (ir ∷ known)) (lookup ir s.tool_index) _ _
          (λ f.
            then_Done (ir ∷ known) _ _ (open_tool-Done known s ir d i f)
              (λ t j. send_arguments-Done (ir ∷ known) t ir d j))
          (λ n f. send_arguments-Done (ir ∷ known) s ir d (known_too known s ir n i f)))
  ]

  -- The calls that the client knows of after an event.
  abbrev pub after_event : List ℕ → ℕ → EventType → Option Delta → List ℕ
  after_event known ir t d = if knows t d then ir ∷ known else known

  absent :
      (known : List ℕ) (s : Stream) (ir : ℕ)
      → Inv known s
      → among known ir ≡ false
      → lookup ir s.tool_index ≡ none
  absent known s ir i h = elim (Option-cases (lookup ir s.tool_index)) [
    | inl e ↦ e
    | inr (n, e) ↦ absurd (cc (h, i.same ir, ap is_some e))
  ]

  start_block-Done :
      (known : List ℕ) (s : Stream) (ir : ℕ) (d : Delta) (b : BlockType)
      → Inv known s
      → is_tool b && among known ir ≡ false
      → Done (if is_tool b then ir ∷ known else known) (start_block fails s ir d b)
  unfolding start_block
  start_block-Done known s ir d tool_use i h = open_tool-Done known s ir d i (absent known s ir i h)
  start_block-Done known s ir d text i h = sent refl i
  start_block-Done known s ir d thinking i h = sent refl i
  start_block-Done known s ir d redacted_thinking i h = sent refl i
  start_block-Done known s ir d (other_block _) i h = sent refl i

  write_part-Done :
      (known : List ℕ) (s : Stream) (ir : ℕ) (d : Delta) (b : BlockType)
      → Inv known s
      → Done
          (if is_tool b && not (str_eq d.tool_input "") then ir ∷ known else known)
          (write_part fails s ir d b)
  unfolding write_part read_body
  write_part-Done known s ir d tool_use i = write_arguments-Done known s ir d i
  write_part-Done known s ir d text i = plain known s (content d.text_part) i (λ n. refl)
  write_part-Done known s ir d thinking i =
      if_holds (Done known) (str_eq d.thinking_part "") _ _ (λ _. sent refl i)
        (λ _. plain known s (reasoning d.thinking_part) i (λ n. refl))
  write_part-Done known s ir d redacted_thinking i = sent refl i
  write_part-Done known s ir d (other_block _) i = sent refl i

  renamed :
      (known : List ℕ) (s : Stream) (id model : String)
      → Inv known s
      → Inv known (record s { id = id; model = model })
  renamed known s id model i = record { seen = i.seen; below = i.below; same = i.same }

  pub write_event-Done :
      (known : List ℕ) (s : Stream) (ev : StreamEvent) (t : EventType) (d : Option Delta)
      → ev.delta ≡ d
      → Inv known s
      → opens t d && among known ev.index ≡ false
      → Done (after_event known ev.index t d) (write_event fails s ev t)
  unfolding write_event write_start write_delta write_usage read_body
  write_event-Done known s ev message_start d e i h =
      plain known _ role_body (renamed known s ev.id ev.model i) (λ n. refl)
  write_event-Done known s ev block_start none e i h = rw e (sent refl i)
  write_event-Done known s ev block_start (some d) e i h =
      rw e (start_block-Done known s ev.index d d.block i h)
  write_event-Done known s ev content_delta none e i h = rw e (sent refl i)
  write_event-Done known s ev content_delta (some d) e i h =
      rw e (write_part-Done known s ev.index d d.block i)
  write_event-Done known s ev message_delta d e i h =
      option_holds (Done known) ev.usage _ _ (λ _. sent refl i)
        (λ u _. plain known s (usage_part (usage_body u)) i (λ n. refl))
  write_event-Done known s ev message_stop d e i h =
      plain known s (finished (finish_reason ev.stop_reason)) i (λ n. refl)
  write_event-Done known s ev block_stop d e i h = sent refl i
  write_event-Done known s ev ping d e i h = sent refl i
  write_event-Done known s ev error d e i h = sent refl i
  write_event-Done known s ev (other_event _) d e i h = sent refl i
