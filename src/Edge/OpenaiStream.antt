-- ===== src/Edge/OpenaiStream.antt =====
-- internal/edge/openai/stream.go and what it uses of write.go: IR events as OpenAI's chunks. A frame
-- is what `send` is given; whether a send succeeds, after the frames sent before it, is the argument
-- `fails`, since the marshalling and the client are outside. The time of a chunk is left out.
pub mod Client
pub mod Events
pub mod Dense
use darkrouter.Base.{
  ℕ, ◌+◌, String, Bool, true, false, List, [], ◌∷◌, ◌++◌, Option, none, some, Map, lookup, insert,
  nat_eq, str_eq, ltb, length, if◌then◌else◌,
}
use darkrouter.Ir.{
  EventType, message_start, block_start, content_delta, block_stop, message_delta, message_stop,
  ping, error, other_event, BlockType, text, thinking, redacted_thinking, tool_use, other_block,
  Delta, Usage, StreamEvent, Error,
}
use darkrouter.Edge.AnthropicStream.{Item, event, failed, failed_text}

-- `usageBody`; a part that is left out is `none`.
pub record UsageBody : Type 0 where
  pub prompt_tokens : ℕ
  pub completion_tokens : ℕ
  pub total_tokens : ℕ
  pub cached_tokens : Option ℕ
  pub reasoning_tokens : Option ℕ

-- The delta of a chunk, its usage, or its finish reason.
pub data Body : Type 0 where
  role_body : Body
  open_call : ℕ → String → String → Body
  arguments : ℕ → String → Body
  content reasoning : String → Body
  usage_part : UsageBody → Body
  finished : String → Body

pub data Frame : Type 0 where
  chunk : String → String → Body → Frame
  error_frame : String → String → String → Frame
  done_frame : Frame

abbrev pub Sink : Type 0
Sink = List Frame → Frame → Bool

-- `ir.Usage.PromptTokens`.
unfoldable pub prompt_tokens : Usage → ℕ
prompt_tokens u = u.input_tokens + u.cache_read_tokens

unfoldable pub when_some : ℕ → Option ℕ
when_some n = if ltb 0 n then some n else none

unfoldable pub usage_body : Usage → UsageBody
unfolding prompt_tokens when_some
usage_body u = record {
  prompt_tokens = prompt_tokens u;
  completion_tokens = u.output_tokens;
  total_tokens = prompt_tokens u + u.output_tokens;
  cached_tokens = when_some u.cache_read_tokens;
  reasoning_tokens = when_some u.reasoning_tokens;
}

unfoldable pub finish_reason : String → String
finish_reason s =
    if str_eq s "max_tokens"
    then "length"
    else if str_eq s "tool_use"
    then "tool_calls"
    else if str_eq s "content_filter"
    then "content_filter"
    else "stop"

-- `chunk` of the source.
unfoldable pub chunk_of : String → String → Body → Frame
chunk_of id model body = chunk (if str_eq id "" then "chatcmpl-darkrouter" else id) model body

-- The variables of `WriteStream`, and the frames sent.
pub record Stream : Type 0 where
  pub id : String
  pub model : String
  pub tool_index : Map ℕ ℕ
  pub out : List Frame

unfoldable pub new_stream : Stream
new_stream = record { id = ""; model = ""; tool_index = []; out = [] }

-- The state after an operation, and whether all of its sends succeeded.
abbrev pub Sent : Type 0
Sent = Stream × Bool

unfoldable pub and_then : Sent → (Stream → Sent) → Sent
and_then (s, true) f = f s
and_then (s, false) f = (s, false)

module _ (fails : Sink) where
  unfoldable pub send : Stream → Frame → Sent
  send s f = if fails s.out f then (s, false) else (record s { out = s.out ++ (f ∷ []) }, true)

  unfoldable pub send_chunk : Stream → Body → Sent
  unfolding send chunk_of
  send_chunk s body = send s (chunk_of s.id s.model body)

  -- The next number goes to the call of the block.
  unfoldable pub open_tool : Stream → ℕ → Delta → Sent
  unfolding send_chunk
  open_tool s ir d =
      let n = length s.tool_index in
      send_chunk (record s { tool_index = insert ir n s.tool_index })
        (open_call n d.tool_id d.tool_name)

  unfoldable pub send_arguments : Stream → ℕ → Delta → Sent
  unfolding send_chunk
  send_arguments s ir d = elim (lookup ir s.tool_index) [
    | none ↦ (s, true)
    | some n ↦ send_chunk s (arguments n d.tool_input)
  ]

  -- A call that the provider never opened is opened first; then its number is in the map.
  unfoldable pub write_arguments : Stream → ℕ → Delta → Sent
  unfolding open_tool send_arguments and_then
  write_arguments s ir d =
      if str_eq d.tool_input "" then (s, true) else elim (lookup ir s.tool_index) [
        | some n ↦ send_arguments s ir d
        | none ↦ and_then (open_tool s ir d) (λ t. send_arguments t ir d)
      ]

  unfoldable pub write_part : Stream → ℕ → Delta → BlockType → Sent
  unfolding send_chunk write_arguments
  write_part s ir d text = send_chunk s (content d.text_part)
  write_part s ir d thinking =
      if str_eq d.thinking_part "" then (s, true) else send_chunk s (reasoning d.thinking_part)
  write_part s ir d tool_use = write_arguments s ir d
  write_part s ir d redacted_thinking = (s, true)
  write_part s ir d (other_block _) = (s, true)

  unfoldable pub write_delta : Stream → ℕ → Option Delta → Sent
  unfolding write_part
  write_delta s ir none = (s, true)
  write_delta s ir (some d) = write_part s ir d d.block

  unfoldable pub start_block : Stream → ℕ → Delta → BlockType → Sent
  unfolding open_tool
  start_block s ir d tool_use = open_tool s ir d
  start_block s ir d text = (s, true)
  start_block s ir d thinking = (s, true)
  start_block s ir d redacted_thinking = (s, true)
  start_block s ir d (other_block _) = (s, true)

  unfoldable pub write_start : Stream → ℕ → Option Delta → Sent
  unfolding start_block
  write_start s ir none = (s, true)
  write_start s ir (some d) = start_block s ir d d.block

  unfoldable pub write_usage : Stream → Option Usage → Sent
  unfolding send_chunk usage_body
  write_usage s none = (s, true)
  write_usage s (some u) = send_chunk s (usage_part (usage_body u))

  unfoldable pub write_event : Stream → StreamEvent → EventType → Sent
  unfolding send_chunk write_start write_delta write_usage finish_reason
  write_event s ev message_start = send_chunk (record s { id = ev.id; model = ev.model }) role_body
  write_event s ev block_start = write_start s ev.index ev.delta
  write_event s ev content_delta = write_delta s ev.index ev.delta
  write_event s ev message_delta = write_usage s ev.usage
  write_event s ev message_stop = send_chunk s (finished (finish_reason ev.stop_reason))
  write_event s ev block_stop = (s, true)
  write_event s ev ping = (s, true)
  write_event s ev error = (s, true)
  write_event s ev (other_event _) = (s, true)

  unfoldable pub write_failure : Stream → String → String → String → Sent
  unfolding send and_then
  write_failure s message t code =
      and_then (send s (error_frame message t code)) (λ u. send u done_frame)

  unfoldable pub write_items : Stream → List Item → Sent
  unfolding write_event write_failure send and_then
  write_items s [] = send s done_frame
  write_items s (event ev ∷ rest) =
      and_then (write_event s ev ev.event_type) (λ t. write_items t rest)
  write_items s (failed e ∷ rest) = write_failure s e.message e.error_type e.code
  write_items s (failed_text message ∷ rest) = write_failure s message "api_error" ""

  unfoldable pub write_stream : List Item → Sent
  unfolding new_stream write_items
  write_stream items = write_items new_stream items
