-- ===== src/Edge/AnthropicStream.antt =====
-- internal/edge/anthropic/stream.go and what it uses of write.go: IR events as Anthropic's frames.
-- A frame is what `send` is given, its type and body; whether a send succeeds, after the frames
-- sent before it, is the argument `fails`, since the marshalling and the client are outside.
pub mod Writing
pub mod Client
pub mod Wires
pub mod Posts
pub mod Blocks
pub mod WellFormed
use Prim.Native.String.{String}
use darkrouter.Base.{
  ℕ, ◌+◌, Bool, true, false, not, List, [], ◌∷◌, ◌++◌, Option, none, some, Map, lookup, insert,
  erase, nat_eq, str_eq, ltb, stable_sort, if◌then◌else◌,
}
use darkrouter.Ir.{
  EventType, message_start, block_start, content_delta, block_stop, message_delta, message_stop,
  ping, error, other_event, BlockType, text, thinking, redacted_thinking, tool_use, other_block,
  Delta, Usage, no_usage, StreamEvent, Error,
}

pub data Block : Type 0 where
  text_block thinking_block : Block
  redacted_block : String → Block
  tool_block : String → String → Block
  extra_block : List (String × String) → Block

pub data Change : Type 0 where
  signature_delta thinking_delta input_json_delta text_delta : String → Change

pub data Frame : Type 0 where
  start_frame : String → String → Usage → Frame
  ping_frame : Frame
  open_frame : ℕ → Block → Frame
  change_frame : ℕ → Change → Frame
  stop_frame : ℕ → Frame
  error_frame : String → String → Frame
  finish_frame : String → Usage → Frame
  end_frame : Frame

-- What the sequence yields: an event, or an error, which may be an `*ir.Error` or not.
pub data Item : Type 0 where
  event : StreamEvent → Item
  failed : Error → Item
  failed_text : String → Item

abbrev pub Sink : Type 0
Sink = List Frame → Frame → Bool

unfoldable pub kind_block : Delta → BlockType → Block
kind_block d thinking = thinking_block
kind_block d redacted_thinking = redacted_block d.thinking_part
kind_block d tool_use = tool_block d.tool_id d.tool_name
kind_block d text = text_block
kind_block d (other_block _) = text_block

unfoldable pub extra_or_kind : List (String × String) → Delta → Block
unfolding kind_block
extra_or_kind [] d = kind_block d d.block
extra_or_kind (x ∷ xs) d = extra_block (x ∷ xs)

unfoldable pub block_start_body : Option Delta → Block
unfolding extra_or_kind
block_start_body none = text_block
block_start_body (some d) = extra_or_kind d.extra d

unfoldable pub kind_change : Delta → BlockType → Change
kind_change d thinking =
    if str_eq d.signature "" then thinking_delta d.thinking_part else signature_delta d.signature
kind_change d tool_use = input_json_delta d.tool_input
kind_change d text = text_delta d.text_part
kind_change d redacted_thinking = text_delta d.text_part
kind_change d (other_block _) = text_delta d.text_part

unfoldable pub delta_body : Delta → Change
unfolding kind_change
delta_body d = kind_change d d.block

unfoldable pub message_id : String → String
message_id id = if str_eq id "" then "msg_darkrouter" else id

unfoldable pub stop_reason_wire : String → String
stop_reason_wire s =
    if str_eq s "max_tokens"
    then "max_tokens"
    else if str_eq s "tool_use"
    then "tool_use"
    else if str_eq s "stop_sequence"
    then "stop_sequence"
    else if str_eq s "content_filter"
    then "refusal"
    else if str_eq s "pause_turn"
    then "pause_turn"
    else "end_turn"

-- The name of `errorShape`.
unfoldable pub error_name : String → String
error_name t =
    if str_eq t "invalid_request"
    then "invalid_request_error"
    else if str_eq t "content_filter"
    then "invalid_request_error"
    else if str_eq t "authentication"
    then "authentication_error"
    else if str_eq t "permission"
    then "permission_error"
    else if str_eq t "not_found"
    then "not_found_error"
    else if str_eq t "payload_too_large"
    then "invalid_request_error"
    else if str_eq t "unsupported_media"
    then "invalid_request_error"
    else if str_eq t "rate_limit"
    then "rate_limit_error"
    else if str_eq t "overloaded"
    then "overloaded_error"
    else "api_error"

-- The variables of `WriteStream`, and the frames sent.
pub record Stream : Type 0 where
  pub id : String
  pub model : String
  pub usage : Usage
  pub started : Bool
  pub wire_of : Map ℕ ℕ
  pub next_wire : ℕ
  pub stop : String
  pub out : List Frame

unfoldable pub new_stream : Stream
new_stream = record {
  id = "";
  model = "";
  usage = no_usage;
  started = false;
  wire_of = [];
  next_wire = 0;
  stop = "end_turn";
  out = [];
}

-- The state after an operation, and whether all of its sends succeeded.
abbrev pub Sent : Type 0
Sent = Stream × Bool

-- if err := …; err != nil { return err }
unfoldable pub and_then : Sent → (Stream → Sent) → Sent
and_then (s, true) f = f s
and_then (s, false) f = (s, false)

unfoldable pub wires : Map ℕ ℕ → List ℕ
wires [] = []
wires ((_, w) ∷ m) = w ∷ wires m
