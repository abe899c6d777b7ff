-- ===== src/Edge/OpenaiStream/Client.antt =====
-- internal/edge/openai/stream.go: a client that assembles tool calls by their number.
use mathlib.Core.List.{foldl, foldl-append}
use darkrouter.Base.{
  ℕ, ◌+◌, Bool, true, false, not, ◌&&◌, ◌||◌, List, [], ◌∷◌, ◌++◌, Option, some, nat_eq, str_eq,
  ltb, ◌==◌, ◌≡◌, if◌then◌else◌,
}
use darkrouter.Ir.{EventType, block_start, content_delta, BlockType, tool_use, Delta}
use darkrouter.Edge.AnthropicStream.{Item, event, failed, failed_text}
use darkrouter.Edge.OpenaiStream.{
  Body, role_body, open_call, arguments, content, reasoning, usage_part, finished, Frame, chunk,
  error_frame, done_frame, Sent,
}

-- A client that has seen `n` calls open: the next one must be numbered `n`, and arguments must be
-- for a call that is open. After an error only the end of the stream follows.
pub data Phase : Type 0 where
  reading : ℕ → Phase
  errored ended rejected : Phase

unfoldable pub read_body : ℕ → Body → Phase
read_body n (open_call i id name) = if i == n then reading (n + 1) else rejected
read_body n (arguments i part) = if ltb i n then reading n else rejected
read_body n role_body = reading n
read_body n (content t) = reading n
read_body n (reasoning t) = reading n
read_body n (usage_part u) = reading n
read_body n (finished r) = reading n

unfoldable pub read_frame : Phase → Frame → Phase
unfolding read_body
read_frame (reading n) (chunk id model body) = read_body n body
read_frame (reading n) (error_frame m t c) = errored
read_frame (reading n) done_frame = ended
read_frame errored done_frame = ended
read_frame errored (chunk id model body) = rejected
read_frame errored (error_frame m t c) = rejected
read_frame ended f = rejected
read_frame rejected f = rejected

-- The client at the end of the frames.
unfoldable pub read_all : List Frame → Phase
unfolding read_frame
read_all out = foldl read_frame (reading 0) out

pub read_all-snoc :
    (out : List Frame) (f : Frame) → read_all (out ++ f ∷ []) ≡ read_frame (read_all out) f
unfolding read_all
read_all-snoc out f = simp foldl-append

-- Events that open a tool call, and those that make one known: the first arguments of a call open it.
abbrev pub is_tool : BlockType → Bool
is_tool tool_use = true
is_tool _ = false

abbrev pub opens : EventType → Option Delta → Bool
opens block_start (some d) = is_tool d.block
opens _ _ = false

abbrev pub knows : EventType → Option Delta → Bool
knows block_start (some d) = is_tool d.block
knows content_delta (some d) = is_tool d.block && not (str_eq d.tool_input "")
knows _ _ = false

abbrev pub among : List ℕ → ℕ → Bool
among [] k = false
among (i ∷ is) k = i == k || among is k

-- No block starts a tool call twice, the blocks in the list having one already.
abbrev pub NoReopen : List ℕ → List Item → Type 0
NoReopen known [] = Unit {0}
NoReopen known (event ev ∷ rest) =
    (opens ev.event_type ev.delta && among known ev.index ≡ false)
    × NoReopen (if knows ev.event_type ev.delta then ev.index ∷ known else known) rest
NoReopen known (failed e ∷ rest) = Unit {0}
NoReopen known (failed_text m ∷ rest) = Unit {0}

-- The client still reads: nothing that it was sent upset it, and the stream has not ended for it.
pub data IsLive (p : Phase) : Type 0 where
  at_reading : (n : ℕ) → p ≡ reading n → IsLive p
  at_error : p ≡ errored → IsLive p

-- Every send succeeded and the client has read the end, or one failed and the client reads on.
pub data IsAccepted (r : Sent) : Type 0 where
  whole : r.1 ≡ true → read_all r.0.out ≡ ended → IsAccepted r
  cut_off : r.1 ≡ false → IsLive (read_all r.0.out) → IsAccepted r
