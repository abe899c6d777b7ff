-- ===== src/Exec/Commit/Buffer.antt =====
-- internal/exec/commit.go, over internal/ir's stream events: the fields that the buffer reads.
pub mod Bound
use darkrouter.Ir.{
  EventType, content_delta, BlockType, text, thinking, redacted_thinking, tool_use, other_block,
  Delta, Warning, StreamEvent,
}
use darkrouter.Base.{
  ℕ, String, ◌+◌, ◌*◌, ◌≤◌, ◌<◌, Bool, true, false, not, ◌&&◌, List, [], ◌∷◌, ◌++◌, Option, none,
  some, length, ltb, ◌≡◌, ◌∙◌, refl, ap, arith, str_eq, if◌then◌else◌, len, length-append,
  Bool-cases, inl, inr,
}

unfoldable pub delta_bears : Delta → BlockType → Bool
delta_bears d text = not (str_eq d.text_part "")
delta_bears d thinking = not (str_eq d.thinking_part "")
delta_bears d redacted_thinking = not (str_eq d.thinking_part "")
delta_bears d tool_use = not (str_eq d.tool_input "")
delta_bears d (other_block _) = false

unfoldable pub content_bearing : EventType → Option Delta → Bool
unfolding delta_bears
content_bearing content_delta (some d) = delta_bears d d.block
content_bearing _ _ = false

-- `IsContentBearing`.
unfoldable pub is_content_bearing : StreamEvent → Bool
unfolding content_bearing
is_content_bearing ev = content_bearing ev.event_type ev.delta

abbrev pub event_overhead : ℕ
event_overhead = 64

unfoldable pub delta_bytes : Option Delta → ℕ
delta_bytes none = 0
delta_bytes (some d) =
    len d.text_part
    + len d.thinking_part
    + len d.signature
    + len d.tool_input
    + len d.tool_id
    + len d.tool_name

unfoldable pub warning_bytes : List Warning → ℕ
warning_bytes [] = 0
warning_bytes (w ∷ ws) = len w.field + len w.target + len w.reason + warning_bytes ws

unfoldable pub event_bytes : StreamEvent → ℕ
unfolding delta_bytes warning_bytes
event_bytes ev =
    event_overhead + len ev.id + len ev.model + delta_bytes ev.delta + warning_bytes ev.warnings

-- `preCommitBuffer`; a `maxBytes` that is not positive is 0.
pub record Buffer : Type 0 where
  pub evs : List StreamEvent
  pub bytes : ℕ
  pub max_bytes : ℕ

unfoldable pub new_buffer : ℕ → Buffer
new_buffer max_bytes = record { evs = []; bytes = 0; max_bytes = max_bytes }

-- `none` is ErrPreCommitBufferFull.
unfoldable pub add : Buffer → StreamEvent → Option Buffer
unfolding event_bytes
add b ev =
    let n = event_bytes ev in
    if ltb 0 b.max_bytes && ltb b.max_bytes (b.bytes + n)
    then none
    else some (record b { bytes = b.bytes + n; evs = b.evs ++ (ev ∷ []) })

-- The events of an attempt that has not committed, each added to the buffer; the first refusal
-- fails the attempt.
unfoldable pub add_all : Buffer → List StreamEvent → Option Buffer
add_all b [] = some b
add_all b (ev ∷ rest) = elim (add b ev) [ none ↦ none | some b1 ↦ add_all b1 rest ]
