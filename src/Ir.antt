-- ===== src/Ir.antt =====
-- internal/ir/ir.go: the intermediate form, as far as the modelled components read it.
use darkrouter.Base.{ℕ, String, Bool, false, List, Option}

-- The Go types of string constants have a constructor for any other string.
pub data EventType : Type 0 where
  message_start block_start content_delta block_stop message_delta message_stop ping error :
      EventType
  other_event : String → EventType

pub data BlockType : Type 0 where
  text thinking redacted_thinking tool_use : BlockType
  other_block : String → BlockType

-- `extra` holds raw JSON texts by name.
pub record Delta : Type 0 where
  pub block : BlockType
  pub text_part : String
  pub thinking_part : String
  pub signature : String
  pub tool_input : String
  pub tool_id : String
  pub tool_name : String
  pub extra : List (String × String)

pub record Warning : Type 0 where
  pub field : String
  pub target : String
  pub reason : String

-- Token counts, which are not negative.
pub record Usage : Type 0 where
  pub input_tokens : ℕ
  pub output_tokens : ℕ
  pub cache_read_tokens : ℕ
  pub cache_write_tokens : ℕ
  pub reasoning_tokens : ℕ
  pub estimated : Bool
  pub cache_write_5m_tokens : ℕ
  pub cache_write_1h_tokens : ℕ

abbrev pub no_usage : Usage
no_usage = record {
  input_tokens = 0;
  output_tokens = 0;
  cache_read_tokens = 0;
  cache_write_tokens = 0;
  reasoning_tokens = 0;
  estimated = false;
  cache_write_5m_tokens = 0;
  cache_write_1h_tokens = 0;
}

-- A stop reason is its string; "" is none.
pub record StreamEvent : Type 0 where
  pub event_type : EventType
  pub index : ℕ
  pub delta : Option Delta
  pub usage : Option Usage
  pub stop_reason : String
  pub id : String
  pub model : String
  pub warnings : List Warning

pub record Error : Type 0 where
  pub error_type : String
  pub message : String
  pub code : String
