-- ===== src/Edge/Examples.antt =====
-- The theorems on the streams at events that open a block by a delta and then fail.
use darkrouter.Base.{List, [], ◌∷◌, none, some, false, ◌≡◌, refl}
use darkrouter.Edge.AnthropicStream.{Item, event, failed}
use darkrouter.Edge.AnthropicStream.Client.{errored}
use darkrouter.Edge.AnthropicStream.Posts.{Post, reading}
use darkrouter.Edge.AnthropicStream.WellFormed.{write_stream_accepted}
use darkrouter.Edge.AnthropicStream.Writing.{write_stream}
use darkrouter.Edge.OpenaiStream
use darkrouter.Edge.OpenaiStream.Client.{IsAccepted}
use darkrouter.Edge.OpenaiStream.Dense.{write_stream_dense}
use darkrouter.Ir.{content_delta, text, tool_use}

abbrev items : List Item
items =
    event (record {
      event_type = content_delta;
      index = 2;
      delta = some (record {
        block = text;
        text_part = "hi";
        thinking_part = "";
        signature = "";
        tool_input = "";
        tool_id = "";
        tool_name = "";
        extra = [];
      });
      usage = none;
      stop_reason = "";
      id = "";
      model = "";
      warnings = [];
    })
    ∷ failed (record { error_type = "overloaded"; message = "busy"; code = "" })
    ∷ []

write_stream_accepted_example :
    Post (λ s. reading s ≡ errored) (write_stream (λ out f. false) items)
write_stream_accepted_example = write_stream_accepted (λ out f. false) items

abbrev calls : List Item
calls =
    event (record {
      event_type = content_delta;
      index = 1000;
      delta = some (record {
        block = tool_use;
        text_part = "";
        thinking_part = "";
        signature = "";
        tool_input = "{}";
        tool_id = "call_1";
        tool_name = "look";
        extra = [];
      });
      usage = none;
      stop_reason = "";
      id = "";
      model = "";
      warnings = [];
    })
    ∷ failed (record { error_type = "overloaded"; message = "busy"; code = "" })
    ∷ []

write_stream_dense_example : IsAccepted (OpenaiStream.write_stream (λ out f. false) calls)
write_stream_dense_example = write_stream_dense (λ out f. false) calls (refl, tt)
