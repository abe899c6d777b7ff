-- ===== src/Sse/Examples.antt =====
-- The theorems on the event stream at short streams.
use darkrouter.Base.{ℕ, List, [], ◌∷◌, ◌++◌, arith}
use darkrouter.Sse.Lines.{lines}
use darkrouter.Sse.Reader.{next_event}
use darkrouter.Sse.Reader.Received.{Received, next_event-send}
use darkrouter.Sse.Writer.{send}

abbrev two_parts : List ℕ
two_parts = b'h' ∷ b'i' ∷ b'\n' ∷ b'y' ∷ []

next_event-send_example :
    Received 100
      (b'e' ∷ [])
      two_parts
      (b'd' ∷ [])
      (next_event 100 (lines 100 (send (b'e' ∷ []) two_parts ++ (b'd' ∷ []))))
next_event-send_example =
    next_event-send 100 (b'e' ∷ []) two_parts (b'd' ∷ []) (omega arith) (omega arith)
