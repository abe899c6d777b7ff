-- ===== src/Exec/RawStream/Examples.antt =====
-- The theorems on a forwarded stream at chunks that cut a boundary in two.
use darkrouter.Base.{List, [], ◌∷◌, Option, none, some}
use darkrouter.Exec.RawStream.{EventSplitter}
use darkrouter.Ir.{Usage, no_usage}
use darkrouter.Sse.Lines.{Bytes}

abbrev splitter : EventSplitter
splitter = record { buf = b'a' ∷ b'\n' ∷ []; max = 3 }

abbrev chunk : Bytes
chunk = b'\n' ∷ b'b' ∷ b'c' ∷ b'd' ∷ b'e' ∷ []

abbrev reported : List (Option Usage)
reported =
    some (record no_usage { input_tokens = 9; cache_read_tokens = 4 })
    ∷ none
    ∷ some (record no_usage { output_tokens = 7 })
    ∷ []
