-- ===== src/Sse/Writer.antt =====
-- internal/sse/writer.go: the bytes of one `Send`.
pub mod Split
use darkrouter.Base.{ℕ, Bool, List, [], ◌∷◌, ◌++◌, ◌==◌, if◌then◌else◌}
use darkrouter.Sse.Lines.{Bytes}

abbrev pub event_prefix : Bytes
event_prefix = b'e' ∷ b'v' ∷ b'e' ∷ b'n' ∷ b't' ∷ b':' ∷ b' ' ∷ []

abbrev pub data_prefix : Bytes
data_prefix = b'd' ∷ b'a' ∷ b't' ∷ b'a' ∷ b':' ∷ b' ' ∷ []

abbrev pub in_first : ℕ → List Bytes → List Bytes
in_first c [] = (c ∷ []) ∷ []
in_first c (l ∷ ls) = (c ∷ l) ∷ ls

-- strings.Split(data, "\n")
unfoldable pub split_lf : Bytes → List Bytes
split_lf [] = [] ∷ []
split_lf (c ∷ cs) = let rest = split_lf cs in if c == b'\n' then [] ∷ rest else in_first c rest

-- strings.Join(data, "\n")
unfoldable pub join_lf : List Bytes → Bytes
join_lf [] = []
join_lf (l ∷ []) = l
join_lf (l ∷ m ∷ ls) = l ++ (b'\n' ∷ join_lf (m ∷ ls))

unfoldable pub data_lines : List Bytes → Bytes
data_lines [] = []
data_lines (l ∷ ls) = data_prefix ++ (l ++ (b'\n' ∷ data_lines ls))

unfoldable pub event_line : Bytes → Bytes
event_line [] = []
event_line (c ∷ cs) = event_prefix ++ ((c ∷ cs) ++ (b'\n' ∷ []))

unfoldable pub send : Bytes → Bytes → Bytes
unfolding data_lines event_line split_lf
send event text = event_line event ++ (data_lines (split_lf text) ++ (b'\n' ∷ []))
