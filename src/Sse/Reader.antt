-- ===== src/Sse/Reader.antt =====
-- internal/sse/reader.go, `Next`, over the lines that the scanner finds; `none` is its error on a line
-- that is longer than the cap.
pub mod Joined
pub mod RoundTrip
pub mod Received
use darkrouter.Base.{
  ℕ, ◌+◌, Bool, true, false, not, ◌&&◌, ◌||◌, List, [], ◌∷◌, ◌++◌, Option, none, some, length, ltb,
  ◌==◌, if◌then◌else◌,
}
use darkrouter.Sse.Lines.{Bytes}
use darkrouter.Sse.Writer.{join_lf}

pub record Event : Type 0 where
  pub event_type : Bytes
  pub text : Bytes
  pub id : Bytes
  pub retry : Bytes

abbrev pub no_event : Event
no_event = record { event_type = []; text = []; id = []; retry = [] }

-- The variables of `Next`.
pub record Pending : Type 0 where
  pub ev : Event
  pub parts : List Bytes
  pub part_bytes : ℕ
  pub seen : Bool

abbrev pub nothing_pending : Pending
nothing_pending = record { ev = no_event; parts = []; part_bytes = 0; seen = false }

pub data Result : Type 0 where
  got : Event → List (Option Bytes) → Result
  line_too_long : Result
  event_too_long : Result
  end_of_stream : Result

unfoldable pub same_bytes : Bytes → Bytes → Bool
same_bytes [] [] = true
same_bytes [] (c ∷ cs) = false
same_bytes (b ∷ bs) [] = false
same_bytes (b ∷ bs) (c ∷ cs) = b == c && same_bytes bs cs

abbrev pub before : ℕ → Option (Bytes × Bytes) → Option (Bytes × Bytes)
before c none = none
before c (some (f, v)) = some (c ∷ f, v)

-- strings.Cut(line, ":")
unfoldable pub cut_colon : Bytes → Option (Bytes × Bytes)
cut_colon [] = none
cut_colon (c ∷ cs) = let rest = cut_colon cs in if c == b':' then some ([], cs) else before c rest

-- strings.TrimPrefix(value, " ")
unfoldable pub trim_space : Bytes → Bytes
trim_space [] = []
trim_space (c ∷ cs) = if c == b' ' then cs else c ∷ cs

unfoldable pub is_comment : Bytes → Bool
is_comment [] = false
is_comment (c ∷ cs) = c == b':'

unfoldable pub dispatched : Pending → Event
unfolding join_lf
dispatched p = record p.ev { text = join_lf p.parts }

abbrev pub data_name : Bytes
data_name = b'd' ∷ b'a' ∷ b't' ∷ b'a' ∷ []

abbrev pub event_name : Bytes
event_name = b'e' ∷ b'v' ∷ b'e' ∷ b'n' ∷ b't' ∷ []

abbrev pub id_name : Bytes
id_name = b'i' ∷ b'd' ∷ []

abbrev pub retry_name : Bytes
retry_name = b'r' ∷ b'e' ∷ b't' ∷ b'r' ∷ b'y' ∷ []

-- The newline that the join puts before a further part.
unfoldable pub joint : List Bytes → ℕ
joint [] = 0
joint (l ∷ ls) = 1

unfoldable pub take_data : ℕ → Pending → Bytes → Option Pending
unfolding joint
take_data max p value =
    let n = p.part_bytes + joint p.parts + length value in
    if ltb max n then none else some (record p { parts = p.parts ++ (value ∷ []); part_bytes = n })

-- The switch on the field; `none` is the error on a long event.
unfoldable pub take_field : ℕ → Pending → Bytes → Bytes → Option Pending
unfolding same_bytes take_data
take_field max p field value =
    if same_bytes field data_name
    then take_data max p value
    else if same_bytes field event_name
    then some (record p { ev = record p.ev { event_type = value } })
    else if same_bytes field id_name
    then some (record p { ev = record p.ev { id = value } })
    else if same_bytes field retry_name
    then some (record p { ev = record p.ev { retry = value } })
    else some p

-- A line that is not blank and no comment.
unfoldable pub take_line : ℕ → Pending → Bytes → Option Pending
unfolding cut_colon trim_space take_field
take_line max p line = elim (cut_colon line) [
  | none ↦ some (record p { seen = true })
  | some (field, value) ↦ take_field max (record p { seen = true }) field (trim_space value)
]

unfoldable pub next : ℕ → Pending → List (Option Bytes) → Result
unfolding dispatched is_comment take_line
next max p [] = if p.seen then got (dispatched p) [] else end_of_stream
next max p (none ∷ rest) = line_too_long
next max p (some [] ∷ rest) = elim p.seen [
  | true ↦ got (dispatched p) rest
  | false ↦ next max p rest
]
next max p (some (c ∷ cs) ∷ rest) = elim (is_comment (c ∷ cs)) [
  | true ↦ next max p rest
  | false ↦ elim (take_line max p (c ∷ cs)) [ none ↦ event_too_long | some q ↦ next max q rest ]
]

-- `Next` on the lines that are left.
unfoldable pub next_event : ℕ → List (Option Bytes) → Result
unfolding next
next_event max lines = next max nothing_pending lines
