-- ===== src/Base/Strings.antt =====
-- Go's `strings` functions as far as the program uses them, on texts as sequences of code points.
use Prim.Native.Char.{Char, code}
use Prim.Native.Nat.{ℕ, ◌+◌, ◌-◌, ◌*◌, ◌^◌}
use Prim.Native.String.{String}
use mathlib.Core.Path.{◌≡◌}
use mathlib.Core.Bool.{Bool, true, false, ◌&&◌, ◌||◌}
use mathlib.Core.List.{List, [], ◌∷◌}
use mathlib.Core.Option.{Option, none, some}
use native.Mathlib.Omega.{arith}
use text.Mathlib.Text.{◌==◌ as str_eq}
use darkrouter.Base.Int.{ℤ, pos, negsuc}
use darkrouter.Base.Tests.{ltb, leb, ◌==◌, if◌then◌else◌, if_holds}
use darkrouter.Base.Texts.{codes}

-- strings.CutPrefix
unfoldable pub cut_prefix : String → String → Option String
cut_prefix s String.[] = some s
cut_prefix String.[] (String.◌∷◌ d p) = none
cut_prefix (String.◌∷◌ c s) (String.◌∷◌ d p) = elim (code c == code d) [
  | true ↦ cut_prefix s p
  | false ↦ none
]

abbrev pub is_some {ℓ} : {A : Type ℓ} → Option A → Bool
is_some none = false
is_some (some _) = true

-- strings.HasPrefix
unfoldable pub has_prefix : String → String → Bool
unfolding cut_prefix
has_prefix s p = is_some (cut_prefix s p)

-- strings.Contains
unfoldable pub contains_text : String → String → Bool
unfolding has_prefix
contains_text String.[] p = has_prefix String.[] p
contains_text (String.◌∷◌ c s) p = has_prefix (String.◌∷◌ c s) p || contains_text s p

-- strings.ReplaceAll of one character by another
unfoldable pub replace_char : ℕ → Char → String → String
replace_char old new String.[] = String.[]
replace_char old new (String.◌∷◌ c s) =
    String.◌∷◌ (if code c == old then new else c) (replace_char old new s)

-- What follows the last `/`, or `best` if there is none.
unfoldable pub leaf_from : String → String → String
leaf_from best String.[] = best
leaf_from best (String.◌∷◌ c s) = leaf_from (if code c == b'/' then s else best) s

-- s[strings.LastIndex(s, "/")+1:]
unfoldable pub leaf : String → String
unfolding leaf_from
leaf s = leaf_from s s

-- unicode.IsSpace
unfoldable pub is_space : ℕ → Bool
is_space c =
    (leb 9 c && leb c 13)
    || (c == 32
        || (c == 0x85
            || (c == 0xA0
                || (c == 0x1680
                    || ((leb 0x2000 c && leb c 0x200A)
                        || (c == 0x2028
                            || (c == 0x2029 || (c == 0x202F || (c == 0x205F || c == 0x3000)))))))))

unfoldable pub trim_left : String → String
unfolding is_space
trim_left String.[] = String.[]
trim_left (String.◌∷◌ c s) =
    let rest = trim_left s in if is_space (code c) then rest else String.◌∷◌ c s

unfoldable pub trim_right : String → String
unfolding is_space
trim_right String.[] = String.[]
trim_right (String.◌∷◌ c s) =
    let rest = trim_right s in
    if is_space (code c) && str_eq rest "" then String.[] else String.◌∷◌ c rest

-- strings.TrimSpace
unfoldable pub trim_space : String → String
unfolding trim_left trim_right
trim_space s = trim_right (trim_left s)

-- The digits of a number behind `n`.
unfoldable pub digits_value : String → ℕ → Option ℕ
digits_value String.[] n = some n
digits_value (String.◌∷◌ c s) n =
    let rest = digits_value s (n * 10 + (code c - b'0')) in
    if leb b'0' (code c) && leb (code c) b'9' then rest else none

unfoldable pub magnitude : String → Option ℕ
unfolding digits_value
magnitude String.[] = none
magnitude (String.◌∷◌ c s) = digits_value (String.◌∷◌ c s) 0

abbrev pub up_to : ℕ → Option ℕ → Option ℤ
up_to bound none = none
up_to bound (some n) = if leb n bound then some (pos n) else none

abbrev pub down_to : ℕ → Option ℕ → Option ℤ
down_to bound none = none
down_to bound (some n) =
    if n == 0 then some (pos 0) else if leb n bound then some (negsuc (n - 1)) else none

-- strconv.Atoi, with `int` of 64 bits: `none` is any error.
unfoldable pub atoi : String → Option ℤ
unfolding magnitude
atoi String.[] = none
atoi (String.◌∷◌ c s) =
    if code c == b'-'
    then down_to (2 ^ 63) (magnitude s)
    else if code c == b'+'
    then up_to (2 ^ 63 - 1) (magnitude s)
    else up_to (2 ^ 63 - 1) (magnitude (String.◌∷◌ c s))

-- The bytes of a code point in UTF-8.
unfoldable pub width : ℕ → ℕ
width c = if ltb c 128 then 1 else if ltb c 2048 then 2 else if ltb c 65536 then 3 else 4

unfoldable pub widths : List ℕ → ℕ
unfolding width
widths [] = 0
widths (c ∷ cs) = width c + widths cs

-- Go's `len` of a string.
unfoldable pub len : String → ℕ
unfolding widths
len s = widths (codes s)

-- No character has the code.
abbrev pub Avoids : ℕ → String → Type 0
Avoids k String.[] = Unit {0}
Avoids k (String.◌∷◌ c s) = ((code c == k) ≡ false) × Avoids k s

pub leaf_from-Avoids :
    (best s : String) → (Avoids b'/' s → Avoids b'/' best) → Avoids b'/' (leaf_from best s)
unfolding leaf_from
leaf_from-Avoids best String.[] h = h tt
leaf_from-Avoids best (String.◌∷◌ c s) h =
    if_holds (λ b. Avoids b'/' (leaf_from b s)) (code c == b'/') s best
      (λ e. leaf_from-Avoids s s (λ a. a)) (λ e. leaf_from-Avoids best s (λ a. h (e, a)))

pub replace_char-Avoids :
    (old : ℕ) (new : Char) (s : String)
    → (code new == old) ≡ false
    → Avoids old (replace_char old new s)
unfolding replace_char
replace_char-Avoids old new String.[] h = tt
replace_char-Avoids old new (String.◌∷◌ c s) h = (ground (arith), replace_char-Avoids old new s h)

pub replace_char-keeps :
    (old k : ℕ) (new : Char) (s : String)
    → (code new == k) ≡ false
    → Avoids k s
    → Avoids k (replace_char old new s)
unfolding replace_char
replace_char-keeps old k new String.[] h a = tt
replace_char-keeps old k new (String.◌∷◌ c s) h a =
    (ground (arith), replace_char-keeps old k new s h a.1)
