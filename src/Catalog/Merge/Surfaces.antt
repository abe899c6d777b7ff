-- ===== src/Catalog/Merge/Surfaces.antt =====
-- internal/catalog/merge.go: the surfaces of a model, from the override, the preset or the row.
-- `ir.Surface` is its string.
pub mod Laws
use darkrouter.Base.{
  ℕ, String, Bool, true, false, not, ◌&&◌, ◌||◌, List, [], ◌∷◌, ◌++◌, Option, none, some, ◌==◌,
  str_eq, if◌then◌else◌, ℤ, pos, negsuc, contains_text, length,
}

-- `ir.AllSurfaces`.
abbrev pub all_surfaces : List String
all_surfaces = "llm" ∷ "embedding" ∷ "image" ∷ "tts" ∷ "stt" ∷ "rerank" ∷ "moderation" ∷ []

unfoldable pub has_text : List String → String → Bool
has_text [] s = false
has_text (t ∷ ts) s = str_eq t s || has_text ts s

-- `ir.ParseSurface` finds the text in the vocabulary.
unfoldable pub parse_surfaces : List String → List String
unfolding has_text
parse_surfaces [] = []
parse_surfaces (s ∷ ss) =
    let rest = parse_surfaces ss in if has_text all_surfaces s then s ∷ rest else rest

abbrev pub surface_hints : List (String × List String)
surface_hints =
    ("embedding", "embed" ∷ "bge-" ∷ "e5-" ∷ "gte-" ∷ "minilm" ∷ [])
    ∷ ("rerank", "rerank" ∷ [])
    ∷ ("image", "dall-e" ∷ "gpt-image" ∷ "flux" ∷ "stable-diffusion" ∷ "sdxl" ∷ "imagen" ∷ [])
    ∷ ("tts", "tts" ∷ [])
    ∷ ("stt", "whisper" ∷ "transcribe" ∷ [])
    ∷ ("moderation", "moderation" ∷ [])
    ∷ []

unfoldable pub names_any : String → List String → Bool
names_any id [] = false
names_any id (f ∷ fs) = contains_text id f || names_any id fs

unfoldable pub hinted : String → List String → List (String × List String) → List String
unfolding names_any has_text
hinted id declared [] = []
hinted id declared ((surface, fragments) ∷ hints) =
    let rest = hinted id declared hints in
    if has_text declared surface && names_any id fragments then surface ∷ rest else rest

-- The surfaces that the hints give, or else what the preset declares, chat alone where it has it.
unfoldable pub or_declared : List String → List String → List String
unfolding has_text
or_declared declared [] = if has_text declared "llm" then "llm" ∷ [] else declared
or_declared declared (s ∷ ss) = s ∷ ss

-- `modelSurfaces`, given the id in lower case.
unfoldable pub model_surfaces : String → List String → List String
unfolding hinted or_declared
model_surfaces id declared =
    if length declared == 1
    then declared
    else or_declared declared (hinted id declared surface_hints)

unfoldable pub or_else : List String → List String → List String
or_else [] ys = ys
or_else (x ∷ xs) ys = x ∷ xs

-- An empty list stays empty, as no preset's surfaces are narrowed then.
unfoldable pub narrowed : String → List String → List String
unfolding model_surfaces
narrowed id [] = []
narrowed id (s ∷ ss) = model_surfaces id (s ∷ ss)

-- `surfaces`, given the id in lower case.
unfoldable pub surfaces_of : String → List String → List String → List String → List String
unfolding narrowed or_else parse_surfaces
surfaces_of id overridden preset row =
    or_else (parse_surfaces overridden)
      (or_else (narrowed id (parse_surfaces preset)) (or_else (parse_surfaces row) ("llm" ∷ [])))
