-- ===== src/Catalog/Preset.antt =====
-- internal/catalog/preset.go: the shipped data of one upstream, as far as the merge, discovery and
-- seeding read it, and its closed vocabulary of quirks. The texts of a preset are parsed elsewhere.

use Prim.Native.Char.{code}
use darkrouter.Base.{
  String, Bool, true, false, not, ◌&&◌, ◌||◌, List, [], ◌∷◌, Option, none, some, Map, ℤ, pos,
  negsuc, ltb, ◌==◌, str_eq, str_lt, stable_sort, if◌then◌else◌, cut_prefix, has_prefix, atoi,
}
use darkrouter.Provider.{is_keyless}

pub record Auth : Type 0 where
  pub style : String
  pub key : String

pub record TraitRule : Type 0 where
  pub match_text : String
  pub adaptive : Bool
  pub manual_budget : Bool
  pub free_sampling : Bool
  pub no_prefill : Bool
  pub thinking_always_on : Bool
  pub no_forced_tool_choice : Bool

pub record Preset : Type 0 where
  pub base_url : String
  pub auth : Auth
  pub surfaces : List String
  pub models_dev_id : String
  pub no_models_dev : Bool
  pub litellm_id : String
  pub no_litellm : Bool
  pub free_tier : Bool
  pub resells : Bool
  pub quirks : List String
  pub model_aliases : Map String String
  pub model_traits : List TraitRule
  pub publisher : String

-- The zero value, for a provider that no preset names.
abbrev pub no_preset : Preset
no_preset = record {
  base_url = "";
  auth = record { style = ""; key = "" };
  surfaces = [];
  models_dev_id = "";
  no_models_dev = false;
  litellm_id = "";
  no_litellm = false;
  free_tier = false;
  resells = false;
  quirks = [];
  model_aliases = [];
  model_traits = [];
  publisher = "";
}

unfoldable pub secret : Auth → String → String
secret a configured =
    if str_eq configured "" && str_eq a.style "anonymous" then a.key else configured

unfoldable pub resells_prices : Preset → Bool
resells_prices p = p.resells || (p.free_tier && (p.no_models_dev && p.no_litellm))

unfoldable pub declares : List String → String → Bool
declares [] tag = false
declares (q ∷ qs) tag = str_eq q tag || declares qs tag

unfoldable pub has_quirk : Preset → String → Bool
unfolding declares
has_quirk p tag = declares p.quirks tag

-- The value behind the first quirk that starts with `prefix`.
unfoldable pub value_after : List String → String → Option String
value_after [] prefix = none
value_after (q ∷ qs) prefix =
    let rest = value_after qs prefix in elim (cut_prefix q prefix) [ some v ↦ some v | none ↦ rest ]

-- `QuirkValue("context-override")`, the only tag that is asked for.
unfoldable pub context_override : Preset → Option String
unfolding value_after
context_override p = value_after p.quirks "context-override="

abbrev pub positive : Option ℤ → Bool
positive (some (pos n)) = ltb 0 n
positive (some (negsuc _)) = false
positive none = false

abbrev pub bare_quirks : List String
bare_quirks =
    "rejects-stream-options" ∷ "requires-max-tokens" ∷ "max-completion-tokens-name"
    ∷ "no-system-role" ∷ "no-parallel-tool-calls" ∷ "temperature-top-p-exclusive"
    ∷ "strict-unknown-fields" ∷ "no-tool-streaming" ∷ "usage-final-chunk-only"
    ∷ "echo-reasoning-content" ∷ []

-- strings.Cut(q, "=")
unfoldable pub cut_equals : String → Option (String × String)
cut_equals String.[] = none
cut_equals (String.◌∷◌ c s) =
    let rest = cut_equals s in
    if code c == b'='
    then some (String.[], s)
    else elim rest [ none ↦ none | some (t, v) ↦ some (String.◌∷◌ c t, v) ]

-- The check of a quirk's value.
unfoldable pub known_value : String → String → Bool
known_value tag value =
    if str_eq tag "rerank-path"
    then has_prefix value "/"
    else if str_eq tag "context-override"
    then positive (atoi value)
    else false

unfoldable pub known_quirk : String → Bool
unfolding cut_equals known_value declares
known_quirk q = elim (cut_equals q) [
  | none ↦ declares bare_quirks q
  | some (tag, value) ↦ not (str_eq value "") && known_value tag value
]

abbrev pub loopback_hosts : List String
loopback_hosts = "localhost" ∷ "127.0.0.1" ∷ "[::1]" ∷ "0.0.0.0" ∷ []

-- (:|/|$)
unfoldable pub host_ends : String → Bool
host_ends String.[] = true
host_ends (String.◌∷◌ c s) = code c == b':' || code c == b'/'

unfoldable pub local_host : List String → String → Bool
unfolding host_ends
local_host [] rest = false
local_host (h ∷ hs) rest =
    let others = local_host hs rest in
    elim (cut_prefix rest h) [ none ↦ others | some after ↦ host_ends after || others ]

-- The address behind `http://` or `https://`.
unfoldable pub after_scheme : String → Option String
after_scheme url = elim (cut_prefix url "http://") [
  | some rest ↦ some rest
  | none ↦ cut_prefix url "https://"
]

unfoldable pub is_loopback : String → Bool
unfolding after_scheme local_host
is_loopback url = elim (after_scheme url) [
  | none ↦ false
  | some rest ↦ local_host loopback_hosts rest
]

-- The conditions of the loop of `SelfServing`.
unfoldable pub serves_itself : Preset → Bool
unfolding is_loopback
serves_itself p =
    is_keyless p.auth.style
    && ((has_prefix p.base_url "http://" || has_prefix p.base_url "https://")
        && not (is_loopback p.base_url))

unfoldable pub self_serving_ids : Map String Preset → List String
unfolding serves_itself
self_serving_ids [] = []
self_serving_ids ((id, p) ∷ ps) =
    let rest = self_serving_ids ps in if serves_itself p then id ∷ rest else rest

unfoldable pub self_serving : Map String Preset → List String
unfolding self_serving_ids
self_serving ps = stable_sort str_lt (self_serving_ids ps)
