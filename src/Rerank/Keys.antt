-- ===== src/Rerank/Keys.antt =====
-- The providers' settings, read from the environment: `geminiKeys`, `geminiModelName`, `groqKey`,
-- `groqModelName`, `aiCandidateLimit` and `aiRerankStatus` of
-- frontend/app/api/ranking-test/route.ts. The assistant's route has the same `geminiKeys`.
pub mod Laws
use cvranking.Prelude.{
  ℕ, ◌+◌, ◌/◌, ◌==◌, Bool, true, false, ◌||◌, Option, none, some, List, [], ◌∷◌, ◌++◌, map,
  coalesce, select, flat_map, length, ltb, min, if◌then◌else◌,
}
use cvranking.Js.Map.{map_get, dedupe}
use cvranking.Js.Number.{Number, pos, Sign, scale, minus_ℕ}
use cvranking.Js.Sorting.{sort}
use cvranking.Js.Text.{
  Text, units, truthy, or_else, trim, split, join, strip_prefix, all_digits, digits_value,
}

abbrev pub Env : Type 0
Env = List (Text × Text)

-- `process.env.NAME ?? ""`, which `process.env.NAME || …` reads alike.
unfoldable pub env_text : Env → Text → Text
env_text env name = coalesce (map_get name env) []

-- The number of a `GEMINI_API_KEY_<digits>` variable with its value. The numbers are exact below
-- 2 ^ 53.
numbered : Text × Text → List (ℕ × Text)
numbered (name, value) = elim (strip_prefix (units "GEMINI_API_KEY_") name) [
  | none ↦ []
  | some [] ↦ []
  | some (c ∷ s) ↦ if all_digits (c ∷ s) then (digits_value 0 (c ∷ s), value) ∷ [] else []
]

abbrev pub by_number : ℕ × Text → ℕ × Text → Sign
by_number left right = minus_ℕ left.0 right.0

unfoldable pub numbered_keys : Env → List Text
unfolding numbered
numbered_keys env = map (λ e. e.1) (sort by_number (flat_map numbered env))

abbrev pub comma : ℕ
comma = b','

-- The values that hold keys, in the order in which they are joined.
unfoldable pub key_sources : Env → List Text
key_sources env =
    env_text env (units "GEMINI_API_KEY") ∷ numbered_keys env
    ++ (env_text env (units "GEMINI_API_KEYS") ∷ [])

unfoldable pub gemini_keys : Env → List Text
gemini_keys env =
    dedupe (select truthy (map trim (split comma (join (comma ∷ []) (key_sources env)))))

unfoldable pub gemini_model_name : Env → Text
gemini_model_name env =
    let name = or_else (env_text env (units "GEMINI_MODEL")) (units "gemini-2.0-flash") in
    coalesce (strip_prefix (units "models/") name) name

unfoldable pub groq_key : Env → Text
groq_key env = trim (env_text env (units "GROQ_API_KEY"))

unfoldable pub groq_model_name : Env → Text
groq_model_name env = or_else (env_text env (units "GROQ_MODEL")) (units "llama-3.3-70b-versatile")

-- `Number.isFinite(parsed) && parsed > 0 ? Math.min(200, Math.floor(parsed)) : 25`.
unfoldable pub limit_of : Number → ℕ
limit_of (pos k) = if ltb 0 k then min 200 (k / scale) else 25
limit_of _ = 25

unfoldable pub ai_candidate_limit : (to_number : Text → Number) → Env → ℕ
unfolding limit_of
ai_candidate_limit to_number env =
    let setting = env_text env (units "AI_RANKING_CANDIDATE_LIMIT") in
    if truthy setting then limit_of (to_number setting) else 25

pub data Provider : Type 0 where
  gemini groq : Provider

pub record AiRerankStatus : Type 0 where
  pub available : Bool
  pub provider : Option Provider

unfoldable pub ai_rerank_status : Env → AiRerankStatus
ai_rerank_status env =
    let has_gemini = ltb 0 (length (gemini_keys env)) in
    let has_groq = truthy (groq_key env) in
    record {
      available = has_gemini || has_groq;
      provider = if has_gemini then some gemini else if has_groq then some groq else none;
    }
