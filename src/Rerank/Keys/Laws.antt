-- ===== src/Rerank/Keys/Laws.antt =====
-- The key list of `geminiKeys`.
use cvranking.Prelude.{
  ◌≤◌, ◌≡◌, ◌≢◌, ap, true, List, [], ◌∷◌, map, arith, select, flat_map, All, All-select, Bool-cases,
  inl, inr, Distinct,
}
use cvranking.Js.Map.{dedupe, dedupe-Distinct}
use cvranking.Js.Number.{Number}
use cvranking.Js.Text.{Text, truthy, trim, split, join}
use cvranking.Js.Text.Laws.{trim_idem, split-join, Avoids, split-Avoids, trim-All}
use cvranking.Rerank.Keys.{Env, comma, key_sources, gemini_keys, limit_of, ai_candidate_limit}

-- A key as it is sent: not empty, without spaces round it, and without a comma.
pub record IsKey (key : Text) : Type 0 where
  pub filled : truthy key ≡ true
  pub trimmed : trim key ≡ key
  pub whole : Avoids comma key

pieces-IsKey :
    (parts : List Text) → All (Avoids comma) parts → All IsKey (select truthy (map trim parts))
pieces-IsKey [] h = tt
pieces-IsKey (p ∷ parts) (h, hs) = elim (Bool-cases (truthy (trim p))) [
  | inl e ↦ rw e (
    record { filled = e; trimmed = trim_idem p; whole = trim-All (λ c. c ≢ comma) p h },
    pieces-IsKey parts hs,
  )
  | inr e ↦ rw e (pieces-IsKey parts hs)
]

All-dedupe : (P : Text → Type 0) (xs : List Text) → All P xs → All P (dedupe xs)
unfolding dedupe
All-dedupe P [] h = tt
All-dedupe P (x ∷ xs) (p, h) = (p, All-select P _ (dedupe xs) (All-dedupe P xs h))

-- The keys are the non-empty trimmed comma-separated pieces of the single key, the numbered keys in
-- the order of their numbers and the key list, each taken once, at its first place. So no key occurs
-- twice, and each is non-empty, trimmed and free of commas.
pub gemini_keys_lem :
    (env : Env)
    → (gemini_keys env
        ≡ dedupe (select truthy (map trim (flat_map (split comma) (key_sources env)))))
      × Distinct (gemini_keys env)
      × All IsKey (gemini_keys env)
unfolding gemini_keys key_sources
gemini_keys_lem env =
    let pieces = split comma (join (comma ∷ []) (key_sources env)) in
    (
      ap (λ ps. dedupe (select truthy (map trim ps))) (split-join comma _ _),
      dedupe-Distinct (select truthy (map trim pieces)),
      All-dedupe IsKey _ (pieces-IsKey pieces (split-Avoids comma _)),
    )

-- The limit is at most 200.
pub ai_candidate_limit-le :
    (to_number : Text → Number) (env : Env) → ai_candidate_limit to_number env ≤ 200
unfolding ai_candidate_limit limit_of
ai_candidate_limit-le to_number env = ground arith
