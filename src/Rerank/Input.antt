-- ===== src/Rerank/Input.antt =====
-- `compactCandidate`, `selectCandidatesForAI`, `buildAIRankingInput` and `rankingSystemPrompt` of
-- frontend/app/api/ranking-test/route.ts: what the AI providers are sent.
use mathlib.Core.Option
use cvranking.Prelude.{
  ℕ, Option, none, some, false, List, [], ◌∷◌, map, take, coalesce, somes, flat_map,
}
use cvranking.Js.Map.{map_get}
use cvranking.Js.Text.{Text, units, or_else, join, split_lines}
use cvranking.Store.Types.{
  Evidence, JobRequirement, CandidateSkill, RankingCandidate, ScoredResult, RankingResponse, ready,
  StoredCv, StoredJob,
}
use cvranking.Rerank.Merge.{by_candidate}
use cvranking.Rerank.Types.{InputSkill, InputCandidate, InputRequirement, RankingInput}

-- `skill.evidences[0]?.text?.slice(0, 90) ?? ""`.
first_evidence : List Evidence → Text
first_evidence [] = []
first_evidence (e ∷ es) = take 90 e.text

unfoldable pub compact_skill : CandidateSkill → InputSkill
unfolding first_evidence
compact_skill s = record {
  name = s.name;
  years = s.estimated_years;
  evidence = first_evidence s.evidences;
}

parsed_summary : Text → Text
parsed_summary text = take 420 (join (units " ") (take 8 (split_lines text)))

unfoldable pub compact_candidate :
    StoredCv → RankingCandidate → Option ScoredResult → InputCandidate
unfolding parsed_summary
compact_candidate cv candidate baseline_result = record {
  candidate_id = candidate.candidate_id;
  name = or_else (coalesce cv.full_name []) cv.filename;
  title = or_else candidate.current_title (coalesce cv.current_title []);
  years = candidate.total_years_experience;
  skills = map compact_skill (take 12 candidate.skills);
  baseline_score = Option.map (λ r. r.final_score) baseline_result;
  parsed_summary = Option.map parsed_summary cv.preview_text;
}

-- The best candidates of the baseline, as many as the limit allows.
unfoldable pub select_candidates_for_ai :
    (limit : ℕ) → List RankingCandidate → RankingResponse → List RankingCandidate
select_candidates_for_ai limit candidates baseline =
    let by_id = map (λ c. (c.candidate_id, c)) candidates in
    somes (map (λ r. map_get r.candidate_id by_id) (take limit baseline.results))

-- What the source makes up where a candidate has no CV.
placeholder_cv : RankingCandidate → StoredCv
placeholder_cv c = record {
  item = record {
    filename = c.candidate_id;
    status = ready;
    full_name = some c.candidate_id;
    current_title = some c.current_title;
    skills = none;
    error = none;
  };
  id = [];
  resume_id = [];
  candidate_id = none;
  preview_text = none;
  document_mime = none;
  document_data_url = none;
  has_document_preview = false;
  total_years_experience = none;
  uploaded_at = [];
  ranking_candidate = none;
  candidate_summary = none;
}

cv_entry : StoredCv → List (Text × StoredCv)
cv_entry cv = elim cv.candidate_id [ none ↦ [] | some [] ↦ [] | some (c ∷ s) ↦ (c ∷ s, cv) ∷ [] ]

input_requirement : JobRequirement → InputRequirement
input_requirement r = record {
  key = r.requirement_key;
  name = r.name;
  type = r.requirement_type;
  priority = r.priority;
  weight = r.weight;
  minimum_years = r.minimum_years;
  description = r.description;
}

unfoldable pub build_ai_ranking_input :
    StoredJob → List RankingCandidate → RankingResponse → RankingInput
unfolding placeholder_cv cv_entry input_requirement
build_ai_ranking_input job candidates baseline =
    let baseline_by_candidate = by_candidate baseline.results in
    let cv_by_candidate = flat_map cv_entry job.cvs in
    record {
      title = job.title;
      description = job.description;
      requirements = map input_requirement job.requirements;
      candidates =
          map
            (λ c.
              compact_candidate
                (coalesce (map_get c.candidate_id cv_by_candidate) (placeholder_cv c)) c
                (map_get c.candidate_id baseline_by_candidate))
            candidates;
    }

unfoldable pub ranking_system_prompt : Text
ranking_system_prompt = join (10 ∷ []) (
    units "You are an expert AI recruiter ranking CVs against a job description."
    ∷ units "Use semantic judgment, evidence from parsed CV fields, and the stated JD requirements."
    ∷ units
        "Must-have requirements should dominate score. Nice-to-have requirements should only differentiate similar candidates."
    ∷ units "Do not reward candidates for skills not evidenced in the parsed CV."
    ∷ units "Return strict JSON only. Do not include markdown."
    ∷ units
        "Schema: {\"results\":[{\"candidate_id\":\"...\",\"score\":0-1,\"confidence\":0-1,\"eligibility_status\":\"eligible|potentially_eligible|constraint_unknown|constraint_failed\",\"strengths\":[\"...\"],\"gaps\":[\"...\"],\"unknowns\":[\"...\"],\"requirement_scores\":[{\"requirement_key\":\"R1\",\"status\":\"met|partially_met|not_found|not_met|unknown\",\"score\":0-1,\"confidence\":0-1}]}]}"
    ∷ [])
