-- ===== src/Interviewer/Report.antt =====
-- What frontend/components/copilot/summary-modal.tsx shows of an interview, and the report that
-- `handleDownloadReport` writes. The score with its verdict and the scores of the skills are given as
-- the texts that are shown.
pub mod Points
use cvranking.Prelude.{
  ℕ, ◌+◌, ◌-◌, ◌/◌, ◌%◌, Bool, true, false, ◌||◌, ◌&&◌, Option, none, some, List, [], ◌∷◌, ◌++◌,
  map, take, flat_map, length, coalesce, leb, ltb, if◌then◌else◌,
}
use cvranking.Js.Decimal.{decimal}
use cvranking.Js.Map.{dedupe}
use cvranking.Js.Text.{Text, units, or_else, join, is_digit}
use cvranking.Interviewer.Types.{Speaker, interviewer, candidate, TranscriptItem}

pub record Evaluation : Type 0 where
  pub strengths : Option (List Text)
  pub weaknesses : Option (List Text)

pub record FinalReport : Type 0 where
  pub summary_text : Text
  pub key_strengths : Option (List Text)
  pub red_flags : Option (List Text)
  pub hiring_advice : Text

-- `report?.points || …`: the report's points, or the first of the evaluations' without repeating any.
unfoldable pub points_of :
    (limit : ℕ)
    → (Evaluation → Option (List Text))
    → (reported : Option (List Text)) → List Evaluation
    → List Text
points_of limit part (some points) evaluations = points
points_of limit part none evaluations =
    take limit (dedupe (flat_map (λ e. coalesce (part e) []) evaluations))

abbrev reported : {A : Type 0} → (FinalReport → Option A) → Option FinalReport → Option A
reported part none = none
reported part (some report) = part report

unfoldable pub display_strengths : Option FinalReport → List Evaluation → List Text
display_strengths report evaluations =
    points_of 5 (λ e. e.strengths) (reported (λ r. r.key_strengths) report) evaluations

unfoldable pub display_weaknesses : Option FinalReport → List Evaluation → List Text
display_weaknesses report evaluations =
    points_of 3 (λ e. e.weaknesses) (reported (λ r. r.red_flags) report) evaluations

-- A text of the report, or what stands for one that is missing or empty.
unfoldable pub reported_text : (FinalReport → Text) → Option FinalReport → (fallback : Text) → Text
reported_text part none fallback = fallback
reported_text part (some report) fallback = or_else (part report) fallback

unfoldable pub display_summary :
    (turns : ℕ) → (job_level job_domain : Text) → Option FinalReport → Text
display_summary turns job_level job_domain report =
    reported_text (λ r. r.summary_text) report
      (units "Ứng viên đã trải qua "
        ++ (decimal turns
            ++ (units " lượt thoại phỏng vấn cho vị trí "
                ++ (job_level
                    ++ (units " "
                        ++ (job_domain
                            ++ units ". Thể hiện năng lực chuyên môn và tư duy tốt."))))))

unfoldable pub display_advice : Option FinalReport → Text
display_advice report =
    reported_text (λ r. r.hiring_advice) report
      (units
        "Khuyến nghị tiếp nhận ứng viên vào đội ngũ kỹ thuật và giao phụ trách các module cốt lõi.")

-- The two code units of a sign beyond the basic plane.
abbrev sign : ℕ → Text
sign n = (55296 + (n - 65536) / 1024) ∷ (56320 + (n - 65536) % 1024) ∷ []

unfoldable pub speaker_name : Speaker → Text
speaker_name interviewer = sign 128084 ++ units " Người phỏng vấn"
speaker_name candidate = sign 129489 ++ (8205 ∷ sign 128187 ++ units " Ứng viên")

unfoldable pub log_line : TranscriptItem → Text
log_line item =
    units "**["
    ++ (item.timestamp
        ++ (units "] " ++ (speaker_name item.speaker ++ (units ":** " ++ item.text))))

unfoldable pub listed_or : (fallback : Text) → List Text → Text
listed_or fallback [] = fallback
listed_or fallback (point ∷ points) = join (10 ∷ []) (map (λ p. units "- " ++ p) (point ∷ points))

unfoldable pub skill_line : Text × Text → Text
skill_line (name, score) = units "- **" ++ (name ++ (units "**: " ++ (score ++ units "/10")))

-- What the modal is given, with the texts of the score, the verdict, the skills and the day.
pub record Summary : Type 0 where
  pub transcript : List TranscriptItem
  pub evaluations : List Evaluation
  pub final_report : Option FinalReport
  pub job_domain : Text
  pub job_level : Text
  pub score : Text
  pub verdict : Text
  pub skills : List (Text × Text)
  pub day : Text

unfoldable pub md_content : Summary → Text
md_content s = join (10 ∷ []) (
    units "# BÁO CÁO TỔNG HỢP ĐÁNH GIÁ NĂNG LỰC ỨNG VIÊN (AI COPILOT REPORT)"
    ∷ (units "**Vị trí ứng tuyển:** " ++ (s.job_level ++ (units " " ++ s.job_domain)))
    ∷ (units "**Ngày phỏng vấn:** " ++ s.day)
    ∷ (units "**Kết quả đánh giá AI:** " ++ (s.score ++ (units "/10 - " ++ s.verdict)))
    ∷ (units "**Tổng số câu hội thoại:** "
        ++ (decimal (length s.transcript) ++ units " lượt thoại"))
    ∷ []
    ∷ units "---"
    ∷ []
    ∷ (units "## "
        ++ (sign 128204 ++ units " Nhận Xét Tổng Quan Từ Hội Đồng AI (Executive Summary)"))
    ∷ (units "> " ++ display_summary (length s.transcript) s.job_level s.job_domain s.final_report)
    ∷ []
    ∷ (units "**"
        ++ (sign 128161
            ++ (units " Lời khuyên cho Hiring Manager:** " ++ display_advice s.final_report)))
    ∷ []
    ∷ units "---"
    ∷ []
    ∷ (units "## " ++ (sign 128202 ++ units " Phân Tích Kỹ Năng Chi Tiết (Competency Radar)"))
    ∷ join (10 ∷ []) (map skill_line s.skills)
    ∷ []
    ∷ units "---"
    ∷ []
    ∷ (units "## " ++ (sign 127775 ++ units " Điểm Mạnh Khẳng Định (Key Strengths)"))
    ∷ listed_or (units "- Trình bày mạch lạc, kiến thức nền tảng vững vàng.")
        (display_strengths s.final_report s.evaluations)
    ∷ []
    ∷ units "---"
    ∷ []
    ∷ (units "## ⚠" ++ (65039 ∷ units " Rủi Ro & Điểm Cần Chú Ý (Red Flags & Areas for Growth)"))
    ∷ listed_or (units "- Không phát hiện lỗ hổng lớn trong chuyên môn.")
        (display_weaknesses s.final_report s.evaluations)
    ∷ []
    ∷ units "---"
    ∷ []
    ∷ (units "## " ++ (sign 128221 ++ units " Nhật Ký Chi Tiết Cuộc Phỏng Vấn (Transcript Log)"))
    ∷ join (10 ∷ 10 ∷ []) (map log_line s.transcript)
    ∷ []
    ∷ units "---"
    ∷ []
    ∷ units
        "*Báo cáo được khởi tạo tự động bởi hệ thống AI Interviewer Copilot (Google Gemini 2.5 Live Engine).*"
    ∷ []
    ∷ [])

-- `/[a-zA-Z0-9]/`.
unfoldable pub is_plain : ℕ → Bool
is_plain c = is_digit c || ((leb 65 c && leb c 90) || (leb 97 c && leb c 122))

unfoldable pub plain_or_line : ℕ → ℕ
plain_or_line c = if is_plain c then c else 95

-- The name of the file, with the day as `2026-01-31`.
unfoldable pub report_name : (job_domain iso_day : Text) → Text
report_name job_domain iso_day =
    units "Report_"
    ++ (take 20 (map plain_or_line job_domain) ++ (units "_" ++ (iso_day ++ units ".md")))
