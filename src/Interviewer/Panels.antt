-- ===== src/Interviewer/Panels.antt =====
-- The parts of the interviewer page that have a state of their own, under
-- frontend/components/copilot: transcript-panel.tsx, settings-center.tsx and copilot-panel.tsx. Their
-- handlers call those of the page.
pub mod Laws
use cvranking.Prelude.{
  ℕ, ◌-◌, Bool, true, false, Option, none, some, List, [], get_elem?, length, coalesce,
  if◌then◌else◌,
}
use cvranking.Js.Text.{Text, units, text_eq, trim, truthy, includes}
use cvranking.Interviewer.Backend.{text_of_item}
use cvranking.Interviewer.Page.{handle_save_key, handle_add_manual_message}
use cvranking.Interviewer.Page.Steps.{select_job, ask_questions}
use cvranking.Interviewer.Types.{Speaker, TranscriptItem, Interview}

-- The line to type messages in. No speaker is `auto`.
pub record ManualPanel : Type 0 where
  pub manual_input : Text
  pub manual_speaker : Option Speaker

-- The effect that keeps the speaker in line with the detection.
unfoldable pub follow_detection :
    (auto_detect : Bool) → (current : Speaker) → ManualPanel → ManualPanel
follow_detection true current panel = record panel { manual_speaker = none }
follow_detection false current panel = record panel {
  manual_speaker = some (coalesce panel.manual_speaker current);
}

pub record SettingsPanel : Type 0 where
  pub active_tab : Text
  pub input_key : Text
  pub custom_domain : Text
  pub show_success : Bool

-- The effect of an open dialog.
unfoldable pub follow_settings : (initial_tab api_key : Text) → SettingsPanel → SettingsPanel
follow_settings initial_tab api_key panel = record panel {
  active_tab = if text_eq initial_tab (units "scenarios") then units "domain" else initial_tab;
  input_key = api_key;
}

-- A level is marked when the page's level names it.
unfoldable pub is_selected_level : (job_level id : Text) → Bool
is_selected_level job_level id = includes id job_level

module _ {E R : Type 0} where
  -- `handleSendManual`.
  unfoldable pub handle_send_manual :
      (lower_case : Text → Text)
      → (timestamp : Text) → ManualPanel
      → Interview E R
      → ManualPanel × Interview E R
  handle_send_manual lower_case timestamp panel s =
      if truthy (trim panel.manual_input)
      then (
        record panel { manual_input = [] },
        handle_add_manual_message lower_case (trim panel.manual_input) timestamp
            panel.manual_speaker s,
      )
      else (panel, s)

  -- `handleSaveKeySubmit`; the mark of success is taken off after 1200 ms.
  unfoldable pub handle_save_key_submit :
      (default_key : Text) → SettingsPanel → Interview E R → SettingsPanel × Interview E R
  handle_save_key_submit default_key panel s =
      (record panel { show_success = true }, handle_save_key default_key (trim panel.input_key) s)

  unfoldable pub handle_clear_key :
      (default_key : Text) → SettingsPanel → Interview E R → SettingsPanel × Interview E R
  handle_clear_key default_key panel s =
      (record panel { input_key = [] }, handle_save_key default_key [] s)

  unfoldable pub handle_apply_custom_domain :
      SettingsPanel → Interview E R → SettingsPanel × Interview E R
  handle_apply_custom_domain panel s =
      if truthy (trim panel.custom_domain)
      then (
        record panel { custom_domain = [] },
        select_job (trim panel.custom_domain) s.page.job_level s,
      )
      else (panel, s)

  -- `onTriggerAnalysis` of the page, with the last text of the transcript if there is one.
  unfoldable pub on_trigger_analysis : (angle : Text) → Interview E R → Interview E R
  on_trigger_analysis angle s =
      ask_questions (text_of_item (get_elem? s.page.transcript (length s.page.transcript - 1)))
        angle s

  -- `handleAngleChange`, with the angle of the panel.
  unfoldable pub handle_angle_change : (angle : Text) → Interview E R → Text × Interview E R
  handle_angle_change angle s = (angle, on_trigger_analysis angle s)
