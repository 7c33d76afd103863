-- ===== src/Seeding/Sources.antt =====
-- The public sources of names and resumes. A request of one loop is never made twice, so that a
-- function of its address answers it.
pub mod Paging
use cvranking.Prelude.{
  true, false, ℕ, zero, suc, ◌+◌, ◌*◌, ◌-◌, ◌/◌, min, Bool, not, Option, none, some, List, [], ◌∷◌,
  ◌++◌, map, take, flat_map, length, ltb, ◌==◌, if◌then◌else◌, coalesce,
}
use cvranking.Js.Decimal.{decimal}
use cvranking.Js.Text.{Text, units, join}
use cvranking.Js.Number.Random.{random_below}
use cvranking.Host.{Fetched, unreachable, answered}
use cvranking.Host.Action.{Thrown, error, Result, ok, throw}
use cvranking.Rerank.Providers.{is_ok_status}
use cvranking.Seeding.Resume.{Entry, derive_category_from_instruction}
use cvranking.Seeding.Shuffle.{shuffle_in_place}

-- The fields that the sources read of a row of a dataset.
pub record Row : Type 0 where
  pub resume_str : Option Text
  pub category : Option Text
  pub resume_html : Option Text
  pub resume : Option Text
  pub resume_test : Option Text
  pub instruction : Option Text

pub record ResumeSource : Type 0 where
  pub dataset : Text
  pub pick : Row → Entry

unfoldable pub resume_sources : List ResumeSource
resume_sources =
    (record {
      dataset = units "opensporks/resumes";
      pick =
          λ row. record { text = row.resume_str; category = row.category; html = row.resume_html };
    })
    ∷ (record {
      dataset = units "brackozi/Resume";
      pick = λ row. record { text = row.resume; category = row.category; html = none };
    })
    ∷ (record {
      dataset = units "InferencePrince555/Resume-Dataset";
      pick = λ row. record {
        text = row.resume_test;
        category = some (derive_category_from_instruction (coalesce row.instruction []));
        html = none;
      };
    })
    ∷ []

-- What the dataset server answers about one dataset: the number of its rows, where `none` is no
-- whole number, and the rows of a page, which may be missing. `random` is one call of `Math.random`.
pub record Dataset : Type 0 where
  pub size : Fetched (Option ℕ)
  pub page : (offset length : ℕ) → Fetched (Option (List Row))
  pub random : ℕ

-- A request that fails, with the message of a status that is not ok, or the value of the body.
unfoldable pub body_of : {A : Type 0} → (json_error : Text → Text) → Text → Fetched A → Result A
body_of json_error failed (unreachable message) = throw (error message)
body_of json_error failed (answered status body none) =
    if is_ok_status status
    then throw (error (json_error body))
    else throw (error (failed ++ decimal status))
body_of json_error failed (answered status body (some value)) =
    if is_ok_status status then ok value else throw (error (failed ++ decimal status))

unfoldable pub positive_rows : Result (Option ℕ) → Result ℕ
positive_rows (throw e) = throw e
positive_rows (ok (some (suc n))) = ok (suc n)
positive_rows (ok _) = throw (error (units "dataset size response did not include num_rows"))

module _ (json_error : Text → Text) where
  unfoldable pub fetch_dataset_row_count : Dataset → Result ℕ
  fetch_dataset_row_count d =
      positive_rows (body_of json_error (units "dataset size lookup failed: HTTP ") d.size)

  unfoldable pub page_rows : ResumeSource → Fetched (Option (List Row)) → Result (List Row)
  page_rows source answer =
      elim (body_of json_error (source.dataset ++ units " request failed: HTTP ") answer) [
        | throw e ↦ throw e
        | ok rows ↦ ok (coalesce rows [])
      ]

  -- The loop, with the rows so far. On no fuel it is still running, which is `none`.
  unfoldable pub fetch_pages :
      ResumeSource
      → Dataset
      → (fuel wanted start cursor : ℕ) → List Entry
      → Option (Result (List Entry))
  fetch_pages source d zero wanted start cursor rows = none
  fetch_pages source d (suc fuel) wanted start cursor rows = elim (ltb (length rows) wanted) [
    | false ↦ some (ok rows)
    | true ↦ elim (page_rows source (d.page (start + cursor) (min 100 (wanted - length rows)))) [
      | throw e ↦ some (throw e)
      | ok [] ↦ some (ok rows)
      | ok (row ∷ more) ↦
          fetch_pages source d fuel wanted start (cursor + 100)
            (rows ++ map source.pick (row ∷ more))
    ]
  ]

  -- Fuel for one page more than rows.
  unfoldable pub fetch_taken :
      ResumeSource → Dataset → (count row_count : ℕ) → Option (Result (List Entry))
  fetch_taken source d count row_count =
      let wanted = min count row_count in
      let start = random_below d.random (row_count - wanted + 1) in
      fetch_pages source d (suc wanted) wanted start 0 []

  unfoldable pub fetch_rows_from_source : ResumeSource → Dataset → ℕ → Option (Result (List Entry))
  fetch_rows_from_source source d count = elim (fetch_dataset_row_count d) [
    | throw e ↦ some (throw e)
    | ok row_count ↦ fetch_taken source d count row_count
  ]
