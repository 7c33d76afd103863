-- ===== src/Seeding/Sources/Paging.antt =====
-- The loop of `fetchRowsFromSource` comes to an end, and takes no more rows than it wants.
use cvranking.Prelude.{
  ℕ, zero, suc, ◌+◌, ◌-◌, ◌≤◌, ◌<◌, min, ◌≡◌, refl, ap, ◌∙◌, ◌⊎◌, Bool-cases, inl, inr, Option,
  some, List, [], ◌∷◌, ◌++◌, map, length, length-map, length-append, ltb, ltb→lt, arith,
}
use cvranking.Js.Text.{Text}
use cvranking.Js.Number.Random.{random_below}
use cvranking.Host.Action.{Thrown, Result, ok, throw}
use cvranking.Seeding.Resume.{Entry}
use cvranking.Seeding.Sources.{
  ResumeSource, Dataset, page_rows, fetch_pages, fetch_taken, fetch_dataset_row_count,
  fetch_rows_from_source,
}

pub Result-cases :
    {A : Type 0} (r : Result A) → ((a : A) × (r ≡ ok a)) ⊎ ((e : Thrown) × (r ≡ throw e))
Result-cases (ok a) = inl (a, refl)
Result-cases (throw e) = inr (e, refl)

-- At most so many rows.
abbrev pub AtMost : {A : Type 0} → ℕ → Result (List A) → Type 0
AtMost n (ok rows) = length rows ≤ n
AtMost n (throw e) = Unit

module _ (json_error : Text → Text) where
  -- The dataset server gives no more rows than a request asks for.
  abbrev pub KeepsLimit : ResumeSource → Dataset → Type 0
  KeepsLimit source d =
      (offset asked : ℕ) → AtMost asked (page_rows json_error source (d.page offset asked))

  -- The loop has returned or thrown, and what it returns is not too much.
  pub record Ends (limit : ℕ) (result : Option (Result (List Entry))) : Type 0 where
    pub outcome : Result (List Entry)
    pub ended : result ≡ some outcome
    pub bounded : AtMost limit outcome

  fetch_pages-Ends :
      (source : ResumeSource) (d : Dataset) (fuel wanted start cursor : ℕ) (rows : List Entry)
      → KeepsLimit source d
      → wanted < fuel + length rows
      → length rows ≤ wanted
      → Ends wanted (fetch_pages json_error source d fuel wanted start cursor rows)
  unfolding fetch_pages
  fetch_pages-Ends source d zero wanted start cursor rows k h few = absurd (omega (arith, h, few))
  fetch_pages-Ends source d (suc fuel) wanted start cursor rows k h few =
      elim (Bool-cases (ltb (length rows) wanted)) [
        | inr full ↦
            rw (full, fetch_pages) (record { outcome = ok rows; ended = refl; bounded = few })
        | inl less ↦
            let asked = min 100 (wanted - length rows) in
            let kept = k (start + cursor) asked in
            elim (Result-cases (page_rows json_error source (d.page (start + cursor) asked))) [
              | inr (e, f) ↦
                  rw (less, f, fetch_pages)
                    (record { outcome = throw e; ended = refl; bounded = tt })
              | inl ([], f) ↦
                  rw (less, f, fetch_pages)
                    (record { outcome = ok rows; ended = refl; bounded = few })
              | inl (row ∷ more, f) ↦
                  let asked_for : length (row ∷ more) ≤ asked = rw f at kept in
                  let longer : length (rows ++ map source.pick (row ∷ more))
                      ≡ length rows + suc (length more) =
                    length-append rows _
                    ∙ ap (λ n. length rows + suc n) (length-map source.pick more) in
                  rw (less, f, fetch_pages)
                    (fetch_pages-Ends source d fuel wanted start (cursor + 100) _ k
                      (omega (arith, h, longer))
                      (omega (arith, longer, asked_for, ltb→lt (length rows) wanted less)))
            ]
      ]

  AtMost-le : (m n : ℕ) (r : Result (List Entry)) → m ≤ n → AtMost m r → AtMost n r
  AtMost-le m n (ok rows) h k = omega (arith, h, k)
  AtMost-le m n (throw e) h k = tt

  -- Each page that is not empty brings the end nearer, whatever its size.
  fetch_pages-ends :
      (source : ResumeSource) (d : Dataset) (fuel wanted start cursor : ℕ) (rows : List Entry)
      → wanted < fuel + length rows
      → 0 < fuel
      → (outcome : Result (List Entry)) × (fetch_pages json_error source d fuel wanted start cursor
            rows
          ≡ some outcome)
  unfolding fetch_pages
  fetch_pages-ends source d zero wanted start cursor rows h p = absurd (omega (arith, p))
  fetch_pages-ends source d (suc fuel) wanted start cursor rows h p =
      elim (Bool-cases (ltb (length rows) wanted)) [
        | inr full ↦ rw (full, fetch_pages) (ok rows, refl)
        | inl less ↦
            let asked = min 100 (wanted - length rows) in
            elim (Result-cases (page_rows json_error source (d.page (start + cursor) asked))) [
              | inr (e, f) ↦ rw (less, f, fetch_pages) (throw e, refl)
              | inl ([], f) ↦ rw (less, f, fetch_pages) (ok rows, refl)
              | inl (row ∷ more, f) ↦
                  let longer : length (rows ++ map source.pick (row ∷ more))
                      ≡ length rows + suc (length more) =
                    length-append rows _
                    ∙ ap (λ n. length rows + suc n) (length-map source.pick more) in
                  let before = ltb→lt (length rows) wanted less in
                  rw (less, f, fetch_pages)
                    (fetch_pages-ends source d fuel wanted start (cursor + 100) _
                      (omega (arith, h, longer)) (omega (arith, h, before)))
            ]
      ]

  -- Whatever the dataset server answers, the fetch returns or throws: its loop is never still running.
  pub fetch_rows_from_source-ends :
      (source : ResumeSource) (d : Dataset) (count : ℕ)
      → (outcome : Result (List Entry)) × (fetch_rows_from_source json_error source d count
          ≡ some outcome)
  unfolding fetch_rows_from_source fetch_taken
  fetch_rows_from_source-ends source d count =
      elim (Result-cases (fetch_dataset_row_count json_error d)) [
        | inr (e, f) ↦ rw (f, fetch_rows_from_source) (throw e, refl)
        | inl (row_count, f) ↦
            rw (f, fetch_rows_from_source)
              (fetch_pages-ends source d (suc (min count row_count)) (min count row_count)
                (random_below d.random (row_count - min count row_count + 1)) 0 [] (omega arith)
                (omega arith))
      ]

  -- Where the dataset server gives no more rows than each request asks for, the fetch throws or returns
  -- no more rows than were asked for.
  pub fetch_rows_from_source-AtMost :
      (source : ResumeSource) (d : Dataset) (count : ℕ)
      → KeepsLimit source d
      → Ends count (fetch_rows_from_source json_error source d count)
  unfolding fetch_rows_from_source fetch_taken
  fetch_rows_from_source-AtMost source d count k =
      elim (Result-cases (fetch_dataset_row_count json_error d)) [
        | inr (e, f) ↦
            rw (f, fetch_rows_from_source)
              (record { outcome = throw e; ended = refl; bounded = tt })
        | inl (row_count, f) ↦
            let start = random_below d.random (row_count - min count row_count + 1) in
            let ends =
              fetch_pages-Ends source d (suc (min count row_count)) (min count row_count) start 0 []
                k (omega arith) (omega arith) in
            rw (f, fetch_rows_from_source)
              (record {
                outcome = ends.outcome;
                ended = ends.ended;
                bounded =
                    AtMost-le (min count row_count) count ends.outcome (omega arith) ends.bounded;
              })
      ]
