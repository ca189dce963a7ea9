-- ===== src/Analytics/Export.antt =====
-- web/src/app/analytics/page.tsx: the exported file.
use meergate.Base.{ℕ, ◌≡◌, String, List, [], ◌∷◌, map, All}
use meergate.Data.{RunItem}
use meergate.Analytics.{csv_headers, csv_row, filtered_runs, handle_export}
use meergate.Utils.Reader.{read_csv}
use meergate.Utils.Csv.{IsFilled, read_csv-export_csv}

rows-IsFilled : (runs : List RunItem) → All IsFilled (map csv_row runs)
rows-IsFilled [] = tt
rows-IsFilled (r ∷ rs) = (tt, rows-IsFilled rs)

-- The exported file has, read as CSV, the headers and one row for each run of the period.
pub read_csv-handle_export :
    (now : ℕ) (time_of : String → ℕ) (period : ℕ) (runs : List RunItem)
    → read_csv (handle_export now time_of period runs)
      ≡ csv_headers ∷ map csv_row (filtered_runs now time_of period runs)
unfolding handle_export
read_csv-handle_export now time_of period runs =
    read_csv-export_csv csv_headers (map csv_row (filtered_runs now time_of period runs)) tt
      (rows-IsFilled (filtered_runs now time_of period runs))
