-- ===== src/Utils.antt =====
-- web/src/lib/utils.ts: `exportCSV`, `formatDuration` and `getStatusColor`. Of an export the text of
-- the file is modelled, not the download.
pub mod Reader
pub mod Csv
use Prim.Native.Char.{Char, code}
use meergate.Base.{
  ℕ, String, join, decimal, Option, none, some, List, [], ◌∷◌, map, ◌==◌, ltb, str_eq,
  if◌then◌else◌,
}

-- `v.replace(/"/g, '""')`.
abbrev pub double_quotes : String → String
double_quotes String.[] = ""
double_quotes (String.◌∷◌ c s) =
    let rest = double_quotes s in
    if code c == b'"' then String.◌∷◌ c (String.◌∷◌ c rest) else String.◌∷◌ c rest

unfoldable pub escape : String → String
escape v = join "\"" (join (double_quotes v) "\"")

-- `texts.join(separator)`.
abbrev pub join_with : String → List String → String
join_with separator [] = ""
join_with separator (s ∷ []) = s
join_with separator (s ∷ t ∷ ts) = join s (join separator (join_with separator (t ∷ ts)))

unfoldable pub csv_line : List String → String
unfolding escape
csv_line row = join_with "," (map escape row)

-- What `exportCSV` writes to the file.
unfoldable pub export_csv : List String → List (List String) → String
unfolding csv_line
export_csv headers rows = join_with "\n" (map csv_line (headers ∷ rows))

-- `to_fixed` is `(ms / 1000).toFixed(1)`.
unfoldable pub format_duration : (ℕ → String) → Option ℕ → String
format_duration to_fixed none = "-"
format_duration to_fixed (some ms) =
    if ltb ms 1000 then join (decimal ms) "ms" else join (to_fixed ms) "s"

unfoldable pub get_status_color : String → String
get_status_color status =
    if str_eq status "passed"
    then "bg-emerald-100 text-emerald-800"
    else if str_eq status "failed"
    then "bg-red-100 text-red-800"
    else if str_eq status "error"
    then "bg-orange-100 text-orange-800"
    else if str_eq status "running"
    then "bg-blue-100 text-blue-800"
    else if str_eq status "pending"
    then "bg-slate-100 text-slate-600"
    else if str_eq status "skipped"
    then "bg-yellow-100 text-yellow-700"
    else "bg-slate-100 text-slate-600"
