-- ===== src/Utils/Csv.antt =====
-- web/src/lib/utils.ts: what `exportCSV` writes is read back as the headers and the rows.
use Prim.Native.Char.{Char, code}
use text.Mathlib.TextLemmas.{append-nil, append_assoc, nil-append, cons-append}
use meergate.Base.{
  ◌≡◌, refl, ap, ◌∙◌, sym, inl, inr, String, join, List, [], ◌∷◌, map, ◌==◌, Bool-cases, All,
}
use meergate.Utils.{double_quotes, escape, join_with, csv_line, export_csv}
use meergate.Utils.Reader.{read, read_csv, push, start, quoted, closed, new_field, new_row}

-- A text in front of the field that is read.
abbrev push_all : String → List (List String) → List (List String)
push_all String.[] rows = rows
push_all (String.◌∷◌ c s) rows = push c (push_all s rows)

push_all-field :
    (s f : String) (fs : List String) (rows : List (List String))
    → push_all s ((f ∷ fs) ∷ rows) ≡ (join s f ∷ fs) ∷ rows
push_all-field String.[] f fs rows = rw (nil-append f) refl
push_all-field (String.◌∷◌ c s) f fs rows = rw (cons-append c s f, push_all-field s f fs rows) refl

char-append : (c : Char) (s : String) → join (String.◌∷◌ c "") s ≡ String.◌∷◌ c s
char-append c s = rw (cons-append c "" s, nil-append s) refl

-- In quotes, an escaped text is read up to its last quote.
read-double_quotes :
    (s rest : String)
    → read quoted (join (double_quotes s) (String.◌∷◌ "\"" rest)) ≡ push_all s (read closed rest)
unfolding read
read-double_quotes String.[] rest = rw (nil-append (String.◌∷◌ "\"" rest)) refl
read-double_quotes (String.◌∷◌ c s) rest = elim (Bool-cases (code c == b'"')) [
  | inl h ↦
      rw
        (
          h,
          cons-append c (String.◌∷◌ c (double_quotes s)) (String.◌∷◌ "\"" rest),
          cons-append c (double_quotes s) (String.◌∷◌ "\"" rest),
        )
        (rw (h, h) (ap (push c) (read-double_quotes s rest)))
  | inr h ↦
      rw (h, cons-append c (double_quotes s) (String.◌∷◌ "\"" rest))
        (rw h (ap (push c) (read-double_quotes s rest)))
]

escape_then :
    (s rest : String)
    → join (escape s) rest ≡ String.◌∷◌ "\"" (join (double_quotes s) (String.◌∷◌ "\"" rest))
unfolding escape
escape_then s rest =
    rw
      (
        append_assoc "\"" (join (double_quotes s) "\"") rest,
        append_assoc (double_quotes s) "\"" rest,
        char-append "\"" rest,
        char-append "\"" (join (double_quotes s) (String.◌∷◌ "\"" rest)),
      )
      refl

read-escape : (s rest : String) → read start (join (escape s) rest) ≡ push_all s (read closed rest)
unfolding read
read-escape s rest = rw (escape_then s rest) (read-double_quotes s rest)

read-comma : (s : String) → read closed (String.◌∷◌ "," s) ≡ new_field (read start s)
unfolding read
read-comma s = refl

read-line_break : (s : String) → read closed (String.◌∷◌ "\n" s) ≡ new_row (read start s)
unfolding read
read-line_break s = refl

read_nothing : read closed "" ≡ ("" ∷ []) ∷ []
unfolding read
read_nothing = refl

read-csv_line :
    (f : String) (fs : List String) (rest : String) (rows : List (List String))
    → read closed rest ≡ ("" ∷ []) ∷ rows
    → read start (join (csv_line (f ∷ fs)) rest) ≡ (f ∷ fs) ∷ rows
unfolding csv_line
read-csv_line f [] rest rows h =
    rw (read-escape f rest, h, push_all-field f "" [] rows, append-nil f) refl
read-csv_line f (g ∷ fs) rest rows h =
    let line = csv_line (g ∷ fs) in
    rw
      (
        append_assoc (escape f) (join "," line) rest,
        append_assoc "," line rest,
        char-append "," (join line rest),
        read-escape f (String.◌∷◌ "," (join line rest)),
        read-comma (join line rest),
        read-csv_line g fs rest rows h,
        push_all-field f "" (g ∷ fs) rows,
        append-nil f,
      )
      refl

-- A row with a field.
abbrev pub IsFilled : List String → Type 0
IsFilled [] = ⊥
IsFilled (f ∷ fs) = Unit

read-lines :
    (row : List String) (rows : List (List String))
    → IsFilled row
    → All IsFilled rows
    → read start (join_with "\n" (map csv_line (row ∷ rows))) ≡ row ∷ rows
read-lines [] rows h k = elim h [ ]
read-lines (f ∷ fs) [] h k =
    rw (sym (append-nil (csv_line (f ∷ fs)))) (read-csv_line f fs "" [] read_nothing)
read-lines (f ∷ fs) (next ∷ rows) h k =
    let rest = join_with "\n" (map csv_line (next ∷ rows)) in
    rw (char-append "\n" rest) (
      read-csv_line f fs (String.◌∷◌ "\n" rest) (next ∷ rows)
        (read-line_break rest ∙ ap new_row (read-lines next rows k.0 k.1)))

-- Reading an exported file gives the headers and the rows, whatever characters the fields have.
pub read_csv-export_csv :
    (headers : List String) (rows : List (List String))
    → IsFilled headers
    → All IsFilled rows
    → read_csv (export_csv headers rows) ≡ headers ∷ rows
unfolding read_csv export_csv
read_csv-export_csv headers rows h k = read-lines headers rows h k
