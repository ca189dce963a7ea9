-- ===== src/Utils/Reader.antt =====
-- A reader of CSV after RFC 4180, as the specification of what is exported: fields with commas
-- between them in lines, in which a field in quotes has every quote twice.
use Prim.Native.Char.{Char, code}
use meergate.Base.{ℕ, String, List, [], ◌∷◌, ◌==◌, if◌then◌else◌}

-- Where the reader is: at the start of a field, in one without quotes, in one with quotes, and
-- after a quote in it.
pub data ReadMode : Type 0 where
  start plain quoted closed : ReadMode

-- The rows that follow, with the field that is read at their front.
abbrev pub push : Char → List (List String) → List (List String)
push c [] = (String.◌∷◌ c "" ∷ []) ∷ []
push c ([] ∷ rows) = (String.◌∷◌ c "" ∷ []) ∷ rows
push c ((f ∷ fs) ∷ rows) = (String.◌∷◌ c f ∷ fs) ∷ rows

abbrev pub new_field : List (List String) → List (List String)
new_field [] = ("" ∷ []) ∷ []
new_field (fs ∷ rows) = ("" ∷ fs) ∷ rows

abbrev pub new_row : List (List String) → List (List String)
new_row rows = ("" ∷ []) ∷ rows

abbrev pub separate : ℕ → Char → List (List String) → List (List String)
separate n c rows =
    if n == b',' then new_field rows else if n == b'\n' then new_row rows else push c rows

abbrev pub after_separator : ℕ → ReadMode
after_separator n = if n == b',' then start else if n == b'\n' then start else plain

abbrev pub next_mode : ReadMode → ℕ → ReadMode
next_mode start n = if n == b'"' then quoted else after_separator n
next_mode plain n = after_separator n
next_mode quoted n = if n == b'"' then closed else quoted
next_mode closed n = if n == b'"' then quoted else after_separator n

-- What a character adds in front of the rows that follow it.
abbrev pub put : ReadMode → Char → List (List String) → List (List String)
put start c rows = if code c == b'"' then rows else separate (code c) c rows
put plain c rows = separate (code c) c rows
put quoted c rows = if code c == b'"' then rows else push c rows
put closed c rows = if code c == b'"' then push c rows else separate (code c) c rows

unfoldable pub read : ReadMode → String → List (List String)
read mode String.[] = ("" ∷ []) ∷ []
read mode (String.◌∷◌ c s) = put mode c (read (next_mode mode (code c)) s)

unfoldable pub read_csv : String → List (List String)
read_csv s = read start s
