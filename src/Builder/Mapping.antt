-- ===== src/Builder/Mapping.antt =====
-- web/src/app/builder/page.tsx and web/src/components/builder/connection-mapper-dialog.tsx: the
-- mapping of extracted values to the fields of a message. An object is its own fields in order;
-- those it inherits are left out. A path is split at its dots, and so it has a first part.
pub mod Paths
use Prim.Native.Char.{Char, code}
use meergate.Base.{
  ℕ, zero, suc, String, join, Bool, true, false, not, ◌&&◌, Option, none, some, List, [], ◌∷◌, ◌++◌,
  ◌==◌, any, if◌then◌else◌, str_eq,
}

-- A value of JSON: a text, another value that is no object, or an object, which may be an array.
mutual
  pub data Json (A : Type 0) : Type 0 where
    plain : A → Json A
    text : String → Json A
    tree : Bool → Fields A → Json A

  pub data Fields (A : Type 0) : Type 0 where
    end : Fields A
    field : String → Json A → Fields A → Fields A

pub record Mapping : Type 0 where
  pub source_key : String
  pub target_field : String

abbrev pub split_at : ℕ → Char → String × List String → String × List String
split_at dot c (first, rest) =
    if code c == dot then ("", first ∷ rest) else (String.◌∷◌ c first, rest)

-- `path.split('.')`.
unfoldable pub split_dots : String → String × List String
split_dots String.[] = ("", [])
split_dots (String.◌∷◌ c s) = split_at b'.' c (split_dots s)

-- `{{extract.key}}`.
abbrev pub placeholder : String → String
placeholder key = join "{{extract." (join key "}}")

module _ {A : Type 0} where
  unfoldable pub get : String → Fields A → Option (Json A)
  get k end = none
  get k (field j v fs) = if str_eq j k then some v else get k fs

  unfoldable pub set : String → Json A → Fields A → Fields A
  set k v end = field k v end
  set k v (field j w fs) = if str_eq j k then field j v fs else field j w (set k v fs)

  -- The object at a key, or a new one where there is none.
  abbrev pub child : Option (Json A) → Bool × Fields A
  child (some (tree is_array fs)) = (is_array, fs)
  child (some (plain x)) = (false, end)
  child (some (text s)) = (false, end)
  child none = (false, end)

  unfoldable pub set_parts : String → List String → String → Fields A → Fields A
  unfolding get set
  set_parts k [] value fs = set k (text value) fs
  set_parts k (j ∷ js) value fs =
      set k (tree (child (get k fs)).0 (set_parts j js value (child (get k fs)).1)) fs

  unfoldable pub set_nested_value : String → String → Fields A → Fields A
  unfolding split_dots set_parts
  set_nested_value path value fs = set_parts (split_dots path).0 (split_dots path).1 value fs

  unfoldable pub set_mappings : List Mapping → Fields A → Fields A
  unfolding set_nested_value
  set_mappings [] fs = fs
  set_mappings (m ∷ ms) fs =
      set_mappings ms (set_nested_value m.target_field (placeholder m.source_key) fs)

  -- What stands at a path.
  unfoldable pub get_parts : String → List String → Fields A → Option (Json A)
  unfolding get
  get_parts k [] fs = get k fs
  get_parts k (j ∷ js) fs = get_parts j js (child (get k fs)).1

  abbrev pub get_path : String → Fields A → Option (Json A)
  get_path path fs = get_parts (split_dots path).0 (split_dots path).1 fs

-- The dialog: its mappings and the two values that are selected.
pub record Dialog : Type 0 where
  pub mappings : List Mapping
  pub selected_source : String
  pub selected_target : String

abbrev pub has_target : String → List Mapping → Bool
has_target t ms = any (λ m. str_eq m.target_field t) ms

abbrev pub initial_dialog : Dialog
initial_dialog = record { mappings = []; selected_source = ""; selected_target = "" }

unfoldable pub add_mapping : Dialog → Dialog
add_mapping d =
    if str_eq d.selected_source ""
    then d
    else if str_eq d.selected_target ""
    then d
    else if has_target d.selected_target d.mappings
    then d
    else record {
      mappings =
          d.mappings
          ++ record { source_key = d.selected_source; target_field = d.selected_target } ∷ [];
      selected_source = "";
      selected_target = "";
    }

abbrev pub without {ℓ} : {B : Type ℓ} → ℕ → List B → List B
without i [] = []
without zero (x ∷ xs) = xs
without (suc i) (x ∷ xs) = x ∷ without i xs

abbrev pub remove_mapping : ℕ → Dialog → Dialog
remove_mapping i d = record d { mappings = without i d.mappings }
