-- ===== src/CatalogSteps/Defaults.antt =====
-- The default message of web/src/lib/catalog-to-step.ts, field by field.
use meergate.Base.{
  String, ◌≡◌, refl, Option, none, some, List, [], ◌∷◌, ◌∙◌, ap, inl, inr, Bool-cases,
  if◌then◌else◌, str_eq, Bool, true, false, arith, not, ◌&&◌, ◌||◌, eq_iff,
}
use meergate.Builder.Mapping.{Json, Fields, plain, text, tree, end, get, set}
use meergate.Builder.Mapping.Paths.{get-set}
use meergate.CatalogSteps.{ProtoField, default_value, default_message}

abbrev last_of : String → ProtoField → Option ProtoField → Option ProtoField
last_of k f (some g) = some g
last_of k f none = if str_eq f.name k then some f else none

-- The last field of a name.
unfoldable pub last_named : String → List ProtoField → Option ProtoField
last_named k [] = none
last_named k (f ∷ fs) = last_of k f (last_named k fs)

module _ {A : Type 0} (no : A) where
  -- The specification: the value of one field by its type, and a list for a repeated field of any
  -- other type.
  abbrev pub blank_of : String → Json A
  blank_of t =
      if str_eq t "message" then tree false end else if str_eq t "bool" then plain no else text ""

  abbrev pub has_own_blank : String → Bool
  has_own_blank t = str_eq t "bool" || str_eq t "message" || str_eq t "string"

  abbrev pub expected_default : String → Bool → Json A
  expected_default t repeated =
      if repeated && not (has_own_blank t) then tree true end else blank_of t

  abbrev pub default_of : Option ProtoField → Option (Json A) → Option (Json A)
  default_of none otherwise = otherwise
  default_of (some f) otherwise = some (expected_default f.field_type f.repeated)

  field_of : String → Bool → ProtoField
  field_of t repeated = record { name = ""; field_type = t; repeated = repeated }

  expected_at :
      (t u : String) (repeated : Bool)
      → str_eq t u ≡ true
      → default_value no (field_of u repeated) ≡ expected_default u repeated
      → default_value no (field_of t repeated) ≡ expected_default t repeated
  expected_at t u repeated same h = rw ((eq_iff t u).0 same) h

  default_value_lem :
      (t : String) (repeated : Bool)
      → default_value no (field_of t repeated) ≡ expected_default t repeated
  unfolding field_of
  default_value_lem t repeated = elim (Bool-cases (str_eq t "string")) [
    | inl s ↦ expected_at t "string" repeated s (ground arith)
    | inr s ↦ elim (Bool-cases (str_eq t "bool")) [
      | inl b ↦ expected_at t "bool" repeated b (ground arith)
      | inr b ↦ elim (Bool-cases (str_eq t "message")) [
        | inl m ↦ expected_at t "message" repeated m (ground arith)
        | inr m ↦ rw (s, b, m) (ground arith)
      ]
    ]
  ]

  default_of-last_of :
      (k : String) (f : ProtoField) (o : Option ProtoField) (x : Option (Json A))
      → default_of o (if str_eq f.name k then some (default_value no f) else x)
        ≡ default_of (last_of k f o) x
  unfolding field_of
  default_of-last_of k f (some g) x = refl
  default_of-last_of k f none x = elim (Bool-cases (str_eq f.name k)) [
    | inl h ↦ rw h (ap some (default_value_lem f.field_type f.repeated))
    | inr h ↦ rw h refl
  ]

  -- Each key of the default message has the default of the last field of that name, which is false
  -- for a Boolean, an empty object for a message, an empty list for a repeated field of another type
  -- than these and texts, and else an empty text; a key that is the name of no field has what it
  -- had.
  pub get-default_message :
      (k : String) (fs : List ProtoField) (message : Fields A)
      → get k (default_message no fs message) ≡ default_of (last_named k fs) (get k message)
  unfolding default_message last_named
  get-default_message k [] message = refl
  get-default_message k (f ∷ fs) message =
      get-default_message k fs (set f.name (default_value no f) message)
      ∙ ap (default_of (last_named k fs)) (get-set f.name k (default_value no f) message)
      ∙ default_of-last_of k f (last_named k fs) (get k message)
