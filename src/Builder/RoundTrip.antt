-- ===== src/Builder/RoundTrip.antt =====
-- web/src/app/builder/page.tsx: what of a node is left after it is written to a manifest and read
-- again.
use meergate.Base.{
  ℕ, ◌≡◌, refl, ap, ◌∙◌, String, Bool, true, false, ◌&&◌, Option, none, some, List, [], ◌∷◌, map,
  any, if◌then◌else◌, Bool-cases, inl, inr, arith, or_else, Dict, lookup, lookup-insert, string_eq,
  str_eq, eq_iff,
}
use meergate.Builder.{
  Assertion, Node, Edge, pick, node_of_step, step_of_node, is_written, load_assertion, unless_empty,
  put_if,
}

abbrev pub is_key : String → List String → Bool
is_key k ks = any (λ j. str_eq j k) ks

-- The specification: the fields that a step of a type has, and those of them that are objects.
abbrev pub fields_of_type : String → List String
fields_of_type t =
    if str_eq t "apiCall"
    then "method" ∷ "path" ∷ "baseUrl" ∷ "signed" ∷ "body" ∷ "headers" ∷ []
    else if str_eq t "grpcCall"
    then "service" ∷ "rpcMethod" ∷ "protoFile" ∷ "message" ∷ []
    else if str_eq t "wsSubscribe"
    then "channel" ∷ "waitMs" ∷ []
    else if str_eq t "waitUntil"
    then "waitMs" ∷ []
    else if str_eq t "browserAction"
    then "action" ∷ "url" ∷ "selector" ∷ "value" ∷ "screenshotName" ∷ []
    else []

abbrev pub object_fields : List String
object_fields = "body" ∷ "headers" ∷ "message" ∷ []

or_else-unless_empty {ℓ} : {A : Type ℓ} (xs : List A) → or_else (unless_empty xs) [] ≡ xs
or_else-unless_empty [] = refl
or_else-unless_empty (x ∷ xs) = refl

module _ {V : Type 0} where
  -- A value that passes a test.
  abbrev pub keep : (V → Bool) → Option V → Option V
  keep test none = none
  keep test (some v) = if test v then some v else none

  abbrev first : Option V → Option V → Option V
  first none o = o
  first (some v) o = some v

  abbrev picked : (String → V → Bool) → String → List String → Dict String V → Option V → Option V
  picked test k ks fields before =
      if is_key k ks then first (keep (test k) (lookup k fields)) before else before

  lookup-put_if :
      (test : String → V → Bool) (k j : String) (o : Option V) (acc : Dict String V)
      → lookup k (put_if test j o acc)
        ≡ (if str_eq j k then first (keep (test j) o) (lookup k acc) else lookup k acc)
  lookup-put_if test k j none acc = ground arith
  lookup-put_if test k j (some v) acc = ground (arith, lookup-insert j k v acc)

  first_twice :
      (b : Bool) (c o : Option V) → (if b then first c (first c o) else first c o) ≡ first c o
  first_twice true none o = refl
  first_twice true (some v) o = refl
  first_twice false c o = refl

  first-none : (c : Option V) → first c none ≡ c
  first-none none = refl
  first-none (some v) = refl

  lookup-pick :
      (test : String → V → Bool) (k : String) (ks : List String) (fields acc : Dict String V)
      → lookup k (pick test ks fields acc) ≡ picked test k ks fields (lookup k acc)
  unfolding pick
  lookup-pick test k [] fields acc = refl
  lookup-pick test k (j ∷ ks) fields acc =
      let rest = lookup-pick test k ks fields (put_if test j (lookup j fields) acc) in
      let here = lookup-put_if test k j (lookup j fields) acc in
      rest ∙ elim (Bool-cases (str_eq j k)) [
        | inl e ↦
            let same = (eq_iff j k).0 e in
            let kept = ap (λ x. keep (test x) (lookup x fields)) same in
            rw (here, e, kept)
              (first_twice (is_key k ks) (keep (test k) (lookup k fields)) (lookup k acc))
        | inr e ↦ rw (here, e) refl
      ]

  -- From no fields at all.
  lookup-picked :
      (test : String → V → Bool) (k : String) (ks : List String) (fields : Dict String V)
      → lookup k (pick test ks fields [])
        ≡ (if is_key k ks then keep (test k) (lookup k fields) else none)
  unfolding lookup
  lookup-picked test k ks fields =
      lookup-pick test k ks fields []
      ∙ ap (λ o. if is_key k ks then o else none) (first-none (keep (test k) (lookup k fields)))

  -- What is left of an assertion: its type, or the default one, its path and its expected value.
  abbrev pub IsReduced : Assertion V → Assertion V → Type 0
  IsReduced a b =
      (b.assertion_type ≡ some (or_else a.assertion_type "statusCode"))
      × (b.path ≡ a.path)
      × (b.expected ≡ a.expected)
      × (b.schema ≡ none)
      × (b.ignore ≡ none)
      × (b.tolerance ≡ none)

  -- One list has what is left of the other, one by one.
  pub AllReduced : List (Assertion V) → List (Assertion V) → Type 0
  AllReduced [] [] = Unit
  AllReduced [] (b ∷ bs) = ⊥
  AllReduced (a ∷ as') [] = ⊥
  AllReduced (a ∷ as') (b ∷ bs) = IsReduced a b × AllReduced as' bs

  load_assertion-AllReduced : (as' : List (Assertion V)) → AllReduced as' (map load_assertion as')
  unfolding AllReduced load_assertion
  load_assertion-AllReduced [] = tt
  load_assertion-AllReduced (a ∷ as') =
      ((refl, refl, refl, refl, refl, refl), load_assertion-AllReduced as')

  module _ (truthy : V → Bool) (has_keys : V → Bool) where
    -- A value is left if it is truthy and, of an object field, not empty.
    abbrev pub survives : String → V → Bool
    survives k v = if is_key k object_fields then truthy v && has_keys v else truthy v

    keep-written :
        (k : String) (b : Bool) (o : Option V)
        → (if b
            then keep truthy (if b then keep (is_written truthy has_keys k) o else none)
            else none)
          ≡ (if b then keep (survives k) o else none)
    keep-written k false o = refl
    keep-written k true none = refl
    keep-written k true (some v) = ground (
      arith,
      eq_iff k "body",
      eq_iff "body" k,
      eq_iff k "headers",
      eq_iff "headers" k,
      eq_iff k "message",
      eq_iff "message" k,
    )

    -- A node that is written to a manifest and read again keeps its name, its type, its
    -- extractions, and those fields of its configuration that a step of its type has and whose
    -- values are truthy and, for an object field, not empty; its other fields are gone. Of an
    -- assertion its type, path and expected value are kept only.
    pub node_of_step-step_of_node :
        (nodes : List (Node V)) (edges : List Edge) (i : ℕ) (n : Node V) (k : String)
        → let back = (node_of_step truthy i (step_of_node truthy has_keys nodes edges n)).data' in
          (back.name ≡ n.data'.name)
          × (back.step_type ≡ n.data'.step_type)
          × (back.extract ≡ n.data'.extract)
          × AllReduced n.data'.assertions back.assertions
          × (lookup k back.config ≡ (
              if is_key k (fields_of_type n.data'.step_type)
              then keep (survives k) (lookup k n.data'.config)
              else none))
    unfolding node_of_step step_of_node
    node_of_step-step_of_node nodes edges i n k =
        let ks = fields_of_type n.data'.step_type in
        let written = is_written truthy has_keys in
        (
          refl,
          refl,
          or_else-unless_empty n.data'.extract,
          rw (or_else-unless_empty n.data'.assertions)
              (load_assertion-AllReduced n.data'.assertions),
          lookup-picked (λ j v. truthy v) k ks (pick written ks n.data'.config [])
              ∙ ap (λ o. if is_key k ks then keep truthy o else none)
                  (lookup-picked written k ks n.data'.config)
              ∙ keep-written k (is_key k ks) (lookup k n.data'.config),
        )
