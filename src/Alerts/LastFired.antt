-- ===== src/Alerts/LastFired.antt =====
-- web/src/app/alerts/page.tsx: the time at which a rule last fired.
use meergate.Base.{
  ◌≡◌, refl, ap, sym, ◌∙◌, arith, inl, inr, String, Bool, true, false, Option, none, some, List, [],
  ◌∷◌, All, lookup, insert, lookup-insert, Dict, str_eq, string_eq, eq_iff, if◌then◌else◌,
  Bool-cases, IsTotal, IfKnown, not,
}
use meergate.Alerts.{AlertEventItem, last_fired, replaces}

-- The specification, on the dates of one rule: the latest, from one that is known on.
abbrev pub latest : (String → String → Bool) → List String → Option String → Option String
latest later [] known = known
latest later (date ∷ dates) known =
    latest later dates (if replaces later known date then some date else known)

abbrev pub dates_of : String → List AlertEventItem → List String
dates_of rule [] = []
dates_of rule (e ∷ es) =
    if str_eq e.rule_id rule then e.created_at ∷ dates_of rule es else dates_of rule es

-- What one event makes of the date of a rule.
step-last_fired :
    (later : String → String → Bool) (rule : String) (e : AlertEventItem) (m : Dict String String)
    → lookup rule (
        if replaces later (lookup e.rule_id m) e.created_at
        then insert e.rule_id e.created_at m
        else m)
      ≡ (if str_eq e.rule_id rule
          then if replaces later (lookup rule m) e.created_at
            then some e.created_at
            else lookup rule m
          else lookup rule m)
step-last_fired later rule e m =
    elim (Bool-cases (replaces later (lookup e.rule_id m) e.created_at)) [
      | inl k ↦ elim (Bool-cases (str_eq e.rule_id rule)) [
        | inl h ↦
            rw (k, lookup-insert e.rule_id rule e.created_at m, h)
              (rw (rw ((eq_iff e.rule_id rule).0 h) at k) refl)
        | inr h ↦ rw (k, lookup-insert e.rule_id rule e.created_at m, h) refl
      ]
      | inr k ↦ elim (Bool-cases (str_eq e.rule_id rule)) [
        | inl h ↦ rw (k, h) (rw (rw ((eq_iff e.rule_id rule).0 h) at k) refl)
        | inr h ↦ rw (k, h) refl
      ]
    ]

lookup-last_fired :
    (later : String → String → Bool) (rule : String) (events : List AlertEventItem)
    (m : Dict String String)
    → lookup rule (last_fired later events m) ≡ latest later (dates_of rule events) (lookup rule m)
unfolding last_fired
lookup-last_fired later rule [] m = refl
lookup-last_fired later rule (e ∷ es) m =
    lookup-last_fired later rule es _
    ∙ (ap (latest later (dates_of rule es)) (step-last_fired later rule e m)
        ∙ dates-step (str_eq e.rule_id rule))
  where
    dates-step :
        (b : Bool)
        → latest later (dates_of rule es) (
            if b
            then if replaces later (lookup rule m) e.created_at
              then some e.created_at
              else lookup rule m
            else lookup rule m)
          ≡ latest later
              (if b then e.created_at ∷ dates_of rule es else dates_of rule es)
              (lookup rule m)
    dates-step true = refl
    dates-step false = refl

module _ (later : String → String → Bool) (t : IsTotal (λ a b. not (later a b))) where
  not_later : (a b : String) → later a b ≡ true → later b a ≡ false
  not_later a b h = ground (arith, t.total a b)

  later_trans : (a b c : String) → later a b ≡ false → later b c ≡ false → later a c ≡ false
  later_trans a b c h k = ground (arith, t.trans a b c)

  later_irrefl : (a : String) → later a a ≡ false
  later_irrefl a = ground (arith, t.total a a)

  -- No date is later than the latest, nor is the known one.
  latest-bound :
      (dates : List String) (known : Option String) (r : String)
      → All (λ d. str_eq d "" ≡ false) dates
      → IfKnown (λ k. str_eq k "" ≡ false) known
      → latest later dates known ≡ some r
      → All (λ d. later d r ≡ false) dates × IfKnown (λ k. later k r ≡ false) known
  latest-bound [] none r h q e = cc
  latest-bound [] (some k) r h q e = let same : k ≡ r = cc e in (tt, rw same (later_irrefl r))
  latest-bound (d ∷ ds) none r h q e =
      let rest = latest-bound ds (some d) r h.1 h.0 e in ((rest.1, rest.0), tt)
  latest-bound (d ∷ ds) (some k) r h q e = elim (Bool-cases (later d k)) [
    | inl b ↦
        let rest = latest-bound ds (some d) r h.1 h.0 (rw (q, b) at e) in
        ((rest.1, rest.0), later_trans k d r (not_later d k b) rest.1)
    | inr b ↦
        let rest = latest-bound ds (some k) r h.1 q (rw (q, b) at e) in
        ((later_trans d k r b rest.1, rest.0), rest.1)
  ]

  -- No incident of a rule is later than the time that is shown for it, where dates are not empty
  -- and not being later is a total order.
  pub last_fired-latest :
      (rule : String) (events : List AlertEventItem) (r : String)
      → All (λ d. str_eq d "" ≡ false) (dates_of rule events)
      → lookup rule (last_fired later events []) ≡ some r
      → All (λ d. later d r ≡ false) (dates_of rule events)
  unfolding lookup
  last_fired-latest rule events r h e =
      (latest-bound (dates_of rule events) none r h tt
        (sym (lookup-last_fired later rule events []) ∙ e)).0
