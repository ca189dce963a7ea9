-- ===== src/Alerts.antt =====
-- web/src/app/alerts/page.tsx: the incidents of the alert rules, and the form of a rule. `later` is
-- `>` on the dates, and `trim` and `Number` are parameters.
pub mod LastFired
use meergate.Base.{
  ℕ, String, Bool, true, false, not, ◌&&◌, ◌||◌, Option, none, some, List, [], ◌∷◌, filter, find,
  length, or_else, Dict, lookup, insert, str_eq, string_eq, if◌then◌else◌, ◌==◌, decimal,
}
use meergate.Data.{TestItem}

pub data AlertScope : Type 0 where
  everything test session environment : AlertScope

pub data AlertCondition : Type 0 where
  run_failed pass_rate_below avg_duration_above consecutive_failures schema_drift : AlertCondition

pub record AlertRuleItem : Type 0 where
  pub id : String
  pub name : String
  pub enabled : Bool
  pub scope_type : AlertScope
  pub scope_value : Option String
  pub condition : AlertCondition
  pub threshold : Option ℕ
  pub window_n : ℕ

pub record AlertEventItem : Type 0 where
  pub id : String
  pub rule_id : String
  pub is_critical : Bool
  pub acknowledged : Bool
  pub created_at : String

pub record AlertCounts : Type 0 where
  pub open_count : ℕ
  pub critical : ℕ
  pub active_rules : ℕ
  pub muted_rules : ℕ

unfoldable pub alert_counts : List AlertRuleItem → List AlertEventItem → AlertCounts
alert_counts rules events = record {
  open_count = length (filter (λ e. not e.acknowledged) events);
  critical = length (filter (λ e. not e.acknowledged && e.is_critical) events);
  active_rules = length (filter (λ r. r.enabled) rules);
  muted_rules = length (filter (λ r. not r.enabled) rules);
}

-- `!m[id] || created_at > m[id]`.
abbrev pub replaces : (String → String → Bool) → Option String → String → Bool
replaces later none date = true
replaces later (some known) date = str_eq known "" || later date known

unfoldable pub last_fired :
    (String → String → Bool) → List AlertEventItem → Dict String String → Dict String String
last_fired later [] m = m
last_fired later (e ∷ es) m = last_fired later es (
    if replaces later (lookup e.rule_id m) e.created_at then insert e.rule_id e.created_at m else m)

pub data EventFilter : Type 0 where
  open_events acknowledged_events all_events : EventFilter

unfoldable pub filtered_events : EventFilter → List AlertEventItem → List AlertEventItem
filtered_events open_events events = filter (λ e. not e.acknowledged) events
filtered_events acknowledged_events events = filter (λ e. e.acknowledged) events
filtered_events all_events events = events

pub record RuleForm : Type 0 where
  pub name : String
  pub scope_type : AlertScope
  pub scope_value : String
  pub condition : AlertCondition
  pub threshold : String
  pub window_n : String
  pub enabled : Bool

abbrev pub number_text : Option ℕ → String
number_text none = ""
number_text (some n) = decimal n

unfoldable pub open_rule : Option AlertRuleItem → RuleForm
open_rule none = record {
  name = "";
  scope_type = everything;
  scope_value = "";
  condition = run_failed;
  threshold = "";
  window_n = "20";
  enabled = true;
}
open_rule (some rule) = record {
  name = rule.name;
  scope_type = rule.scope_type;
  scope_value = or_else rule.scope_value "";
  condition = rule.condition;
  threshold = number_text rule.threshold;
  window_n = decimal rule.window_n;
  enabled = rule.enabled;
}

abbrev pub needs_threshold : AlertCondition → Bool
needs_threshold run_failed = false
needs_threshold schema_drift = false
needs_threshold other = true

abbrev pub is_everything : AlertScope → Bool
is_everything everything = true
is_everything other = false

-- The data of a rule that is sent.
pub record AlertRuleData : Type 0 where
  pub name : String
  pub scope_type : AlertScope
  pub scope_value : Option String
  pub condition : AlertCondition
  pub threshold : Option ℕ
  pub window_n : ℕ
  pub enabled : Bool

-- `Number(s) || 20`.
abbrev pub or_twenty : Option ℕ → ℕ
or_twenty none = 20
or_twenty (some n) = if n == 0 then 20 else n

-- `number_of` is none where `Number` is not a number, which is sent as null.
module _ (trim : String → String) (number_of : String → Option ℕ) where
  unfoldable pub can_save : RuleForm → Bool
  can_save f =
      not (str_eq (trim f.name) "")
      && ((is_everything f.scope_type || not (str_eq (trim f.scope_value) ""))
          && (not (needs_threshold f.condition) || not (str_eq (trim f.threshold) "")))

  unfoldable pub submit : RuleForm → Option AlertRuleData
  submit f =
      if not (can_save f)
      then none
      else some (record {
        name = trim f.name;
        scope_type = f.scope_type;
        scope_value = if is_everything f.scope_type then none else some (trim f.scope_value);
        condition = f.condition;
        threshold = if needs_threshold f.condition then number_of f.threshold else none;
        window_n = if needs_threshold f.condition then or_twenty (number_of f.window_n) else 20;
        enabled = f.enabled;
      })
