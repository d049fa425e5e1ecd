-- ===== src/Tests/Engine.antt =====
-- The rule engine.
use pipe_bolt.Prelude.{All, List, [], false, keep, ok, refl, true, ℕ, ◌∷◌, ◌<◌, ◌↔◌, ◌≡◌}
use pipe_bolt.Text.{byte_len, codes, starts_with, str_eq, trim}
use pipe_bolt.Map.{lookup}
use pipe_bolt.Domain.Id.{validate_text}
use pipe_bolt.Domain.Rule.{ConditionExpr, Conditions, RuleDefinition, also, no_more}
use pipe_bolt.Domain.Rule.Validate.{validate_definition}
use pipe_bolt.Domain.Event.{ActionIntent}
use pipe_bolt.Metadata.{validate_action_metadata}
use pipe_bolt.Rules.{
  compile_rules, condition_depth, condition_nodes, default_limits, validate_action,
  validate_condition_groups, validate_rule, validate_rule_condition, with_limits,
}
use pipe_bolt.Rules.Evaluate.{
  action_to_intent, compare_numbers, condition_holds, evaluate, evaluate_condition, evaluate_rules,
  field_value_to_json, push_intents, resolve_field, resolve_optional_value, trigger_matches,
}
use pipe_bolt.Rules.Depth.{HasLevelsBelow, condition_depth_iff}
use pipe_bolt.Rules.Limits.{IsAdmitted, rule_enabled, with_limits-IsAdmitted}
use pipe_bolt.Rules.Negation.{de_morgan, negate_each}
use pipe_bolt.Rules.Outcome.{Evaluated, evaluate-Evaluated}
use pipe_bolt.Tests.Samples.{hotter, numbers, sample_event, sample_rule}

abbrev rules : List (RuleDefinition ℕ)
rules =
    sample_rule "rule-1" true (hotter 40)
    ∷ sample_rule "rule-2" false (hotter 10)
    ∷ sample_rule "rule-3" true (ConditionExpr.not (hotter 40))
    ∷ []

rules_fire :
    evaluate numbers rules sample_event
    ≡ ok (record {
      matched_rules = codes "rule-1" ∷ codes "rule-2" ∷ [];
      intents =
          ActionIntent.add_metadata (codes "evt-test") (codes "severity") (codes "hot")
          ∷ ActionIntent.stream_to_ui (codes "evt-test")
          ∷ ActionIntent.add_metadata (codes "evt-test") (codes "severity") (codes "hot")
          ∷ ActionIntent.stream_to_ui (codes "evt-test")
          ∷ [];
    })
unfolding evaluate evaluate_rules trigger_matches condition_holds evaluate_condition compare_numbers
    resolve_optional_value resolve_field field_value_to_json lookup str_eq push_intents
    action_to_intent
rules_fire = refl

abbrev engine : List (RuleDefinition ℕ)
engine =
    sample_rule "rule-1" true (hotter 40)
    ∷ sample_rule "rule-3" true (ConditionExpr.not (hotter 40))
    ∷ []

engine_built : with_limits rules default_limits ≡ ok engine
unfolding with_limits compile_rules validate_rule validate_rule_condition validate_condition_groups
    condition_depth condition_nodes validate_action validate_action_metadata validate_definition
    validate_text byte_len trim starts_with
engine_built = refl

with_limits-IsAdmitted_example :
    (engine ≡ keep rule_enabled rules) × All (IsAdmitted default_limits) engine
with_limits-IsAdmitted_example = with_limits-IsAdmitted rules engine default_limits engine_built

evaluate-Evaluated_example :
    Evaluated numbers sample_event
      (record { matched_rules = []; intents = [] })
      rules
      (evaluate numbers rules sample_event)
evaluate-Evaluated_example = evaluate-Evaluated numbers sample_event rules

abbrev group : Conditions ℕ
group = also (hotter 40) (also (hotter 50) no_more)

de_morgan_example :
    (evaluate_condition numbers
        (codes "rule-1")
        (ConditionExpr.not (ConditionExpr.and group))
        sample_event
      ≡ evaluate_condition numbers
          (codes "rule-1")
          (ConditionExpr.or (negate_each group))
          sample_event)
    × (evaluate_condition numbers
          (codes "rule-1")
          (ConditionExpr.not (ConditionExpr.or group))
          sample_event
        ≡ evaluate_condition numbers
            (codes "rule-1")
            (ConditionExpr.and (negate_each group))
            sample_event)
de_morgan_example = de_morgan numbers (codes "rule-1") sample_event group

-- The group has two levels.
condition_depth_iff_example :
    HasLevelsBelow 1 (ConditionExpr.and group) ↔ (1 < condition_depth (ConditionExpr.and group))
condition_depth_iff_example = condition_depth_iff 1 (ConditionExpr.and group)
