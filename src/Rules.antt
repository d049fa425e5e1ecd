-- ===== src/Rules.antt =====
-- crates/pipe-bolt-core/src/rule/rules.rs: the rule engine.
pub mod Depth
pub mod Evaluate
pub mod Events
pub mod Limits
pub mod Negation
pub mod Outcome
use pipe_bolt.Prelude.{
  Bool, List, Result, [], false, for_each, is_empty, length, ltb, map_err, max, ok, reject_if, true,
  ℕ, ◌++◌, ◌+◌, ◌>>=◌, ◌>>◌, ◌∷◌,
}
use pipe_bolt.Domain.Error.{Check, for_some}
use pipe_bolt.Domain.Id.{Identifier}
use pipe_bolt.Domain.Rule.{
  ActionIntentTemplate, ConditionExpr, Conditions, RuleDefinition, RuleTrigger, also,
  command_requested, no_more,
}
use pipe_bolt.Domain.Rule.Validate.{validate_definition}
use pipe_bolt.Error.{
  MqttEngineError, RuleError, condition_too_deep, condition_too_large, domain,
  empty_condition_group, invalid_rule, invalid_rule_metadata_key, rule_error,
  rule_metadata_value_too_large, too_many_actions, unsupported_trigger,
}
use pipe_bolt.Metadata.{
  ActionMetadataLimits, MetadataValidationError, invalid_key, validate_action_metadata,
  value_too_large,
}

pub record RuleEngineLimits : Type 0 where
  pub max_condition_depth : ℕ
  pub max_condition_nodes : ℕ
  pub max_actions_per_rule : ℕ
  pub max_metadata_key_bytes : ℕ
  pub max_metadata_value_bytes : ℕ

abbrev pub default_limits : RuleEngineLimits
default_limits = record {
  max_condition_depth = 16;
  max_condition_nodes = 256;
  max_actions_per_rule = 16;
  max_metadata_key_bytes = 128;
  max_metadata_value_bytes = 1024;
}

-- `RuleEngineLimits::metadata_limits`
abbrev pub metadata_limits : RuleEngineLimits → ActionMetadataLimits
metadata_limits l = record {
  max_key_bytes = l.max_metadata_key_bytes;
  max_value_bytes = l.max_metadata_value_bytes;
}

abbrev pub reject_rule : Bool → RuleError → Check MqttEngineError
reject_rule bad e = reject_if bad (rule_error e)

-- The error that `validate_metadata_action` makes of a rejected entry.
abbrev pub metadata_error : Identifier → MetadataValidationError → MqttEngineError
metadata_error id (invalid_key reason) = rule_error (invalid_rule_metadata_key id reason)
metadata_error id (value_too_large actual limit) =
    rule_error (rule_metadata_value_too_large id actual limit)

abbrev pub is_command_requested : RuleTrigger → Bool
is_command_requested (command_requested id) = true
is_command_requested _ = false

module _ {N : Type 0} where
  unfoldable mutual
    pub condition_depth : ConditionExpr N → ℕ
    condition_depth (ConditionExpr.and cs) = deepest cs + 1
    condition_depth (ConditionExpr.or cs) = deepest cs + 1
    condition_depth (ConditionExpr.not c) = condition_depth c + 1
    condition_depth _ = 1

    -- `.map(condition_depth).max().unwrap_or(0)`
    pub deepest : Conditions N → ℕ
    deepest no_more = 0
    deepest (also c cs) = max (condition_depth c) (deepest cs)

  unfoldable mutual
    pub condition_nodes : ConditionExpr N → ℕ
    condition_nodes (ConditionExpr.and cs) = total_nodes cs + 1
    condition_nodes (ConditionExpr.or cs) = total_nodes cs + 1
    condition_nodes (ConditionExpr.not c) = condition_nodes c + 1
    condition_nodes _ = 1

    -- `.map(condition_nodes).sum()`
    pub total_nodes : Conditions N → ℕ
    total_nodes no_more = 0
    total_nodes (also c cs) = condition_nodes c + total_nodes cs

  abbrev pub is_no_more : Conditions N → Bool
  is_no_more no_more = true
  is_no_more (also c cs) = false

  module _ (rule_id : Identifier) where
    unfoldable mutual
      pub validate_condition_groups : ConditionExpr N → Check MqttEngineError
      validate_condition_groups (ConditionExpr.and cs) =
          reject_rule (is_no_more cs) (empty_condition_group rule_id "and") >>= λ _.
          validate_groups cs
      validate_condition_groups (ConditionExpr.or cs) =
          reject_rule (is_no_more cs) (empty_condition_group rule_id "or") >>= λ _.
          validate_groups cs
      validate_condition_groups (ConditionExpr.not c) = validate_condition_groups c
      validate_condition_groups _ = ok tt

      pub validate_groups : Conditions N → Check MqttEngineError
      validate_groups no_more = ok tt
      validate_groups (also c cs) = validate_condition_groups c >>= λ _. validate_groups cs

  -- `validate_action`, with `validate_metadata_action`
  unfoldable pub validate_action :
      Identifier → RuleEngineLimits → ActionIntentTemplate N → Check MqttEngineError
  validate_action id limits (ActionIntentTemplate.add_metadata key value) =
      map_err (metadata_error id) (validate_action_metadata key value (metadata_limits limits))
  validate_action id limits _ = ok tt

  unfoldable pub validate_rule_condition :
      Identifier → RuleEngineLimits → ConditionExpr N → Check MqttEngineError
  validate_rule_condition id limits c = do
    validate_condition_groups id c
    reject_rule (ltb limits.max_condition_depth (condition_depth c))
        (condition_too_deep id (condition_depth c) limits.max_condition_depth)
    reject_rule (ltb limits.max_condition_nodes (condition_nodes c))
        (condition_too_large id (condition_nodes c) limits.max_condition_nodes)

  unfoldable pub validate_rule : RuleDefinition N → RuleEngineLimits → Check MqttEngineError
  validate_rule rule limits = do
    reject_rule (is_command_requested rule.trigger)
        (unsupported_trigger rule.id "command_requested")
    reject_rule (is_empty rule.actions)
        (invalid_rule rule.id "rule must define at least one action")
    reject_rule (ltb limits.max_actions_per_rule (length rule.actions))
        (too_many_actions rule.id (length rule.actions) limits.max_actions_per_rule)
    for_each (validate_action rule.id limits) rule.actions
    for_some (validate_rule_condition rule.id limits) rule.condition
    map_err domain (validate_definition rule)

  -- The loop of `RuleEngine::with_limits`: the rules compiled and the rules left. A compiled rule
  -- holds the rule alone.
  unfoldable pub compile_rules :
      RuleEngineLimits
      → List (RuleDefinition N)
      → List (RuleDefinition N)
      → Result MqttEngineError (List (RuleDefinition N))
  compile_rules limits compiled [] = ok compiled
  compile_rules limits compiled (rule ∷ rules) = elim rule.enabled [
    | false ↦ compile_rules limits compiled rules
    | true ↦ do validate_rule rule limits; compile_rules limits (compiled ++ rule ∷ []) rules
  ]

  -- `RuleEngine::with_limits`
  unfoldable pub with_limits :
      List (RuleDefinition N) → RuleEngineLimits → Result MqttEngineError (List (RuleDefinition N))
  with_limits rules limits = compile_rules limits [] rules
