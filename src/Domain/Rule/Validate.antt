-- ===== src/Domain/Rule/Validate.antt =====
-- `RuleDefinition::validate` of crates/pipe-bolt-domain/src/rule.rs.
use pipe_bolt.Prelude.{Bool, false, for_each, is_empty, ok, reject_if, true, ◌>>=◌, ◌>>◌}
use pipe_bolt.Map.{keys}
use pipe_bolt.Domain.Error.{Check, DomainError, for_some, invalid_field_path}
use pipe_bolt.Domain.Id.{validate_text}
use pipe_bolt.Domain.Rule.{
  ActionIntentTemplate, ConditionExpr, Conditions, FieldRef, RuleDefinition, ValueExpr,
  add_metadata, and, also, or, contains_value, equals, execute_command, exists, extracted, field,
  greater_than, greater_than_or_equal, less_than, less_than_or_equal, literal, no_more, not_equals,
}

unfoldable pub validate_field_ref : FieldRef → Check DomainError
validate_field_ref (extracted name) = validate_text "extracted_field_name" name 160
validate_field_ref _ = ok tt

module _ {N : Type 0} where
  unfoldable pub validate_value_expr : ValueExpr N → Check DomainError
  unfolding validate_field_ref
  validate_value_expr (field f) = validate_field_ref f
  validate_value_expr (literal v) = ok tt

  validate_operands : ValueExpr N → ValueExpr N → Check DomainError
  unfolding validate_value_expr
  validate_operands left right = do validate_value_expr left; validate_value_expr right

  is_no_more : Conditions N → Bool
  is_no_more no_more = true
  is_no_more (also c cs) = false

  unfoldable mutual
    unfolding validate_operands validate_field_ref is_no_more

    pub validate_condition : ConditionExpr N → Check DomainError
    validate_condition (exists f) = validate_field_ref f
    validate_condition (equals l r) = validate_operands l r
    validate_condition (not_equals l r) = validate_operands l r
    validate_condition (greater_than l r) = validate_operands l r
    validate_condition (greater_than_or_equal l r) = validate_operands l r
    validate_condition (less_than l r) = validate_operands l r
    validate_condition (less_than_or_equal l r) = validate_operands l r
    validate_condition (contains_value l r) = validate_operands l r
    validate_condition (and cs) =
        reject_if (is_no_more cs) (invalid_field_path "condition group must not be empty") >>= λ _.
        validate_conditions cs
    validate_condition (or cs) =
        reject_if (is_no_more cs) (invalid_field_path "condition group must not be empty") >>= λ _.
        validate_conditions cs
    validate_condition (ConditionExpr.not c) = validate_condition c

    pub validate_conditions : Conditions N → Check DomainError
    validate_conditions no_more = ok tt
    validate_conditions (also c cs) = validate_condition c >>= λ _. validate_conditions cs

  unfoldable pub validate_action_template : ActionIntentTemplate N → Check DomainError
  validate_action_template (add_metadata key value) = do
    validate_text "metadata_key" key 128
    validate_text "metadata_value" value 1024
  validate_action_template (execute_command id params) =
      for_each (λ key. validate_text "command_param_name" key 160) (keys params)
  validate_action_template _ = ok tt

  -- `RuleDefinition::validate`
  unfoldable pub validate_definition : RuleDefinition N → Check DomainError
  unfolding validate_condition validate_action_template
  validate_definition rule = do
    validate_text "rule_name" rule.name 160
    reject_if (is_empty rule.actions) (invalid_field_path "rule must define at least one action")
    for_some validate_condition rule.condition
    for_each validate_action_template rule.actions
