-- ===== src/Domain/Rule.antt =====
-- crates/pipe-bolt-domain/src/rule.rs and action.rs: rules and the actions that they name.
pub mod Validate
use mathlib.Core.Option.{Option}
use pipe_bolt.Prelude.{Bool, List}
use pipe_bolt.Text.{Str}
use pipe_bolt.Json.{Value}
use pipe_bolt.Map.{BTreeMap}
use pipe_bolt.Domain.Id.{FieldPath, Identifier}

pub data RuleTrigger : Type 0 where
  event_received : RuleTrigger
  route_matched : Identifier → RuleTrigger
  command_requested : Identifier → RuleTrigger

pub data FieldRef : Type 0 where
  event : FieldPath → FieldRef
  payload : FieldPath → FieldRef
  extracted : Str → FieldRef
  device_id event_type topic : FieldRef

pub data ValueExpr (N : Type 0) : Type 0 where
  field : FieldRef → ValueExpr N
  literal : Value N → ValueExpr N

mutual
  pub data ConditionExpr (N : Type 0) : Type 0 where
    exists : FieldRef → ConditionExpr N
    equals : ValueExpr N → ValueExpr N → ConditionExpr N
    not_equals : ValueExpr N → ValueExpr N → ConditionExpr N
    greater_than : ValueExpr N → ValueExpr N → ConditionExpr N
    greater_than_or_equal : ValueExpr N → ValueExpr N → ConditionExpr N
    less_than : ValueExpr N → ValueExpr N → ConditionExpr N
    less_than_or_equal : ValueExpr N → ValueExpr N → ConditionExpr N
    contains_value : ValueExpr N → ValueExpr N → ConditionExpr N
    and : Conditions N → ConditionExpr N
    or : Conditions N → ConditionExpr N
    not : ConditionExpr N → ConditionExpr N

  pub data Conditions (N : Type 0) : Type 0 where
    no_more : Conditions N
    also : ConditionExpr N → Conditions N → Conditions N

pub data ActionIntentTemplate (N : Type 0) : Type 0 where
  stream_to_ui : ActionIntentTemplate N
  forward_to_sink : Identifier → ActionIntentTemplate N
  execute_command : Identifier → BTreeMap (Value N) → ActionIntentTemplate N
  drop_event : ActionIntentTemplate N
  add_metadata : Str → Str → ActionIntentTemplate N

pub record RuleDefinition (N : Type 0) : Type 0 where
  pub id : Identifier
  pub name : Str
  pub enabled : Bool
  pub trigger : RuleTrigger
  pub condition : Option (ConditionExpr N)
  pub actions : List (ActionIntentTemplate N)
