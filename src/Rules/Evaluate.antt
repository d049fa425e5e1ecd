-- ===== src/Rules/Evaluate.antt =====
-- The evaluation of rules: crates/pipe-bolt-core/src/rule/rules.rs.
use pipe_bolt.Prelude.{
  Bool, List, Option, Result, String, [], err, false, if◌then◌else◌, none, not, ok, some, true,
  ◌++◌, ◌>>=◌, ◌||◌, ◌∷◌,
}
use pipe_bolt.Text.{Str, codes, contains_str, str_eq}
use pipe_bolt.Json.{JsonLib, Value, Values, cons, get_json_path, nil, value_eq}
use pipe_bolt.Map.{lookup}
use pipe_bolt.Domain.Id.{Identifier, segments}
use pipe_bolt.Domain.Rule.{
  ActionIntentTemplate, ConditionExpr, Conditions, FieldRef, RuleDefinition, RuleTrigger, ValueExpr,
  also, command_requested, contains_value, equals, event_received, exists, field, greater_than,
  greater_than_or_equal, less_than, less_than_or_equal, literal, no_more, not_equals, route_matched,
}
use pipe_bolt.Domain.Event.{
  ActionIntent, DecodedPayload, FieldValue, NormalizedEvent, event_field, json_payload, raw_payload,
}
use pipe_bolt.Error.{MqttEngineError, non_numeric_comparison, rule_error}

abbrev pub option_map : {A B : Type 0} → (A → B) → Option A → Option B
option_map f none = none
option_map f (some a) = some (f a)

abbrev pub value_or_null : {N : Type 0} → Option (Value N) → Value N
value_or_null none = Value.null
value_or_null (some v) = v

module _ (J : JsonLib) where
  open J use {Number, F64, as_f64, number_eq, gt, ge, lt, le, from_u64}

  abbrev Event : Type 0
  Event = NormalizedEvent Number

  unfoldable pub field_value_to_json : FieldValue Number → Value Number
  field_value_to_json FieldValue.null = Value.null
  field_value_to_json (FieldValue.bool b) = Value.bool b
  field_value_to_json (FieldValue.number n) = Value.number n
  field_value_to_json (FieldValue.string s) = Value.string s
  field_value_to_json (FieldValue.object ms) = Value.object ms
  field_value_to_json (FieldValue.array vs) = Value.array vs

  abbrev is_key : Str → String → Bool
  is_key segment name = str_eq segment (codes name)

  -- The paths of one segment.
  unfoldable pub resolve_event_field : Event → Str → Option (Value Number)
  resolve_event_field event name =
      if is_key name "id"
      then some (Value.string event.id)
      else if is_key name "correlation_id"
      then some (Value.string event.correlation_id)
      else if is_key name "project_id"
      then some (Value.string event.project_id)
      else if is_key name "broker_id"
      then some (Value.string event.broker_id)
      else if is_key name "route_id"
      then some (Value.string event.route_id)
      else if is_key name "schema_mapping_id"
      then option_map Value.string event.schema_mapping_id
      else if is_key name "topic"
      then some (Value.string event.topic)
      else if is_key name "device_id"
      then option_map Value.string event.device_id
      else if is_key name "event_type"
      then some (Value.string event.event_type)
      else if is_key name "payload_size_bytes"
      then some (Value.number (from_u64 event.payload_size_bytes))
      else none

  unfoldable pub resolve_event_path : Event → List Str → Option (Value Number)
  unfolding resolve_event_field field_value_to_json
  resolve_event_path event (name ∷ []) = resolve_event_field event name
  resolve_event_path event (name ∷ key ∷ []) =
      if is_key name "metadata"
      then option_map Value.string (lookup key event.metadata)
      else if is_key name "fields"
      then option_map field_value_to_json (event_field event key)
      else none
  resolve_event_path event _ = none

  abbrev payload_path : DecodedPayload Number → List Str → Option (Value Number)
  payload_path (json_payload value) path = get_json_path value path
  payload_path (raw_payload bytes) path = none

  unfoldable pub resolve_field : FieldRef → Event → Option (Value Number)
  unfolding resolve_event_path segments
  resolve_field (FieldRef.extracted name) event =
      option_map field_value_to_json (event_field event name)
  resolve_field FieldRef.device_id event = option_map Value.string event.device_id
  resolve_field FieldRef.event_type event = some (Value.string event.event_type)
  resolve_field FieldRef.topic event = some (Value.string event.topic)
  resolve_field (FieldRef.payload path) event = payload_path event.payload (segments path)
  resolve_field (FieldRef.event path) event = resolve_event_path event (segments path)

  unfoldable pub resolve_optional_value : ValueExpr Number → Event → Option (Value Number)
  resolve_optional_value (literal value) event = some value
  resolve_optional_value (field f) event = resolve_field f event

  unfoldable pub resolve_value : ValueExpr Number → Event → Value Number
  resolve_value value event = value_or_null (resolve_optional_value value event)

  abbrev holds_value : Values Number → Value Number → Bool
  holds_value nil right = false
  holds_value (cons v vs) right = value_eq number_eq v right || holds_value vs right

  unfoldable pub value_contains : Value Number → Value Number → Bool
  value_contains (Value.string left) (Value.string right) = contains_str right left
  value_contains (Value.array left) right = holds_value left right
  value_contains _ _ = false

  -- `Value::as_f64`
  abbrev value_as_f64 : Value Number → Option F64
  value_as_f64 (Value.number n) = as_f64 n
  value_as_f64 _ = none

  abbrev compare_f64 :
      Identifier → (F64 → F64 → Bool) → Option F64 → Option F64 → Result MqttEngineError Bool
  compare_f64 id compare none right = err (rule_error (non_numeric_comparison id))
  compare_f64 id compare (some l) none = err (rule_error (non_numeric_comparison id))
  compare_f64 id compare (some l) (some r) = ok (compare l r)

  abbrev compare_values :
      Identifier
      → (F64 → F64 → Bool)
      → Option (Value Number)
      → Option (Value Number)
      → Result MqttEngineError Bool
  compare_values id compare none right = ok false
  compare_values id compare (some l) none = ok false
  compare_values id compare (some l) (some r) =
      compare_f64 id compare (value_as_f64 l) (value_as_f64 r)

  unfoldable pub compare_numbers :
      Identifier
      → ValueExpr Number
      → ValueExpr Number
      → Event
      → (F64 → F64 → Bool)
      → Result MqttEngineError Bool
  compare_numbers id left right event compare =
      compare_values id compare (resolve_optional_value left event)
        (resolve_optional_value right event)

  abbrev is_some : Option (Value Number) → Bool
  is_some none = false
  is_some (some v) = true

  unfoldable mutual
    pub evaluate_condition : Identifier → ConditionExpr Number → Event → Result MqttEngineError Bool
    evaluate_condition id (exists f) event = ok (is_some (resolve_field f event))
    evaluate_condition id (equals l r) event =
        ok (value_eq number_eq (resolve_value l event) (resolve_value r event))
    evaluate_condition id (not_equals l r) event =
        ok (not (value_eq number_eq (resolve_value l event) (resolve_value r event)))
    evaluate_condition id (greater_than l r) event = compare_numbers id l r event gt
    evaluate_condition id (greater_than_or_equal l r) event = compare_numbers id l r event ge
    evaluate_condition id (less_than l r) event = compare_numbers id l r event lt
    evaluate_condition id (less_than_or_equal l r) event = compare_numbers id l r event le
    evaluate_condition id (contains_value l r) event =
        ok (value_contains (resolve_value l event) (resolve_value r event))
    evaluate_condition id (ConditionExpr.and cs) event = evaluate_all id cs event
    evaluate_condition id (ConditionExpr.or cs) event = evaluate_any id cs event
    evaluate_condition id (ConditionExpr.not c) event =
        evaluate_condition id c event >>= λ b. ok (not b)

    -- The loop of `And`: it stops at the first condition that is false or fails.
    pub evaluate_all : Identifier → Conditions Number → Event → Result MqttEngineError Bool
    evaluate_all id no_more event = ok true
    evaluate_all id (also c cs) event = evaluate_condition id c event >>= λ b. elim b [
      | true ↦ evaluate_all id cs event
      | false ↦ ok false
    ]

    -- The loop of `Or`: it stops at the first condition that is true or fails.
    pub evaluate_any : Identifier → Conditions Number → Event → Result MqttEngineError Bool
    evaluate_any id no_more event = ok false
    evaluate_any id (also c cs) event = evaluate_condition id c event >>= λ b. elim b [
      | true ↦ ok true
      | false ↦ evaluate_any id cs event
    ]

  unfoldable pub trigger_matches : RuleTrigger → Event → Bool
  trigger_matches event_received event = true
  trigger_matches (route_matched route_id) event = str_eq route_id event.route_id
  trigger_matches (command_requested template_id) event = false

  unfoldable pub action_to_intent :
      RuleDefinition Number
      → ActionIntentTemplate Number
      → Event
      → Result MqttEngineError (ActionIntent Number)
  action_to_intent rule ActionIntentTemplate.stream_to_ui event =
      ok (ActionIntent.stream_to_ui event.id)
  action_to_intent rule ActionIntentTemplate.drop_event event =
      ok (ActionIntent.drop_event event.id (some (codes "matched rule " ++ rule.id)))
  action_to_intent rule (ActionIntentTemplate.add_metadata key value) event =
      ok (ActionIntent.add_metadata event.id key value)
  action_to_intent rule (ActionIntentTemplate.forward_to_sink sink_id) event =
      ok (ActionIntent.forward_to_sink event.id sink_id none)
  action_to_intent rule (ActionIntentTemplate.execute_command template_id params) event =
      ok (ActionIntent.execute_command event.id template_id params event.correlation_id)

  pub record RuleEvaluation : Type 0 where
    pub matched_rules : List Identifier
    pub intents : List (ActionIntent Number)

  -- The loop over the actions of a rule that matched.
  unfoldable pub push_intents :
      RuleDefinition Number
      → Event
      → List (ActionIntentTemplate Number)
      → List (ActionIntent Number)
      → Result MqttEngineError (List (ActionIntent Number))
  push_intents rule event [] intents = ok intents
  push_intents rule event (action ∷ actions) intents = do
    intent ← action_to_intent rule action event
    push_intents rule event actions (intents ++ intent ∷ [])

  unfoldable pub condition_holds :
      RuleDefinition Number → Event → Option (ConditionExpr Number) → Result MqttEngineError Bool
  condition_holds rule event none = ok true
  condition_holds rule event (some c) = evaluate_condition rule.id c event

  -- The loop of `RuleEngine::evaluate`.
  unfoldable pub evaluate_rules :
      Event → List (RuleDefinition Number) → RuleEvaluation → Result MqttEngineError RuleEvaluation
  evaluate_rules event [] acc = ok acc
  evaluate_rules event (rule ∷ rules) acc = elim (trigger_matches rule.trigger event) [
    | false ↦ evaluate_rules event rules acc
    | true ↦ condition_holds rule event rule.condition >>= λ matched. elim matched [
      | false ↦ evaluate_rules event rules acc
      | true ↦ push_intents rule event rule.actions acc.intents >>= λ intents.
          evaluate_rules event rules
            (record { matched_rules = acc.matched_rules ++ rule.id ∷ []; intents = intents })
    ]
  ]

  -- `RuleEngine::evaluate`
  unfoldable pub evaluate :
      List (RuleDefinition Number) → Event → Result MqttEngineError RuleEvaluation
  evaluate rules event = evaluate_rules event rules (record { matched_rules = []; intents = [] })
