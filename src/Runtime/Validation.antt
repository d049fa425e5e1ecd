-- ===== src/Runtime/Validation.antt =====
-- The checks that a project passes before its runtime starts:
-- crates/pipe-bolt-daemon/src/runtime.rs. A set of ids is the list of them.
use pipe_bolt.Prelude.{
  Bool, List, Option, Result, String, [], any, err, false, find, for_each, if◌then◌else◌, keep,
  length, map, map_err, none, not, ok, reject_if, some, suc, true, zero, ℕ, ◌+◌, ◌==◌, ◌>>=◌, ◌>>◌,
  ◌∷◌,
}
use pipe_bolt.Text.{Str, codes, str_eq}
use pipe_bolt.Domain.Error.{Check}
use pipe_bolt.Domain.Id.{Identifier}
use pipe_bolt.Domain.Config.{
  BackpressurePolicy, BrokerConnectionConfig, CommandTemplate, PayloadSchemaMapping, SinkDefinition,
  SinkKind, TopicRouteConfig, block_producer, database, drop_newest, drop_oldest, reject, webhook,
}
use pipe_bolt.Domain.Rule.{ActionIntentTemplate, RuleDefinition, execute_command, forward_to_sink}
use pipe_bolt.Domain.Rule.Validate.{validate_definition}
use pipe_bolt.Domain.Project.{ProjectConfig, validate_project}
use pipe_bolt.Runtime.{
  RuntimeError, command_template_references_unavailable_broker, domain_error, duplicate_id,
  multiple_enabled_brokers_unsupported, no_enabled_broker, no_enabled_routes_for_broker,
  project_disabled, route_references_unavailable_broker, route_references_unknown_schema_mapping,
  rule_references_disabled_command_template, rule_references_disabled_sink,
  rule_references_unknown_command_template, rule_references_unknown_sink,
  rule_references_unsupported_sink, unsupported_backpressure_policy,
}

abbrev pub backpressure_policy_name : BackpressurePolicy → String
backpressure_policy_name drop_newest = "drop_newest"
backpressure_policy_name drop_oldest = "drop_oldest"
backpressure_policy_name reject = "reject"
backpressure_policy_name block_producer = "block_producer"

abbrev pub is_reject : BackpressurePolicy → Bool
is_reject reject = true
is_reject _ = false

-- `contains` of a set of ids
abbrev pub contains_id : List Identifier → Identifier → Bool
contains_id ids id = any (λ seen. str_eq seen id) ids

-- `insert_unique_id`
abbrev pub insert_unique_id :
    List Identifier → Identifier → String → Result RuntimeError (List Identifier)
insert_unique_id seen id collection =
    if contains_id seen id then err (duplicate_id collection id) else ok (id ∷ seen)

module _ {A : Type 0} (check : A → Check RuntimeError) (id_of : A → Identifier)
    (collection : String) where
  -- A loop of `validate_unique_ids`, at the ids that it has seen.
  unfoldable pub insert_each : List Identifier → List A → Check RuntimeError
  insert_each seen [] = ok tt
  insert_each seen (x ∷ xs) = check x >>= λ _.
      (insert_unique_id seen (id_of x) collection >>= λ now_seen. insert_each now_seen xs)

abbrev pub no_check : {A : Type 0} → A → Check RuntimeError
no_check x = ok tt

-- The loop of `validate_routes`, at the number of routes that it has passed.
unfoldable pub count_checked :
    {A : Type 0} → (A → Check RuntimeError) → ℕ → List A → Result RuntimeError ℕ
count_checked check n [] = ok n
count_checked check n (x ∷ xs) = check x >>= λ _. count_checked check (n + 1) xs

abbrev pub allow_single : ℕ → Check RuntimeError
allow_single zero = err no_enabled_broker
allow_single (suc zero) = ok tt
allow_single (suc (suc n)) = err (multiple_enabled_brokers_unsupported (suc (suc n)))

abbrev pub first_id : List Identifier → Str
first_id [] = codes "<none>"
first_id (id ∷ ids) = id

abbrev pub is_webhook : SinkKind → Bool
is_webhook (webhook url method headers timeout) = true
is_webhook (database connection_ref table) = false

abbrev pub check_sink : Identifier → Identifier → Option SinkDefinition → Check RuntimeError
check_sink rule_id id none = err (rule_references_unknown_sink rule_id id)
check_sink rule_id id (some sink) = do
  reject_if (not sink.enabled) (rule_references_disabled_sink rule_id id)
  reject_if (not (is_webhook sink.kind)) (rule_references_unsupported_sink rule_id id)

module _ {N : Type 0} where
  unfoldable pub validate_unique_ids : ProjectConfig N → Check RuntimeError
  unfolding insert_each
  validate_unique_ids p = do
    insert_each no_check (λ (b : BrokerConnectionConfig). b.id) "broker" [] p.brokers
    insert_each no_check (λ (r : TopicRouteConfig). r.id) "route" [] p.routes
    insert_each no_check (λ (m : PayloadSchemaMapping N). m.id) "schema_mapping" []
        p.schema_mappings
    insert_each (λ (r : RuleDefinition N). map_err domain_error (validate_definition r))
        (λ (r : RuleDefinition N). r.id) "rule" [] p.rules
    insert_each no_check (λ (t : CommandTemplate N). t.id) "command_template" [] p.command_templates
    insert_each no_check (λ (s : SinkDefinition). s.id) "sink" [] p.sinks

  abbrev pub enabled_brokers : ProjectConfig N → List BrokerConnectionConfig
  enabled_brokers p = keep (λ (b : BrokerConnectionConfig). b.enabled) p.brokers

  abbrev pub enabled_broker_ids : ProjectConfig N → List Identifier
  enabled_broker_ids p = map (λ (b : BrokerConnectionConfig). b.id) (enabled_brokers p)

  abbrev pub schema_mapping_ids : ProjectConfig N → List Identifier
  schema_mapping_ids p = map (λ (m : PayloadSchemaMapping N). m.id) p.schema_mappings

  unfoldable pub validate_single_enabled_broker : ProjectConfig N → Check RuntimeError
  validate_single_enabled_broker p = allow_single (length (enabled_brokers p))

  abbrev pub check_mapping :
      ProjectConfig N → TopicRouteConfig → Option Identifier → Check RuntimeError
  check_mapping p r none = ok tt
  check_mapping p r (some mapping) =
      reject_if (not (contains_id (schema_mapping_ids p) mapping))
        (route_references_unknown_schema_mapping r.id mapping)

  -- A round of the loop of `validate_routes`.
  abbrev pub check_route : ProjectConfig N → TopicRouteConfig → Check RuntimeError
  check_route p r = do
    reject_if (not (contains_id (enabled_broker_ids p) r.broker_id))
        (route_references_unavailable_broker r.id r.broker_id)
    check_mapping p r r.schema_mapping_id
    reject_if (not (is_reject r.backpressure))
        (unsupported_backpressure_policy r.id (backpressure_policy_name r.backpressure))

  unfoldable pub validate_routes : ProjectConfig N → Check RuntimeError
  unfolding count_checked
  validate_routes p =
      count_checked (check_route p) 0 (keep (λ (r : TopicRouteConfig). r.enabled) p.routes)
      >>= λ enabled_route_count.
          reject_if (enabled_route_count == 0)
            (no_enabled_routes_for_broker (first_id (enabled_broker_ids p)))

  abbrev pub check_template : ProjectConfig N → CommandTemplate N → Check RuntimeError
  check_template p t =
      reject_if (not (contains_id (enabled_broker_ids p) t.broker_id))
        (command_template_references_unavailable_broker t.id t.broker_id)

  unfoldable pub validate_command_templates : ProjectConfig N → Check RuntimeError
  validate_command_templates p =
      for_each (check_template p) (keep (λ (t : CommandTemplate N). t.enabled) p.command_templates)

  abbrev pub find_sink_by_id : ProjectConfig N → Identifier → Option SinkDefinition
  find_sink_by_id p id = find (λ (s : SinkDefinition). str_eq s.id id) p.sinks

  abbrev pub check_sink_reference :
      ProjectConfig N → Identifier → ActionIntentTemplate N → Check RuntimeError
  check_sink_reference p rule_id (forward_to_sink id) = check_sink rule_id id (find_sink_by_id p id)
  check_sink_reference p rule_id _ = ok tt

  abbrev pub check_rule_sinks : ProjectConfig N → RuleDefinition N → Check RuntimeError
  check_rule_sinks p r = for_each (check_sink_reference p r.id) r.actions

  unfoldable pub validate_rule_sink_references : ProjectConfig N → Check RuntimeError
  validate_rule_sink_references p =
      for_each (check_rule_sinks p) (keep (λ (r : RuleDefinition N). r.enabled) p.rules)

  abbrev pub find_template : List (CommandTemplate N) → Identifier → Option (CommandTemplate N)
  find_template templates id = find (λ (t : CommandTemplate N). str_eq t.id id) templates

  abbrev pub check_command :
      Identifier → Identifier → Option (CommandTemplate N) → Check RuntimeError
  check_command rule_id id none = err (rule_references_unknown_command_template rule_id id)
  check_command rule_id id (some t) =
      reject_if (not t.enabled) (rule_references_disabled_command_template rule_id id)

  abbrev pub check_command_reference :
      ProjectConfig N → Identifier → ActionIntentTemplate N → Check RuntimeError
  check_command_reference p rule_id (execute_command id params) =
      check_command rule_id id (find_template p.command_templates id)
  check_command_reference p rule_id _ = ok tt

  abbrev pub check_rule_commands : ProjectConfig N → RuleDefinition N → Check RuntimeError
  check_rule_commands p r = for_each (check_command_reference p r.id) r.actions

  unfoldable pub validate_rule_command_references : ProjectConfig N → Check RuntimeError
  validate_rule_command_references p =
      for_each (check_rule_commands p) (keep (λ (r : RuleDefinition N). r.enabled) p.rules)

  unfoldable pub validate_runtime_config : ProjectConfig N → Check RuntimeError
  validate_runtime_config p = do
    map_err domain_error (validate_project p)
    reject_if (not p.enabled) project_disabled
    validate_unique_ids p
    validate_single_enabled_broker p
    validate_routes p
    validate_command_templates p
    validate_rule_sink_references p
    validate_rule_command_references p
