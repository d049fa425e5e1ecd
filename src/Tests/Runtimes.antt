-- ===== src/Tests/Runtimes.antt =====
-- A project that can be run, its forwarder and its command processor.
use pipe_bolt.Prelude.{All, List, [], any, err, false, none, ok, refl, some, true, ℕ, ◌↔◌, ◌∷◌, ◌≡◌}
use pipe_bolt.Text.{Str, byte_len, codes, contains, split, str_eq, trim}
use pipe_bolt.Json.{Value}
use pipe_bolt.Map.{lookup}
use pipe_bolt.Domain.Id.{Identifier, validate_text}
use pipe_bolt.Domain.Config.{
  BrokerConnectionConfig, CommandTemplate, MqttQos, TopicRouteConfig, at_least_once, from_secs,
  native_roots, reject,
}
use pipe_bolt.Domain.Config.Filter.{new_topic_name, validate_filter}
use pipe_bolt.Domain.Config.Validate.{
  validate_broker, validate_credentials, validate_mapping, validate_reconnect, validate_route,
  validate_sink, validate_template,
}
use pipe_bolt.Domain.Rule.{RuleDefinition, event_received, execute_command, forward_to_sink}
use pipe_bolt.Domain.Rule.Validate.{validate_action_template, validate_definition}
use pipe_bolt.Domain.Project.{ProjectConfig, validate_project}
use pipe_bolt.Egress.{default_policy}
use pipe_bolt.Dispatch.{CommandExecutionRequest, rule}
use pipe_bolt.Forwarder.{default_forward_limits}
use pipe_bolt.Command.Template.{render_draft}
use pipe_bolt.Command.Rendered.{render}
use pipe_bolt.Runtime.{multiple_enabled_brokers_unsupported}
use pipe_bolt.Runtime.Validation.{
  count_checked, insert_each, validate_command_templates, validate_routes,
  validate_rule_command_references, validate_rule_sink_references, validate_runtime_config,
  validate_single_enabled_broker, validate_unique_ids,
}
use pipe_bolt.Runtime.Runnable.{IsRunnable}
use pipe_bolt.Runtime.Accepts.{validate_runtime_config-IsRunnable}
use pipe_bolt.Runtime.Sinks.{HasTarget, validate_runtime_config-HasTarget}
use pipe_bolt.Runtime.Processor.{
  CommandProcessor, CommandProcessorBroker, CommandStorage, build_command_processor, prepare,
  process_command_request, record_rule_command_execution,
}
use pipe_bolt.Runtime.Served.{Served}
use pipe_bolt.Runtime.Subscriptions.{
  AtLeast, IsAsked, merged_subscriptions, merged_subscriptions-AtLeast,
}
use pipe_bolt.Tests.Samples.{hook, http, numbers, registry, registry_compiled, sample_route, urls}

abbrev broker : BrokerConnectionConfig
broker = record {
  id = codes "broker-1";
  name = codes "Local";
  host = codes "localhost";
  port = 1883;
  tls = native_roots;
  credentials = none;
  keep_alive = from_secs 30;
  clean_session = true;
  client_id = codes "pipe-bolt";
  reconnect = record { min_delay = from_secs 1; max_delay = from_secs 30 };
  enabled = true;
}

abbrev route : TopicRouteConfig
route = record (sample_route "route-1" "devices/+/telemetry" true) { backpressure = reject }

abbrev template : CommandTemplate ℕ
template = record {
  id = codes "relay-on";
  name = codes "Turn Relay On";
  broker_id = codes "broker-1";
  topic_template = codes "devices/relay";
  payload_template = Value.string (codes "on");
  qos = at_least_once;
  retain = false;
  enabled = true;
}

abbrev reacting_rule : RuleDefinition ℕ
reacting_rule = record {
  id = codes "rule-1";
  name = codes "Forward and act";
  enabled = true;
  trigger = event_received;
  condition = none;
  actions = forward_to_sink (codes "hook") ∷ execute_command (codes "relay-on") [] ∷ [];
}

abbrev project : ProjectConfig ℕ
project = record {
  id = codes "project-1";
  tenant_id = none;
  name = codes "Plant";
  description = none;
  enabled = true;
  version = 1;
  brokers = broker ∷ [];
  routes = route ∷ [];
  schema_mappings = [];
  rules = reacting_rule ∷ [];
  command_templates = template ∷ [];
  sinks = hook ∷ [];
}

project_accepted : validate_runtime_config project ≡ ok tt
unfolding validate_runtime_config validate_project validate_unique_ids insert_each
    validate_single_enabled_broker validate_routes count_checked validate_command_templates
    validate_rule_sink_references validate_rule_command_references validate_broker
    validate_credentials validate_reconnect validate_route validate_filter validate_mapping
    validate_template validate_sink validate_definition validate_action_template validate_text
    byte_len trim str_eq split contains
project_accepted = refl

validate_runtime_config-IsRunnable_example :
    (validate_runtime_config project ≡ ok tt) ↔ IsRunnable project
validate_runtime_config-IsRunnable_example = validate_runtime_config-IsRunnable project

abbrev second_broker : BrokerConnectionConfig
second_broker = record broker { id = codes "broker-2" }

two_brokers_refused :
    validate_single_enabled_broker (record project { brokers = broker ∷ second_broker ∷ [] })
    ≡ err (multiple_enabled_brokers_unsupported 2)
unfolding validate_single_enabled_broker
two_brokers_refused = refl

validate_runtime_config-HasTarget_example :
    All
      (λ (r : RuleDefinition ℕ).
        r.enabled ≡ true
        → All (HasTarget urls http default_forward_limits default_policy registry) r.actions)
      project.rules
validate_runtime_config-HasTarget_example =
    validate_runtime_config-HasTarget urls http default_forward_limits default_policy project
      registry project_accepted registry_compiled

-- The state of the database is the ids of the executions that it has recorded.
abbrev recorder : CommandStorage (List Identifier)
recorder = record {
  record_command_execution = λ e w. (ok tt, e.command_execution_id ∷ w);
  mark_command_execution_published = λ id w. (ok tt, w);
  mark_command_execution_failed = λ id reason w. (ok tt, w);
}

abbrev engine : CommandProcessorBroker (List Identifier)
engine = record { broker_id = codes "broker-1"; try_enqueue_rendered = λ c w. (ok tt, w) }

abbrev processor : CommandProcessor numbers (List Identifier)
processor = build_command_processor numbers project (engine ∷ []) (some recorder)

abbrev request : CommandExecutionRequest ℕ
request = record {
  project_id = codes "project-1";
  command_execution_id = codes "execution-1";
  command_template_id = codes "relay-on";
  params = [];
  source = rule;
  actor_id = none;
  source_event_id = some (codes "event-1");
  correlation_id = codes "event-1";
  reason = none;
}

request_recorded :
    process_command_request numbers processor request [] ≡ (ok tt, codes "execution-1" ∷ [])
unfolding process_command_request record_rule_command_execution prepare render render_draft str_eq
    contains new_topic_name validate_text trim byte_len
request_recorded = refl

abbrev IsRecorded : Identifier → List Identifier → Type 0
IsRecorded id w = any (λ recorded. str_eq recorded id) w ≡ true

merged_subscriptions-AtLeast_example :
    All
      (λ (r : TopicRouteConfig). AtLeast r.topic_filter r.qos (merged_subscriptions project.routes))
      project.routes
    × ((topic : Str) (q : MqttQos)
        → lookup topic (merged_subscriptions project.routes) ≡ some q
        → IsAsked topic q project.routes)
merged_subscriptions-AtLeast_example = merged_subscriptions-AtLeast project.routes
