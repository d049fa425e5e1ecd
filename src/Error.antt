-- ===== src/Error.antt =====
-- crates/pipe-bolt-core/src/error.rs. `MqttEngineError::Domain` holds the text of a domain error;
-- the model keeps the error itself.
use pipe_bolt.Prelude.{String, ℕ}
use pipe_bolt.Text.{Str}
use pipe_bolt.Domain.Error.{DomainError}
use pipe_bolt.Domain.Id.{Identifier}

pub data PipelineError : Type 0 where
  payload_too_large : ℕ → ℕ → PipelineError
  raw_payload_too_large : ℕ → ℕ → PipelineError
  invalid_json : Str → PipelineError
  json_too_deep : ℕ → ℕ → PipelineError
  mapping_requires_json_object mapping_requires_json : PipelineError
  missing_required_field : Str → Str → PipelineError
  type_mismatch : Str → String → String → PipelineError
  too_many_extracted_fields : ℕ → ℕ → PipelineError
  invalid_device_id_field_type device_id_requires_json : PipelineError

pub data DispatchError : Type 0 where
  invalid_dispatch_config : String → DispatchError
  too_many_intents : ℕ → ℕ → DispatchError
  too_many_metadata_entries : ℕ → ℕ → DispatchError
  realtime_unavailable realtime_backpressure : DispatchError
  invalid_metadata_key : String → DispatchError
  metadata_value_too_large : ℕ → ℕ → DispatchError
  sink_not_found sink_disabled unsupported_sink_kind : Identifier → DispatchError
  forwarder_unavailable forwarder_backpressure : DispatchError
  forward_payload_encode : String → DispatchError
  forward_payload_too_large : ℕ → ℕ → DispatchError
  command_queue_unavailable command_queue_backpressure : DispatchError
  command_request_build : String → DispatchError

pub data RuleError : Type 0 where
  invalid_rule : Identifier → String → RuleError
  unsupported_trigger : Identifier → String → RuleError
  unsupported_action : Identifier → String → RuleError
  condition_too_deep : Identifier → ℕ → ℕ → RuleError
  condition_too_large : Identifier → ℕ → ℕ → RuleError
  empty_condition_group : Identifier → String → RuleError
  non_numeric_comparison : Identifier → RuleError
  missing_value : Identifier → RuleError
  too_many_actions : Identifier → ℕ → ℕ → RuleError
  invalid_rule_metadata_key : Identifier → String → RuleError
  rule_metadata_value_too_large : Identifier → ℕ → ℕ → RuleError

pub data MqttEngineError : Type 0 where
  invalid_config : String → MqttEngineError
  invalid_topic_filter : Str → MqttEngineError
  invalid_topic_name : Str → MqttEngineError
  client : Str → MqttEngineError
  router_handler : Str → MqttEngineError
  worker_join : Str → MqttEngineError
  decode : Str → MqttEngineError
  pipeline : PipelineError → MqttEngineError
  domain : DomainError → MqttEngineError
  rule_error : RuleError → MqttEngineError
  dispatch_error : DispatchError → MqttEngineError
  ingress_closed ingress_queue_full telemetry_closed : MqttEngineError
  command_queue_full command_queue_closed : MqttEngineError
