-- ===== src/Runtime.antt =====
-- crates/pipe-bolt-daemon/src/runtime.rs: the errors and the settings of the runtime. The errors of
-- joins, which the libraries make, are left out of the error values.
pub mod Validation
pub mod Loops
pub mod Runnable
pub mod Accepts
pub mod Sinks
pub mod Stats
pub mod Processor
pub mod Audit
pub mod Resolved
pub mod Served
pub mod Subscriptions
use pipe_bolt.Prelude.{String, reject_if, ℕ, ◌==◌, ◌>>=◌, ◌>>◌}
use pipe_bolt.Text.{Str}
use pipe_bolt.Error.{DispatchError, MqttEngineError}
use pipe_bolt.Domain.Error.{Check, DomainError}
use pipe_bolt.Domain.Config.{Duration}

pub data PersistenceWriterError : Type 0 where
  invalid_writer_config : String → PersistenceWriterError
  writer_join writer_drain_timeout : PersistenceWriterError

pub data RuntimeError : Type 0 where
  project_disabled : RuntimeError
  invalid_runtime_config : String → RuntimeError
  multiple_enabled_brokers_unsupported : ℕ → RuntimeError
  duplicate_id : String → Str → RuntimeError
  no_enabled_broker : RuntimeError
  no_enabled_routes_for_broker : Str → RuntimeError
  route_references_unavailable_broker : Str → Str → RuntimeError
  route_references_unknown_schema_mapping : Str → Str → RuntimeError
  unsupported_backpressure_policy : Str → String → RuntimeError
  command_template_references_unavailable_broker : Str → Str → RuntimeError
  command_template_not_found command_template_disabled : Str → RuntimeError
  command_broker_unavailable : Str → RuntimeError
  command_template_render : Str → Str → RuntimeError
  command_payload_too_large_for : ℕ → ℕ → RuntimeError
  rule_references_unknown_sink : Str → Str → RuntimeError
  rule_references_disabled_sink : Str → Str → RuntimeError
  rule_references_unsupported_sink : Str → Str → RuntimeError
  rule_references_unknown_command_template : Str → Str → RuntimeError
  rule_references_disabled_command_template : Str → Str → RuntimeError
  domain_error : DomainError → RuntimeError
  mqtt_error : MqttEngineError → RuntimeError
  dispatch_failure : DispatchError → RuntimeError
  worker_join_timeout worker_join_failed : String → RuntimeError
  persistence_writer : PersistenceWriterError → RuntimeError

-- What `validate_runtime_settings` reads of the settings.
pub record RuntimeSettings : Type 0 where
  pub realtime_event_capacity : ℕ
  pub command_queue_capacity : ℕ
  pub command_publish_outcome_capacity : ℕ
  pub worker_join_timeout : Duration

unfoldable pub validate_runtime_settings : RuntimeSettings → Check RuntimeError
validate_runtime_settings s = do
  reject_if (s.realtime_event_capacity == 0)
      (invalid_runtime_config "realtime event capacity must be greater than zero")
  reject_if (s.worker_join_timeout == 0)
      (invalid_runtime_config "worker join timeout must be greater than zero")
  reject_if (s.command_queue_capacity == 0)
      (invalid_runtime_config "command queue capacity must be greater than zero")
  reject_if (s.command_publish_outcome_capacity == 0)
      (invalid_runtime_config "command publish outcome capacity must be greater than zero")
