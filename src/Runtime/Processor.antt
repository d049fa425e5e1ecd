-- ===== src/Runtime/Processor.antt =====
-- The command processor of the runtime: crates/pipe-bolt-daemon/src/runtime.rs. The database and the
-- MQTT engine are functions that change an arbitrary state `W`; the text of an error is a parameter.
use pipe_bolt.Prelude.{
  Bool, List, Option, Result, err, false, find, if◌then◌else◌, map_err, none, not, ok, reject_if,
  some, true, ℕ, ◌>>=◌, ◌>>◌,
}
use pipe_bolt.Text.{Str, str_eq}
use pipe_bolt.Json.{JsonLib}
use pipe_bolt.Error.{MqttEngineError}
use pipe_bolt.Domain.Id.{Identifier}
use pipe_bolt.Domain.Config.{CommandTemplate, MqttQos}
use pipe_bolt.Dispatch.{CommandExecutionRequest, CommandSource, api, rule}
use pipe_bolt.Command.Template.{CommandRenderError}
use pipe_bolt.Command.Rendered.{RenderedCommand, render}
use pipe_bolt.Storage.{StorageError}
use pipe_bolt.Effects.{Effect}
use pipe_bolt.Runtime.Validation.{find_template}
use pipe_bolt.Runtime.Stats.{
  RuntimeStats, record_command_publish_enqueue_failed, record_command_render_failed,
  record_command_status_update_failed,
}
use pipe_bolt.Domain.Project.{ProjectConfig}
use pipe_bolt.Effects

pub data CommandExecutionStatus : Type 0 where
  queued_status published_status failed_status : CommandExecutionStatus

pub record NewCommandExecution : Type 0 where
  pub command_execution_id : Identifier
  pub project_id : Identifier
  pub command_template_id : Identifier
  pub broker_id : Identifier
  pub actor_id : Option Identifier
  pub status : CommandExecutionStatus
  pub topic : Str
  pub qos : MqttQos
  pub retain : Bool
  pub payload_size_bytes : ℕ
  pub failure_reason : Option Str
  pub reason : Option Str

-- What the processor uses of the storage.
pub record CommandStorage (W : Type 0) : Type 0 where
  pub record_command_execution : NewCommandExecution → Effect W StorageError (Unit {0})
  pub mark_command_execution_published : Identifier → Effect W StorageError (Unit {0})
  pub mark_command_execution_failed : Identifier → Str → Effect W StorageError (Unit {0})

pub data RuntimeCommandProcessorError : Type 0 where
  project_mismatch : Identifier → Identifier → RuntimeCommandProcessorError
  template_not_found template_disabled : Identifier → RuntimeCommandProcessorError
  render_failed : CommandRenderError → RuntimeCommandProcessorError
  broker_unavailable : Identifier → RuntimeCommandProcessorError
  publish_enqueue : Identifier → MqttEngineError → RuntimeCommandProcessorError
  audit_record : StorageError → RuntimeCommandProcessorError
  audit_unavailable : RuntimeCommandProcessorError

pub record CommandProcessorBroker (W : Type 0) : Type 0 where
  pub broker_id : Identifier
  pub try_enqueue_rendered : RenderedCommand → Effect W MqttEngineError (Unit {0})

abbrev pub is_rule_source : CommandSource → Bool
is_rule_source api = false
is_rule_source rule = true

-- `record_command_processor_error`
unfoldable pub record_command_processor_error :
    RuntimeCommandProcessorError → RuntimeStats → RuntimeStats
record_command_processor_error (render_failed e) s = record_command_render_failed s
record_command_processor_error (publish_enqueue id e) s = record_command_publish_enqueue_failed s
record_command_processor_error (audit_record e) s = record_command_status_update_failed s
record_command_processor_error audit_unavailable s = s
record_command_processor_error (project_mismatch expected actual) s = s
record_command_processor_error (template_not_found id) s = s
record_command_processor_error (template_disabled id) s = s
record_command_processor_error (broker_unavailable id) s = s

abbrev pub ok_or_error : {E A : Type 0} → E → Option A → Result E A
ok_or_error e none = err e
ok_or_error e (some a) = ok a

-- A command with the broker that it goes to.
abbrev pub with_broker :
    {W : Type 0}
    → List (CommandProcessorBroker W)
    → RenderedCommand
    → Result RuntimeCommandProcessorError (CommandProcessorBroker W × RenderedCommand)
with_broker {W = W} brokers rendered = do
  broker ←
      ok_or_error (broker_unavailable rendered.broker_id)
        (find (λ (b : CommandProcessorBroker W). str_eq b.broker_id rendered.broker_id) brokers)
  ok (broker, rendered)

module _ (J : JsonLib) where
  pub record CommandProcessor (W : Type 0) : Type 0 where
    pub project_id : Identifier
    pub templates : List (CommandTemplate J.Number)
    pub brokers : List (CommandProcessorBroker W)
    pub max_payload_bytes : ℕ
    pub storage : Option (CommandStorage W)

  -- `build_command_processor`, from the engines that run and with the default renderer.
  abbrev pub build_command_processor :
      {W : Type 0}
      → ProjectConfig J.Number
      → List (CommandProcessorBroker W)
      → Option (CommandStorage W)
      → CommandProcessor W
  build_command_processor config engines storage = record {
    project_id = config.id;
    templates = config.command_templates;
    brokers = engines;
    max_payload_bytes = 65536;
    storage = storage;
  }

  -- What is checked before anything is done: the broker and the command that goes to it.
  unfoldable pub prepare :
      {W : Type 0}
      → CommandProcessor W
      → CommandExecutionRequest J.Number
      → Result RuntimeCommandProcessorError (CommandProcessorBroker W × RenderedCommand)
  prepare {W = W} processor request = do
    reject_if (not (str_eq request.project_id processor.project_id))
        (project_mismatch processor.project_id request.project_id)
    template ←
        ok_or_error (template_not_found request.command_template_id)
          (find_template processor.templates request.command_template_id)
    reject_if (not template.enabled) (template_disabled template.id)
    rendered ← map_err render_failed (
        render J processor.max_payload_bytes
          (record {
            project_id = request.project_id;
            command_execution_id = request.command_execution_id;
            correlation_id = request.correlation_id;
          })
          template request.params)
    with_broker processor.brokers rendered

  abbrev pub queued_execution :
      CommandExecutionRequest J.Number → RenderedCommand → NewCommandExecution
  queued_execution request rendered = record {
    command_execution_id = request.command_execution_id;
    project_id = request.project_id;
    command_template_id = request.command_template_id;
    broker_id = rendered.broker_id;
    actor_id = request.actor_id;
    status = queued_status;
    topic = rendered.topic;
    qos = rendered.qos;
    retain = rendered.retain;
    payload_size_bytes = rendered.payload_size_bytes;
    failure_reason = none;
    reason = request.reason;
  }

  module _ {W : Type 0} where
    abbrev pub map_failure : {E F A : Type 0} → (E → F) → Result E A × W → Result F A × W
    map_failure f (r, w) = (map_err f r, w)

    -- The record of a request that a rule has made.
    abbrev pub audit :
        Option (CommandStorage W)
        → NewCommandExecution
        → Effect W RuntimeCommandProcessorError (Unit {0})
    audit none execution = λ w. (err audit_unavailable, w)
    audit (some storage) execution =
        λ w. map_failure audit_record (storage.record_command_execution execution w)

    unfoldable pub record_rule_command_execution :
        CommandProcessor W
        → CommandExecutionRequest J.Number
        → RenderedCommand
        → Effect W RuntimeCommandProcessorError (Unit {0})
    record_rule_command_execution processor request rendered w =
        if is_rule_source request.source
        then audit processor.storage (queued_execution request rendered) w
        else (ok tt, w)

    -- The last step of `process_command_request`.
    abbrev pub publish :
        CommandProcessorBroker W
        → RenderedCommand
        → Effect W RuntimeCommandProcessorError (Unit {0})
    publish broker rendered w =
        map_failure (publish_enqueue rendered.broker_id) (broker.try_enqueue_rendered rendered w)

    -- The steps of `process_command_request` that have effects.
    abbrev pub audit_and_publish :
        CommandProcessor W
        → CommandExecutionRequest J.Number
        → Result RuntimeCommandProcessorError (CommandProcessorBroker W × RenderedCommand)
        → Effect W RuntimeCommandProcessorError (Unit {0})
    audit_and_publish processor request (err e) = λ w. (err e, w)
    audit_and_publish processor request (ok (broker, rendered)) =
        Effects.◌>>=◌ (record_rule_command_execution processor request rendered)
          λ u. publish broker rendered

    unfoldable pub process_command_request :
        CommandProcessor W
        → CommandExecutionRequest J.Number
        → Effect W RuntimeCommandProcessorError (Unit {0})
    process_command_request processor request =
        audit_and_publish processor request (prepare processor request)

    -- What a failed update of the status adds to the counters.
    abbrev pub count_update : Result StorageError (Unit {0}) × W → RuntimeStats → RuntimeStats × W
    count_update (ok u, w) stats = (stats, w)
    count_update (err e, w) stats = (record_command_status_update_failed stats, w)

    -- `mark_command_failed_after_processor_error`
    unfoldable pub mark_command_failed :
        Option (CommandStorage W) → Identifier → Str → RuntimeStats → W → RuntimeStats × W
    mark_command_failed none id reason stats w = (stats, w)
    mark_command_failed (some storage) id reason stats w =
        count_update (storage.mark_command_execution_failed id reason w) stats

    -- `process_and_record_command_request` at the result of `process_command_request`.
    abbrev pub record_processed :
        (RuntimeCommandProcessorError → Str)
        → CommandProcessor W
        → CommandExecutionRequest J.Number
        → RuntimeStats
        → Result RuntimeCommandProcessorError (Unit {0}) × W
        → RuntimeStats × W
    record_processed to_string processor request stats (ok u, w) = (stats, w)
    record_processed to_string processor request stats (err e, w) =
        mark_command_failed processor.storage request.command_execution_id (to_string e)
          (record_command_processor_error e stats) w

    unfoldable pub process_and_record_command_request :
        (RuntimeCommandProcessorError → Str)
        → CommandProcessor W
        → CommandExecutionRequest J.Number
        → RuntimeStats
        → W
        → RuntimeStats × W
    process_and_record_command_request to_string processor request stats w =
        record_processed to_string processor request stats
          (process_command_request processor request w)
