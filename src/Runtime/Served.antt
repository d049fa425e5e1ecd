-- ===== src/Runtime/Served.antt =====
-- How a request ends once its template and the engine of its broker are found:
-- `process_command_request` of crates/pipe-bolt-daemon/src/runtime.rs.
use pipe_bolt.Prelude.{
  Option, Result, Result-cases, ap, err, find, if◌then◌else◌, inl, inr, none, ok, refl, some, subst,
  sym, true, ◌≡◌,
}
use pipe_bolt.Text.{str_eq}
use pipe_bolt.Text.Equality.{str_eq_iff}
use pipe_bolt.Json.{JsonLib}
use pipe_bolt.Error.{MqttEngineError}
use pipe_bolt.Effects.{continue}
use pipe_bolt.Domain.Config.{CommandTemplate}
use pipe_bolt.Dispatch.{CommandExecutionRequest, CommandSource, api, rule}
use pipe_bolt.Command.Template.{CommandRenderError}
use pipe_bolt.Command.Rendered.{CommandRenderContext, RenderedCommand, render}
use pipe_bolt.Storage.{StorageError}
use pipe_bolt.Runtime.Validation.{find_template}
use pipe_bolt.Runtime.Processor.{
  CommandProcessor, CommandProcessorBroker, CommandStorage, RuntimeCommandProcessorError, audit,
  audit_record, audit_unavailable, is_rule_source, map_failure, prepare, process_command_request,
  publish, publish_enqueue, queued_execution, record_rule_command_execution, render_failed,
}
use pipe_bolt.Runtime.Audit.{render-parts}

module _ (J : JsonLib) where
  -- The context in which a command of the project is rendered.
  abbrev pub context_of : CommandExecutionRequest J.Number → CommandRenderContext
  context_of request = record {
    project_id = request.project_id;
    command_execution_id = request.command_execution_id;
    correlation_id = request.correlation_id;
  }

module _ (J : JsonLib) {W : Type 0} where
  module _ (processor : CommandProcessor J W) (request : CommandExecutionRequest J.Number)
      (t : CommandTemplate J.Number) (b : CommandProcessorBroker W) (w : W) where
    abbrev pub rendering : Result CommandRenderError RenderedCommand
    rendering = render J processor.max_payload_bytes (context_of J request) t request.params

    -- In which state a command is offered to the engine: the one that the record of a command of a
    -- rule has left, and for other commands the one before.
    pub data IsAudited (c : RenderedCommand) : W → Type 0 where
      unasked : request.source ≡ api → IsAudited c w
      recorded :
          (storage : CommandStorage W) (v : W)
          → request.source ≡ rule
          → processor.storage ≡ some storage
          → storage.record_command_execution (queued_execution J request c) w ≡ (ok tt, v)
          → IsAudited c v

    -- How the processing of a request ends when its template and the engine of its broker are there.
    pub data Served : Result RuntimeCommandProcessorError (Unit {0}) × W → Type 0 where
      unrendered : (e : CommandRenderError) → rendering ≡ err e → Served (err (render_failed e), w)
      unaudited :
          (c : RenderedCommand)
          → rendering ≡ ok c
          → request.source ≡ rule
          → processor.storage ≡ none
          → Served (err audit_unavailable, w)
      unrecorded :
          (c : RenderedCommand) (storage : CommandStorage W) (e : StorageError) (v : W)
          → rendering ≡ ok c
          → request.source ≡ rule
          → processor.storage ≡ some storage
          → storage.record_command_execution (queued_execution J request c) w ≡ (err e, v)
          → Served (err (audit_record e), v)
      refused :
          (c : RenderedCommand) (e : MqttEngineError) (v u : W)
          → rendering ≡ ok c
          → IsAudited c v
          → b.try_enqueue_rendered c v ≡ (err e, u)
          → Served (err (publish_enqueue t.broker_id e), u)
      enqueued :
          (c : RenderedCommand) (v u : W)
          → rendering ≡ ok c
          → IsAudited c v
          → b.try_enqueue_rendered c v ≡ (ok tt, u)
          → Served (ok tt, u)

    module _ (c : RenderedCommand) (made : rendering ≡ ok c)
        (at_broker : c.broker_id ≡ t.broker_id) where
      handed : (v : W) → IsAudited c v → Served (publish J b c v)
      handed v audited = answered (b.try_enqueue_rendered c v) refl
        where
          answered :
              (out : Result MqttEngineError (Unit {0}) × W)
              → b.try_enqueue_rendered c v ≡ out
              → Served (map_failure J (publish_enqueue c.broker_id) out)
          answered (ok u, x) h = enqueued c v x made audited h
          answered (err e, x) h =
              subst (λ id. Served (err (publish_enqueue id e), x)) (sym at_broker)
                (refused c e v x made audited h)

      audited_by :
          (o : Option (CommandStorage W))
          → processor.storage ≡ o
          → request.source ≡ rule
          → Served (continue (audit J o (queued_execution J request c) w) (λ u. publish J b c))
      audited_by none e from_rule = unaudited c made from_rule e
      audited_by (some storage) e from_rule =
          answered (storage.record_command_execution (queued_execution J request c) w) refl
        where
          answered :
              (out : Result StorageError (Unit {0}) × W)
              → storage.record_command_execution (queued_execution J request c) w ≡ out
              → Served (continue (map_failure J audit_record out) (λ u. publish J b c))
          answered (ok u, v) h = handed v (recorded storage v from_rule e h)
          answered (err why, v) h = unrecorded c storage why v made from_rule e h

      from_source :
          (s : CommandSource)
          → request.source ≡ s
          → Served (
              continue
                (if is_rule_source s
                  then audit J processor.storage (queued_execution J request c) w
                  else (ok tt, w))
                (λ u. publish J b c))
      from_source api e = handed w (unasked e)
      from_source rule e = audited_by processor.storage refl e

    module _ (project : request.project_id ≡ processor.project_id)
        (found : find_template processor.templates request.command_template_id ≡ some t)
        (on : t.enabled ≡ true)
        (there : find
            (λ (c : CommandProcessorBroker W). str_eq c.broker_id t.broker_id)
            processor.brokers
          ≡ some b) where
      prepare-fails :
          (e : CommandRenderError)
          → rendering ≡ err e
          → prepare J processor request ≡ err (render_failed e)
      unfolding prepare
      prepare-fails e failed =
          let same : str_eq request.project_id processor.project_id ≡ true =
            (str_eq_iff _ _).1 project in
          rw (same, found, failed, on) refl

      prepare-makes :
          (c : RenderedCommand)
          → rendering ≡ ok c
          → c.broker_id ≡ t.broker_id
          → prepare J processor request ≡ ok (b, c)
      unfolding prepare
      prepare-makes c made at_broker =
          let same : str_eq request.project_id processor.project_id ≡ true =
            (str_eq_iff _ _).1 project in
          rw (same, found, made, at_broker, there, on) refl

      pub process-Served : Served (process_command_request J processor request w)
      unfolding process_command_request record_rule_command_execution
      process-Served = elim (Result-cases rendering) [
        | inr (e, failed) ↦ rw (prepare-fails e failed) (unrendered e failed)
        | inl (c, made) ↦
            let (draft, parts) = render-parts J _ _ t request.params made in
            let at_broker : c.broker_id ≡ t.broker_id =
              ap (λ (c : RenderedCommand). c.broker_id) parts in
            rw (prepare-makes c made at_broker) (from_source c made at_broker request.source refl)
      ]
