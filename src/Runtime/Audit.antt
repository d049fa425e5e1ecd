-- ===== src/Runtime/Audit.antt =====
-- What the command processor of crates/pipe-bolt-daemon/src/runtime.rs hands to the MQTT engine.
use pipe_bolt.Prelude.{
  >>=-eq-ok, Result, err, false, none, ok, ok-injective, some, sym, true, ℕ, ◌≡◌,
}
use pipe_bolt.Json.{JsonLib}
use pipe_bolt.Domain.Id.{Identifier}
use pipe_bolt.Domain.Config.{CommandTemplate}
use pipe_bolt.Dispatch.{CommandExecutionRequest}
use pipe_bolt.Command.Template.{CommandRenderDraft, Params, render_draft}
use pipe_bolt.Command.Rendered.{CommandRenderContext, RenderedCommand, from_parts, parts_of, render}
use pipe_bolt.Storage.{StorageError}
use pipe_bolt.Runtime.Validation.{find_template}
use pipe_bolt.Runtime.Processor.{
  CommandProcessor, CommandProcessorBroker, CommandStorage, RuntimeCommandProcessorError,
  audit_record, audit_unavailable, is_rule_source, prepare, publish, queued_execution,
}

module _ (J : JsonLib) where
  pub render-parts :
      (limit : ℕ) (context : CommandRenderContext) (t : CommandTemplate J.Number)
      (params : Params J) {r : RenderedCommand}
      → render J limit context t params ≡ ok r
      → (draft : CommandRenderDraft) × (r ≡ from_parts (parts_of context t draft))
  unfolding render
  render-parts limit context t params h =
      let (draft, made, h) = >>=-eq-ok (render_draft J limit t params) _ h in
      (draft, sym (ok-injective h))

module _ (J : JsonLib) {W : Type 0} where
  -- A command that is made from a request: what it takes from the request and from a template that is
  -- enabled.
  pub record IsCommandFor (processor : CommandProcessor J W)
      (request : CommandExecutionRequest J.Number) (broker : CommandProcessorBroker W)
      (rendered : RenderedCommand) : Type 0 where
    pub template : CommandTemplate J.Number
    pub found : find_template processor.templates request.command_template_id ≡ some template
    pub is_enabled : template.enabled ≡ true
    pub same_project : request.project_id ≡ processor.project_id
    pub same_execution : rendered.command_execution_id ≡ request.command_execution_id
    pub at_broker : rendered.broker_id ≡ template.broker_id
    pub to_broker : broker.broker_id ≡ rendered.broker_id

  module _ (processor : CommandProcessor J W) (request : CommandExecutionRequest J.Number)
      (Known : Identifier → W → Type 0) where
    -- What a request comes to: nothing is done; its record fails; or its command goes to a broker, when
    -- the storage knows the execution if the request comes from a rule.
    pub data Processing (w : W) : Result RuntimeCommandProcessorError (Unit {0}) × W → Type 0 where
      not_made :
          (e : RuntimeCommandProcessorError)
          → prepare J processor request ≡ err e
          → Processing w (err e, w)
      no_storage :
          is_rule_source request.source ≡ true
          → processor.storage ≡ none
          → Processing w (err audit_unavailable, w)
      not_recorded :
          (storage : CommandStorage W) (rendered : RenderedCommand) (e : StorageError) (v : W)
          → is_rule_source request.source ≡ true
          → storage.record_command_execution (queued_execution J request rendered) w ≡ (err e, v)
          → Processing w (err (audit_record e), v)
      handed_over :
          (broker : CommandProcessorBroker W) (rendered : RenderedCommand) (v : W)
          → IsCommandFor processor request broker rendered
          → (is_rule_source request.source ≡ true → Known request.command_execution_id v)
          → (is_rule_source request.source ≡ false → v ≡ w)
          → Processing w (publish J broker rendered v)
