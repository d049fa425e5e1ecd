-- ===== src/Command/Rendered.antt =====
-- A command that is ready to be published: crates/pipe-bolt-domain/src/command.rs, and
-- `CommandTemplateRenderer::render` of crates/pipe-bolt-core/src/command.rs.
use pipe_bolt.Prelude.{Bool, List, Result, length, ok, ℕ, ◌>>=◌}
use pipe_bolt.Text.{Str}
use pipe_bolt.Json.{JsonLib}
use pipe_bolt.Domain.Id.{Identifier}
use pipe_bolt.Domain.Config.{CommandTemplate, MqttQos}
use pipe_bolt.Command.Template.{
  CommandRenderDraft, CommandRenderError, Params, render_draft, saturating_usize_to_u64,
}

pub record RenderedCommandParts : Type 0 where
  pub project_id : Identifier
  pub broker_id : Identifier
  pub command_template_id : Identifier
  pub command_execution_id : Identifier
  pub topic : Str
  pub payload : List ℕ
  pub qos : MqttQos
  pub retain : Bool
  pub correlation_id : Str

pub record RenderedCommand : Type 0 where
  pub project_id : Identifier
  pub broker_id : Identifier
  pub command_template_id : Identifier
  pub command_execution_id : Identifier
  pub topic : Str
  pub payload : List ℕ
  pub qos : MqttQos
  pub retain : Bool
  pub payload_size_bytes : ℕ
  pub correlation_id : Str

-- `RenderedCommand::from_parts`
abbrev pub from_parts : RenderedCommandParts → RenderedCommand
from_parts parts = record {
  project_id = parts.project_id;
  broker_id = parts.broker_id;
  command_template_id = parts.command_template_id;
  command_execution_id = parts.command_execution_id;
  topic = parts.topic;
  payload = parts.payload;
  qos = parts.qos;
  retain = parts.retain;
  payload_size_bytes = saturating_usize_to_u64 (length parts.payload);
  correlation_id = parts.correlation_id;
}

pub record CommandRenderContext : Type 0 where
  pub project_id : Identifier
  pub command_execution_id : Identifier
  pub correlation_id : Str

-- The parts of the command that `render` makes.
abbrev pub parts_of :
    {N : Type 0}
    → CommandRenderContext
    → CommandTemplate N
    → CommandRenderDraft
    → RenderedCommandParts
parts_of context template draft = record {
  project_id = context.project_id;
  broker_id = template.broker_id;
  command_template_id = template.id;
  command_execution_id = context.command_execution_id;
  topic = draft.topic;
  payload = draft.payload;
  qos = template.qos;
  retain = template.retain;
  correlation_id = context.correlation_id;
}

module _ (J : JsonLib) where
  unfoldable pub render :
      ℕ
      → CommandRenderContext
      → CommandTemplate J.Number
      → Params J
      → Result CommandRenderError RenderedCommand
  render max_payload_bytes context template params = do
    draft ← render_draft J max_payload_bytes template params
    ok (from_parts (parts_of context template draft))
