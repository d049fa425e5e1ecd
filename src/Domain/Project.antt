-- ===== src/Domain/Project.antt =====
-- `ProjectConfig` of crates/pipe-bolt-domain/src/config.rs.
use mathlib.Core.Option.{Option}
use pipe_bolt.Prelude.{Bool, List, for_each, ℕ, ◌>>◌}
use pipe_bolt.Text.{Str}
use pipe_bolt.Domain.Error.{Check, DomainError, for_some}
use pipe_bolt.Domain.Id.{Identifier, validate_text}
use pipe_bolt.Domain.Config.{
  BrokerConnectionConfig, CommandTemplate, PayloadSchemaMapping, SinkDefinition, TopicRouteConfig,
  max_description_bytes, max_name_bytes,
}
use pipe_bolt.Domain.Config.Validate.{
  validate_broker, validate_mapping, validate_route, validate_sink, validate_template,
}
use pipe_bolt.Domain.Rule.{RuleDefinition}
use pipe_bolt.Domain.Rule.Validate.{validate_definition}

pub record ProjectConfig (N : Type 0) : Type 0 where
  pub id : Identifier
  pub tenant_id : Option Identifier
  pub name : Str
  pub description : Option Str
  pub enabled : Bool
  pub version : ℕ
  pub brokers : List BrokerConnectionConfig
  pub routes : List TopicRouteConfig
  pub schema_mappings : List (PayloadSchemaMapping N)
  pub rules : List (RuleDefinition N)
  pub command_templates : List (CommandTemplate N)
  pub sinks : List SinkDefinition

-- `ProjectConfig::validate`
unfoldable pub validate_project : {N : Type 0} → ProjectConfig N → Check DomainError
validate_project p = do
  validate_text "project_name" p.name max_name_bytes
  for_some (λ d. validate_text "project_description" d max_description_bytes) p.description
  for_each validate_broker p.brokers
  for_each validate_route p.routes
  for_each validate_mapping p.schema_mappings
  for_each validate_definition p.rules
  for_each validate_template p.command_templates
  for_each validate_sink p.sinks
