-- ===== src/Domain/Config/Validate.antt =====
-- The `validate` methods of crates/pipe-bolt-domain/src/config.rs.
use pipe_bolt.Prelude.{Result, for_each, ltb, ok, reject_if, ◌==◌, ◌>>◌}
use pipe_bolt.Text.{Str}
use pipe_bolt.Domain.Error.{
  Check, DomainError, empty_field, for_some, invalid_broker_port, invalid_field_path,
  invalid_keep_alive,
}
use pipe_bolt.Domain.Id.{validate_text}
use pipe_bolt.Domain.Config.{
  BrokerConnectionConfig, CommandTemplate, FieldMapping, MqttCredentials, PayloadSchemaMapping,
  ReconnectPolicy, SinkDefinition, TopicRouteConfig, from_secs, max_host_bytes, max_name_bytes,
  max_topic_bytes,
}
use pipe_bolt.Domain.Config.Filter.{validate_filter}

-- `SecretString::new`
unfoldable pub new_secret : Str → Result DomainError Str
new_secret value = do validate_text "secret" value 4096; ok value

unfoldable pub validate_credentials : MqttCredentials → Check DomainError
validate_credentials c = validate_text "mqtt_username" c.username max_name_bytes

unfoldable pub validate_reconnect : ReconnectPolicy → Check DomainError
validate_reconnect p = do
  reject_if (p.min_delay == 0) (empty_field "reconnect_min_delay")
  reject_if (ltb p.max_delay p.min_delay)
      (invalid_field_path "reconnect max_delay must be greater than or equal to min_delay")

unfoldable pub validate_broker : BrokerConnectionConfig → Check DomainError
unfolding validate_credentials validate_reconnect
validate_broker b = do
  validate_text "broker_name" b.name max_name_bytes
  validate_text "broker_host" b.host max_host_bytes
  validate_text "broker_client_id" b.client_id max_name_bytes
  reject_if (b.port == 0) invalid_broker_port
  reject_if (ltb b.keep_alive (from_secs 5)) invalid_keep_alive
  for_some validate_credentials b.credentials
  validate_reconnect b.reconnect

unfoldable pub validate_route : TopicRouteConfig → Check DomainError
validate_route r = do
  validate_text "route_name" r.name max_name_bytes
  validate_text "event_type" r.event_type max_name_bytes
  validate_filter r.topic_filter

module _ {N : Type 0} where
  unfoldable pub validate_field_mapping : FieldMapping N → Check DomainError
  validate_field_mapping f = validate_text "field_mapping_target" f.target max_name_bytes

  unfoldable pub validate_mapping : PayloadSchemaMapping N → Check DomainError
  unfolding validate_field_mapping
  validate_mapping m = do
    validate_text "schema_mapping_name" m.name max_name_bytes
    for_each validate_field_mapping m.fields

  unfoldable pub validate_template : CommandTemplate N → Check DomainError
  validate_template t = do
    validate_text "command_template_name" t.name max_name_bytes
    validate_text "command_topic_template" t.topic_template max_topic_bytes

unfoldable pub validate_sink : SinkDefinition → Check DomainError
validate_sink s = validate_text "sink_name" s.name max_name_bytes
