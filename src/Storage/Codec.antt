-- ===== src/Storage/Codec.antt =====
-- crates/pipe-bolt-storage/src/project_config_codec.rs: a project configuration as it is stored, with
-- its secrets encrypted. Times are kept as they are here; Storage/Durations has their serialized
-- form.
use pipe_bolt.Prelude.{Bool, List, Option, Result, map_err, none, ok, some, ℕ, ◌++◌, ◌>>=◌, ◌>>◌}
use pipe_bolt.Text.{Str, codes}
use pipe_bolt.Domain.Id.{Identifier}
use pipe_bolt.Domain.Config.{
  BrokerConnectionConfig, CommandTemplate, Duration, HttpHeaderTemplate, HttpMethod,
  MqttCredentials, PayloadSchemaMapping, ReconnectPolicy, SinkDefinition, SinkKind, TlsMode,
  TopicRouteConfig, database, webhook,
}
use pipe_bolt.Domain.Config.Validate.{new_secret}
use pipe_bolt.Domain.Project.{ProjectConfig, validate_project}
use pipe_bolt.Domain.Rule.{RuleDefinition}
use pipe_bolt.Storage.{EncryptedSecret, SecretCipher, StorageError, storage_domain}
use pipe_bolt.Effects
use pipe_bolt.Effects.{Effect, collect, pure, traverse}

pub record StoredMqttCredentials : Type 0 where
  pub username : Str
  pub password : EncryptedSecret

pub record StoredBrokerConnectionConfig : Type 0 where
  pub id : Identifier
  pub name : Str
  pub host : Str
  pub port : ℕ
  pub tls : TlsMode
  pub credentials : Option StoredMqttCredentials
  pub keep_alive : Duration
  pub clean_session : Bool
  pub client_id : Str
  pub reconnect : ReconnectPolicy
  pub enabled : Bool

pub record StoredHttpHeaderTemplate : Type 0 where
  pub name : Str
  pub value : EncryptedSecret

pub data StoredSinkKind : Type 0 where
  stored_webhook : Str → HttpMethod → List StoredHttpHeaderTemplate → Duration → StoredSinkKind
  stored_database : Str → Str → StoredSinkKind

pub record StoredSinkDefinition : Type 0 where
  pub id : Identifier
  pub name : Str
  pub enabled : Bool
  pub kind : StoredSinkKind

pub record StoredProjectConfig (N : Type 0) : Type 0 where
  pub id : Identifier
  pub tenant_id : Option Identifier
  pub name : Str
  pub description : Option Str
  pub enabled : Bool
  pub version : ℕ
  pub brokers : List StoredBrokerConnectionConfig
  pub routes : List TopicRouteConfig
  pub schema_mappings : List (PayloadSchemaMapping N)
  pub rules : List (RuleDefinition N)
  pub command_templates : List (CommandTemplate N)
  pub sinks : List StoredSinkDefinition

unfoldable pub broker_password_aad : Identifier → Identifier → Str
broker_password_aad project_id broker_id =
    codes "project:" ++ (project_id ++ (codes ":broker:" ++ (broker_id ++ codes ":mqtt_password")))

unfoldable pub sink_header_aad : Identifier → Identifier → Str → Str
sink_header_aad project_id sink_id header_name =
    codes "project:"
    ++ (project_id ++ (codes ":sink:" ++ (sink_id ++ (codes ":header:" ++ header_name))))

-- `SecretString::new(value)?`
abbrev pub secret_string : Str → Result StorageError Str
secret_string value = map_err storage_domain (new_secret value)

module _ {W : Type 0} (c : SecretCipher W) (project_id : Identifier) where
  open c use {encrypt, decrypt}

  -- `StoredMqttCredentials::from_domain`
  unfoldable pub credentials_from_domain :
      Identifier → MqttCredentials → Effect W StorageError StoredMqttCredentials
  credentials_from_domain broker_id credentials =
      Effects.◌>>=◌ (encrypt credentials.password (broker_password_aad project_id broker_id))
        λ password. pure (record { username = credentials.username; password = password })

  -- `StoredMqttCredentials::into_domain`
  unfoldable pub credentials_into_domain :
      Identifier → StoredMqttCredentials → Result StorageError MqttCredentials
  credentials_into_domain broker_id stored = do
    plaintext ← decrypt stored.password (broker_password_aad project_id broker_id)
    password ← secret_string plaintext
    ok (record { username = stored.username; password = password })

  -- `credentials.map(...).transpose()?`
  unfoldable pub optional_from_domain :
      Identifier → Option MqttCredentials → Effect W StorageError (Option StoredMqttCredentials)
  unfolding credentials_from_domain
  optional_from_domain broker_id none = pure none
  optional_from_domain broker_id (some credentials) =
      Effects.◌>>=◌ (credentials_from_domain broker_id credentials) λ stored. pure (some stored)

  unfoldable pub optional_into_domain :
      Identifier → Option StoredMqttCredentials → Result StorageError (Option MqttCredentials)
  unfolding credentials_into_domain
  optional_into_domain broker_id none = ok none
  optional_into_domain broker_id (some stored) = do
    credentials ← credentials_into_domain broker_id stored
    ok (some credentials)

  -- `StoredBrokerConnectionConfig::from_domain`
  unfoldable pub broker_from_domain :
      BrokerConnectionConfig → Effect W StorageError StoredBrokerConnectionConfig
  unfolding optional_from_domain
  broker_from_domain b = Effects.◌>>=◌ (optional_from_domain b.id b.credentials) λ credentials.
      pure (record {
        id = b.id;
        name = b.name;
        host = b.host;
        port = b.port;
        tls = b.tls;
        credentials = credentials;
        keep_alive = b.keep_alive;
        clean_session = b.clean_session;
        client_id = b.client_id;
        reconnect = b.reconnect;
        enabled = b.enabled;
      })

  -- `StoredBrokerConnectionConfig::into_domain`
  unfoldable pub broker_into_domain :
      StoredBrokerConnectionConfig → Result StorageError BrokerConnectionConfig
  unfolding optional_into_domain
  broker_into_domain b = do
    credentials ← optional_into_domain b.id b.credentials
    ok (record {
      id = b.id;
      name = b.name;
      host = b.host;
      port = b.port;
      tls = b.tls;
      credentials = credentials;
      keep_alive = b.keep_alive;
      clean_session = b.clean_session;
      client_id = b.client_id;
      reconnect = b.reconnect;
      enabled = b.enabled;
    })

  -- `StoredHttpHeaderTemplate::from_domain`
  unfoldable pub header_from_domain :
      Identifier → HttpHeaderTemplate → Effect W StorageError StoredHttpHeaderTemplate
  header_from_domain sink_id header =
      Effects.◌>>=◌ (encrypt header.value (sink_header_aad project_id sink_id header.name))
        λ value. pure (record { name = header.name; value = value })

  -- `StoredHttpHeaderTemplate::into_domain`
  unfoldable pub header_into_domain :
      Identifier → StoredHttpHeaderTemplate → Result StorageError HttpHeaderTemplate
  header_into_domain sink_id header = do
    plaintext ← decrypt header.value (sink_header_aad project_id sink_id header.name)
    value ← secret_string plaintext
    ok (record { name = header.name; value = value })

  -- `StoredSinkKind::from_domain`
  unfoldable pub kind_from_domain : Identifier → SinkKind → Effect W StorageError StoredSinkKind
  unfolding header_from_domain
  kind_from_domain sink_id (webhook url method headers timeout) =
      Effects.◌>>=◌ (traverse (header_from_domain sink_id) headers)
        λ stored. pure (stored_webhook url method stored timeout)
  kind_from_domain sink_id (database connection_ref table) =
      pure (stored_database connection_ref table)

  -- `StoredSinkKind::into_domain`
  unfoldable pub kind_into_domain : Identifier → StoredSinkKind → Result StorageError SinkKind
  unfolding header_into_domain
  kind_into_domain sink_id (stored_webhook url method stored timeout) = do
    headers ← collect (header_into_domain sink_id) stored
    ok (webhook url method headers timeout)
  kind_into_domain sink_id (stored_database connection_ref table) =
      ok (database connection_ref table)

  -- `StoredSinkDefinition::from_domain`
  unfoldable pub sink_from_domain : SinkDefinition → Effect W StorageError StoredSinkDefinition
  unfolding kind_from_domain
  sink_from_domain s =
      Effects.◌>>=◌ (kind_from_domain s.id s.kind)
        λ kind. pure (record { id = s.id; name = s.name; enabled = s.enabled; kind = kind })

  -- `StoredSinkDefinition::into_domain`
  unfoldable pub sink_into_domain : StoredSinkDefinition → Result StorageError SinkDefinition
  unfolding kind_into_domain
  sink_into_domain s = do
    kind ← kind_into_domain s.id s.kind
    ok (record { id = s.id; name = s.name; enabled = s.enabled; kind = kind })

module _ {W N : Type 0} (c : SecretCipher W) where
  -- `ProjectConfigCodec::encode`, which is `StoredProjectConfig::from_domain`
  unfoldable pub encode : ProjectConfig N → Effect W StorageError (StoredProjectConfig N)
  encode p = Effects.◌>>=◌ (traverse (broker_from_domain c p.id) p.brokers) λ brokers.
      Effects.◌>>=◌ (traverse (sink_from_domain c p.id) p.sinks) λ sinks. pure (record {
        id = p.id;
        tenant_id = p.tenant_id;
        name = p.name;
        description = p.description;
        enabled = p.enabled;
        version = p.version;
        brokers = brokers;
        routes = p.routes;
        schema_mappings = p.schema_mappings;
        rules = p.rules;
        command_templates = p.command_templates;
        sinks = sinks;
      })

  abbrev pub assemble :
      StoredProjectConfig N → List BrokerConnectionConfig → List SinkDefinition → ProjectConfig N
  assemble s brokers sinks = record {
    id = s.id;
    tenant_id = s.tenant_id;
    name = s.name;
    description = s.description;
    enabled = s.enabled;
    version = s.version;
    brokers = brokers;
    routes = s.routes;
    schema_mappings = s.schema_mappings;
    rules = s.rules;
    command_templates = s.command_templates;
    sinks = sinks;
  }

  -- `ProjectConfigCodec::decode`, which is `StoredProjectConfig::into_domain`
  unfoldable pub decode : StoredProjectConfig N → Result StorageError (ProjectConfig N)
  decode s = do
    brokers ← collect (broker_into_domain c s.id) s.brokers
    sinks ← collect (sink_into_domain c s.id) s.sinks
    map_err storage_domain (validate_project (assemble s brokers sinks))
    ok (assemble s brokers sinks)
