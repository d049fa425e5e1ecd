-- ===== src/Domain/Config.antt =====
-- crates/pipe-bolt-domain/src/config.rs: connections, routes, mappings, templates and sinks. A
-- duration is a number of nanoseconds; a secret is its text. `none` of `DeviceIdExtraction` is
-- written `DeviceIdExtraction.none`.
pub mod Filter
pub mod Validate
use mathlib.Core.Option.{Option}
use pipe_bolt.Prelude.{Bool, List, ℕ, ◌*◌}
use pipe_bolt.Text.{Str}
use pipe_bolt.Json.{Value}
use pipe_bolt.Domain.Id.{FieldPath, Identifier}

abbrev pub max_name_bytes : ℕ
max_name_bytes = 160

abbrev pub max_description_bytes : ℕ
max_description_bytes = 2048

abbrev pub max_topic_bytes : ℕ
max_topic_bytes = 1024

abbrev pub max_host_bytes : ℕ
max_host_bytes = 255

abbrev pub Duration : Type 0
Duration = ℕ

abbrev pub from_millis : ℕ → Duration
from_millis n = n * 1000000

abbrev pub from_secs : ℕ → Duration
from_secs n = n * 1000000000

pub data TlsMode : Type 0 where
  disabled native_roots : TlsMode

pub data PayloadCodecKind : Type 0 where
  json raw : PayloadCodecKind

pub data MqttQos : Type 0 where
  at_most_once at_least_once exactly_once : MqttQos

pub data BackpressurePolicy : Type 0 where
  drop_newest drop_oldest reject block_producer : BackpressurePolicy

pub data FieldValueType : Type 0 where
  string_type number_type boolean_type object_type array_type : FieldValueType

pub data HttpMethod : Type 0 where
  post put patch : HttpMethod

pub data DeviceIdExtraction : Type 0 where
  none : DeviceIdExtraction
  static : Str → DeviceIdExtraction
  topic_wildcard_index : ℕ → DeviceIdExtraction
  payload_field : FieldPath → DeviceIdExtraction

pub record MqttCredentials : Type 0 where
  pub username : Str
  pub password : Str

pub record ReconnectPolicy : Type 0 where
  pub min_delay : Duration
  pub max_delay : Duration

pub record BrokerConnectionConfig : Type 0 where
  pub id : Identifier
  pub name : Str
  pub host : Str
  pub port : ℕ
  pub tls : TlsMode
  pub credentials : Option MqttCredentials
  pub keep_alive : Duration
  pub clean_session : Bool
  pub client_id : Str
  pub reconnect : ReconnectPolicy
  pub enabled : Bool

pub record TopicRouteConfig : Type 0 where
  pub id : Identifier
  pub broker_id : Identifier
  pub name : Str
  pub topic_filter : Str
  pub codec : PayloadCodecKind
  pub schema_mapping_id : Option Identifier
  pub device_id : DeviceIdExtraction
  pub event_type : Str
  pub qos : MqttQos
  pub enabled : Bool
  pub backpressure : BackpressurePolicy

pub record FieldMapping (N : Type 0) : Type 0 where
  pub source : FieldPath
  pub target : Str
  pub value_type : FieldValueType
  pub required : Bool
  pub default : Option (Value N)

pub record PayloadSchemaMapping (N : Type 0) : Type 0 where
  pub id : Identifier
  pub name : Str
  pub fields : List (FieldMapping N)

pub record CommandTemplate (N : Type 0) : Type 0 where
  pub id : Identifier
  pub name : Str
  pub broker_id : Identifier
  pub topic_template : Str
  pub payload_template : Value N
  pub qos : MqttQos
  pub retain : Bool
  pub enabled : Bool

pub record HttpHeaderTemplate : Type 0 where
  pub name : Str
  pub value : Str

pub data SinkKind : Type 0 where
  webhook : Str → HttpMethod → List HttpHeaderTemplate → Duration → SinkKind
  database : Str → Str → SinkKind

pub record SinkDefinition : Type 0 where
  pub id : Identifier
  pub name : Str
  pub enabled : Bool
  pub kind : SinkKind
