-- ===== src/Domain/Event.antt =====
-- crates/pipe-bolt-domain/src/event.rs, and the action intents of action.rs. A time is a number of
-- nanoseconds since the Unix epoch.
use mathlib.Core.Option.{Option}
use pipe_bolt.Prelude.{Bool, List, String, ℕ}
use pipe_bolt.Text.{Str}
use pipe_bolt.Json.{Members, Value, Values}
use pipe_bolt.Map.{BTreeMap, lookup}
use pipe_bolt.Domain.Id.{Identifier}

pub data DecodedPayload (N : Type 0) : Type 0 where
  json_payload : Value N → DecodedPayload N
  raw_payload : List ℕ → DecodedPayload N

pub data FieldValue (N : Type 0) : Type 0 where
  null : FieldValue N
  bool : Bool → FieldValue N
  number : N → FieldValue N
  string : Str → FieldValue N
  object : Members N → FieldValue N
  array : Values N → FieldValue N

-- `FieldValue::from_json`
unfoldable pub from_json : {N : Type 0} → Value N → FieldValue N
from_json Value.null = FieldValue.null
from_json (Value.bool b) = FieldValue.bool b
from_json (Value.number n) = FieldValue.number n
from_json (Value.string s) = FieldValue.string s
from_json (Value.array vs) = FieldValue.array vs
from_json (Value.object ms) = FieldValue.object ms

pub record RawPayloadRef : Type 0 where
  pub byte_len : ℕ
  pub content_type : Option String
  pub bytes : List ℕ

pub record NormalizationDiagnostic : Type 0 where
  pub code : Str
  pub message : Str
  pub field : Option Str

pub record NormalizedEvent (N : Type 0) : Type 0 where
  pub id : Identifier
  pub correlation_id : Str
  pub project_id : Identifier
  pub broker_id : Identifier
  pub route_id : Identifier
  pub schema_mapping_id : Option Identifier
  pub topic : Str
  pub device_id : Option Str
  pub event_type : Str
  pub received_at : ℕ
  pub payload_size_bytes : ℕ
  pub payload : DecodedPayload N
  pub fields : BTreeMap (FieldValue N)
  pub raw : Option RawPayloadRef
  pub normalization_errors : List NormalizationDiagnostic
  pub metadata : BTreeMap Str

-- `NormalizedEvent::field`
abbrev pub event_field : {N : Type 0} → NormalizedEvent N → Str → Option (FieldValue N)
event_field event name = lookup name event.fields

pub data ActionIntent (N : Type 0) : Type 0 where
  stream_to_ui : Identifier → ActionIntent N
  forward_to_sink : Identifier → Identifier → Option (BTreeMap (Value N)) → ActionIntent N
  execute_command : Identifier → Identifier → BTreeMap (Value N) → Str → ActionIntent N
  drop_event : Identifier → Option Str → ActionIntent N
  add_metadata : Identifier → Str → Str → ActionIntent N
