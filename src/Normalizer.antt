-- ===== src/Normalizer.antt =====
-- crates/pipe-bolt-core/src/pipeline/normalizer.rs and mod.rs: from a message to an event. The
-- uuid of the event is the parameter `uuid`, the text that `Uuid::now_v7` prints.
pub mod Fields
pub mod Outcome
pub mod Routed
use pipe_bolt.Prelude.{
  Bool, List, Option, Result, String, [], err, false, find, if◌then◌else◌, length, ltb, map_err,
  max, none, not, ok, reject_if, some, true, ℕ, ◌++◌, ◌+◌, ◌>>=◌, ◌>>◌, ◌∷◌,
}
use pipe_bolt.Text.{Str, byte_len, codes, str_eq}
use pipe_bolt.Json.{
  JsonLib, Members, Value, Values, cons, end, get_json_path, is_array, is_boolean, is_number,
  is_object, is_string, member, nil,
}
use pipe_bolt.Map.{BTreeMap, insert}
use pipe_bolt.Matcher.{TopicParams, single}
use pipe_bolt.Domain.Error.{Check}
use pipe_bolt.Domain.Id.{Identifier, new_id, segments}
use pipe_bolt.Domain.Config.{
  DeviceIdExtraction, FieldMapping, FieldValueType, PayloadCodecKind, PayloadSchemaMapping,
  TopicRouteConfig, array_type, boolean_type, number_type, object_type, payload_field, static,
  string_type, topic_wildcard_index,
}
use pipe_bolt.Domain.Config.Filter.{new_topic_name}
use pipe_bolt.Domain.Config.Validate.{validate_mapping, validate_route}
use pipe_bolt.Domain.Event.{
  DecodedPayload, FieldValue, NormalizedEvent, RawPayloadRef, from_json, json_payload, raw_payload,
}
use pipe_bolt.Error.{
  MqttEngineError, PipelineError, device_id_requires_json, domain, invalid_device_id_field_type,
  invalid_json, json_too_deep, mapping_requires_json, mapping_requires_json_object,
  missing_required_field, payload_too_large, pipeline, raw_payload_too_large,
  too_many_extracted_fields, type_mismatch,
}
use pipe_bolt.Message.{MqttMessage}
use pipe_bolt.Route.{ConfigRouteMatch, ConfigRouteMatcher, match_message}

pub record NormalizationContext (N : Type 0) : Type 0 where
  pub project_id : Identifier
  pub route : TopicRouteConfig
  pub params : TopicParams
  pub schema_mapping : Option (PayloadSchemaMapping N)

pub record NormalizerLimits : Type 0 where
  pub max_payload_size_bytes : ℕ
  pub max_raw_payload_size_bytes : ℕ
  pub max_json_depth : ℕ
  pub max_extracted_fields : ℕ
  pub retain_raw_payload : Bool

abbrev pub default_limits : NormalizerLimits
default_limits = record {
  max_payload_size_bytes = 262144;
  max_raw_payload_size_bytes = 65536;
  max_json_depth = 32;
  max_extracted_fields = 128;
  retain_raw_payload = true;
}

abbrev pub refuse : {A : Type 0} → PipelineError → Result MqttEngineError A
refuse e = err (pipeline e)

unfoldable pub validate_payload_size : List ℕ → ℕ → Check MqttEngineError
validate_payload_size payload max =
    reject_if (ltb max (length payload)) (pipeline (payload_too_large (length payload) max))

abbrev pub content_type_for_codec : PayloadCodecKind → Option String
content_type_for_codec PayloadCodecKind.json = some "application/json"
content_type_for_codec PayloadCodecKind.raw = none

unfoldable pub build_raw_payload_ref :
    List ℕ → PayloadCodecKind → Bool → ℕ → Result MqttEngineError (Option RawPayloadRef)
build_raw_payload_ref payload codec retain_raw_payload max =
    if not retain_raw_payload
    then ok none
    else if ltb max (length payload)
    then refuse (raw_payload_too_large (length payload) max)
    else ok (
        some (record {
          byte_len = length payload;
          content_type = content_type_for_codec codec;
          bytes = payload;
        }))

module _ {N : Type 0} where
  unfoldable mutual
    pub json_depth : Value N → ℕ
    json_depth (Value.array vs) = deepest_value vs + 1
    json_depth (Value.object ms) = deepest_member ms + 1
    json_depth _ = 1

    -- `values.iter().map(json_depth).max().unwrap_or(0)`
    pub deepest_value : Values N → ℕ
    deepest_value nil = 0
    deepest_value (cons v vs) = max (json_depth v) (deepest_value vs)

    -- `values.values().map(json_depth).max().unwrap_or(0)`
    pub deepest_member : Members N → ℕ
    deepest_member end = 0
    deepest_member (member k v ms) = max (json_depth v) (deepest_member ms)

  abbrev pub json_type_name : Value N → String
  json_type_name Value.null = "null"
  json_type_name (Value.bool b) = "boolean"
  json_type_name (Value.number n) = "number"
  json_type_name (Value.string s) = "string"
  json_type_name (Value.array vs) = "array"
  json_type_name (Value.object ms) = "object"

  -- The guards of `coerce_field_value`.
  abbrev pub has_type : FieldValueType → Value N → Bool
  has_type string_type v = is_string v
  has_type number_type v = is_number v
  has_type boolean_type v = is_boolean v
  has_type object_type v = is_object v
  has_type array_type v = is_array v

abbrev pub field_value_type_name : FieldValueType → String
field_value_type_name string_type = "string"
field_value_type_name number_type = "number"
field_value_type_name boolean_type = "boolean"
field_value_type_name object_type = "object"
field_value_type_name array_type = "array"

abbrev pub bool_text : Bool → Str
bool_text true = codes "true"
bool_text false = codes "false"

module _ {N : Type 0} where
  unfoldable pub coerce_field_value :
      Str → Value N → FieldValueType → Result MqttEngineError (FieldValue N)
  coerce_field_value target value expected =
      if has_type expected value
      then ok (from_json value)
      else refuse (type_mismatch target (field_value_type_name expected) (json_type_name value))

  -- `extract_field` when the payload has no value at the path.
  unfoldable pub default_field :
      FieldMapping N → BTreeMap (FieldValue N) → Result MqttEngineError (BTreeMap (FieldValue N))
  unfolding coerce_field_value
  default_field field fields =
      if field.required
      then refuse (missing_required_field field.target field.source)
      else elim field.default [
        | none ↦ ok fields
        | some default ↦ coerce_field_value field.target default field.value_type >>= λ value.
            ok (insert field.target value fields)
      ]

  unfoldable pub extract_field :
      FieldMapping N
      → Value N
      → BTreeMap (FieldValue N)
      → Result MqttEngineError (BTreeMap (FieldValue N))
  unfolding default_field
  extract_field field payload fields = elim (get_json_path payload (segments field.source)) [
    | some value ↦ coerce_field_value field.target value field.value_type >>= λ value.
        ok (insert field.target value fields)
    | none ↦ default_field field fields
  ]

  -- The loop of `extract_fields`.
  unfoldable pub extract_each :
      List (FieldMapping N)
      → Value N
      → BTreeMap (FieldValue N)
      → Result MqttEngineError (BTreeMap (FieldValue N))
  unfolding extract_field
  extract_each [] payload fields = ok fields
  extract_each (field ∷ mappings) payload fields =
      extract_field field payload fields >>= λ fields. extract_each mappings payload fields

  -- `extract_fields`, past its checks of the mapping.
  unfoldable pub extract_mapped :
      List (FieldMapping N) → DecodedPayload N → Result MqttEngineError (BTreeMap (FieldValue N))
  unfolding extract_each
  extract_mapped mappings (raw_payload bytes) = refuse mapping_requires_json
  extract_mapped mappings (json_payload value) =
      if not (is_object value)
      then refuse mapping_requires_json_object
      else extract_each mappings value []

  unfoldable pub extract_fields :
      Option (PayloadSchemaMapping N)
      → DecodedPayload N
      → ℕ
      → Result MqttEngineError (BTreeMap (FieldValue N))
  unfolding extract_mapped
  extract_fields none payload max = ok []
  extract_fields (some mapping) payload max = do
    map_err domain (validate_mapping mapping)
    reject_if (ltb max (length mapping.fields))
        (pipeline (too_many_extracted_fields (length mapping.fields) max))
    extract_mapped mapping.fields payload

module _ (J : JsonLib) where
  open J use {Number, number_text, from_slice}

  abbrev pub invalid_json_error : Str → MqttEngineError
  invalid_json_error message = pipeline (invalid_json message)

  unfoldable pub decode_payload :
      PayloadCodecKind → List ℕ → ℕ → Result MqttEngineError (DecodedPayload Number)
  decode_payload PayloadCodecKind.raw payload max = ok (raw_payload payload)
  decode_payload PayloadCodecKind.json payload max = do
    value ← map_err invalid_json_error (from_slice payload)
    reject_if (ltb max (json_depth value)) (pipeline (json_too_deep (json_depth value) max))
    ok (json_payload value)

  -- The device id that a value of the payload gives.
  unfoldable pub device_id_of : Option (Value Number) → Result MqttEngineError (Option Str)
  device_id_of none = ok none
  device_id_of (some (Value.string s)) = ok (some s)
  device_id_of (some (Value.number n)) = ok (some (number_text n))
  device_id_of (some (Value.bool b)) = ok (some (bool_text b))
  device_id_of (some _) = refuse invalid_device_id_field_type

  unfoldable pub extract_device_id :
      TopicRouteConfig → TopicParams → DecodedPayload Number → Result MqttEngineError (Option Str)
  unfolding device_id_of
  extract_device_id route params payload = elim route.device_id [
    | DeviceIdExtraction.none ↦ ok none
    | static value ↦ ok (some value)
    | topic_wildcard_index index ↦ ok (single params index)
    | payload_field path ↦ elim payload [
      | json_payload value ↦ device_id_of (get_json_path value (segments path))
      | raw_payload bytes ↦ refuse device_id_requires_json
    ]
  ]

  abbrev pub mapping_id : Option (PayloadSchemaMapping Number) → Option Identifier
  mapping_id none = none
  mapping_id (some mapping) = some mapping.id

  -- `EventNormalizer::normalize`
  unfoldable pub normalize :
      NormalizerLimits
      → Str
      → MqttMessage
      → NormalizationContext Number
      → Result MqttEngineError (NormalizedEvent Number)
  normalize limits uuid message context = do
    map_err domain (validate_route context.route)
    validate_payload_size message.payload limits.max_payload_size_bytes
    payload ← decode_payload context.route.codec message.payload limits.max_json_depth
    device_id ← extract_device_id context.route context.params payload
    fields ← extract_fields context.schema_mapping payload limits.max_extracted_fields
    topic ← map_err domain (new_topic_name message.topic)
    raw ←
        build_raw_payload_ref message.payload context.route.codec limits.retain_raw_payload
          limits.max_raw_payload_size_bytes
    event_id ← map_err domain (new_id "event_id" (codes "evt_" ++ uuid))
    ok (record {
      id = event_id;
      correlation_id = event_id;
      project_id = context.project_id;
      broker_id = context.route.broker_id;
      route_id = context.route.id;
      schema_mapping_id = mapping_id context.schema_mapping;
      topic = topic;
      device_id = device_id;
      event_type = context.route.event_type;
      received_at = message.received_at;
      payload_size_bytes = length message.payload;
      payload = payload;
      fields = fields;
      raw = raw;
      normalization_errors = [];
      metadata = [];
    })

  -- The mapping that a route names, if it is configured.
  unfoldable pub mapping_for :
      List (PayloadSchemaMapping Number) → Option Identifier → Option (PayloadSchemaMapping Number)
  mapping_for mappings none = none
  mapping_for mappings (some id) = find (λ mapping. str_eq mapping.id id) mappings

  -- `normalize_routed_message` at the result of the match.
  unfoldable pub normalize_match :
      NormalizerLimits
      → Str
      → List (PayloadSchemaMapping Number)
      → MqttMessage
      → Option ConfigRouteMatch
      → Result MqttEngineError (Option (NormalizedEvent Number))
  normalize_match limits uuid mappings message none = ok none
  normalize_match limits uuid mappings message (some found) = do
    event ← normalize limits uuid message (record {
      project_id = found.project_id;
      route = found.route;
      params = found.params;
      schema_mapping = mapping_for mappings found.route.schema_mapping_id;
    })
    ok (some event)

  unfoldable pub normalize_routed_message :
      ConfigRouteMatcher
      → NormalizerLimits
      → Str
      → List (PayloadSchemaMapping Number)
      → MqttMessage
      → Result MqttEngineError (Option (NormalizedEvent Number))
  unfolding normalize_match
  normalize_routed_message matcher limits uuid mappings message =
      normalize_match limits uuid mappings message (match_message matcher message)
