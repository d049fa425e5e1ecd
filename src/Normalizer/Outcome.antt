-- ===== src/Normalizer/Outcome.antt =====
-- What a message becomes: the guarantees on a normalized event.
use pipe_bolt.Prelude.{
  >>=-eq-ok, Bool, Bool-cases, List, Option, String, [], false, inl, inr, length, ltb, ltb→le,
  map_err, map_err-eq-ok, none, ok, ok-injective, refl, reject_if, reject_if-eq-ok, some, subst,
  sym, true, ℕ, ◌++◌, ◌||◌, ◌≡◌, ◌≤◌,
}
use pipe_bolt.Text.{Str, codes, contains}
use pipe_bolt.Json.{JsonLib, Value}
use pipe_bolt.Map.{BTreeMap}
use pipe_bolt.Domain.Id.{Identifier, new_id, validate_identifier, validate_text}
use pipe_bolt.Domain.Config.{PayloadCodecKind, max_topic_bytes}
use pipe_bolt.Domain.Config.Filter.{hash, new_topic_name, plus}
use pipe_bolt.Domain.Config.Validate.{validate_route}
use pipe_bolt.Domain.Event.{
  DecodedPayload, FieldValue, NormalizedEvent, RawPayloadRef, json_payload, raw_payload,
}
use pipe_bolt.Error.{domain, json_too_deep, pipeline}
use pipe_bolt.Message.{MqttMessage}
use pipe_bolt.Normalizer.{
  NormalizationContext, NormalizerLimits, build_raw_payload_ref, decode_payload, extract_device_id,
  extract_fields, invalid_json_error, json_depth, mapping_id, normalize, validate_payload_size,
}

-- The payload of an event, decoded as the codec says.
pub data IsDecoded (J : JsonLib) (payload : List ℕ) (limit : ℕ)
    : PayloadCodecKind → DecodedPayload J.Number → Type 0 where
  unchanged : IsDecoded J payload limit PayloadCodecKind.raw (raw_payload payload)
  parsed :
      (v : Value J.Number)
      → J.from_slice payload ≡ ok v
      → json_depth v ≤ limit
      → IsDecoded J payload limit PayloadCodecKind.json (json_payload v)

-- The copy of the payload that an event keeps.
pub data IsRetained (payload : List ℕ) (codec : PayloadCodecKind) (limit : ℕ)
    : Bool → Option RawPayloadRef → Type 0 where
  dropped : IsRetained payload codec limit false none
  kept :
      (copy : RawPayloadRef)
      → copy.bytes ≡ payload
      → copy.byte_len ≡ length payload
      → length payload ≤ limit
      → IsRetained payload codec limit true (some copy)

-- The constructors of topics and ids change nothing.
new_topic_name-eq-ok :
    (topic : Str) {t : Str}
    → new_topic_name topic ≡ ok t
    → (t ≡ topic) × ((contains plus t || contains hash t) ≡ false)
unfolding new_topic_name
new_topic_name-eq-ok topic h =
    let (u, valid, h) = >>=-eq-ok (validate_text "topic" topic max_topic_bytes) _ h in
    let (v, concrete, h) =
      >>=-eq-ok (reject_if (contains plus topic || contains hash topic) _) _ h in
    let same = sym (ok-injective h) in (same, rw same (reject_if-eq-ok _ _ concrete))

new_id-eq-ok : (field : String) (value : Str) {id : Str} → new_id field value ≡ ok id → id ≡ value
unfolding new_id
new_id-eq-ok field value h =
    let (u, valid, h) = >>=-eq-ok (validate_identifier field value) _ h in sym (ok-injective h)

module _ (J : JsonLib) where
  open J use {Number}

  pub record IsNormalized (limits : NormalizerLimits) (uuid : Str) (message : MqttMessage)
      (context : NormalizationContext Number) (event : NormalizedEvent Number) : Type 0 where
    pub within : length message.payload ≤ limits.max_payload_size_bytes
    pub measured : event.payload_size_bytes ≡ length message.payload
    pub decoded :
        IsDecoded J message.payload limits.max_json_depth context.route.codec event.payload
    pub identified : event.id ≡ codes "evt_" ++ uuid
    pub correlated : event.correlation_id ≡ event.id
    pub same_topic : event.topic ≡ message.topic
    pub concrete : (contains plus event.topic || contains hash event.topic) ≡ false
    pub in_project : event.project_id ≡ context.project_id
    pub by_route : event.route_id ≡ context.route.id
    pub by_broker : event.broker_id ≡ context.route.broker_id
    pub of_type : event.event_type ≡ context.route.event_type
    pub device : extract_device_id J context.route context.params event.payload ≡ ok event.device_id
    pub extracted :
        extract_fields context.schema_mapping event.payload limits.max_extracted_fields
        ≡ ok event.fields
    pub retained :
        IsRetained message.payload context.route.codec limits.max_raw_payload_size_bytes
          limits.retain_raw_payload event.raw

  decode_payload-IsDecoded :
      (codec : PayloadCodecKind) (payload : List ℕ) (limit : ℕ) {d : DecodedPayload Number}
      → decode_payload J codec payload limit ≡ ok d
      → IsDecoded J payload limit codec d
  unfolding decode_payload
  decode_payload-IsDecoded PayloadCodecKind.raw payload limit h =
      subst (IsDecoded J payload limit PayloadCodecKind.raw) (ok-injective h) unchanged
  decode_payload-IsDecoded PayloadCodecKind.json payload limit h =
      let (v, parses, h) = >>=-eq-ok (map_err (invalid_json_error J) (J.from_slice payload)) _ h in
      let (u, shallow, h) =
        >>=-eq-ok
          (reject_if (ltb limit (json_depth v)) (pipeline (json_too_deep (json_depth v) limit))) _
          h in
      subst (IsDecoded J payload limit PayloadCodecKind.json) (ok-injective h)
        (IsDecoded.parsed v (map_err-eq-ok _ _ parses) (ltb→le _ _ (reject_if-eq-ok _ _ shallow)))

  build_raw_payload_ref-IsRetained :
      (payload : List ℕ) (codec : PayloadCodecKind) (retain : Bool) (limit : ℕ)
      {o : Option RawPayloadRef}
      → build_raw_payload_ref payload codec retain limit ≡ ok o
      → IsRetained payload codec limit retain o
  unfolding build_raw_payload_ref
  build_raw_payload_ref-IsRetained payload codec false limit h =
      subst (IsRetained payload codec limit false) (ok-injective h) dropped
  build_raw_payload_ref-IsRetained payload codec true limit h =
      elim (Bool-cases (ltb limit (length payload))) [
        | inl large ↦ let wrong = rw large at h in cc
        | inr small ↦
            subst (IsRetained payload codec limit true) (ok-injective (rw small at h))
              (kept _ refl refl (ltb→le _ _ small))
      ]

  -- The event that `normalize` builds out of its parts.
  abbrev assemble :
      MqttMessage
      → NormalizationContext Number
      → DecodedPayload Number
      → Option Str
      → BTreeMap (FieldValue Number)
      → Str
      → Option RawPayloadRef
      → Identifier
      → NormalizedEvent Number
  assemble message context payload device_id fields topic copy id = record {
    id = id;
    correlation_id = id;
    project_id = context.project_id;
    broker_id = context.route.broker_id;
    route_id = context.route.id;
    schema_mapping_id = mapping_id J context.schema_mapping;
    topic = topic;
    device_id = device_id;
    event_type = context.route.event_type;
    received_at = message.received_at;
    payload_size_bytes = length message.payload;
    payload = payload;
    fields = fields;
    raw = copy;
    normalization_errors = [];
    metadata = [];
  }

  assembled :
      (limits : NormalizerLimits) (uuid : Str) (message : MqttMessage)
      (context : NormalizationContext Number) (payload : DecodedPayload Number)
      (device_id : Option Str) (fields : BTreeMap (FieldValue Number)) (topic : Str)
      (copy : Option RawPayloadRef) (id : Identifier) {u : Unit {0}}
      → validate_payload_size message.payload limits.max_payload_size_bytes ≡ ok u
      → decode_payload J context.route.codec message.payload limits.max_json_depth ≡ ok payload
      → extract_device_id J context.route context.params payload ≡ ok device_id
      → extract_fields context.schema_mapping payload limits.max_extracted_fields ≡ ok fields
      → new_topic_name message.topic ≡ ok topic
      → build_raw_payload_ref message.payload context.route.codec limits.retain_raw_payload
          limits.max_raw_payload_size_bytes
        ≡ ok copy
      → new_id "event_id" (codes "evt_" ++ uuid) ≡ ok id
      → IsNormalized limits uuid message context
          (assemble message context payload device_id fields topic copy id)
  unfolding validate_payload_size
  assembled limits uuid message context payload device_id fields topic copy id sized decodes finds
        extracts names copies identifies =
      let (same, concrete) = new_topic_name-eq-ok message.topic names in
      record {
        within = ltb→le _ _ (reject_if-eq-ok _ _ sized);
        measured = refl;
        decoded = decode_payload-IsDecoded context.route.codec message.payload _ decodes;
        identified = new_id-eq-ok "event_id" _ identifies;
        correlated = refl;
        same_topic = same;
        concrete = concrete;
        in_project = refl;
        by_route = refl;
        by_broker = refl;
        of_type = refl;
        device = finds;
        extracted = extracts;
        retained =
            build_raw_payload_ref-IsRetained message.payload context.route.codec
              limits.retain_raw_payload limits.max_raw_payload_size_bytes copies;
      }

  pub normalize-IsNormalized :
      (limits : NormalizerLimits) (uuid : Str) (message : MqttMessage)
      (context : NormalizationContext Number) (event : NormalizedEvent Number)
      → normalize J limits uuid message context ≡ ok event
      → IsNormalized limits uuid message context event
  unfolding normalize
  normalize-IsNormalized limits uuid message context event h =
      let (u1, valid, h) = >>=-eq-ok (map_err domain (validate_route context.route)) _ h in
      let (u2, sized, h) =
        >>=-eq-ok (validate_payload_size message.payload limits.max_payload_size_bytes) _ h in
      let (payload, decodes, h) =
        >>=-eq-ok (decode_payload J context.route.codec message.payload limits.max_json_depth) _
          h in
      let (device_id, finds, h) =
        >>=-eq-ok (extract_device_id J context.route context.params payload) _ h in
      let (fields, extracts, h) =
        >>=-eq-ok (extract_fields context.schema_mapping payload limits.max_extracted_fields) _ h in
      let (topic, names, h) = >>=-eq-ok (map_err domain (new_topic_name message.topic)) _ h in
      let (copy, copies, h) =
        >>=-eq-ok
          (build_raw_payload_ref message.payload context.route.codec limits.retain_raw_payload
            limits.max_raw_payload_size_bytes)
          _ h in
      let (id, identifies, h) =
        >>=-eq-ok (map_err domain (new_id "event_id" (codes "evt_" ++ uuid))) _ h in
      subst (IsNormalized limits uuid message context) (ok-injective h) (
        assembled limits uuid message context payload device_id fields topic copy id sized decodes
          finds extracts (map_err-eq-ok _ _ names) copies (map_err-eq-ok _ _ identifies))
