-- ===== src/Tests/Normalizing.antt =====
-- A message that becomes an event.
use pipe_bolt.Prelude.{[], arith, false, keep, length, none, ok, refl, some, true, ℕ, ◌∷◌, ◌≡◌}
use pipe_bolt.Text.{byte_len, codes, contains, split, str_eq, trim}
use pipe_bolt.Json.{JsonLib, end, get, get_json_path, get_member, member, number, object, string}
use pipe_bolt.Map.{insert}
use pipe_bolt.Domain.Id.{new_id, segments, validate_field_path, validate_identifier, validate_text}
use pipe_bolt.Domain.Config.{
  PayloadSchemaMapping, TopicRouteConfig, at_least_once, number_type, string_type,
  topic_wildcard_index,
}
use pipe_bolt.Domain.Config.Filter.{new_filter, new_topic_name, validate_filter}
use pipe_bolt.Domain.Config.Validate.{validate_field_mapping, validate_mapping, validate_route}
use pipe_bolt.Domain.Event.{FieldValue, NormalizedEvent, from_json, json_payload}
use pipe_bolt.Message.{MqttMessage}
use pipe_bolt.Route.{
  ConfigRouteMatcher, compile, compile_route, exact, match_message, match_routes, matches,
  new_matcher, parse, single_wild_card,
}
use pipe_bolt.Route.Compile.{is_enabled}
use pipe_bolt.Normalizer.{
  build_raw_payload_ref, decode_payload, default_limits, extract_device_id, extract_fields,
  extract_mapped, json_depth, mapping_for, normalize, normalize_match, normalize_routed_message,
  validate_payload_size,
}
use pipe_bolt.Normalizer.Routed.{Routed, normalize_routed_message-Routed}
use pipe_bolt.Normalizer.Fields.{Outcome, extract_fields-Outcome}
use pipe_bolt.Tests.Samples.{numbers, sample_route}
use pipe_bolt.Matcher.{single}

-- The parser reads every payload as a temperature, the number of its bytes.
abbrev reader : JsonLib
reader = record numbers {
  from_slice = λ payload. ok (object (member (codes "temperature") (number (length payload)) end));
}

abbrev mapping : PayloadSchemaMapping ℕ
mapping = record {
  id = codes "map-1";
  name = codes "telemetry";
  fields =
      (record {
        source = codes "temperature";
        target = codes "temp";
        value_type = number_type;
        required = true;
        default = none;
      })
      ∷ (record {
        source = codes "unit";
        target = codes "unit";
        value_type = string_type;
        required = false;
        default = some (string (codes "C"));
      })
      ∷ [];
}

abbrev mapped_route : TopicRouteConfig
mapped_route = record (sample_route "route-1" "devices/+/telemetry" true) {
  device_id = topic_wildcard_index 0;
  schema_mapping_id = some (codes "map-1");
}

abbrev matcher : ConfigRouteMatcher
matcher = record {
  project_id = codes "project-1";
  routes =
      (record {
        config = mapped_route;
        matcher = exact (codes "devices") ∷ single_wild_card ∷ exact (codes "telemetry") ∷ [];
      })
      ∷ [];
}

abbrev message : MqttMessage
message = record {
  topic = codes "devices/device-1/telemetry";
  qos = at_least_once;
  retain = false;
  payload = 1 ∷ 2 ∷ 3 ∷ [];
  received_at = 7;
}

abbrev event : NormalizedEvent ℕ
event = record {
  id = codes "evt_0";
  correlation_id = codes "evt_0";
  project_id = codes "project-1";
  broker_id = codes "broker-1";
  route_id = codes "route-1";
  schema_mapping_id = some (codes "map-1");
  topic = codes "devices/device-1/telemetry";
  device_id = some (codes "device-1");
  event_type = codes "telemetry";
  received_at = 7;
  payload_size_bytes = 3;
  payload = json_payload (object (member (codes "temperature") (number 3) end));
  fields = (codes "temp", FieldValue.number 3) ∷ (codes "unit", FieldValue.string (codes "C")) ∷ [];
  raw =
      some
        (record { byte_len = 3; content_type = some "application/json"; bytes = 1 ∷ 2 ∷ 3 ∷ [] });
  normalization_errors = [];
  metadata = [];
}

matcher_built : new_matcher (codes "project-1") (mapped_route ∷ []) ≡ ok matcher
unfolding new_matcher compile compile_route parse new_filter validate_filter validate_route
    validate_text trim byte_len split contains str_eq
matcher_built = refl

event_built :
    normalize_routed_message reader matcher default_limits (codes "0") (mapping ∷ []) message
    ≡ ok (some event)
unfolding normalize_routed_message normalize_match normalize match_message match_routes matches
    split contains str_eq validate_route validate_text trim byte_len validate_payload_size
    decode_payload json_depth extract_device_id single extract_fields validate_mapping
    validate_field_mapping validate_field_path extract_mapped get_json_path get get_member segments
    from_json insert new_topic_name build_raw_payload_ref new_id validate_identifier mapping_for
    validate_filter
event_built = refl

normalize_routed_message-Routed_example :
    Routed reader default_limits
      (codes "0")
      (mapping ∷ [])
      message
      (codes "project-1")
      (keep is_enabled (mapped_route ∷ []))
      (some event)
normalize_routed_message-Routed_example =
    normalize_routed_message-Routed reader default_limits (codes "0") (mapping ∷ []) message
      (codes "project-1") (mapped_route ∷ []) matcher (some event) matcher_built event_built

mapping_valid : validate_mapping mapping ≡ ok tt
unfolding validate_mapping validate_field_mapping validate_text trim byte_len
mapping_valid = refl

extract_fields-Outcome_example :
    Outcome (object (member (codes "temperature") (number 3) end)) mapping.fields [] (
      extract_fields
        (some mapping)
        (json_payload (object (member (codes "temperature") (number 3) end)))
        128)
extract_fields-Outcome_example =
    extract_fields-Outcome mapping (member (codes "temperature") (number 3) end) 128 mapping_valid
      (omega arith)
