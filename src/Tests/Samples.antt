-- ===== src/Tests/Samples.antt =====
-- A small configuration. The numbers of the JSON library are natural numbers here, which stand for
-- the floating-point numbers as well.
use pipe_bolt.Prelude.{
  Bool, List, Option, String, [], err, if◌then◌else◌, leb, ltb, none, ok, refl, some, true, ℕ, ◌+◌,
  ◌==◌, ◌∷◌, ◌≡◌,
}
use pipe_bolt.Text.{Str, codes, str_eq}
use pipe_bolt.Map.{BTreeMap, contains_key, insert}
use pipe_bolt.Json.{JsonLib, Value, end, member, nil}
use pipe_bolt.Domain.Config.{
  DeviceIdExtraction, PayloadCodecKind, SinkDefinition, TopicRouteConfig, at_least_once,
  drop_oldest, from_secs, post, webhook,
}
use pipe_bolt.Domain.Rule.{
  ActionIntentTemplate, ConditionExpr, FieldRef, RuleDefinition, event_received, field,
  greater_than, literal,
}
use pipe_bolt.Error.{command_queue_unavailable, sink_not_found}
use pipe_bolt.Egress.{
  IpAddr, UrlLib, default_policy, parse_url, trim_end_dots, v4, validate_egress_host,
  validate_scheme,
}
use pipe_bolt.Dispatch.{Boundaries}
use pipe_bolt.Forwarder.{
  HttpLib, SinkState, clamp_timeout, compile_each, compile_headers, compile_kind, compile_sink,
  compile_sinks, default_forward_limits, enabled_sink,
}
use pipe_bolt.Domain.Event.{FieldValue, NormalizedEvent, json_payload}

abbrev pub numbers : JsonLib
numbers = record {
  Number = ℕ;
  F64 = ℕ;
  as_f64 = λ n. some n;
  number_eq = λ m n. m == n;
  gt = λ m n. ltb n m;
  ge = λ m n. leb n m;
  lt = ltb;
  le = leb;
  from_u64 = λ n. n;
  number_text = λ n. n ∷ [];
  from_slice = λ bytes. ok (Value.array nil);
  to_vec = λ v. ok [];
}

abbrev pub sample_route : String → String → Bool → TopicRouteConfig
sample_route id filter enabled = record {
  id = codes id;
  broker_id = codes "broker-1";
  name = codes "telemetry";
  topic_filter = codes filter;
  codec = PayloadCodecKind.json;
  schema_mapping_id = none;
  device_id = DeviceIdExtraction.none;
  event_type = codes "telemetry";
  qos = at_least_once;
  enabled = enabled;
  backpressure = drop_oldest;
}

abbrev pub sample_event : NormalizedEvent ℕ
sample_event = record {
  id = codes "evt-test";
  correlation_id = codes "evt-test";
  project_id = codes "project-1";
  broker_id = codes "broker-1";
  route_id = codes "route-1";
  schema_mapping_id = none;
  topic = codes "devices/device-1/telemetry";
  device_id = some (codes "device-1");
  event_type = codes "telemetry";
  received_at = 0;
  payload_size_bytes = 16;
  payload = json_payload (Value.object (member (codes "temperature") (Value.number 42) end));
  fields = (codes "temperature", FieldValue.number 42) ∷ [];
  raw = none;
  normalization_errors = [];
  metadata = (codes "site", codes "hall") ∷ [];
}

-- The temperature is greater than a number.
abbrev pub hotter : ℕ → ConditionExpr ℕ
hotter n =
    greater_than (field (FieldRef.extracted (codes "temperature"))) (literal (Value.number n))

abbrev pub sample_rule : String → Bool → ConditionExpr ℕ → RuleDefinition ℕ
sample_rule id enabled condition = record {
  id = codes id;
  name = codes "High temperature";
  enabled = enabled;
  trigger = event_received;
  condition = some condition;
  actions =
      ActionIntentTemplate.add_metadata (codes "severity") (codes "hot")
      ∷ ActionIntentTemplate.stream_to_ui
      ∷ [];
}

-- Boundaries that count the events that are published.
abbrev pub counters : Boundaries ℕ ℕ
counters = record {
  try_publish = λ e w. (ok (record { accepted = true }), w + 1);
  try_forward = λ r w. (err (sink_not_found r.sink_id), w);
  try_enqueue_command = λ r w. (err command_queue_unavailable, w);
  now_v7 = λ w. (codes "0", w);
}

-- The addresses that are read are one private address and the addresses without brackets of none.
abbrev pub read_ip : Str → Option IpAddr
read_ip [] = none
read_ip (c ∷ s) =
    if c == b'['
    then none
    else if str_eq (c ∷ s) (codes "10.0.0.1")
    then some (v4 10 0 0 1)
    else none

-- A URL is its scheme and its host, and a text is the host of a URL with the scheme `https`.
abbrev pub urls : UrlLib
urls = record {
  Url = Str × Str;
  parse = λ s. some (codes "https", s);
  scheme = λ u. u.0;
  host_str = λ u. some u.1;
  parse_ip = read_ip;
}

abbrev pub hook : SinkDefinition
hook = record {
  id = codes "hook";
  name = codes "Webhook";
  enabled = true;
  kind = webhook (codes "example.com") post [] (from_secs 5);
}

abbrev pub http : HttpLib
http = record {
  HeaderName = Str;
  HeaderValue = Str;
  HeaderMap = List (Str × Str);
  from_bytes = λ s. some s;
  as_str = λ s. s;
  from_str = λ s. some s;
  no_headers = [];
  insert_header = λ name value m. (name, value) ∷ m;
}

abbrev pub registry : BTreeMap (SinkState urls http)
registry =
    (
      codes "hook",
      enabled_sink (record {
        url = (codes "https", codes "example.com");
        method = post;
        headers = [];
        timeout = from_secs 5;
      }),
    )
    ∷ []

pub registry_compiled :
    compile_sinks urls http [] (hook ∷ []) default_forward_limits default_policy ≡ ok registry
unfolding compile_sinks compile_sink compile_kind parse_url validate_scheme validate_egress_host
    trim_end_dots str_eq compile_headers compile_each clamp_timeout contains_key insert
registry_compiled = refl
