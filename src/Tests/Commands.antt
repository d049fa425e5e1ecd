-- ===== src/Tests/Commands.antt =====
-- Commands and command templates.
use pipe_bolt.Prelude.{List, Result, [], err, false, length, ok, refl, true, ℕ, ◌∷◌, ◌≡◌, ◌≤◌}
use pipe_bolt.Text.{Str, byte_len, codes, contains, split, str_eq, trim}
use pipe_bolt.Text.Levels.{occurrences}
use pipe_bolt.Json.{Value}
use pipe_bolt.Map.{lookup}
use pipe_bolt.Domain.Config.{CommandTemplate, at_least_once}
use pipe_bolt.Domain.Config.Filter.{hash, plus, slash}
use pipe_bolt.Message.{validate_topic_name}
use pipe_bolt.Command.{
  CommandPayload, CommandRequest, ValidatedCommand, least_once, normalize_segment, payload_bytes,
  string_bytes, validate_command,
}
use pipe_bolt.Command.Template.{
  Params, close_brace, exact_placeholder_key, missing_parameter, payload_surface, render_from,
  render_payload_string, render_payload_value, render_text_template, render_topic_template,
  scalar_param, scalar_text, strip_close, topic_param, unopened_placeholder,
  validate_placeholder_key,
}
use pipe_bolt.Command.Topics.{literal_text, render_topic_template-levels}
use pipe_bolt.Command.Segments.{IsSegment, validate_command-IsSegment}
use pipe_bolt.Tests.Samples.{numbers}

abbrev decoder : Str → Result Str (List ℕ)
decoder s = err (codes "not supported")

abbrev request : CommandRequest ℕ
request = record {
  device = codes " device-1 ";
  command = codes "relay";
  payload = CommandPayload.text (codes "ON");
  qos = least_once;
  retain = false;
}

abbrev validated : ValidatedCommand
validated = record {
  device = codes "device-1";
  command = codes "relay";
  topic = codes "devices/device-1/command/relay";
  qos = at_least_once;
  retain = false;
  payload = codes "ON";
}

request_accepted : validate_command numbers decoder request ≡ ok validated
unfolding validate_command normalize_segment trim byte_len contains payload_bytes string_bytes
    validate_topic_name
request_accepted = refl

validate_command-IsSegment_example :
    (validated.device ≡ trim request.device)
    × (validated.command ≡ trim request.command)
    × IsSegment validated.device 128
    × IsSegment validated.command 128
    × (split slash validated.topic
        ≡ codes "devices" ∷ validated.device ∷ codes "command" ∷ validated.command ∷ [])
    × (length validated.payload ≤ 65536)
validate_command-IsSegment_example =
    validate_command-IsSegment numbers decoder request validated request_accepted

abbrev template : CommandTemplate ℕ
template = record {
  id = codes "relay-on";
  name = codes "Turn Relay On";
  broker_id = codes "broker-local";
  topic_template = codes "devices/{device/id}/commands/relay";
  payload_template = Value.string (codes "relay {state}");
  qos = at_least_once;
  retain = false;
  enabled = true;
}

abbrev params : Params numbers
params =
    (codes "device/id", Value.string (codes "device-1"))
    ∷ (codes "state", Value.bool true)
    ∷ (codes "a", Value.string (codes "1"))
    ∷ (codes "b", Value.string (codes "2"))
    ∷ []

topic_rendered :
    render_topic_template numbers template params ≡ ok (codes "devices/device-1/commands/relay")
unfolding render_topic_template render_text_template render_from validate_placeholder_key trim
    topic_param scalar_param scalar_text lookup str_eq contains
topic_rendered = refl

render_topic_template-levels_example :
    (length (split slash (codes "devices/device-1/commands/relay"))
      ≡ length (split slash (literal_text false template.topic_template)))
    × (occurrences plus (codes "devices/device-1/commands/relay")
        ≡ occurrences plus (literal_text false template.topic_template))
    × (occurrences hash (codes "devices/device-1/commands/relay")
        ≡ occurrences hash (literal_text false template.topic_template))
    × (contains close_brace (codes "devices/device-1/commands/relay") ≡ false)
render_topic_template-levels_example =
    render_topic_template-levels numbers template params (codes "devices/device-1/commands/relay")
      topic_rendered

payload_rendered :
    render_payload_value numbers template.id params template.payload_template
    ≡ ok (Value.string (codes "relay true"))
unfolding render_payload_value render_payload_string exact_placeholder_key strip_close
    render_text_template render_from validate_placeholder_key trim scalar_param scalar_text lookup
    str_eq contains
payload_rendered = refl

-- Two placeholders at the ends of a text are read as one.
two_placeholders :
    render_payload_value numbers template.id params (Value.string (codes "{a}-{b}"))
    ≡ err (missing_parameter template.id (codes "a}-{b"))
unfolding render_payload_value render_payload_string exact_placeholder_key strip_close
    validate_placeholder_key trim lookup str_eq
two_placeholders = refl

-- A parameter that holds a closing brace is reported as an error of the template.
brace_in_parameter :
    render_payload_value numbers template.id
      ((codes "a", Value.string (codes "}")) ∷ [])
      (Value.string (codes "x {a}"))
    ≡ err (unopened_placeholder template.id payload_surface)
unfolding render_payload_value render_payload_string exact_placeholder_key strip_close
    render_text_template render_from validate_placeholder_key trim scalar_param scalar_text lookup
    str_eq contains
brace_in_parameter = refl
