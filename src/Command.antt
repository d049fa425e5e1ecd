-- ===== src/Command.antt =====
-- crates/pipe-bolt-core/src/command.rs: commands that clients send to devices, and the rendering of
-- command templates. The JSON printer, the base64 decoder and the number texts belong to libraries.
pub mod Segments
pub mod Template
pub mod Topics
pub mod Rendered
use pipe_bolt.Prelude.{
  Bool, List, Result, String, [], if◌then◌else◌, is_empty, length, ltb, map_err, ok, reject_if, ℕ,
  ◌%◌, ◌++◌, ◌+◌, ◌/◌, ◌>>=◌, ◌>>◌, ◌||◌, ◌∷◌,
}
use pipe_bolt.Text.{Str, byte_len, codes, contains, trim}
use pipe_bolt.Json.{JsonLib, Value}
use pipe_bolt.Domain.Config.{MqttQos, at_least_once, at_most_once, exactly_once}
use pipe_bolt.Domain.Config.Filter.{hash, plus, slash}
use pipe_bolt.Error.{MqttEngineError}
use pipe_bolt.Message.{validate_topic_name}

abbrev pub max_device_id_len : ℕ
max_device_id_len = 128

abbrev pub max_command_name_len : ℕ
max_command_name_len = 128

abbrev pub max_command_payload_bytes : ℕ
max_command_payload_bytes = 65536

-- `value.contains('/') || value.contains('+') || value.contains('#')`
abbrev pub has_topic_syntax : Str → Bool
has_topic_syntax s = contains slash s || (contains plus s || contains hash s)

pub data CommandQos : Type 0 where
  most_once least_once once : CommandQos

-- `QoS::from`
abbrev pub qos_of : CommandQos → MqttQos
qos_of most_once = at_most_once
qos_of least_once = at_least_once
qos_of once = exactly_once

pub data CommandValidationError : Type 0 where
  invalid_segment : String → String → CommandValidationError
  invalid_command_topic : MqttEngineError → CommandValidationError
  invalid_command_payload : Str → CommandValidationError
  command_payload_too_large : ℕ → ℕ → CommandValidationError

pub data CommandPayload (N : Type 0) : Type 0 where
  json_value : Value N → CommandPayload N
  text base64 : Str → CommandPayload N
  empty_payload : CommandPayload N

pub record CommandRequest (N : Type 0) : Type 0 where
  pub device : Str
  pub command : Str
  pub payload : CommandPayload N
  pub qos : CommandQos
  pub retain : Bool

pub record ValidatedCommand : Type 0 where
  pub device : Str
  pub command : Str
  pub topic : Str
  pub qos : MqttQos
  pub retain : Bool
  pub payload : List ℕ

unfoldable pub normalize_segment : String → Str → ℕ → Result CommandValidationError Str
normalize_segment name value max_len = do
  reject_if (is_empty (trim value)) (invalid_segment name "must not be empty")
  reject_if (ltb max_len (byte_len (trim value))) (invalid_segment name "is too long")
  reject_if (has_topic_syntax (trim value) || contains 0 (trim value))
      (invalid_segment name "must be a single MQTT topic segment without wildcards")
  ok (trim value)

-- The UTF-8 encoding of a Unicode scalar value.
abbrev pub encode_char : ℕ → List ℕ
encode_char c =
    if ltb c 0x80
    then c ∷ []
    else if ltb c 0x800
    then (0xc0 + c / 0x40) ∷ (0x80 + c % 0x40) ∷ []
    else if ltb c 0x10000
    then (0xe0 + c / 0x1000) ∷ (0x80 + c / 0x40 % 0x40) ∷ (0x80 + c % 0x40) ∷ []
    else (0xf0 + c / 0x40000)
      ∷ (0x80 + c / 0x1000 % 0x40)
      ∷ (0x80 + c / 0x40 % 0x40)
      ∷ (0x80 + c % 0x40)
      ∷ []

-- `String::into_bytes`
unfoldable pub string_bytes : Str → List ℕ
string_bytes [] = []
string_bytes (c ∷ s) = encode_char c ++ string_bytes s

-- `format!("{}/{}/{}/{}", ...)` of `CommandRequest::validate`
abbrev pub command_topic : Str → Str → Str
command_topic device command =
    codes "devices" ++ (slash ∷ device ++ (slash ∷ codes "command" ++ (slash ∷ command)))

module _ (J : JsonLib) (decode_base64 : Str → Result Str (List ℕ)) where
  open J use {Number, to_vec}

  -- `CommandPayload::into_bytes`
  unfoldable pub payload_bytes : CommandPayload Number → Result CommandValidationError (List ℕ)
  payload_bytes (json_value v) = map_err invalid_command_payload (to_vec v)
  payload_bytes (text s) = ok (string_bytes s)
  payload_bytes (base64 s) =
      map_err (λ e. invalid_command_payload (codes "invalid base64 payload: " ++ e))
        (decode_base64 (trim s))
  payload_bytes empty_payload = ok []

  -- `CommandRequest::validate`
  unfoldable pub validate_command :
      CommandRequest Number → Result CommandValidationError ValidatedCommand
  validate_command request = do
    device ← normalize_segment "device" request.device max_device_id_len
    command ← normalize_segment "command" request.command max_command_name_len
    payload ← payload_bytes request.payload
    reject_if (ltb max_command_payload_bytes (length payload))
        (command_payload_too_large max_command_payload_bytes (length payload))
    map_err invalid_command_topic (validate_topic_name (command_topic device command))
    ok (record {
      device = device;
      command = command;
      topic = command_topic device command;
      qos = qos_of request.qos;
      retain = request.retain;
      payload = payload;
    })
