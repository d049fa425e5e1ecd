-- ===== src/Message.antt =====
-- crates/pipe-bolt-core/src/message/envelope.rs. A payload is its bytes; `received_at` is a number of
-- nanoseconds since the Unix epoch.
use pipe_bolt.Prelude.{
  Bool, List, Result, arith, false, is_empty, ok, reject_if, ℕ, ◌>>◌, ◌||◌, ◌↔◌, ◌≡◌,
}
use pipe_bolt.Text.{Str, codes, contains}
use pipe_bolt.Domain.Config.{MqttQos}
use pipe_bolt.Domain.Config.Filter.{hash, plus}
use pipe_bolt.Error.{MqttEngineError, invalid_topic_name}

pub record MqttMessage : Type 0 where
  pub topic : Str
  pub qos : MqttQos
  pub retain : Bool
  pub payload : List ℕ
  pub received_at : ℕ

-- `validate_topic_name`
unfoldable pub validate_topic_name : Str → Result MqttEngineError (Unit {0})
validate_topic_name topic = do
  reject_if (is_empty topic) (invalid_topic_name (codes "topic name must not be empty"))
  reject_if (contains plus topic || contains hash topic)
      (invalid_topic_name (codes "topic name must not contain MQTT wildcards"))

-- `MqttMessage::new`
unfoldable pub new_message : Str → MqttQos → Bool → List ℕ → ℕ → Result MqttEngineError MqttMessage
new_message topic qos retain payload received_at = do
  validate_topic_name topic
  ok (record {
    topic = topic;
    qos = qos;
    retain = retain;
    payload = payload;
    received_at = received_at;
  })

-- A topic name passes exactly if it is not empty and holds no wildcard.
pub validate_topic_name_iff :
    (topic : Str)
    → (validate_topic_name topic ≡ ok tt)
      ↔ ((is_empty topic ≡ false) × (contains plus topic ≡ false) × (contains hash topic ≡ false))
unfolding validate_topic_name
validate_topic_name_iff topic = (λ h. (ground arith, ground arith, ground arith), λ h. ground arith)
