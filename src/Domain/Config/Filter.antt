-- ===== src/Domain/Config/Filter.antt =====
-- `TopicFilter` and `TopicName` of crates/pipe-bolt-domain/src/config.rs.
use pipe_bolt.Prelude.{
  Bool, List, Result, [], is_empty, not, ok, reject_if, ℕ, ◌&&◌, ◌>>=◌, ◌>>◌, ◌||◌, ◌∷◌,
}
use pipe_bolt.Text.{Str, contains, split, str_eq}
use pipe_bolt.Domain.Error.{Check, DomainError, invalid_topic_filter, invalid_topic_name}
use pipe_bolt.Domain.Id.{validate_text}
use pipe_bolt.Domain.Config.{max_topic_bytes}

abbrev pub plus : ℕ
plus = b'+'

abbrev pub hash : ℕ
hash = b'#'

abbrev pub slash : ℕ
slash = b'/'

-- One round of the loop of `TopicFilter::validate`; `last` is `index + 1 == parts.len()`.
unfoldable pub check_part : Str → Bool → Check DomainError
check_part part last = do
  reject_if (contains hash part && not (str_eq part (hash ∷ [])))
      (invalid_topic_filter "multi-level wildcard must occupy the whole segment")
  reject_if (str_eq part (hash ∷ []) && not last)
      (invalid_topic_filter "multi-level wildcard must be the last segment")
  reject_if (contains plus part && not (str_eq part (plus ∷ [])))
      (invalid_topic_filter "single-level wildcard must occupy the whole segment")

unfoldable pub check_parts : List Str → Check DomainError
unfolding check_part
check_parts [] = ok tt
check_parts (part ∷ parts) = check_part part (is_empty parts) >>= λ _. check_parts parts

unfoldable pub validate_filter : Str → Check DomainError
unfolding check_parts
validate_filter filter = do
  validate_text "topic_filter" filter max_topic_bytes
  check_parts (split slash filter)

-- `TopicFilter::new`
unfoldable pub new_filter : Str → Result DomainError Str
new_filter filter = do validate_filter filter; ok filter

-- `TopicName::new`
unfoldable pub new_topic_name : Str → Result DomainError Str
new_topic_name topic = do
  validate_text "topic" topic max_topic_bytes
  reject_if (contains plus topic || contains hash topic)
      (invalid_topic_name "topic name must not contain wildcards")
  ok topic
