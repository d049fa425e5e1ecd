-- ===== src/Matcher.antt =====
-- crates/pipe-bolt-core/src/router/matcher.rs: topic filters and the first-match dispatch of the
-- MQTT router.
pub mod Captures
pub mod Wildcards
pub mod Dispatch
use pipe_bolt.Prelude.{
  Bool, List, Option, Result, [], drop, false, get_elem?, if◌then◌else◌, is_empty, length, map,
  none, not, ok, reject_if, some, true, ℕ, ◌&&◌, ◌++◌, ◌+◌, ◌==◌, ◌>>=◌, ◌>>◌, ◌||◌, ◌∷◌,
}
use pipe_bolt.Text.{Str, codes, contains, join, split, str_eq}
use pipe_bolt.Domain.Error.{Check}
use pipe_bolt.Domain.Config.Filter.{hash, plus, slash}
use pipe_bolt.Error.{MqttEngineError, invalid_topic_filter}

pub record TopicParams : Type 0 where
  pub single_level : List Str
  pub multi_level : List Str

abbrev pub no_params : TopicParams
no_params = record { single_level = []; multi_level = [] }

-- `TopicParams::single`
unfoldable pub single : TopicParams → ℕ → Option Str
single p index = get_elem? p.single_level index

-- `TopicParams::multi_as_topic`
unfoldable pub multi_as_topic : TopicParams → Option Str
multi_as_topic p = if is_empty p.multi_level then none else some (join slash p.multi_level)

abbrev pub push_single : TopicParams → Str → TopicParams
push_single p value = record p { single_level = p.single_level ++ value ∷ [] }

abbrev pub set_multi : TopicParams → List Str → TopicParams
set_multi p values = record p { multi_level = values }

pub data TopicFilterLevel : Type 0 where
  exact : Str → TopicFilterLevel
  single_wildcard multi_wildcard : TopicFilterLevel

pub record TopicFilter : Type 0 where
  pub raw : Str
  pub levels : List TopicFilterLevel

unfoldable pub read_level : Str → TopicFilterLevel
read_level level =
    if str_eq level (plus ∷ [])
    then single_wildcard
    else if str_eq level (hash ∷ [])
    then multi_wildcard
    else exact level

abbrev partial_multi_level : Str → MqttEngineError
partial_multi_level filter =
    invalid_topic_filter
      (codes "multi-level wildcard must occupy an entire level in'" ++ filter ++ codes "'")

abbrev early_multi_level : Str → MqttEngineError
early_multi_level filter =
    invalid_topic_filter
      (codes "multi-level wildcard must be the last level in '" ++ filter ++ codes "'")

abbrev partial_single_level : Str → MqttEngineError
partial_single_level filter =
    invalid_topic_filter
      (codes "single-level wildcard must occupy and entire level in '" ++ filter ++ codes "'")

-- The loop of `validate_mqtt_topic_filter`, at the levels that are left; `last` is
-- `index == level_count - 1`.
unfoldable pub check_level : Str → Str → Bool → Check MqttEngineError
check_level filter level last = do
  reject_if (contains hash level && not (str_eq level (hash ∷ []))) (partial_multi_level filter)
  reject_if (contains hash level && not last) (early_multi_level filter)
  reject_if (contains plus level && not (str_eq level (plus ∷ []))) (partial_single_level filter)

unfoldable pub check_levels : Str → List Str → Check MqttEngineError
unfolding check_level
check_levels filter [] = ok tt
check_levels filter (level ∷ levels) =
    check_level filter level (is_empty levels) >>= λ _. check_levels filter levels

unfoldable pub validate_mqtt_topic_filter : Str → Check MqttEngineError
unfolding check_levels
validate_mqtt_topic_filter filter = do
  reject_if (is_empty filter) (invalid_topic_filter (codes "topic filter must not be empty"))
  check_levels filter (split slash filter)

-- `TopicFilter::parse`
unfoldable pub parse : Str → Result MqttEngineError TopicFilter
unfolding read_level
parse raw = do
  validate_mqtt_topic_filter raw
  ok (record { raw = raw; levels = map read_level (split slash raw) })

-- The loop of `TopicFilter::matches`: the levels left, the levels of the topic, `topic_index` and
-- `params`.
unfoldable pub match_levels :
    List TopicFilterLevel → List Str → ℕ → TopicParams → Option TopicParams
match_levels [] topic index params = if index == length topic then some params else none
match_levels (exact expected ∷ levels) topic index params = elim (get_elem? topic index) [
  | none ↦ none
  | some actual ↦ elim (str_eq expected actual) [
    | true ↦ match_levels levels topic (index + 1) params
    | false ↦ none
  ]
]
match_levels (single_wildcard ∷ levels) topic index params = elim (get_elem? topic index) [
  | none ↦ none
  | some actual ↦ match_levels levels topic (index + 1) (push_single params actual)
]
match_levels (multi_wildcard ∷ levels) topic index params =
    some (set_multi params (drop index topic))

-- `TopicFilter::matches`
unfoldable pub matches : TopicFilter → Str → Option TopicParams
unfolding match_levels
matches filter topic =
    if is_empty topic || (contains plus topic || contains hash topic)
    then none
    else match_levels filter.levels (split slash topic) 0 no_params
