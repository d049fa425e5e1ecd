-- ===== src/Matcher/Wildcards.antt =====
-- The two validations of topic filters, that of the MQTT router and that of the domain model.
use pipe_bolt.Prelude.{
  nil_of_is_empty, >>=-eq-ok, List, [], arith, false, is_empty, ok, refl, true, ◌↔◌, ◌∷◌, ◌≡◌, ◌⊎◌,
}
use pipe_bolt.Text.{Str, contains, split}
use pipe_bolt.Text.Equality.{str_eq_iff}
use pipe_bolt.Domain.Id.{validate_text}
use pipe_bolt.Domain.Config.{max_topic_bytes}
use pipe_bolt.Domain.Config.Filter.{check_parts, hash, plus, slash, validate_filter}
use pipe_bolt.Matcher.{check_levels, validate_mqtt_topic_filter}

-- A `#` stands alone in its level, which is the last, and a `+` alone in its level.
abbrev pub IsWellPlaced : List Str → Type 0
IsWellPlaced [] = Unit
IsWellPlaced (part ∷ parts) =
    ((contains hash part ≡ false) ⊎ ((part ≡ hash ∷ []) × (parts ≡ [])))
    × ((contains plus part ≡ false) ⊎ (part ≡ plus ∷ []))
    × IsWellPlaced parts

contains-hash : contains hash (hash ∷ []) ≡ true
unfolding contains
contains-hash = refl

check_parts-IsWellPlaced : (parts : List Str) → check_parts parts ≡ ok tt → IsWellPlaced parts
unfolding check_parts
check_parts-IsWellPlaced [] h = tt
check_parts-IsWellPlaced (part ∷ parts) h = (
  ground (arith, str_eq_iff part (hash ∷ []), nil_of_is_empty parts),
  ground (arith, str_eq_iff part (plus ∷ [])),
  check_parts-IsWellPlaced parts (ground arith),
)

IsWellPlaced-check_parts : (parts : List Str) → IsWellPlaced parts → check_parts parts ≡ ok tt
unfolding check_parts
IsWellPlaced-check_parts [] h = refl
IsWellPlaced-check_parts (part ∷ parts) h = ground (
  arith,
  str_eq_iff part (hash ∷ []),
  str_eq_iff part (plus ∷ []),
  contains-hash,
  IsWellPlaced-check_parts parts,
)

check_levels-IsWellPlaced :
    (filter : Str) (parts : List Str) → check_levels filter parts ≡ ok tt → IsWellPlaced parts
unfolding check_levels
check_levels-IsWellPlaced filter [] h = tt
check_levels-IsWellPlaced filter (part ∷ parts) h = (
  ground (arith, str_eq_iff part (hash ∷ []), nil_of_is_empty parts),
  ground (arith, str_eq_iff part (plus ∷ [])),
  check_levels-IsWellPlaced filter parts (ground arith),
)

IsWellPlaced-check_levels :
    (filter : Str) (parts : List Str) → IsWellPlaced parts → check_levels filter parts ≡ ok tt
unfolding check_levels
IsWellPlaced-check_levels filter [] h = refl
IsWellPlaced-check_levels filter (part ∷ parts) h = ground (
  arith,
  str_eq_iff part (hash ∷ []),
  str_eq_iff part (plus ∷ []),
  contains-hash,
  IsWellPlaced-check_levels filter parts,
)

-- The router accepts exactly the filters that are not empty and whose wildcards are well placed.
pub validate_mqtt_topic_filter_iff :
    (filter : Str)
    → (validate_mqtt_topic_filter filter ≡ ok tt)
      ↔ ((is_empty filter ≡ false) × IsWellPlaced (split slash filter))
unfolding validate_mqtt_topic_filter
validate_mqtt_topic_filter_iff filter = (
  λ h. (ground arith, check_levels-IsWellPlaced filter (split slash filter) (ground arith)),
  λ h. rw (h.0) (IsWellPlaced-check_levels filter (split slash filter) h.1),
)

-- The domain model accepts exactly the filters that are texts of at most 1024 bytes and whose
-- wildcards are well placed.
pub validate_filter_iff :
    (filter : Str)
    → (validate_filter filter ≡ ok tt) ↔ (
        (validate_text "topic_filter" filter max_topic_bytes ≡ ok tt)
        × IsWellPlaced (split slash filter))
unfolding validate_filter
validate_filter_iff filter = (
  λ h.
      let (u, text, parts) = >>=-eq-ok (validate_text "topic_filter" filter max_topic_bytes) _ h in
      (text, check_parts-IsWellPlaced (split slash filter) parts),
  λ h. rw (h.0) (IsWellPlaced-check_parts (split slash filter) h.1),
)
