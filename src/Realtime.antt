-- ===== src/Realtime.antt =====
-- crates/pipe-bolt-core/src/web/realtime/filter.rs: which telemetry events a client of the realtime
-- endpoints is sent; the events are those of crates/pipe-bolt-core/src/bus.rs.
pub mod Filter
pub mod Prefix
use pipe_bolt.Prelude.{
  Bool, List, Option, [], false, if◌then◌else◌, is_empty, none, not, some, true, ℕ, ◌==◌, ◌||◌, ◌∷◌,
}
use pipe_bolt.Text.{Str, codes, split, str_eq}
use pipe_bolt.Domain.Config.Filter.{slash}

pub record TelemetryEvent : Type 0 where
  pub topic : Str
  pub payload : List ℕ
  pub received_at : ℕ

pub record TelemetryFilter : Type 0 where
  pub device : Option Str
  pub topic : Option Str
  pub topic_prefix : Option Str
  pub event_type : Option Str

-- `str::strip_prefix`
unfoldable pub strip_prefix : Str → Str → Option Str
strip_prefix [] s = some s
strip_prefix (p ∷ ps) [] = none
strip_prefix (p ∷ ps) (c ∷ s) = let rest = strip_prefix ps s in if p == c then rest else none

-- `.is_some_and(|rest| rest.starts_with('/'))`
abbrev pub is_below : Option Str → Bool
is_below none = false
is_below (some []) = false
is_below (some (c ∷ s)) = c == slash

unfoldable pub topic_matches_prefix : Str → Str → Bool
topic_matches_prefix topic prefix = str_eq topic prefix || is_below (strip_prefix prefix topic)

abbrev pub is_namespace : Str → Bool
is_namespace level = str_eq level (codes "devices") || str_eq level (codes "device")

-- `.next().filter(|level| !level.is_empty())`
abbrev pub next_level : List Str → Option Str
next_level [] = none
next_level (level ∷ levels) = if is_empty level then none else some level

-- `telemetry_device` at the levels of the topic
unfoldable pub device_of : List Str → Option Str
device_of [] = none
device_of (namespace ∷ levels) = if is_namespace namespace then next_level levels else none

abbrev pub telemetry_device : Str → Option Str
telemetry_device topic = device_of (split slash topic)

-- The arms of the `match` of `telemetry_event_type`, at the third level and those after it.
abbrev pub event_type_arm : Str → List Str → Option Str
event_type_arm kind levels =
    if str_eq kind (codes "telemetry")
    then some (codes "telemetry")
    else if str_eq kind (codes "status")
    then some (codes "status")
    else if str_eq kind (codes "event")
    then next_level levels
    else none

-- `telemetry_event_type` at the levels of the topic
unfoldable pub event_type_of : List Str → Option Str
event_type_of (namespace ∷ device ∷ kind ∷ levels) =
    if is_namespace namespace then event_type_arm kind levels else none
event_type_of _ = none

abbrev pub telemetry_event_type : Str → Option Str
telemetry_event_type topic = event_type_of (split slash topic)

-- `==` between an optional text and a text that is there
abbrev pub is_text : Option Str → Str → Bool
is_text none expected = false
is_text (some actual) expected = str_eq actual expected

-- `if let Some(expected) = option && !test(expected)`
abbrev pub is_unmet : Option Str → (Str → Bool) → Bool
is_unmet none test = false
is_unmet (some expected) test = not (test expected)

-- `TelemetryFilter::matches`
unfoldable pub matches : TelemetryFilter → TelemetryEvent → Bool
matches filter event =
    if is_unmet filter.device (λ expected. is_text (telemetry_device event.topic) expected)
    then false
    else if is_unmet filter.topic (λ expected. str_eq event.topic expected)
    then false
    else if is_unmet filter.topic_prefix (λ expected. topic_matches_prefix event.topic expected)
    then false
    else if is_unmet filter.event_type
        (λ expected. is_text (telemetry_event_type event.topic) expected)
    then false
    else true
