-- ===== src/Tests/Telemetry.antt =====
-- The filter of telemetry events.
use pipe_bolt.Prelude.{[], false, none, refl, some, true, ◌≡◌}
use pipe_bolt.Text.{codes, split, str_eq}
use pipe_bolt.Realtime.{
  TelemetryEvent, TelemetryFilter, device_of, event_type_of, matches, strip_prefix,
  topic_matches_prefix,
}

abbrev event : TelemetryEvent
event = record { topic = codes "devices/a/telemetry"; payload = []; received_at = 0 }

abbrev filter : TelemetryFilter
filter = record {
  device = some (codes "a");
  topic = none;
  topic_prefix = some (codes "devices/a");
  event_type = some (codes "telemetry");
}

selected : matches filter event ≡ true
unfolding matches device_of event_type_of topic_matches_prefix strip_prefix split str_eq
selected = refl

-- The cases of the test of the source.
exact_topic : topic_matches_prefix (codes "devices/a") (codes "devices/a") ≡ true
unfolding topic_matches_prefix strip_prefix str_eq
exact_topic = refl

subtree : topic_matches_prefix (codes "devices/a/telemetry") (codes "devices/a") ≡ true
unfolding topic_matches_prefix strip_prefix str_eq
subtree = refl

partial_level : topic_matches_prefix (codes "devices/abc/telemetry") (codes "devices/a") ≡ false
unfolding topic_matches_prefix strip_prefix str_eq
partial_level = refl
