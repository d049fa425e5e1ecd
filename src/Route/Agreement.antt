-- ===== src/Route/Agreement.antt =====
-- The two matchers of the source, that of the MQTT router and that of the configured routes, agree.
use pipe_bolt.Matcher
use pipe_bolt.Matcher.{TopicFilter}
use pipe_bolt.Prelude.{List, map}
use pipe_bolt.Text.{Str}
use pipe_bolt.Route.{TopicFilterLevel, exact, multi_wild_card, single_wild_card}

abbrev pub level_of : TopicFilterLevel → Matcher.TopicFilterLevel
level_of (exact e) = Matcher.TopicFilterLevel.exact e
level_of single_wild_card = Matcher.TopicFilterLevel.single_wildcard
level_of multi_wild_card = Matcher.TopicFilterLevel.multi_wildcard

-- The filter of the router that has the same levels.
abbrev pub filter_of : Str → List TopicFilterLevel → TopicFilter
filter_of raw levels = record { raw = raw; levels = map level_of levels }
