-- ===== src/Tests/Routing.antt =====
-- Routes and topic filters.
use pipe_bolt.Matcher
use pipe_bolt.Domain.Config.Validate.{validate_route}
use pipe_bolt.Matcher.{TopicFilter, TopicParams}
use pipe_bolt.Matcher.Captures.{Captures, IsConcrete, matches_iff}
use pipe_bolt.Matcher.Dispatch.{MqttRoute, dispatch_cases, dispatch}
use pipe_bolt.Prelude.{
  All, List, Result, [], err, false, keep, map, none, ok, refl, some, true, ℕ, ◌+◌, ◌>>=◌, ◌↔◌, ◌∷◌,
  ◌≡◌, ◌⊎◌,
}
use pipe_bolt.Prelude.First.{IsFirst}
use pipe_bolt.Text.{byte_len, codes, contains, split, str_eq, trim}
use pipe_bolt.Domain.Id.{validate_text}
use pipe_bolt.Domain.Config.{TopicRouteConfig, at_least_once, max_topic_bytes}
use pipe_bolt.Domain.Config.Filter.{new_filter, slash, validate_filter}
use pipe_bolt.Domain.Error.{empty_field}
use pipe_bolt.Error.{MqttEngineError}
use pipe_bolt.Message.{MqttMessage}
use pipe_bolt.Route.{
  ConfigRouteMatcher, compile, compile_route, exact, match_message, match_routes, matches,
  multi_wild_card, new_matcher, parse, single_wild_card,
}
use pipe_bolt.Route.Compile.{
  AreValid, Compiles, HasDistinctIds, config_of, is_enabled, new_matcher-routes,
}
use pipe_bolt.Route.InOrder.{Chosen, match_message-Chosen}
use pipe_bolt.Tests.Samples.{sample_route}

abbrev routes : List TopicRouteConfig
routes =
    sample_route "route-0" "devices/a/telemetry" false
    ∷ sample_route "route-1" "devices/+/events/#" true
    ∷ sample_route "route-2" "devices/#" true
    ∷ []

abbrev matcher : ConfigRouteMatcher
matcher = record {
  project_id = codes "project-1";
  routes =
      record {
        config = sample_route "route-1" "devices/+/events/#" true;
        matcher =
            exact (codes "devices")
            ∷ single_wild_card
            ∷ exact (codes "events")
            ∷ multi_wild_card
            ∷ [];
      }
      ∷ record {
        config = sample_route "route-2" "devices/#" true;
        matcher = exact (codes "devices") ∷ multi_wild_card ∷ [];
      }
      ∷ [];
}

matcher_built : new_matcher (codes "project-1") routes ≡ ok matcher
unfolding new_matcher compile compile_route parse new_filter validate_filter validate_route
    validate_text trim byte_len split contains str_eq
matcher_built = refl

abbrev message : MqttMessage
message = record {
  topic = codes "devices/a/events/x/y";
  qos = at_least_once;
  retain = false;
  payload = [];
  received_at = 0;
}

routed :
    match_message matcher message
    ≡ some (record {
      project_id = codes "project-1";
      route = sample_route "route-1" "devices/+/events/#" true;
      params = record { single_level = codes "a" ∷ []; multi_level = codes "x" ∷ codes "y" ∷ [] };
    })
unfolding match_message match_routes matches split contains str_eq
routed = refl

match_message-Chosen_example :
    Chosen matcher.project_id message.topic (keep is_enabled routes) (match_message matcher message)
match_message-Chosen_example =
    match_message-Chosen (codes "project-1") routes matcher message matcher_built

new_matcher-routes_example :
    (map config_of matcher.routes ≡ keep is_enabled routes)
    × All Compiles matcher.routes
    × HasDistinctIds routes
    × AreValid routes
new_matcher-routes_example = new_matcher-routes (codes "project-1") routes matcher matcher_built

abbrev filter : TopicFilter
filter = record {
  raw = codes "devices/+/events/#";
  levels =
      Matcher.exact (codes "devices")
      ∷ Matcher.single_wildcard
      ∷ Matcher.exact (codes "events")
      ∷ Matcher.multi_wildcard
      ∷ [];
}

abbrev captured : TopicParams
captured = record { single_level = codes "a" ∷ []; multi_level = codes "x" ∷ codes "y" ∷ [] }

filter_matches : Matcher.matches filter (codes "devices/a/events/x/y") ≡ some captured
unfolding Matcher.matches split contains str_eq
filter_matches = refl

matches_iff_example : (Matcher.matches filter (codes "devices/a/events/x/y") ≡ some captured) ↔ (
    IsConcrete (codes "devices/a/events/x/y")
    × Captures filter.levels
        (split slash (codes "devices/a/events/x/y"))
        captured.single_level
        captured.multi_level)
matches_iff_example = matches_iff filter (codes "devices/a/events/x/y") captured

-- The router takes a blank filter, and the configured routes do not.
blank_filter : Matcher.validate_mqtt_topic_filter (codes " ") ≡ ok tt
unfolding Matcher.validate_mqtt_topic_filter split contains str_eq
blank_filter = refl

blank_refused :
    validate_text "topic_filter" (codes " ") max_topic_bytes ≡ err (empty_field "topic_filter")
unfolding validate_text trim byte_len
blank_refused = refl

-- A handler that counts its calls.
abbrev count_calls : MqttMessage → TopicParams → ℕ → Result MqttEngineError (Unit {0}) × ℕ
count_calls m p n = (ok tt, n + 1)

abbrev handlers : List (MqttRoute ℕ)
handlers = record { filter = filter; handler = count_calls } ∷ []

dispatch_cases_example :
    (All (λ r. Matcher.matches r.filter message.topic ≡ none) handlers
      × (dispatch handlers message 0 ≡ (ok false, 0)))
    ⊎ ((r : MqttRoute ℕ) × (params : TopicParams) × IsFirst
          (λ r. Matcher.matches r.filter message.topic)
          handlers
          r
          params
        × (dispatch handlers message 0
            ≡ (let (res, s) = r.handler message params 0 in (res >>= λ _. ok true, s))))
dispatch_cases_example = dispatch_cases handlers message 0
