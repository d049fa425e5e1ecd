-- ===== src/Route.antt =====
-- crates/pipe-bolt-core/src/pipeline/router.rs: the routes of a project's configuration, compiled and
-- matched in configuration order. A `HashSet` of ids is the list of the ids that were put in.
pub mod Agreement
pub mod Compile
pub mod InOrder
use pipe_bolt.Matcher.{TopicParams, no_params, push_single, set_multi}
use pipe_bolt.Prelude.{
  Bool, List, Option, Result, [], any, drop, err, false, get_elem?, if◌then◌else◌, is_empty, length,
  map, map_err, none, ok, some, true, ℕ, ◌++◌, ◌+◌, ◌==◌, ◌>>=◌, ◌>>◌, ◌||◌, ◌∷◌,
}
use pipe_bolt.Text.{Str, contains, split, str_eq}
use pipe_bolt.Domain.Id.{Identifier}
use pipe_bolt.Domain.Config.{TopicRouteConfig}
use pipe_bolt.Domain.Config.Filter.{hash, new_filter, plus, slash}
use pipe_bolt.Domain.Config.Validate.{validate_route}
use pipe_bolt.Error.{MqttEngineError, domain, invalid_config}
use pipe_bolt.Message.{MqttMessage}

pub data TopicFilterLevel : Type 0 where
  exact : Str → TopicFilterLevel
  single_wild_card multi_wild_card : TopicFilterLevel

unfoldable pub read_level : Str → TopicFilterLevel
read_level level =
    if str_eq level (plus ∷ [])
    then single_wild_card
    else if str_eq level (hash ∷ [])
    then multi_wild_card
    else exact level

-- `TopicFilterMatcher::parse`
unfoldable pub parse : Str → Result MqttEngineError (List TopicFilterLevel)
unfolding read_level
parse filter = do
  checked ← map_err domain (new_filter filter)
  ok (map read_level (split slash filter))

-- The loop of `TopicFilterMatcher::matches`.
unfoldable pub match_levels :
    List TopicFilterLevel → List Str → ℕ → TopicParams → Option TopicParams
match_levels [] topic index params = if index == length topic then some params else none
match_levels (exact expected ∷ levels) topic index params = elim (get_elem? topic index) [
  | none ↦ none
  | some actual ↦ elim (str_eq expected actual) [
    | true ↦ match_levels levels topic (index + 1) params
    | false ↦ none
  ]
]
match_levels (single_wild_card ∷ levels) topic index params = elim (get_elem? topic index) [
  | none ↦ none
  | some actual ↦ match_levels levels topic (index + 1) (push_single params actual)
]
match_levels (multi_wild_card ∷ levels) topic index params =
    some (set_multi params (drop index topic))

-- `TopicFilterMatcher::matches`
unfoldable pub matches : List TopicFilterLevel → Str → Option TopicParams
unfolding match_levels
matches levels topic =
    if is_empty topic || (contains plus topic || contains hash topic)
    then none
    else match_levels levels (split slash topic) 0 no_params

pub record CompiledConfigRoute : Type 0 where
  pub config : TopicRouteConfig
  pub matcher : List TopicFilterLevel

pub record ConfigRouteMatcher : Type 0 where
  pub project_id : Identifier
  pub routes : List CompiledConfigRoute

pub record ConfigRouteMatch : Type 0 where
  pub project_id : Identifier
  pub route : TopicRouteConfig
  pub params : TopicParams

-- `CompiledConfigRoute::new`
unfoldable pub compile_route : TopicRouteConfig → Result MqttEngineError CompiledConfigRoute
compile_route config = do
  matcher ← parse config.topic_filter
  ok (record { config = config; matcher = matcher })

abbrev pub has_id : Identifier → List Identifier → Bool
has_id id = any (λ j. str_eq j id)

-- The loop of `ConfigRouteMatcher::new`: the ids seen, the routes compiled and the routes left.
unfoldable pub compile :
    List Identifier
    → List CompiledConfigRoute
    → List TopicRouteConfig
    → Result MqttEngineError (List CompiledConfigRoute)
compile seen compiled [] = ok compiled
compile seen compiled (route ∷ routes) =
    let seen' = route.id ∷ seen in
    elim (has_id route.id seen) [
      | true ↦ err (invalid_config "duplicate route id")
      | false ↦ elim route.enabled [
        | false ↦ compile seen' compiled routes
        | true ↦ do
          map_err domain (validate_route route)
          c ← compile_route route
          compile seen' (compiled ++ c ∷ []) routes
      ]
    ]

-- `ConfigRouteMatcher::new`
unfoldable pub new_matcher :
    Identifier → List TopicRouteConfig → Result MqttEngineError ConfigRouteMatcher
new_matcher project_id routes = do
  compiled ← compile [] [] routes
  ok (record { project_id = project_id; routes = compiled })

-- The loop of `ConfigRouteMatcher::match_message`.
unfoldable pub match_routes : Identifier → List CompiledConfigRoute → Str → Option ConfigRouteMatch
match_routes project_id [] topic = none
match_routes project_id (route ∷ routes) topic = elim (matches route.matcher topic) [
  | none ↦ match_routes project_id routes topic
  | some params ↦ some (record { project_id = project_id; route = route.config; params = params })
]

-- `ConfigRouteMatcher::match_message`
unfoldable pub match_message : ConfigRouteMatcher → MqttMessage → Option ConfigRouteMatch
match_message m message = match_routes m.project_id m.routes message.topic
