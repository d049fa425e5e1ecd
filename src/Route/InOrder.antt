-- ===== src/Route/InOrder.antt =====
-- Which route a message takes: the first enabled one, in configuration order, whose filter matches.
use pipe_bolt.Prelude.{
  All, List, Option, Option-cases, Result, [], ap, err, inl, inr, keep, map, none, ok, some, subst,
  ◌∙◌, ◌∷◌, ◌≡◌,
}
use pipe_bolt.Prelude.First.{IsFirst, IsFirst-here, IsFirst-later}
use pipe_bolt.Text.{Str}
use pipe_bolt.Domain.Id.{Identifier}
use pipe_bolt.Domain.Config.{TopicRouteConfig}
use pipe_bolt.Matcher.{TopicParams}
use pipe_bolt.Error.{MqttEngineError}
use pipe_bolt.Message.{MqttMessage}
use pipe_bolt.Route.{
  CompiledConfigRoute, ConfigRouteMatch, ConfigRouteMatcher, TopicFilterLevel, match_message,
  match_routes, matches, new_matcher, parse,
}
use pipe_bolt.Route.Compile.{Compiles, config_of, is_enabled, new_matcher-routes}

-- What a configured route makes of a topic.
abbrev pub match_filter : Result MqttEngineError (List TopicFilterLevel) → Str → Option TopicParams
match_filter (ok levels) topic = matches levels topic
match_filter (err e) topic = none

abbrev pub takes : Str → TopicRouteConfig → Option TopicParams
takes topic r = match_filter (parse r.topic_filter) topic

-- The result of a search: nothing, or the first hit.
pub data Chosen (project_id : Identifier) (topic : Str) (routes : List TopicRouteConfig)
    : Option ConfigRouteMatch → Type 0 where
  nothing : All (λ r. takes topic r ≡ none) routes → Chosen project_id topic routes none
  hit :
      (r : TopicRouteConfig) (params : TopicParams)
      → IsFirst (takes topic) routes r params
      → Chosen project_id topic routes
          (some (record { project_id = project_id; route = r; params = params }))

Chosen-later :
    (project_id : Identifier) (topic : Str) (r : TopicRouteConfig) (routes : List TopicRouteConfig)
    {o : Option ConfigRouteMatch}
    → takes topic r ≡ none
    → Chosen project_id topic routes o
    → Chosen project_id topic (r ∷ routes) o
Chosen-later project_id topic r routes e (nothing h) = nothing (e, h)
Chosen-later project_id topic r routes e (hit q params first) =
    hit q params (IsFirst-later (takes topic) r q routes params e first)

match_routes-Chosen :
    (project_id : Identifier) (topic : Str) (compiled : List CompiledConfigRoute)
    → All Compiles compiled
    → Chosen project_id topic (map config_of compiled) (match_routes project_id compiled topic)
unfolding match_routes
match_routes-Chosen project_id topic [] h = nothing tt
match_routes-Chosen project_id topic (c ∷ compiled) (p, h) =
    let same : takes topic c.config ≡ matches c.matcher topic = ap (λ r. match_filter r topic) p in
    elim (Option-cases (matches c.matcher topic)) [
      | inl e ↦
          rw (e, match_routes)
            (Chosen-later project_id topic c.config (map config_of compiled) (same ∙ e)
              (match_routes-Chosen project_id topic compiled h))
      | inr (params, e) ↦
          rw (e, match_routes)
            (hit c.config params (IsFirst-here (takes topic) c.config _ params (same ∙ e)))
    ]

-- A matcher that is built sends a message to the first enabled route, in the order of the
-- configuration, whose filter matches the topic, with what the filter captures, and to none exactly
-- when no enabled route matches.
pub match_message-Chosen :
    (project_id : Identifier) (routes : List TopicRouteConfig) (m : ConfigRouteMatcher)
    (message : MqttMessage)
    → new_matcher project_id routes ≡ ok m
    → Chosen m.project_id message.topic (keep is_enabled routes) (match_message m message)
unfolding match_message
match_message-Chosen project_id routes m message h =
    let (in_order, compiles, distinct, valid) = new_matcher-routes project_id routes m h in
    subst
      (λ l. Chosen m.project_id message.topic l (match_routes m.project_id m.routes message.topic))
      in_order (match_routes-Chosen m.project_id message.topic m.routes compiles)
