-- ===== src/Normalizer/Routed.antt =====
-- What becomes of a message: the route it takes and the event it is made.
use pipe_bolt.Prelude.{
  >>=-eq-ok, All, List, Option, [], ap, keep, none, ok, ok-injective, some, subst, sym, ◌≡◌,
}
use pipe_bolt.Prelude.First.{IsFirst}
use pipe_bolt.Text.{Str}
use pipe_bolt.Json.{JsonLib}
use pipe_bolt.Matcher.{TopicParams}
use pipe_bolt.Domain.Id.{Identifier}
use pipe_bolt.Domain.Config.{PayloadSchemaMapping, TopicRouteConfig}
use pipe_bolt.Domain.Event.{NormalizedEvent}
use pipe_bolt.Message.{MqttMessage}
use pipe_bolt.Route.{ConfigRouteMatch, ConfigRouteMatcher, compile, new_matcher}
use pipe_bolt.Route.Compile.{is_enabled}
use pipe_bolt.Route.InOrder.{Chosen, hit, match_message-Chosen, nothing, takes}
use pipe_bolt.Normalizer.{
  NormalizationContext, NormalizerLimits, mapping_for, normalize, normalize_match,
  normalize_routed_message,
}
use pipe_bolt.Normalizer.Outcome.{IsNormalized, normalize-IsNormalized}

module _ (J : JsonLib) where
  open J use {Number}

  abbrev context_for :
      List (PayloadSchemaMapping Number)
      → Identifier
      → TopicRouteConfig
      → TopicParams
      → NormalizationContext Number
  context_for mappings project_id route params = record {
    project_id = project_id;
    route = route;
    params = params;
    schema_mapping = mapping_for J mappings route.schema_mapping_id;
  }

  -- What becomes of a message under the enabled routes of a project.
  pub data Routed (limits : NormalizerLimits) (uuid : Str)
      (mappings : List (PayloadSchemaMapping Number)) (message : MqttMessage)
      (project_id : Identifier) (routes : List TopicRouteConfig)
      : Option (NormalizedEvent Number) → Type 0 where
    unrouted :
        All (λ r. takes message.topic r ≡ none) routes
        → Routed limits uuid mappings message project_id routes none
    event :
        (route : TopicRouteConfig) (params : TopicParams) (e : NormalizedEvent Number)
        → IsFirst (takes message.topic) routes route params
        → IsNormalized J limits uuid message (context_for mappings project_id route params) e
        → Routed limits uuid mappings message project_id routes (some e)

  normalize_match-Routed :
      (limits : NormalizerLimits) (uuid : Str) (mappings : List (PayloadSchemaMapping Number))
      (message : MqttMessage) (project_id : Identifier) (routes : List TopicRouteConfig)
      {found : Option ConfigRouteMatch} {o : Option (NormalizedEvent Number)}
      → Chosen project_id message.topic routes found
      → normalize_match J limits uuid mappings message found ≡ ok o
      → Routed limits uuid mappings message project_id routes o
  unfolding normalize_match
  normalize_match-Routed limits uuid mappings message project_id routes (nothing none_takes) h =
      subst (Routed limits uuid mappings message project_id routes) (ok-injective h)
        (unrouted none_takes)
  normalize_match-Routed limits uuid mappings message project_id routes (hit r params first) h =
      let (e, normalized, h) =
        >>=-eq-ok (normalize J limits uuid message (context_for mappings project_id r params)) _
          h in
      subst (Routed limits uuid mappings message project_id routes) (ok-injective h) (
        Routed.event r params e first (normalize-IsNormalized J limits uuid message _ e normalized))

  new_matcher-project_id :
      (project_id : Identifier) (routes : List TopicRouteConfig) (m : ConfigRouteMatcher)
      → new_matcher project_id routes ≡ ok m
      → project_id ≡ m.project_id
  unfolding new_matcher
  new_matcher-project_id project_id routes m h =
      let (compiled, compiles, h) = >>=-eq-ok (compile [] [] routes) _ h in
      ap (λ n. n.project_id) (ok-injective h)

  -- When a message is processed without an error, by a matcher that was built from the routes of a
  -- project, then either no enabled route takes its topic and there is no event, or the event is
  -- normalized for the first enabled route that does: it carries the project, the route, its broker
  -- and event type, the topic, the decoded payload, the extracted device id and fields, and the copy
  -- of the payload that the limits ask for, all within the limits.
  pub normalize_routed_message-Routed :
      (limits : NormalizerLimits) (uuid : Str) (mappings : List (PayloadSchemaMapping Number))
      (message : MqttMessage) (project_id : Identifier) (routes : List TopicRouteConfig)
      (m : ConfigRouteMatcher) (o : Option (NormalizedEvent Number))
      → new_matcher project_id routes ≡ ok m
      → normalize_routed_message J m limits uuid mappings message ≡ ok o
      → Routed limits uuid mappings message project_id (keep is_enabled routes) o
  unfolding normalize_routed_message
  normalize_routed_message-Routed limits uuid mappings message project_id routes m o built h =
      subst (λ p. Routed limits uuid mappings message p (keep is_enabled routes) o)
        (sym (new_matcher-project_id project_id routes m built))
        (normalize_match-Routed limits uuid mappings message m.project_id (keep is_enabled routes)
          (match_message-Chosen project_id routes m message built) h)
