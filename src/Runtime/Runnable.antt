-- ===== src/Runtime/Runnable.antt =====
-- The projects that the runtime can run, described without the checks: what
-- crates/pipe-bolt-daemon/src/runtime.rs accepts.
use pipe_bolt.Prelude.{
  All, Exists, Exists-map, Option, [], any-map, any_iff, both_iff, inl, inr, keep, length, map,
  map_err, none, not, not-eq-false_iff, ok, refl, reject_if, reject_if-eq-ok_iff, some, sym,
  then-eq-ok_iff, trans_iff, true, ◌<◌, ◌↔◌, ◌∙◌, ◌∷◌, ◌≡◌,
}
use pipe_bolt.Text.{str_eq}
use pipe_bolt.Text.Equality.{eq_of_str_eq, str_eq-cases, str_eq_iff}
use pipe_bolt.Domain.Id.{Identifier}
use pipe_bolt.Domain.Config.{
  BrokerConnectionConfig, CommandTemplate, PayloadSchemaMapping, SinkDefinition, TopicRouteConfig,
}
use pipe_bolt.Domain.Rule.{ActionIntentTemplate, RuleDefinition, execute_command, forward_to_sink}
use pipe_bolt.Domain.Rule.Validate.{validate_definition}
use pipe_bolt.Domain.Project.{ProjectConfig, validate_project}
use pipe_bolt.Runtime.{RuntimeError, domain_error}
use pipe_bolt.Runtime.Validation.{
  check_mapping, check_route, contains_id, enabled_broker_ids, enabled_brokers, find_sink_by_id,
  find_template, is_reject, is_webhook, schema_mapping_ids,
}
use pipe_bolt.Runtime.Loops.{IsDistinct}

module _ {N : Type 0} where
  abbrev pub MappingIsKnown : ProjectConfig N → Option Identifier → Type 0
  MappingIsKnown p none = Unit
  MappingIsKnown p (some id) = Exists (λ (m : PayloadSchemaMapping N). m.id ≡ id) p.schema_mappings

  abbrev pub RouteIsServed : ProjectConfig N → BrokerConnectionConfig → TopicRouteConfig → Type 0
  RouteIsServed p broker r =
      (broker.id ≡ r.broker_id)
      × (MappingIsKnown p r.schema_mapping_id × (is_reject r.backpressure ≡ true))

  -- The sink that an action names is there, enabled and a webhook.
  abbrev pub SinkIsServed : ProjectConfig N → ActionIntentTemplate N → Type 0
  SinkIsServed p (forward_to_sink id) =
      (s : SinkDefinition) × (find_sink_by_id p id ≡ some s)
      × (s.enabled ≡ true)
      × (is_webhook s.kind ≡ true)
  SinkIsServed p _ = Unit

  -- The command template that an action names is there and enabled.
  abbrev pub CommandIsServed : ProjectConfig N → ActionIntentTemplate N → Type 0
  CommandIsServed p (execute_command id params) =
      (t : CommandTemplate N) × (find_template p.command_templates id ≡ some t) × (t.enabled ≡ true)
  CommandIsServed p _ = Unit

  pub record IsRunnable (p : ProjectConfig N) : Type 0 where
    pub is_valid : validate_project p ≡ ok tt
    pub is_enabled : p.enabled ≡ true
    pub broker_ids : IsDistinct (map (λ (b : BrokerConnectionConfig). b.id) p.brokers)
    pub route_ids : IsDistinct (map (λ (r : TopicRouteConfig). r.id) p.routes)
    pub mapping_ids : IsDistinct (map (λ (m : PayloadSchemaMapping N). m.id) p.schema_mappings)
    pub rules_valid : All (λ r. map_err domain_error (validate_definition r) ≡ ok tt) p.rules
    pub rule_ids : IsDistinct (map (λ (r : RuleDefinition N). r.id) p.rules)
    pub template_ids : IsDistinct (map (λ (t : CommandTemplate N). t.id) p.command_templates)
    pub sink_ids : IsDistinct (map (λ (s : SinkDefinition). s.id) p.sinks)
    pub broker : BrokerConnectionConfig
    pub only_broker : enabled_brokers p ≡ broker ∷ []
    pub has_route : 0 < length (keep (λ (r : TopicRouteConfig). r.enabled) p.routes)
    pub routes_served :
        All (λ (r : TopicRouteConfig). r.enabled ≡ true → RouteIsServed p broker r) p.routes
    pub templates_served :
        All
          (λ (t : CommandTemplate N). t.enabled ≡ true → broker.id ≡ t.broker_id)
          p.command_templates
    pub sinks_served :
        All (λ (r : RuleDefinition N). r.enabled ≡ true → All (SinkIsServed p) r.actions) p.rules
    pub commands_served :
        All (λ (r : RuleDefinition N). r.enabled ≡ true → All (CommandIsServed p) r.actions) p.rules

  check_mapping-ok_iff :
      (p : ProjectConfig N) (r : TopicRouteConfig) (mapping : Option Identifier)
      → (check_mapping p r mapping ≡ ok tt) ↔ MappingIsKnown p mapping
  check_mapping-ok_iff p r none = (λ h. tt, λ h. refl)
  check_mapping-ok_iff p r (some id) =
      let known =
        trans_iff (reject_if-eq-ok_iff _ _)
          (not-eq-false_iff (contains_id (schema_mapping_ids p) id)) in
      let found = any_iff (λ (m : PayloadSchemaMapping N). str_eq m.id id) p.schema_mappings in
      let as_ids =
        any-map (λ seen. str_eq seen id) (λ (m : PayloadSchemaMapping N). m.id) p.schema_mappings in
      (
        λ h.
            Exists-map _ _ (λ m e. eq_of_str_eq m.id id e) p.schema_mappings
              (found.0 (sym as_ids ∙ known.0 h)),
        λ h. known.1 (
            as_ids
            ∙ found.1 (Exists-map _ _ (λ m e. (str_eq_iff m.id id).1 e) p.schema_mappings h)),
      )

  pub broker_iff :
      (p : ProjectConfig N) (broker : BrokerConnectionConfig) (id : Identifier) (e : RuntimeError)
      → enabled_brokers p ≡ broker ∷ []
      → (reject_if (not (contains_id (enabled_broker_ids p) id)) e ≡ ok tt) ↔ (broker.id ≡ id)
  broker_iff p broker id e only = elim (str_eq-cases broker.id id) [
    | inl (same, equal) ↦ rw (only, same) (λ h. equal, λ h. refl)
    | inr (other, differ) ↦ rw (only, other) (λ h. cc, λ h. elim (differ h) [ ])
  ]

  pub check_route-ok_iff :
      (p : ProjectConfig N) (broker : BrokerConnectionConfig) (r : TopicRouteConfig)
      → enabled_brokers p ≡ broker ∷ []
      → (check_route p r ≡ ok tt) ↔ RouteIsServed p broker r
  check_route-ok_iff p broker r only = trans_iff (then-eq-ok_iff _ _) (
      both_iff (broker_iff p broker r.broker_id _ only) (
        trans_iff (then-eq-ok_iff _ _) (
          both_iff (check_mapping-ok_iff p r r.schema_mapping_id)
            (trans_iff (reject_if-eq-ok_iff _ _) (not-eq-false_iff (is_reject r.backpressure))))))
