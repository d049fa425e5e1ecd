-- ===== src/Runtime/Accepts.antt =====
-- The checks of a project let through the projects that can be run, and no others:
-- crates/pipe-bolt-daemon/src/runtime.rs.
use pipe_bolt.Prelude.{
  some-injective, All, All-keep_iff, All-same, Option, [], arith, both_iff, for_each,
  for_each-eq-ok_iff, keep, length, map, map_err, none, not, not-eq-false_iff, ok, refl, reject_if,
  reject_if-eq-ok_iff, some, then-eq-ok_iff, trans_iff, true, ◌<◌, ◌↔◌, ◌∷◌, ◌≡◌,
}
use pipe_bolt.Domain.Error.{Check}
use pipe_bolt.Domain.Id.{Identifier}
use pipe_bolt.Domain.Config.{
  BrokerConnectionConfig, CommandTemplate, PayloadSchemaMapping, SinkDefinition, TopicRouteConfig,
}
use pipe_bolt.Domain.Rule.{
  ActionIntentTemplate, RuleDefinition, add_metadata, drop_event, execute_command, forward_to_sink,
  stream_to_ui,
}
use pipe_bolt.Domain.Rule.Validate.{validate_definition}
use pipe_bolt.Domain.Project.{ProjectConfig, validate_project}
use pipe_bolt.Runtime.{RuntimeError, domain_error}
use pipe_bolt.Runtime.Validation.{
  check_command, check_command_reference, check_route, check_sink, check_sink_reference,
  check_template, enabled_brokers, find_sink_by_id, find_template, is_webhook,
  validate_command_templates, validate_routes, validate_rule_command_references,
  validate_rule_sink_references, validate_runtime_config, validate_single_enabled_broker,
  validate_unique_ids,
}
use pipe_bolt.Runtime.Loops.{
  IsDistinct, count_checked-ok_iff, map_err-ok_iff, single_iff, unchecked_iff, unique_iff,
}
use pipe_bolt.Runtime.Runnable.{
  CommandIsServed, IsRunnable, RouteIsServed, SinkIsServed, broker_iff, check_route-ok_iff,
}

check_sink-ok_iff :
    (rule_id id : Identifier) (found : Option SinkDefinition)
    → (check_sink rule_id id found ≡ ok tt)
      ↔ ((s : SinkDefinition) × (found ≡ some s) × (s.enabled ≡ true) × (is_webhook s.kind ≡ true))
check_sink-ok_iff rule_id id none = (λ h. cc, λ h. let (s, e, on, hook) = h in cc)
check_sink-ok_iff rule_id id (some s) =
    let both = trans_iff (then-eq-ok_iff _ _) (
      both_iff (trans_iff (reject_if-eq-ok_iff _ _) (not-eq-false_iff s.enabled))
        (trans_iff (reject_if-eq-ok_iff _ _) (not-eq-false_iff (is_webhook s.kind)))) in
    (
      λ h. let (on, hook) = both.0 h in (s, refl, on, hook),
      λ h.
          let (r, e, on, hook) = h in
          let same : s ≡ r = some-injective e in both.1 (rw same on, rw same hook),
    )

module _ {N : Type 0} where
  check_command-ok_iff :
      (rule_id id : Identifier) (found : Option (CommandTemplate N))
      → (check_command rule_id id found ≡ ok tt)
        ↔ ((t : CommandTemplate N) × (found ≡ some t) × (t.enabled ≡ true))
  check_command-ok_iff rule_id id none = (λ h. cc, λ h. let (t, e, r) = h in cc)
  check_command-ok_iff rule_id id (some t) =
      let on = trans_iff (reject_if-eq-ok_iff _ _) (not-eq-false_iff t.enabled) in
      (
        λ h. (t, refl, on.0 h),
        λ h.
            let (r, e, enabled) = h in
            let same : t ≡ r = some-injective e in on.1 (rw same enabled),
      )

  check_sink_reference-ok_iff :
      (p : ProjectConfig N) (rule_id : Identifier) (action : ActionIntentTemplate N)
      → (check_sink_reference p rule_id action ≡ ok tt) ↔ SinkIsServed p action
  check_sink_reference-ok_iff p rule_id (forward_to_sink id) =
      check_sink-ok_iff rule_id id (find_sink_by_id p id)
  check_sink_reference-ok_iff p rule_id stream_to_ui = (λ h. tt, λ h. refl)
  check_sink_reference-ok_iff p rule_id (execute_command id params) = (λ h. tt, λ h. refl)
  check_sink_reference-ok_iff p rule_id drop_event = (λ h. tt, λ h. refl)
  check_sink_reference-ok_iff p rule_id (add_metadata key value) = (λ h. tt, λ h. refl)

  check_command_reference-ok_iff :
      (p : ProjectConfig N) (rule_id : Identifier) (action : ActionIntentTemplate N)
      → (check_command_reference p rule_id action ≡ ok tt) ↔ CommandIsServed p action
  check_command_reference-ok_iff p rule_id (execute_command id params) =
      check_command-ok_iff rule_id id (find_template p.command_templates id)
  check_command_reference-ok_iff p rule_id stream_to_ui = (λ h. tt, λ h. refl)
  check_command_reference-ok_iff p rule_id (forward_to_sink id) = (λ h. tt, λ h. refl)
  check_command_reference-ok_iff p rule_id drop_event = (λ h. tt, λ h. refl)
  check_command_reference-ok_iff p rule_id (add_metadata key value) = (λ h. tt, λ h. refl)

  -- A loop over the rules that are enabled, with a loop over their actions in it.
  rules_iff :
      (p : ProjectConfig N) (check : Identifier → ActionIntentTemplate N → Check RuntimeError)
      (Served : ActionIntentTemplate N → Type 0)
      → ((rule_id : Identifier) (a : ActionIntentTemplate N) → (check rule_id a ≡ ok tt) ↔ Served a)
      → (for_each
            (λ (r : RuleDefinition N). for_each (check r.id) r.actions)
            (keep (λ (r : RuleDefinition N). r.enabled) p.rules)
          ≡ ok tt)
        ↔ All (λ (r : RuleDefinition N). r.enabled ≡ true → All Served r.actions) p.rules
  rules_iff p check Served each =
      trans_iff
        (for_each-eq-ok_iff _ (λ (r : RuleDefinition N). All Served r.actions)
          (λ r. for_each-eq-ok_iff (check r.id) Served (each r.id) r.actions) _)
        (All-keep_iff (λ (r : RuleDefinition N). r.enabled) _ p.rules)

  validate_unique_ids-ok_iff :
      (p : ProjectConfig N)
      → (validate_unique_ids p ≡ ok tt) ↔ (
          IsDistinct (map (λ (b : BrokerConnectionConfig). b.id) p.brokers)
          × (IsDistinct (map (λ (r : TopicRouteConfig). r.id) p.routes)
              × (IsDistinct (map (λ (m : PayloadSchemaMapping N). m.id) p.schema_mappings)
                  × ((All (λ r. map_err domain_error (validate_definition r) ≡ ok tt) p.rules
                        × IsDistinct (map (λ (r : RuleDefinition N). r.id) p.rules))
                      × (IsDistinct (map (λ (t : CommandTemplate N). t.id) p.command_templates)
                          × IsDistinct (map (λ (s : SinkDefinition). s.id) p.sinks))))))
  unfolding validate_unique_ids
  validate_unique_ids-ok_iff p = trans_iff (then-eq-ok_iff _ _) (
      both_iff (unchecked_iff _ _ p.brokers) (
        trans_iff (then-eq-ok_iff _ _) (
          both_iff (unchecked_iff _ _ p.routes) (
            trans_iff (then-eq-ok_iff _ _) (
              both_iff (unchecked_iff _ _ p.schema_mappings) (
                trans_iff (then-eq-ok_iff _ _) (
                  both_iff (unique_iff _ _ _ p.rules) (
                    trans_iff (then-eq-ok_iff _ _) (
                      both_iff (unchecked_iff _ _ p.command_templates)
                        (unchecked_iff _ _ p.sinks))))))))))

  validate_routes-ok_iff :
      (p : ProjectConfig N) (broker : BrokerConnectionConfig)
      → enabled_brokers p ≡ broker ∷ []
      → (validate_routes p ≡ ok tt) ↔ (
          All (λ (r : TopicRouteConfig). r.enabled ≡ true → RouteIsServed p broker r) p.routes
          × (0 < length (keep (λ (r : TopicRouteConfig). r.enabled) p.routes)))
  unfolding validate_routes
  validate_routes-ok_iff p broker only = trans_iff (count_checked-ok_iff (check_route p) _ 0 _) (
      both_iff
        (trans_iff
          (All-same _ _ (λ r. check_route-ok_iff p broker r only)
            (keep (λ (r : TopicRouteConfig). r.enabled) p.routes))
          (All-keep_iff (λ (r : TopicRouteConfig). r.enabled) _ p.routes))
        (λ h. omega arith, λ h. omega arith))

  validate_command_templates-ok_iff :
      (p : ProjectConfig N) (broker : BrokerConnectionConfig)
      → enabled_brokers p ≡ broker ∷ []
      → (validate_command_templates p ≡ ok tt)
        ↔ All
            (λ (t : CommandTemplate N). t.enabled ≡ true → broker.id ≡ t.broker_id)
            p.command_templates
  unfolding validate_command_templates
  validate_command_templates-ok_iff p broker only =
      trans_iff
        (for_each-eq-ok_iff (check_template p) (λ (t : CommandTemplate N). broker.id ≡ t.broker_id)
          (λ t. broker_iff p broker t.broker_id _ only) _)
        (All-keep_iff (λ (t : CommandTemplate N). t.enabled) _ p.command_templates)

  sinks_iff :
      (p : ProjectConfig N)
      → (validate_rule_sink_references p ≡ ok tt)
        ↔ All (λ (r : RuleDefinition N). r.enabled ≡ true → All (SinkIsServed p) r.actions) p.rules
  unfolding validate_rule_sink_references
  sinks_iff p = rules_iff p (check_sink_reference p) _ (check_sink_reference-ok_iff p)

  commands_iff :
      (p : ProjectConfig N)
      → (validate_rule_command_references p ≡ ok tt)
        ↔ All
            (λ (r : RuleDefinition N). r.enabled ≡ true → All (CommandIsServed p) r.actions)
            p.rules
  unfolding validate_rule_command_references
  commands_iff p = rules_iff p (check_command_reference p) _ (check_command_reference-ok_iff p)

  -- The checks pass exactly the projects that can be run: the project is valid and enabled, the ids of
  -- each of its collections are distinct, exactly one broker is enabled, some route is enabled, every
  -- enabled route and command template belongs to that broker, every enabled route has a known mapping
  -- and the policy to reject, and what the actions of the enabled rules name is there and enabled,
  -- sinks being webhooks.
  pub validate_runtime_config-IsRunnable :
      (p : ProjectConfig N) → (validate_runtime_config p ≡ ok tt) ↔ IsRunnable p
  unfolding validate_runtime_config validate_single_enabled_broker
  validate_runtime_config-IsRunnable p = (forth, back)
    where
      forth : validate_runtime_config p ≡ ok tt → IsRunnable p
      forth h =
          let (valid, h) = (then-eq-ok_iff (map_err domain_error (validate_project p)) _).0 h in
          let (enabled, h) = (then-eq-ok_iff (reject_if (not p.enabled) _) _).0 h in
          let (unique, h) = (then-eq-ok_iff (validate_unique_ids p) _).0 h in
          let (single, h) = (then-eq-ok_iff (validate_single_enabled_broker p) _).0 h in
          let (routes, h) = (then-eq-ok_iff (validate_routes p) _).0 h in
          let (templates, h) = (then-eq-ok_iff (validate_command_templates p) _).0 h in
          let (sinks, commands) = (then-eq-ok_iff (validate_rule_sink_references p) _).0 h in
          let (brokers, ids) = (validate_unique_ids-ok_iff p).0 unique in
          let (broker, only) = (single_iff (enabled_brokers p)).0 single in
          let (served, some_route) = (validate_routes-ok_iff p broker only).0 routes in
          record {
            is_valid = (map_err-ok_iff (validate_project p)).0 valid;
            is_enabled = (not-eq-false_iff p.enabled).0 ((reject_if-eq-ok_iff _ _).0 enabled);
            broker_ids = brokers;
            route_ids = ids.0;
            mapping_ids = ids.1.0;
            rules_valid = ids.1.1.0.0;
            rule_ids = ids.1.1.0.1;
            template_ids = ids.1.1.1.0;
            sink_ids = ids.1.1.1.1;
            broker = broker;
            only_broker = only;
            has_route = some_route;
            routes_served = served;
            templates_served = (validate_command_templates-ok_iff p broker only).0 templates;
            sinks_served = (sinks_iff p).0 sinks;
            commands_served = (commands_iff p).0 commands;
          }

      back : IsRunnable p → validate_runtime_config p ≡ ok tt
      back r = (then-eq-ok_iff (map_err domain_error (validate_project p)) _).1 (
        (map_err-ok_iff (validate_project p)).1 r.is_valid,
        (then-eq-ok_iff (reject_if (not p.enabled) _) _).1 (
          (reject_if-eq-ok_iff _ _).1 ((not-eq-false_iff p.enabled).1 r.is_enabled),
          (then-eq-ok_iff (validate_unique_ids p) _).1 (
            (validate_unique_ids-ok_iff p).1 (
              r.broker_ids,
              (
                r.route_ids,
                (r.mapping_ids, ((r.rules_valid, r.rule_ids), (r.template_ids, r.sink_ids))),
              ),
            ),
            (then-eq-ok_iff (validate_single_enabled_broker p) _).1 (
              (single_iff (enabled_brokers p)).1 (r.broker, r.only_broker),
              (then-eq-ok_iff (validate_routes p) _).1 (
                (validate_routes-ok_iff p r.broker r.only_broker).1 (r.routes_served, r.has_route),
                (then-eq-ok_iff (validate_command_templates p) _).1 (
                  (validate_command_templates-ok_iff p r.broker r.only_broker).1 r.templates_served,
                  (then-eq-ok_iff (validate_rule_sink_references p) _).1
                      ((sinks_iff p).1 r.sinks_served, (commands_iff p).1 r.commands_served),
                ),
              ),
            ),
          ),
        ),
      )
