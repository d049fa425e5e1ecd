-- ===== src/Runtime/Sinks.antt =====
-- A project that can be run and its forwarder together: crates/pipe-bolt-daemon/src/runtime.rs and
-- crates/pipe-bolt-core/src/forwarder.rs.
use pipe_bolt.Prelude.{
  some-injective, All, All-map, List, Result, [], none, ok, refl, some, sym, true, true≢false, ◌∙◌,
  ◌≡◌, ◌≢◌,
}
use pipe_bolt.Map.{BTreeMap}
use pipe_bolt.Error.{DispatchError}
use pipe_bolt.Domain.Id.{Identifier}
use pipe_bolt.Domain.Config.{SinkDefinition}
use pipe_bolt.Domain.Rule.{
  ActionIntentTemplate, RuleDefinition, add_metadata, drop_event, execute_command, forward_to_sink,
  stream_to_ui,
}
use pipe_bolt.Domain.Project.{ProjectConfig}
use pipe_bolt.Egress.{EgressPolicy, UrlLib}
use pipe_bolt.Forwarder.{ForwardLimits, ForwardTarget, HttpLib, SinkState, compile_sinks, target}
use pipe_bolt.Forwarder.Registry.{
  Answer, disabled, enabled, find_sink, missing, target-Answer, unsupported,
}
use pipe_bolt.Runtime.Validation.{is_webhook, validate_runtime_config}
use pipe_bolt.Runtime.Accepts.{validate_runtime_config-IsRunnable}
use pipe_bolt.Runtime.Runnable.{SinkIsServed}

module _ (L : UrlLib) (H : HttpLib) (limits : ForwardLimits) (policy : EgressPolicy) where
  none≢some : {s : SinkDefinition} → none ≢ some s
  none≢some e = cc

  answered :
      (id : Identifier) (sinks : List SinkDefinition) (s : SinkDefinition)
      (r : Result DispatchError (ForwardTarget L H))
      → find_sink L H limits policy id sinks ≡ some s
      → s.enabled ≡ true
      → is_webhook s.kind ≡ true
      → Answer L H limits policy id sinks r
      → (t : ForwardTarget L H) × (r ≡ ok t)
  answered id sinks s r found on hook (missing none_found) =
      elim (none≢some (sym none_found ∙ found)) [ ]
  answered id sinks s r found on hook (disabled d e off) =
      let same : d ≡ s = some-injective (sym e ∙ found) in
      elim (true≢false (sym on ∙ rw (← same) off)) [ ]
  answered id sinks s r found on hook (unsupported d ref table e o k) =
      let same : d ≡ s = some-injective (sym e ∙ found) in
      let kinds : is_webhook d.kind ≡ true = rw same hook in
      elim (true≢false (sym kinds ∙ rw k refl)) [ ]
  answered id sinks s r found on hook (enabled d url method headers timeout t e o k u m h l x) =
      (t, refl)

  -- The sink that an action names has a target in a registry.
  abbrev pub HasTarget : {N : Type 0} → BTreeMap (SinkState L H) → ActionIntentTemplate N → Type 0
  HasTarget registry (forward_to_sink id) =
      (t : ForwardTarget L H) × (target L H registry id ≡ ok t)
  HasTarget registry _ = Unit

  actions-HasTarget :
      {N : Type 0} (p : ProjectConfig N) (registry : BTreeMap (SinkState L H))
      (actions : List (ActionIntentTemplate N))
      → compile_sinks L H [] p.sinks limits policy ≡ ok registry
      → All (SinkIsServed p) actions
      → All (HasTarget registry) actions
  actions-HasTarget {N = N} p registry actions h served =
      All-map (SinkIsServed p) (HasTarget registry) one actions served
    where
      one : (a : ActionIntentTemplate N) → SinkIsServed p a → HasTarget registry a
      one (forward_to_sink id) (s, found, on, hook) =
          answered id p.sinks s (target L H registry id) found on hook
            (target-Answer L H limits policy p.sinks registry id h)
      one stream_to_ui s = tt
      one (execute_command id params) s = tt
      one drop_event s = tt
      one (add_metadata key value) s = tt

  -- When a project passes the checks of the runtime and the registry is compiled from its sinks, every
  -- sink that an action of an enabled rule forwards to has a target in the registry.
  pub validate_runtime_config-HasTarget :
      {N : Type 0} (p : ProjectConfig N) (registry : BTreeMap (SinkState L H))
      → validate_runtime_config p ≡ ok tt
      → compile_sinks L H [] p.sinks limits policy ≡ ok registry
      → All
          (λ (r : RuleDefinition N). r.enabled ≡ true → All (HasTarget registry) r.actions)
          p.rules
  validate_runtime_config-HasTarget p registry valid h =
      All-map _ _ (λ r served on. actions-HasTarget p registry r.actions h (served on)) p.rules
        ((validate_runtime_config-IsRunnable p).0 valid).sinks_served
