-- ===== src/Runtime/Resolved.antt =====
-- A project that can be run and its command processor together:
-- crates/pipe-bolt-daemon/src/runtime.rs.
use pipe_bolt.Prelude.{Exists, List, map, true, ◌≡◌}
use pipe_bolt.Json.{JsonLib}
use pipe_bolt.Domain.Id.{Identifier}
use pipe_bolt.Domain.Rule.{ActionIntentTemplate, RuleDefinition, execute_command}
use pipe_bolt.Domain.Project.{ProjectConfig}
use pipe_bolt.Runtime.Processor.{CommandProcessorBroker}
use pipe_bolt.Runtime.Served.{Served}

module _ (J : JsonLib) where
  -- An action asks for the command of a template.
  abbrev pub AsksFor : Identifier → ActionIntentTemplate J.Number → Type 0
  AsksFor template (execute_command id params) = template ≡ id
  AsksFor template _ = ⊥

  -- Some enabled rule of the project asks for the command of a template.
  abbrev pub IsAskedFor : ProjectConfig J.Number → Identifier → Type 0
  IsAskedFor p template =
      Exists
        (λ (r : RuleDefinition J.Number). (r.enabled ≡ true) × Exists (AsksFor template) r.actions)
        p.rules

module _ (J : JsonLib) {W : Type 0} where
  -- The brokers of the engines that run are the enabled ones.
  abbrev pub ids_of : List (CommandProcessorBroker W) → List Identifier
  ids_of engines = map (λ (b : CommandProcessorBroker W). b.broker_id) engines
