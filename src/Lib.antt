-- ===== src/Lib.antt =====
-- pipe-bolt reads MQTT messages, routes each by its topic, normalizes its payload to an event,
-- evaluates the rules of the project on the event and dispatches the actions that follow. This
-- library models the parts of that pipeline that are pure or nearly so, the checks that a
-- project passes before it runs, the forwarder and the command processor behind the dispatcher,
-- the stored form of a configuration and the access to the management API, in the crates
-- pipe-bolt-domain, pipe-bolt-core, pipe-bolt-storage, pipe-bolt-daemon and pipe-bolt-api. Paths
-- below are from the root of the repository.
--
-- How the parts interact: a project configuration is validated (Domain), its routes and rules
-- are compiled once (Route, Rules); for each message the matcher chooses a route (Route), the
-- normalizer makes it an event (Normalizer), the rule engine turns the normalized event into
-- intents (Rules) and the dispatcher executes these in order against the sinks (Dispatch);
-- commands are validated or rendered from templates (Command). The runtime (Runtime) checks the
-- project first, gives the dispatcher its queues, and processes the commands that rules ask for;
-- the forwarder (Forwarder) delivers events to webhooks; the storage (Storage) keeps the
-- configuration with its secrets encrypted. The MQTT router (Matcher) is the variant of the
-- matcher that calls handlers.
--
-- - Prelude: library names, results, lists. Text: Rust's `str` as its Unicode scalar values,
--   split and join by a character. Map: `BTreeMap` with text keys as an association list. Json:
--   serde_json's `Value` over a parameter for its numbers.
-- - Domain/Error, Domain/Id: crates/pipe-bolt-domain/src/error.rs and id.rs; `new_id` is the
--   constructor of every id type.
-- - Domain/Config, Domain/Config/Filter, Domain/Config/Validate, Domain/Project:
--   crates/pipe-bolt-domain/src/config.rs; a method `validate` of a type is `validate_<type>`.
-- - Domain/Rule, Domain/Rule/Validate: crates/pipe-bolt-domain/src/rule.rs and action.rs.
--   Domain/Event: crates/pipe-bolt-domain/src/event.rs, and the intents of action.rs.
-- - Error: crates/pipe-bolt-core/src/error.rs, the errors of the modelled parts.
-- - Metadata: crates/pipe-bolt-core/src/action_metadata.rs. Message:
--   crates/pipe-bolt-core/src/message/envelope.rs.
-- - Matcher: crates/pipe-bolt-core/src/router/matcher.rs. `match_levels` is the loop of
--   `TopicFilter::matches`; Matcher/Dispatch has `MqttRouter::route` and `MqttRouter::dispatch`,
--   where a handler is a function on a state that stands for its effects.
-- - Route: crates/pipe-bolt-core/src/pipeline/router.rs. `compile` is the loop of
--   `ConfigRouteMatcher::new` and `match_routes` that of `match_message`.
-- - Rules, Rules/Evaluate: crates/pipe-bolt-core/src/rule/rules.rs. `compile_rules` is the loop
--   of `RuleEngine::with_limits`, `evaluate_rules` that of `RuleEngine::evaluate`.
-- - Dispatch: crates/pipe-bolt-core/src/dispatcher/action.rs, with the requests of
--   crates/pipe-bolt-domain/src/command.rs and of crates/pipe-bolt-core/src/forwarder.rs.
--   `Boundaries` holds the sinks, the command queue and the generator of ids as functions on a
--   state; `Progress` holds the variables of the loop of `ActionDispatcher::dispatch`, whose
--   round is `dispatch_intent`. Dispatch/Reports says what becomes of each intent,
--   and Dispatch/Execution and Dispatch/Outcome that the loop does it; Dispatch/Engine is about
--   the intents that the rule engine returns.
-- - Backoff: crates/pipe-bolt-core/src/mqtt/backoff.rs; durations are nanoseconds, saturating at
--   the greatest `Duration`.
-- - Normalizer, Normalizer/Fields, Normalizer/Outcome, Normalizer/Routed:
--   crates/pipe-bolt-core/src/pipeline/normalizer.rs and mod.rs. `extract_each` is the loop of
--   `extract_fields`; `normalize_match` is `normalize_routed_message` once the route is known.
--   The uuid of the event is a parameter.
-- - Command, Command/Template: crates/pipe-bolt-core/src/command.rs. `validate_command` is
--   `CommandRequest::validate`; `render_from` is the loop of `render_text_template` as a walk
--   over the characters.
-- - Effects: fallible code that changes a state, and traversals with it.
-- - Command/Rendered: crates/pipe-bolt-domain/src/command.rs and
--   `CommandTemplateRenderer::render`.
-- - Forwarder, Forwarder/Registry: the limits and `SinkRegistry` of
--   crates/pipe-bolt-core/src/forwarder.rs, with `HttpLib` for the types of HTTP headers.
--   Forwarder/Acceptance: `try_forward` over the sending half of a channel. Forwarder/Delivery,
--   Forwarder/Responses: `execute_request`, `read_limited_response` and the counters, at what
--   the client answers. Forwarder/Worker, Forwarder/Conservation: `run`, `drain_remaining` and
--   the tasks as the steps of one state; every order of the steps that the channels, the tasks
--   and the timer allow is a run, and some that they do not.
-- - Storage, Storage/Codec, Storage/RoundTrip, Storage/Durations:
--   crates/pipe-bolt-storage/src/project_config_codec.rs; `encode` and `decode` go from and to
--   the stored records, and serde is left out. Storage/Secret, Storage/Keyring:
--   crates/pipe-bolt-storage/src/secret.rs, with `CryptoLib` for the cipher, base64 and the
--   random generator.
-- - Runtime, Runtime/Validation, Runtime/Loops, Runtime/Runnable, Runtime/Accepts: the checks
--   before a start in crates/pipe-bolt-daemon/src/runtime.rs, and the projects that can be run.
--   Runtime/Sinks, Runtime/Served and Runtime/Resolved join them with the forwarder and with the
--   command processor. Runtime/Stats: the counters, the command queue and the realtime sink.
--   Runtime/Processor, Runtime/Audit: `process_command_request` over the storage and the
--   engines, which change a state. Runtime/Subscriptions: `merged_subscriptions`.
-- - Api, Api/Auth, Api/Access, Api/Bearer: crates/pipe-bolt-api/src/error.rs and auth.rs, with
--   the digest as a parameter.
-- - Egress, Egress/Networks, Egress/Admission: the egress policy in
--   crates/pipe-bolt-core/src/forwarder.rs. URLs and the parser of addresses are the parameter
--   `UrlLib`.
-- - Realtime, Realtime/Prefix, Realtime/Filter: the filter of telemetry events in
--   crates/pipe-bolt-core/src/web/realtime/filter.rs; `device_of` and `event_type_of` are
--   `telemetry_device` and `telemetry_event_type` at the levels of a topic.
-- - Tests: sample values, runs of the code on them, and an instance of each theorem.
--
-- Bounds and fuel: every loop of the modelled code walks a list or a tree, so that the models
-- are structural recursions without fuel. Lengths are natural numbers that cannot reach 2^64,
-- since they count elements in memory; the counters of statistics wrap around at 2^64; durations
-- saturate as in the source.
--
-- Not modelled: the display of errors, serde and schema derivation; JSON numbers and their
-- comparison, a parameter (`JsonLib`); the JSON parser and printer, the base64 decoder and
-- uuids, which are parameters too; the HTTP client and the channels of the forwarder; the bus,
-- the MQTT engine and the rest of the realtime endpoints of crates/pipe-bolt-core, which are
-- asynchronous I/O around the modelled parts; the check of the filter that a request of these
-- endpoints gives; the SQL of crates/pipe-bolt-storage; the HTTP handlers of
-- crates/pipe-bolt-api; the start, the shutdown and the reload of runtimes in
-- crates/pipe-bolt-daemon; the web application.
pub mod Api
pub mod Backoff
pub mod Command
pub mod Dispatch
pub mod Domain
pub mod Effects
pub mod Egress
pub mod Error
pub mod Forwarder
pub mod Json
pub mod Map
pub mod Matcher
pub mod Message
pub mod Metadata
pub mod Normalizer
pub mod Prelude
pub mod Realtime
pub mod Route
pub mod Rules
pub mod Runtime
pub mod Storage
pub mod Tests
pub mod Text
