-- ===== src/Dispatch.antt =====
-- crates/pipe-bolt-core/src/dispatcher/action.rs: the dispatch of the action intents of one event.
-- The realtime sink, the forwarder, the command queue and the generator of uuids are the traits and
-- the library that the source is generic over: functions that change an arbitrary state `W`.
pub mod Drop
pub mod Engine
pub mod Execution
pub mod Outcome
pub mod Overlay
pub mod Reports
pub mod Snapshot
use pipe_bolt.Prelude.{
  Bool, List, Option, Result, String, [], err, false, if◌then◌else◌, is_empty, leb, length, ltb,
  map_err, none, not, ok, reject_if, some, true, ℕ, ◌&&◌, ◌++◌, ◌+◌, ◌>>=◌, ◌>>◌, ◌∷◌,
}
use pipe_bolt.Text.{Str, codes, str_eq}
use pipe_bolt.Json.{Value}
use pipe_bolt.Map.{BTreeMap, contains_key, extend, insert}
use pipe_bolt.Domain.Id.{Identifier, new_id}
use pipe_bolt.Domain.Event.{
  ActionIntent, NormalizedEvent, add_metadata, drop_event, execute_command, forward_to_sink,
  stream_to_ui,
}
use pipe_bolt.Error.{
  DispatchError, command_request_build, invalid_metadata_key, metadata_value_too_large,
  too_many_intents, too_many_metadata_entries,
}
use pipe_bolt.Metadata.{
  ActionMetadataLimits, MetadataValidationError, invalid_key, validate_action_metadata,
  value_too_large,
}

pub record DispatchLimits : Type 0 where
  pub max_intents_per_event : ℕ
  pub max_metadata_entries_per_event : ℕ
  pub max_metadata_key_bytes : ℕ
  pub max_metadata_value_bytes : ℕ

abbrev pub default_limits : DispatchLimits
default_limits = record {
  max_intents_per_event = 128;
  max_metadata_entries_per_event = 32;
  max_metadata_key_bytes = 128;
  max_metadata_value_bytes = 1024;
}

-- `DispatchLimits::metadata_limits`
abbrev pub metadata_limits : DispatchLimits → ActionMetadataLimits
metadata_limits l = record {
  max_key_bytes = l.max_metadata_key_bytes;
  max_value_bytes = l.max_metadata_value_bytes;
}

pub record RealtimePublishReceipt : Type 0 where
  pub accepted : Bool

pub record ForwardReceipt : Type 0 where
  pub sink_id : Identifier
  pub accepted : Bool

pub record CommandRequestReceipt : Type 0 where
  pub command_execution_id : Identifier
  pub command_template_id : Identifier
  pub accepted : Bool

pub record ForwardRequest (N : Type 0) : Type 0 where
  pub event : NormalizedEvent N
  pub sink_id : Identifier
  pub projection : Option (BTreeMap (Value N))

pub data CommandSource : Type 0 where
  api rule : CommandSource

pub record CommandExecutionRequest (N : Type 0) : Type 0 where
  pub project_id : Identifier
  pub command_execution_id : Identifier
  pub command_template_id : Identifier
  pub params : BTreeMap (Value N)
  pub source : CommandSource
  pub actor_id : Option Identifier
  pub source_event_id : Option Identifier
  pub correlation_id : Str
  pub reason : Option Str

pub data ExecutedAction : Type 0 where
  streamed_to_ui : RealtimePublishReceipt → ExecutedAction
  forwarded_to_sink : ForwardReceipt → ExecutedAction
  executed_command : CommandRequestReceipt → ExecutedAction
  added_metadata : Str → ExecutedAction
  dropped_event : ExecutedAction

pub data SkippedAction : Type 0 where
  after_drop : String → SkippedAction
  event_mismatch : String → Identifier → SkippedAction
  unsupported : String → SkippedAction

pub record FailedAction : Type 0 where
  pub action_type : String
  pub error : DispatchError

pub record DispatchOutcome : Type 0 where
  pub event_id : Identifier
  pub executed : List ExecutedAction
  pub skipped : List SkippedAction
  pub failed : List FailedAction
  pub dropped : Bool
  pub metadata_overlay : BTreeMap Str

-- The traits `RealtimeEventSink`, `EventForwarder` and `CommandRequestQueue`, and `Uuid::now_v7`.
pub record Boundaries (N W : Type 0) : Type 0 where
  pub try_publish : NormalizedEvent N → W → Result DispatchError RealtimePublishReceipt × W
  pub try_forward : ForwardRequest N → W → Result DispatchError ForwardReceipt × W
  pub try_enqueue_command :
      CommandExecutionRequest N → W → Result DispatchError CommandRequestReceipt × W
  pub now_v7 : W → Str × W

-- The variables of the loop of `dispatch`: the lists and the flag of the outcome, the overlay of the
-- context, and the state behind the boundaries.
pub record Progress (W : Type 0) : Type 0 where
  pub executed : List ExecutedAction
  pub skipped : List SkippedAction
  pub failed : List FailedAction
  pub dropped : Bool
  pub overlay : BTreeMap Str
  pub world : W

module _ {N : Type 0} where
  abbrev pub action_type : ActionIntent N → String
  action_type (stream_to_ui id) = "stream_to_ui"
  action_type (forward_to_sink id sink projection) = "forward_to_sink"
  action_type (execute_command id template params correlation) = "execute_command"
  action_type (drop_event id reason) = "drop_event"
  action_type (add_metadata id key value) = "add_metadata"

  -- `intent_event_id`, which is there for every intent.
  abbrev pub intent_event_id : ActionIntent N → Identifier
  intent_event_id (stream_to_ui id) = id
  intent_event_id (forward_to_sink id sink projection) = id
  intent_event_id (execute_command id template params correlation) = id
  intent_event_id (drop_event id reason) = id
  intent_event_id (add_metadata id key value) = id

  -- `enriched_event` of the outcome and of the context.
  unfoldable pub enriched_event : NormalizedEvent N → BTreeMap Str → NormalizedEvent N
  enriched_event original overlay =
      if is_empty overlay
      then original
      else (record original { metadata = extend original.metadata overlay })

abbrev pub metadata_error : MetadataValidationError → DispatchError
metadata_error (invalid_key reason) = invalid_metadata_key reason
metadata_error (value_too_large actual limit) = metadata_value_too_large actual limit

-- `validate_metadata`
unfoldable pub validate_metadata : Str → Str → DispatchLimits → Result DispatchError (Unit {0})
validate_metadata key value limits =
    map_err metadata_error (validate_action_metadata key value (metadata_limits limits))

-- `EventDispatchContext::insert_metadata`: the new overlay.
unfoldable pub insert_metadata :
    BTreeMap Str → Str → Str → DispatchLimits → Result DispatchError (BTreeMap Str)
insert_metadata overlay key value limits = do
  validate_metadata key value limits
  reject_if
      (not (contains_key key overlay) && leb limits.max_metadata_entries_per_event (length overlay))
      (too_many_metadata_entries (length overlay + 1) limits.max_metadata_entries_per_event)
  ok (insert key value overlay)

module _ {N W : Type 0} (b : Boundaries N W) (limits : DispatchLimits)
    (event : NormalizedEvent N) where
  -- `command_request_from_intent`
  unfoldable pub command_request_from_intent :
      Identifier → BTreeMap (Value N) → Str → Str → Result DispatchError (CommandExecutionRequest N)
  command_request_from_intent template params correlation uuid = do
    id ←
        map_err (λ _. command_request_build "generated command execution id is invalid")
          (new_id "command_execution_id" (codes "command_exec_" ++ uuid))
    ok (record {
      project_id = event.project_id;
      command_execution_id = id;
      command_template_id = template;
      params = params;
      source = rule;
      actor_id = none;
      source_event_id = some event.id;
      correlation_id = correlation;
      reason = some (codes "matched event " ++ event.id);
    })

  abbrev pub enqueue :
      Result DispatchError (CommandExecutionRequest N)
      → W
      → Result DispatchError CommandRequestReceipt × W
  enqueue (ok request) w = b.try_enqueue_command request w
  enqueue (err e) w = (err e, w)

  -- What the loop does with the answer of a boundary.
  abbrev pub record_answer :
      {A : Type 0}
      → Progress W
      → String
      → (A → ExecutedAction)
      → Result DispatchError A × W
      → Progress W
  record_answer p kind executed (ok receipt, w) = record p {
    executed = p.executed ++ executed receipt ∷ [];
    world = w;
  }
  record_answer p kind executed (err e, w) = record p {
    failed = p.failed ++ record { action_type = kind; error = e } ∷ [];
    world = w;
  }

  abbrev pub record_metadata : Progress W → Str → Result DispatchError (BTreeMap Str) → Progress W
  record_metadata p key (ok overlay) = record p {
    executed = p.executed ++ added_metadata key ∷ [];
    overlay = overlay;
  }
  record_metadata p key (err e) = record p {
    failed = p.failed ++ record { action_type = "add_metadata"; error = e } ∷ [];
  }

  -- The `match` of the loop of `dispatch`.
  unfoldable pub execute : Progress W → ActionIntent N → Progress W
  execute p (stream_to_ui id) =
      record_answer p "stream_to_ui" streamed_to_ui
        (b.try_publish (enriched_event event p.overlay) p.world)
  execute p (forward_to_sink id sink projection) =
      record_answer p "forward_to_sink" forwarded_to_sink (
        b.try_forward
          (record {
            event = enriched_event event p.overlay;
            sink_id = sink;
            projection = projection;
          })
          p.world)
  execute p (drop_event id reason) = record p {
    dropped = true;
    executed = p.executed ++ dropped_event ∷ [];
  }
  execute p (add_metadata id key value) =
      record_metadata p key (insert_metadata p.overlay key value limits)
  execute p (execute_command id template params correlation) =
      let (uuid, w) = b.now_v7 p.world in
      record_answer p "execute_command" executed_command
        (enqueue (command_request_from_intent template params correlation uuid) w)

  -- One round of the loop of `dispatch`.
  unfoldable pub dispatch_intent : Progress W → ActionIntent N → Progress W
  dispatch_intent p intent =
      if p.dropped
      then (record p { skipped = p.skipped ++ after_drop (action_type intent) ∷ [] })
      else if not (str_eq (intent_event_id intent) event.id)
      then (record p {
        skipped = p.skipped ++ event_mismatch (action_type intent) (intent_event_id intent) ∷ [];
      })
      else execute p intent

  unfoldable pub dispatch_all : Progress W → List (ActionIntent N) → Progress W
  dispatch_all p [] = p
  dispatch_all p (intent ∷ intents) = dispatch_all (dispatch_intent p intent) intents

  abbrev pub start : W → Progress W
  start w = record {
    executed = [];
    skipped = [];
    failed = [];
    dropped = false;
    overlay = [];
    world = w;
  }

  abbrev pub finish : Progress W → DispatchOutcome
  finish p = record {
    event_id = event.id;
    executed = p.executed;
    skipped = p.skipped;
    failed = p.failed;
    dropped = p.dropped;
    metadata_overlay = p.overlay;
  }

  -- `ActionDispatcher::dispatch`
  unfoldable pub dispatch : List (ActionIntent N) → W → Result DispatchError DispatchOutcome × W
  dispatch intents w =
      if ltb limits.max_intents_per_event (length intents)
      then (err (too_many_intents (length intents) limits.max_intents_per_event), w)
      else (let p = dispatch_all (start w) intents in (ok (finish p), p.world))
